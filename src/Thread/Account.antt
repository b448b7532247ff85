-- ===== src/Thread/Account.antt =====
-- im-thread.c: where each message that was ever queued is.
use imcore.Prelude.{ℕ, ◌≡◌, ◌≤◌, ◌<◌, refl, ap, arith, ltb, ◌&&◌, ◌||◌}
use imcore.Prelude.{not, Bool, true, false, List, ◌∷◌, Option, none, some, if◌then◌else◌}
use mathlib.Core.Path.{subst}
use mathlib.Core.Option.{some-injective}
use imcore.Thread.{
  Lock, Thread, im_thread_new, mutex_lock, mutex_unlock, with_lock, im_thread_start,
  im_thread_is_current, new_message, enqueue, im_thread_post, im_thread_send, is_idle, Proxy, idle,
  ran, signalled, take_waiting, send_returns, im_thread_join, im_thread_stop, msg_free,
  im_thread_free, Step, starts, posts, sends, runs, signals, finishes, returns, stops, frees, Reach,
  here, step,
}
use imcore.Thread.Count.{
  count, Counts, at_loop, Accounts, count-append, with_lock-Accounts, enqueue-Accounts,
}
use imcore.Thread.Turn.{run_handler-Accounts, signal_sender-Accounts, finish_message-Accounts}

im_thread_post-Accounts :
    (caller : ℕ) (memory : Bool) (id : ℕ) (t u : Thread)
    → Accounts t
    → im_thread_post caller memory id t ≡ some u
    → Accounts u
unfolding im_thread_post
im_thread_post-Accounts caller true id t u a e =
    with_lock-Accounts caller (enqueue (new_message id false t)) t u
      (λ l. enqueue-Accounts id false t l a) e
im_thread_post-Accounts caller false id t u a e = subst Accounts (some-injective t u e) a

im_thread_send-Accounts :
    (caller : ℕ) (memory : Bool) (id : ℕ) (t u : Thread)
    → Accounts t
    → im_thread_send caller memory id t ≡ some u
    → Accounts u
unfolding im_thread_send
im_thread_send-Accounts caller memory id t u a e =
    pick (im_thread_is_current caller t || not memory) (with_lock caller run t) refl e
  where
    run : Thread → Thread
    run = enqueue (new_message id true t)

    waits : Option Thread → Option Thread
    waits o = elim o [ none ↦ none | some x ↦ some (record x { waiting = caller ∷ x.waiting }) ]

    pick :
        (b : Bool) (o : Option Thread)
        → with_lock caller run t ≡ o
        → (if b then some t else waits o) ≡ some u
        → Accounts u
    pick true o h e = subst Accounts (some-injective t u e) a
    pick false none h e = cc
    pick false (some x) h e =
        subst Accounts (some-injective (record x { waiting = caller ∷ x.waiting }) u e)
          (with_lock-Accounts caller run t x (λ l. enqueue-Accounts id true t l a) h)

send_returns-Accounts :
    (caller : ℕ) (t u : Thread) → Accounts t → send_returns caller t ≡ some u → Accounts u
unfolding send_returns
send_returns-Accounts caller t u a e = pick t.signal (take_waiting caller t.waiting) e
  where
    pick :
        (b : Bool) (o : Option (List ℕ))
        → (if b
            then elim o [
              | none ↦ none
              | some rest ↦ some (record t { signal = false; waiting = rest })
            ]
            else none)
          ≡ some u
        → Accounts u
    pick true none e = cc
    pick true (some rest) e =
        subst Accounts (some-injective (record t { signal = false; waiting = rest }) u e) a
    pick false o e = cc

-- What a stop leaves, to a thread other than the loop's own, is in no callback.
record Stopped (caller : ℕ) (t u : Thread) : Type 0 where
  accounts : Accounts u
  calm : im_thread_is_current caller t ≡ false → u.proxy ≡ idle

im_thread_stop-Stopped :
    (caller : ℕ) (t u : Thread) → Accounts t → im_thread_stop caller t ≡ some u → Stopped caller t u
unfolding im_thread_stop im_thread_join is_idle
im_thread_stop-Stopped caller t u a e =
    pick t.started (im_thread_is_current caller t) t.proxy refl refl refl e
  where
    off : Thread
    off = record t { started = false }

    pick :
        (on own : Bool) (p : Proxy)
        → t.started ≡ on
        → im_thread_is_current caller t ≡ own
        → t.proxy ≡ p
        → (if on && not own
            then if on && not own then if is_idle p then some off else none else some t
            else some t)
          ≡ some u
        → Stopped caller t u
    pick true true p s o i e =
        subst (Stopped caller t) (some-injective t u e)
          (record { accounts = a; calm = λ other. absurd (cc) })
    pick true false idle s o i e =
        subst (Stopped caller t) (some-injective off u e)
          (record { accounts = (a.0, λ _. i); calm = λ _. i })
    pick true false (ran m) s o i e = cc
    pick true false (signalled m) s o i e = cc
    pick false own p s o i e =
        subst (Stopped caller t) (some-injective t u e) (record { accounts = a; calm = λ _. a.1 s })

im_thread_free-Accounts :
    (caller : ℕ) (t u : Thread) → Accounts t → im_thread_free caller t ≡ some u → Accounts u
unfolding im_thread_free
im_thread_free-Accounts caller t u a e =
    pick t.wraped (im_thread_is_current caller t) refl (im_thread_stop caller t) refl e
  where
    freed_run : Option Thread → Option Thread
    freed_run o = elim o [ none ↦ none | some x ↦ some (record x { freed = true }) ]

    stopped_run : Option Thread → Option Thread
    stopped_run o = elim o [ none ↦ none | some s ↦ freed_run (with_lock caller msg_free s) ]

    emptied :
        (s : Thread) (l : Lock)
        → Accounts s
        → s.proxy ≡ idle
        → Accounts (msg_free (record s { lock = l }))
    emptied s l b i =
        unfold msg_free in
        (
          λ r.
              let (held_once, handlers, queued) = b.0 r in
              (
                omega (arith, held_once, count-append r s.msg_head s.dropped),
                handlers,
                omega (arith, ap (at_loop r) i),
              ),
          λ _. i,
        )

    last :
        (s : Thread) (o : Option Thread)
        → Accounts s
        → s.proxy ≡ idle
        → with_lock caller msg_free s ≡ o
        → freed_run o ≡ some u
        → Accounts u
    last s none b i h e = cc
    last s (some x) b i h e =
        subst Accounts (some-injective (record x { freed = true }) u e)
          (with_lock-Accounts caller msg_free s x (λ l. emptied s l b i) h)

    pick :
        (wrapped own : Bool)
        → im_thread_is_current caller t ≡ own
        → (o : Option Thread) → im_thread_stop caller t ≡ o
        → (if wrapped || own then some t else stopped_run o) ≡ some u
        → Accounts u
    pick true own c o h e = subst Accounts (some-injective t u e) a
    pick false true c o h e = subst Accounts (some-injective t u e) a
    pick false false c none h e = cc
    pick false false c (some s) h e =
        let st = im_thread_stop-Stopped caller t s a h in
        last s (with_lock caller msg_free s) st.accounts (st.calm c) refl e

im_thread_start-Accounts :
    (caller : ℕ) (created answer : Bool) (t u : Thread)
    → Accounts t
    → im_thread_start caller created t ≡ some (answer, u)
    → Accounts u
unfolding im_thread_start
im_thread_start-Accounts caller created answer t u a e =
    pick (mutex_lock caller t.lock) (t.started || im_thread_is_current caller t) e
  where
    result : Lock → Bool → Bool × Thread
    result l b = if b then (false, record t { lock = l }) else (
      created || t.started,
      record t { started = created || t.started; lock = mutex_unlock l },
    )

    same_messages : (l : Lock) (b : Bool) → Accounts (result l b).1
    same_messages l true = a
    same_messages l false = (a.0, λ off. a.1 (ground arith))

    pick :
        (o : Option Lock) (b : Bool)
        → (elim o [ none ↦ none | some l ↦ some (result l b) ]) ≡ some (answer, u)
        → Accounts u
    pick none b e = cc
    pick (some l) b e =
        subst (λ (p : Bool × Thread). Accounts p.1) (some-injective (result l b) (answer, u) e)
          (same_messages l b)

Step-Accounts : {t u : Thread} → Step t u → Accounts t → Accounts u
Step-Accounts {t} {u} (starts caller created answer e) a =
    im_thread_start-Accounts caller created answer t u a e
Step-Accounts {t} {u} (posts caller memory id e) a =
    im_thread_post-Accounts caller memory id t u a e
Step-Accounts {t} {u} (sends caller memory id e) a =
    im_thread_send-Accounts caller memory id t u a e
Step-Accounts {t} {u} (runs r on e) a = run_handler-Accounts r t u on a e
Step-Accounts {t} {u} (signals e) a = signal_sender-Accounts t u a e
Step-Accounts {t} {u} (finishes e) a = finish_message-Accounts t u a e
Step-Accounts {t} {u} (returns caller e) a = send_returns-Accounts caller t u a e
Step-Accounts {t} {u} (stops caller e) a = (im_thread_stop-Stopped caller t u a e).accounts
Step-Accounts {t} {u} (frees caller e) a = im_thread_free-Accounts caller t u a e

Reach-Accounts : (self : ℕ) {t : Thread} → Reach (im_thread_new self) t → Accounts t
unfolding im_thread_new
Reach-Accounts self here = (λ r. (new r, refl, omega arith), λ _. refl)
  where
    new : (r : ℕ) → ◌≡◌ {A = ℕ} 0 (if ltb r 0 then 1 else 0)
    new r = ground arith
Reach-Accounts self (step rs live st) = Step-Accounts st (Reach-Accounts self rs)

-- What has become of the message at an address.
pub record Accounted (r : ℕ) (t : Thread) : Type 0 where
  pub counts : Counts r t
  pub once : count r t.handled ≤ 1
  pub not_dropped : 0 < count r t.dropped → count r t.handled ≡ 0

accounted : (r : ℕ) (t : Thread) → Counts r t → Accounted r t
accounted r t (held_once, handlers, queued) = record {
  counts = (held_once, handlers, queued);
  once = grind (arith, at_most r t.next);
  not_dropped = λ d. grind (arith, at_most r t.next);
}
  where
    at_most : (r n : ℕ) → (if ltb r n then 1 else 0) ≤ 1
    at_most r n = ground arith

-- Whatever the threads do, and in whatever order, each message that was ever queued is in exactly one
-- place: in the queue, freed after its handler, or dropped. The handlers that ran are those of the messages
-- that were freed after it, and that of the one whose callback the loop is in, which is still in the
-- queue; none ran twice, and none of a message that was dropped.
pub reachable-Accounts :
    (self : ℕ) {t : Thread} → Reach (im_thread_new self) t → (r : ℕ) → Accounted r t
reachable-Accounts self {t} rs r = accounted r t ((Reach-Accounts self rs).0 r)
