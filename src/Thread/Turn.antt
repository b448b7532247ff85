-- ===== src/Thread/Turn.antt =====
-- im-thread.c: the three steps of the loop's callback, from a queued message to a finished one.
use imcore.Prelude.{ℕ, ◌≡◌, ◌<◌, refl, ap, arith, ◌||◌}
use imcore.Prelude.{true, false, ◌∷◌, Option, none, some}
use mathlib.Core.Path.{subst}
use mathlib.Core.Option.{some-injective}
use imcore.Thread.{
  ThreadMessage, Lock, Thread, with_lock, find_message, run_handler, signal_sender, unlink_message,
  finish_message, Proxy, idle, ran, signalled,
}
use imcore.Thread.Count.{
  count, find_message-held, at_loop, bit_self, Accounts, count-list_del, with_lock-Accounts,
}

pub run_handler-Accounts :
    (r : ℕ) (t u : Thread) → t.started ≡ true → Accounts t → run_handler r t ≡ some u → Accounts u
unfolding run_handler
run_handler-Accounts r t u on a e = pick t.proxy (find_message r t.msg_head) refl refl e
  where
    at_it : ThreadMessage → Thread
    at_it m = record t { proxy = ran m; handled = m ∷ t.handled }

    next : Option ThreadMessage → Option Thread
    next o = elim o [ none ↦ none | some m ↦ some (at_it m) ]

    counts :
        (m : ThreadMessage)
        → t.proxy ≡ idle
        → find_message r t.msg_head ≡ some m
        → Accounts (at_it m)
    counts m i f = (
      λ q.
          let (held_once, handlers, queued) = a.0 q in
          (
            held_once,
            omega (arith, handlers, ap (at_loop q) i),
            find_message-held r q t.msg_head m f,
          ),
      λ off. absurd (cc),
    )

    pick :
        (p : Proxy) (o : Option ThreadMessage)
        → t.proxy ≡ p
        → find_message r t.msg_head ≡ o
        → (elim p [ ran m ↦ none | signalled m ↦ none | idle ↦ next o ]) ≡ some u
        → Accounts u
    pick idle none i f e = cc
    pick idle (some m) i f e = subst Accounts (some-injective (at_it m) u e) (counts m i f)
    pick (ran m) o i f e = cc
    pick (signalled m) o i f e = cc

-- A thread that is in a callback is started.
busy : (t : Thread) (m : ThreadMessage) → Accounts t → t.proxy ≡ ran m → ¬ (t.started ≡ false)
busy t m a i off = cc (a.1 off)

busy_signalled :
    (t : Thread) (m : ThreadMessage) → Accounts t → t.proxy ≡ signalled m → ¬ (t.started ≡ false)
busy_signalled t m a i off = cc (a.1 off)

pub signal_sender-Accounts : (t u : Thread) → Accounts t → signal_sender t ≡ some u → Accounts u
unfolding signal_sender
signal_sender-Accounts t u a e = pick t.proxy refl e
  where
    told : ThreadMessage → Thread
    told m = record t { proxy = signalled m; signal = m.sent || t.signal }

    pick :
        (p : Proxy)
        → t.proxy ≡ p
        → (elim p [ idle ↦ none | ran m ↦ some (told m) | signalled m ↦ none ]) ≡ some u
        → Accounts u
    pick idle i e = cc
    pick (ran m) i e = subst Accounts (some-injective (told m) u e) (
      λ q.
          let (held_once, handlers, queued) = a.0 q in
          (
            held_once,
            omega (arith, handlers, ap (at_loop q) i),
            omega (arith, queued, ap (at_loop q) i),
          ),
      λ off. absurd (busy t m a i off),
    )
    pick (signalled m) i e = cc

pub finish_message-Accounts : (t u : Thread) → Accounts t → finish_message t ≡ some u → Accounts u
unfolding finish_message
finish_message-Accounts t u a e = pick t.proxy refl e
  where
    counts :
        (m : ThreadMessage) (l : Lock)
        → t.proxy ≡ signalled m
        → Accounts (unlink_message m (record t { lock = l }))
    counts m l i =
        unfold unlink_message in
        (
          λ q.
              let (held_once, handlers, queued) = a.0 q in
              let there : 0 < count m.ref t.msg_head =
                omega (arith, (a.0 m.ref).2, ap (at_loop m.ref) i, bit_self m) in
              let taken = count-list_del m q t.msg_head there in
              (
                omega (arith, held_once, taken),
                omega (arith, handlers, ap (at_loop q) i),
                omega arith,
              ),
          λ off. refl,
        )

    pick :
        (p : Proxy)
        → t.proxy ≡ p
        → (elim p [
          | idle ↦ none
          | ran m ↦ none
          | signalled m ↦ with_lock t.self (unlink_message m) t
        ])
          ≡ some u
        → Accounts u
    pick idle i e = cc
    pick (ran m) i e = cc
    pick (signalled m) i e = with_lock-Accounts t.self (unlink_message m) t u (λ l. counts m l i) e
