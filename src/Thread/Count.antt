-- ===== src/Thread/Count.antt =====
-- im-thread.c: how often a message is in a thread, and what runs under its lock.
use imcore.Prelude.{
  ℕ, suc, ◌+◌, ◌≤◌, ◌<◌, ◌≡◌, refl, ap, arith, ◌==◌, ==_iff, ltb, Bool-cases, inl, inr,
}
use imcore.Prelude.{Bool, true, false, List, [], ◌∷◌, ◌++◌, Option, none, some, if◌then◌else◌}
use mathlib.Core.Path.{subst}
use mathlib.Core.Option.{some-injective}
use imcore.Thread.{
  ThreadMessage, Proxy, idle, ran, signalled, Lock, Thread, mutex_lock, mutex_unlock, with_lock,
  new_message, enqueue, find_message, list_del,
}

abbrev pub bit : ℕ → ThreadMessage → ℕ
bit r m = if m.ref == r then 1 else 0

pub bit_self : (m : ThreadMessage) → bit m.ref m ≡ 1
bit_self m = rw ((==_iff m.ref m.ref).1 refl) refl

-- How often a message at an address is in a list.
abbrev pub count : ℕ → List ThreadMessage → ℕ
count r [] = 0
count r (m ∷ ms) = bit r m + count r ms

-- Where it is: in the queue, freed after its handler, or dropped.
abbrev pub held : ℕ → Thread → ℕ
held r t = count r t.msg_head + (count r t.finished + count r t.dropped)

-- Whether the loop is in its callback, behind the handler.
abbrev pub at_loop : ℕ → Proxy → ℕ
at_loop r idle = 0
at_loop r (ran m) = bit r m
at_loop r (signalled m) = bit r m

-- Each message that was queued is in one place; the handlers that ran are those of the messages that were
-- freed after it and of the one that the loop is at, and that one is still in the queue.
abbrev pub Counts : ℕ → Thread → Type 0
Counts r t =
    (held r t ≡ (if ltb r t.next then 1 else 0))
    × (count r t.handled ≡ count r t.finished + at_loop r t.proxy)
    × (at_loop r t.proxy ≤ count r t.msg_head)

-- A thread that is not started is in no callback.
abbrev pub Accounts : Thread → Type 0
Accounts t = ((r : ℕ) → Counts r t) × (t.started ≡ false → t.proxy ≡ idle)

pub count-append :
    (r : ℕ) (xs ys : List ThreadMessage) → count r (xs ++ ys) ≡ count r xs + count r ys
count-append r [] ys = omega arith
count-append r (m ∷ ms) ys = omega (arith, count-append r ms ys)

-- A message that is found is in the list.
pub find_message-held :
    (r q : ℕ) (ms : List ThreadMessage) (m : ThreadMessage)
    → find_message r ms ≡ some m
    → bit q m ≤ count q ms
unfolding find_message
find_message-held r q [] m e = cc
find_message-held r q (x ∷ ms) m e = pick (x.ref == r) e (find_message-held r q ms m)
  where
    pick :
        (b : Bool)
        → (if b then some x else find_message r ms) ≡ some m
        → (find_message r ms ≡ some m → bit q m ≤ count q ms)
        → bit q m ≤ bit q x + count q ms
    pick true e ih = rw (← some-injective x m e) (omega arith)
    pick false e ih = omega (arith, ih e)

-- One at the address is taken out, if there is one.
pub count-list_del :
    (m : ThreadMessage) (q : ℕ) (ms : List ThreadMessage)
    → 0 < count m.ref ms
    → count q (list_del m.ref ms) + bit q m ≡ count q ms
unfolding list_del
count-list_del m q [] h = absurd (omega arith)
count-list_del m q (x ∷ ms) h = elim (Bool-cases (x.ref == m.ref)) [
  | inl e ↦ rw (e, (==_iff x.ref m.ref).0 e) (omega arith)
  | inr e ↦ rw e (omega (arith, count-list_del m q ms (rest e)))
]
  where
    rest : x.ref == m.ref ≡ false → 0 < count m.ref ms
    rest e = omega (arith, h, ap (λ (b : Bool). ◌+◌ (if b then 1 else 0) (count m.ref ms)) e)

-- What runs under the lock decides, since the lock itself counts for nothing.
pub with_lock-Accounts :
    (caller : ℕ) (f : Thread → Thread) (t u : Thread)
    → ((l : Lock) → Accounts (f (record t { lock = l })))
    → with_lock caller f t ≡ some u
    → Accounts u
unfolding with_lock
with_lock-Accounts caller f t u h e = pick (mutex_lock caller t.lock) e
  where
    locked_run : Lock → Thread
    locked_run l = let x = f (record t { lock = l }) in record x { lock = mutex_unlock x.lock }

    pick :
        (o : Option Lock)
        → (elim o [ none ↦ none | some l ↦ some (locked_run l) ]) ≡ some u
        → Accounts u
    pick none e = cc
    pick (some l) e = subst Accounts (some-injective (locked_run l) u e) (h l)

-- A message at the next address is one more.
fresh :
    (r n : ℕ)
    → (if n == r then 1 else 0) + (if ltb r n then 1 else 0) ≡ (if ltb r (suc n) then 1 else 0)
fresh r n = ground arith

pub enqueue-Accounts :
    (id : ℕ) (sent : Bool) (t : Thread) (l : Lock)
    → Accounts t
    → Accounts (enqueue (new_message id sent t) (record t { lock = l }))
unfolding enqueue new_message
enqueue-Accounts id sent t l a = (
  λ r.
      let (held_once, handlers, queued) = a.0 r in
      (omega (arith, held_once, fresh r t.next), handlers, omega (arith, queued)),
  a.1,
)
