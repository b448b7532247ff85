-- ===== src/ImConn/Twice.antt =====
-- im-conn.c and im-thread.c together: a connection that is im_conn_open-Started twice.
use imcore.Prelude.{ℕ, ◌≡◌, refl, ap, ◌∙◌, ◌==◌, Bool, true, false, List, Option, none, some}
use imcore.Prelude.{Run, ok, Ensures, >>=-Ensures, ok-Ensures, if-Ensures}
use mathlib.Core.Path.{subst}
use mathlib.Core.Option.{some-injective}
use imcore.Conn.{World}
use imcore.Conn.Machine.{xmpp_connect_client, Attempt}
use imcore.Conn.Release.{deref}
use imcore.Thread.{
  Thread, locked, unlocked, im_thread_new, im_thread_start, mutex_lock, mutex_unlock,
  im_thread_is_current,
}
use imcore.ImConn.{ImConn, is_init, im_conn_open, read_host, start_both}
use imcore.Thread.Blocked.{Blocks, locked-Blocks}

module _ (caller : ℕ) (p q : Bool) (s t s' t' : Thread) (x y : Bool)
    (starts_s : im_thread_start caller p s ≡ some (x, s'))
    (starts_t : im_thread_start caller q t ≡ some (y, t')) where
  start_both-threads :
      (c : ImConn)
      → start_both caller p q (some s) (some t) c
        ≡ ok (some (true, record c { signal_thread = some s'; work_thread = some t' }))
  unfolding start_both deref
  start_both-threads c = ap first starts_s ∙ ap (second (x, s')) starts_t
    where
      second : Bool × Thread → Option (Bool × Thread) → Run (Option (Bool × ImConn))
      second s' o = elim o [
        | none ↦ ok none
        | some t' ↦
            ok (some (true, record c { signal_thread = some s'.1; work_thread = some t'.1 }))
      ]

      first : Option (Bool × Thread) → Run (Option (Bool × ImConn))
      first o = elim o [ none ↦ ok none | some s' ↦ second s' (im_thread_start caller q t) ]

  -- What an opening that gets through leaves of the threads.
  abbrev Started : ImConn → Type 0
  Started d = (d.signal_thread ≡ some s') × (d.work_thread ≡ some t')

  im_conn_open-Started :
      (w : World) (srv : List ℕ → Option (List ℕ × ℕ)) (connects : List ℕ × ℕ → Attempt)
      (c d : ImConn)
      → c.signal_thread ≡ some s
      → c.work_thread ≡ some t
      → im_conn_open w caller p q srv connects c ≡ ok (some (true, d))
      → Started d
  unfolding im_conn_open
  im_conn_open-Started w srv connects c d es et e =
      if-Ensures Good (is_init c.state) _ _
        (>>=-Ensures Good (read_host c.xmpp_host) _ λ host _.
          >>=-Ensures Good (xmpp_connect_client w c.xmpp_conn host 5222 srv connects) _
            λ r _. both (record c { xmpp_conn = r.1 }))
        (ok-Ensures Good (some (false, c)) λ d e. cc) (some (true, d)) e d refl
    where
      Good : Option (Bool × ImConn) → Type 0
      Good o = (d : ImConn) → o ≡ some (true, d) → Started d

      both : (c' : ImConn) → Ensures (start_both caller p q c.signal_thread c.work_thread c') Good
      both c' =
          rw (es, et, start_both-threads c')
            (ok-Ensures Good
              (some (true, record c' { signal_thread = some s'; work_thread = some t' }))
              λ d e.
                subst Started (ap (λ (r : Bool × ImConn). r.1) (some-injective _ _ e)) (refl, refl))

-- A thread that is started by another one runs, and its lock is free again.
first_start :
    (caller self : ℕ)
    → self == caller ≡ false
    → im_thread_start caller true (im_thread_new self)
      ≡ some (true, record (im_thread_new self) { started = true })
unfolding im_thread_start im_thread_new mutex_lock mutex_unlock im_thread_is_current
first_start caller self h = rw h refl

second_start :
    (caller : ℕ) (p : Bool) (t : Thread)
    → t.lock ≡ unlocked
    → t.started ≡ true
    → im_thread_start caller p t ≡ some (false, record t { lock = locked caller 1 })
unfolding im_thread_start mutex_lock
second_start caller p t e h = rw (e, h) refl

-- A connection whose two threads are new, and which one thread opens twice with both calls getting
-- through: after the second one, that thread holds the locks of both threads for good, and every other
-- thread, and their two loops, wait.
pub second_open-Blocks :
    (caller a b : ℕ) (p q : Bool) (v w : World) (srv srv' : List ℕ → Option (List ℕ × ℕ))
    (connects connects' : List ℕ × ℕ → Attempt) (c d e : ImConn)
    → c.signal_thread ≡ some (im_thread_new a)
    → c.work_thread ≡ some (im_thread_new b)
    → a == caller ≡ false
    → b == caller ≡ false
    → im_conn_open v caller true true srv connects c ≡ ok (some (true, d))
    → im_conn_open w caller p q srv' connects' d ≡ ok (some (true, e))
    → (s : Thread) × (t : Thread) × (e.signal_thread ≡ some s)
      × (e.work_thread ≡ some t)
      × Blocks caller s
      × Blocks caller t
unfolding im_thread_new
second_open-Blocks caller a b p q v w srv srv' connects connects' c d e es et ha hb first second =
    let once =
      im_conn_open-Started caller true true (im_thread_new a) (im_thread_new b) running_a running_b
        true true (first_start caller a ha) (first_start caller b hb) v srv connects c d es et
        first in
    let twice =
      im_conn_open-Started caller p q running_a running_b held_a held_b false false
        (second_start caller p running_a refl refl) (second_start caller q running_b refl refl) w
        srv' connects' d e once.0 once.1 second in
    (
      held_a,
      held_b,
      twice.0,
      twice.1,
      locked-Blocks caller 1 held_a refl,
      locked-Blocks caller 1 held_b refl,
    )
  where
    running_a : Thread
    running_a = record (im_thread_new a) { started = true }

    running_b : Thread
    running_b = record (im_thread_new b) { started = true }

    held_a : Thread
    held_a = record running_a { lock = locked caller 1 }

    held_b : Thread
    held_b = record running_b { lock = locked caller 1 }
