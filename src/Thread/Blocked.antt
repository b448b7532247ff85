-- ===== src/Thread/Blocked.antt =====
-- im-thread.c: what a start that is refused does to the other threads.
use imcore.Prelude.{ℕ, ◌≡◌, refl, ◌==◌, Bool, true, false}
use imcore.Prelude.{none, some}
use imcore.Thread.{
  ThreadMessage, Lock, unlocked, locked, Thread, mutex_lock, with_lock, im_thread_start,
  im_thread_is_current, new_message, enqueue, im_thread_post, im_thread_send, signalled,
  finish_message, unlink_message, im_thread_stop, im_thread_join, is_idle,
}

-- Every other thread waits for the lock of this one: to post, to send, and, unless the loop is the
-- caller's own, to unlink the message whose handler has run, in which case whoever stops the thread, the
-- caller too, waits for the loop.
pub record Blocks (caller : ℕ) (u : Thread) : Type 0 where
  pub posts_wait : (other id : ℕ) → caller == other ≡ false → im_thread_post other true id u ≡ none
  pub sends_wait :
      (other id : ℕ)
      → caller == other ≡ false
      → im_thread_is_current other u ≡ false
      → im_thread_send other true id u ≡ none
  pub loop_waits :
      (m : ThreadMessage)
      → caller == u.self ≡ false
      → finish_message (record u { proxy = signalled m }) ≡ none
  pub stop_waits :
      (m : ThreadMessage) (other : ℕ)
      → u.started ≡ true
      → im_thread_is_current other u ≡ false
      → im_thread_stop other (record u { proxy = signalled m }) ≡ none

with_lock-waits :
    (caller other n : ℕ) (f : Thread → Thread) (t : Thread)
    → t.lock ≡ locked caller n
    → caller == other ≡ false
    → with_lock other f t ≡ none
unfolding with_lock mutex_lock
with_lock-waits caller other n f t e h = pick t.lock _ e
  where
    pick :
        (l : Lock) (g : Lock → Thread)
        → l ≡ locked caller n
        → (elim (mutex_lock other l) [ none ↦ none | some x ↦ some (g x) ]) ≡ none
    pick l g e = rw (e, h) refl

-- Whoever stops a thread waits for the callback that it is in.
im_thread_stop-waits :
    (m : ThreadMessage) (other : ℕ) (u : Thread)
    → u.started ≡ true
    → im_thread_is_current other u ≡ false
    → im_thread_stop other (record u { proxy = signalled m }) ≡ none
unfolding im_thread_stop im_thread_join im_thread_is_current is_idle
im_thread_stop-waits m other u on h = rw (on, h) refl

pub locked-Blocks : (caller n : ℕ) (u : Thread) → u.lock ≡ locked caller n → Blocks caller u
locked-Blocks caller n u e = record {
  posts_wait = λ other id h. unfold im_thread_post in with_lock-waits caller other n _ u e h;
  sends_wait = λ other id h k.
      unfold im_thread_send in
      rw (k, with_lock-waits caller other n (enqueue (new_message id true u)) u e h) refl;
  loop_waits = λ m h.
      unfold finish_message in
      with_lock-waits caller u.self n (unlink_message m) (record u { proxy = signalled m }) e h;
  stop_waits = λ m other on h. im_thread_stop-waits m other u on h;
}

-- A start of a thread that runs already is refused, and leaves its lock taken: no other thread can post or
-- send to it, and its loop, unless it is the caller's own, runs the handler of a message and then waits to
-- unlink it, so that nobody can stop the thread.
pub refused_start-Blocks :
    (caller : ℕ) (created : Bool) (t : Thread)
    → t.lock ≡ unlocked
    → t.started ≡ true
    → (u : Thread) × (im_thread_start caller created t ≡ some (false, u)) × Blocks caller u
unfolding im_thread_start mutex_lock
refused_start-Blocks caller created t e s =
    (record t { lock = locked caller 1 }, rw (e, s) refl, locked-Blocks caller 1 _ refl)
