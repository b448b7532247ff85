-- ===== src/Thread/Runs.antt =====
-- A thread and its users at concrete values: the theorems' instances.
use imcore.Prelude.{◌≡◌, refl, true, false, [], ◌∷◌, some}
use imcore.Thread.{
  Thread, unlocked, im_thread_new, mutex_lock, mutex_unlock, with_lock, im_thread_start,
  im_thread_is_current, new_message, enqueue, im_thread_post, im_thread_send, find_message,
  list_del, ThreadMessage, idle, ran, signalled, run_handler, signal_sender, unlink_message,
  finish_message, is_idle, runs, signals, finishes, take_waiting, send_returns, im_thread_join,
  im_thread_stop, msg_free, im_thread_free, Reach, here, step, starts, posts, sends, returns, frees,
}
use imcore.Thread.Account.{Accounted, reachable-Accounts}
use imcore.Thread.Blocked.{Blocks, refused_start-Blocks}

-- Thread 2 starts thread 1, posts message 7 and sends message 8; thread 1 handles the second and
-- thread 2 returns; then it frees the thread.
abbrev running : Thread
running = record (im_thread_new 1) { started = true }

abbrev posted : Thread
posted = record running { msg_head = record { ref = 0; msg_id = 7; sent = false } ∷ []; next = 1 }

abbrev sent : Thread
sent = record posted {
  msg_head = record { ref = 1; msg_id = 8; sent = true } ∷ posted.msg_head;
  waiting = 2 ∷ [];
  next = 2;
}

abbrev second : ThreadMessage
second = record { ref = 1; msg_id = 8; sent = true }

abbrev in_callback : Thread
in_callback = record sent { proxy = ran second; handled = second ∷ [] }

abbrev woken : Thread
woken = record in_callback { proxy = signalled second; signal = true }

abbrev returned : Thread
returned = record woken { signal = false; waiting = [] }

abbrev unlinked : Thread
unlinked = record returned { proxy = idle; msg_head = posted.msg_head; finished = second ∷ [] }

abbrev freed_thread : Thread
freed_thread = record unlinked {
  started = false;
  msg_head = [];
  dropped = posted.msg_head;
  freed = true;
}

-- The sender returns before its message is unlinked.
run : Reach (im_thread_new 1) freed_thread
unfolding im_thread_new mutex_lock mutex_unlock with_lock im_thread_start im_thread_is_current
    new_message enqueue im_thread_post im_thread_send find_message list_del run_handler
    signal_sender unlink_message finish_message is_idle take_waiting send_returns im_thread_join
    im_thread_stop msg_free im_thread_free
run =
    step
      (step
        (step
          (step
            (step
              (step (step (step here refl (starts 2 true true refl)) refl (posts 2 true 7 refl))
                refl (sends 2 true 8 refl))
              refl (runs 1 refl refl))
            refl (signals refl))
          refl (returns 2 refl))
        refl (finishes refl))
      refl (frees 2 refl)

reachable-Accounts_example : Accounted 0 freed_thread
reachable-Accounts_example = reachable-Accounts 1 run 0

refused_start-Blocks_example :
    (u : Thread) × (im_thread_start 2 true running ≡ some (false, u)) × Blocks 2 u
refused_start-Blocks_example = refused_start-Blocks 2 true running running_unlocked running_started
  where
    running_unlocked : running.lock ≡ unlocked
    running_unlocked = unfold im_thread_new in refl

    running_started : running.started ≡ true
    running_started = refl
