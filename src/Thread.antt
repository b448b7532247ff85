-- ===== src/Thread.antt =====
-- im-thread.c, as it is built for Windows, without assertions: one thread with its message loop, and
-- the threads that use it. A thread is a number. The messages of the queue, and what libevent does
-- with the event of each, are lists; a function that has to wait for the lock of another thread is
-- `none`.
pub mod Count
pub mod Turn
pub mod Account
pub mod Blocked
mod Runs
use imcore.Prelude.{
  ℕ, zero, suc, ◌+◌, ◌-◌, ◌==◌, ◌&&◌, ◌||◌, not, Bool, true, false, List, [], ◌∷◌, ◌++◌,
}
use imcore.Prelude.{Option, none, some, if◌then◌else◌, ◌≡◌}

-- `im_thread_msg_t`, at the address `ref`.
pub record ThreadMessage : Type 0 where
  pub ref : ℕ
  pub msg_id : ℕ
  pub sent : Bool

-- A mutex of Windows: its owner can take it again.
pub data Lock : Type 0 where
  unlocked : Lock
  locked : (owner count : ℕ) → Lock

-- Where the loop is in the callback of a message: the handler has returned, or the sender was woken too.
pub data Proxy : Type 0 where
  idle : Proxy
  ran signalled : ThreadMessage → Proxy

-- `struct im_thread`: `self` is the thread that runs its loop, and `proxy` where it is; `waiting` are the
-- threads in `im_thread_send`, `handled` the messages whose handlers ran, `finished` those that were freed
-- after that and `dropped` those that were freed by `_im_thread_msg_free`, the latest first.
pub record Thread : Type 0 where
  pub self : ℕ
  pub wraped : Bool
  pub started : Bool
  pub freed : Bool
  pub lock : Lock
  pub signal : Bool
  pub msg_head : List ThreadMessage
  pub waiting : List ℕ
  pub proxy : Proxy
  pub handled : List ThreadMessage
  pub finished : List ThreadMessage
  pub dropped : List ThreadMessage
  pub next : ℕ

-- `im_thread_new`, where the lock, the signal and the event base can be made.
unfoldable pub im_thread_new : ℕ → Thread
im_thread_new self = record {
  self = self;
  wraped = false;
  started = false;
  freed = false;
  lock = unlocked;
  signal = false;
  msg_head = [];
  waiting = [];
  proxy = idle;
  handled = [];
  finished = [];
  dropped = [];
  next = 0;
}

-- `im_thread_mutex_lock` and `im_thread_mutex_unlock` by a thread.
unfoldable pub mutex_lock : ℕ → Lock → Option Lock
mutex_lock caller unlocked = some (locked caller 1)
mutex_lock caller (locked owner n) = if owner == caller then some (locked owner (suc n)) else none

unfoldable pub mutex_unlock : Lock → Lock
mutex_unlock unlocked = unlocked
mutex_unlock (locked owner n) = if n == 1 then unlocked else locked owner (n - 1)

-- What a thread does between taking the lock and giving it back.
unfoldable pub with_lock : ℕ → (Thread → Thread) → Thread → Option Thread
with_lock caller f t = elim (mutex_lock caller t.lock) [
  | none ↦ none
  | some l ↦ let t' = f (record t { lock = l }) in some (record t' { lock = mutex_unlock t'.lock })
]

unfoldable pub im_thread_is_current : ℕ → Thread → Bool
im_thread_is_current caller t = t.self == caller

-- The answer, and the thread. A refusal returns with the lock.
unfoldable pub im_thread_start : ℕ → Bool → Thread → Option (Bool × Thread)
im_thread_start caller created t = elim (mutex_lock caller t.lock) [
  | none ↦ none
  | some l ↦ some (
      if t.started || im_thread_is_current caller t then (false, record t { lock = l }) else (
        created || t.started,
        record t { started = created || t.started; lock = mutex_unlock l },
      ))
]

unfoldable pub new_message : ℕ → Bool → Thread → ThreadMessage
new_message msg_id sent t = record { ref = t.next; msg_id = msg_id; sent = sent }

-- `list_add` puts the message in front. `memory` says whether the message and its event can be made.
unfoldable pub enqueue : ThreadMessage → Thread → Thread
enqueue m t = record t { msg_head = m ∷ t.msg_head; next = suc t.next }

unfoldable pub im_thread_post : ℕ → Bool → ℕ → Thread → Option Thread
im_thread_post caller memory msg_id t =
    if memory then with_lock caller (enqueue (new_message msg_id false t)) t else some t

-- The loop's own thread runs the handler at once, with no message; another one waits.
unfoldable pub im_thread_send : ℕ → Bool → ℕ → Thread → Option Thread
im_thread_send caller memory msg_id t =
    if im_thread_is_current caller t || not memory
    then some t
    else elim (with_lock caller (enqueue (new_message msg_id true t)) t) [
      | none ↦ none
      | some t' ↦ some (record t' { waiting = caller ∷ t'.waiting })
    ]

unfoldable pub find_message : ℕ → List ThreadMessage → Option ThreadMessage
find_message r [] = none
find_message r (m ∷ ms) = if m.ref == r then some m else find_message r ms

-- `list_del` of the message at an address.
unfoldable pub list_del : ℕ → List ThreadMessage → List ThreadMessage
list_del r [] = []
list_del r (m ∷ ms) = if m.ref == r then ms else m ∷ list_del r ms

-- `_im_thread_post_proxy` and `_im_thread_send_proxy`, which the loop calls with a message, are three
-- steps, between which the other threads, and the handler itself before the second, can do theirs. The
-- handler runs.
unfoldable pub run_handler : ℕ → Thread → Option Thread
run_handler r t = elim t.proxy [
  | ran m ↦ none
  | signalled m ↦ none
  | idle ↦ elim (find_message r t.msg_head) [
    | none ↦ none
    | some m ↦ some (record t { proxy = ran m; handled = m ∷ t.handled })
  ]
]

-- `SetEvent`, in the callback of a message that was sent.
unfoldable pub signal_sender : Thread → Option Thread
signal_sender t = elim t.proxy [
  | idle ↦ none
  | ran m ↦ some (record t { proxy = signalled m; signal = m.sent || t.signal })
  | signalled m ↦ none
]

-- The message is unlinked under the lock, and freed.
unfoldable pub unlink_message : ThreadMessage → Thread → Thread
unlink_message m t = record t {
  msg_head = list_del m.ref t.msg_head;
  finished = m ∷ t.finished;
  proxy = idle;
}

unfoldable pub finish_message : Thread → Option Thread
finish_message t = elim t.proxy [
  | idle ↦ none
  | ran m ↦ none
  | signalled m ↦ with_lock t.self (unlink_message m) t
]

-- The first of the waiting threads at a place wakes up, and the signal goes out.
unfoldable pub take_waiting : ℕ → List ℕ → Option (List ℕ)
take_waiting caller [] = none
take_waiting caller (c ∷ cs) =
    if c == caller
    then some cs
    else elim (take_waiting caller cs) [ none ↦ none | some rest ↦ some (c ∷ rest) ]

unfoldable pub send_returns : ℕ → Thread → Option Thread
send_returns caller t =
    if t.signal
    then elim (take_waiting caller t.waiting) [
      | none ↦ none
      | some rest ↦ some (record t { signal = false; waiting = rest })
    ]
    else none

unfoldable pub is_idle : Proxy → Bool
is_idle idle = true
is_idle (ran m) = false
is_idle (signalled m) = false

-- `im_thread_join` waits until the loop is over, and it is not before the callback that it is in is.
unfoldable pub im_thread_join : ℕ → Thread → Option Thread
im_thread_join caller t =
    if t.started && not (im_thread_is_current caller t)
    then if is_idle t.proxy then some (record t { started = false }) else none
    else some t

unfoldable pub im_thread_stop : ℕ → Thread → Option Thread
im_thread_stop caller t =
    if t.started && not (im_thread_is_current caller t) then im_thread_join caller t else some t

-- `_im_thread_msg_free` under the lock; then everything else is freed.
unfoldable pub msg_free : Thread → Thread
msg_free t = record t { dropped = t.msg_head ++ t.dropped; msg_head = [] }

unfoldable pub im_thread_free : ℕ → Thread → Option Thread
im_thread_free caller t =
    if t.wraped || im_thread_is_current caller t then some t else elim (im_thread_stop caller t) [
      | none ↦ none
      | some stopped ↦ elim (with_lock caller msg_free stopped) [
        | none ↦ none
        | some t' ↦ some (record t' { freed = true })
      ]
    ]

-- `im_thread_wrap_current` of a system's thread that has none yet, and `im_thread_unwrap_current`: it
-- asks `im_thread_free` for the wrapped thread, which is the one kind that it refuses.
unfoldable pub im_thread_wrap_current : ℕ → Thread
im_thread_wrap_current self = record (im_thread_new self) { wraped = true; started = true }

unfoldable pub im_thread_unwrap_current : ℕ → Thread → Option Thread
im_thread_unwrap_current caller t = if t.wraped then im_thread_free caller t else some t

-- One step of one of the threads, on a thread that is not freed.
pub data Step (t : Thread) (u : Thread) : Type 0 where
  starts :
      (caller : ℕ) (created answer : Bool)
      → im_thread_start caller created t ≡ some (answer, u)
      → Step t u
  posts :
      (caller : ℕ) (memory : Bool) (id : ℕ) → im_thread_post caller memory id t ≡ some u → Step t u
  sends :
      (caller : ℕ) (memory : Bool) (id : ℕ) → im_thread_send caller memory id t ≡ some u → Step t u
  runs : (r : ℕ) → t.started ≡ true → run_handler r t ≡ some u → Step t u
  signals : signal_sender t ≡ some u → Step t u
  finishes : finish_message t ≡ some u → Step t u
  returns : (caller : ℕ) → send_returns caller t ≡ some u → Step t u
  stops : (caller : ℕ) → im_thread_stop caller t ≡ some u → Step t u
  frees : (caller : ℕ) → im_thread_free caller t ≡ some u → Step t u

pub data Reach (t : Thread) : Thread → Type 0 where
  here : Reach t t
  step : {u v : Thread} → Reach t u → u.freed ≡ false → Step u v → Reach t v
