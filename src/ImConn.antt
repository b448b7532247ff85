-- ===== src/ImConn.antt =====
-- im-conn.c, the connection that imcore.h gives to an application: two threads and a connection of
-- xmpp-conn.c. The callbacks of the application are the list of the states it was told. Places that ask
-- for memory are numbered from 100 on.
pub mod Twice
mod Runs
use imcore.Prelude.{ℕ, ◌||◌, not, ltb, ◌==◌, Bool, true, false, List, [], ◌∷◌, ◌++◌}
use imcore.Prelude.{Option, none, some, if◌then◌else◌, length}
use imcore.Prelude.{Run, ok, fault, ◌>>=◌, null_pointer, out_of_bounds}
use imcore.Prelude.Text.{codes}
use imcore.Conn.{Conn, World, application}
use imcore.Conn.Handlers.{xmpp_handler_add, xmpp_id_handler_add}
use imcore.Conn.Machine.{
  xmpp_conn_new, xmpp_conn_set_jid, xmpp_conn_set_pass, xmpp_connect_client, Attempt,
}
use imcore.Conn.Release.{deref}
use imcore.Thread.{Thread, im_thread_new, im_thread_start}

-- `im_conn_state`
pub data ImState : Type 0 where
  state_init state_opening state_open state_closed : ImState

-- `xmpp_host`: the copy of a text that is too long for it has no NUL.
pub data HostCopy : Type 0 where
  terminated : List ℕ → HostCopy
  unterminated : HostCopy

-- `struct im_conn`; `told` are the states and the errors that `statecb` got.
pub record ImConn : Type 0 where
  pub xmpp_conn : Conn
  pub xmpp_host : Option HostCopy
  pub signal_thread : Option Thread
  pub work_thread : Option Thread
  pub state : ImState
  pub told : List (ImState × Bool)

-- `im_strndup(host, 256)`, which gives NULL for an empty text too.
unfoldable pub copy_host : Bool → List ℕ → Option HostCopy
copy_host alloc host =
    if length host == 0
    then none
    else if alloc
    then some (if ltb 256 (length host) then unterminated else terminated host)
    else none

-- The pointer to the host, where the copy did not fail.
unfoldable pub hosted : Bool → Option (List ℕ) → Option (Option HostCopy)
hosted alloc none = some none
hosted alloc (some host) = elim (copy_host alloc host) [ none ↦ none | some h ↦ some (some h) ]

unfoldable pub made_thread : Option ℕ → Option Thread
made_thread none = none
made_thread (some self) = some (im_thread_new self)

-- Only if both threads are missing is the connection given up.
unfoldable pub both_missing : Option ℕ → Option ℕ → Bool
both_missing none none = true
both_missing none (some n) = false
both_missing (some n) o = false

-- `signal` and `work` are the threads that `im_thread_new` makes, and `ctx` says whether
-- `xmpp_ctx_new` succeeds. A connection that is given up is not freed.
unfoldable pub im_conn_new :
    World → Option ℕ → Option ℕ → Bool → Option (List ℕ) → List ℕ → List ℕ → Run (Option ImConn)
im_conn_new w signal work ctx host username password =
    if not (w.alloc 100) || both_missing signal work || not ctx
    then ok none
    else (xmpp_conn_new w >>= λ made. elim made [
      | none ↦ ok none
      | some c ↦ elim (hosted (w.alloc 101) host) [
        | none ↦ ok none
        | some h ↦ ok (
            some (record {
              xmpp_conn = xmpp_conn_set_pass w (xmpp_conn_set_jid w c username) password;
              xmpp_host = h;
              signal_thread = made_thread signal;
              work_thread = made_thread work;
              state = state_init;
              told = [];
            }))
      ]
    ])

unfoldable pub is_init : ImState → Bool
is_init state_init = true
is_init state_opening = false
is_init state_open = false
is_init state_closed = false

-- The text at `xmpp_host`, which `xmpp_connect_client` copies up to its NUL.
unfoldable pub read_host : Option HostCopy → Run (Option (List ℕ))
read_host none = ok none
read_host (some (terminated host)) = ok (some host)
read_host (some unterminated) = fault out_of_bounds

-- The start of both threads, whose answers are not looked at. It is `none` where one waits for ever.
unfoldable pub start_both :
    ℕ → Bool → Bool → Option Thread → Option Thread → ImConn → Run (Option (Bool × ImConn))
start_both caller signals works signal work c = do
  s ← deref signal
  elim (im_thread_start caller signals s) [
    | none ↦ ok none
    | some s' ↦ deref work >>= λ t. elim (im_thread_start caller works t) [
      | none ↦ ok none
      | some t' ↦ ok (some (true, record c { signal_thread = some s'.1; work_thread = some t'.1 }))
    ]
  ]

-- Whether it was done, and the connection. `signals` and `works` say whether the system makes the
-- threads. The answer of `xmpp_connect_client` is not looked at.
unfoldable pub im_conn_open :
    World
    → ℕ
    → Bool
    → Bool
    → (List ℕ → Option (List ℕ × ℕ))
    → (List ℕ × ℕ → Attempt)
    → ImConn
    → Run (Option (Bool × ImConn))
im_conn_open w caller signals works srv connects c =
    if is_init c.state
    then (do
      host ← read_host c.xmpp_host
      (success, xc) ← xmpp_connect_client w c.xmpp_conn host 5222 srv connects
      start_both caller signals works c.signal_thread c.work_thread (record c { xmpp_conn = xc }))
    else ok (some (false, c))

-- `xmpp_conn_event_t`
pub data ConnEvent : Type 0 where
  xmpp_conn_connect xmpp_conn_disconnect xmpp_conn_fail : ConnEvent

-- `_xmpp_conn_handler`. `msg_text_handler` and `msg_file_handler` are the application's handlers 0 and 1
-- for xmpp-handler.c. The flag says whether the error is -1.
unfoldable pub xmpp_conn_handler : World → ConnEvent → ImConn → Run ImConn
xmpp_conn_handler w xmpp_conn_connect c = do
  let xc = xmpp_handler_add w c.xmpp_conn (application 0) none (some (codes "message")) none none
  xc' ← xmpp_id_handler_add w xc (application 1) (codes "im_msg_file_id_oob") none
  ok (record c { xmpp_conn = xc'; told = c.told ++ (state_open, false) ∷ [] })
xmpp_conn_handler w xmpp_conn_disconnect c =
    ok (record c { told = c.told ++ (state_closed, false) ∷ [] })
xmpp_conn_handler w xmpp_conn_fail c = ok (record c { told = c.told ++ (state_closed, true) ∷ [] })
