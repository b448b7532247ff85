-- ===== src/Conn.antt =====
-- The connection of xmpp-inl.h, xmpp-conn.c, xmpp-handler.c and xmpp-auth.c. An address is a number,
-- and `next` is the next one that `xmpp_alloc` gives to an item. `sent` lists what was written to the
-- socket, `restarted` the timers that were started anew, and `notified` what `conn_handler` was called
-- with; what that callback itself does to the connection is left out.
pub mod Handlers
pub mod Fire
pub mod Unique
pub mod Stream
pub mod Features
pub mod Auth
pub mod Bind
pub mod Machine
pub mod Apart
pub mod Round
pub mod Closing
pub mod Crash
pub mod Frame
pub mod Commutes
pub mod Secret
pub mod Attempts
pub mod Waiting
pub mod Idle
pub mod Quiet
pub mod Unauth
pub mod Fired
pub mod Never
pub mod Release
mod Runs
use imcore.Prelude.{ℕ, ◌+◌, ◌≡◌, refl, sym, ap, ◌∙◌, Bool, true, false, List, [], ◌∷◌}
use imcore.Prelude.{Option, none, some, ◌==◌, ==_iff, arith, ◌↔◌, zero, suc}
use imcore.Hash.{Table}
use imcore.Stanza.Tree.{Stanza}

-- The functions that the code registers as handlers, and those of the application.
pub data Handler : Type 0 where
  handle_stream_error handle_features handle_proceedtls handle_sasl_result : Handler
  handle_digestmd5_challenge handle_digestmd5_rspauth handle_features_sasl : Handler
  handle_bind handle_session disconnect_cleanup : Handler
  application : ℕ → Handler

address : Handler → ℕ
address handle_stream_error = 0
address handle_features = 1
address handle_proceedtls = 2
address handle_sasl_result = 3
address handle_digestmd5_challenge = 4
address handle_digestmd5_rspauth = 5
address handle_features_sasl = 6
address handle_bind = 7
address handle_session = 8
address disconnect_cleanup = 9
address (application n) = suc (suc (suc (suc (suc (suc (suc (suc (suc (suc n)))))))))

-- The comparison of two function pointers.
unfoldable pub same_handler : Handler → Handler → Bool
unfolding address
same_handler h k = address h == address k

nth : List Handler → ℕ → Handler
nth [] n = application n
nth (h ∷ hs) zero = h
nth (h ∷ hs) (suc n) = nth hs n

at_address : ℕ → Handler
unfolding nth
at_address = nth table
  where
    table : List Handler
    table =
        handle_stream_error ∷ handle_features ∷ handle_proceedtls ∷ handle_sasl_result
        ∷ handle_digestmd5_challenge ∷ handle_digestmd5_rspauth ∷ handle_features_sasl ∷ handle_bind
        ∷ handle_session ∷ disconnect_cleanup ∷ []

at_address-address : (h : Handler) → at_address (address h) ≡ h
unfolding at_address address nth
at_address-address handle_stream_error = refl
at_address-address handle_features = refl
at_address-address handle_proceedtls = refl
at_address-address handle_sasl_result = refl
at_address-address handle_digestmd5_challenge = refl
at_address-address handle_digestmd5_rspauth = refl
at_address-address handle_features_sasl = refl
at_address-address handle_bind = refl
at_address-address handle_session = refl
at_address-address disconnect_cleanup = refl
at_address-address (application n) = refl

pub same_handler_iff : (h k : Handler) → (same_handler h k ≡ true) ↔ (h ≡ k)
unfolding same_handler
same_handler_iff h k = (
  λ e. sym (at_address-address h) ∙ (ap at_address ((==_iff _ _).0 e) ∙ at_address-address k),
  λ e. (==_iff _ _).1 (ap address e),
)

-- The union of `xmpp_handlist_t`.
pub data Trigger : Type 0 where
  timed : (period : ℕ) → Trigger
  by_id : (id : List ℕ) → Trigger
  matching : (ns name type : Option (List ℕ)) → Trigger

-- `xmpp_handlist_t`, at the address `ref`.
pub record HandlistItem : Type 0 where
  pub ref : ℕ
  pub user_handler : Bool
  pub handler : Handler
  pub userdata : Option (List ℕ)
  pub enabled : Bool
  pub trigger : Trigger

pub data ConnType : Type 0 where
  unknown_type client_type component_type : ConnType

pub data ConnState : Type 0 where
  disconnected connecting connected : ConnState

-- The bufferevent that `evbuffer` points to; the flag says whether it has an SSL object.
pub data Evbuffer : Type 0 where
  no_buffer freed_buffer : Evbuffer
  open_buffer : (ssl : Bool) → Evbuffer

-- What `stream_id` points to.
pub data StreamId : Type 0 where
  no_id freed_id : StreamId
  live_id : List ℕ → StreamId

pub data OpenHandler : Type 0 where
  auth_handle_open auth_handle_open_sasl : OpenHandler

-- `xmpp_error_type_t`
pub data ErrorType : Type 0 where
  se_bad_format se_bad_ns_prefix se_conflict se_conn_timeout se_host_gone se_host_unknown :
      ErrorType
  se_improper_addr se_internal_server_error se_invalid_from se_invalid_id se_invalid_ns : ErrorType
  se_invalid_xml se_not_authorized se_policy_violation se_remote_conn_failed : ErrorType
  se_resource_constraint se_restricted_xml se_see_other_host se_system_shutdown : ErrorType
  se_undefined_condition se_unsupported_encoding se_unsupported_stanza_type : ErrorType
  se_unsupported_version se_xml_not_well_formed : ErrorType

pub record StreamError : Type 0 where
  pub error_type : ErrorType
  pub error_text : Option (List ℕ)
  pub error_stanza : Stanza

-- `xmpp_conn_event_t`, as far as the code sends it.
pub data Notice : Type 0 where
  conn_connect : Notice
  conn_disconnect : (error : ℕ) → Notice

-- `struct _xmpp_conn_t`. The two bits of `sasl_support` are two fields; `reset` is the parser's;
-- a head that is freed is `none`.
pub record Conn : Type 0 where
  pub ref : ℕ
  pub conn_type : ConnType
  pub state : ConnState
  pub error : ℕ
  pub respond_timeout : ℕ
  pub stream_error : Option StreamError
  pub evbuffer : Evbuffer
  pub tls_disabled : Bool
  pub tls_support : Bool
  pub sasl_plain_mask : Bool
  pub sasl_digest_mask : Bool
  pub zlib_support : Bool
  pub secured : Bool
  pub tls_failed : Bool
  pub bind_required : Bool
  pub session_required : Bool
  pub lang : List ℕ
  pub domain : Option (List ℕ)
  pub jid : Option (List ℕ)
  pub pass : Option (List ℕ)
  pub bound_jid : Option (List ℕ)
  pub stream_id : StreamId
  pub authenticated : Bool
  pub reset : Bool
  pub open_handler : OpenHandler
  pub timed_handlers : List HandlistItem
  pub handlers : List HandlistItem
  pub id_handlers : Table ℕ
  pub heads : List (Option (List HandlistItem))
  pub next : ℕ
  pub restarted : List ℕ
  pub sent : List (List ℕ)
  pub notified : List Notice

-- What the libraries below do in one callback: whether each allocation succeeds, by the place in
-- the callback that asks for it, and whether `bufferevent_write` takes the data.
pub record World : Type 0 where
  pub alloc : ℕ → Bool
  pub writes : Bool
