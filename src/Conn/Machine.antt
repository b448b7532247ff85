-- ===== src/Conn/Machine.antt =====
-- xmpp-conn.c: what a connection goes through. The events come from libevent, the calls of the
-- parser from expat, and the application calls the functions of xmpp.h.
use imcore.Prelude.{ℕ, ◌+◌, ◌≡◌, ◌&&◌, Bool, true, false, List, [], ◌∷◌, ltb}
use imcore.Prelude.{Option, none, some, if◌then◌else◌, length}
use imcore.Prelude.{Run, ok, fault, ◌>>=◌, null_pointer, out_of_bounds}
use imcore.Prelude.Text.{strdup, codes}
use imcore.Hash.{Table, hash_new}
use imcore.Stanza.Tree.{Stanza}
use imcore.Jid.{xmpp_jid_domain}
use imcore.Sasl.Digest.{not_null}
use imcore.Conn.{
  Conn, World, Handler, HandlistItem, application, unknown_type, client_type, disconnected,
  connecting, no_buffer, freed_buffer, open_buffer, no_id, auth_handle_open,
}
use imcore.Conn.Handlers.{
  xmpp_handler_add, xmpp_handler_delete, xmpp_timed_handler_add, xmpp_timed_handler_delete,
  xmpp_id_handler_add, xmpp_id_handler_delete, handler_timer_proxy,
}
use imcore.Conn.Fire.{handler_fire_stanza}
use imcore.Conn.Stream.{
  BufferEvent, evb_event_cb, handle_stream_start, handle_stream_end, conn_do_disconnect,
  xmpp_disconnect, xmpp_send,
}
use imcore.Conn.Bind.{call_handler}

unfoldable pub fresh_conn : Table ℕ → Conn
fresh_conn t = record {
  ref = 1;
  conn_type = unknown_type;
  state = disconnected;
  error = 0;
  respond_timeout = 5;
  stream_error = none;
  evbuffer = no_buffer;
  tls_disabled = false;
  tls_support = false;
  sasl_plain_mask = false;
  sasl_digest_mask = false;
  zlib_support = false;
  secured = false;
  tls_failed = false;
  bind_required = false;
  session_required = false;
  lang = codes "zh-cn";
  domain = none;
  jid = none;
  pass = none;
  bound_jid = none;
  stream_id = no_id;
  authenticated = false;
  reset = true;
  open_handler = auth_handle_open;
  timed_handlers = [];
  handlers = [];
  id_handlers = t;
  heads = [];
  next = 1;
  restarted = [];
  sent = [];
  notified = [];
}

-- Without memory for the parser or the table the pointer to it is used all the same.
unfoldable pub xmpp_conn_new : World → Run (Option Conn)
xmpp_conn_new w =
    if w.alloc 80 && w.alloc 81
    then if w.alloc 82
      then elim (hash_new {V = ℕ} (w.alloc 83) (w.alloc 84) 32 false) [
        | none ↦ fault null_pointer
        | some t ↦ ok (some (fresh_conn t))
      ]
      else fault null_pointer
    else ok none

unfoldable pub xmpp_conn_clone : Conn → Conn
xmpp_conn_clone c = record c { ref = c.ref + 1 }

unfoldable pub xmpp_conn_set_jid : World → Conn → List ℕ → Conn
xmpp_conn_set_jid w c jid = record c { jid = strdup (w.alloc 85) jid }

unfoldable pub xmpp_conn_set_pass : World → Conn → List ℕ → Conn
xmpp_conn_set_pass w c pass = record c { pass = strdup (w.alloc 86) pass }

unfoldable pub xmpp_conn_set_timeout : Conn → ℕ → Conn
xmpp_conn_set_timeout c usec = if ltb 0 usec then record c { respond_timeout = usec } else c

unfoldable pub xmpp_conn_disable_tls : Conn → Conn
xmpp_conn_disable_tls c = record c { tls_disabled = true }

-- `strcpy` into the 2,048 bytes of `connectdomain`
unfoldable pub fitting_host : List ℕ → Run (List ℕ)
fitting_host name = if ltb (length name) 2048 then ok name else fault out_of_bounds

unfoldable pub port_or_default : ℕ → ℕ
port_or_default port = if ltb 0 port then port else 5222

-- The host and the port to connect to: `srv` is what `im_srv_lookup` finds.
unfoldable pub connect_target :
    List ℕ → Option (List ℕ) → ℕ → Option (List ℕ × ℕ) → Run (List ℕ × ℕ)
connect_target domain (some alt) port srv = do
  name ← fitting_host alt
  ok (name, port_or_default port)
connect_target domain none port (some found) = ok found
connect_target domain none port none = do
  name ← fitting_host domain
  ok (name, port_or_default port)

-- How an attempt to connect ends: the name is not resolved, there is no memory for the buffer, the
-- connection is refused at once, or it is on its way.
pub data Attempt : Type 0 where
  unresolved no_memory refused started : Attempt

-- Whether the call succeeds, and the connection.
unfoldable pub attempted : Conn → Attempt → Bool × Conn
attempted c unresolved = (false, c)
attempted c no_memory = (false, record c { evbuffer = no_buffer })
attempted c refused = (false, record c { evbuffer = freed_buffer })
attempted c started = (true, record c { evbuffer = open_buffer false; state = connecting })

unfoldable pub xmpp_connect_client :
    World
    → Conn
    → Option (List ℕ)
    → ℕ
    → (List ℕ → Option (List ℕ × ℕ))
    → (List ℕ × ℕ → Attempt)
    → Run (Bool × Conn)
xmpp_connect_client w c alt port srv connects = do
  jid ← not_null c.jid
  let domain = xmpp_jid_domain (w.alloc 87) jid
  let c' = record c { conn_type = client_type; domain = domain }
  elim domain [
    | none ↦ ok (false, c')
    | some d ↦ do target ← connect_target d alt port (srv d); ok (attempted c' (connects target))
  ]

-- What the parser calls in the course of a block: the three callbacks of the connection, and
-- `xmpp_disconnect` where it cannot go on.
pub data ParserCall : Type 0 where
  stream_start : (name : List ℕ) (attrs : List (List ℕ × List ℕ)) → ParserCall
  stream_end parser_problem : ParserCall
  stream_stanza : Stanza → ParserCall

module _ (md5 : List ℕ → List ℕ) (user : ℕ → Conn → Stanza → Run (Bool × Conn)) (fuel : ℕ) where
  unfoldable pub parser_call : World → Bool → ParserCall → Conn → Run Conn
  parser_call w filter (stream_start name attrs) c = handle_stream_start w name attrs c
  parser_call w filter stream_end c = handle_stream_end c
  parser_call w filter parser_problem c = xmpp_disconnect w c
  parser_call w filter (stream_stanza s) c =
      handler_fire_stanza (call_handler md5 user w filter) s fuel c

  -- What the read callback does with one block: the calls, then the disconnection where expat
  -- reports an error.
  unfoldable pub evb_read_cb : World → Bool → List ParserCall → Bool → Conn → Run Conn
  evb_read_cb w filter [] wellformed c = if wellformed then ok c else conn_do_disconnect c
  evb_read_cb w filter (p ∷ ps) wellformed c = do
    c' ← parser_call w filter p c
    evb_read_cb w filter ps wellformed c'

  -- One event, or one call of the application.
  pub data Step (c : Conn) (c' : Conn) : Type 0 where
    event : (w : World) (what : BufferEvent) → evb_event_cb w what c ≡ ok c' → Step c c'
    reads :
        (w : World) (filter : Bool) (ps : List ParserCall) (wellformed : Bool)
        → evb_read_cb w filter ps wellformed c ≡ ok c'
        → Step c c'
    timer : (i : HandlistItem) → handler_timer_proxy c i ≡ ok c' → Step c c'
    connects :
        (w : World) (alt : Option (List ℕ)) (port : ℕ) (srv : List ℕ → Option (List ℕ × ℕ))
        (reaches : List ℕ × ℕ → Attempt) (success : Bool)
        → xmpp_connect_client w c alt port srv reaches ≡ ok (success, c')
        → Step c c'
    disconnects : (w : World) → xmpp_disconnect w c ≡ ok c' → Step c c'
    sends : (w : World) (s : Stanza) → xmpp_send w c s ≡ ok c' → Step c c'
    adds :
        (w : World) (n : ℕ) (ns name type userdata : Option (List ℕ))
        → c' ≡ xmpp_handler_add w c (application n) ns name type userdata
        → Step c c'
    deletes : (h : Handler) → c' ≡ xmpp_handler_delete c h → Step c c'
    adds_timed :
        (w : World) (n period : ℕ) (userdata : Option (List ℕ))
        → c' ≡ xmpp_timed_handler_add w c (application n) period userdata
        → Step c c'
    deletes_timed : (h : Handler) → c' ≡ xmpp_timed_handler_delete c h → Step c c'
    adds_id :
        (w : World) (n : ℕ) (id : List ℕ) (userdata : Option (List ℕ))
        → xmpp_id_handler_add w c (application n) id userdata ≡ ok c'
        → Step c c'
    deletes_id : (h : Handler) (id : List ℕ) → xmpp_id_handler_delete c h id ≡ ok c' → Step c c'
    sets_jid : (w : World) (jid : List ℕ) → c' ≡ xmpp_conn_set_jid w c jid → Step c c'
    sets_pass : (w : World) (pass : List ℕ) → c' ≡ xmpp_conn_set_pass w c pass → Step c c'
    disables_tls : c' ≡ xmpp_conn_disable_tls c → Step c c'

  pub data Reach (c : Conn) : Conn → Type 0 where
    here : Reach c c
    next : {d e : Conn} → Reach c d → Step d e → Reach c e
