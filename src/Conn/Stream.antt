-- ===== src/Conn/Stream.antt =====
-- xmpp-conn.c: the socket and the stream of a connection.
use imcore.Prelude.{ℕ, ◌||◌, not, Bool, true, false, List, [], ◌∷◌, ◌++◌, take}
use imcore.Prelude.{Option, none, some, if◌then◌else◌, length, leb}
use imcore.Prelude.{Run, ok, fault, ◌>>=◌, null_pointer, use_after_free}
use imcore.Prelude.Text.{strdup, codes, str_eq}
use imcore.Stanza.Tree.{Stanza}
use imcore.Stanza.Render.{value, error, xmpp_stanza_to_text}
use imcore.Conn.{Conn, World, handle_stream_error, handle_features, handle_features_sasl}
use imcore.Conn.{disconnect_cleanup, ConnState, disconnected, connecting, connected, Evbuffer}
use imcore.Conn.{no_buffer, freed_buffer, open_buffer, ConnType, client_type, OpenHandler}
use imcore.Conn.{
  StreamId, no_id, freed_id, live_id, auth_handle_open, auth_handle_open_sasl, conn_disconnect,
}
use imcore.Conn.Handlers.{handler_add, handler_add_timed, xmpp_timed_handler_delete}
use imcore.Conn.Handlers.{handler_reset_timed}

unfoldable pub is_connected : ConnState → Bool
is_connected disconnected = false
is_connected connecting = false
is_connected connected = true

unfoldable pub is_disconnected : ConnState → Bool
is_disconnected disconnected = true
is_disconnected connecting = false
is_disconnected connected = false

-- `bufferevent_openssl_get_ssl(conn->evbuffer) != NULL`
unfoldable pub has_ssl : Evbuffer → Bool
has_ssl no_buffer = false
has_ssl freed_buffer = false
has_ssl (open_buffer ssl) = ssl

-- `bufferevent_free`
unfoldable pub free_buffer : Evbuffer → Run Evbuffer
free_buffer no_buffer = fault null_pointer
free_buffer freed_buffer = fault use_after_free
free_buffer (open_buffer ssl) = ok freed_buffer

unfoldable pub conn_do_disconnect : Conn → Run Conn
conn_do_disconnect c = do
  let c' = xmpp_timed_handler_delete c disconnect_cleanup
  buffer ← free_buffer c'.evbuffer
  ok (record c' {
    state = disconnected;
    evbuffer = buffer;
    notified = c'.notified ++ conn_disconnect c'.error ∷ [];
  })

unfoldable pub xmpp_send_raw : World → Conn → List ℕ → Run Conn
xmpp_send_raw w c bytes =
    if is_connected c.state
    then if w.writes then ok (record c { sent = c.sent ++ bytes ∷ [] }) else conn_do_disconnect c
    else ok c

-- The formatted text. From 1,024 bytes on it needs a block of its own.
unfoldable pub xmpp_send_raw_string : World → Conn → List ℕ → Run Conn
xmpp_send_raw_string w c text =
    if leb 1024 (length text)
    then if w.alloc 20 then xmpp_send_raw w c text else ok c
    else xmpp_send_raw w c text

unfoldable pub xmpp_send : World → Conn → Stanza → Run Conn
xmpp_send w c s =
    if is_connected c.state
    then (xmpp_stanza_to_text (w.alloc 21) (w.alloc 22) (w.alloc 23) none s >>= λ r. elim r [
      | value p ↦ xmpp_send_raw w c (take p.1 p.0)
      | error code ↦ ok c
    ])
    else ok c

unfoldable pub xmpp_disconnect : World → Conn → Run Conn
xmpp_disconnect w c =
    if is_disconnected c.state
    then ok c
    else (xmpp_send_raw_string w c (codes "</stream:stream>") >>= λ c'.
        ok (handler_add_timed w c' disconnect_cleanup 5 none))

unfoldable pub conn_reset_stream : Conn → OpenHandler → Conn
conn_reset_stream c handler = record c { open_handler = handler; reset = true }

unfoldable pub stream_ns : ConnType → List ℕ
stream_ns client_type = codes "jabber:client"
stream_ns _ = codes "jabber:component:accept"

-- A domain that is NULL must not be printed.
unfoldable pub conn_init_stream : World → Conn → Run Conn
conn_init_stream w c = elim c.domain [
  | none ↦ fault null_pointer
  | some domain ↦ xmpp_send_raw_string w c (
      codes "<?xml version=\"1.0\"?><stream:stream to=\""
      ++ (domain
          ++ (codes "\" xml:lang=\""
              ++ (c.lang
                  ++ (codes "\" version=\"1.0\" xmlns=\""
                      ++ (stream_ns c.conn_type
                          ++ codes "\" xmlns:stream=\"http://etherx.jabber.org/streams\">"))))))
]

-- The two flags say whether `SSL_new` with the filter succeeds.
unfoldable pub conn_start_ssl : Bool → Conn → Run Conn
conn_start_ssl filter c =
    if not (is_connected c.state) || has_ssl c.evbuffer
    then ok c
    else if filter
    then ok (record c { state = connecting; evbuffer = open_buffer true })
    else conn_do_disconnect c

-- `BEV_EVENT_EOF | BEV_EVENT_ERROR`, `BEV_EVENT_TIMEOUT`, `BEV_EVENT_CONNECTED`
pub data BufferEvent : Type 0 where
  bev_closed bev_timeout bev_connected : BufferEvent

abbrev pub econnreset : ℕ
econnreset = 104

abbrev pub etimedout : ℕ
etimedout = 110

unfoldable pub evb_event_cb : World → BufferEvent → Conn → Run Conn
evb_event_cb w bev_closed c = conn_do_disconnect (record c { error = econnreset })
evb_event_cb w bev_timeout c = conn_do_disconnect (record c { error = etimedout })
evb_event_cb w bev_connected c = elim c.state [
  | connecting ↦
      let c' = record c { state = connected; secured = has_ssl c.evbuffer || c.secured } in
      conn_init_stream w (conn_reset_stream c' auth_handle_open)
  | disconnected ↦ ok c
  | connected ↦ ok c
]

-- The function that `open_handler` points to.
unfoldable pub call_open : World → Conn → OpenHandler → Conn
call_open w c auth_handle_open =
    let streams = some (codes "http://etherx.jabber.org/streams") in
    let c' = handler_reset_timed c false in
    let c'' = handler_add w c' handle_stream_error streams (some (codes "error")) none none in
    handler_add w c'' handle_features streams (some (codes "features")) none none
call_open w c auth_handle_open_sasl =
    handler_add w c handle_features_sasl (some (codes "http://etherx.jabber.org/streams"))
      (some (codes "features")) none none

-- Expat hands over the names and the values in turn, with NULL at the end.
unfoldable pub get_stream_attribute : List (List ℕ × List ℕ) → List ℕ → Option (List ℕ)
get_stream_attribute [] name = none
get_stream_attribute ((key, v) ∷ attrs) name =
    if str_eq name key then some v else get_stream_attribute attrs name

-- The stream id of the stream before this one is freed, and the pointer is kept where the new stream
-- has no attribute `id`.
unfoldable pub free_id : StreamId → Run StreamId
free_id no_id = ok no_id
free_id freed_id = fault use_after_free
free_id (live_id s) = ok freed_id

unfoldable pub next_id : World → StreamId → Option (List ℕ) → StreamId
next_id w old none = old
next_id w old (some id) = elim (strdup (w.alloc 24) id) [ none ↦ no_id | some s ↦ live_id s ]

unfoldable pub is_null : StreamId → Bool
is_null no_id = true
is_null freed_id = false
is_null (live_id s) = false

unfoldable pub take_id : World → List (List ℕ × List ℕ) → Conn → Run Conn
take_id w attrs c = do
  old ← free_id c.stream_id
  let id = next_id w old (get_stream_attribute attrs (codes "id"))
  let c' = record c { stream_id = id }
  if is_null id then conn_do_disconnect c' else ok c'

-- After a disconnection the open handler is called all the same.
unfoldable pub handle_stream_start : World → List ℕ → List (List ℕ × List ℕ) → Conn → Run Conn
handle_stream_start w name attrs c = do
  d ← if str_eq name (codes "stream") then take_id w attrs c else conn_do_disconnect c
  ok (call_open w d d.open_handler)

unfoldable pub handle_stream_end : Conn → Run Conn
handle_stream_end c = conn_do_disconnect c
