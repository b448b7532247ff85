-- ===== src/Conn/Idle.antt =====
-- xmpp-conn.c: what the socket and the stream keep of a connection that has not been authenticated.
use imcore.Prelude.{ℕ, suc, ◌≡◌, refl, arith, Bool, true, false, List, [], ◌∷◌, ◌++◌, not}
use imcore.Prelude.{Option, none, if◌then◌else◌, ◌&&◌, ◌||◌, leb, length, take}
use imcore.Prelude.{ok, Ensures, >>=-Ensures, ok-Ensures, if-Ensures}
use imcore.Prelude.{Option-Ensures, fault-Ensures, ok-injective}
use mathlib.Core.Path.{subst}
use imcore.Prelude.Text.{codes, str_eq}
use imcore.Stanza.Tree.{Stanza}
use imcore.Stanza.Render.{Answer, value, error, xmpp_stanza_to_text}
use imcore.Conn.{
  Conn, HandlistItem, Handler, World, timed, Notice, conn_connect, conn_disconnect,
  disconnect_cleanup, ConnState, disconnected, connecting, connected, open_buffer, OpenHandler,
  auth_handle_open, auth_handle_open_sasl,
}
use imcore.Conn.Handlers.{handler_add, handler_add_timed, timed_handler_add_with}
use imcore.Conn.Handlers.{
  check_handler_exist, xmpp_timed_handler_delete, handler_reset_timed, new_item,
}
use imcore.Conn.Stream.{
  conn_do_disconnect, free_buffer, xmpp_send_raw, xmpp_send_raw_string, xmpp_send, xmpp_disconnect,
  conn_init_stream, conn_reset_stream, conn_start_ssl, evb_event_cb, call_open, take_id, is_null,
  BufferEvent, bev_closed, bev_timeout, bev_connected, handle_stream_start, is_connected, has_ssl,
  is_disconnected, free_id, next_id, get_stream_attribute,
}
use imcore.Conn.Features.{}
use imcore.Conn.Unique.{IsUnique-append, IsUnique-unlink_handler}
use imcore.Conn.Waiting.{IsWaiting, told, handler_add_with-IsWaiting}

told-append : (ns : List Notice) (e : ℕ) → told ns ≡ 0 → told (ns ++ conn_disconnect e ∷ []) ≡ 0
unfolding told
told-append [] e h = refl
told-append (conn_connect ∷ ns) e h = absurd (omega (arith, h))
told-append (conn_disconnect d ∷ ns) e h = told-append ns e h

pub xmpp_timed_handler_delete-IsWaiting :
    (c : Conn) (h : Handler) → IsWaiting c → IsWaiting (xmpp_timed_handler_delete c h)
unfolding xmpp_timed_handler_delete
xmpp_timed_handler_delete-IsWaiting c h v = record {
  waiting = v.waiting;
  empty = v.empty;
  ordinary = v.ordinary;
  silent = v.silent;
  unique = v.unique;
  unique_timers = IsUnique-unlink_handler h c.timed_handlers v.unique_timers;
}

pub conn_do_disconnect-IsWaiting :
    (c : Conn) → IsWaiting c → Ensures (conn_do_disconnect c) IsWaiting
unfolding conn_do_disconnect xmpp_timed_handler_delete
conn_do_disconnect-IsWaiting c v = >>=-Ensures IsWaiting (free_buffer c.evbuffer) _ λ buffer _.
    λ d e. subst IsWaiting (ok-injective e) (record {
      waiting = v.waiting;
      empty = v.empty;
      ordinary = v.ordinary;
      silent = told-append c.notified c.error v.silent;
      unique = v.unique;
      unique_timers = IsUnique-unlink_handler disconnect_cleanup c.timed_handlers v.unique_timers;
    })

module _ (w : World) where
  pub xmpp_send_raw-IsWaiting :
      (c : Conn) (bytes : List ℕ) → IsWaiting c → Ensures (xmpp_send_raw w c bytes) IsWaiting
  unfolding xmpp_send_raw
  xmpp_send_raw-IsWaiting c bytes v =
      if-Ensures IsWaiting (is_connected c.state) _ _
        (if-Ensures IsWaiting w.writes _ _
          (ok-Ensures IsWaiting (record c { sent = c.sent ++ bytes ∷ [] }) v)
          (conn_do_disconnect-IsWaiting c v))
        (ok-Ensures IsWaiting c v)

  xmpp_send_raw_string-IsWaiting :
      (c : Conn) (text : List ℕ) → IsWaiting c → Ensures (xmpp_send_raw_string w c text) IsWaiting
  unfolding xmpp_send_raw_string
  xmpp_send_raw_string-IsWaiting c text v =
      if-Ensures IsWaiting (leb 1024 (length text)) _ _
        (if-Ensures IsWaiting (w.alloc 20) _ _ (xmpp_send_raw-IsWaiting c text v)
          (ok-Ensures IsWaiting c v))
        (xmpp_send_raw-IsWaiting c text v)

  rendered-IsWaiting :
      (c : Conn) (r : Answer (List ℕ × ℕ))
      → IsWaiting c
      → Ensures
          (elim r [ value p ↦ xmpp_send_raw w c (take p.1 p.0) | error code ↦ ok c ])
          IsWaiting
  rendered-IsWaiting c (value p) v = xmpp_send_raw-IsWaiting c _ v
  rendered-IsWaiting c (error code) v = ok-Ensures IsWaiting c v

  pub xmpp_send-IsWaiting :
      (c : Conn) (s : Stanza) → IsWaiting c → Ensures (xmpp_send w c s) IsWaiting
  unfolding xmpp_send
  xmpp_send-IsWaiting c s v =
      if-Ensures IsWaiting (is_connected c.state) _ _
        (>>=-Ensures IsWaiting (xmpp_stanza_to_text (w.alloc 21) (w.alloc 22) (w.alloc 23) none s) _
          λ r _. rendered-IsWaiting c r v)
        (ok-Ensures IsWaiting c v)

  pub timed_handler_add_with-IsWaiting :
      (c : Conn) (h : Handler) (period : ℕ) (userdata : Option (List ℕ)) (user : Bool)
      → IsWaiting c
      → IsWaiting (timed_handler_add_with w c h period userdata user)
  unfolding timed_handler_add_with
  timed_handler_add_with-IsWaiting c h period userdata user v =
      pick (check_handler_exist c.timed_handlers h) (w.alloc 0 && w.alloc 1) refl
    where
      i : HandlistItem
      i = new_item c h userdata user (timed period)

      longer : Conn
      longer = record c { timed_handlers = c.timed_handlers ++ i ∷ []; next = suc c.next }

      longer-IsWaiting : check_handler_exist c.timed_handlers h ≡ false → IsWaiting longer
      longer-IsWaiting e = record {
        waiting = v.waiting;
        empty = v.empty;
        ordinary = v.ordinary;
        silent = v.silent;
        unique = v.unique;
        unique_timers = IsUnique-append c.timed_handlers i v.unique_timers (unfold new_item in e);
      }

      pick :
          (a b : Bool)
          → check_handler_exist c.timed_handlers h ≡ a
          → IsWaiting (if a then c else if b then longer else c)
      pick true b e = v
      pick false true e = longer-IsWaiting e
      pick false false e = v

  pub xmpp_disconnect-IsWaiting : (c : Conn) → IsWaiting c → Ensures (xmpp_disconnect w c) IsWaiting
  unfolding xmpp_disconnect handler_add_timed
  xmpp_disconnect-IsWaiting c v =
      if-Ensures IsWaiting (is_disconnected c.state) _ _ (ok-Ensures IsWaiting c v) (
        >>=-Ensures IsWaiting (xmpp_send_raw_string w c (codes "</stream:stream>")) _ λ d e.
          ok-Ensures IsWaiting (timed_handler_add_with w d disconnect_cleanup 5 none false) (
            timed_handler_add_with-IsWaiting d disconnect_cleanup 5 none false
              (xmpp_send_raw_string-IsWaiting c _ v d e)))

  pub conn_init_stream-IsWaiting :
      (c : Conn) → IsWaiting c → Ensures (conn_init_stream w c) IsWaiting
  unfolding conn_init_stream
  conn_init_stream-IsWaiting c v =
      Option-Ensures IsWaiting c.domain _ _ (fault-Ensures IsWaiting _)
        λ d. xmpp_send_raw_string-IsWaiting c _ v

  pub evb_event_cb-IsWaiting :
      (what : BufferEvent) (c : Conn) → IsWaiting c → Ensures (evb_event_cb w what c) IsWaiting
  unfolding evb_event_cb conn_reset_stream
  evb_event_cb-IsWaiting bev_closed c v = conn_do_disconnect-IsWaiting _ v
  evb_event_cb-IsWaiting bev_timeout c v = conn_do_disconnect-IsWaiting _ v
  evb_event_cb-IsWaiting bev_connected c v = pick c.state
    where
      next : Conn
      next =
          conn_reset_stream
            (record c { state = connected; secured = has_ssl c.evbuffer || c.secured })
            auth_handle_open

      pick :
          (s : ConnState)
          → Ensures
              (elim s [
                | connecting ↦ conn_init_stream w next
                | disconnected ↦ ok c
                | connected ↦ ok c
              ])
              IsWaiting
      pick connecting = conn_init_stream-IsWaiting _ v
      pick disconnected = ok-Ensures IsWaiting c v
      pick connected = ok-Ensures IsWaiting c v

  call_open-IsWaiting : (c : Conn) (h : OpenHandler) → IsWaiting c → IsWaiting (call_open w c h)
  unfolding call_open handler_add handler_reset_timed new_item
  call_open-IsWaiting c auth_handle_open v =
      handler_add_with-IsWaiting w _ _ _ _ none none false
        (handler_add_with-IsWaiting w _ _ _ _ none none false v refl) refl
  call_open-IsWaiting c auth_handle_open_sasl v =
      handler_add_with-IsWaiting w c _ _ _ none none false v refl

  take_id-IsWaiting :
      (attrs : List (List ℕ × List ℕ)) (c : Conn)
      → IsWaiting c
      → Ensures (take_id w attrs c) IsWaiting
  unfolding take_id
  take_id-IsWaiting attrs c v = >>=-Ensures IsWaiting (free_id c.stream_id) _ λ old _.
      let id = next_id w old (get_stream_attribute attrs (codes "id")) in
      if-Ensures IsWaiting (is_null id) _ _
        (conn_do_disconnect-IsWaiting (record c { stream_id = id }) v)
        (ok-Ensures IsWaiting (record c { stream_id = id }) v)

  pub handle_stream_start-IsWaiting :
      (name : List ℕ) (attrs : List (List ℕ × List ℕ)) (c : Conn)
      → IsWaiting c
      → Ensures (handle_stream_start w name attrs c) IsWaiting
  unfolding handle_stream_start
  handle_stream_start-IsWaiting name attrs c v =
      let b = str_eq name (codes "stream") in
      let begun = if b then take_id w attrs c else conn_do_disconnect c in
      >>=-Ensures IsWaiting begun _ λ d e. ok-Ensures IsWaiting (call_open w d d.open_handler) (
        call_open-IsWaiting d d.open_handler (
          if-Ensures IsWaiting b (take_id w attrs c) (conn_do_disconnect c)
            (take_id-IsWaiting attrs c v) (conn_do_disconnect-IsWaiting c v) d e))

pub conn_start_ssl-IsWaiting :
    (filter : Bool) (c : Conn) → IsWaiting c → Ensures (conn_start_ssl filter c) IsWaiting
unfolding conn_start_ssl
conn_start_ssl-IsWaiting filter c v =
    if-Ensures IsWaiting (not (is_connected c.state) || has_ssl c.evbuffer) _ _
      (ok-Ensures IsWaiting c v)
      (if-Ensures IsWaiting filter _ _
        (ok-Ensures IsWaiting (record c { state = connecting; evbuffer = open_buffer true }) v)
        (conn_do_disconnect-IsWaiting c v))
