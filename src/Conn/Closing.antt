-- ===== src/Conn/Closing.antt =====
-- xmpp-conn.c: the ways in which a connection comes to its end, and what a second end does.
use imcore.Prelude.{ℕ, ◌≡◌, refl, ◌∙◌, Bool, true, false, List, [], ◌∷◌, ◌++◌}
use imcore.Prelude.{Option, none, if◌then◌else◌, Returns, ◌&&◌}
use imcore.Prelude.{Run, ok, fault, ◌>>=◌, use_after_free}
use imcore.Prelude.Text.{codes, str_eq}
use imcore.Stanza.Tree.{Stanza}
use imcore.Conn.{
  Conn, HandlistItem, World, Handler, conn_disconnect, Evbuffer, open_buffer, freed_buffer,
  disconnected, disconnect_cleanup, OpenHandler, auth_handle_open, auth_handle_open_sasl,
}
use imcore.Conn.Handlers.{
  handler_add, handler_add_with, handler_reset_timed, check_handler_exist, copies, unlink_handler,
  xmpp_timed_handler_delete,
}
use imcore.Conn.Unique.{IsUnique, unlink_handler-removes}
use imcore.Conn.Stream.{
  conn_do_disconnect, free_buffer, call_open, handle_stream_start, handle_stream_end, evb_event_cb,
  bev_closed, bev_timeout, econnreset, etimedout,
}
use imcore.Conn.Machine.{ParserCall, stream_start, stream_end, parser_call, evb_read_cb}

handler_add-evbuffer :
    (w : World) (c : Conn) (h : Handler) (ns name type userdata : Option (List ℕ))
    → (handler_add w c h ns name type userdata).evbuffer ≡ c.evbuffer
unfolding handler_add handler_add_with
handler_add-evbuffer w c h ns name type userdata =
    pick (check_handler_exist c.handlers h)
      (w.alloc 0 && copies (w.alloc 1) ns && copies (w.alloc 2) name && copies (w.alloc 3) type) _ _
  where
    pick :
        (a b : Bool) (hs : List HandlistItem) (n : ℕ)
        → (if a then c else if b then record c { handlers = hs; next = n } else c).evbuffer
          ≡ c.evbuffer
    pick true b hs n = refl
    pick false true hs n = refl
    pick false false hs n = refl

call_open-evbuffer :
    (w : World) (c : Conn) (h : OpenHandler) → (call_open w c h).evbuffer ≡ c.evbuffer
unfolding call_open handler_reset_timed
call_open-evbuffer w c auth_handle_open =
    handler_add-evbuffer w _ _ _ _ none none ∙ handler_add-evbuffer w _ _ _ _ none none
call_open-evbuffer w c auth_handle_open_sasl = handler_add-evbuffer w c _ _ _ none none

-- What ends a connection: the peer, silence, the end of the stream, or XML that is not well formed.
pub data Ending : Type 0 where
  by_peer by_silence by_stream by_xml : Ending

unfoldable pub ends_with : Ending → ℕ → ℕ
ends_with by_peer error = econnreset
ends_with by_silence error = etimedout
ends_with by_stream error = error
ends_with by_xml error = error

closed_conn : Conn → Conn
closed_conn c = record (xmpp_timed_handler_delete c disconnect_cleanup) {
  state = disconnected;
  evbuffer = freed_buffer;
  notified = c.notified ++ conn_disconnect c.error ∷ [];
}

disconnect_open :
    (c : Conn) (ssl : Bool)
    → c.evbuffer ≡ open_buffer ssl
    → conn_do_disconnect c ≡ ok (closed_conn c)
unfolding conn_do_disconnect closed_conn xmpp_timed_handler_delete free_buffer
disconnect_open c ssl b = at_buffer c.evbuffer b
  where
    at_buffer :
        (e : Evbuffer)
        → e ≡ open_buffer ssl
        → (free_buffer e >>= λ x. ok (record c {
          timed_handlers = unlink_handler disconnect_cleanup c.timed_handlers;
          state = disconnected;
          evbuffer = x;
          notified = c.notified ++ conn_disconnect c.error ∷ [];
        }))
          ≡ ok (closed_conn c)
    at_buffer e h = rw h refl

disconnect_freed :
    (c : Conn) → c.evbuffer ≡ freed_buffer → conn_do_disconnect c ≡ fault use_after_free
unfolding conn_do_disconnect xmpp_timed_handler_delete free_buffer
disconnect_freed c b = at_buffer _ c.evbuffer b
  where
    at_buffer :
        (next : Evbuffer → Run Conn) (e : Evbuffer)
        → e ≡ freed_buffer
        → (free_buffer e >>= next) ≡ fault use_after_free
    at_buffer next e h = rw h refl

pub record Closed (e : Ending) (c d : Conn) : Type 0 where
  pub down : d.state ≡ disconnected
  pub freed : d.evbuffer ≡ freed_buffer
  pub told_once : d.notified ≡ c.notified ++ conn_disconnect (ends_with e c.error) ∷ []
  pub quiet : d.sent ≡ c.sent
  pub no_timer : check_handler_exist d.timed_handlers disconnect_cleanup ≡ false

closed_conn-Closed :
    (e : Ending) (c : Conn) (n : ℕ)
    → IsUnique c.timed_handlers
    → n ≡ ends_with e c.error
    → Closed e c (closed_conn (record c { error = n }))
unfolding closed_conn xmpp_timed_handler_delete
closed_conn-Closed e c n u h = record {
  down = refl;
  freed = refl;
  told_once = rw h refl;
  quiet = refl;
  no_timer = unlink_handler-removes disconnect_cleanup c.timed_handlers u;
}

module _ (md5 : List ℕ → List ℕ) (user : ℕ → Conn → Stanza → Run (Bool × Conn)) (fuel : ℕ) where
  -- The callback that each one comes with.
  unfoldable pub ending : World → Bool → Ending → Conn → Run Conn
  ending w filter by_peer c = evb_event_cb w bev_closed c
  ending w filter by_silence c = evb_event_cb w bev_timeout c
  ending w filter by_stream c = evb_read_cb md5 user fuel w filter (stream_end ∷ []) true c
  ending w filter by_xml c = evb_read_cb md5 user fuel w filter [] false c

  -- Each of them brings a connection with a live buffer down: the buffer is freed, the application is
  -- told once and with the reason, nothing more is sent, and the timer that was to force the end is gone.
  pub ending-Closed :
      (w : World) (filter : Bool) (e : Ending) (c : Conn) (ssl : Bool)
      → c.evbuffer ≡ open_buffer ssl
      → IsUnique c.timed_handlers
      → Returns (ending w filter e c) (Closed e c)
  unfolding ending ends_with evb_event_cb evb_read_cb parser_call handle_stream_end
  ending-Closed w filter by_peer c ssl b u =
      (_, disconnect_open _ ssl b, closed_conn-Closed by_peer c econnreset u refl)
  ending-Closed w filter by_silence c ssl b u =
      (_, disconnect_open _ ssl b, closed_conn-Closed by_silence c etimedout u refl)
  ending-Closed w filter by_stream c ssl b u = (
    closed_conn c,
    rw (disconnect_open c ssl b) refl,
    closed_conn-Closed by_stream c c.error u refl,
  )
  ending-Closed w filter by_xml c ssl b u =
      (closed_conn c, disconnect_open c ssl b, closed_conn-Closed by_xml c c.error u refl)

  -- A server that opens another element than `stream` and closes it in the same block of data makes
  -- the client free the buffer of the connection twice.
  pub wrong_root_frees_twice :
      (w : World) (filter wellformed : Bool) (name : List ℕ) (attrs : List (List ℕ × List ℕ))
      (ps : List ParserCall) (c : Conn) (ssl : Bool)
      → str_eq name (codes "stream") ≡ false
      → c.evbuffer ≡ open_buffer ssl
      → evb_read_cb md5 user fuel w filter (stream_start name attrs ∷ stream_end ∷ ps) wellformed c
        ≡ fault use_after_free
  unfolding evb_read_cb parser_call handle_stream_start handle_stream_end
  wrong_root_frees_twice w filter wellformed name attrs ps c ssl n b =
      rw (n, disconnect_open c ssl b)
        (rw
          (disconnect_freed (call_open w (closed_conn c) (closed_conn c).open_handler) (
            call_open-evbuffer w (closed_conn c) (closed_conn c).open_handler
            ∙ (unfold closed_conn in refl)))
          refl)
