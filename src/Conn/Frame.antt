-- ===== src/Conn/Frame.antt =====
-- xmpp-conn.c: the fields that sending and closing leave alone, and what a closed connection is.
use imcore.Prelude.{ℕ, ◌≡◌, refl, List, leb, length, take}
use imcore.Prelude.{none}
use imcore.Prelude.{ok, Ensures, >>=-Ensures, ok-Ensures, if-Ensures}
use imcore.Stanza.Tree.{Stanza}
use imcore.Stanza.Render.{Answer, value, error, xmpp_stanza_to_text}
use imcore.Conn.{Conn, World}
use imcore.Conn.Handlers.{xmpp_timed_handler_delete}
use imcore.Conn.Stream.{
  conn_do_disconnect, free_buffer, xmpp_send_raw, xmpp_send_raw_string, xmpp_send, is_connected,
}

-- `d` differs from `c` at most in these fields.
abbrev pub Frame : Conn → Conn → Type 0
Frame c d = d ≡ record c {
  state = d.state;
  evbuffer = d.evbuffer;
  timed_handlers = d.timed_handlers;
  next = d.next;
  notified = d.notified;
  sent = d.sent;
}

module _ (c : Conn) where
  conn_do_disconnect-Frame : Ensures (conn_do_disconnect c) (Frame c)
  unfolding conn_do_disconnect xmpp_timed_handler_delete
  conn_do_disconnect-Frame =
      >>=-Ensures (Frame c) (free_buffer c.evbuffer) _ λ b _. ok-Ensures (Frame c) _ refl

  module _ (w : World) where
    xmpp_send_raw-Frame : (bytes : List ℕ) → Ensures (xmpp_send_raw w c bytes) (Frame c)
    unfolding xmpp_send_raw
    xmpp_send_raw-Frame bytes =
        if-Ensures (Frame c) (is_connected c.state) _ _
          (if-Ensures (Frame c) w.writes _ _ (ok-Ensures (Frame c) _ refl) conn_do_disconnect-Frame)
          (ok-Ensures (Frame c) c refl)

    xmpp_send_raw_string-Frame : (text : List ℕ) → Ensures (xmpp_send_raw_string w c text) (Frame c)
    unfolding xmpp_send_raw_string
    xmpp_send_raw_string-Frame text =
        if-Ensures (Frame c) (leb 1024 (length text)) _ _
          (if-Ensures (Frame c) (w.alloc 20) _ _ (xmpp_send_raw-Frame text)
            (ok-Ensures (Frame c) c refl))
          (xmpp_send_raw-Frame text)

    rendered-Frame :
        (r : Answer (List ℕ × ℕ))
        → Ensures
            (elim r [ value p ↦ xmpp_send_raw w c (take p.1 p.0) | error code ↦ ok c ])
            (Frame c)
    rendered-Frame (value p) = xmpp_send_raw-Frame _
    rendered-Frame (error code) = ok-Ensures (Frame c) c refl

    pub xmpp_send-Frame : (s : Stanza) → Ensures (xmpp_send w c s) (Frame c)
    unfolding xmpp_send
    xmpp_send-Frame s =
        if-Ensures (Frame c) (is_connected c.state) _ _
          (>>=-Ensures (Frame c) (xmpp_stanza_to_text (w.alloc 21) (w.alloc 22) (w.alloc 23) none s)
            _ λ r _. rendered-Frame r)
          (ok-Ensures (Frame c) c refl)
