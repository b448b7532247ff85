-- ===== src/Conn/Unauth.antt =====
-- xmpp-auth.c: no callback that can run authenticates a connection, since the handlers of the last two
-- answers are never registered.
use imcore.Prelude.{ℕ, refl, Bool, true, false, List, not}
use imcore.Prelude.{Option, none, some, if◌then◌else◌, ◌&&◌, ◌||◌}
use imcore.Prelude.{Run, ok, ◌>>=◌, Ensures, >>=-Ensures, ok-Ensures, if-Ensures}
use imcore.Prelude.{Option-Ensures, fault-Ensures, null_pointer}
use imcore.Prelude.Text.{codes}
use imcore.Stanza.Tree.{Stanza, xmpp_stanza_new, xmpp_stanza_get_name_ptr}
use imcore.Stanza.Children.{xmpp_stanza_get_child_by_name, xmpp_stanza_get_text_ptr}
use imcore.Stanza.Copy.{xmpp_stanza_copy}
use imcore.Jid.{xmpp_jid_node}
use imcore.Sasl.Digest.{not_null, sasl_digest_md5}
use imcore.Conn.{
  Conn, World, handle_proceedtls, handle_sasl_result, handle_digestmd5_challenge,
  handle_digestmd5_rspauth, handle_bind, auth_handle_open_sasl,
}
use imcore.Conn.Handlers.{handler_add, handler_add_id, new_item}
use imcore.Conn.Stream.{xmpp_send, xmpp_disconnect, conn_reset_stream, conn_init_stream}
use imcore.Conn.Stream.{conn_start_ssl}
use imcore.Conn.Features.{strcmp, in_ns, read_features, stream_error_of, ns_tls, ns_sasl}
use imcore.Conn.Auth.{
  or_disconnect, named_stanza, with_child_text, make_starttls, make_sasl_auth, do_starttls,
  do_digest, do_plain, plain_text, do_auth, on_stream_error, on_features, on_proceedtls,
  on_sasl_result, send_response, answer_challenge, on_digestmd5_challenge, on_digestmd5_rspauth,
  ns_bind, ns_session,
}
use imcore.Conn.Bind.{
  bind_id, make_iq, wanted_resource, with_resource, send_bind, request_bind, on_features_sasl,
}
use imcore.Conn.Quiet.{read_features-IsWaiting}
use imcore.Conn.Waiting.{IsWaiting, handler_add_with-IsWaiting, id_handler_add_with-IsWaiting}
use imcore.Conn.Idle.{
  xmpp_send-IsWaiting, xmpp_disconnect-IsWaiting, conn_init_stream-IsWaiting,
  conn_start_ssl-IsWaiting,
}

module _ (w : World) where
  or_disconnect-IsWaiting {ℓ} :
      {A : Type ℓ} (c : Conn) (o : Option A) (next : A → Run Conn)
      → IsWaiting c
      → ((a : A) → Ensures (next a) IsWaiting)
      → Ensures (or_disconnect w c o next) IsWaiting
  unfolding or_disconnect
  or_disconnect-IsWaiting c none next v k = xmpp_disconnect-IsWaiting w c v
  or_disconnect-IsWaiting c (some a) next v k = k a

  do_starttls-IsWaiting : (c : Conn) → IsWaiting c → Ensures (do_starttls w c) IsWaiting
  unfolding do_starttls handler_add new_item
  do_starttls-IsWaiting c v = >>=-Ensures IsWaiting (make_starttls w) _ λ made _.
      or_disconnect-IsWaiting c made _ v λ s.
        xmpp_send-IsWaiting w (handler_add w c handle_proceedtls (some ns_tls) none none none) s (
          handler_add_with-IsWaiting w c handle_proceedtls (some ns_tls) none none none false v
            refl)

  do_digest-IsWaiting : (c : Conn) → IsWaiting c → Ensures (do_digest w c) IsWaiting
  unfolding do_digest handler_add new_item
  do_digest-IsWaiting c v =
      >>=-Ensures IsWaiting (make_sasl_auth w (codes "DIGEST-MD5")) _ λ made _.
        or_disconnect-IsWaiting c made _ v λ s.
          let added = handler_add w c handle_digestmd5_challenge (some ns_sasl) none none none in
          >>=-Ensures IsWaiting (xmpp_send w added s) _ λ d e.
            ok-Ensures IsWaiting (record d { sasl_digest_mask = false })
              (xmpp_send-IsWaiting w added s
                (handler_add_with-IsWaiting w c handle_digestmd5_challenge (some ns_sasl) none none
                  none false v refl)
                d e)

  do_plain-IsWaiting : (c : Conn) → IsWaiting c → Ensures (do_plain w c) IsWaiting
  unfolding do_plain handler_add new_item
  do_plain-IsWaiting c v = >>=-Ensures IsWaiting (make_sasl_auth w (codes "PLAIN")) _ λ made _.
      or_disconnect-IsWaiting c made _ v λ auth.
        or_disconnect-IsWaiting c (xmpp_stanza_new (w.alloc 42)) _ v λ bare.
          >>=-Ensures IsWaiting (not_null c.jid) _ λ jid _.
            or_disconnect-IsWaiting c (xmpp_jid_node (w.alloc 45) jid) _ v λ node.
              >>=-Ensures IsWaiting (plain_text w c node) _ λ text _.
                or_disconnect-IsWaiting c text _ v λ str.
                  let mechanism = some (codes "PLAIN") in
                  let added =
                    handler_add w c handle_sasl_result (some ns_sasl) none none mechanism in
                  >>=-Ensures IsWaiting (xmpp_send w added (with_child_text auth bare str)) _ λ d e.
                    ok-Ensures IsWaiting (record d { sasl_plain_mask = false })
                      (xmpp_send-IsWaiting w added (with_child_text auth bare str)
                        (handler_add_with-IsWaiting w c handle_sasl_result (some ns_sasl) none none
                          mechanism false v refl)
                        d e)

  do_auth-IsWaiting : (c : Conn) → IsWaiting c → Ensures (do_auth w c) IsWaiting
  unfolding do_auth
  do_auth-IsWaiting c v =
      if-Ensures IsWaiting (c.tls_support && not c.secured) _ _ (do_starttls-IsWaiting c v) (
        if-Ensures IsWaiting c.authenticated _ _ (ok-Ensures IsWaiting c v) (
          if-Ensures IsWaiting c.sasl_digest_mask _ _ (do_digest-IsWaiting c v) (
            if-Ensures IsWaiting c.sasl_plain_mask _ _ (do_plain-IsWaiting c v)
              (xmpp_disconnect-IsWaiting w c v))))

-- What a callback leaves is still waiting, whether or not the handler is kept.
abbrev pub Keeps : Run (Bool × Conn) → Type 0
Keeps r = Ensures r (λ p. IsWaiting p.1)

answered : (b : Bool) (m : Run Conn) → Ensures m IsWaiting → Keeps (m >>= λ c. ok (b, c))
answered b m h =
    >>=-Ensures (λ p. IsWaiting p.1) m _ λ c e. ok-Ensures (λ p. IsWaiting p.1) (b, c) (h c e)

module _ (w : World) (s : Stanza) where
  pub on_stream_error-Keeps : (c : Conn) → IsWaiting c → Keeps (on_stream_error w c s)
  unfolding on_stream_error
  on_stream_error-Keeps c v =
      >>=-Ensures (λ p. IsWaiting p.1) (stream_error_of w s) _
        λ e _. ok-Ensures (λ p. IsWaiting p.1) (true, record c { stream_error = some e }) v

  pub on_features-Keeps : (c : Conn) → IsWaiting c → Keeps (on_features w c s)
  unfolding on_features
  on_features-Keeps c v =
      >>=-Ensures (λ p. IsWaiting p.1) (read_features s c) _
        λ d e.
          answered false (do_auth w d) (do_auth-IsWaiting w d (read_features-IsWaiting s c v d e))

  pub on_proceedtls-Keeps :
      (filter : Bool) (c : Conn) → IsWaiting c → Keeps (on_proceedtls filter c s)
  unfolding on_proceedtls
  on_proceedtls-Keeps filter c v =
      let name = xmpp_stanza_get_name_ptr s in
      >>=-Ensures (λ p. IsWaiting p.1) (strcmp name (codes "proceed")) _
        λ b _. answered false (if b then conn_start_ssl filter c else ok c) (
          if-Ensures IsWaiting b _ _ (conn_start_ssl-IsWaiting filter c v)
            (ok-Ensures IsWaiting c v))

  pub on_sasl_result-Keeps : (c : Conn) → IsWaiting c → Keeps (on_sasl_result w c s)
  unfolding on_sasl_result conn_reset_stream
  on_sasl_result-Keeps c v =
      let name = xmpp_stanza_get_name_ptr s in
      let again = conn_reset_stream c auth_handle_open_sasl in
      >>=-Ensures (λ p. IsWaiting p.1) (strcmp name (codes "failure")) _
        λ f _.
          >>=-Ensures (λ p. IsWaiting p.1) (strcmp name (codes "success")) _
            λ g _.
              answered false
                (if f
                  then do_auth w c
                  else if g
                  then conn_init_stream w again
                  else xmpp_disconnect w c)
                (if-Ensures IsWaiting f _ _ (do_auth-IsWaiting w c v) (
                  if-Ensures IsWaiting g _ _ (conn_init_stream-IsWaiting w again v)
                    (xmpp_disconnect-IsWaiting w c v)))

  answer_challenge-IsWaiting :
      (md5 : List ℕ → List ℕ) (c : Conn)
      → IsWaiting c
      → Ensures (answer_challenge md5 w c s) IsWaiting
  unfolding answer_challenge send_response handler_add new_item
  answer_challenge-IsWaiting md5 c v =
      >>=-Ensures IsWaiting (not_null (xmpp_stanza_get_text_ptr s)) _ λ text _.
        >>=-Ensures IsWaiting (not_null c.jid) _ λ jid _.
          >>=-Ensures IsWaiting (not_null c.pass) _ λ password _.
            >>=-Ensures IsWaiting (sasl_digest_md5 md5 text jid password) _ λ response _.
              or_disconnect-IsWaiting w c response _ v λ r.
                >>=-Ensures IsWaiting (named_stanza (w.alloc 46) (codes "response") ns_sasl) _
                  λ made _. or_disconnect-IsWaiting w c made _ v λ auth.
                    or_disconnect-IsWaiting w c (xmpp_stanza_new (w.alloc 47)) _ v λ bare.
                      xmpp_send-IsWaiting w
                        (handler_add w c handle_digestmd5_rspauth (some ns_sasl) none none none)
                        (with_child_text auth bare r)
                        (handler_add_with-IsWaiting w c handle_digestmd5_rspauth (some ns_sasl) none
                          none none false v refl)

  pub on_digestmd5_challenge-Keeps :
      (md5 : List ℕ → List ℕ) (c : Conn) → IsWaiting c → Keeps (on_digestmd5_challenge md5 w c s)
  unfolding on_digestmd5_challenge
  on_digestmd5_challenge-Keeps md5 c v =
      let name = xmpp_stanza_get_name_ptr s in
      >>=-Ensures (λ p. IsWaiting p.1) (strcmp name (codes "challenge")) _
        λ b _.
          if-Ensures (λ p. IsWaiting p.1) b _ _
            (answered false (answer_challenge md5 w c s) (answer_challenge-IsWaiting md5 c v))
            (on_sasl_result-Keeps c v)

  pub on_digestmd5_rspauth-Keeps : (c : Conn) → IsWaiting c → Keeps (on_digestmd5_rspauth w c s)
  unfolding on_digestmd5_rspauth
  on_digestmd5_rspauth-Keeps c v =
      let name = xmpp_stanza_get_name_ptr s in
      >>=-Ensures (λ p. IsWaiting p.1) (strcmp name (codes "challenge")) _
        λ b _.
          if-Ensures (λ p. IsWaiting p.1) b _ _
            (>>=-Ensures (λ p. IsWaiting p.1) (named_stanza (w.alloc 48) (codes "response") ns_sasl)
              _
              λ o _.
                Option-Ensures (λ p. IsWaiting p.1) o _ _
                  (answered false (xmpp_disconnect w c) (xmpp_disconnect-IsWaiting w c v))
                  (λ auth. answered true (xmpp_send w c auth) (xmpp_send-IsWaiting w c auth v)))
            (on_sasl_result-Keeps c v)

  send_bind-IsWaiting :
      (c : Conn) (iq bind : Stanza) → IsWaiting c → Ensures (send_bind w c iq bind) IsWaiting
  unfolding send_bind
  send_bind-IsWaiting c iq bind v = xmpp_send-IsWaiting w c _ v

  request_bind-IsWaiting : (c : Conn) → IsWaiting c → Ensures (request_bind w c s) IsWaiting
  unfolding request_bind
  request_bind-IsWaiting c v = >>=-Ensures IsWaiting (make_iq (w.alloc 60) bind_id) _ λ made _.
      or_disconnect-IsWaiting w c made _ v λ iq.
        >>=-Ensures IsWaiting (xmpp_stanza_copy (w.alloc 61) s) _ λ copy _.
          or_disconnect-IsWaiting w c copy _ v λ bind.
            >>=-Ensures IsWaiting (wanted_resource w c) _ λ wanted _.
              Option-Ensures IsWaiting wanted _ _ (send_bind-IsWaiting c iq bind v) λ resource.
                or_disconnect-IsWaiting w c (xmpp_stanza_new (w.alloc 63)) _ v λ res.
                  or_disconnect-IsWaiting w c (xmpp_stanza_new (w.alloc 64)) _ v
                    λ text. send_bind-IsWaiting c iq (with_resource bind res text resource) v

module _ (w : World) (s : Stanza) where
  pub on_features_sasl-Keeps : (c : Conn) → IsWaiting c → Keeps (on_features_sasl w c s)
  unfolding on_features_sasl handler_add_id
  on_features_sasl-Keeps c v =
      >>=-Ensures (λ p. IsWaiting p.1) (xmpp_stanza_get_child_by_name s (codes "bind")) _
        λ bind _.
          >>=-Ensures (λ p. IsWaiting p.1) (in_ns bind ns_bind) _
            λ b _.
              >>=-Ensures (λ p. IsWaiting p.1) (xmpp_stanza_get_child_by_name s (codes "session")) _
                λ o _.
                  >>=-Ensures (λ p. IsWaiting p.1) (in_ns o ns_session) _
                    λ d _. answered false _ (
                      if-Ensures IsWaiting (b || c.bind_required) _ _
                        (>>=-Ensures IsWaiting
                          (handler_add_id w (flagged b d) handle_bind bind_id none) _
                          λ e f.
                            Option-Ensures IsWaiting bind _ _ (fault-Ensures IsWaiting null_pointer)
                              λ x. request_bind-IsWaiting w x e (
                                id_handler_add_with-IsWaiting w (flagged b d) handle_bind bind_id
                                  none false v e f))
                        (xmpp_disconnect-IsWaiting w (flagged b d) v))
    where
      flagged : Bool → Bool → Conn
      flagged b d = record c {
        bind_required = b || c.bind_required;
        session_required = d || c.session_required;
      }
