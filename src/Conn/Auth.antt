-- ===== src/Conn/Auth.antt =====
-- xmpp-auth.c: TLS, SASL, the binding of a resource and the session. The places that ask for memory
-- are numbered from 40 on. MD5 is a parameter.
use imcore.Prelude.{ℕ, ◌&&◌, not, Bool, true, false, List}
use imcore.Prelude.{Option, none, some, if◌then◌else◌}
use imcore.Prelude.{Run, ok, ◌>>=◌}
use imcore.Prelude.Text.{codes}
use imcore.Stanza.Tree.{
  Stanza, xmpp_stanza_new, xmpp_stanza_set_name, xmpp_stanza_set_ns, xmpp_stanza_set_attribute,
  xmpp_stanza_set_text, xmpp_stanza_get_name_ptr,
}
use imcore.Stanza.Children.{xmpp_stanza_add_child, xmpp_stanza_get_text_ptr}
use imcore.Jid.{xmpp_jid_node}
use imcore.Sasl.Plain.{sasl_plain}
use imcore.Sasl.Digest.{sasl_digest_md5, not_null}
use imcore.Conn.{
  Conn, World, handle_proceedtls, handle_sasl_result, handle_digestmd5_challenge,
  handle_digestmd5_rspauth, auth_handle_open_sasl,
}
use imcore.Conn.Handlers.{handler_add}
use imcore.Conn.Stream.{
  xmpp_send, xmpp_disconnect, conn_reset_stream, conn_init_stream, conn_start_ssl,
}
use imcore.Conn.Features.{strcmp, ns_tls, ns_sasl, read_features, stream_error_of}

abbrev pub ns_bind : List ℕ
ns_bind = codes "urn:ietf:params:xml:ns:xmpp-bind"

abbrev pub ns_session : List ℕ
ns_session = codes "urn:ietf:params:xml:ns:xmpp-session"

-- What most callbacks do without memory for a stanza.
unfoldable pub or_disconnect {ℓ} :
    {A : Type ℓ} → World → Conn → Option A → (A → Run Conn) → Run Conn
or_disconnect w c none next = xmpp_disconnect w c
or_disconnect w c (some a) next = next a

-- A stanza with a name and a namespace.
unfoldable pub named_stanza : Bool → List ℕ → List ℕ → Run (Option Stanza)
named_stanza alloc name ns = elim (xmpp_stanza_new alloc) [
  | none ↦ ok none
  | some s ↦ do
    (_, s') ← xmpp_stanza_set_ns true (xmpp_stanza_set_name true s name).1 ns
    ok (some s')
]

unfoldable pub make_starttls : World → Run (Option Stanza)
make_starttls w = named_stanza (w.alloc 40) (codes "starttls") ns_tls

unfoldable pub make_sasl_auth : World → List ℕ → Run (Option Stanza)
make_sasl_auth w mechanism = named_stanza (w.alloc 41) (codes "auth") ns_sasl >>= λ o. elim o [
  | none ↦ ok none
  | some s ↦ do
    (_, s') ← xmpp_stanza_set_attribute true s (codes "mechanism") mechanism
    ok (some s')
]

-- A text behind the children of a stanza.
unfoldable pub with_child_text : Stanza → Stanza → List ℕ → Stanza
with_child_text parent text s =
    (xmpp_stanza_add_child parent (xmpp_stanza_set_text true text s).1).1

unfoldable pub do_starttls : World → Conn → Run Conn
do_starttls w c = do
  made ← make_starttls w
  or_disconnect w c made
      λ s. xmpp_send w (handler_add w c handle_proceedtls (some ns_tls) none none none) s

unfoldable pub do_digest : World → Conn → Run Conn
do_digest w c = do
  made ← make_sasl_auth w (codes "DIGEST-MD5")
  or_disconnect w c made λ s. do
    c' ← xmpp_send w (handler_add w c handle_digestmd5_challenge (some ns_sasl) none none none) s
    ok (record c' { sasl_digest_mask = false })

-- The password must not be NULL.
unfoldable pub plain_text : World → Conn → List ℕ → Run (Option (List ℕ))
plain_text w c node = do
  password ← not_null c.pass
  sasl_plain (w.alloc 43) (w.alloc 44) node password

unfoldable pub do_plain : World → Conn → Run Conn
do_plain w c = do
  made ← make_sasl_auth w (codes "PLAIN")
  or_disconnect w c made λ auth. or_disconnect w c (xmpp_stanza_new (w.alloc 42)) λ data_stanza. do
    jid ← not_null c.jid
    or_disconnect w c (xmpp_jid_node (w.alloc 45) jid) λ node. do
      text ← plain_text w c node
      or_disconnect w c text λ str. do
        c' ←
            xmpp_send w
              (handler_add w c handle_sasl_result (some ns_sasl) none none (some (codes "PLAIN")))
              (with_child_text auth data_stanza str)
        ok (record c' { sasl_plain_mask = false })

unfoldable pub do_auth : World → Conn → Run Conn
do_auth w c =
    if c.tls_support && not c.secured
    then do_starttls w c
    else if c.authenticated
    then ok c
    else if c.sasl_digest_mask
    then do_digest w c
    else if c.sasl_plain_mask
    then do_plain w c
    else xmpp_disconnect w c

-- A callback of the library: whether to keep the handler, and the connection.
unfoldable pub on_stream_error : World → Conn → Stanza → Run (Bool × Conn)
on_stream_error w c s = do e ← stream_error_of w s; ok (true, record c { stream_error = some e })

unfoldable pub on_features : World → Conn → Stanza → Run (Bool × Conn)
on_features w c s = do c' ← read_features s c; d ← do_auth w c'; ok (false, d)

unfoldable pub on_proceedtls : Bool → Conn → Stanza → Run (Bool × Conn)
on_proceedtls filter c s = do
  proceed ← strcmp (xmpp_stanza_get_name_ptr s) (codes "proceed")
  c' ← if proceed then conn_start_ssl filter c else ok c
  ok (false, c')

unfoldable pub on_sasl_result : World → Conn → Stanza → Run (Bool × Conn)
on_sasl_result w c s = do
  failure ← strcmp (xmpp_stanza_get_name_ptr s) (codes "failure")
  success ← strcmp (xmpp_stanza_get_name_ptr s) (codes "success")
  c' ←
      if failure
      then do_auth w c
      else if success
      then conn_init_stream w (conn_reset_stream c auth_handle_open_sasl)
      else xmpp_disconnect w c
  ok (false, c')

unfoldable pub send_response : World → Conn → Stanza → Run Conn
send_response w c s =
    xmpp_send w (handler_add w c handle_digestmd5_rspauth (some ns_sasl) none none none) s

-- The text of the challenge, the jid and the password must not be NULL.
unfoldable pub answer_challenge : (List ℕ → List ℕ) → World → Conn → Stanza → Run Conn
answer_challenge md5 w c s = do
  text ← not_null (xmpp_stanza_get_text_ptr s)
  jid ← not_null c.jid
  password ← not_null c.pass
  response ← sasl_digest_md5 md5 text jid password
  or_disconnect w c response λ r. do
    made ← named_stanza (w.alloc 46) (codes "response") ns_sasl
    or_disconnect w c made λ auth.
        or_disconnect w c (xmpp_stanza_new (w.alloc 47))
          λ data_stanza. send_response w c (with_child_text auth data_stanza r)

unfoldable pub on_digestmd5_challenge :
    (List ℕ → List ℕ) → World → Conn → Stanza → Run (Bool × Conn)
on_digestmd5_challenge md5 w c s = do
  challenge ← strcmp (xmpp_stanza_get_name_ptr s) (codes "challenge")
  if challenge then (do c' ← answer_challenge md5 w c s; ok (false, c')) else on_sasl_result w c s

-- The handler stays where the response was sent, and goes where there was no memory for it.
unfoldable pub on_digestmd5_rspauth : World → Conn → Stanza → Run (Bool × Conn)
on_digestmd5_rspauth w c s = do
  challenge ← strcmp (xmpp_stanza_get_name_ptr s) (codes "challenge")
  if challenge
      then (do
        made ← named_stanza (w.alloc 48) (codes "response") ns_sasl
        elim made [
          | none ↦ xmpp_disconnect w c >>= λ c'. ok (false, c')
          | some auth ↦ xmpp_send w c auth >>= λ c'. ok (true, c')
        ])
      else on_sasl_result w c s
