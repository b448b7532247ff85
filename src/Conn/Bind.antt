-- ===== src/Conn/Bind.antt =====
-- xmpp-auth.c: the binding of a resource and the session, after SASL, and the dispatch of a
-- callback to the function that a handler points to. The places that ask for memory go on from 60.
use imcore.Prelude.{ℕ, ◌||◌, Bool, true, false, List, [], ◌∷◌, ◌++◌, length, ◌==◌}
use imcore.Prelude.{Option, none, some, if◌then◌else◌}
use imcore.Prelude.{Run, ok, fault, ◌>>=◌, null_pointer, bad_call}
use imcore.Prelude.Text.{strdup, codes, str_eq}
use imcore.Stanza.Tree.{
  Stanza, xmpp_stanza_new, xmpp_stanza_set_name, xmpp_stanza_set_type, xmpp_stanza_set_id,
  xmpp_stanza_get_type_ptr,
}
use imcore.Stanza.Children.{
  xmpp_stanza_add_child, xmpp_stanza_get_child_by_name, xmpp_stanza_get_text_ptr,
}
use imcore.Stanza.Copy.{xmpp_stanza_copy}
use imcore.Jid.{xmpp_jid_resource}
use imcore.Sasl.Digest.{not_null}
use imcore.Conn.{
  Conn, World, Handler, handle_stream_error, handle_features, handle_proceedtls, handle_sasl_result,
  handle_digestmd5_challenge, handle_digestmd5_rspauth, handle_features_sasl, handle_bind,
  handle_session, disconnect_cleanup, application, conn_connect,
}
use imcore.Conn.Handlers.{handler_add_id}
use imcore.Conn.Stream.{xmpp_send, xmpp_disconnect}
use imcore.Conn.Features.{in_ns}
use imcore.Conn.Auth.{
  or_disconnect, named_stanza, with_child_text, ns_bind, ns_session, on_stream_error, on_features,
  on_proceedtls, on_sasl_result, on_digestmd5_challenge, on_digestmd5_rspauth,
}

abbrev pub bind_id : List ℕ
bind_id = codes "imcore_xmpp_bind"

abbrev pub session_id : List ℕ
session_id = codes "imcore_xmpp_session"

-- `<iq type='set' id='…'/>`
unfoldable pub make_iq : Bool → List ℕ → Run (Option Stanza)
make_iq alloc id = elim (xmpp_stanza_new alloc) [
  | none ↦ ok none
  | some s ↦ do
    (_, s1) ← xmpp_stanza_set_type true (xmpp_stanza_set_name true s (codes "iq")).1 (codes "set")
    (_, s2) ← xmpp_stanza_set_id true s1 id
    ok (some s2)
]

-- The resource of the jid, where it is not empty.
unfoldable pub wanted_resource : World → Conn → Run (Option (List ℕ))
wanted_resource w c = do
  jid ← not_null c.jid
  ok (elim (xmpp_jid_resource (w.alloc 62) jid) [
    | none ↦ none
    | some r ↦ if length r == 0 then none else some r
  ])

-- `bind`, with the resource as its child.
unfoldable pub with_resource : Stanza → Stanza → Stanza → List ℕ → Stanza
with_resource bind res text resource =
    (xmpp_stanza_add_child bind
      (with_child_text (xmpp_stanza_set_name true res (codes "resource")).1 text resource)).1

unfoldable pub send_bind : World → Conn → Stanza → Stanza → Run Conn
send_bind w c iq bind = xmpp_send w c (xmpp_stanza_add_child iq bind).1

unfoldable pub request_bind : World → Conn → Stanza → Run Conn
request_bind w c offered = do
  made ← make_iq (w.alloc 60) bind_id
  or_disconnect w c made λ iq. do
    copy ← xmpp_stanza_copy (w.alloc 61) offered
    or_disconnect w c copy λ bind. do
      wanted ← wanted_resource w c
      elim wanted [
        | none ↦ send_bind w c iq bind
        | some resource ↦ or_disconnect w c (xmpp_stanza_new (w.alloc 63)) λ res.
            or_disconnect w c (xmpp_stanza_new (w.alloc 64))
              λ text. send_bind w c iq (with_resource bind res text resource)
      ]

-- The flags are kept from one stream to the next, and then there may be no `bind` to copy.
unfoldable pub on_features_sasl : World → Conn → Stanza → Run (Bool × Conn)
on_features_sasl w c s = do
  bind ← xmpp_stanza_get_child_by_name s (codes "bind")
  bind_hit ← in_ns bind ns_bind
  session ← xmpp_stanza_get_child_by_name s (codes "session")
  session_hit ← in_ns session ns_session
  let c' = record c {
    bind_required = bind_hit || c.bind_required;
    session_required = session_hit || c.session_required;
  }
  d ←
      if c'.bind_required
      then (do
        c'' ← handler_add_id w c' handle_bind bind_id none
        elim bind [ none ↦ fault null_pointer | some b ↦ request_bind w c'' b ])
      else xmpp_disconnect w c'
  ok (false, d)

-- `conn->bound_jid`, where the answer has a jid with a text.
unfoldable pub jid_of : World → Stanza → Option (List ℕ) → Run (Option (List ℕ))
jid_of w s old = do
  binding ← xmpp_stanza_get_child_by_name s (codes "bind")
  elim binding [
    | none ↦ ok old
    | some b ↦ do
      jid ← xmpp_stanza_get_child_by_name b (codes "jid")
      ok (elim jid [
        | none ↦ old
        | some j ↦ elim (xmpp_stanza_get_text_ptr j) [ none ↦ old | some t ↦ strdup (w.alloc 65) t ]
      ])
  ]

-- The connection is ready, and the application is told so.
unfoldable pub finish_auth : Conn → Conn
finish_auth c = record c { authenticated = true; notified = c.notified ++ conn_connect ∷ [] }

-- Without memory for the session stanza the code goes on with NULL.
unfoldable pub request_session : World → Conn → Run Conn
request_session w c = do
  c' ← handler_add_id w c handle_session session_id none
  made ← make_iq (w.alloc 66) session_id
  or_disconnect w c' made λ iq. do
    session ← named_stanza (w.alloc 67) (codes "session") ns_session
    elim session [
      | none ↦ fault null_pointer
      | some s ↦ xmpp_send w c' (xmpp_stanza_add_child iq s).1
    ]

-- The branches of an answer to an `iq`.
unfoldable pub on_answer : World → Conn → Stanza → Run Conn → Run (Bool × Conn)
on_answer w c s done = do
  type ← xmpp_stanza_get_type_ptr s
  c' ← elim type [
    | none ↦ xmpp_disconnect w c
    | some t ↦
        if str_eq t (codes "error")
        then xmpp_disconnect w c
        else if str_eq t (codes "result")
        then done
        else xmpp_disconnect w c
  ]
  ok (false, c')

unfoldable pub on_bind : World → Conn → Stanza → Run (Bool × Conn)
on_bind w c s = on_answer w c s (do
  bound ← jid_of w s c.bound_jid
  let c' = record c { bound_jid = bound }
  if c'.session_required then request_session w c' else ok (finish_auth c'))

unfoldable pub on_session : World → Conn → Stanza → Run (Bool × Conn)
on_session w c s = on_answer w c s (ok (finish_auth c))

-- The call through the pointer of a handler. The application's functions are a parameter, and so
-- is MD5; `filter` says whether OpenSSL gives a filter.
module _ (md5 : List ℕ → List ℕ) (user : ℕ → Conn → Stanza → Run (Bool × Conn)) (w : World)
    (filter : Bool) where
  unfoldable pub call_handler : Handler → Option (List ℕ) → Conn → Stanza → Run (Bool × Conn)
  call_handler handle_stream_error userdata c s = on_stream_error w c s
  call_handler handle_features userdata c s = on_features w c s
  call_handler handle_proceedtls userdata c s = on_proceedtls filter c s
  call_handler handle_sasl_result userdata c s = on_sasl_result w c s
  call_handler handle_digestmd5_challenge userdata c s = on_digestmd5_challenge md5 w c s
  call_handler handle_digestmd5_rspauth userdata c s = on_digestmd5_rspauth w c s
  call_handler handle_features_sasl userdata c s = on_features_sasl w c s
  call_handler handle_bind userdata c s = on_bind w c s
  call_handler handle_session userdata c s = on_session w c s
  call_handler disconnect_cleanup userdata c s = fault bad_call
  call_handler (application n) userdata c s = user n c s
