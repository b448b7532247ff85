-- ===== src/Conn/Features.antt =====
-- xmpp-auth.c: the features and the errors that a server sends.
use imcore.Prelude.{ℕ, ◌+◌, ◌&&◌, ◌||◌, Bool, true, false, List, [], ◌∷◌, map, leb}
use imcore.Prelude.{Option, none, some, if◌then◌else◌}
use imcore.Prelude.{Run, ok, fault, ◌>>=◌, null_pointer}
use imcore.Prelude.Text.{codes, str_eq}
use imcore.Stanza.Tree.{
  Stanza, Children, nil, child, xmpp_stanza_get_ns, xmpp_stanza_get_name_ptr, xmpp_stanza_clone,
}
use imcore.Stanza.Children.{
  xmpp_stanza_get_child_by_name, xmpp_stanza_get_children, xmpp_stanza_get_text_ptr,
}
use imcore.Conn.{
  Conn, World, ErrorType, StreamError, se_bad_format, se_bad_ns_prefix, se_conflict,
  se_conn_timeout, se_host_gone, se_host_unknown, se_improper_addr, se_internal_server_error,
  se_invalid_from, se_invalid_id, se_invalid_ns, se_invalid_xml, se_not_authorized,
  se_policy_violation, se_remote_conn_failed, se_resource_constraint, se_restricted_xml,
  se_see_other_host, se_system_shutdown, se_undefined_condition, se_unsupported_encoding,
  se_unsupported_stanza_type, se_unsupported_version, se_xml_not_well_formed,
}

abbrev pub ns_tls : List ℕ
ns_tls = codes "urn:ietf:params:xml:ns:xmpp-tls"

abbrev pub ns_sasl : List ℕ
ns_sasl = codes "urn:ietf:params:xml:ns:xmpp-sasl"

abbrev pub ns_compression : List ℕ
ns_compression = codes "http://jabber.org/features/compress"

-- `strcmp(a, b) == 0` on a pointer that may be NULL
unfoldable pub strcmp : Option (List ℕ) → List ℕ → Run Bool
strcmp none b = fault null_pointer
strcmp (some a) b = ok (str_eq a b)

unfoldable pub lower : ℕ → ℕ
lower n = if leb 65 n && leb n 90 then n + 32 else n

-- `im_stricmp(a, b) == 0`
unfoldable pub stricmp : Option (List ℕ) → List ℕ → Run Bool
stricmp none b = fault null_pointer
stricmp (some a) b = ok (str_eq (map lower a) (map lower b))

-- A child that has the namespace, where there is such a child.
unfoldable pub in_ns : Option Stanza → List ℕ → Run Bool
in_ns none ns = ok false
in_ns (some s) ns = do found ← xmpp_stanza_get_ns s; strcmp found ns

unfoldable pub offers : Stanza → List ℕ → List ℕ → Run Bool
offers s name ns = do found ← xmpp_stanza_get_child_by_name s name; in_ns found ns

-- The children of a feature, where the server offers it.
unfoldable pub offered : Stanza → List ℕ → List ℕ → Run Children
offered s name ns = do
  found ← xmpp_stanza_get_child_by_name s name
  hit ← in_ns found ns
  ok (if hit then elim found [ none ↦ nil | some f ↦ xmpp_stanza_get_children f ] else nil)

unfoldable pub take_mechanism : Stanza → Conn → Run Conn
take_mechanism mech c = do
  hit ← strcmp (xmpp_stanza_get_name_ptr mech) (codes "mechanism")
  if hit
      then (do
        plain ← stricmp (xmpp_stanza_get_text_ptr mech) (codes "PLAIN")
        digest ← stricmp (xmpp_stanza_get_text_ptr mech) (codes "DIGEST-MD5")
        ok (
            if plain
            then record c { sasl_plain_mask = true }
            else if digest
            then record c { sasl_digest_mask = true }
            else c))
      else ok c

unfoldable pub take_mechanisms : Children → Conn → Run Conn
take_mechanisms nil c = ok c
take_mechanisms (child mech rest) c = do c' ← take_mechanism mech c; take_mechanisms rest c'

unfoldable pub take_method : Stanza → Conn → Run Conn
take_method mech c = do
  hit ← strcmp (xmpp_stanza_get_name_ptr mech) (codes "method")
  if hit
      then (do
        zlib ← stricmp (xmpp_stanza_get_text_ptr mech) (codes "zlib")
        ok (if zlib then record c { zlib_support = true } else c))
      else ok c

unfoldable pub take_methods : Children → Conn → Run Conn
take_methods nil c = ok c
take_methods (child mech rest) c = do c' ← take_method mech c; take_methods rest c'

unfoldable pub read_tls : Stanza → Conn → Run Conn
read_tls s c =
    if c.secured || c.tls_disabled
    then ok c
    else (offers s (codes "starttls") ns_tls >>= λ hit.
        ok (if hit then record c { tls_support = true } else c))

-- `_handle_features` up to `_do_auth`
unfoldable pub read_features : Stanza → Conn → Run Conn
read_features s c = do
  let cleared = record c {
    tls_support = false;
    sasl_plain_mask = false;
    sasl_digest_mask = false;
    zlib_support = false;
  }
  c1 ← read_tls s cleared
  mechs ← offered s (codes "mechanisms") ns_sasl
  c2 ← take_mechanisms mechs c1
  methods ← offered s (codes "compression") ns_compression
  take_methods methods c2

-- The types of error, by the name of the condition.
unfoldable pub error_types : List (List ℕ × ErrorType)
error_types =
    (codes "bad-format", se_bad_format)
    ∷ (codes "bad-namespace-prefix", se_bad_ns_prefix)
    ∷ (codes "conflict", se_conflict)
    ∷ (codes "connection-timeout", se_conn_timeout)
    ∷ (codes "host-gone", se_host_gone)
    ∷ (codes "host-unknown", se_host_unknown)
    ∷ (codes "improper-addressing", se_improper_addr)
    ∷ (codes "internal-server-error", se_internal_server_error)
    ∷ (codes "invalid-from", se_invalid_from)
    ∷ (codes "invalid-id", se_invalid_id)
    ∷ (codes "invalid-namespace", se_invalid_ns)
    ∷ (codes "invalid-xml", se_invalid_xml)
    ∷ (codes "not-authorized", se_not_authorized)
    ∷ (codes "policy-violation", se_policy_violation)
    ∷ (codes "remote-connection-failed", se_remote_conn_failed)
    ∷ (codes "resource-constraint", se_resource_constraint)
    ∷ (codes "restricted-xml", se_restricted_xml)
    ∷ (codes "see-other-host", se_see_other_host)
    ∷ (codes "system-shutdown", se_system_shutdown)
    ∷ (codes "undefined-condition", se_undefined_condition)
    ∷ (codes "unsupported-encoding", se_unsupported_encoding)
    ∷ (codes "unsupported-stanza-type", se_unsupported_stanza_type)
    ∷ (codes "unsupported-version", se_unsupported_version)
    ∷ (codes "xml-not-well-formed", se_xml_not_well_formed)
    ∷ []

unfoldable pub type_of : List (List ℕ × ErrorType) → List ℕ → ErrorType → ErrorType
type_of [] name old = old
type_of ((n, t) ∷ rest) name old = if str_eq name n then t else type_of rest name old

unfoldable pub read_condition : Stanza → StreamError → Run StreamError
read_condition s e = do
  ns ← xmpp_stanza_get_ns s
  elim ns [
    | none ↦ ok e
    | some n ↦
        if str_eq n (codes "urn:ietf:params:xml:ns:xmpp-streams")
        then (elim (xmpp_stanza_get_name_ptr s) [
          | none ↦ fault null_pointer
          | some name ↦ ok (
              if str_eq name (codes "text")
              then record e { error_text = xmpp_stanza_get_text_ptr s }
              else record e { error_type = type_of error_types name e.error_type })
        ])
        else ok e
  ]

unfoldable pub read_conditions : Children → StreamError → Run StreamError
read_conditions nil e = ok e
read_conditions (child s rest) e = do e' ← read_condition s e; read_conditions rest e'

-- `_handle_stream_error`. The new block is written to before it is tested for NULL. The loop asks
-- for the next child also where there is none.
unfoldable pub stream_error_of : World → Stanza → Run StreamError
stream_error_of w s =
    if w.alloc 30
    then elim (xmpp_stanza_get_children s) [
      | nil ↦ fault null_pointer
      | child first rest ↦ read_conditions (child first rest) (record {
        error_type = se_undefined_condition;
        error_text = none;
        error_stanza = xmpp_stanza_clone s;
      })
    ]
    else fault null_pointer
