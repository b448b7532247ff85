-- ===== src/Sasl/Digest.antt =====
-- _digest_to_hex, _add_key and sasl_digest_md5 of xmpp-sasl.c. MD5 is a parameter: the 16 bytes that
-- MD5Final gives for all bytes of the calls of MD5Update. The allocations succeed.
use imcore.Prelude.{ℕ, if◌then◌else◌, Bool, true, false}
use imcore.Prelude.{
  List, [], ◌∷◌, ◌++◌, Option, none, some, Run, ok, fault, null_pointer, ◌>>=◌, take, get_or,
}
use imcore.Prelude.Bits.{field}
use imcore.Prelude.Text.{codes, str_eq, strdup}
use imcore.Base64.Encode.{base64_encode}
use imcore.Hash.{hash_get, hash_add}
use imcore.Jid.{xmpp_jid_node, xmpp_jid_domain}
use imcore.Sasl.Challenge.{Fields, make_quoted, parse_digest_challenge}

abbrev pub hexdigit : List ℕ
hexdigit = codes "0123456789abcdef"

unfoldable pub digest_to_hex : List ℕ → List ℕ
digest_to_hex [] = []
digest_to_hex (b ∷ digest) =
    get_or hexdigit (field b 4 4) 0 ∷ get_or hexdigit (field b 0 4) 0 ∷ digest_to_hex digest

-- A value, or the empty text where there is none.
unfoldable pub value_or_empty : Option (List ℕ) → List ℕ
value_or_empty none = []
value_or_empty (some v) = v

-- The value as it is written.
unfoldable pub quoted : Bool → List ℕ → List ℕ
quoted true v = value_or_empty (make_quoted true v)
quoted false v = v

-- `,` where the text is not empty
unfoldable pub separator : List ℕ → List ℕ
separator [] = []
separator (c ∷ cs) = codes ","

unfoldable pub add_key : Fields → List ℕ → List ℕ → Bool → Run (List ℕ)
add_key table key buf quote = do
  value ← hash_get table key
  ok (buf ++ (separator buf ++ (key ++ (codes "=" ++ quoted quote (value_or_empty value)))))

-- A text that `strlen` or `strcmp` reads.
unfoldable pub not_null : Option (List ℕ) → Run (List ℕ)
not_null none = fault null_pointer
not_null (some s) = ok s

unfoldable pub field_of : Fields → List ℕ → Run (List ℕ)
field_of table key = hash_get table key >>= not_null

-- `hash_add`, whose answer is not looked at
unfoldable pub put : Fields → List ℕ → Option (List ℕ) → Run Fields
put table key v = hash_add true true table key v >>= λ r. ok r.1

-- `realm == NULL || strlen(realm) == 0`
unfoldable pub no_realm : Option (List ℕ) → Bool
no_realm none = true
no_realm (some []) = true
no_realm (some (c ∷ cs)) = false

unfoldable pub with_realm : Fields → List ℕ → Run Fields
with_realm table domain = do
  realm ← hash_get table (codes "realm")
  if no_realm realm then put table (codes "realm") (strdup true domain) else ok table

-- The fields of the answer, which are put into the table of the challenge.
unfoldable pub own_fields : Fields → List ℕ → List ℕ → Run Fields
own_fields table node domain = do
  t1 ← with_realm table domain
  t2 ← put t1 (codes "username") (strdup true node)
  t3 ← put t2 (codes "cnonce") (strdup true (codes "00DEADBEEF00"))
  t4 ← put t3 (codes "nc") (strdup true (codes "00000001"))
  t5 ← put t4 (codes "qop") (strdup true (codes "auth"))
  put t5 (codes "digest-uri") (some (codes "xmpp/" ++ domain))

unfoldable pub no_body : List ℕ → List ℕ
no_body qop = if str_eq qop (codes "auth") then [] else codes ":00000000000000000000000000000000"

module _ (md5 : List ℕ → List ℕ) where
  -- HA1: MD5 of the digest of the name, the realm and the password, with the nonces.
  unfoldable pub hash_a1 : Fields → List ℕ → List ℕ → Run (List ℕ)
  hash_a1 table node password = do
    realm ← field_of table (codes "realm")
    let digest = md5 (node ++ (codes ":" ++ (realm ++ (codes ":" ++ password))))
    nonce ← field_of table (codes "nonce")
    cnonce ← field_of table (codes "cnonce")
    ok (md5 (take 16 digest ++ (codes ":" ++ (nonce ++ (codes ":" ++ cnonce)))))

  unfoldable pub hash_a2 : Fields → Run (List ℕ)
  hash_a2 table = do
    uri ← field_of table (codes "digest-uri")
    qop ← field_of table (codes "qop")
    ok (md5 (codes "AUTHENTICATE:" ++ (uri ++ no_body qop)))

  unfoldable pub make_response : Fields → List ℕ → List ℕ → Run (List ℕ)
  make_response table ha1 ha2 = do
    nonce ← field_of table (codes "nonce")
    nc ← field_of table (codes "nc")
    cnonce ← field_of table (codes "cnonce")
    qop ← field_of table (codes "qop")
    ok (
        digest_to_hex (
          md5 (
            digest_to_hex ha1
            ++ (codes ":"
                ++ (nonce
                    ++ (codes ":"
                        ++ (nc
                            ++ (codes ":"
                                ++ (cnonce
                                    ++ (codes ":"
                                        ++ (qop ++ (codes ":" ++ digest_to_hex ha2))))))))))))

  unfoldable pub make_reply : Fields → Run (List ℕ)
  make_reply table = do
    r1 ← add_key table (codes "username") [] true
    r2 ← add_key table (codes "realm") r1 true
    r3 ← add_key table (codes "nonce") r2 true
    r4 ← add_key table (codes "cnonce") r3 true
    r5 ← add_key table (codes "nc") r4 false
    r6 ← add_key table (codes "qop") r5 false
    r7 ← add_key table (codes "digest-uri") r6 true
    r8 ← add_key table (codes "response") r7 false
    add_key table (codes "charset") r8 false

  unfoldable pub answer_fields : Fields → List ℕ → List ℕ → List ℕ → Run (Option (List ℕ))
  answer_fields table node domain password = do
    t ← own_fields table node domain
    ha1 ← hash_a1 t node password
    ha2 ← hash_a2 t
    response ← make_response t ha1 ha2
    t' ← put t (codes "response") (some response)
    reply ← make_reply t'
    base64_encode true reply

  unfoldable pub answer : List ℕ → List ℕ → Option Fields → Run (Option (List ℕ))
  answer jid password none = ok none
  answer jid password (some table) = do
    node ← not_null (xmpp_jid_node true jid)
    domain ← not_null (xmpp_jid_domain true jid)
    answer_fields table node domain password

  unfoldable pub sasl_digest_md5 : List ℕ → List ℕ → List ℕ → Run (Option (List ℕ))
  sasl_digest_md5 challenge jid password =
      parse_digest_challenge true challenge >>= answer jid password
