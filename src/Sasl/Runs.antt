-- ===== src/Sasl/Runs.antt =====
-- Answers of xmpp-sasl.c at concrete values: the theorems' instances.
use imcore.Prelude.{
  ℕ, ◌≡◌, refl, arith, List, [], ◌∷◌, ◌++◌, some, true, false, replicate, ok, ◌>>=◌,
}
use imcore.Prelude.Text.{codes}
use imcore.Hash.{hash_new}
use imcore.Base64.Encode.{
  base64_encode, base64_encoded_len, encode_from, encode_word, extend, digit,
}
use imcore.Base64.Decode.{base64_decode}
use imcore.Sasl.Plain.{sasl_plain, base64_decode-sasl_plain}
use imcore.Sasl.Challenge.{Fields, parse_digest_challenge}
use imcore.Jid.{xmpp_jid_node, allocated}
use imcore.Prelude.Search.{strchr}
use imcore.Prelude.Text.{str_eq}
use imcore.Prelude.{fault, null_pointer}
use imcore.Sasl.Digest.{sasl_digest_md5}
use imcore.Sasl.Nonce.{sasl_digest_md5_faults}
use imcore.Sasl.Parsed.{
  Item, print_items, print_item, print_more, add_all, parse_digest_challenge-print,
}

base64_decode-sasl_plain_example :
    (text : List ℕ) × (sasl_plain true true (codes "joe") (codes "secret") ≡ ok (some text))
    × (base64_decode true text ≡ ok (some (0 ∷ (codes "joe" ++ 0 ∷ codes "secret"))))
base64_decode-sasl_plain_example =
    base64_decode-sasl_plain (codes "joe") (codes "secret") (omega arith) (omega arith)

-- `realm="im.org",nonce=xyz`
abbrev items : List Item
items =
    record { key = codes "realm"; text = codes "im.org"; quotes = true }
    ∷ record { key = codes "nonce"; text = codes "xyz"; quotes = false }
    ∷ []

abbrev new_table : Fields
new_table = record { ref = 1; free = true; num_keys = 0; entries = replicate 10 []; released = [] }

abbrev challenge : List ℕ
challenge = codes "cmVhbG09ImltLm9yZyIsbm9uY2U9eHl6"

parse_digest_challenge-print_example :
    parse_digest_challenge true challenge ≡ (add_all items new_table >>= λ t. ok (some t))
unfolding print_items print_item print_more hash_new base64_encode base64_encoded_len encode_from
    encode_word extend digit
parse_digest_challenge-print_example =
    parse_digest_challenge-print items challenge new_table (omega arith) (omega arith) (omega arith)
      (omega arith) refl refl

-- `realm="im.org"`
abbrev no_nonce : List Item
no_nonce = record { key = codes "realm"; text = codes "im.org"; quotes = true } ∷ []

sasl_digest_md5_faults_example :
    sasl_digest_md5
      (λ s. replicate 16 0)
      (codes "cmVhbG09ImltLm9yZyI=")
      (codes "joe@im.org")
      (codes "secret")
    ≡ fault null_pointer
unfolding print_items print_item print_more base64_encode base64_encoded_len encode_from encode_word
    extend digit xmpp_jid_node strchr allocated str_eq
sasl_digest_md5_faults_example =
    sasl_digest_md5_faults (λ s. replicate 16 0) no_nonce (codes "cmVhbG09ImltLm9yZyI=")
      (codes "joe@im.org") (codes "joe") (codes "secret") (omega arith)
      ((omega arith, omega arith, refl), tt) (omega arith) (omega arith) (omega arith) refl refl
