-- ===== src/Base64/Runs.antt =====
-- Tests of base64.c's functions, and its theorems at concrete inputs.
use imcore.Prelude.{ℕ, ◌≡◌, refl, arith, List, [], ◌∷◌, ◌++◌, true, none, some}
use imcore.Prelude.{ok, fault, out_of_bounds}
use imcore.Prelude.Text.{codes}
use imcore.Base64.Encode.{
  digit, extend, encode_word, encode_from, base64_encode, base64_encoded_len,
}
use imcore.Base64.Encode.{encode_from-forgets}
use imcore.Base64.Decode.{value, from_end, count_padding, base64_decoded_len, quartet, decode_loop}
use imcore.Base64.Decode.{decode_tail, decode_into, base64_decode}
use imcore.Base64.RoundTrip.{base64_decode-base64_encode}
use imcore.Base64.Overflow.{base64_decode_overflows}

encoder : Unit {0}
unfolding digit extend encode_word encode_from base64_encode base64_encoded_len
encoder = tt

decoder : Unit {0}
unfolding value from_end count_padding base64_decoded_len quartet decode_loop decode_tail
    decode_into base64_decode
decoder = tt

encodes_man : base64_encode true (codes "Man") ≡ ok (some (codes "TWFu"))
unfolding encoder
encodes_man = refl

encodes_two : base64_encode true (codes "Ma") ≡ ok (some (codes "TWE="))
unfolding encoder
encodes_two = refl

encodes_one : base64_encode true (codes "M") ≡ fault out_of_bounds
unfolding encoder
encodes_one = refl

decodes_text : base64_decode true (codes "bm9uY2U9ImEi") ≡ ok (some (codes "nonce=\"a\""))
unfolding decoder
decodes_text = refl

decodes_short : base64_decode true (codes "TWFuT") ≡ ok none
unfolding decoder
decodes_short = refl

decodes_nothing : base64_decode true [] ≡ fault out_of_bounds
unfolding decoder
decodes_nothing = refl

-- Padding inside the text ends the loop, and the rest is dropped without an error.
decodes_part : base64_decode true (codes "TWFuTQ==TWFu") ≡ ok (some (codes "Man"))
unfolding decoder
decodes_part = refl

base64_decode-base64_encode_example :
    (text : List ℕ) × (base64_encode true (codes "user") ≡ ok (some text))
    × (base64_decode true text ≡ ok (some (codes "user")))
base64_decode-base64_encode_example =
    base64_decode-base64_encode (codes "user") (omega arith) (omega arith)

encode_from-forgets_example :
    encode_from (b'a' ∷ 0xc3 ∷ 0xa9 ∷ []) ≡ encode_from (b'b' ∷ 0xc3 ∷ 0xa9 ∷ [])
encode_from-forgets_example =
    encode_from-forgets b'a' b'b' 0xc3 0xa9 [] (omega arith) (omega arith) (omega arith)
      (omega arith)

value_bang : value b'!' ≡ ok 65
unfolding value
value_bang = refl

plus : value b'+' ≡ ok 62
unfolding value
plus = refl

slash : value b'/' ≡ ok 63
unfolding value
slash = refl

eight : value b'8' ≡ ok 60
unfolding value
eight = refl

nine : value b'9' ≡ ok 61
unfolding value
nine = refl

base64_decode_overflows_example :
    base64_decode true (b'+' ∷ b'/' ∷ b'8' ∷ b'9' ∷ ((b'T' ∷ b'W' ∷ b'F' ∷ []) ++ b'!' ∷ []))
    ≡ fault out_of_bounds
base64_decode_overflows_example =
    base64_decode_overflows b'+' b'/' b'8' b'9' 62 63 60 61 (plus, omega arith) (slash, omega arith)
      (eight, omega arith) (nine, omega arith) b'!' (b'T' ∷ b'W' ∷ b'F' ∷ []) 65 value_bang
      (omega arith) refl
