-- ===== src/Base64/RoundTrip.antt =====
-- base64_decode after base64_encode: what the decoder reads in a text that the encoder wrote.
use imcore.Prelude.{ℕ, zero, suc, ◌+◌, ◌-◌, ◌*◌, ◌/◌, ◌%◌, ◌^◌, ◌≤◌, ◌≡◌, refl, ◌∙◌, arith}
use imcore.Prelude.{List, [], ◌∷◌, true, some}
use imcore.Prelude.{length}
use imcore.Prelude.{ok}
use imcore.Prelude.Bits.{field, bit_or_shift}
use imcore.Base64.Encode.{
  encode_word, encode_from, base64_encode, base64_encode_lem, base64_encoded_len,
}
use imcore.Base64.Encode.{length-encode_from, IsAscii}
use imcore.Base64.Decode.{from_end, count_padding, base64_decoded_len}
use imcore.Base64.Decode.{decode_tail, decode_into, base64_decode}
use imcore.Base64.Rounds.{
  value-digit, triples, left_over, from_end-cons, triples-left_over, last_hextet-le,
  decode_loop-encode_from,
}

-- The characters before the last quartet do not matter to what is read from the end.
from_end-encode_from :
    (a b c x : ℕ) (rest : List ℕ) (k : ℕ)
    → k ≤ 4
    → from_end (encode_from (a ∷ b ∷ c ∷ x ∷ rest)) k ≡ from_end (encode_from (x ∷ rest)) k
unfolding encode_from
from_end-encode_from a b c x rest k h =
    from_end-cons _ _ k (omega (arith, long))
    ∙ from_end-cons _ _ k (omega (arith, long))
    ∙ from_end-cons _ _ k (omega (arith, long))
    ∙ from_end-cons _ _ k (omega (arith, long))
  where
    long : 4 ≤ length (encode_from (x ∷ rest))
    long = rw (length-encode_from (x ∷ rest)) (unfold base64_encoded_len in omega arith)

padding : List ℕ → ℕ
padding (a ∷ b ∷ c ∷ []) = 0
padding (a ∷ b ∷ c ∷ x ∷ rest) = padding (x ∷ rest)
padding (a ∷ b ∷ []) = 1
padding (a ∷ []) = 2
padding [] = 0

count_padding-encode_from :
    (x : ℕ) (xs : List ℕ)
    → IsAscii (x ∷ xs)
    → count_padding (encode_from (x ∷ xs)) ≡ ok (some (padding (x ∷ xs)))
unfolding count_padding padding
count_padding-encode_from a [] p =
    unfold from_end encode_from in
    rw (value-digit 64 (omega arith), value-digit (field a 0 2 * 2 ^ 4) (omega arith))
      (ground arith)
count_padding-encode_from a (b ∷ []) p =
    unfold from_end encode_from in
    rw (value-digit 64 (omega arith), value-digit (field b 0 4 * 2 ^ 2) (omega arith))
      (ground arith)
count_padding-encode_from a (b ∷ c ∷ []) p =
    unfold from_end encode_from in
    rw (value-digit (field (encode_word a b c) 0 6) (omega arith)) (ground arith)
count_padding-encode_from a (b ∷ c ∷ x ∷ rest) p =
    rw
      (
        from_end-encode_from a b c x rest 1 (omega arith),
        from_end-encode_from a b c x rest 2 (omega arith),
        from_end-encode_from a b c x rest 3 (omega arith),
      )
      (count_padding-encode_from x rest p.1.1.1)

padding-left_over :
    (x : ℕ) (xs : List ℕ)
    → (3 * ((length (x ∷ xs) + 2) / 3) - padding (x ∷ xs)) % 3 ≡ length (left_over (x ∷ xs))
      × (padding (x ∷ xs) ≤ 2)
unfolding padding left_over
padding-left_over a [] = omega arith
padding-left_over a (b ∷ []) = omega arith
padding-left_over a (b ∷ c ∷ []) = omega arith
padding-left_over a (b ∷ c ∷ x ∷ rest) = omega (arith, padding-left_over x rest)

decode_tail_congr :
    (s t : List ℕ) (n : ℕ)
    → ((k : ℕ) → k ≤ 4 → from_end s k ≡ from_end t k)
    → decode_tail s n ≡ decode_tail t n
unfolding decode_tail
decode_tail_congr s t zero same = refl
decode_tail_congr s t (suc zero) same =
    rw (same 4 (omega arith), same 3 (omega arith), same 2 (omega arith), same 1 (omega arith))
decode_tail_congr s t (suc (suc n)) same =
    rw (same 4 (omega arith), same 3 (omega arith), same 2 (omega arith), same 1 (omega arith))

decode_tail-encode_from :
    (x : ℕ) (xs : List ℕ)
    → IsAscii (x ∷ xs)
    → decode_tail (encode_from (x ∷ xs)) (length (left_over (x ∷ xs)))
      ≡ ok (some (left_over (x ∷ xs)))
unfolding decode_tail left_over
decode_tail-encode_from a [] p =
    unfold from_end encode_from in
    rw
      (
        value-digit (field a 2 6) (omega arith),
        value-digit (field a 0 2 * 2 ^ 4) (omega arith),
        value-digit 64 (omega arith),
      )
      (ground (arith, bit_or_shift 2 (field a 2 6) (field a 0 2)))
decode_tail-encode_from a (b ∷ []) p =
    unfold from_end encode_from in
    rw
      (
        bit_or_shift 4 (field a 0 2) (field b 4 4) (omega arith),
        value-digit (field a 2 6) (omega arith),
        value-digit (field a 0 2 * 2 ^ 4 + field b 4 4) (omega arith),
        value-digit (field b 0 4 * 2 ^ 2) (omega arith),
        value-digit 64 (omega arith),
      )
      (ground (
        arith,
        bit_or_shift 10 (field a 2 6) ((field a 0 2 * 2 ^ 4 + field b 4 4) * 2 ^ 4),
        bit_or_shift 4 (a * 16 + field b 4 4) (field b 0 4 * 2 ^ 2 / 2 ^ 2),
      ))
decode_tail-encode_from a (b ∷ c ∷ []) p = refl
decode_tail-encode_from a (b ∷ c ∷ x ∷ rest) p =
    decode_tail_congr _ _ (length (left_over (x ∷ rest))) (from_end-encode_from a b c x rest)
    ∙ decode_tail-encode_from x rest p.1.1.1

whole_quartets : (n : ℕ) → base64_encoded_len n % 4 ≡ 0
unfolding base64_encoded_len
whole_quartets n = omega arith

whole_triples : (n : ℕ) → base64_encoded_len n / 2 ^ 2 ≡ (n + 2) / 3
unfolding base64_encoded_len
whole_triples n = omega arith

length-triples : (xs : List ℕ) → length (triples xs) + length (left_over xs) ≡ length xs
unfolding triples left_over
length-triples (a ∷ b ∷ c ∷ rest) = omega (arith, length-triples rest)
length-triples [] = refl
length-triples (a ∷ []) = refl
length-triples (a ∷ b ∷ []) = refl

room : (x : ℕ) (xs : List ℕ) → length (x ∷ xs) ≤ 3 * ((length (x ∷ xs) + 2) / 3) - padding (x ∷ xs)
unfolding padding
room a [] = omega arith
room a (b ∷ []) = omega arith
room a (b ∷ c ∷ []) = omega arith
room a (b ∷ c ∷ x ∷ rest) = omega (arith, room x rest, padding-left_over x rest)

decode_into-encode_from :
    (x : ℕ) (xs : List ℕ) (dlen : ℕ)
    → IsAscii (x ∷ xs)
    → dlen % 3 ≡ length (left_over (x ∷ xs))
    → length (x ∷ xs) ≤ dlen
    → decode_into dlen (encode_from (x ∷ xs)) ≡ ok (some (x ∷ xs))
unfolding decode_into
decode_into-encode_from x xs dlen p kind large =
    rw
      (
        decode_loop-encode_from (x ∷ xs) 0 p,
        kind,
        decode_tail-encode_from x xs p,
        triples-left_over (x ∷ xs),
      )
      (ground (arith, last_hextet-le (x ∷ xs) 0, length-triples (x ∷ xs)))

-- Decoding what the encoder wrote for two or more ASCII bytes gives those bytes, and no access on the
-- way is out of bounds.
pub base64_decode-base64_encode :
    (xs : List ℕ)
    → IsAscii xs
    → 2 ≤ length xs
    → (text : List ℕ) × (base64_encode true xs ≡ ok (some text))
      × (base64_decode true text ≡ ok (some xs))
unfolding base64_decode base64_decoded_len
base64_decode-base64_encode [] p h = absurd (omega arith)
base64_decode-base64_encode (x ∷ xs) p h = (
  encode_from (x ∷ xs),
  base64_encode_lem (x ∷ xs) h,
  rw
      (
        count_padding-encode_from x xs p,
        length-encode_from (x ∷ xs),
        whole_quartets (length (x ∷ xs)),
        whole_triples (length (x ∷ xs)),
      )
      (decode_into-encode_from x xs _ p (padding-left_over x xs).0 (room x xs)),
)
