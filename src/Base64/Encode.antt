-- ===== src/Base64/Encode.antt =====
-- base64_encode of base64.c, with its length and what it writes for ASCII input.
use imcore.Prelude.{ℕ, ◌+◌, ◌-◌, ◌*◌, ◌/◌, ◌%◌, ◌^◌, ◌≤◌, ◌<◌, ◌≡◌, refl, ap, arith, bit_or}
use imcore.Prelude.{List, [], ◌∷◌, Bool, true, Option, none, some}
use imcore.Prelude.{
  if◌then◌else◌, ltb, leb, length, get_or, All, Run, ok, out_of_bounds, ◌>>◌, ensure,
}
use imcore.Prelude.Bits.{field, agree, agree_sound, bit_or_shift, bit_or_parts}
use imcore.Prelude.Text.{codes}

abbrev pub base64_charmap : List ℕ
base64_charmap = codes "ABCDEFGHIJKLMNOPQRSTUVWXYZabcdefghijklmnopqrstuvwxyz0123456789+/="

unfoldable pub digit : ℕ → ℕ
digit hextet = get_or base64_charmap hextet 0

-- `((len + 2) / 3) << 2`
unfoldable pub base64_encoded_len : ℕ → ℕ
base64_encoded_len len = (len + 2) / 3 * 2 ^ 2

-- A `const char` as the bits of the `uint32_t` that it is converted to.
unfoldable pub extend : ℕ → ℕ
extend c = if ltb c 128 then c else c + 2 ^ 32 - 256

-- `buffer[i] << 16 | buffer[i + 1] << 8 | buffer[i + 2]`
unfoldable pub encode_word : ℕ → ℕ → ℕ → ℕ
encode_word a b c =
    bit_or (bit_or (extend a * 2 ^ 16 % 2 ^ 32) (extend b * 2 ^ 8 % 2 ^ 32)) (extend c)

-- The bytes that the loop and the `switch` behind it write for the bytes from `i` on.
unfoldable pub encode_from : List ℕ → List ℕ
encode_from [] = []
encode_from (a ∷ []) = digit (field a 2 6) ∷ digit (field a 0 2 * 2 ^ 4) ∷ digit 64 ∷ digit 64 ∷ []
encode_from (a ∷ b ∷ []) =
    digit (field a 2 6)
    ∷ digit (bit_or (field a 0 2 * 2 ^ 4) (field b 4 4))
    ∷ digit (field b 0 4 * 2 ^ 2)
    ∷ digit 64
    ∷ []
encode_from (a ∷ b ∷ c ∷ rest) =
    let word = encode_word a b c in
    digit (field word 18 6)
    ∷ digit (field word 12 6)
    ∷ digit (field word 6 6)
    ∷ digit (field word 0 6)
    ∷ encode_from rest

-- `i < len - 2` is unsigned: below two bytes it wraps, and the loop reads past the buffer.
-- The block at `cbuf` has `clen + 1` bytes, and takes the characters and a NUL.
unfoldable pub base64_encode : Bool → List ℕ → Run (Option (List ℕ))
base64_encode malloc buffer =
    if malloc
    then (do
      let clen = base64_encoded_len (length buffer)
      ensure (leb 2 (length buffer)) out_of_bounds
      let text = encode_from buffer
      ensure (leb (length text + 1) (clen + 1)) out_of_bounds
      ok (some text))
    else ok none

pub length-encode_from : (xs : List ℕ) → length (encode_from xs) ≡ base64_encoded_len (length xs)
unfolding encode_from base64_encoded_len
length-encode_from [] = refl
length-encode_from (a ∷ []) = refl
length-encode_from (a ∷ b ∷ []) = refl
length-encode_from (a ∷ b ∷ c ∷ rest) = omega (arith, length-encode_from rest)

abbrev pub IsAscii : List ℕ → Type 0
IsAscii = All (λ c. c < 128)

-- Three ASCII bytes make a word without overlap.
pub encode_word_ascii :
    (a b c : ℕ) → a < 128 → b < 128 → c < 128 → encode_word a b c ≡ a * 2 ^ 16 + b * 2 ^ 8 + c
unfolding encode_word extend
encode_word_ascii a b c ha hb hc =
    ground (arith, bit_or_shift 16 a (b * 2 ^ 8), bit_or_shift 8 (a * 2 ^ 8 + b) c)

-- On two bytes or more the encoder neither reads nor writes out of bounds.
pub base64_encode_lem :
    (xs : List ℕ) → 2 ≤ length xs → base64_encode true xs ≡ ok (some (encode_from xs))
unfolding base64_encode
base64_encode_lem xs h = ground (arith, length-encode_from xs)

-- A byte from 128 on in second place sets all the bits in front of it.
ones : (a : ℕ) → a < 256 → bit_or (extend a % 2 ^ 16) 0xffff ≡ 0xffff
unfolding extend agree
ones = agree_sound (λ a. bit_or (extend a % 2 ^ 16) 0xffff) (λ _. 0xffff) 256 refl

encode_word_high :
    (a b c : ℕ)
    → a < 256
    → 128 ≤ b
    → b < 256
    → encode_word a b c ≡ bit_or (0xffff * 2 ^ 16 + b * 2 ^ 8) (extend c)
unfolding encode_word
encode_word_high a b c ha lo hb =
    rw
      (
        first,
        second,
        bit_or_parts 16 (extend a % 2 ^ 16) 0xffff 0 (b * 2 ^ 8) (omega arith) (omega arith),
        ones a ha,
      )
      (ap (λ (t : ℕ). bit_or (0xffff * 2 ^ 16 + t) (extend c)) zero_or)
  where
    first : extend a * 2 ^ 16 % 2 ^ 32 ≡ extend a % 2 ^ 16 * 2 ^ 16 + 0
    first = omega arith

    second : extend b * 2 ^ 8 % 2 ^ 32 ≡ 0xffff * 2 ^ 16 + b * 2 ^ 8
    second = unfold extend in ground arith

    zero_or : bit_or 0 (b * 2 ^ 8) ≡ b * 2 ^ 8
    zero_or = omega (arith, bit_or_shift 16 0 (b * 2 ^ 8) (omega arith))

-- Where the second byte of a triple is not ASCII, the text does not depend on the first byte.
pub encode_from-forgets :
    (a a' b c : ℕ) (rest : List ℕ)
    → a < 256
    → a' < 256
    → 128 ≤ b
    → b < 256
    → encode_from (a ∷ b ∷ c ∷ rest) ≡ encode_from (a' ∷ b ∷ c ∷ rest)
unfolding encode_from
encode_from-forgets a a' b c rest ha ha' lo hb =
    rw (encode_word_high a b c ha lo hb, encode_word_high a' b c ha' lo hb)
