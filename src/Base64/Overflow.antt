-- ===== src/Base64/Overflow.antt =====
-- base64_decode on a text whose last character is invalid: `base64_decoded_len` answers 0.
use imcore.Prelude.{ℕ, suc, ◌+◌, ◌%◌, ◌<◌, ◌≡◌, arith}
use imcore.Prelude.{List, [], ◌∷◌, ◌++◌, true, false, none, ltb, leb, length, length-append}
use imcore.Prelude.{
  ok, fault, out_of_bounds, Bool-cases, inl, inr, at-OnlyBounds, >>=-OnlyBounds, >>=-faults,
  OnlyBounds, get_elem?-append_right,
}
use imcore.Prelude.{◌*◌, ◌^◌, refl, bit_or}
use imcore.Prelude.Bits.{field}
use imcore.Base64.Decode.{value, from_end, count_padding, base64_decoded_len, quartet, decode_loop}
use imcore.Base64.Decode.{bytes, broken, base64_invcharmap, decode_into, base64_decode}

from_end_last : (xs : List ℕ) (c : ℕ) → from_end (xs ++ c ∷ []) 1 ≡ ok c
unfolding from_end
from_end_last xs c = ground (arith, length-append xs (c ∷ []), get_elem?-append_right xs (c ∷ []) 0)

count_padding-invalid :
    (xs : List ℕ) (c h : ℕ) → value c ≡ ok h → 64 < h → count_padding (xs ++ c ∷ []) ≡ ok none
unfolding count_padding
count_padding-invalid xs c h e big = rw (from_end_last xs c, e) (ground arith)

value-OnlyBounds : (c : ℕ) → OnlyBounds (value c)
unfolding value
value-OnlyBounds c e h = elim (Bool-cases (ltb c 128)) [
  | inl low ↦ at-OnlyBounds base64_invcharmap c e (rw low at h)
  | inr high ↦ cc (rw high at h)
]

quartet-OnlyBounds : (c1 c2 c3 c4 : ℕ) → OnlyBounds (quartet c1 c2 c3 c4)
unfolding quartet
quartet-OnlyBounds c1 c2 c3 c4 e h = ground (
  arith,
  value-OnlyBounds c1 e,
  value-OnlyBounds c2 e,
  value-OnlyBounds c3 e,
  value-OnlyBounds c4 e,
)

decode_loop-OnlyBounds : (xs : List ℕ) (h : ℕ) → OnlyBounds (decode_loop xs h)
unfolding decode_loop
decode_loop-OnlyBounds (c1 ∷ c2 ∷ c3 ∷ c4 ∷ rest) h =
    >>=-OnlyBounds (quartet c1 c2 c3 c4) _ (quartet-OnlyBounds c1 c2 c3 c4) (elim [
      | broken k ↦ λ e p. cc
      | bytes x y z k ↦
          >>=-OnlyBounds (decode_loop rest k) _ (decode_loop-OnlyBounds rest k) (λ r e p. cc)
    ])
decode_loop-OnlyBounds _ h = λ e p. cc

too_long : (n : ℕ) → leb (suc (suc (suc n))) 1 ≡ false
too_long n = ground arith

-- The value of a character that stands for six bits.
abbrev pub IsDigit : ℕ → ℕ → Type 0
IsDigit c h = (value c ≡ ok h) × (h < 64)

module _ (c1 c2 c3 c4 h1 h2 h3 h4 : ℕ) (d1 : IsDigit c1 h1) (d2 : IsDigit c2 h2)
    (d3 : IsDigit c3 h3) (d4 : IsDigit c4 h4) where
  goes_on : (h : ℕ) → h < 64 → leb 64 h ≡ false
  goes_on h l = ground arith

  word : ℕ
  word = bit_or (bit_or (bit_or (h1 * 2 ^ 18) (h2 * 2 ^ 12)) (h3 * 2 ^ 6)) h4

  quartet-valid :
      quartet c1 c2 c3 c4 ≡ ok (bytes (field word 16 8) (field word 8 8) (field word 0 8) h4)
  unfolding quartet word
  quartet-valid =
      rw
        (d1.0, goes_on h1 d1.1, d2.0, goes_on h2 d2.1, d3.0, goes_on h3 d3.1, d4.0, goes_on h4 d4.1)
        refl

  -- With a block of one byte the loop faults as soon as it has decoded a quartet.
  decode_into_small :
      (rest : List ℕ) → decode_into 0 (c1 ∷ c2 ∷ c3 ∷ c4 ∷ rest) ≡ fault out_of_bounds
  unfolding decode_into decode_loop
  decode_into_small rest = rw quartet-valid (
      >>=-faults (decode_loop rest h4) _ _ (decode_loop-OnlyBounds rest h4)
        (λ r. rw (too_long (length r.0))))

  -- In a text of whole quartets, behind a first one of characters that stand for six bits each, an
  -- invalid 7-bit last character makes the loop write past the block of one byte.
  pub base64_decode_overflows :
      (x : ℕ) (rest : List ℕ) (h : ℕ)
      → value x ≡ ok h
      → 64 < h
      → (length rest + 1) % 4 ≡ 0
      → base64_decode true (c1 ∷ c2 ∷ c3 ∷ c4 ∷ (rest ++ x ∷ [])) ≡ fault out_of_bounds
  unfolding base64_decode base64_decoded_len
  base64_decode_overflows x rest h e big whole =
      rw (quartets, count_padding-invalid (c1 ∷ c2 ∷ c3 ∷ c4 ∷ rest) x h e big)
        (decode_into_small (rest ++ x ∷ []))
    where
      quartets : length (c1 ∷ c2 ∷ c3 ∷ c4 ∷ (rest ++ x ∷ [])) % 4 ≡ 0
      quartets = omega (arith, length-append rest (x ∷ []))
