-- ===== src/Base64/Rounds.antt =====
-- base64_decode after base64_encode: the tables, and the rounds of the decoding loop.
use imcore.Prelude.{ℕ, suc, ◌+◌, ◌-◌, ◌*◌, ◌/◌, ◌%◌, ◌^◌, ◌≤◌, ◌<◌, ◌≡◌, refl, ap, ◌∙◌, arith}
use imcore.Prelude.{List, [], ◌∷◌, ◌++◌}
use imcore.Prelude.{length, get_elem?}
use imcore.Prelude.{Run, ok, fault}
use imcore.Prelude.Bits.{field, agree, agree_sound, bit_or_shift}
use imcore.Base64.Encode.{digit, encode_word, encode_from}
use imcore.Base64.Encode.{encode_word_ascii, IsAscii}
use imcore.Base64.Decode.{value, from_end, quartet, decode_loop}
use imcore.Base64.Decode.{bytes, broken}

returned : Run ℕ → ℕ
returned (ok n) = n
returned (fault e) = 99

ok_of_returned : (r : Run ℕ) (n : ℕ) → returned r ≡ n → n < 65 → r ≡ ok n
unfolding returned
ok_of_returned (ok m) n h lt = ap ok h
ok_of_returned (fault e) n h lt = absurd (omega arith)

-- The two tables are inverse to each other.
pub value-digit : (h : ℕ) → h < 65 → value (digit h) ≡ ok h
unfolding value digit returned agree
value-digit h lt =
    ok_of_returned (value (digit h)) h
      (agree_sound (λ h. returned (value (digit h))) (λ h. h) 65 refl h lt) lt

quartet-digits :
    (h1 h2 h3 h4 : ℕ)
    → h1 < 64
    → h2 < 64
    → h3 < 64
    → h4 < 64
    → quartet (digit h1) (digit h2) (digit h3) (digit h4)
      ≡ ok (bytes (h1 * 4 + h2 / 16) (h2 % 16 * 16 + h3 / 4) (h3 % 4 * 64 + h4) h4)
unfolding quartet
quartet-digits h1 h2 h3 h4 p1 p2 p3 p4 =
    rw
      (
        value-digit h1 (omega arith),
        value-digit h2 (omega arith),
        value-digit h3 (omega arith),
        value-digit h4 (omega arith),
      )
      (ground (
        arith,
        bit_or_shift 18 h1 (h2 * 2 ^ 12),
        bit_or_shift 12 (h1 * 64 + h2) (h3 * 64),
        bit_or_shift 6 (h1 * 4096 + h2 * 64 + h3) h4,
      ))

-- The whole triples of a buffer, and what is left behind them.
unfoldable pub triples : List ℕ → List ℕ
triples (a ∷ b ∷ c ∷ rest) = a ∷ b ∷ c ∷ triples rest
triples _ = []

unfoldable pub left_over : List ℕ → List ℕ
left_over (a ∷ b ∷ c ∷ rest) = left_over rest
left_over xs = xs

get_elem?-cons :
    (x : ℕ) (xs : List ℕ) (k : ℕ)
    → k ≤ length xs
    → get_elem? (x ∷ xs) (suc (length xs) - k) ≡ get_elem? xs (length xs - k)
get_elem?-cons x xs k h =
    let e : suc (length xs) - k ≡ suc (length xs - k) = omega arith in ap (get_elem? (x ∷ xs)) e

pub from_end-cons :
    (x : ℕ) (xs : List ℕ) (k : ℕ) → k ≤ length xs → from_end (x ∷ xs) k ≡ from_end xs k
unfolding from_end
from_end-cons x xs k h = ground (arith, get_elem?-cons x xs k h)

pub triples-left_over : (xs : List ℕ) → triples xs ++ left_over xs ≡ xs
unfolding triples left_over
triples-left_over (a ∷ b ∷ c ∷ rest) = ap (λ (t : List ℕ). a ∷ b ∷ c ∷ t) (triples-left_over rest)
triples-left_over [] = refl
triples-left_over (a ∷ []) = refl
triples-left_over (a ∷ b ∷ []) = refl

-- The hextet at which the loop ends.
unfoldable pub last_hextet : List ℕ → ℕ → ℕ
last_hextet (a ∷ b ∷ c ∷ rest) h = last_hextet rest (c % 64)
last_hextet [] h = h
last_hextet _ h = 64

pub last_hextet-le : (xs : List ℕ) (h : ℕ) → h ≤ 64 → last_hextet xs h ≤ 64
unfolding last_hextet
last_hextet-le (a ∷ b ∷ c ∷ rest) h p = last_hextet-le rest (c % 64) (omega arith)
last_hextet-le [] h p = p
last_hextet-le (a ∷ []) h p = omega arith
last_hextet-le (a ∷ b ∷ []) h p = omega arith

-- A triple of ASCII bytes is read back by one round of the loop.
pub quartet-triple :
    (a b c : ℕ)
    → a < 128
    → b < 128
    → c < 128
    → let w = encode_word a b c in
      quartet
        (digit (field w 18 6))
        (digit (field w 12 6))
        (digit (field w 6 6))
        (digit (field w 0 6))
      ≡ ok (bytes a b c (c % 64))
quartet-triple a b c ha hb hc = rw (encode_word_ascii a b c ha hb hc) (
    quartet-digits _ _ _ _ (omega arith) (omega arith) (omega arith) (omega arith)
    ∙ ap ok (same _ _ _ _ _ _ _ _ (omega arith) (omega arith) (omega arith) (omega arith)))
  where
    same :
        (x y z h x' y' z' h' : ℕ)
        → x ≡ x'
        → y ≡ y'
        → z ≡ z'
        → h ≡ h'
        → bytes x y z h ≡ bytes x' y' z' h'
    same x y z h x' y' z' h' p q r s = cc

quartet-broken :
    (h1 h2 h3 : ℕ)
    → h1 < 64
    → h2 < 64
    → h3 < 65
    → quartet (digit h1) (digit h2) (digit h3) (digit 64) ≡ ok (broken 64)
unfolding quartet
quartet-broken h1 h2 h3 p1 p2 p3 =
    rw
      (
        value-digit h1 (omega arith),
        value-digit h2 (omega arith),
        value-digit h3 (omega arith),
        value-digit 64 (omega arith),
      )
      (ground arith)

pub decode_loop-encode_from :
    (xs : List ℕ) (h : ℕ)
    → IsAscii xs
    → decode_loop (encode_from xs) h ≡ ok (triples xs, last_hextet xs h)
unfolding decode_loop encode_from triples last_hextet
decode_loop-encode_from [] h p = refl
decode_loop-encode_from (a ∷ []) h p = rw (
    quartet-broken (field a 2 6) (field a 0 2 * 2 ^ 4) 64 (omega arith) (omega arith) (omega arith))
decode_loop-encode_from (a ∷ b ∷ []) h p = rw (
  bit_or_shift 4 (field a 0 2) (field b 4 4) (omega arith),
  quartet-broken (field a 2 6) (field a 0 2 * 2 ^ 4 + field b 4 4) (field b 0 4 * 2 ^ 2)
      (omega arith) (omega arith) (omega arith),
)
decode_loop-encode_from (a ∷ b ∷ c ∷ rest) h p =
    rw (quartet-triple a b c p.0 p.1.0 p.1.1.0, decode_loop-encode_from rest (c % 64) p.1.1.1)
