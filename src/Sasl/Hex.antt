-- ===== src/Sasl/Hex.antt =====
-- _digest_to_hex of xmpp-sasl.c: the digits stand for the bytes.
use imcore.Prelude.{
  ℕ, ◌+◌, ◌-◌, ◌*◌, ◌<◌, ◌≡◌, refl, ap, arith, if◌then◌else◌, ltb, List, [], ◌∷◌, get_or, All,
}
use imcore.Prelude.Bits.{field, agree, agree_sound}
use imcore.Sasl.Digest.{hexdigit, digest_to_hex}

-- The value of a digit, and the bytes of a text of digits.
unfoldable pub nibble : ℕ → ℕ
nibble c = if ltb c 58 then c - 48 else c - 87

unfoldable pub from_hex : List ℕ → List ℕ
from_hex [] = []
from_hex (a ∷ []) = []
from_hex (a ∷ b ∷ r) = (nibble a * 16 + nibble b) ∷ from_hex r

nibble-hexdigit : (n : ℕ) → n < 16 → nibble (get_or hexdigit n 0) ≡ n
unfolding nibble agree
nibble-hexdigit = agree_sound (λ n. nibble (get_or hexdigit n 0)) (λ n. n) 16 refl

-- Reading the digits back gives the bytes of the digest.
pub from_hex-digest_to_hex :
    (digest : List ℕ) → All (λ b. b < 256) digest → from_hex (digest_to_hex digest) ≡ digest
unfolding from_hex digest_to_hex
from_hex-digest_to_hex [] h = refl
from_hex-digest_to_hex (b ∷ digest) h =
    rw
      (
        nibble-hexdigit (field b 4 4) (omega arith),
        nibble-hexdigit (field b 0 4) (omega arith),
        from_hex-digest_to_hex digest h.1,
      )
      (joined b h.0)
  where
    joined : (b : ℕ) → b < 256 → (field b 4 4 * 16 + field b 0 4) ∷ digest ≡ b ∷ digest
    joined b h =
        let e : field b 4 4 * 16 + field b 0 4 ≡ b = omega arith in ap (λ (n : ℕ). n ∷ digest) e
