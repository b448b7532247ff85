-- ===== src/Hash/Index.antt =====
-- _hash_key of hash.c: the characters are xored into the four bytes of an `int` in turn, and the index
-- is the signed remainder by the number of slots.
use imcore.Prelude.{ℕ, zero, suc, ◌+◌, ◌-◌, ◌*◌, ◌%◌, ◌^◌, ◌<◌, ◌≡◌, arith, bit_xor}
use imcore.Prelude.{List, [], ◌∷◌, Run, ok, fault, out_of_bounds, division_by_zero}
use imcore.Prelude.Bits.{bit_xor-lt}
use imcore.Prelude.{◌⊎◌, ltb, ◌==◌, if◌then◌else◌, All}

-- `(int)c` as a pattern of 32 bits; `char` is signed.
unfoldable pub char_bits : ℕ → ℕ
char_bits c = if ltb c 128 then c else c + 2 ^ 32 - 256

-- The loop of _hash_key, from the pattern `hash` and `shift` on.
unfoldable pub hash_loop : List ℕ → ℕ → ℕ → ℕ
hash_loop [] hash shift = hash
hash_loop (c ∷ cs) hash shift =
    let shift' = if ltb 24 (shift + 8) then 0 else shift + 8 in
    hash_loop cs (bit_xor hash (char_bits c * 2 ^ shift % 2 ^ 32)) shift'

-- A negative `hash` leaves a negative remainder, unless the division is exact.
unfoldable pub hash_key : ℕ → List ℕ → Run ℕ
hash_key zero key = fault division_by_zero
hash_key (suc n) key =
    let hash = hash_loop key 0 0 in
    if ltb hash (2 ^ 31)
    then ok (hash % suc n)
    else if (2 ^ 32 - hash) % suc n == 0
    then ok 0
    else fault out_of_bounds

abbrev IsShift : ℕ → Type 0
IsShift s = (s ≡ 0) ⊎ (s ≡ 8) ⊎ (s ≡ 16) ⊎ (s ≡ 24)

next-IsShift : (s : ℕ) → IsShift s → IsShift (if ltb 24 (s + 8) then 0 else s + 8)
next-IsShift s h = ground arith

shifted-lt : (c s : ℕ) → c < 128 → IsShift s → char_bits c * 2 ^ s % 2 ^ 32 < 2 ^ 31
unfolding char_bits
shifted-lt c s h k = ground arith

hash_loop-lt :
    (key : List ℕ) (hash s : ℕ)
    → All (λ c. c < 128) key
    → hash < 2 ^ 31
    → IsShift s
    → hash_loop key hash s < 2 ^ 31
unfolding hash_loop
hash_loop-lt [] hash s p h k = h
hash_loop-lt (c ∷ cs) hash s p h k =
    hash_loop-lt cs _ _ p.1 (bit_xor-lt 31 hash _ h (shifted-lt c s p.0 k)) (next-IsShift s k)

-- For an ASCII key the index is that of a slot.
pub hash_key-in_range :
    (n : ℕ) (key : List ℕ)
    → All (λ c. c < 128) key
    → 0 < n
    → (hash_key n key ≡ ok (hash_loop key 0 0 % n)) × (hash_loop key 0 0 % n < n)
unfolding hash_key
hash_key-in_range zero key p h = absurd (omega arith)
hash_key-in_range (suc n) key p h = ground (arith, hash_loop-lt key 0 0)
