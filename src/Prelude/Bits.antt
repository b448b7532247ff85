-- ===== src/Prelude/Bits.antt =====
-- `|` and `&` on words: the law for the lowest digit, and from it the laws for fields of bits.
use Prim.Native.Nat.{ℕ, zero, suc, ◌+◌, ◌*◌, ◌/◌, ◌%◌, ◌^◌, ◌≤◌, ◌<◌}
use Prim.Native.Nat.{max, bit_or, bit_xor, digits, differ, bit_or-bitwise, bit_xor-bitwise}
use mathlib.Core.Path.{◌≡◌, refl, ap, ap₂}
use native.Mathlib.Nat.{pow-suc, one-le-pow}
use mathlib.Core.Bool.{Bool, true, ◌&&◌}
use imcore.Prelude.Tests.{◌==◌}
use native.Mathlib.Omega.{arith}

-- `(x >> k) & (2 ^ w - 1)`: the `w` bits of `x` from bit `k` on.
abbrev pub field : ℕ → ℕ → ℕ → ℕ
field x k w = x / 2 ^ k % 2 ^ w

abbrev or_digits : ℕ → ℕ → ℕ → ℕ
or_digits n a b = digits (λ y. y) max n a b

or_digits-fuel : (n m a b : ℕ) → a ≤ n → a ≤ m → or_digits n a b ≡ or_digits m a b
or_digits-fuel zero zero a b p q = refl
or_digits-fuel zero (suc m) zero b p q = refl
or_digits-fuel (suc n) zero zero b p q = refl
or_digits-fuel (suc n) (suc m) zero b p q = refl
or_digits-fuel zero (suc m) (suc a) b p q = elim p [ ]
or_digits-fuel (suc n) zero (suc a) b p q = elim q [ ]
or_digits-fuel (suc n) (suc m) (suc a) b p q =
    omega (arith, or_digits-fuel n m (suc a / 2) (b / 2) (omega arith) (omega arith))

zero-bit_or : (b : ℕ) → bit_or 0 b ≡ b
zero-bit_or b = bit_or-bitwise 0 b

bit_or-lowest : (a b : ℕ) → bit_or a b ≡ bit_or (a / 2) (b / 2) * 2 + max (a % 2) (b % 2)
bit_or-lowest zero b = omega (arith, zero-bit_or b, zero-bit_or (b / 2))
bit_or-lowest (suc a) b = omega (
  arith,
  bit_or-bitwise (suc a) b,
  bit_or-bitwise (suc a / 2) (b / 2),
  or_digits-fuel a (suc a / 2) (suc a / 2) (b / 2) (omega arith) (omega arith),
)

bit_or-zero_fuel : (n a : ℕ) → a ≤ n → bit_or a 0 ≡ a
bit_or-zero_fuel n zero h = refl
bit_or-zero_fuel zero (suc a) h = elim h [ ]
bit_or-zero_fuel (suc n) (suc a) h =
    omega (arith, bit_or-lowest (suc a) 0, bit_or-zero_fuel n (suc a / 2) (omega arith))

bit_or-zero : (a : ℕ) → bit_or a 0 ≡ a
bit_or-zero a = bit_or-zero_fuel a a (omega arith)

double_pow : (k x : ℕ) → x * 2 ^ suc k ≡ 2 * (x * 2 ^ k)
double_pow k x = omega (arith, ap (λ (t : ℕ). x * t) (pow-suc 2 k))

-- A law over a small range, by evaluation at every value.
module _ (f g : ℕ → ℕ) where
  unfoldable pub agree : ℕ → Bool
  agree zero = true
  agree (suc n) = f n == g n && agree n

  pub agree_sound : (n : ℕ) → agree n ≡ true → (x : ℕ) → x < n → f x ≡ g x
  unfolding agree
  agree_sound zero h x lt = elim lt [ ]
  agree_sound (suc n) h x lt = ground (arith, agree_sound n (ground arith) x)

-- `|` works on the high parts and on the low `k` bits apart.
pub bit_or_parts :
    (k x y a b : ℕ)
    → a < 2 ^ k
    → b < 2 ^ k
    → bit_or (x * 2 ^ k + a) (y * 2 ^ k + b) ≡ bit_or x y * 2 ^ k + bit_or a b
bit_or_parts zero x y zero zero p q = ground (arith, ap₂ bit_or (unit x) (unit y))
  where
    unit : (n : ℕ) → n * 1 + 0 ≡ n
    unit n = omega arith
bit_or_parts zero x y (suc a) b p q = absurd (omega arith)
bit_or_parts zero x y zero (suc b) p q = absurd (omega arith)
bit_or_parts (suc k) x y a b p q = ground (
  arith,
  bit_or-lowest (x * 2 ^ suc k + a) (y * 2 ^ suc k + b),
  bit_or-lowest a b,
  double_pow k x,
  double_pow k y,
  double_pow k (bit_or x y),
  bit_or_parts k x y (a / 2) (b / 2) (omega (arith, pow-suc 2 k)) (omega (arith, pow-suc 2 k)),
)

-- `(x << k) | b` is a sum when `b` fits `k` bits.
pub bit_or_shift : (k x b : ℕ) → b < 2 ^ k → bit_or (x * 2 ^ k) b ≡ x * 2 ^ k + b
bit_or_shift k x b h =
    ground (arith, one-le-pow k 2, bit_or_parts k x 0 0 b, bit_or-zero x, zero-bit_or b)

differ-le-one : (x y : ℕ) → x < 2 → y < 2 → differ x y ≤ 1
differ-le-one zero y p q = omega arith
differ-le-one (suc x) zero p q = omega arith
differ-le-one (suc zero) (suc zero) p q = omega arith
differ-le-one (suc zero) (suc (suc y)) p q = absurd (omega arith)
differ-le-one (suc (suc x)) (suc y) p q = absurd (omega arith)

xor_digits-lt : (k n a b : ℕ) → a < 2 ^ k → b < 2 ^ k → digits (λ y. y) differ n a b < 2 ^ k
xor_digits-lt k zero a b p q = q
xor_digits-lt k (suc n) zero b p q = q
xor_digits-lt zero (suc n) (suc a) b p q = absurd (omega arith)
xor_digits-lt (suc k) (suc n) (suc a) b p q = omega (
  arith,
  pow-suc 2 k,
  xor_digits-lt k n (suc a / 2) (b / 2) (omega (arith, pow-suc 2 k)) (omega (arith, pow-suc 2 k)),
  differ-le-one (suc a % 2) (b % 2) (omega arith) (omega arith),
)

-- `^` of two words of `k` bits is a word of `k` bits.
pub bit_xor-lt : (k a b : ℕ) → a < 2 ^ k → b < 2 ^ k → bit_xor a b < 2 ^ k
bit_xor-lt k a b p q = simp bit_xor-bitwise (xor_digits-lt k a a b p q)
