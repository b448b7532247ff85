-- ===== src/Prelude/Text.antt =====
-- C strings: the bytes in front of the terminating NUL.
use Prim.Native.Char.{code}
use Prim.Native.String.{String}
use Prim.Native.Nat.{ℕ, ◌<◌}
use mathlib.Core.Path.{◌≡◌, refl}
use mathlib.Core.Logic.{◌↔◌}
use mathlib.Core.Bool.{Bool, true, false, ◌&&◌}
use mathlib.Core.Option.{Option, none, some}
use mathlib.Core.List.{List, [], ◌∷◌}
use native.Mathlib.Omega.{arith}
use imcore.Prelude.Tests.{◌==◌, if◌then◌else◌}
use imcore.Prelude.Lists.{All, length}

-- A string literal of the source.
abbrev pub codes : String → List ℕ
codes String.[] = []
codes (String.◌∷◌ c s) = code c ∷ codes s

-- `xmpp_strdup`, which is `im_strndup`: NULL for the empty text too. The Boolean is whether the
-- allocation succeeds.
unfoldable pub strdup : Bool → List ℕ → Option (List ℕ)
strdup alloc [] = none
strdup alloc (c ∷ s) = if alloc then some (c ∷ s) else none

pub strdup_full : (s : List ℕ) → 0 < length s → strdup true s ≡ some s
unfolding strdup
strdup_full [] h = absurd (omega arith)
strdup_full (c ∷ s) h = refl

-- `strcmp(a, b) == 0`
unfoldable pub str_eq : List ℕ → List ℕ → Bool
str_eq [] [] = true
str_eq (x ∷ xs) (y ∷ ys) = x == y && str_eq xs ys
str_eq [] (y ∷ ys) = false
str_eq (x ∷ xs) [] = false

pub str_eq_refl : (a : List ℕ) → str_eq a a ≡ true
unfolding str_eq
str_eq_refl [] = refl
str_eq_refl (x ∷ xs) = ground (arith, str_eq_refl xs)

pub str_eq→eq : (a b : List ℕ) → str_eq a b ≡ true → a ≡ b
unfolding str_eq
str_eq→eq [] [] h = refl
str_eq→eq (x ∷ xs) (y ∷ ys) h = ground (arith, str_eq→eq xs ys)
str_eq→eq [] (y ∷ ys) h = cc
str_eq→eq (x ∷ xs) [] h = cc

pub str_eq_iff : (a b : List ℕ) → (str_eq a b ≡ true) ↔ (a ≡ b)
str_eq_iff a b = (str_eq→eq a b, λ e. rw e (str_eq_refl b))

-- A C string holds no NUL.
abbrev pub IsText : List ℕ → Type 0
IsText = All (λ c. (0 < c) × (c < 256))
