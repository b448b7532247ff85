-- ===== src/Prelude/Search.antt =====
-- strchr: the place of the first byte of a kind in a C string.
use Prim.Native.Nat.{ℕ, suc}
use mathlib.Core.Path.{◌≡◌, refl, ap}
use mathlib.Core.Logic.{◌≢◌}
use mathlib.Core.Option.{Option, none, some}
use mathlib.Core.Bool.{true, false}
use mathlib.Core.List.{List, [], ◌∷◌, ◌++◌}
use native.Mathlib.Omega.{arith}
use imcore.Prelude.Tests.{◌==◌}
use imcore.Prelude.Lists.{All, length, take, drop}

abbrev next : Option ℕ → Option ℕ
next none = none
next (some i) = some (suc i)

unfoldable pub strchr : ℕ → List ℕ → Option ℕ
strchr c [] = none
strchr c (x ∷ xs) = elim (x == c) [ true ↦ some 0 | false ↦ next (strchr c xs) ]

-- The text holds no `c`.
abbrev pub Free : ℕ → List ℕ → Type 0
Free c = All (λ x. x ≢ c)

pub strchr-Free : (c : ℕ) (xs : List ℕ) → Free c xs → strchr c xs ≡ none
unfolding strchr
strchr-Free c [] h = refl
strchr-Free c (x ∷ xs) h = ground (arith, strchr-Free c xs, h.0)

pub strchr-append :
    (c : ℕ) (xs ys : List ℕ) → Free c xs → strchr c (xs ++ c ∷ ys) ≡ some (length xs)
unfolding strchr
strchr-append c [] ys h = ground arith
strchr-append c (x ∷ xs) ys h = ground (arith, strchr-append c xs ys, h.0)

module _ {ℓ} {A : Type ℓ} where
  pub take-append : (xs ys : List A) → take (length xs) (xs ++ ys) ≡ xs
  take-append [] ys = refl
  take-append (x ∷ xs) ys = ap (λ (t : List A). x ∷ t) (take-append xs ys)

  pub drop-append : (xs ys : List A) → drop (length xs) (xs ++ ys) ≡ ys
  drop-append [] ys = refl
  drop-append (x ∷ xs) ys = drop-append xs ys

  pub drop_after : (xs : List A) (y : A) (ys : List A) → drop (suc (length xs)) (xs ++ y ∷ ys) ≡ ys
  drop_after [] y ys = refl
  drop_after (x ∷ xs) y ys = drop_after xs y ys

  pub take_all : (xs : List A) → take (length xs) xs ≡ xs
  take_all [] = refl
  take_all (x ∷ xs) = ap (λ (t : List A). x ∷ t) (take_all xs)
