-- ===== src/Prelude/Outcome.antt =====
-- A run of C code: it returns a value, or its behaviour is undefined.
use mathlib.Core.Path.{◌≡◌, refl, ap}
use mathlib.Core.Option.{Option, none, some}
use mathlib.Core.List.{List, [], ◌∷◌}
use mathlib.Core.Bool.{Bool, true, false}
use Prim.Native.Nat.{ℕ, zero, suc, ◌<◌}
use native.Mathlib.Omega.{arith}
use imcore.Prelude.Lists.{get_elem?, get_or, length}
use imcore.Prelude.Tests.{if◌then◌else◌}

pub data Fault : Type 0 where
  out_of_bounds null_pointer division_by_zero out_of_fuel use_after_free bad_call : Fault

pub data Run {ℓ} (A : Type ℓ) : Type ℓ where
  ok : A → Run A
  fault : Fault → Run A

infixl 5 ◌>>=◌ ◌>>◌
abbrev pub ◌>>=◌ {ℓ κ} : {A : Type ℓ} {B : Type κ} (m : Run A) (next : A → Run B) → Run B
ok x >>= next = next x
fault why >>= next = fault why

abbrev pub ◌>>◌ {ℓ} : {B : Type ℓ} → Run (Unit {0}) → Run B → Run B
m >> k = m >>= λ _. k

-- An access or a write that is undefined unless the test holds.
abbrev pub ensure : Bool → Fault → Run (Unit {0})
ensure true e = ok tt
ensure false e = fault e

-- A read of an array: outside its bounds it is undefined.
abbrev pub at {ℓ} : {A : Type ℓ} → List A → ℕ → Run A
at xs i = elim (get_elem? xs i) [ none ↦ fault out_of_bounds | some a ↦ ok a ]

-- The run ends normally, in a value that satisfies `P`.
abbrev pub Returns {ℓ κ} : {A : Type ℓ} (m : Run A) (Good : A → Type κ) → Type (ℓ ⊔ κ)
Returns {A} m Good = (x : A) × (m ≡ ok x) × Good x

-- The only fault that the run can end in is an access out of bounds.
abbrev pub OnlyBounds {ℓ} : {A : Type ℓ} → Run A → Type ℓ
OnlyBounds {A} r = (e : Fault) → r ≡ fault e → e ≡ out_of_bounds

module _ {ℓ} {A : Type ℓ} where
  pub at-OnlyBounds : (xs : List A) (i : ℕ) → OnlyBounds (at xs i)
  at-OnlyBounds xs i = pick (get_elem? xs i)
    where
      pick :
          (o : Option A)
          → OnlyBounds {A = A} (elim o [ none ↦ fault out_of_bounds | some a ↦ ok a ])
      pick none e p = cc
      pick (some a) e p = cc

  module _ {κ} {B : Type κ} where
    pub >>=-OnlyBounds :
        (m : Run A) (f : A → Run B)
        → OnlyBounds m
        → ((a : A) → OnlyBounds (f a))
        → OnlyBounds (m >>= f)
    >>=-OnlyBounds (ok a) f h k e p = k a e p
    >>=-OnlyBounds (fault x) f h k e p = h e (cc)

    -- A run that cannot fault otherwise, and then surely faults.
    pub >>=-faults :
        (m : Run A) (g : A → B) {C : Type κ} (f : B → Run C)
        → OnlyBounds m
        → ((a : A) → f (g a) ≡ fault out_of_bounds)
        → (m >>= (λ a. ok (g a)) >>= f) ≡ fault out_of_bounds
    >>=-faults (ok a) g f h k = k a
    >>=-faults (fault x) g f h k = ap fault (h x refl)

pub at-get_or {ℓ} :
    {A : Type ℓ} (xs : List A) (i : ℕ) (d : A) → i < length xs → at xs i ≡ ok (get_or xs i d)
at-get_or [] i d h = absurd (omega arith)
at-get_or (x ∷ xs) zero d h = refl
at-get_or (x ∷ xs) (suc i) d h = at-get_or xs i d (omega arith)

module _ {ℓ κ μ} {A : Type ℓ} {B : Type κ} {C : Type μ} where
  pub >>=-assoc :
      (m : Run A) (f : A → Run B) (g : B → Run C) → (m >>= f >>= g) ≡ (m >>= λ a. f a >>= g)
  >>=-assoc (ok a) f g = refl
  >>=-assoc (fault e) f g = refl

module _ {ℓ κ} {A : Type ℓ} {B : Type κ} where
  -- The two continuations need to agree only on what the run returns.
  pub >>=-cong_ok :
      (m : Run A) (f g : A → Run B) → ((a : A) → m ≡ ok a → f a ≡ g a) → (m >>= f) ≡ (m >>= g)
  >>=-cong_ok (ok a) f g h = h a refl
  >>=-cong_ok (fault e) f g h = refl

  pub >>=-cong : (m : Run A) (f g : A → Run B) → ((a : A) → f a ≡ g a) → (m >>= f) ≡ (m >>= g)
  >>=-cong (ok a) f g h = h a
  >>=-cong (fault e) f g h = refl

pub ok-injective {ℓ} : {A : Type ℓ} {a b : A} → ok a ≡ ok b → a ≡ b
ok-injective e = cc

-- Whatever the run returns satisfies `P`.
abbrev pub Ensures {ℓ κ} : {A : Type ℓ} (m : Run A) (Good : A → Type κ) → Type (ℓ ⊔ κ)
Ensures {A} m Good = (a : A) → m ≡ ok a → Good a

module _ {ℓ κ μ} {A : Type ℓ} {B : Type κ} where
  pub >>=-Ensures :
      (Good : B → Type μ) (m : Run A) (f : A → Run B)
      → ((a : A) → m ≡ ok a → Ensures (f a) Good)
      → Ensures (m >>= f) Good
  >>=-Ensures Good (ok a) f h b e = h a refl b e
  >>=-Ensures Good (fault why) f h b e = cc

pub ok-Ensures {ℓ κ} : {A : Type ℓ} (Good : A → Type κ) (a : A) → Good a → Ensures (ok a) Good
ok-Ensures Good a g b e = rw (← ok-injective e) g

pub if-Ensures {ℓ κ} :
    {A : Type ℓ} (Good : A → Type κ) (b : Bool) (m n : Run A)
    → Ensures m Good
    → Ensures n Good
    → Ensures (if b then m else n) Good
if-Ensures Good true m n h k = h
if-Ensures Good false m n h k = k

-- Each branch may use the outcome of the test.
pub test-Ensures {ℓ κ} :
    {A : Type ℓ} (Good : A → Type κ) (b : Bool) (m n : Run A)
    → (b ≡ true → Ensures m Good)
    → (b ≡ false → Ensures n Good)
    → Ensures (if b then m else n) Good
test-Ensures Good true m n h k = h refl
test-Ensures Good false m n h k = k refl

pub Option-Ensures {ℓ κ μ} :
    {A : Type ℓ} {B : Type κ} (Good : B → Type μ) (o : Option A) (m : Run B) (f : A → Run B)
    → Ensures m Good
    → ((a : A) → Ensures (f a) Good)
    → Ensures (elim o [ none ↦ m | some a ↦ f a ]) Good
Option-Ensures Good none m f h k = h
Option-Ensures Good (some a) m f h k = k a

pub fault-Ensures {ℓ κ} : {A : Type ℓ} (Good : A → Type κ) (why : Fault) → Ensures (fault why) Good
fault-Ensures Good why a e = cc
