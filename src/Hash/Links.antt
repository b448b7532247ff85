-- ===== src/Hash/Links.antt =====
-- One chain of hash.c: the walks along `entry->next` with im_strcmp.
use imcore.Prelude.{ℕ, ◌+◌, ◌≤◌, ◌≡◌, refl, arith, Bool, true, false}
use imcore.Prelude.{List, [], ◌∷◌, Option, none, length, if◌then◌else◌}
use imcore.Prelude.Text.{str_eq, str_eq_iff}

abbrev pub Slot {ℓ} : Type ℓ → Type ℓ
Slot V = List ℕ × Option V

abbrev pub Chain {ℓ} : Type ℓ → Type ℓ
Chain V = List (Slot V)

module _ {ℓ} {V : Type ℓ} where
  -- The value of the first entry with the key, NULL if there is none.
  unfoldable pub find : List ℕ → Chain V → Option V
  find key [] = none
  find key ((k, v) ∷ c) = if str_eq key k then v else find key c

  unfoldable pub has : List ℕ → Chain V → Bool
  has key [] = false
  has key ((k, v) ∷ c) = if str_eq key k then true else has key c

  -- Unlinks the first entry with the key.
  unfoldable pub erase : List ℕ → Chain V → Chain V
  erase key [] = []
  erase key ((k, v) ∷ c) = if str_eq key k then c else (k, v) ∷ erase key c

  unfoldable pub count : List ℕ → Chain V → ℕ
  count key [] = 0
  count key ((k, v) ∷ c) = (if str_eq key k then 1 else 0) + count key c

  pub find-eq-none : (key : List ℕ) (c : Chain V) → count key c ≡ 0 → find key c ≡ none
  unfolding count find
  find-eq-none key [] h = refl
  find-eq-none key ((k, v) ∷ c) h = ground (arith, find-eq-none key c)

  pub erase_miss : (key : List ℕ) (c : Chain V) → has key c ≡ false → erase key c ≡ c
  unfolding has erase
  erase_miss key [] h = refl
  erase_miss key ((k, v) ∷ c) h = ground (arith, erase_miss key c)

  pub count_miss : (key : List ℕ) (c : Chain V) → has key c ≡ false → count key c ≡ 0
  unfolding has count
  count_miss key [] h = refl
  count_miss key ((k, v) ∷ c) h = ground (arith, count_miss key c)

  pub length-erase :
      (key : List ℕ) (c : Chain V) → has key c ≡ true → length (erase key c) + 1 ≡ length c
  unfolding has erase
  length-erase key [] h = cc
  length-erase key ((k, v) ∷ c) h = ground (arith, length-erase key c)

  module _ (key q : List ℕ) where
    pub count-erase :
        (c : Chain V)
        → count q c ≤ 1
        → count q (erase key c) ≡ (if str_eq q key then 0 else count q c)
    unfolding count erase
    count-erase [] h = ground arith
    count-erase ((k, v) ∷ c) h =
        ground (arith, count-erase c, str_eq_iff key k, str_eq_iff q k, str_eq_iff q key)

    pub find-erase :
        (c : Chain V)
        → count q c ≤ 1
        → find q (erase key c) ≡ (if str_eq q key then none else find q c)
    unfolding count erase find
    find-erase [] h = ground arith
    find-erase ((k, v) ∷ c) h =
        ground (
          arith,
          find-erase c,
          find-eq-none q c,
          str_eq_iff key k,
          str_eq_iff q k,
          str_eq_iff q key,
        )
