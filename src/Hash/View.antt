-- ===== src/Hash/View.antt =====
-- The map that a table of hash.c stands for, and what one changed chain does to it.
use imcore.Prelude.{ℕ, zero, suc, ◌+◌, ◌-◌, ◌%◌, ◌≤◌, ◌<◌, ◌≡◌, refl, ap, ◌∙◌, arith, true, false}
use imcore.Prelude.{
  List, [], ◌∷◌, Option, ◌==◌, if◌then◌else◌, Bool-cases, inl, inr, lt→ltb, ==_iff,
}
use imcore.Prelude.{length, get_or, set, replicate, All, length-set, get_or-set}
use imcore.Prelude.{ok, at, at-get_or}
use imcore.Prelude.Text.{str_eq, str_eq_iff}
use imcore.Hash.{Table, done, failed, hash_get, hash_drop, insert_entry}
use imcore.Hash.{release_value}
use imcore.Hash.Links.{Chain, find, has, erase, count}
use imcore.Hash.Index.{hash_key, hash_loop, hash_key-in_range}

abbrev pub IsKey : List ℕ → Type 0
IsKey = All (λ c. c < 128)

module _ {ℓ} {V : Type ℓ} where
  pub home : List (Chain V) → List ℕ → ℕ
  home es key = hash_loop key 0 0 % length es

  unfoldable pub chain_of : List (Chain V) → List ℕ → Chain V
  chain_of es key = get_or es (home es key) []

  -- The map that a table stands for.
  unfoldable pub view : Table V → List ℕ → Option V
  view t key = find key (chain_of t.entries key)

  unfoldable pub total : List (Chain V) → ℕ
  total [] = 0
  total (c ∷ cs) = length c + total cs

  pub total-set :
      (es : List (Chain V)) (i : ℕ) (c : Chain V)
      → i < length es
      → total (set es i c) + length (get_or es i []) ≡ total es + length c
  unfolding total
  total-set [] i c h = absurd (omega arith)
  total-set (e ∷ es) zero c h = omega arith
  total-set (e ∷ es) (suc i) c h = omega (arith, total-set es i c (omega arith))

  pub chain_of_lem :
      (es : List (Chain V)) (key : List ℕ) → get_or es (home es key) [] ≡ chain_of es key
  unfolding chain_of
  chain_of_lem es key = refl

  pub home_slots :
      (es es' : List (Chain V)) (key : List ℕ) → length es' ≡ length es → home es key ≡ home es' key
  unfolding home
  home_slots es es' key h = rw h

  pub chain_of_congr :
      (es : List (Chain V)) (key q : List ℕ)
      → home es key ≡ home es q
      → chain_of es key ≡ chain_of es q
  unfolding chain_of
  chain_of_congr es key q h = ap (λ (i : ℕ). get_or es i []) h

  pub total-replicate : (n : ℕ) (c : Chain V) → length c ≡ 0 → total (replicate n c) ≡ 0
  unfolding total
  total-replicate zero c h = refl
  total-replicate (suc n) c h = omega (arith, total-replicate n c h)

  pub record IsValid (t : Table V) : Type ℓ where
    pub sized : 0 < length t.entries
    pub counted : total t.entries ≡ t.num_keys
    pub unique : (q : List ℕ) → count q (chain_of t.entries q) ≤ 1

  pub home-lt : (es : List (Chain V)) (key : List ℕ) → 0 < length es → home es key < length es
  unfolding home
  home-lt es key s = omega arith

  module _ (t : Table V) (key : List ℕ) (k : IsKey key) (s : 0 < length t.entries) where
    pub index : hash_key (length t.entries) key ≡ ok (home t.entries key)
    unfolding home
    index = (hash_key-in_range (length t.entries) key k s).0

    pub slot : at t.entries (home t.entries key) ≡ ok (chain_of t.entries key)
    unfolding chain_of
    slot = at-get_or t.entries (home t.entries key) [] (home-lt t.entries key s)

    -- Reading a key never faults, and gives the value that the map has there.
    pub hash_get-view : hash_get t key ≡ ok (view t key)
    unfolding hash_get view
    hash_get-view = rw (index, slot)

    pub hash_drop-hit :
        has key (chain_of t.entries key) ≡ true
        → hash_drop t key
          ≡ ok (
            done,
            record t {
              num_keys = t.num_keys - 1;
              entries = set t.entries (home t.entries key) (erase key (chain_of t.entries key));
              released = release_value t (view t key);
            },
          )
    unfolding hash_drop view
    hash_drop-hit h = rw (index, slot, h)

    pub hash_drop-miss : has key (chain_of t.entries key) ≡ false → hash_drop t key ≡ ok (failed, t)
    unfolding hash_drop
    hash_drop-miss h = rw (index, slot, h)

    pub insert_entry-inserts :
        (value : Option V)
        → 0 < length key
        → insert_entry true true t (home t.entries key) key value
          ≡ ok (
            done,
            record t {
              num_keys = t.num_keys + 1;
              entries = set t.entries (home t.entries key) ((key, value) ∷ chain_of t.entries key);
            },
          )
    unfolding insert_entry
    insert_entry-inserts value h = rw (lt→ltb 0 (length key) h, slot)

  -- Replacing the chain of `key` changes no other key.
  pub chain_of-set :
      (es : List (Chain V)) (key q : List ℕ) (c : Chain V)
      → 0 < length es
      → chain_of (set es (home es key) c) q
        ≡ (if home es key == home es q then c else chain_of es q)
  unfolding chain_of
  chain_of-set es key q c s =
      rw (home-set es (home es key) c q)
        (get_or-set es (home es key) (home es q) c [] (home-lt es key s))
    where
      home-set :
          (es : List (Chain V)) (i : ℕ) (c : Chain V) (q : List ℕ) → home (set es i c) q ≡ home es q
      home-set es i c q = unfold home in rw (length-set es i c)

  -- What a change of the chain at `key` from `c` to `c'` does to a valid table.
  pub record Changes (t : Table V) (key : List ℕ) (v : Option V) (t' : Table V) : Type ℓ where
    pub valid : IsValid t'
    pub reads : (q : List ℕ) → view t' q ≡ (if str_eq q key then v else view t q)

  pub home_congr :
      (es : List (Chain V)) (key q : List ℕ) → str_eq q key ≡ true → home es key ≡ home es q
  home_congr es key q h = rw ((str_eq_iff q key).0 h)

  pub change :
      (t : Table V) (key : List ℕ) (n : ℕ) (c : Chain V) (v : Option V) (r : List V)
      → IsValid t
      → n + length (chain_of t.entries key) ≡ t.num_keys + length c
      → ((q : List ℕ) → home t.entries key ≡ home t.entries q → count q c ≤ 1)
      → ((q : List ℕ)
          → home t.entries key ≡ home t.entries q
          → find q c ≡ (if str_eq q key then v else find q (chain_of t.entries key)))
      → Changes t key v
          (record t { num_keys = n; entries = set t.entries (home t.entries key) c; released = r })
  unfolding view
  change t key n c v r valid size unique reads = record {
    valid = record {
      sized = rw (length-set t.entries (home t.entries key) c) valid.sized;
      counted = total_after;
      unique = unique_after;
    };
    reads = reads_after;
  }
    where
      total_after : total (set t.entries (home t.entries key) c) ≡ n
      total_after = omega (
        arith,
        total-set t.entries (home t.entries key) c (home-lt t.entries key valid.sized),
        ap length (chain_of_lem t.entries key),
      )

      unique_after : (q : List ℕ) → count q (chain_of (set t.entries (home t.entries key) c) q) ≤ 1
      unique_after q =
          rw (chain_of-set t.entries key q c valid.sized)
            (elim (Bool-cases (home t.entries key == home t.entries q)) [
              | inl same ↦ rw same (unique q ((==_iff _ _).0 same))
              | inr other ↦ rw other (valid.unique q)
            ])

      elsewhere :
          (q : List ℕ)
          → home t.entries key == home t.entries q ≡ false
          → find q (chain_of t.entries q)
            ≡ (if str_eq q key then v else find q (chain_of t.entries q))
      elsewhere q other = ground (arith, home_congr t.entries key q)

      reads_after :
          (q : List ℕ)
          → find q (chain_of (set t.entries (home t.entries key) c) q)
            ≡ (if str_eq q key then v else find q (chain_of t.entries q))
      reads_after q =
          rw (chain_of-set t.entries key q c valid.sized)
            (elim (Bool-cases (home t.entries key == home t.entries q)) [
              | inl same ↦ rw same (
                  reads q ((==_iff _ _).0 same)
                  ∙ ap (λ (d : Chain V). if str_eq q key then v else find q d)
                      (chain_of_congr t.entries key q ((==_iff _ _).0 same)))
              | inr other ↦ rw other (elsewhere q other)
            ])
