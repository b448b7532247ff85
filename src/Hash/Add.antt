-- ===== src/Hash/Add.antt =====
-- hash_new and hash_add of hash.c against the map that a table stands for.
use imcore.Prelude.{ℕ, ◌+◌, ◌<◌, ◌≡◌, refl, ◌∙◌, arith, Bool, true, false}
use imcore.Prelude.{List, [], ◌∷◌, Option, none, some, if◌then◌else◌, Bool-cases, inl, inr}
use imcore.Prelude.{length, set, replicate, length-replicate, get_or-replicate}
use imcore.Prelude.{ok, ◌>>=◌, Run, Returns, All}
use imcore.Prelude.Text.{str_eq, str_eq_iff}
use imcore.Hash.{Table, Status, done, failed, hash_new, hash_add}
use imcore.Hash.{release_value}
use imcore.Hash.Links.{Chain, find, has, count}
use imcore.Hash.View.{home, chain_of, view, home_slots}
use imcore.Hash.View.{total-replicate, IsValid, index}
use imcore.Hash.View.{hash_get-view, insert_entry-inserts, Changes}
use imcore.Hash.View.{change, IsKey}
use imcore.Hash.Drop.{unique_at, hash_drop-Drops}
use mathlib.Core.Path.{subst}
use mathlib.Core.Option.{some-injective}

module _ {ℓ} {V : Type ℓ} where
  -- What a successful `hash_add` on a table with a release function leaves.
  pub record Adds (t : Table V) (key : List ℕ) (value : Option V) (r : Status × Table V)
      : Type ℓ where
    pub valid : IsValid r.1
    pub status : r.0 ≡ done
    pub reads : (q : List ℕ) → view r.1 q ≡ (if str_eq q key then value else view t q)
    pub released :
        r.1.released
        ≡ (if has key (chain_of t.entries key) then release_value t (view t key) else t.released)
    pub free : r.1.free ≡ true

  pub insert-Changes :
      (t : Table V) (key : List ℕ) (value : Option V)
      → IsValid t
      → count key (chain_of t.entries key) ≡ 0
      → Changes t key value (record t {
        num_keys = t.num_keys + 1;
        entries = set t.entries (home t.entries key) ((key, value) ∷ chain_of t.entries key);
      })
  insert-Changes t key value v absent =
      let c = chain_of t.entries key in
      change t key (t.num_keys + 1) ((key, value) ∷ c) value t.released v (omega arith)
        (λ q h. unfold count in ground (arith, unique_at t key q v h, str_eq_iff q key))
        (λ q h. unfold find in refl)

  -- On a valid table with a release function, with a key that is ASCII and not empty and the memory that it
  -- takes, `hash_add` puts the value into the map, changes nothing else in it, keeps the table valid, and
  -- releases the value that it replaces.
  pub hash_add-Adds :
      (t : Table V) (key : List ℕ) (value : Option V)
      → IsKey key
      → 0 < length key
      → t.free ≡ true
      → IsValid t
      → Returns (hash_add true true t key value) (Adds t key value)
  unfolding hash_add
  hash_add-Adds t key value k full free v =
      let (r, run, d) = hash_drop-Drops t key k v in
      let i = insert-Changes r.1 key value d.valid d.absent in
      (
        _,
        rw (index t key k v.sized, run, home_slots t.entries r.1.entries key d.slots)
            (ground (arith, insert_entry-inserts r.1 key k d.valid.sized value full)),
        record {
          valid = i.valid;
          status = refl;
          reads = λ q. i.reads q ∙ overwrite q (d.reads q);
          released = d.released;
          free = d.free ∙ free;
        },
      )
    where
      overwrite :
          (q : List ℕ) {x : Option V}
          → x ≡ (if str_eq q key then none else view t q)
          → (if str_eq q key then value else x) ≡ (if str_eq q key then value else view t q)
      overwrite q e = elim (Bool-cases (str_eq q key)) [
        | inl same ↦ rw same
        | inr other ↦ rw (e, other)
      ]

  -- The test that was to refuse a key that is there already refuses every other one.
  hash_add-refuses_new :
      (t : Table V) (key : List ℕ) (value : Option V) (calloc strndup : Bool)
      → IsKey key
      → 0 < length t.entries
      → t.free ≡ false
      → view t key ≡ none
      → hash_add calloc strndup t key value ≡ ok (failed, t)
  unfolding hash_add
  hash_add-refuses_new t key value calloc strndup k s free absent =
      rw (index t key k s, hash_get-view t key k s, absent) (simp free)

  empty_chain : (size : ℕ) (q : List ℕ) → chain_of (replicate {A = Chain V} size []) q ≡ []
  unfolding chain_of
  empty_chain size q = get_or-replicate size (home (replicate {A = Chain V} size []) q) []

  -- A new table is valid and stands for the empty map; it has the one owner.
  pub hash_new-IsValid :
      (size : ℕ) (free : Bool) (t : Table V)
      → 0 < size
      → hash_new true true size free ≡ some t
      → IsValid t × (t.ref ≡ 1) × (t.free ≡ free) × ((q : List ℕ) → view t q ≡ none)
  unfolding hash_new view
  hash_new-IsValid size free t h e =
      subst
        (λ (t : Table V).
          IsValid t × (t.ref ≡ 1) × (t.free ≡ free) × ((q : List ℕ) → view t q ≡ none))
        (some-injective _ _ e)
        (
          record {
            sized = rw (length-replicate {A = Chain V} size []) h;
            counted = total-replicate size [] refl;
            unique = λ q. rw (empty_chain size q) (unfold count in omega arith);
          },
          refl,
          refl,
          λ q. rw (empty_chain size q) (unfold find in refl),
        )

  -- Calls of `hash_add` in turn, with their answers.
  pub add_each :
      (calloc strndup : Bool) → List (List ℕ × Option V) → Table V → Run (List Status × Table V)
  add_each calloc strndup [] t = ok ([], t)
  add_each calloc strndup ((key, value) ∷ rest) t = do
    (status, t') ← hash_add calloc strndup t key value
    (others, last) ← add_each calloc strndup rest t'
    ok (status ∷ others, last)

  pub failures : List (List ℕ × Option V) → List Status
  failures [] = []
  failures (p ∷ rest) = failed ∷ failures rest

  refuse_each :
      (t : Table V) (calloc strndup : Bool) (pairs : List (List ℕ × Option V))
      → All (λ (p : List ℕ × Option V). IsKey p.0) pairs
      → 0 < length t.entries
      → t.free ≡ false
      → ((q : List ℕ) → view t q ≡ none)
      → add_each calloc strndup pairs t ≡ ok (failures pairs, t)
  unfolding add_each failures
  refuse_each t calloc strndup [] k s f n = refl
  refuse_each t calloc strndup ((key, value) ∷ rest) k s f n =
      rw
        (
          hash_add-refuses_new t key value calloc strndup k.0 s f (n key),
          refuse_each t calloc strndup rest k.1 s f n,
        )
        refl

  -- A table of at least one slot that hash_new makes without a release function never takes an entry:
  -- whatever ASCII keys and values are added to it, in whatever order and whatever the allocations do,
  -- each call answers that it has failed, and the table stays as it was made.
  pub table_stays_empty :
      (size : ℕ) (t : Table V) (calloc strndup : Bool) (pairs : List (List ℕ × Option V))
      → 0 < size
      → hash_new true true size false ≡ some t
      → All (λ (p : List ℕ × Option V). IsKey p.0) pairs
      → add_each calloc strndup pairs t ≡ ok (failures pairs, t)
  table_stays_empty size t calloc strndup pairs h e k =
      let (valid, _, free, empty) = hash_new-IsValid size false t h e in
      refuse_each t calloc strndup pairs k valid.sized free empty
