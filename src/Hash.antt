-- ===== src/Hash.antt =====
-- hash.c: a chained hash table with string keys, and its iterator. A value is a pointer: `none` is
-- NULL. `free` says whether the table was given a release function; `released` lists the values that
-- the table has handed to it, the latest first.
pub mod Links
pub mod Index
pub mod View
pub mod Drop
pub mod Add
pub mod Iter
mod Runs
use imcore.Prelude.{ℕ, zero, suc, ◌+◌, ◌-◌, ◌*◌, ◌/◌, ◌%◌, ◌^◌, ◌≤◌, ◌<◌, Bool, true, false, not}
use imcore.Prelude.{List, [], ◌∷◌, ◌++◌, Option, none, some, ltb, leb, ◌==◌, if◌then◌else◌}
use imcore.Prelude.{length, get_or, set, replicate, Run, ok, fault, ◌>>=◌, at, out_of_bounds}
use imcore.Prelude.Text.{str_eq}
use Links.{Chain, Slot, find, has, erase}
use Index.{hash_key}

-- `struct _hash_t`; the number of slots, its `length`, is that of `entries`.
pub record Table {ℓ} (V : Type ℓ) : Type ℓ where
  pub ref : ℕ
  pub free : Bool
  pub num_keys : ℕ
  pub entries : List (Chain V)
  pub released : List V

-- What `hash_add` and `hash_drop` return.
pub data Status : Type 0 where
  done failed : Status

module _ {ℓ} {V : Type ℓ} where
  -- The two flags say whether the two allocations succeed.
  unfoldable pub hash_new : Bool → Bool → ℕ → Bool → Option (Table V)
  hash_new malloc calloc size free =
      if malloc
      then if calloc
        then some (record {
          ref = 1;
          free = free;
          num_keys = 0;
          entries = replicate size [];
          released = [];
        })
        else none
      else none

  unfoldable pub hash_clone : Table V → Table V
  hash_clone t = record t { ref = t.ref + 1 }

  -- `table->free(value)`, if there is such a function
  unfoldable pub release_value : Table V → Option V → List V
  release_value t none = t.released
  release_value t (some v) = if t.free then v ∷ t.released else t.released

  unfoldable pub hash_get : Table V → List ℕ → Run (Option V)
  hash_get t key = do
    index ← hash_key (length t.entries) key
    chain ← at t.entries index
    ok (find key chain)

  unfoldable pub hash_drop : Table V → List ℕ → Run (Status × Table V)
  hash_drop t key = do
    index ← hash_key (length t.entries) key
    chain ← at t.entries index
    if has key chain
        then ok (
          done,
          record t {
            num_keys = t.num_keys - 1;
            entries = set t.entries index (erase key chain);
            released = release_value t (find key chain);
          },
        )
        else ok (failed, t)

  -- The end of `hash_add`: the new entry goes in front of its chain. `im_strndup` returns NULL for
  -- the empty key.
  unfoldable pub insert_entry :
      Bool → Bool → Table V → ℕ → List ℕ → Option V → Run (Status × Table V)
  insert_entry calloc strndup t index key value =
      if calloc
      then if ltb 0 (length key)
        then if strndup
          then (do
            chain ← at t.entries index
            ok (
              done,
              record t {
                num_keys = t.num_keys + 1;
                entries = set t.entries index ((key, value) ∷ chain);
              },
            ))
          else ok (failed, t)
        else ok (failed, t)
      else ok (failed, t)

  unfoldable pub hash_add : Bool → Bool → Table V → List ℕ → Option V → Run (Status × Table V)
  hash_add calloc strndup t key value = do
    index ← hash_key (length t.entries) key
    if t.free
        then (do (_, t') ← hash_drop t key; insert_entry calloc strndup t' index key value)
        else (do
          found ← hash_get t key
          elim found [
            | none ↦ ok (failed, t)
            | some _ ↦ insert_entry calloc strndup t index key value
          ])

  -- What is left of the table, and the values that are released with it.
  values : Chain V → List V
  values [] = []
  values ((_, none) ∷ c) = values c
  values ((_, some v) ∷ c) = v ∷ values c

  all_values : List (Chain V) → List V
  unfolding values
  all_values [] = []
  all_values (c ∷ cs) = values c ++ all_values cs

  unfoldable pub hash_release : Table V → Option (Table V) × List V
  unfolding all_values
  hash_release t =
      if ltb 1 t.ref
      then (some (record t { ref = t.ref - 1 }), [])
      else (none, if t.free then all_values t.entries else [])
