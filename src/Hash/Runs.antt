-- ===== src/Hash/Runs.antt =====
-- Tests of hash.c's functions, and its theorems at concrete inputs.
use imcore.Prelude.{ℕ, ◌≡◌, refl, arith, List, [], ◌∷◌, true, false, Option, none, some}
use imcore.Prelude.{map, length, replicate, Bool, Run, ok, fault, out_of_bounds, ◌>>=◌, Returns}
use imcore.Prelude.Text.{codes, str_eq}
use imcore.Hash.{Table, hash_new, hash_get, hash_drop, insert_entry, hash_add}
use imcore.Hash.{release_value}
use imcore.Hash.Links.{find, has, erase}
use imcore.Hash.Index.{char_bits, hash_loop, hash_key}
use imcore.Hash.View.{IsValid, view, hash_get-view}
use imcore.Hash.Drop.{Drops, hash_drop-Drops}
use imcore.Hash.Add.{Adds, hash_add-Adds, add_each, failures, table_stays_empty, hash_new-IsValid}
use imcore.Hash.Iter.{Iter, hash_iter_new, iter_keys, all_slots, iterate}

program : Unit {0}
unfolding char_bits hash_loop hash_key find has erase str_eq hash_new hash_get hash_drop
    release_value insert_entry hash_add
program = tt

abbrev table_of : ℕ → Bool → Table ℕ
table_of size free = record {
  ref = 1;
  free = free;
  num_keys = 0;
  entries = replicate size [];
  released = [];
}

-- A table of attributes, as xmpp-stanza.c makes it, and the table of xmpp-conn.c.
abbrev owned : Table ℕ
owned = table_of 8 true

abbrev unowned : Table ℕ
unowned = table_of 32 false

owned-IsValid :
    IsValid owned × (owned.ref ≡ 1) × (owned.free ≡ true) × ((q : List ℕ) → view owned q ≡ none)
unfolding hash_new
owned-IsValid = hash_new-IsValid 8 true owned (omega arith) refl

hash_add-Adds_example :
    Returns
      (hash_add true true owned (codes "xmlns") (some 7))
      (Adds owned (codes "xmlns") (some 7))
hash_add-Adds_example =
    hash_add-Adds owned (codes "xmlns") (some 7) (omega arith) (omega arith) refl owned-IsValid.0

abbrev one_key : Table ℕ
one_key = hash_add-Adds_example.0.1

hash_get-view_example : hash_get one_key (codes "xmlns") ≡ ok (view one_key (codes "xmlns"))
hash_get-view_example =
    hash_get-view one_key (codes "xmlns") (omega arith) hash_add-Adds_example.2.valid.sized

hash_drop-Drops_example :
    Returns (hash_drop one_key (codes "xmlns")) (Drops one_key (codes "xmlns"))
hash_drop-Drops_example =
    hash_drop-Drops one_key (codes "xmlns") (omega arith) hash_add-Adds_example.2.valid

abbrev two_ids : List (List ℕ × Option ℕ)
two_ids = (codes "bind", some 7) ∷ (codes "session", some 8) ∷ []

table_stays_empty_example : add_each true true two_ids unowned ≡ ok (failures two_ids, unowned)
table_stays_empty_example =
    table_stays_empty 32 unowned true true two_ids (omega arith) (unfold hash_new in refl)
      (omega arith, omega arith)

iterate_example :
    (it : Iter ℕ) × (hash_iter_new true owned ≡ some it)
    × (it.table.ref ≡ 2)
    × (iter_keys 5 it ≡ map (λ s. s.0) (all_slots owned.entries))
    × (length (iter_keys 5 it) ≡ 0)
iterate_example = iterate owned 5 owned-IsValid.0 (omega arith)

-- A character of three bytes behind three ASCII ones leaves a negative hash.
index_negative : hash_key 8 (b'a' ∷ b'b' ∷ b'c' ∷ 0xe4 ∷ 0xbd ∷ 0xa0 ∷ []) ≡ fault out_of_bounds
unfolding program
index_negative = refl

abbrev twice : Run (Option ℕ × ℕ × List ℕ)
twice = do
  (_, t) ← hash_add true true owned (codes "id") (some 1)
  (_, u) ← hash_add true true t (codes "id") (some 2)
  v ← hash_get u (codes "id")
  ok (v, u.num_keys, u.released)

-- A second value under a key replaces the first, which is released.
replaces : twice ≡ ok (some 2, 1, 1 ∷ [])
unfolding program
replaces = refl
