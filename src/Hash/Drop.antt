-- ===== src/Hash/Drop.antt =====
-- hash_drop of hash.c against the map that a table stands for.
use imcore.Prelude.{ℕ, ◌-◌, ◌≤◌, ◌<◌, ◌≡◌, refl, ap, arith, true, false}
use imcore.Prelude.{List, none, if◌then◌else◌, Bool-cases, inl, inr}
use imcore.Prelude.{length, set, length-set}
use imcore.Prelude.{Returns}
use imcore.Prelude.Text.{str_eq, str_eq_iff, str_eq_refl}
use imcore.Hash.{Table, Status, done, failed, hash_drop}
use imcore.Hash.{release_value}
use imcore.Hash.Links.{Chain, has, erase, count, count_miss, length-erase, count-erase}
use imcore.Hash.Links.{find-erase, find-eq-none}
use imcore.Hash.View.{home, chain_of, view, total-set, chain_of_lem, chain_of_congr}
use imcore.Hash.View.{IsValid, home-lt}
use imcore.Hash.View.{hash_drop-hit, hash_drop-miss, chain_of-set, Changes}
use imcore.Hash.View.{change, IsKey}

module _ {ℓ} {V : Type ℓ} where
  -- Dropping a key removes it from the map, and says whether an entry was there. The value goes to
  -- the release function.
  pub record Drops (t : Table V) (key : List ℕ) (r : Status × Table V) : Type ℓ where
    pub valid : IsValid r.1
    pub reads : (q : List ℕ) → view r.1 q ≡ (if str_eq q key then none else view t q)
    pub status : r.0 ≡ (if has key (chain_of t.entries key) then done else failed)
    pub released :
        r.1.released
        ≡ (if has key (chain_of t.entries key) then release_value t (view t key) else t.released)
    pub slots : length r.1.entries ≡ length t.entries
    pub free : r.1.free ≡ t.free
    pub absent : count key (chain_of r.1.entries key) ≡ 0

  pub unique_at :
      (t : Table V) (key q : List ℕ)
      → IsValid t
      → home t.entries key ≡ home t.entries q
      → count q (chain_of t.entries key) ≤ 1
  unique_at t key q v h = rw (chain_of_congr t.entries key q h) (v.unique q)

  pub at_least_one :
      (t : Table V) (key : List ℕ)
      → IsValid t
      → has key (chain_of t.entries key) ≡ true
      → 0 < t.num_keys
  at_least_one t key v hit = omega (
    arith,
    v.counted,
    length-erase key (chain_of t.entries key) hit,
    total-set t.entries (home t.entries key) (erase key (chain_of t.entries key))
        (home-lt t.entries key v.sized),
    ap length (chain_of_lem t.entries key),
  )

  pub erase-Changes :
      (t : Table V) (key : List ℕ) (r : List V)
      → IsValid t
      → has key (chain_of t.entries key) ≡ true
      → Changes t key none (record t {
        num_keys = t.num_keys - 1;
        entries = set t.entries (home t.entries key) (erase key (chain_of t.entries key));
        released = r;
      })
  erase-Changes t key r v hit =
      let c = chain_of t.entries key in
      change t key (t.num_keys - 1) (erase key c) none r v
        (omega (arith, length-erase key c hit, at_least_one t key v hit))
        (λ q h. ground (arith, count-erase key q c (unique_at t key q v h), unique_at t key q v h))
        (λ q h. find-erase key q c (unique_at t key q v h))

  pub erased :
      (t : Table V) (key : List ℕ) → IsValid t → count key (erase key (chain_of t.entries key)) ≡ 0
  erased t key v =
      ground (arith, count-erase key key (chain_of t.entries key) (v.unique key), str_eq_refl key)

  pub view-miss :
      (t : Table V) (key q : List ℕ)
      → has key (chain_of t.entries key) ≡ false
      → view t q ≡ (if str_eq q key then none else view t q)
  unfolding view
  view-miss t key q miss = elim (Bool-cases (str_eq q key)) [
    | inl same ↦
        rw (same, (str_eq_iff q key).0 same)
          (find-eq-none key (chain_of t.entries key) (count_miss key (chain_of t.entries key) miss))
    | inr other ↦ rw other
  ]

  pub chain_of-set_self :
      (es : List (Chain V)) (key : List ℕ) (c : Chain V)
      → 0 < length es
      → chain_of (set es (home es key) c) key ≡ c
  chain_of-set_self es key c s = ground (arith, chain_of-set es key key c s)

  -- With an ASCII key, on a valid table, `hash_drop` succeeds exactly where the key has an entry, removes
  -- that key alone from the map, releases its value, and keeps the table valid.
  pub hash_drop-Drops :
      (t : Table V) (key : List ℕ) → IsKey key → IsValid t → Returns (hash_drop t key) (Drops t key)
  hash_drop-Drops t key k v = elim (Bool-cases (has key (chain_of t.entries key))) [
    | inl hit ↦
        let d = erase-Changes t key (release_value t (view t key)) v hit in
        (
          _,
          hash_drop-hit t key k v.sized hit,
          record {
            valid = d.valid;
            reads = d.reads;
            status = rw hit;
            released = rw hit;
            slots = length-set t.entries (home t.entries key) _;
            free = refl;
            absent =
                rw (chain_of-set_self t.entries key (erase key (chain_of t.entries key)) v.sized)
                  (erased t key v);
          },
        )
    | inr miss ↦ (
      _,
      hash_drop-miss t key k v.sized miss,
      record {
        valid = v;
        reads = λ q. view-miss t key q miss;
        status = rw miss;
        released = rw miss;
        slots = refl;
        free = refl;
        absent = count_miss key (chain_of t.entries key) miss;
      },
    )
  ]
