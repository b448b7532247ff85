-- ===== src/Hash/Iter.antt =====
-- The iterator of hash.c. `rest` are the entries behind `iter->entry` in its chain, and `next` is
-- `iter->index + 1`.
use imcore.Prelude.{ℕ, zero, suc, ◌+◌, ◌-◌, ◌<◌, ◌≡◌, refl, sym, ap, ◌∙◌, arith, Bool, true}
use imcore.Prelude.{List, [], ◌∷◌, ◌++◌, map, Option, none, some, ltb, if◌then◌else◌}
use imcore.Prelude.{length, drop, length-append, length-map, Option-cases, inl, inr, All}
use mathlib.Core.Path.{subst}
use mathlib.Core.Option.{some-injective}
use imcore.Hash.{Table, hash_clone, hash_release}
use native.Mathlib.Numerals.{add-one}
use imcore.Hash.View.{IsValid, total}
use imcore.Hash.Links.{Chain, Slot}

pub record Iter {ℓ} (V : Type ℓ) : Type ℓ where
  pub ref : ℕ
  pub table : Table V
  pub rest : Chain V
  pub next : ℕ

module _ {ℓ} {V : Type ℓ} where
  -- The flag says whether the allocation succeeds; the iterator counts as an owner of the table.
  unfoldable pub hash_iter_new : Bool → Table V → Option (Iter V)
  hash_iter_new malloc t =
      if malloc then some (record { ref = 1; table = hash_clone t; rest = []; next = 0 }) else none

  -- The last release gives the table back.
  unfoldable pub hash_iter_release : Iter V → Option (Iter V) × Option (Table V) × List V
  hash_iter_release it =
      if ltb 1 it.ref
      then (some (record it { ref = it.ref - 1 }), some it.table, [])
      else let r = hash_release it.table in (none, r.0, r.1)

  -- The search for a slot in use, from slot `i` on.
  unfoldable pub scan : List (Chain V) → ℕ → Option (ℕ × Slot V × Chain V)
  scan [] i = none
  scan ([] ∷ cs) i = scan cs (i + 1)
  scan ((s ∷ c) ∷ cs) i = some (i, s, c)

  -- From a slot that the search found.
  abbrev enter : Iter V → Option (ℕ × Slot V × Chain V) → Option (List ℕ) × Iter V
  enter it none = (none, it)
  enter it (some (i, s, c)) = (some s.0, record it { rest = c; next = i + 1 })

  abbrev advance : Iter V → Chain V → Option (List ℕ) × Iter V
  advance it (s ∷ c) = (some s.0, record it { rest = c })
  advance it [] = enter it (scan (drop it.next it.table.entries) it.next)

  unfoldable pub hash_iter_next : Iter V → Option (List ℕ) × Iter V
  hash_iter_next it = advance it it.rest

  -- `while ((key = hash_iter_next(iter)))`: the keys that the loop sees.
  unfoldable pub iter_keys : ℕ → Iter V → List (List ℕ)
  iter_keys zero it = []
  iter_keys (suc fuel) it =
      let (key, it') = hash_iter_next it in elim key [ none ↦ [] | some k ↦ k ∷ iter_keys fuel it' ]

  pub all_slots : List (Chain V) → Chain V
  all_slots [] = []
  all_slots (c ∷ cs) = c ++ all_slots cs

  -- The entries that are still to come.
  pub remaining : Iter V → Chain V
  remaining it = it.rest ++ all_slots (drop it.next it.table.entries)

  drop-suc :
      (es : List (Chain V)) (i : ℕ) {c : Chain V} {cs : List (Chain V)}
      → drop i es ≡ c ∷ cs
      → drop (suc i) es ≡ cs
  drop-suc [] zero h = cc
  drop-suc [] (suc i) h = cc
  drop-suc (e ∷ es) zero h = cc
  drop-suc (e ∷ es) (suc i) h = drop-suc es i h

  drop_next :
      (es : List (Chain V)) (i : ℕ) {c : Chain V} {cs : List (Chain V)}
      → drop i es ≡ c ∷ cs
      → drop (i + 1) es ≡ cs
  drop_next es i h = ap (λ (n : ℕ). drop n es) (add-one i) ∙ drop-suc es i h

  -- The search skips the empty slots.
  scan-none : (cs : List (Chain V)) (i : ℕ) → scan cs i ≡ none → all_slots cs ≡ []
  unfolding scan all_slots
  scan-none [] i h = refl
  scan-none ([] ∷ cs) i h = scan-none cs (i + 1) h
  scan-none ((s ∷ c) ∷ cs) i h = cc

  scan-some :
      (es cs : List (Chain V)) (i j : ℕ) (s : Slot V) (c : Chain V)
      → drop i es ≡ cs
      → scan cs i ≡ some (j, s, c)
      → all_slots cs ≡ s ∷ (c ++ all_slots (drop (j + 1) es))
  unfolding scan all_slots
  scan-some es [] i j s c e h = cc
  scan-some es ([] ∷ cs) i j s c e h = scan-some es cs (i + 1) j s c (drop_next es i e) h
  scan-some es ((t ∷ d) ∷ cs) i j s c e h = cc (drop_next es i e)

  -- What one step of the iterator returns, and what it leaves to come.
  pub data Steps (it : Iter V) : Type ℓ where
    ends : remaining it ≡ [] → hash_iter_next it ≡ (none, it) → Steps it
    yields :
        (s : Slot V) (it' : Iter V)
        → remaining it ≡ s ∷ remaining it'
        → hash_iter_next it ≡ (some s.0, it')
        → Steps it

  pub iter_next-Steps : (it : Iter V) → Steps it
  iter_next-Steps it = step it.ref it.table it.rest it.next
    where
      step :
          (ref : ℕ) (t : Table V) (rest : Chain V) (next : ℕ)
          → Steps (record { ref = ref; table = t; rest = rest; next = next })
      step ref t (s ∷ c) next =
          yields s (record { ref = ref; table = t; rest = c; next = next })
            (unfold remaining in refl) (unfold hash_iter_next in refl)
      step ref t [] next = elim (Option-cases (scan (drop next t.entries) next)) [
        | inl e ↦
            ends (unfold remaining in scan-none (drop next t.entries) next e)
              (unfold hash_iter_next in rw e)
        | inr ((i, s, c), e) ↦
            yields s (record { ref = ref; table = t; rest = c; next = i + 1 })
              (unfold remaining in scan-some t.entries (drop next t.entries) next i s c refl e)
              (unfold hash_iter_next in rw e)
      ]

  -- A new iterator has everything before it.
  pub remaining-new :
      (t : Table V)
      → remaining (record { ref = 1; table = hash_clone t; rest = []; next = 0 })
        ≡ all_slots t.entries
  unfolding remaining hash_clone
  remaining-new t = refl

  pub all_slots-empty : (es : List (Chain V)) → All (λ (c : Chain V). c ≡ []) es → all_slots es ≡ []
  unfolding all_slots
  all_slots-empty [] a = refl
  all_slots-empty ([] ∷ cs) a = all_slots-empty cs a.1
  all_slots-empty ((s ∷ c) ∷ cs) a = absurd (cc (a.0))

  -- A new iterator over a table without an entry is at its end.
  pub iter_next-empty :
      (t : Table V) (it : Iter V)
      → All (λ (c : Chain V). c ≡ []) t.entries
      → hash_iter_new true t ≡ some it
      → hash_iter_next it ≡ (none, it)
  unfolding hash_iter_new hash_clone remaining
  iter_next-empty t it a e = subst Ended (some-injective start it e) (over (iter_next-Steps start))
    where
      start : Iter V
      start = record { ref = 1; table = hash_clone t; rest = []; next = 0 }

      Ended : Iter V → Type ℓ
      Ended it = hash_iter_next it ≡ (none, it)

      over : Steps start → Ended start
      over (ends r h) = h
      over (yields s it' r h) =
          let q : [] ≡ s ∷ remaining it' = sym (all_slots-empty t.entries a) ∙ r in absurd cc

  -- The loop sees the key of each entry that is still to come once, and then ends.
  pub iter_keys-remaining :
      (fuel : ℕ) (it : Iter V)
      → length (remaining it) < fuel
      → iter_keys fuel it ≡ map (λ s. s.0) (remaining it)
  unfolding iter_keys
  iter_keys-remaining zero it h = absurd (omega arith)
  iter_keys-remaining (suc fuel) it h = elim (iter_next-Steps it) [
    | ends e run ↦ rw (run, iter_keys, e)
    | yields s it' e run ↦
        rw (run, iter_keys, run, e)
          (ap (λ (ks : List (List ℕ)). s.0 ∷ ks)
            (iter_keys-remaining fuel it' (omega (arith, ap length e))))
  ]

  pub length-all_slots : (es : List (Chain V)) → length (all_slots es) ≡ total es
  unfolding all_slots total
  length-all_slots [] = refl
  length-all_slots (c ∷ cs) = omega (arith, length-append c (all_slots cs), length-all_slots cs)

  -- A new iterator over a valid table sees `num_keys` keys, those of all the entries in slot order,
  -- and the table counts one more owner.
  pub iterate :
      (t : Table V) (fuel : ℕ)
      → IsValid t
      → t.num_keys < fuel
      → (it : Iter V) × (hash_iter_new true t ≡ some it)
        × (it.table.ref ≡ t.ref + 1)
        × (iter_keys fuel it ≡ map (λ s. s.0) (all_slots t.entries))
        × (length (iter_keys fuel it) ≡ t.num_keys)
  unfolding hash_iter_new hash_clone all_slots remaining
  iterate t fuel v h = (
    start,
    refl,
    refl,
    keys,
    rw keys (
        omega (
          arith,
          length-map (all_slots t.entries) (λ (s : Slot V). s.0),
          length-all_slots t.entries,
          v.counted,
        )),
  )
    where
      start : Iter V
      start = record { ref = 1; table = hash_clone t; rest = []; next = 0 }

      keys : iter_keys fuel start ≡ map (λ s. s.0) (all_slots t.entries)
      keys =
          iter_keys-remaining fuel start
            (unfold remaining in omega (arith, length-all_slots t.entries, v.counted))
