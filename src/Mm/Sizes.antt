-- ===== src/Mm/Sizes.antt =====
-- The ring of mm.c as a map from addresses to sizes.
use imcore.Prelude.{
  ℕ, ◌+◌, ◌≤◌, ◌≡◌, refl, arith, ◌==◌, if◌then◌else◌, List, [], ◌∷◌, Option, none, some, Bool-cases,
  inl, inr,
}
use imcore.Mm.{RingMem, Site, unlink, move_blocks}

-- The size that the ring has for an address.
unfoldable pub size_of : List RingMem → ℕ → Option ℕ
size_of [] q = none
size_of (mem ∷ ring) q = if mem.p == q then some mem.s else size_of ring q

-- The number of records of an address.
unfoldable pub count : List RingMem → ℕ → ℕ
count [] q = 0
count (mem ∷ ring) q = (if mem.p == q then 1 else 0) + count ring q

pub none-count : (ring : List RingMem) (q : ℕ) → size_of ring q ≡ none → count ring q ≡ 0
unfolding size_of count
none-count [] q h = refl
none-count (mem ∷ ring) q h = ground (arith, none-count ring q)

pub count-none : (ring : List RingMem) (q : ℕ) → count ring q ≡ 0 → size_of ring q ≡ none
unfolding size_of count
count-none [] q h = refl
count-none (mem ∷ ring) q h = ground (arith, count-none ring q)

pub size_of-unlink :
    (ring : List RingMem) (p q : ℕ)
    → count ring p ≤ 1
    → size_of (unlink p ring) q ≡ (if p == q then none else size_of ring q)
unfolding size_of unlink count
size_of-unlink [] p q h = ground arith
size_of-unlink (mem ∷ ring) p q h = ground (arith, size_of-unlink ring p q, count-none ring p)

pub count-unlink : (ring : List RingMem) (p q : ℕ) → count (unlink p ring) q ≤ count ring q
unfolding unlink count
count-unlink [] p q = omega arith
count-unlink (mem ∷ ring) p q = ground (arith, count-unlink ring p q)

move_blocks-none :
    (ring : List RingMem) (p p' size : ℕ) (site : Site)
    → count ring p ≡ 0
    → move_blocks p p' size site ring ≡ ring
unfolding move_blocks count
move_blocks-none [] p p' size site h = refl
move_blocks-none (mem ∷ ring) p p' size site h =
    ground (arith, move_blocks-none ring p p' size site)

pub size_of-move_blocks :
    (ring : List RingMem) (p p' size : ℕ) (site : Site) (q : ℕ)
    → count ring p ≡ 1
    → (if p == p' then none else size_of ring p') ≡ none
    → size_of (move_blocks p p' size site ring) q
      ≡ (if p' == q then some size else if p == q then none else size_of ring q)
unfolding size_of move_blocks count
size_of-move_blocks [] p p' size site q h k = absurd (omega arith)
size_of-move_blocks (mem ∷ ring) p p' size site q h k = elim (Bool-cases (mem.p == p)) [
  | inl e ↦
      rw (move_blocks-none ring p p' size site (ground arith)) (ground (arith, count-none ring p))
  | inr e ↦ ground (arith, size_of-move_blocks ring p p' size site q (ground arith) (ground arith))
]

pub count-move_blocks :
    (ring : List RingMem) (p p' size : ℕ) (site : Site) (q : ℕ)
    → count (move_blocks p p' size site ring) q ≡ (
        if p' == q
        then (if p == q then count ring q else count ring p + count ring q)
        else if p == q
        then 0
        else count ring q)
unfolding move_blocks count
count-move_blocks [] p p' size site q = ground arith
count-move_blocks (mem ∷ ring) p p' size site q =
    ground (arith, count-move_blocks ring p p' size site q)
