-- ===== src/Mm/Trace.antt =====
-- mm.c over a whole run of the program: what the ring holds, and what ring_clean_check reports.
use imcore.Prelude.{
  ℕ, suc, ◌≤◌, ◌≡◌, refl, arith, ◌==◌, if◌then◌else◌, List, [], ◌∷◌, Option, none, some, true,
}
use imcore.Mm.{RingMem, Site, keep, ring_malloc, ring_free, moved, ring_realloc, ring_clean_check}
use imcore.Prelude.{◌∙◌}
use imcore.Mm.Sizes.{
  size_of, count, none-count, count-none, size_of-unlink, count-unlink, size_of-move_blocks,
  count-move_blocks,
}

-- The blocks that the program has outstanding, with their sizes.
abbrev pub Live : Type 0
Live = ℕ → Option ℕ

abbrev pub given : Live → ℕ → ℕ → Live
given live p size q = if p == q then some size else live q

abbrev pub taken : Live → ℕ → Live
taken live p q = if p == q then none else live q

-- A run: what malloc and realloc give is no block that is outstanding, but realloc may give its own one.
pub data Reach : List RingMem → Live → Type 0 where
  start : Reach [] (λ q. none)
  malloc :
      {ring : List RingMem} {live : Live} (p size : ℕ) (site : Site)
      → Reach ring live
      → live p ≡ none
      → Reach (ring_malloc true (some p) size site ring).1 (given live p size)
  realloc :
      {ring : List RingMem} {live : Live} (p old p' size : ℕ) (site : Site)
      → Reach ring live
      → live p ≡ some old
      → taken live p p' ≡ none
      → Reach
          (ring_realloc true (some p') (some p) (suc size) site ring).1
          (given (taken live p) p' (suc size))
  free :
      {ring : List RingMem} {live : Live} (p old : ℕ)
      → Reach ring live
      → live p ≡ some old
      → Reach (ring_free (some p) ring) (taken live p)
  drop :
      {ring : List RingMem} {live : Live} (p old : ℕ) (site : Site)
      → Reach ring live
      → live p ≡ some old
      → Reach (ring_realloc true none (some p) 0 site ring).1 (taken live p)
  failed :
      {ring : List RingMem} {live : Live} (p size : ℕ) (site : Site)
      → Reach ring live
      → Reach (ring_realloc true none (some p) (suc size) site ring).1 live

-- The ring has one record for each outstanding block, with its size, and no other.
pub record Exact (ring : List RingMem) (live : Live) : Type 0 where
  pub sizes : (q : ℕ) → size_of ring q ≡ live q
  pub once : (q : ℕ) → count ring q ≤ 1

live-count :
    (ring : List RingMem) (live : Live) (p old : ℕ)
    → Exact ring live
    → live p ≡ some old
    → count ring p ≡ 1
live-count ring live p old x e = ground (arith, x.once p, x.sizes p, count-none ring p)

malloc-Exact :
    (ring : List RingMem) (live : Live) (p size : ℕ) (site : Site)
    → Exact ring live
    → live p ≡ none
    → Exact (ring_malloc true (some p) size site ring).1 (given live p size)
unfolding ring_malloc keep size_of count
malloc-Exact ring live p size site x e = record {
  sizes = λ q. ground (arith, x.sizes q);
  once = λ q. ground (arith, x.once q, x.sizes q, e, none-count ring q);
}

free-Exact :
    (ring : List RingMem) (live : Live) (p : ℕ)
    → Exact ring live
    → Exact (ring_free (some p) ring) (taken live p)
unfolding ring_free
free-Exact ring live p x = record {
  sizes = λ q. size_of-unlink ring p q (x.once p) ∙ rw (x.sizes q) refl;
  once = λ q. omega (arith, count-unlink ring p q, x.once q);
}

realloc-Exact :
    (ring : List RingMem) (live : Live) (p old p' size : ℕ) (site : Site)
    → Exact ring live
    → live p ≡ some old
    → taken live p p' ≡ none
    → Exact
        (ring_realloc true (some p') (some p) (suc size) site ring).1
        (given (taken live p) p' (suc size))
unfolding ring_realloc moved
realloc-Exact ring live p old p' size site x e f = record {
  sizes = λ q.
      size_of-move_blocks ring p p' (suc size) site q (live-count ring live p old x e)
        (rw (x.sizes p') f)
      ∙ rw (x.sizes q) refl;
  once = λ q.
      rw (count-move_blocks ring p p' (suc size) site q)
        (ground (arith, x.once q, x.once p, x.sizes q, f, none-count ring q));
}

drop-Exact :
    (ring : List RingMem) (live : Live) (p : ℕ) (site : Site)
    → Exact ring live
    → Exact (ring_realloc true none (some p) 0 site ring).1 (taken live p)
unfolding ring_realloc
drop-Exact ring live p site x = free-Exact ring live p x

failed-Exact :
    (ring : List RingMem) (live : Live) (p size : ℕ) (site : Site)
    → Exact ring live
    → Exact (ring_realloc true none (some p) (suc size) site ring).1 live
unfolding ring_realloc moved
failed-Exact ring live p size site x = x

-- In every run the ring records exactly the outstanding blocks.
pub Reach-Exact : {ring : List RingMem} {live : Live} → Reach ring live → Exact ring live
Reach-Exact start = record {
  sizes = λ q. unfold size_of in refl;
  once = λ q. unfold count in omega arith;
}
Reach-Exact (malloc {ring} {live} p size site r e) =
    malloc-Exact ring live p size site (Reach-Exact r) e
Reach-Exact (realloc {ring} {live} p old p' size site r e f) =
    realloc-Exact ring live p old p' size site (Reach-Exact r) e f
Reach-Exact (free {ring} {live} p old r e) = free-Exact ring live p (Reach-Exact r)
Reach-Exact (drop {ring} {live} p old site r e) = drop-Exact ring live p site (Reach-Exact r)
Reach-Exact (failed {ring} {live} p size site r) =
    failed-Exact ring live p size site (Reach-Exact r)

clean_check-all : (ring : List RingMem) → ring_clean_check true ring ≡ (ring, [])
unfolding ring_clean_check
clean_check-all [] = refl
clean_check-all (mem ∷ ring) = rw (clean_check-all ring) refl

-- At the end of every run in which malloc and realloc give no block that is outstanding, ring_clean_check
-- reports each outstanding block once, with its size, and nothing else, and leaves an empty ring.
pub clean_check-reports :
    {ring : List RingMem} {live : Live}
    → Reach ring live
    → Exact (ring_clean_check true ring).0 live × ((ring_clean_check true ring).1 ≡ [])
clean_check-reports {ring} r = rw (clean_check-all ring) (Reach-Exact r, refl)
