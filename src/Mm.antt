-- ===== src/Mm.antt =====
-- mm.c: the allocator that keeps every block in a ring, to report what is left at the end. The ring is a
-- list, its newest block first, as list_add puts it; an address is a number, and NULL is `none`. What
-- malloc and realloc give is an argument.
use imcore.Prelude.{
  ℕ, zero, suc, ◌+◌, ◌==◌, if◌then◌else◌, List, [], ◌∷◌, Option, none, some, Bool, true, false,
}
pub mod Sizes
pub mod Trace
mod Runs

-- Where a block was asked for.
pub record Site : Type 0 where
  pub file : List ℕ
  pub line : ℕ
  pub userdata : ℕ

pub record RingMem : Type 0 where
  pub p : ℕ
  pub s : ℕ
  pub site : Site

-- `list_add`, for a block that malloc gave
unfoldable pub keep : ℕ → Site → List RingMem → Option ℕ → Option ℕ × List RingMem
keep size site ring none = (none, ring)
keep size site ring (some p) = (some p, record { p = p; s = size; site = site } ∷ ring)

-- The Boolean says whether the ring's own record can be allocated.
unfoldable pub ring_malloc : Bool → Option ℕ → ℕ → Site → List RingMem → Option ℕ × List RingMem
ring_malloc entry block size site ring = if entry then keep size site ring block else (none, ring)

-- The loop of ring_free: the first record of the block goes.
unfoldable pub unlink : ℕ → List RingMem → List RingMem
unlink p [] = []
unlink p (mem ∷ ring) = if mem.p == p then ring else mem ∷ unlink p ring

unfoldable pub ring_free : Option ℕ → List RingMem → List RingMem
ring_free none ring = ring
ring_free (some p) ring = unlink p ring

-- The loop of ring_realloc: every record of the old address is written anew.
unfoldable pub move_blocks : ℕ → ℕ → ℕ → Site → List RingMem → List RingMem
move_blocks p p' size site [] = []
move_blocks p p' size site (mem ∷ ring) =
    (if mem.p == p then record { p = p'; s = size; site = site } else mem)
    ∷ move_blocks p p' size site ring

-- `realloc` gave NULL, or a block.
unfoldable pub moved : ℕ → ℕ → Site → List RingMem → Option ℕ → Option ℕ × List RingMem
moved p size site ring none = (none, ring)
moved p size site ring (some p') = (some p', move_blocks p p' size site ring)

unfoldable pub ring_realloc :
    Bool → Option ℕ → Option ℕ → ℕ → Site → List RingMem → Option ℕ × List RingMem
ring_realloc entry block none size site ring = ring_malloc entry block size site ring
ring_realloc entry block (some p) zero site ring = (none, ring_free (some p) ring)
ring_realloc entry block (some p) (suc size) site ring = moved p (suc size) site ring block

-- The loop of ring_clean_check: each record is shown to the callback, if there is one, unlinked and freed.
-- What the callback sees, and the ring behind the loop.
unfoldable pub ring_clean_check : Bool → List RingMem → List RingMem × List RingMem
ring_clean_check cb [] = ([], [])
ring_clean_check cb (mem ∷ ring) =
    let (seen, left) = ring_clean_check cb ring in (if cb then mem ∷ seen else seen, left)
