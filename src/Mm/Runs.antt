-- ===== src/Mm/Runs.antt =====
-- A run of the allocator of mm.c.
use imcore.Prelude.{◌≡◌, refl, [], none, some, true}
use imcore.Mm.{Site, ring_clean_check, ring_malloc, ring_realloc, ring_free}
use imcore.Mm.Trace.{
  given, taken, Reach.start, Reach.malloc, Reach.realloc, Reach.free, Exact, clean_check-reports,
}

abbrev here : Site
here = record { file = []; line = 1; userdata = 0 }

-- Two blocks, of which the first grows and moves and the second is freed.
clean_check-reports_example :
    Exact
      (ring_clean_check true (
        ring_free
          (some 20)
          (ring_realloc true
            (some 30)
            (some 10)
            9
            here
            (ring_malloc true (some 20) 5 here (ring_malloc true (some 10) 4 here []).1).1).1)).0
      (taken (given (taken (given (given (λ q. none) 10 4) 20 5) 10) 30 9) 20)
    × ((ring_clean_check true (
          ring_free
            (some 20)
            (ring_realloc true
              (some 30)
              (some 10)
              9
              here
              (ring_malloc true (some 20) 5 here (ring_malloc true (some 10) 4 here []).1).1).1)).1
        ≡ [])
clean_check-reports_example = clean_check-reports (
    free 20 5
      (realloc 10 4 30 8 here (malloc 20 5 here (malloc 10 4 here start refl) refl) refl refl) refl)
