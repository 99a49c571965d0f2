-- ===== src/Heap/Tests.antt =====
-- Runs of the heap, and its theorems at a heap of three segments.
use skylight.Base.{◌≡◌, refl, true, false, Option, none, some, [], ◌∷◌, arith}
use skylight.Linked.{Ptr, null, node, write}
use skylight.Heap.{
  segment, Heap, load, header_split, header_combine_forward, header_combine_backward,
  heap_initialize, heap_expand, search_from, try_segment, malloc, malloc_rounded, set_free,
  set_next, set_last, set_length, split_at, absorb_next,
}
use skylight.Heap.Layout.{Cells, IsHeap}
use skylight.Heap.FirstFit.{used, first_fit, Inserted}
use skylight.Heap.Give.{Found}
use skylight.Heap.Search.{search_from-Found}
use skylight.Heap.Sound.{IsSound, Frees, free_lem}
use skylight.Heap.Grow.{Grows, heap_expand_lem}
use skylight.Heap.Total.{Allocates}
use skylight.Heap.Malloc.{malloc_lem, malloc-first}

-- 64 bytes free, 128 in use, and the rest of the page free.
abbrev cells : Cells
cells = (0x1000, segment 64 true) ∷ (0x1060, segment 128 false) ∷ (0x1100, segment 0xee0 true) ∷ []

abbrev heap : Heap
heap = record {
  headers =
      write
        (write (write (λ _. none) 0x1000 (some (node 0 0x1060 (segment 64 true)))) 0x1060
          (some (node 0x1000 0x1100 (segment 128 false))))
        0x1100 (some (node 0x1060 0 (segment 0xee0 true)));
  heap_start = 0x1000;
  heap_end = 0x2000;
  last_header = 0x1100;
  heap_initialized = true;
  calls = [];
}

abbrev blank : Heap
blank = record heap { headers = λ _. none; heap_initialized = false }

heap-IsHeap : IsHeap heap null 0x1000 cells
unfolding write
heap-IsHeap = record {
  layout = (refl, refl, (refl, refl, (refl, refl, refl)));
  last = refl;
  bound = omega arith;
  nonnull = omega arith;
}

heap-IsSound : IsSound heap cells
heap-IsSound = record {
  heap = heap-IsHeap;
  coalesced = (refl, (refl, (refl, tt)));
  ready = refl;
  some_cell = omega arith;
}

-- The middle of the heap, behind its first segment.
middle-IsHeap :
    IsHeap heap 0x1000 0x1060 ((0x1060, segment 128 false) ∷ (0x1100, segment 0xee0 true) ∷ [])
unfolding write
middle-IsHeap = record {
  layout = (refl, refl, (refl, refl, refl));
  last = refl;
  bound = omega arith;
  nonnull = omega arith;
}

-- What `malloc` returns, 0 for a run that faults.
abbrev returned : Option (Ptr × Heap) → Ptr
returned none = 0
returned (some (p, _)) = p

-- 40 bytes are rounded to 48, which fits into 64; 100 bytes go to the last segment; 5000 bytes need
-- more memory, and the new segment is joined with the last.
addresses :
    (returned (malloc 5 3 40 heap) ≡ 0x1020)
    × (returned (malloc 5 3 100 heap) ≡ 0x1120)
    × (returned (malloc 5 3 5000 heap) ≡ 0x1120)
    × (returned (malloc 5 3 8 blank) ≡ 0x7f0000000020)
unfolding malloc malloc_rounded search_from try_segment header_split split_at load set_free set_next
    set_last set_length write heap_expand heap_initialize header_combine_backward
    header_combine_forward absorb_next
addresses = (refl, refl, refl, refl)

malloc_lem_example : Allocates heap cells 100 (malloc 5 3 100 heap)
malloc_lem_example =
    malloc_lem heap cells 5 0 100 heap-IsSound (omega arith) (omega arith) (omega arith)

malloc-first_example :
    (g : Heap) × (p : Ptr) × (ys : Cells) × (malloc 5 3 24 blank ≡ some (p, g))
    × (IsSound g ys × Inserted p 24 [] (used ys))
malloc-first_example = malloc-first blank 5 0 24 refl (omega arith) (omega arith) (omega arith)

free_lem_example : Frees heap 0x1060 []
free_lem_example =
    free_lem heap ((0x1000, segment 64 true) ∷ []) 0x1060 128 ((0x1100, segment 0xee0 true) ∷ [])
      heap-IsSound

heap_expand_lem_example : Grows heap cells (segment 0xee0 true) 0x1000 (heap_expand 0x234 heap)
heap_expand_lem_example =
    heap_expand_lem heap ((0x1000, segment 64 true) ∷ (0x1060, segment 128 false) ∷ []) 0x1100 0xee0
      true 0x234 heap-IsSound (omega arith) (omega arith)

search_from-Found_example :
    Found heap null 0x1000 (first_fit 112 cells) (search_from 3 0x1000 112 heap)
search_from-Found_example =
    search_from-Found 112 (omega arith) (omega arith) 3 heap null 0x1000 0x1000 (segment 64 true)
      ((0x1060, segment 128 false) ∷ (0x1100, segment 0xee0 true) ∷ []) heap-IsHeap (omega arith)
