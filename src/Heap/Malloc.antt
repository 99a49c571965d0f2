-- ===== src/Heap/Malloc.antt =====
-- `malloc` and `heap_initialize`: an allocation on any sound heap, and on a heap not yet set up.
use skylight.Base.{
  ℕ, suc, ◌+◌, ◌*◌, ◌-◌, ◌%◌, ◌^◌, ◌≤◌, ◌<◌, ◌≡◌, ◌∙◌, refl, Bool, true, false, not, inl, inr, some,
  [], ◌∷◌, arith, ltb, ◌==◌, ==_of_ne, Bool-cases, length, add64, sub64, mul64, ap,
}
use skylight.Linked.{Ptr, null, node, write, write_self}
use skylight.Heap.{
  segment, header_size, Heap, HeapCmd, when, round_size, map_pages, heap_initialize, malloc,
}
use skylight.Heap.Layout.{Cells}
use skylight.Heap.FirstFit.{used, Inserted}
use skylight.Heap.Sound.{IsSound}
use skylight.Heap.Total.{Allocates, first_try}

-- `round_size` rounds up to the next multiple of 16.
pub round_size_lem :
    (n : ℕ) → n < 2 ^ 63 → (n ≤ round_size n) × (round_size n < n + 16) × (round_size n % 16 ≡ 0)
round_size_lem n h = elim (Bool-cases (ltb 0 (n % 16))) [
  | inl part ↦ rw part (ground arith)
  | inr whole ↦ rw whole (ground arith)
]

when-not :
    (b : Bool) (m : HeapCmd (Unit {0})) (h : Heap) → b ≡ true → when (not b) m h ≡ some (tt, h)
when-not true m h e = refl
when-not false m h e = cc

when_set : (b : Bool) (m : HeapCmd (Unit {0})) (h : Heap) → b ≡ false → when (not b) m h ≡ m h
when_set true m h e = cc
when_set false m h e = refl

Inserted-le :
    {a size size' : ℕ} {xs ys : Cells}
    → size' ≤ size
    → Inserted a size xs ys
    → Inserted a size' xs ys
Inserted-le le i = record {
  before = i.before;
  cell = i.cell;
  length = i.length;
  after = i.after;
  old = i.old;
  new = i.new;
  address = i.address;
  large = omega (arith, i.large);
}

-- On a sound heap whose end, twice the size and 0x3000 add up to less than `2 ^ 62`, given a round
-- for every segment and two more, and three calls at least, `malloc` of a positive size always
-- returns. The heap stays sound; every segment that was in use still is, unchanged; and exactly
-- one more is, at least `size` bytes long, whose data begins at the address returned.
pub malloc_lem :
    (h : Heap) (xs : Cells) (rounds tries size : ℕ)
    → IsSound h xs
    → 0 < size
    → h.heap_end + 2 * size + 0x3000 < 2 ^ 62
    → length xs + 2 ≤ rounds
    → Allocates h xs size (malloc rounds (suc (suc (suc tries))) size h)
unfolding malloc
malloc_lem h xs rounds tries size is pos room few =
    let r = round_size_lem size (omega arith) in
    let nonzero : (round_size size == 0) ≡ false = ==_of_ne _ _ (omega (arith, r.0)) in
    let done =
      first_try (round_size size) (omega (arith, r.0, r.2)) (omega (arith, r.1)) h xs rounds tries
        is few (omega (arith, r.1)) in
    (
      done.0,
      done.1,
      done.2,
      rw (
        when-not h.heap_initialized (heap_initialize 0x7f0000000000 256) h is.ready,
        nonzero,
        done.3,
      ),
      (done.4.0, Inserted-le r.0 done.4.1),
    )

-- On a heap that is set up, `malloc` of 0 bytes returns `NULL` and changes nothing, whatever the
-- rounds and the calls.
pub malloc-zero :
    (h : Heap) (rounds tries : ℕ)
    → h.heap_initialized ≡ true
    → malloc rounds tries 0 h ≡ some (null, h)
unfolding malloc
malloc-zero h rounds tries ready =
    rw (when-not h.heap_initialized (heap_initialize 0x7f0000000000 256) h ready)

-- The heap that `heap_initialize` leaves: one free segment that fills the pages.
pub heap_initialize_lem :
    (h : Heap) (address pages : ℕ)
    → 0 < address
    → 0 < pages
    → address + pages * 0x1000 < 2 ^ 63
    → (g : Heap) × (heap_initialize address pages h ≡ some (tt, g))
      × (IsSound g ((address, segment (pages * 0x1000 - header_size) true) ∷ [])
          × (g.heap_end ≡ address + pages * 0x1000)
          × (g.calls ≡ map_pages pages address h.calls))
unfolding heap_initialize
heap_initialize_lem h address pages pos some_pages room =
    let rest : sub64 (mul64 pages 0x1000) header_size ≡ pages * 0x1000 - header_size =
      omega arith in
    let end : add64 address (mul64 pages 0x1000) ≡ address + pages * 0x1000 = omega arith in
    let g : Heap = record {
      headers =
          write h.headers address
            (some (node null null (segment (sub64 (mul64 pages 0x1000) header_size) true)));
      heap_start = address;
      heap_end = add64 address (mul64 pages 0x1000);
      last_header = address;
      heap_initialized = true;
      calls = map_pages pages address h.calls;
    } in
    (
      g,
      refl,
      (
        record {
          heap = record {
            layout = (
              refl,
              write_self _ _ _ ∙ ap (λ n. some (node null null (segment n true))) rest,
              omega (arith, end),
            );
            last = refl;
            bound = omega (arith, end);
            nonnull = pos;
          };
          coalesced = (refl, tt);
          ready = refl;
          some_cell = omega arith;
        },
        end,
        refl,
      ),
    )

malloc-initialized :
    (h g : Heap) (rounds tries size : ℕ)
    → h.heap_initialized ≡ false
    → g.heap_initialized ≡ true
    → heap_initialize 0x7f0000000000 256 h ≡ some (tt, g)
    → malloc rounds tries size h ≡ malloc rounds tries size g
unfolding malloc
malloc-initialized h g rounds tries size fresh ready run = rw (
  when_set h.heap_initialized (heap_initialize 0x7f0000000000 256) h fresh,
  run,
  when-not g.heap_initialized (heap_initialize 0x7f0000000000 256) g ready,
)

-- On a heap that is not set up, `malloc` of a positive size below `2 ^ 60`, given at least three
-- rounds and three calls, sets the heap up and returns the data of the only segment in use of a
-- sound heap, at least `size` bytes long.
pub malloc-first :
    (h : Heap) (rounds tries size : ℕ)
    → h.heap_initialized ≡ false
    → 0 < size
    → size < 2 ^ 60
    → 3 ≤ rounds
    → (g : Heap) × (p : Ptr) × (ys : Cells) × (malloc rounds (suc (suc (suc tries))) size h
        ≡ some (p, g))
      × (IsSound g ys × Inserted p size [] (used ys))
malloc-first h rounds tries size fresh pos room few =
    let set_up =
      heap_initialize_lem h 0x7f0000000000 256 (omega arith) (omega arith) (omega arith) in
    let start : Cells = (0x7f0000000000, segment (256 * 0x1000 - header_size) true) ∷ [] in
    let done =
      malloc_lem set_up.0 start rounds tries size set_up.2.0 pos (omega (arith, set_up.2.1)) few in
    (
      done.0,
      done.1,
      done.2,
      malloc-initialized h set_up.0 rounds (suc (suc (suc tries))) size fresh set_up.2.0.ready
            set_up.1
          ∙ done.3,
      done.4,
    )
