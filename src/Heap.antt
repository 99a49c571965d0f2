-- ===== src/Heap.antt =====
-- The kernel's heap, kernel/src/mem/heap/allocator.c: segments with a header each, linked in
-- address order. Headers live in the node memory of `Linked`, at the address of the segment; a
-- fault is a read or write of a header through `NULL` or at an address that holds none.
-- What the heap asks of others (`paging_map_page`, `memcpy`, `memset`) is logged in order.
pub mod Layout
pub mod Split
pub mod Merge
pub mod Search
pub mod Focus
pub mod Expand
pub mod Free
pub mod Coalesce
pub mod Sound
pub mod Apart
pub mod Grow
pub mod Total
pub mod Malloc
mod Tests
pub mod Give
pub mod FirstFit
use skylight.Base.{
  ℕ, zero, suc, ◌-◌, ◌/◌, ◌%◌, Bool, true, false, not, Option, none, some, List, ◌∷◌, ◌==◌, ltb,
  if◌then◌else◌, add64, sub64, mul64, slt64, Cmd, pure, fault, ◌>>=◌, ◌>>◌,
}
use skylight.Linked.{Ptr, null, Node, node, Nodes, write}

-- The fields of `struct _heap_seg_hdr` that are no links; `last` is the link `prev`.
pub record Segment : Type 0 where
  pub length : ℕ
  pub free : Bool

abbrev pub segment : ℕ → Bool → Segment
segment n f = record { length = n; free = f }

-- `sizeof(heap_seg_header_t)`
abbrev pub header_size : ℕ
header_size = 32

pub data Call : Type 0 where
  map_page : (virt : Ptr) → Call
  memcpy : (dest src count : ℕ) → Call
  memset : (dest value count : ℕ) → Call

-- The globals of the file, the headers in memory, and the calls made so far, latest first.
pub record Heap : Type 0 where
  pub headers : Nodes Segment
  pub heap_start : Ptr
  pub heap_end : Ptr
  pub last_header : Ptr
  pub heap_initialized : Bool
  pub calls : List Call

abbrev pub HeapCmd : Type 0 → Type 0
HeapCmd = Cmd Heap

-- A read through a header pointer.
unfoldable pub load : Ptr → HeapCmd (Node Segment)
load p h = if p == null then none else elim (h.headers p) [ none ↦ none | some n ↦ some (n, h) ]

-- A header written whole, over whatever the memory held.
abbrev pub store : Ptr → Node Segment → HeapCmd (Unit {0})
store p n h = some (tt, record h { headers = write h.headers p (some n) })

unfoldable pub set_last : Ptr → Ptr → HeapCmd (Unit {0})
set_last p q = do n ← load p; store p (record n { prev = q })

unfoldable pub set_next : Ptr → Ptr → HeapCmd (Unit {0})
set_next p q = do n ← load p; store p (record n { next = q })

unfoldable pub set_length : Ptr → ℕ → HeapCmd (Unit {0})
set_length p k = do n ← load p; store p (record n { item = segment k n.item.free })

unfoldable pub set_free : Ptr → Bool → HeapCmd (Unit {0})
set_free p f = do n ← load p; store p (record n { item = segment n.item.length f })

abbrev pub when : Bool → HeapCmd (Unit {0}) → HeapCmd (Unit {0})
when true m = m
when false m = pure tt

abbrev pub get_heap : HeapCmd Heap
get_heap h = some (h, h)

abbrev pub set_last_header : Ptr → HeapCmd (Unit {0})
set_last_header p h = some (tt, record h { last_header = p })

abbrev pub log : Call → HeapCmd (Unit {0})
log c h = some (tt, record h { calls = c ∷ h.calls })

-- The writes of `header_split`, once the remainder is known to be large enough.
unfoldable pub split_at : Ptr → ℕ → ℕ → HeapCmd Ptr
split_at seg split_length length = do
  let new_header = add64 (add64 seg split_length) header_size
  s ← load seg
  when (not (s.next == null)) (set_last s.next new_header)
  set_next seg new_header
  store new_header (node seg s.next (segment length s.item.free))
  set_length seg split_length
  h ← get_heap
  when (h.last_header == seg) (set_last_header new_header)
  pure new_header

unfoldable pub header_split : Ptr → ℕ → HeapCmd Ptr
header_split seg split_length = if ltb split_length 0x10 then pure null else do
  s ← load seg
  let length = sub64 (sub64 s.item.length split_length) header_size
  if slt64 length 0x10 then pure null else split_at seg split_length length

-- The writes of `header_combine_forward`, once the next segment is known to be free.
unfoldable pub absorb_next : Ptr → HeapCmd (Unit {0})
absorb_next seg = do
  s ← load seg
  h ← get_heap
  when (s.next == h.last_header) (set_last_header seg)
  n ← load s.next
  when (not (n.next == null)) (set_last n.next seg)
  set_length seg (add64 (add64 s.item.length n.item.length) header_size)
  set_next seg n.next

unfoldable pub header_combine_forward : Ptr → HeapCmd (Unit {0})
header_combine_forward seg = do
  s ← load seg
  if s.next == null
      then pure tt
      else do n ← load s.next; if not n.item.free then pure tt else absorb_next seg

unfoldable pub header_combine_backward : Ptr → HeapCmd (Unit {0})
header_combine_backward seg = do
  s ← load seg
  if s.prev == null
      then pure tt
      else do l ← load s.prev; when l.item.free (header_combine_forward s.prev)

-- `for (i = 0; i < pages; i++) { paging_map_page(pos, …); pos += 0x1000; }`
unfoldable pub map_pages : ℕ → Ptr → List Call → List Call
map_pages zero pos log = log
map_pages (suc pages) pos log = map_pages pages (add64 pos 0x1000) (map_page pos ∷ log)

unfoldable pub heap_initialize : Ptr → ℕ → HeapCmd (Unit {0})
heap_initialize address pages h =
    let length = mul64 pages 0x1000 in
    some (
      tt,
      record {
        headers =
            write h.headers address
              (some (node null null (segment (sub64 length header_size) true)));
        heap_start = address;
        heap_end = add64 address length;
        last_header = address;
        heap_initialized = true;
        calls = map_pages pages address h.calls;
      },
    )

-- `length` rounded up to whole pages.
abbrev pub round_page : ℕ → ℕ
round_page length = if length % 0x1000 == 0 then length else add64 (length - length % 0x1000) 0x1000

unfoldable pub heap_expand : ℕ → HeapCmd (Unit {0})
heap_expand requested = do
  let length = round_page requested
  h ← get_heap
  let new_segment = h.heap_end
  (λ g. some (
    tt,
    record g {
      heap_end = add64 new_segment (mul64 (length / 0x1000) 0x1000);
      calls = map_pages (length / 0x1000) new_segment g.calls;
    },
  ))
  set_next h.last_header new_segment
  store new_segment (node h.last_header null (segment (sub64 length header_size) true))
  set_last_header new_segment
  header_combine_backward new_segment

-- The segment whose data begins at `address`.
abbrev pub header_of : Ptr → Ptr
header_of address = sub64 address header_size

unfoldable pub free : Ptr → HeapCmd (Unit {0})
free address = do
  let seg = header_of address
  set_free seg true
  header_combine_forward seg
  header_combine_backward seg

-- `size` rounded up to a multiple of 16.
abbrev pub round_size : ℕ → ℕ
round_size size = if ltb 0 (size % 0x10) then add64 (size - size % 0x10) 0x10 else size

-- What the search loop does with a free segment: `none` to go on, else the address returned.
unfoldable pub try_segment : Ptr → Node Segment → ℕ → HeapCmd (Option Ptr)
try_segment current n size =
    if not n.item.free
    then pure none
    else if ltb size n.item.length
    then (do
      header_split current size
      set_free current false
      pure (some (add64 current header_size)))
    else if n.item.length == size
    then (do set_free current false; pure (some (add64 current header_size)))
    else pure none

-- The loop of `malloc` over the segments from `current` on, with `rounds` as its fuel.
unfoldable pub search_from : ℕ → Ptr → ℕ → HeapCmd (Option Ptr)
search_from zero current size = fault
search_from (suc rounds) current size = do
  n ← load current
  found ← try_segment current n size
  elim found [
    | some p ↦ pure (some p)
    | none ↦ if n.next == null then pure none else search_from rounds n.next size
  ]

-- `malloc` behind its initialisation and rounding: search, else expand and call itself again.
unfoldable pub malloc_rounded : ℕ → ℕ → ℕ → HeapCmd Ptr
malloc_rounded rounds zero size = fault
malloc_rounded rounds (suc tries) size = do
  h ← get_heap
  found ← search_from rounds h.heap_start size
  elim found [ some p ↦ pure p | none ↦ heap_expand size >> malloc_rounded rounds tries size ]

-- `rounds` bounds the segments that one search passes, `tries` the calls of `malloc` by itself.
unfoldable pub malloc : (rounds tries : ℕ) → ℕ → HeapCmd Ptr
malloc rounds tries size = do
  h ← get_heap
  when (not h.heap_initialized) (heap_initialize 0x7f0000000000 256)
  let rounded = round_size size
  if rounded == 0 then pure null else malloc_rounded rounds tries rounded

unfoldable pub realloc : (rounds tries : ℕ) → Ptr → ℕ → HeapCmd Ptr
realloc rounds tries pointer size = do
  load (header_of pointer)
  new ← malloc rounds tries size
  log (memcpy new pointer size)
  free pointer
  pure new

unfoldable pub calloc : (rounds tries : ℕ) → ℕ → ℕ → HeapCmd Ptr
calloc rounds tries elements size = do
  let real_size = mul64 elements size
  alloc ← malloc rounds tries real_size
  log (memset alloc 0 real_size)
  pure alloc
