-- ===== src/Keyboard/KeyBuffer.antt =====
-- `kb_man` and `__kb_man_save_key`, kernel/src/proc/calls/handlers/kb_man.c: one process at a time
-- holds a page of key codes, whose last two bytes are the number of codes in it. What the calls ask
-- of the page allocator and of paging is logged; the page that `pmm_alloc_page` returns is an
-- argument.
pub mod Saving
pub mod Holding
mod Tests
use skylight.Base.{
  ℕ, ◌+◌, ◌-◌, ◌*◌, ◌/◌, ◌%◌, ◌^◌, Bool, true, false, not, ◌||◌, List, [], ◌∷◌, ◌==◌, leb,
  if◌then◌else◌, get_or, set, add64, sub64,
}

abbrev pub page_size : ℕ
page_size = 0x1000

-- `-1` as a `uint64_t`: no process.
abbrev pub no_pid : ℕ
no_pid = 2 ^ 64 - 1

-- Reads and writes of the bytes of the page are given by index.
pub record KeyBuffer : Type 0 where
  pub current_buffer : ℕ
  pub current_pid : ℕ
  pub current_size : ℕ
  pub page : List ℕ

pub data Request : Type 0 where
  load_pml4 : (pml4 : ℕ) → Request
  free_page : (page : ℕ) → Request
  unmap_page : (virt : ℕ) → Request
  map_user_page : (virt phys : ℕ) → Request

-- Where the 16-bit number of codes stands in the page.
abbrev pub size_offset : ℕ
size_offset = page_size - 2

abbrev pub read_size : List ℕ → ℕ
read_size page = get_or page size_offset 0 + 256 * get_or page (size_offset + 1) 0

abbrev pub write_size : List ℕ → ℕ → List ℕ
write_size page n = set (set page size_offset (n % 256)) (size_offset + 1) (n / 256 % 256)

-- `kb_man` for the process `pid` with the page table `cr3`, where the kernel's is `kpml4`, and
-- `pmm_alloc_page` would return `fresh`, with the bytes `bytes`.
unfoldable pub kb_man :
    Bool → (pid cr3 kpml4 fresh : ℕ) → (bytes : List ℕ) → KeyBuffer → ℕ × KeyBuffer × List Request
kb_man false pid cr3 kpml4 fresh bytes s =
    if not (s.current_pid == pid) || (s.current_pid == no_pid)
    then (0, s, load_pml4 cr3 ∷ load_pml4 kpml4 ∷ [])
    else (
      0,
      record s { current_buffer = 0; current_pid = no_pid; current_size = 0 },
      load_pml4 cr3
          ∷ free_page s.current_buffer
          ∷ unmap_page s.current_buffer
          ∷ load_pml4 kpml4
          ∷ [],
    )
kb_man true pid cr3 kpml4 fresh bytes s =
    if not (s.current_pid == no_pid) then (0, s, load_pml4 cr3 ∷ load_pml4 kpml4 ∷ []) else (
      fresh,
      record {
        current_buffer = fresh;
        current_pid = pid;
        current_size = sub64 (add64 fresh page_size) 2;
        page = write_size bytes 0;
      },
      load_pml4 cr3 ∷ map_user_page fresh fresh ∷ load_pml4 kpml4 ∷ [],
    )

-- `__kb_man_save_key`
unfoldable pub save_key : ℕ → KeyBuffer → KeyBuffer
save_key keycode s =
    if (s.current_pid == no_pid) || (s.current_buffer == 0) || (s.current_size == 0)
    then s
    else if leb size_offset (read_size s.page)
    then s
    else record s {
      page = set (write_size s.page (read_size s.page + 1)) (read_size s.page) keycode;
    }

unfoldable pub save_keys : List ℕ → KeyBuffer → KeyBuffer
save_keys [] s = s
save_keys (k ∷ ks) s = save_keys ks (save_key k s)
