-- ===== src/Framebuffer.antt =====
-- The system calls fb_req, fb_kill, rdinfo and pid of kernel/src/proc/calls/handlers. What the
-- calls ask of paging is logged, as for the page of key codes.
pub mod Sharing
mod Tests
use skylight.Base.{
  ℕ, zero, suc, ◌+◌, ◌-◌, ◌*◌, ◌/◌, ◌%◌, ◌^◌, Bool, not, Option, none, some, ◌==◌, if◌then◌else◌,
  add64, sub64, List, [], ◌∷◌, ◌++◌,
}
use skylight.Keyboard.KeyBuffer.{Request, load_pml4, unmap_page, map_user_page}
use skylight.Acpi.{virtual_offset}
use skylight.Pmm.{paging_page_size}

-- `framebuffer` of the boot protocol.
pub record Frame : Type 0 where
  pub frame_width : ℕ
  pub frame_height : ℕ
  pub frame_addr : ℕ
  pub frame_pitch : ℕ
  pub frame_bpp : ℕ

-- The process that calls, as its page of `gs` names it.
pub record Caller : Type 0 where
  pub pid : ℕ
  pub cr3 : ℕ

abbrev pub nobody : ℕ
nobody = 2 ^ 64 - 1

-- `uint32_t` arithmetic.
abbrev pub framebuffer_size : Frame → ℕ
framebuffer_size f = f.frame_pitch * f.frame_height * (f.frame_bpp / 8) % 2 ^ 32

abbrev pub page_count : Frame → ℕ
page_count f = (framebuffer_size f + (paging_page_size - 1)) / paging_page_size

-- The loops over the pages, from the offset `i` on.
unfoldable pub map_frame : (rounds i : ℕ) → Frame → List Request
map_frame zero i f = []
map_frame (suc rounds) i f =
    map_user_page (add64 f.frame_addr i) (add64 (sub64 f.frame_addr virtual_offset) i)
    ∷ map_frame rounds (i + paging_page_size) f

unfoldable pub unmap_frame : (rounds i : ℕ) → Frame → List Request
unmap_frame zero i f = []
unmap_frame (suc rounds) i f =
    unmap_page (add64 f.frame_addr i) ∷ unmap_frame rounds (i + paging_page_size) f

-- The pointer that is returned, where NULL is 0, and the new `current_fb_holder_pid`.
unfoldable pub fb_req : Frame → Caller → (kpml4 holder : ℕ) → ℕ × ℕ × List Request
unfolding map_frame
fb_req f c kpml4 holder =
    let pages = map_frame (page_count f) 0 f in
    if not (holder == nobody)
    then (0, holder, [])
    else (f.frame_addr, c.pid, load_pml4 c.cr3 ∷ (pages ++ (load_pml4 kpml4 ∷ [])))

unfoldable pub fb_kill : Frame → Caller → (kpml4 holder : ℕ) → ℕ × List Request
unfolding unmap_frame
fb_kill f c kpml4 holder =
    let pages = unmap_frame (page_count f) 0 f in
    if holder == nobody
    then (holder, [])
    else (nobody, load_pml4 c.cr3 ∷ (pages ++ (load_pml4 kpml4 ∷ [])))

-- `none` is a call through a pointer behind the table.
unfoldable pub rdinfo : (free_memory : ℕ) → Frame → (field : ℕ) → Option ℕ
rdinfo free_memory f field =
    if field == 0
    then some free_memory
    else if field == 1
    then some f.frame_width
    else if field == 2
    then some f.frame_height
    else if field == 3
    then some f.frame_bpp
    else none

unfoldable pub pid_call : Caller → ℕ
pid_call c = c.pid
