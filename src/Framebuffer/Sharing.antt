-- ===== src/Framebuffer/Sharing.antt =====
-- Who reaches the framebuffer: fb_req and fb_kill of kernel/src/proc/calls/handlers/fb_req.c. What
-- they ask of paging is told apart by the page table that is loaded when it is asked.
use skylight.Base.{
  ℕ, zero, suc, ◌+◌, ◌*◌, ◌/◌, ◌^◌, ◌<◌, ◌≡◌, ◌≢◌, ◌∙◌, refl, ap, List, [], ◌∷◌, ◌++◌, ◌==◌,
  ==_of_eq, ==_of_ne, if_true, if_false, if◌then◌else◌, arith, add64, sub64,
}
use skylight.Acpi.{virtual_offset}
use skylight.Keyboard.KeyBuffer.{Request, load_pml4, free_page, unmap_page, map_user_page}
use skylight.Framebuffer.{
  Frame, Caller, nobody, page_count, map_frame, unmap_frame, fb_req, fb_kill,
}

-- What is asked of paging while `table` is loaded, where `current` is loaded before.
abbrev pub asked_of : (table current : ℕ) → List Request → List Request
asked_of table current [] = []
asked_of table current (load_pml4 next ∷ log) = asked_of table next log
asked_of table current (map_user_page virt phys ∷ log) =
    let rest = asked_of table current log in
    if current == table then map_user_page virt phys ∷ rest else rest
asked_of table current (unmap_page virt ∷ log) =
    let rest = asked_of table current log in
    if current == table then unmap_page virt ∷ rest else rest
asked_of table current (free_page page ∷ log) =
    let rest = asked_of table current log in
    if current == table then free_page page ∷ rest else rest

-- The framebuffer's pages, as many as the calls count, each mapped to itself in memory.
abbrev pub whole_frame : (rounds i : ℕ) → Frame → List Request
whole_frame zero i f = []
whole_frame (suc rounds) i f =
    map_user_page (add64 f.frame_addr (4096 * i))
      (add64 (sub64 f.frame_addr virtual_offset) (4096 * i))
    ∷ whole_frame rounds (suc i) f

abbrev unmapped_frame : (rounds i : ℕ) → Frame → List Request
unmapped_frame zero i f = []
unmapped_frame (suc rounds) i f =
    unmap_page (add64 f.frame_addr (4096 * i)) ∷ unmapped_frame rounds (suc i) f

map_frame-own :
    (rounds i table kpml4 : ℕ) (f : Frame)
    → asked_of table table (map_frame rounds (4096 * i) f ++ (load_pml4 kpml4 ∷ []))
      ≡ whole_frame rounds i f
unfolding map_frame
map_frame-own zero i table kpml4 f = refl
map_frame-own (suc rounds) i table kpml4 f =
    let next : 4096 * i + 4096 ≡ 4096 * suc i = omega arith in
    if_true (table == table) _ _ (==_of_eq table table refl)
    ∙ ap
        (λ l.
          map_user_page (add64 f.frame_addr (4096 * i))
            (add64 (sub64 f.frame_addr virtual_offset) (4096 * i))
          ∷ l)
        (ap (λ k. asked_of table table (map_frame rounds k f ++ (load_pml4 kpml4 ∷ []))) next
          ∙ map_frame-own rounds (suc i) table kpml4 f)

map_frame-other :
    (rounds i table current kpml4 : ℕ) (f : Frame)
    → current ≢ table
    → asked_of table current (map_frame rounds i f ++ (load_pml4 kpml4 ∷ [])) ≡ []
unfolding map_frame
map_frame-other zero i table current kpml4 f apart = refl
map_frame-other (suc rounds) i table current kpml4 f apart =
    if_false (current == table) _ _ (==_of_ne current table apart)
    ∙ map_frame-other rounds (i + 4096) table current kpml4 f apart

unmap_frame-other :
    (rounds i table current kpml4 : ℕ) (f : Frame)
    → current ≢ table
    → asked_of table current (unmap_frame rounds i f ++ (load_pml4 kpml4 ∷ [])) ≡ []
unfolding unmap_frame
unmap_frame-other zero i table current kpml4 f apart = refl
unmap_frame-other (suc rounds) i table current kpml4 f apart =
    if_false (current == table) _ _ (==_of_ne current table apart)
    ∙ unmap_frame-other rounds (i + 4096) table current kpml4 f apart

unmap_frame-own :
    (rounds i table kpml4 : ℕ) (f : Frame)
    → asked_of table table (unmap_frame rounds (4096 * i) f ++ (load_pml4 kpml4 ∷ []))
      ≡ unmapped_frame rounds i f
unfolding unmap_frame
unmap_frame-own zero i table kpml4 f = refl
unmap_frame-own (suc rounds) i table kpml4 f =
    let next : 4096 * i + 4096 ≡ 4096 * suc i = omega arith in
    if_true (table == table) _ _ (==_of_eq table table refl)
    ∙ ap (λ l. unmap_page (add64 f.frame_addr (4096 * i)) ∷ l)
        (ap (λ k. asked_of table table (unmap_frame rounds k f ++ (load_pml4 kpml4 ∷ []))) next
          ∙ unmap_frame-own rounds (suc i) table kpml4 f)

-- A free framebuffer is given to the process that asks: each of its pages is mapped in the table of
-- the process, in order, and nothing is asked of another table.
fb_req_lem :
    (f : Frame) (c : Caller) (kpml4 before : ℕ)
    → (log : List Request) × (fb_req f c kpml4 nobody ≡ (f.frame_addr, c.pid, log))
      × (asked_of c.cr3 before log ≡ whole_frame (page_count f) 0 f)
      × ((table : ℕ) → c.cr3 ≢ table → asked_of table before log ≡ [])
unfolding fb_req
fb_req_lem f c kpml4 before = (
  load_pml4 c.cr3 ∷ (map_frame (page_count f) 0 f ++ (load_pml4 kpml4 ∷ [])),
  refl,
  map_frame-own (page_count f) 0 c.cr3 kpml4 f,
  λ table apart. map_frame-other (page_count f) 0 table c.cr3 kpml4 f apart,
)

-- `fb_kill` by any process frees a framebuffer that is held, and asks for unmapping in the table of
-- that process only.
fb_kill_lem :
    (f : Frame) (c : Caller) (kpml4 holder before : ℕ)
    → holder ≢ nobody
    → (log : List Request) × (fb_kill f c kpml4 holder ≡ (nobody, log))
      × (asked_of c.cr3 before log ≡ unmapped_frame (page_count f) 0 f)
      × ((table : ℕ) → c.cr3 ≢ table → asked_of table before log ≡ [])
unfolding fb_kill
fb_kill_lem f c kpml4 holder before held = (
  load_pml4 c.cr3 ∷ (unmap_frame (page_count f) 0 f ++ (load_pml4 kpml4 ∷ [])),
  if_false (holder == nobody) _ _ (==_of_ne holder nobody held),
  unmap_frame-own (page_count f) 0 c.cr3 kpml4 f,
  λ table apart. unmap_frame-other (page_count f) 0 table c.cr3 kpml4 f apart,
)

-- A process other than the one that holds the framebuffer may free it and get it while the first
-- one keeps its pages: where a first process `p`, not numbered `2 ^ 64 - 1`, takes the free
-- framebuffer, a process `q` with another page table calls `fb_kill`, and then `fb_req`, which
-- gives it the framebuffer, the first call asks in the table of `p` for the mapping of all the
-- pages that are counted for the framebuffer, neither of the others asks anything in that table,
-- and the last one asks for the same mappings in the table of `q`.
pub fb_kill-shared :
    (f : Frame) (p q : Caller) (kpml4 : ℕ)
    → p.pid ≢ nobody
    → q.cr3 ≢ p.cr3
    → (asked freed again : List Request) × (fb_req f p kpml4 nobody ≡ (f.frame_addr, p.pid, asked))
      × (fb_kill f q kpml4 p.pid ≡ (nobody, freed))
      × (fb_req f q kpml4 nobody ≡ (f.frame_addr, q.pid, again))
      × (asked_of p.cr3 kpml4 asked ≡ whole_frame (page_count f) 0 f)
      × (asked_of p.cr3 kpml4 freed ≡ [])
      × (asked_of p.cr3 kpml4 again ≡ [])
      × (asked_of q.cr3 kpml4 again ≡ whole_frame (page_count f) 0 f)
fb_kill-shared f p q kpml4 real apart =
    let (asked, ran, mine, _) = fb_req_lem f p kpml4 kpml4 in
    let (freed, killed, _, kept) = fb_kill_lem f q kpml4 p.pid kpml4 real in
    let (again, ran', own, others) = fb_req_lem f q kpml4 kpml4 in
    (asked, freed, again, ran, killed, ran', mine, kept p.cr3 apart, others p.cr3 apart, own)

-- With 32 bits for a dot, four times the bytes of the framebuffer are counted.
page_count-behind :
    (f : Frame) (k : ℕ)
    → f.frame_bpp ≡ 32
    → f.frame_pitch * f.frame_height * 4 < 2 ^ 32
    → 4096 * k < f.frame_pitch * f.frame_height * 4
    → k < page_count f
page_count-behind f k bits word less =
    let times : f.frame_pitch * f.frame_height * (f.frame_bpp / 8)
        ≡ f.frame_pitch * f.frame_height * 4 =
      ap (λ b. f.frame_pitch * f.frame_height * (b / 8)) bits in
    omega (arith, times)
