-- ===== src/Framebuffer/Tests.antt =====
-- Examples for the framebuffer's calls.
use skylight.Base.{◌≡◌, refl, none, [], arith, List}
use skylight.Keyboard.KeyBuffer.{Request}
use skylight.Framebuffer.{Frame, Caller, nobody, page_count, fb_req, fb_kill, rdinfo}
use skylight.Framebuffer.Sharing.{asked_of, whole_frame, fb_kill-shared}

abbrev frame : Frame
frame = record {
  frame_width = 640;
  frame_height = 480;
  frame_addr = 0xffff8000fd000000;
  frame_pitch = 2560;
  frame_bpp = 32;
}

abbrev prism : Caller
prism = record { pid = 1; cr3 = 0x10000 }

abbrev other : Caller
other = record { pid = 2; cr3 = 0x20000 }

fb_kill-shared_example :
    (asked freed again : List Request) × (fb_req frame prism 0x1000 nobody
      ≡ (0xffff8000fd000000, 1, asked))
    × (fb_kill frame other 0x1000 1 ≡ (nobody, freed))
    × (fb_req frame other 0x1000 nobody ≡ (0xffff8000fd000000, 2, again))
    × (asked_of 0x10000 0x1000 asked ≡ whole_frame (page_count frame) 0 frame)
    × (asked_of 0x10000 0x1000 freed ≡ [])
    × (asked_of 0x10000 0x1000 again ≡ [])
    × (asked_of 0x20000 0x1000 again ≡ whole_frame (page_count frame) 0 frame)
fb_kill-shared_example = fb_kill-shared frame prism other 0x1000 (omega arith) (omega arith)

no_fifth_field : rdinfo 0 frame 4 ≡ none
unfolding rdinfo
no_fifth_field = refl
