-- ===== src/Lib.antt =====
-- Verification of skylight, a small x86-64 kernel and its Prism frame.
--
-- The kernel makes sections of pages from the memory map and hands out pages, maps them in page
-- tables, hands out memory from a heap of linked segments, turns the bytes of a PS/2 keyboard into key
-- codes, keeps them in a page for the process that asked for it, and switches between tasks. The Prism
-- frame reads that page, keeps the states of shift and the locks, and hands the key codes on to its
-- listeners. Beside it there are a debug shell on a serial port, the tables of the firmware, and the
-- configuration space of the PCI functions that one of those tables leads to.
--
-- What models what:
--   Base, Linked        shared helpers: Boolean tests, lists over native numbers, 64-bit words,
--                       commands that may fault, and nodes at addresses.
--   Heap                kernel/src/mem/heap/allocator.c, a function each: header_split,
--                       header_combine_forward and _backward, heap_initialize, heap_expand, free,
--                       malloc, realloc, calloc. Heap.Layout relates the headers in memory to a list
--                       of segments, Heap.FirstFit is the allocator on such lists, Heap.Split, Merge,
--                       Give, Search, Expand and Free compare the functions with it, Heap.Sound, Grow,
--                       Total and Malloc work on whole heaps.
--   Pmm                 kernel/src/mem/pmm/pmm.c and pfa.c, the page allocator. Pmm.Pages has
--                       pmm_section_split and pmm_alloc_page, Pmm.Freeing the two combinations and
--                       pmm_free_page, Pmm.Lock the locking of pages and the pools, with
--                       Pmm.Realloc, and Pmm.Start pmm_start. Pmm.View reads the sections as the
--                       kind of each address; Pmm.Recombine, Alloc, Released, Locked and FromMap
--                       compare the functions with that view. Room is about the table of sections,
--                       Take, Outcome and Retype about one page and its section, Release and Freed
--                       about the loops over the sections, Built and Added about the memory map.
--   Paging              kernel/src/mem/paging/paging.c and paging.h. Paging.Bits and Fields are about
--                       descriptors and indices, Walk about tables that differ in an entry, Way
--                       about the tables on the way of an address, Map, Unmap
--                       and Remap about those functions. A new table comes from pmm_alloc_page of Pmm.
--   Paging.Calls        pmap and punmap, kernel/src/proc/calls/handlers/pmap.c and punmap.c.
--   Boot                the memory map, limine_reinterpret of kernel/src/boot/limine/limine.c.
--   Keyboard.Codes      the key codes of kernel/src/iodev/hid/kbd.h.
--   Keyboard.Scancodes  ps2_translate_keycode, Keyboard.Ps2 the interrupt handler, both of
--                       kernel/src/iodev/hid/ps2/ps2_kbd.c, with hid_register_keystroke of hid.c.
--   Keyboard.KeyBuffer  kb_man and __kb_man_save_key of kernel/src/proc/calls/handlers/kb_man.c.
--   Tasks               kernel/src/proc/task/task.c: the list of tasks and the calls on it.
--   Vectors             kernel/src/cpu/interrupts/idt.c: the gates and the allocation of vectors.
--                       Vectors.Given is about what is given out in the course of calls.
--   Strings             kernel/src/extra/std: strlen, strcpy, strcat, strcmp, memcmp and strncmp.
--                       LittleEndian has words of several bytes in that memory.
--   Elf                 kernel/src/proc/loader/elf.c, the loader of programs. Elf.Segments is about
--                       elf_load_segment, Elf.Magic about the test of the magic number.
--   Gdt                 kernel/src/cpu/gdt/gdt.c, the table of segment descriptors as its bytes.
--   Tss                 kernel/src/cpu/tss/tss.c, with stacks from pmm_alloc_pool and a descriptor of
--                       Gdt; Tss.Installed is about tss_install.
--   Framebuffer         fb_req.c, rdinfo.c and pid.c of kernel/src/proc/calls/handlers.
--   Itoa                kernel/src/extra/itoa.c: utoa and itoa. Digits is the text of a number and the
--                       number of a text, Widths the count of digits, Writing the loops that write
--                       them, RoundTrip the two functions.
--   Serial.Shell        kernel/src/iodev/uart/shell.c, the debug shell. Commands has the commands and
--                       handle_character; Keeping and Bounds are about what the shell writes to, Line
--                       and Typing about the line in its buffer, Matching about the names of the
--                       commands, Finalize and Answers about a whole line.
--   Acpi                kernel/src/iodev/acpi/tables/tables.c: acpi_get_table, on strlen and strncmp
--                       of Strings. Acpi.Tables has the list of tables that it searches.
--   Pci                 kernel/src/iodev/pci/confrw.c: the cache of functions, found through
--                       acpi_get_table, and the reads and writes; Pci.Devices is find_device of
--                       find.c, Pci.Cache about the cache and Pci.Space about reads and writes.
--   Prism.Tables        apps/frames/prism/src/kbd/tables.c, Prism.Decode kbd_char_decode and
--                       Prism.Listeners the rest of apps/frames/prism/src/kbd/kbd.c.
--
-- State is passed explicitly. A C function that may read or write where it has no right to returns an
-- Option, and `none` is that access. 64-bit sums, differences and products wrap around. Addresses are
-- numbers, and 0 is NULL; the heap's headers are nodes at addresses, so that two pointers may name the
-- same one. Calls into other parts, such as the mapping of pages, are logged.
--
-- The loops of malloc run on fuel: `rounds` bounds the segments that one search passes and `tries` how
-- often malloc calls itself. A round for each segment and two more, and three calls, are enough on
-- every sound heap. pmm_recombine takes a round more than there are sections, and pmm_free_page and
-- pmm_lock_page a round for each section before the page's and two more. paging_map_page takes a round
-- for each call of itself, and one where no table is missing. The string functions take a round for
-- each character and one more. The bounds below 2 ^ 62 keep the signed comparison of header_split away
-- from its sign.
--
-- acpi_get_table takes a round for each table, and four more for the length of the name; loading the
-- cache of PCI functions one more than there are MCFG entries, of which from 2 ^ 16 on no number is
-- enough; utoa takes a round for each binary digit of the value at most, so that 64 are enough.
--
-- Not modelled: the drivers of disk, timers and interrupt controllers, the messages of exceptions,
-- printf, and drawing. The dumps that the shell calls are an argument of it. Device ports are an
-- argument of the handler or a call in its log. The accesses of PCI configuration space go to a device
-- that is an argument, and the records of the page allocator's pools come from a heap that is
-- one; Pmm.KernelHeap is the kernel's. A page table of a new task is an argument of
-- task_create_new.
pub mod Acpi
pub mod Base
pub mod Boot
pub mod Elf
pub mod Framebuffer
pub mod Gdt
pub mod Heap
pub mod Itoa
pub mod Keyboard
pub mod Linked
pub mod LittleEndian
pub mod Paging
pub mod Pci
pub mod Pmm
pub mod Prism
pub mod Serial
pub mod Strings
pub mod Tasks
pub mod Tss
pub mod Vectors
