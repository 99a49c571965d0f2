-- ===== src/Keyboard.antt =====
-- The kernel's keyboard: the PS/2 driver that assembles scancodes into key codes
-- (kernel/src/iodev/hid/ps2/ps2_kbd.c, iodev/hid/hid.c), and the one page buffer of key codes that
-- a process can hold (kernel/src/proc/calls/handlers/kb_man.c).
pub mod Codes
pub mod Scancodes
pub mod Ps2
pub mod KeyBuffer
