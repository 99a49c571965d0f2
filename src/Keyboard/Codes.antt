-- ===== src/Keyboard/Codes.antt =====
-- `enum HID_KERNEL_KEYCODE` of kernel/src/iodev/hid/kbd.h, the same as `enum KERNEL_KEYBOARD_CODES` of
-- apps/frames/prism/src/kbd/kbd.h. Two keys share the code 0x33.
use Prim.Native.Nat.{bit_or}
use skylight.Base.{ℕ}

pub data Keycode : Type 0 where
  null backtick num1 num2 num3 num4 num5 num6 : Keycode
  num7 num8 num9 num0 minus equals char_q char_w : Keycode
  char_e char_r char_t char_y char_u char_i char_o char_p : Keycode
  lbracket rbracket backslash char_a char_s char_d char_f char_g : Keycode
  char_h char_j char_k char_l semicolon singlequote char_z char_x : Keycode
  char_c char_v char_b char_n char_m comma period slash : Keycode
  space kp_slash kp_asterisk kp_minus kp_plus kp_7 kp_8 kp_9 : Keycode
  kp_4 kp_5 kp_6 kp_1 kp_2 kp_3 kp_0 kp_period : Keycode
  kp_enter enter tab backspace escape media_mypc left_shift right_shift : Keycode
  left_ctrl right_ctrl left_alt right_alt capslock scrolllock numlock insert : Keycode
  home pageup delete end pagedown up left down : Keycode
  right f1 f2 f3 f4 f5 f6 f7 : Keycode
  f8 f9 f10 f11 f12 printscreen pause super : Keycode
  menu media_www track_prev track_next media_favs volume_down volume_up media_mute : Keycode
  media_playpause media_stop www_forward www_back www_home www_stop www_refresh media_calc : Keycode
  media_mail media_select media_apps media_search acpi_power acpi_sleep acpi_wake reserved_low :
      Keycode
  reserved_high : Keycode

abbrev pub code : Keycode → ℕ
code null = 0x00
code backtick = 0x01
code num1 = 0x02
code num2 = 0x03
code num3 = 0x04
code num4 = 0x05
code num5 = 0x06
code num6 = 0x07
code num7 = 0x08
code num8 = 0x09
code num9 = 0x0a
code num0 = 0x0b
code minus = 0x0c
code equals = 0x0d
code char_q = 0x0e
code char_w = 0x0f
code char_e = 0x10
code char_r = 0x11
code char_t = 0x12
code char_y = 0x13
code char_u = 0x14
code char_i = 0x15
code char_o = 0x16
code char_p = 0x17
code lbracket = 0x18
code rbracket = 0x19
code backslash = 0x1a
code char_a = 0x1b
code char_s = 0x1c
code char_d = 0x1d
code char_f = 0x1e
code char_g = 0x1f
code char_h = 0x20
code char_j = 0x21
code char_k = 0x22
code char_l = 0x23
code semicolon = 0x24
code singlequote = 0x25
code char_z = 0x26
code char_x = 0x27
code char_c = 0x28
code char_v = 0x29
code char_b = 0x2a
code char_n = 0x2b
code char_m = 0x2c
code comma = 0x2d
code period = 0x2e
code slash = 0x2f
code space = 0x30
code kp_slash = 0x31
code kp_asterisk = 0x32
code kp_minus = 0x33
code kp_plus = 0x33
code kp_7 = 0x34
code kp_8 = 0x35
code kp_9 = 0x36
code kp_4 = 0x37
code kp_5 = 0x38
code kp_6 = 0x39
code kp_1 = 0x3a
code kp_2 = 0x3b
code kp_3 = 0x3c
code kp_0 = 0x3d
code kp_period = 0x3e
code kp_enter = 0x3f
code enter = 0x40
code tab = 0x41
code backspace = 0x42
code escape = 0x43
code media_mypc = 0x44
code left_shift = 0x45
code right_shift = 0x46
code left_ctrl = 0x47
code right_ctrl = 0x48
code left_alt = 0x49
code right_alt = 0x4a
code capslock = 0x4b
code scrolllock = 0x4c
code numlock = 0x4d
code insert = 0x4e
code home = 0x4f
code pageup = 0x50
code delete = 0x51
code end = 0x52
code pagedown = 0x53
code up = 0x54
code left = 0x55
code down = 0x56
code right = 0x57
code f1 = 0x58
code f2 = 0x59
code f3 = 0x5a
code f4 = 0x5b
code f5 = 0x5c
code f6 = 0x5d
code f7 = 0x5e
code f8 = 0x5f
code f9 = 0x60
code f10 = 0x61
code f11 = 0x62
code f12 = 0x63
code printscreen = 0x64
code pause = 0x65
code super = 0x66
code menu = 0x67
code media_www = 0x68
code track_prev = 0x69
code track_next = 0x6a
code media_favs = 0x6b
code volume_down = 0x6c
code volume_up = 0x6d
code media_mute = 0x6e
code media_playpause = 0x6f
code media_stop = 0x70
code www_forward = 0x71
code www_back = 0x72
code www_home = 0x73
code www_stop = 0x74
code www_refresh = 0x75
code media_calc = 0x76
code media_mail = 0x77
code media_select = 0x78
code media_apps = 0x79
code media_search = 0x7a
code acpi_power = 0x7b
code acpi_sleep = 0x7c
code acpi_wake = 0x7d
code reserved_low = 0x7e
code reserved_high = 0x7f

-- The highest bit is set if the key is released.
abbrev pub released_code : Keycode → ℕ
released_code k = bit_or 0x80 (code k)
