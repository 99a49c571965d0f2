-- ===== src/Keyboard/Scancodes/Press.antt =====
-- The cases of `ps2_translate_keycode` for keys that go down, kernel/src/iodev/hid/ps2/ps2_kbd.c.
use skylight.Base.{ℕ, List, [], ◌∷◌}
use skylight.Keyboard.Codes.{
  code, f9, f5, f3, f1, f2, f12, f10, f8, f6, f4, tab, backtick, left_alt, left_shift, left_ctrl,
  char_q, num1, char_z, char_s, char_a, char_w, num2, char_c, char_x, char_d, char_e, num4, num3,
  space, char_v, char_f, char_t, char_r, num5, char_n, char_b, char_h, char_g, char_y, num6, char_m,
  char_j, char_u, num7, num8, comma, char_k, char_i, char_o, num0, num9, period, slash, char_l,
  semicolon, char_p, minus, singlequote, lbracket, equals, capslock, right_shift, enter, rbracket,
  backslash, backspace, kp_1, kp_4, kp_7, kp_0, kp_period, kp_2, kp_5, kp_6, kp_8, escape, numlock,
  f11, kp_plus, kp_3, kp_minus, kp_asterisk, kp_9, scrolllock, f7, media_search, right_alt,
  right_ctrl, track_prev, media_favs, super, www_refresh, volume_down, media_mute, www_stop,
  media_calc, media_apps, www_forward, volume_up, media_playpause, acpi_power, www_back, www_home,
  media_stop, acpi_sleep, media_mypc, media_mail, kp_slash, track_next, media_select, kp_enter,
  acpi_wake, end, left, home, insert, delete, down, right, up, pagedown, pageup,
}

-- Scancodes of one byte.
abbrev pub pressed : List (ℕ × ℕ)
pressed =
    (0x01, code f9)
    ∷ (0x03, code f5)
    ∷ (0x04, code f3)
    ∷ (0x05, code f1)
    ∷ (0x06, code f2)
    ∷ (0x07, code f12)
    ∷ (0x09, code f10)
    ∷ (0x0a, code f8)
    ∷ (0x0b, code f6)
    ∷ (0x0c, code f4)
    ∷ (0x0d, code tab)
    ∷ (0x0e, code backtick)
    ∷ (0x11, code left_alt)
    ∷ (0x12, code left_shift)
    ∷ (0x14, code left_ctrl)
    ∷ (0x15, code char_q)
    ∷ (0x16, code num1)
    ∷ (0x1a, code char_z)
    ∷ (0x1b, code char_s)
    ∷ (0x1c, code char_a)
    ∷ (0x1d, code char_w)
    ∷ (0x1e, code num2)
    ∷ (0x21, code char_c)
    ∷ (0x22, code char_x)
    ∷ (0x23, code char_d)
    ∷ (0x24, code char_e)
    ∷ (0x25, code num4)
    ∷ (0x26, code num3)
    ∷ (0x29, code space)
    ∷ (0x2a, code char_v)
    ∷ (0x2b, code char_f)
    ∷ (0x2c, code char_t)
    ∷ (0x2d, code char_r)
    ∷ (0x2e, code num5)
    ∷ (0x31, code char_n)
    ∷ (0x32, code char_b)
    ∷ (0x33, code char_h)
    ∷ (0x34, code char_g)
    ∷ (0x35, code char_y)
    ∷ (0x36, code num6)
    ∷ (0x3a, code char_m)
    ∷ (0x3b, code char_j)
    ∷ (0x3c, code char_u)
    ∷ (0x3d, code num7)
    ∷ (0x3e, code num8)
    ∷ (0x41, code comma)
    ∷ (0x42, code char_k)
    ∷ (0x43, code char_i)
    ∷ (0x44, code char_o)
    ∷ (0x45, code num0)
    ∷ (0x46, code num9)
    ∷ (0x49, code period)
    ∷ (0x4a, code slash)
    ∷ (0x4b, code char_l)
    ∷ (0x4c, code semicolon)
    ∷ (0x4d, code char_p)
    ∷ (0x4e, code minus)
    ∷ (0x52, code singlequote)
    ∷ (0x54, code lbracket)
    ∷ (0x55, code equals)
    ∷ (0x58, code capslock)
    ∷ (0x59, code right_shift)
    ∷ (0x5a, code enter)
    ∷ (0x5b, code rbracket)
    ∷ (0x5d, code backslash)
    ∷ (0x66, code backspace)
    ∷ (0x69, code kp_1)
    ∷ (0x6b, code kp_4)
    ∷ (0x6c, code kp_7)
    ∷ (0x70, code kp_0)
    ∷ (0x71, code kp_period)
    ∷ (0x72, code kp_2)
    ∷ (0x73, code kp_5)
    ∷ (0x74, code kp_6)
    ∷ (0x75, code kp_8)
    ∷ (0x76, code escape)
    ∷ (0x77, code numlock)
    ∷ (0x78, code f11)
    ∷ (0x79, code kp_plus)
    ∷ (0x7a, code kp_3)
    ∷ (0x7b, code kp_minus)
    ∷ (0x7c, code kp_asterisk)
    ∷ (0x7d, code kp_9)
    ∷ (0x7e, code scrolllock)
    ∷ (0x83, code f7)
    ∷ []

-- Scancodes of two bytes, the first `0xe0`.
abbrev pub extended_pressed : List (ℕ × ℕ)
extended_pressed =
    (0xe010, code media_search)
    ∷ (0xe011, code right_alt)
    ∷ (0xe014, code right_ctrl)
    ∷ (0xe015, code track_prev)
    ∷ (0xe018, code media_favs)
    ∷ (0xe01f, code super)
    ∷ (0xe020, code www_refresh)
    ∷ (0xe021, code volume_down)
    ∷ (0xe023, code media_mute)
    ∷ (0xe027, code super)
    ∷ (0xe028, code www_stop)
    ∷ (0xe02b, code media_calc)
    ∷ (0xe02f, code media_apps)
    ∷ (0xe030, code www_forward)
    ∷ (0xe032, code volume_up)
    ∷ (0xe034, code media_playpause)
    ∷ (0xe037, code acpi_power)
    ∷ (0xe038, code www_back)
    ∷ (0xe03a, code www_home)
    ∷ (0xe03b, code media_stop)
    ∷ (0xe03f, code acpi_sleep)
    ∷ (0xe040, code media_mypc)
    ∷ (0xe048, code media_mail)
    ∷ (0xe04a, code kp_slash)
    ∷ (0xe04d, code track_next)
    ∷ (0xe050, code media_select)
    ∷ (0xe05a, code kp_enter)
    ∷ (0xe05e, code acpi_wake)
    ∷ (0xe069, code end)
    ∷ (0xe06b, code left)
    ∷ (0xe06c, code home)
    ∷ (0xe070, code insert)
    ∷ (0xe071, code delete)
    ∷ (0xe072, code down)
    ∷ (0xe074, code right)
    ∷ (0xe075, code up)
    ∷ (0xe07a, code pagedown)
    ∷ (0xe07d, code pageup)
    ∷ []
