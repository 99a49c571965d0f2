-- ===== src/Keyboard/Scancodes/Release.antt =====
-- The cases of `ps2_translate_keycode` for keys that go up, and for the keys with long sequences,
-- kernel/src/iodev/hid/ps2/ps2_kbd.c.
use skylight.Base.{ℕ, List, [], ◌∷◌}
use skylight.Keyboard.Codes.{
  code, released_code, f9, f5, f3, f1, f2, f12, f10, f8, f6, f4, tab, backtick, left_alt,
  left_shift, left_ctrl, char_q, num1, char_z, char_s, char_a, char_w, num2, char_c, char_x, char_d,
  char_e, num4, num3, space, char_v, char_f, char_t, char_r, num5, char_n, char_b, char_h, char_g,
  char_y, num6, char_m, char_j, char_u, num7, num8, comma, char_k, char_i, char_o, num0, num9,
  period, slash, char_l, semicolon, char_p, minus, singlequote, lbracket, equals, capslock,
  right_shift, enter, rbracket, backslash, backspace, kp_1, kp_4, kp_7, kp_0, kp_period, kp_2, kp_5,
  kp_6, kp_8, escape, numlock, f11, kp_plus, kp_3, kp_minus, kp_asterisk, kp_9, scrolllock, f7,
  media_search, right_alt, right_ctrl, track_prev, media_favs, super, www_refresh, volume_down,
  media_mute, www_stop, media_calc, media_apps, www_forward, volume_up, media_playpause, acpi_power,
  www_back, www_home, media_stop, acpi_sleep, media_mypc, media_mail, kp_slash, track_next,
  media_select, kp_enter, acpi_wake, end, left, home, insert, delete, down, right, up, pagedown,
  pageup, printscreen, pause,
}

-- Scancodes of two bytes, the first `0xf0`.
abbrev pub released : List (ℕ × ℕ)
released =
    (0xf001, released_code f9)
    ∷ (0xf003, released_code f5)
    ∷ (0xf004, released_code f3)
    ∷ (0xf005, released_code f1)
    ∷ (0xf006, released_code f2)
    ∷ (0xf007, released_code f12)
    ∷ (0xf009, released_code f10)
    ∷ (0xf00a, released_code f8)
    ∷ (0xf00b, released_code f6)
    ∷ (0xf00c, released_code f4)
    ∷ (0xf00d, released_code tab)
    ∷ (0xf00e, released_code backtick)
    ∷ (0xf011, released_code left_alt)
    ∷ (0xf012, released_code left_shift)
    ∷ (0xf014, released_code left_ctrl)
    ∷ (0xf015, released_code char_q)
    ∷ (0xf016, released_code num1)
    ∷ (0xf01a, released_code char_z)
    ∷ (0xf01b, released_code char_s)
    ∷ (0xf01c, released_code char_a)
    ∷ (0xf01d, released_code char_w)
    ∷ (0xf01e, released_code num2)
    ∷ (0xf021, released_code char_c)
    ∷ (0xf022, released_code char_x)
    ∷ (0xf023, released_code char_d)
    ∷ (0xf024, released_code char_e)
    ∷ (0xf025, released_code num4)
    ∷ (0xf026, released_code num3)
    ∷ (0xf029, released_code space)
    ∷ (0xf02a, released_code char_v)
    ∷ (0xf02b, released_code char_f)
    ∷ (0xf02c, released_code char_t)
    ∷ (0xf02d, released_code char_r)
    ∷ (0xf02e, released_code num5)
    ∷ (0xf031, released_code char_n)
    ∷ (0xf032, released_code char_b)
    ∷ (0xf033, released_code char_h)
    ∷ (0xf034, released_code char_g)
    ∷ (0xf035, released_code char_y)
    ∷ (0xf036, released_code num6)
    ∷ (0xf03a, released_code char_m)
    ∷ (0xf03b, released_code char_j)
    ∷ (0xf03c, released_code char_u)
    ∷ (0xf03d, released_code num7)
    ∷ (0xf03e, released_code num8)
    ∷ (0xf041, released_code comma)
    ∷ (0xf042, released_code char_k)
    ∷ (0xf043, released_code char_i)
    ∷ (0xf044, released_code char_o)
    ∷ (0xf045, released_code num0)
    ∷ (0xf046, released_code num9)
    ∷ (0xf049, released_code period)
    ∷ (0xf04a, released_code slash)
    ∷ (0xf04b, released_code char_l)
    ∷ (0xf04c, released_code semicolon)
    ∷ (0xf04d, released_code char_p)
    ∷ (0xf04e, released_code minus)
    ∷ (0xf052, released_code singlequote)
    ∷ (0xf054, released_code lbracket)
    ∷ (0xf055, released_code equals)
    ∷ (0xf058, released_code capslock)
    ∷ (0xf059, released_code right_shift)
    ∷ (0xf05a, released_code enter)
    ∷ (0xf05b, released_code rbracket)
    ∷ (0xf05d, released_code backslash)
    ∷ (0xf066, released_code backspace)
    ∷ (0xf069, released_code kp_1)
    ∷ (0xf06b, released_code kp_4)
    ∷ (0xf06c, released_code kp_7)
    ∷ (0xf070, released_code kp_0)
    ∷ (0xf071, released_code kp_period)
    ∷ (0xf072, released_code kp_2)
    ∷ (0xf073, released_code kp_5)
    ∷ (0xf074, released_code kp_6)
    ∷ (0xf075, released_code kp_8)
    ∷ (0xf076, released_code escape)
    ∷ (0xf077, released_code numlock)
    ∷ (0xf078, released_code f11)
    ∷ (0xf079, released_code kp_plus)
    ∷ (0xf07a, released_code kp_3)
    ∷ (0xf07b, released_code kp_minus)
    ∷ (0xf07c, released_code kp_asterisk)
    ∷ (0xf07d, released_code kp_9)
    ∷ (0xf07e, released_code scrolllock)
    ∷ (0xf083, released_code f7)
    ∷ []

-- Scancodes of three bytes, which begin `0xe0 0xf0`.
abbrev pub extended_released : List (ℕ × ℕ)
extended_released =
    (0xe0f010, released_code media_search)
    ∷ (0xe0f011, released_code right_alt)
    ∷ (0xe0f014, released_code right_ctrl)
    ∷ (0xe0f015, released_code track_prev)
    ∷ (0xe0f018, released_code media_favs)
    ∷ (0xe0f01f, released_code super)
    ∷ (0xe0f020, released_code www_refresh)
    ∷ (0xe0f021, released_code volume_down)
    ∷ (0xe0f023, released_code media_mute)
    ∷ (0xe0f027, released_code super)
    ∷ (0xe0f028, released_code www_stop)
    ∷ (0xe0f02b, released_code media_calc)
    ∷ (0xe0f02f, released_code media_apps)
    ∷ (0xe0f030, released_code www_forward)
    ∷ (0xe0f032, released_code volume_up)
    ∷ (0xe0f034, released_code media_playpause)
    ∷ (0xe0f037, released_code acpi_power)
    ∷ (0xe0f038, released_code www_back)
    ∷ (0xe0f03a, released_code www_home)
    ∷ (0xe0f03b, released_code media_stop)
    ∷ (0xe0f03f, released_code acpi_sleep)
    ∷ (0xe0f040, released_code media_mypc)
    ∷ (0xe0f048, released_code media_mail)
    ∷ (0xe0f04a, released_code kp_slash)
    ∷ (0xe0f04d, released_code track_next)
    ∷ (0xe0f050, released_code media_select)
    ∷ (0xe0f05a, released_code kp_enter)
    ∷ (0xe0f05e, released_code acpi_wake)
    ∷ (0xe0f069, released_code end)
    ∷ (0xe0f06b, released_code left)
    ∷ (0xe0f06c, released_code home)
    ∷ (0xe0f070, released_code insert)
    ∷ (0xe0f071, released_code delete)
    ∷ (0xe0f072, released_code down)
    ∷ (0xe0f074, released_code right)
    ∷ (0xe0f075, released_code up)
    ∷ (0xe0f07a, released_code pagedown)
    ∷ (0xe0f07d, released_code pageup)
    ∷ []

-- The sequences of the print screen and pause keys.
abbrev pub sequences : List (ℕ × ℕ)
sequences =
    (0xe012e07c, code printscreen)
    ∷ (0xe0f07ce0f012, released_code printscreen)
    ∷ (0xe11477e1f014f077, code pause)
    ∷ []
