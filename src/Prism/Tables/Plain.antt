-- ===== src/Prism/Tables/Plain.antt =====
-- The character of each key without shift, apps/frames/prism/src/kbd/tables.c: byte values in the order of
-- the key codes, `kbd_key_ascii_…` of the source.
use skylight.Base.{ℕ, List, [], ◌∷◌}

abbrev pub ascii_default : List ℕ
ascii_default =
    0x0 ∷ 0x60 ∷ 0x31 ∷ 0x32 ∷ 0x33 ∷ 0x34 ∷ 0x35 ∷ 0x36 ∷ 0x37 ∷ 0x38 ∷ 0x39 ∷ 0x30 ∷ 0x2d ∷ 0x3d
    ∷ 0x71 ∷ 0x77 ∷ 0x65 ∷ 0x72 ∷ 0x74 ∷ 0x79 ∷ 0x75 ∷ 0x69 ∷ 0x6f ∷ 0x70 ∷ 0x5b ∷ 0x5d ∷ 0x5c
    ∷ 0x61 ∷ 0x73 ∷ 0x64 ∷ 0x66 ∷ 0x67 ∷ 0x68 ∷ 0x6a ∷ 0x6b ∷ 0x6c ∷ 0x3b ∷ 0x27 ∷ 0x7a ∷ 0x78
    ∷ 0x63 ∷ 0x76 ∷ 0x62 ∷ 0x6e ∷ 0x6d ∷ 0x2c ∷ 0x2e ∷ 0x2f ∷ 0x20 ∷ 0x0 ∷ 0x0 ∷ 0x0 ∷ 0x0 ∷ 0x0
    ∷ 0x0 ∷ 0x0 ∷ 0x0 ∷ 0x0 ∷ 0x0 ∷ 0x0 ∷ 0x0 ∷ 0x0 ∷ 0x0 ∷ 0x0 ∷ 0x0 ∷ 0xa ∷ 0x9 ∷ 0x8 ∷ []

abbrev pub ascii_numlock : List ℕ
ascii_numlock =
    0x0 ∷ 0x60 ∷ 0x31 ∷ 0x32 ∷ 0x33 ∷ 0x34 ∷ 0x35 ∷ 0x36 ∷ 0x37 ∷ 0x38 ∷ 0x39 ∷ 0x30 ∷ 0x2d ∷ 0x3d
    ∷ 0x71 ∷ 0x77 ∷ 0x65 ∷ 0x72 ∷ 0x74 ∷ 0x79 ∷ 0x75 ∷ 0x69 ∷ 0x6f ∷ 0x70 ∷ 0x5b ∷ 0x5d ∷ 0x5c
    ∷ 0x61 ∷ 0x73 ∷ 0x64 ∷ 0x66 ∷ 0x67 ∷ 0x68 ∷ 0x6a ∷ 0x6b ∷ 0x6c ∷ 0x3b ∷ 0x27 ∷ 0x7a ∷ 0x78
    ∷ 0x63 ∷ 0x76 ∷ 0x62 ∷ 0x6e ∷ 0x6d ∷ 0x2c ∷ 0x2e ∷ 0x2f ∷ 0x20 ∷ 0x2f ∷ 0x2a ∷ 0x2d ∷ 0x2b
    ∷ 0x37 ∷ 0x38 ∷ 0x39 ∷ 0x34 ∷ 0x35 ∷ 0x36 ∷ 0x31 ∷ 0x32 ∷ 0x33 ∷ 0x30 ∷ 0x2e ∷ 0xa ∷ 0xa ∷ 0x9
    ∷ 0x8 ∷ []

abbrev pub ascii_capslock : List ℕ
ascii_capslock =
    0x0 ∷ 0x60 ∷ 0x31 ∷ 0x32 ∷ 0x33 ∷ 0x34 ∷ 0x35 ∷ 0x36 ∷ 0x37 ∷ 0x38 ∷ 0x39 ∷ 0x30 ∷ 0x2d ∷ 0x3d
    ∷ 0x51 ∷ 0x57 ∷ 0x45 ∷ 0x52 ∷ 0x54 ∷ 0x59 ∷ 0x55 ∷ 0x49 ∷ 0x4f ∷ 0x50 ∷ 0x5b ∷ 0x5d ∷ 0x5c
    ∷ 0x41 ∷ 0x53 ∷ 0x44 ∷ 0x46 ∷ 0x47 ∷ 0x48 ∷ 0x4a ∷ 0x4b ∷ 0x4c ∷ 0x3b ∷ 0x27 ∷ 0x5a ∷ 0x58
    ∷ 0x43 ∷ 0x56 ∷ 0x42 ∷ 0x4e ∷ 0x4d ∷ 0x2c ∷ 0x2c ∷ 0x2f ∷ 0x20 ∷ 0x0 ∷ 0x0 ∷ 0x0 ∷ 0x0 ∷ 0x0
    ∷ 0x0 ∷ 0x0 ∷ 0x0 ∷ 0x0 ∷ 0x0 ∷ 0x0 ∷ 0x0 ∷ 0x0 ∷ 0x0 ∷ 0x0 ∷ 0x0 ∷ 0xa ∷ 0x9 ∷ 0x8 ∷ []

abbrev pub ascii_numlock_capslock : List ℕ
ascii_numlock_capslock =
    0x0 ∷ 0x60 ∷ 0x31 ∷ 0x32 ∷ 0x33 ∷ 0x34 ∷ 0x35 ∷ 0x36 ∷ 0x37 ∷ 0x38 ∷ 0x39 ∷ 0x30 ∷ 0x2d ∷ 0x3d
    ∷ 0x51 ∷ 0x57 ∷ 0x45 ∷ 0x52 ∷ 0x54 ∷ 0x59 ∷ 0x55 ∷ 0x49 ∷ 0x4f ∷ 0x50 ∷ 0x5b ∷ 0x5d ∷ 0x5c
    ∷ 0x41 ∷ 0x53 ∷ 0x44 ∷ 0x46 ∷ 0x47 ∷ 0x48 ∷ 0x4a ∷ 0x4b ∷ 0x4c ∷ 0x3b ∷ 0x27 ∷ 0x5a ∷ 0x58
    ∷ 0x43 ∷ 0x56 ∷ 0x42 ∷ 0x4e ∷ 0x4d ∷ 0x2c ∷ 0x2c ∷ 0x2f ∷ 0x20 ∷ 0x2f ∷ 0x2a ∷ 0x2d ∷ 0x2b
    ∷ 0x37 ∷ 0x38 ∷ 0x39 ∷ 0x34 ∷ 0x35 ∷ 0x36 ∷ 0x31 ∷ 0x32 ∷ 0x33 ∷ 0x30 ∷ 0x2e ∷ 0xa ∷ 0xa ∷ 0x9
    ∷ 0x8 ∷ []
