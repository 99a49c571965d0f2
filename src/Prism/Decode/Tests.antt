-- ===== src/Prism/Decode/Tests.antt =====
-- Examples for `kbd_char_decode`.
