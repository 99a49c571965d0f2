-- ===== src/Prism.antt =====
-- The keyboard of the Prism frame, apps/frames/prism/src/kbd: the character of a key code under the
-- shift, caps lock and num lock states, and the listeners that key codes are handed to.
pub mod Tables
pub mod Decode
pub mod Listeners
