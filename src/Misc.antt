-- ===== src/Misc.antt =====
-- src/misc.c: masks and channel names.
pub mod Mask
pub mod Create
pub mod Text
