-- ===== src/Utils.antt =====
-- utils: the command-line tools around the library.
pub mod Mifare
pub mod Mfclassic
pub mod Mfultralight
