-- ===== src/Utils/Mfclassic.antt =====
-- The blocks of a MIFARE Classic card, from utils/nfc-mfclassic.c: sectors of 4 blocks up to block
-- 128 and of 16 blocks from there on; the last block of a sector is its trailer, with the keys.
pub mod Laws
pub mod State
pub mod Card
use libnfc.Prelude.{ℕ, ◌+◌, ◌-◌, ◌%◌, ◌^◌, Bool, ltb, ◌==◌, if◌then◌else◌}

unfoldable pub is_first_block : ℕ → Bool
is_first_block block = if ltb block 128 then block % 4 == 0 else block % 16 == 0

unfoldable pub is_trailer_block : ℕ → Bool
is_trailer_block block =
    if ltb block 128 then (block + 1) % 2 ^ 32 % 4 == 0 else (block + 1) % 2 ^ 32 % 16 == 0

unfoldable pub get_trailer_block : ℕ → ℕ
get_trailer_block first_block =
    if ltb first_block 128
    then (first_block + (3 - first_block % 4)) % 2 ^ 32
    else (first_block + (15 - first_block % 16)) % 2 ^ 32
