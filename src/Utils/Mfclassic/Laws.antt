-- ===== src/Utils/Mfclassic/Laws.antt =====
-- Which trailer belongs to a block, and where sectors begin.
use libnfc.Prelude.{ℕ, ◌+◌, ◌≤◌, ◌<◌, ◌^◌, ◌≡◌, arith, true, false}
use libnfc.Utils.Mfclassic.{is_first_block, is_trailer_block, get_trailer_block}

-- For block numbers below 2 ^ 31, the block from which the keys of a block are taken is the first trailer at or after that block:
-- it is a trailer, and no block from the given one up to it is.
get_trailer_block-is_trailer_block :
    (block k : ℕ)
    → block < 2 ^ 31
    → block ≤ k
    → k < get_trailer_block block
    → (is_trailer_block (get_trailer_block block) ≡ true)
      × (block ≤ get_trailer_block block)
      × (is_trailer_block k ≡ false)
unfolding is_trailer_block get_trailer_block
get_trailer_block-is_trailer_block block k small from below =
    (ground arith, ground arith, ground arith)

-- For block numbers below 2 ^ 31, the block after a trailer is the first block of a sector, and no
-- other block is.
is_first_block-suc :
    (block : ℕ) → block < 2 ^ 31 → is_first_block (block + 1) ≡ is_trailer_block block
unfolding is_first_block is_trailer_block
is_first_block-suc block small = ground arith
