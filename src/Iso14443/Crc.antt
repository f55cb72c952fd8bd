-- ===== src/Iso14443/Crc.antt =====
-- `iso14443a_crc` and `iso14443a_crc_append`.
pub mod Register
pub mod Laws
use libnfc.Prelude.{ℕ, suc, ◌+◌, ◌-◌, ◌*◌, ◌/◌, ◌%◌, ◌^◌, Option, none, some, List, [], ◌∷◌}
use libnfc.Prelude.{bit_and, bit_xor, leb, length, set, take, if◌then◌else◌}

-- One round of the loop: `bt` is the next byte, `crc` the `uint32_t wCrc`. The casts to `uint8_t`
-- are written as remainders.
unfoldable pub crc_update : ℕ → ℕ → ℕ
crc_update crc bt =
    let a = bit_xor bt (bit_and crc 0xff % 2 ^ 8) in
    let b = bit_xor a (a * 2 ^ 4) % 2 ^ 8 in
    bit_xor (bit_xor (bit_xor (crc / 2 ^ 8) (b * 2 ^ 8)) (b * 2 ^ 3)) (b / 2 ^ 4)

unfoldable pub crc_loop : ℕ → List ℕ → ℕ
crc_loop crc [] = crc
crc_loop crc (bt ∷ bts) = crc_loop (crc_update crc bt) bts

-- The two bytes that `iso14443a_crc` stores. The loop tests its count after the first round, so
-- with no data it runs past them: `none`.
unfoldable pub crc : List ℕ → Option (ℕ × ℕ)
unfolding crc_loop
crc [] = none
crc (bt ∷ bts) =
    let w = crc_loop 0x6363 (bt ∷ bts) in
    some (bit_and w 0xff % 2 ^ 8, bit_and (w / 2 ^ 8) 0xff % 2 ^ 8)

-- `iso14443a_crc_append(pbtData, szLen)` on the buffer behind `pbtData`: the bytes at `szLen` and
-- `szLen + 1` are overwritten. `none` is a write past the buffer, or no data.
unfoldable pub crc_append : List ℕ → ℕ → Option (List ℕ)
crc_append buf len = elim (crc (take len buf)) [
  | none ↦ none
  | some (lo, hi) ↦
      if leb (len + 2) (length buf) then some (set (set buf len lo) (len + 1) hi) else none
]
