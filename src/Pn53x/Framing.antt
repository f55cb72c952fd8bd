-- ===== src/Pn53x/Framing.antt =====
-- `pn53x_wrap_frame` and `pn53x_unwrap_frame` of libnfc/chips/pn53x.c: a frame on the air has a
-- parity bit behind each byte, and the chip takes it as bytes, so that the bits of the data move by
-- one place with each byte. A buffer is a list of its bytes; `none` is an access past its end.
pub mod Arith
pub mod Wrap
pub mod Unwrap
pub mod RoundTrip
mod Tests
use libnfc.Prelude.{ℕ, zero, suc, ◌+◌, ◌-◌, ◌*◌, ◌/◌, ◌%◌, ◌^◌, Option, none, some, List}
use libnfc.Prelude.{bit_and, bit_or, ltb, ◌==◌, if◌then◌else◌, length, get_elem?, set}
use libnfc.Prelude.Int.{ℤ, pos, negsuc}
pub use libnfc.Prelude.Options.{◌>>=◌}
use libnfc.Mirror.{mirror}

-- `buf[i] = v`
abbrev pub store : List ℕ → ℕ → ℕ → Option (List ℕ)
store buf i v = if ltb i (length buf) then some (set buf i v) else none

-- NFC_ECHIP
abbrev echip : ℤ
echip = negsuc 89

-- `btFrame |= (btData >> uiBitPos)`
abbrev pub fill : ℕ → ℕ → ℕ → ℕ
fill bit_pos frame_byte bt = bit_or frame_byte (bt / 2 ^ bit_pos)

-- `btFrame = (btData << (8 - uiBitPos)); btFrame |= ((par & 0x01) << (7 - uiBitPos));`
abbrev pub remain : ℕ → ℕ → ℕ → ℕ
remain bit_pos bt par =
    bit_or (bt * 2 ^ (8 - bit_pos) % 2 ^ 8) (bit_and par 0x01 * 2 ^ (7 - bit_pos))

-- The two nested loops of `pn53x_wrap_frame`, one round for each byte of data: `uiBitPos`,
-- `uiDataPos`, the offset of `pbtFrame`, `szBitsLeft`, `btFrame` and the frame. `fuel` bounds the
-- rounds.
module _ (tx tx_par : List ℕ) where
  pub wrap_loop : ℕ → ℕ → ℕ → ℕ → ℕ → ℕ → List ℕ → Option (List ℕ)
  wrap_loop zero bit_pos data_pos at left frame_byte frame = none
  wrap_loop (suc fuel) bit_pos data_pos at left frame_byte frame = do
    tx_byte ← get_elem? tx data_pos
    let bt = mirror tx_byte
    frame1 ← store frame at (mirror (fill bit_pos frame_byte bt))
    par ← get_elem? tx_par data_pos
    let rest = remain bit_pos bt par
    frame2 ← store frame1 (at + 1) (mirror rest)
    let next = wrap_loop fuel (bit_pos + 1) (data_pos + 1) (at + 1) (left - 8) rest frame2
    let next_group = wrap_loop fuel 0 (data_pos + 1) (at + 2) (left - 8) 0 frame2
    if ltb left 9 then some frame2 else if bit_pos == 7 then next_group else next

  -- The result, and the frame as the function leaves it. A round takes eight bits, so `szTxBits`
  -- rounds are enough.
  pub wrap_frame : ℕ → List ℕ → Option (ℤ × List ℕ)
  wrap_frame tx_bits frame =
      if tx_bits == 0
      then some (echip, frame)
      else if ltb tx_bits 9
      then (do b ← get_elem? tx 0; frame' ← store frame 0 b; some (pos tx_bits, frame'))
      else (do
        frame' ← wrap_loop tx_bits 0 0 0 tx_bits 0 frame
        some (pos (tx_bits + tx_bits / 8), frame'))

-- `btData`, from the two bytes of the frame that hold the byte of data.
abbrev pub gather : ℕ → ℕ → ℕ → ℕ
gather bit_pos b0 b1 = bit_or (mirror b0 * 2 ^ bit_pos % 2 ^ 8) (mirror b1 / 2 ^ (8 - bit_pos))

-- The parity bit behind it.
abbrev pub parity : ℕ → ℕ → ℕ
parity bit_pos b1 = bit_and (mirror b1 / 2 ^ (7 - bit_pos)) 0x01

-- `pbtRxPar` may be NULL, here `none`.
abbrev store_par : Option (List ℕ) → ℕ → ℕ → Option (Option (List ℕ))
store_par none i v = some none
store_par (some buf) i v = do buf' ← store buf i v; some (some buf')

-- The loops of `pn53x_unwrap_frame`: `uiBitPos`, `uiDataPos`, the offset of `pbtFramePos`,
-- `szBitsLeft`, and the two buffers.
module _ (frame : List ℕ) where
  pub unwrap_loop : ℕ → ℕ → ℕ → ℕ → ℕ → List ℕ → Option (List ℕ) → Option (List ℕ × Option (List ℕ))
  unwrap_loop zero bit_pos data_pos at left rx rx_par = none
  unwrap_loop (suc fuel) bit_pos data_pos at left rx rx_par = do
    b0 ← get_elem? frame (at + data_pos)
    b1 ← get_elem? frame (at + (data_pos + 1))
    rx' ← store rx data_pos (mirror (gather bit_pos b0 b1))
    rx_par' ← store_par rx_par data_pos (parity bit_pos b1)
    let next = unwrap_loop fuel (bit_pos + 1) (data_pos + 1) at (left - 9) rx' rx_par'
    let next_group = unwrap_loop fuel 0 (data_pos + 1) (at + 1) (left - 9) rx' rx_par'
    if ltb left 9 then some (rx', rx_par') else if bit_pos == 7 then next_group else next

  pub unwrap_frame : ℕ → List ℕ → Option (List ℕ) → Option (ℤ × List ℕ × Option (List ℕ))
  unwrap_frame frame_bits rx rx_par =
      if frame_bits == 0
      then some (echip, rx, rx_par)
      else if ltb frame_bits 9
      then (do b ← get_elem? frame 0; rx' ← store rx 0 b; some (pos frame_bits, rx', rx_par))
      else (do
        (rx', rx_par') ← unwrap_loop frame_bits 0 0 0 frame_bits rx rx_par
        some (pos (frame_bits - frame_bits / 9), rx', rx_par'))
