-- ===== src/Pn53x/Timed.antt =====
-- The exchanges of libnfc/chips/pn53x.c that measure their time with the chip's timer:
-- `pn53x_initiator_transceive_bytes_timed` and `pn53x_initiator_transceive_bits_timed`. They work on the
-- registers of the chip's FIFO. The prescaler of the timer is set anew by each, and is an argument of
-- the steps behind; so is the correction of the timer, which the drivers set and which is not negative.
pub mod Laws
mod Tests
use libnfc.Prelude.{
  ℕ, zero, suc, ◌+◌, ◌-◌, ◌*◌, ◌/◌, ◌%◌, ◌^◌, Bool, true, false, not, List, [], ◌∷◌, ◌++◌,
}
use libnfc.Prelude.{
  ltb, leb, ◌==◌, if◌then◌else◌, length, take, drop, get_or, get_elem?, bit_and, bit_or, bit_xor,
}
use libnfc.Prelude.{Option, none, some}
use libnfc.Prelude.Int.{ℤ, pos, negsuc, is_neg}
use libnfc.Iso14443.Crc.{crc_append}
use libnfc.Pn53x.Device.{Device, Pn53xType, pn531, pn533, nfc_einvarg, nfc_enotimpl}
use libnfc.Pn53x.Monad.{M, ◌>>=◌, ◌>>◌, return, get, modify, crash, need, out_of_fuel, Transceive}
use libnfc.Pn53x.Registers.{
  read_register, write_register, read_register_code, write_register_code, max_data,
}

-- The registers of the timer.
abbrev pub ciu_t_mode : ℕ
ciu_t_mode = 0x631a

abbrev pub ciu_t_prescaler : ℕ
ciu_t_prescaler = 0x631b

abbrev pub ciu_t_reload_val_hi : ℕ
ciu_t_reload_val_hi = 0x631c

abbrev pub ciu_t_reload_val_lo : ℕ
ciu_t_reload_val_lo = 0x631d

-- The registers of the FIFO, as the two bytes of their addresses.
abbrev pub t_counter : List ℕ
t_counter = 0x63 ∷ 0x1e ∷ 0x63 ∷ 0x1f ∷ []

abbrev pub ciu_fifo_level : ℕ
ciu_fifo_level = 0x633a

abbrev pub is_pn531 : Pn53xType → Bool
is_pn531 pn531 = true
is_pn531 _ = false

-- The status byte that a PN533 puts in front.
abbrev pub status_bytes : Pn53xType → ℕ
status_bytes pn533 = 1
status_bytes _ = 0

-- The prescaler for a count of cycles, a `uint32_t`.
unfoldable pub prescaler_for : ℕ → ℕ
prescaler_for max_cycles = if ltb 0xffff max_cycles then (max_cycles / 0xffff - 1) / 2 else 0

-- Whether the last parity bit that was sent is 1.
unfoldable pub last_parity : ℕ → Bool
last_parity byte =
    let bit = λ (k : ℕ). bit_and (byte / 2 ^ k) 1 in
    bit_xor (byte / 2 ^ 7) (
      bit_xor (bit 6) (
        bit_xor (bit 5)
          (bit_xor (bit 4) (bit_xor (bit 3) (bit_xor (bit 2) (bit_xor (bit 1) (bit 0)))))))
    == 0

-- The time for a state of the counter. A `uint32_t` wraps around.
unfoldable pub cycles_of : Pn53xType → ℕ → ℕ → ℕ → ℕ → ℕ
unfolding last_parity
cycles_of type prescaler correction counter last =
    let counted = (0xffff - counter) * (prescaler * 2 + 1) + 1 in
    let detected = counted + 2 ^ 32 - (if is_pn531 type then 2 * 128 else 5 * 128) in
    if counter == 0
    then 0xffffffff
    else (detected + (if last_parity last then 64 else 0) + correction) % 2 ^ 32

-- The loops of `BUFFER_APPEND` over the bytes for the FIFO.
unfoldable pub fifo_writes : List ℕ → List ℕ
fifo_writes [] = []
fifo_writes (x ∷ xs) = 0x63 ∷ 0x39 ∷ x ∷ fifo_writes xs

unfoldable pub fifo_reads : ℕ → List ℕ
fifo_reads zero = []
fifo_reads (suc n) = 0x63 ∷ 0x39 ∷ fifo_reads n

-- `abtWriteRegisterCmd`: the transceive command, the flush of the FIFO, the bytes, and the start.
unfoldable pub send_command : List ℕ → ℕ → List ℕ
unfolding fifo_writes
send_command tx last_bits =
    write_register_code
    ∷ 0x63
    ∷ 0x31
    ∷ 0x0c
    ∷ 0x63
    ∷ 0x3a
    ∷ 0x80
    ∷ (fifo_writes tx ++ 0x63 ∷ 0x3d ∷ bit_or 0x80 last_bits ∷ [])

-- `abtReadRegisterCmd`: as many bytes of the FIFO, and its level.
unfoldable pub receive_command : ℕ → List ℕ
unfolding fifo_reads
receive_command size = read_register_code ∷ (fifo_reads size ++ 0x63 ∷ 0x3a ∷ [])

-- `p[n - 1]` of `n` bytes.
abbrev pub last_of : Option (List ℕ) → Option ℕ
last_of none = none
last_of (some []) = none
last_of (some (x ∷ xs)) = get_elem? (x ∷ xs) (length xs)

module _ {W : Type 0} (transceive : Transceive W) where
  -- A call whose result is not looked at.
  abbrev ignore : {A : Type 0} → M W A → M W (Unit {0})
  ignore m = do ignored ← m; return tt

  -- `__pn53x_init_timer`, for the prescaler.
  unfoldable pub init_timer : ℕ → M W (Unit {0})
  init_timer prescaler = do
    ignore
        (write_register transceive ciu_t_mode 0xff (bit_or 0x80 (bit_and (prescaler / 2 ^ 8) 0x0f)))
    ignore (write_register transceive ciu_t_prescaler 0xff (bit_and prescaler 0xff))
    ignore (write_register transceive ciu_t_reload_val_hi 0xff 0xff)
    ignore (write_register transceive ciu_t_reload_val_lo 0xff 0xff)

  -- `__pn53x_get_timer`: its `return false` is a count of 0.
  unfoldable pub get_timer : ℕ → ℕ → ℕ → M W ℕ
  unfolding cycles_of
  get_timer prescaler correction last = do
    d ← get
    let off = status_bytes d.type
    (res, rx) ← transceive (read_register_code ∷ t_counter) max_data (negsuc 0)
    if is_neg res then return 0 else (do
      let counter = get_or rx off 0 * 2 ^ 8 + get_or rx (off + 1) 0
      return (cycles_of d.type prescaler correction counter last))

  -- The loop that waits for an answer. `i` is a `uint16_t`; `size` is `sz`, which an error leaves as it
  -- was.
  unfoldable pub wait_loop : ℕ → ℕ → ℕ → ℕ → M W ℕ
  wait_loop zero rounds i size = λ d. out_of_fuel
  wait_loop (suc fuel) rounds i size =
      let next = wait_loop fuel rounds ((i + 1) % 2 ^ 16) in
      if not (ltb i rounds) then return size else (do
        (res, level) ← read_register transceive ciu_fifo_level
        let size' = if is_neg res then size else level
        if ltb 0 size' then return size' else next size')

  -- The loop that empties the FIFO: the result, the content of `pbtRx` and `szRx`. A command of more
  -- than 264 bytes is written past its buffer.
  unfoldable pub read_loop : ℕ → ℕ → List ℕ → ℕ → M W (ℤ × List ℕ × ℕ)
  unfolding receive_command
  read_loop zero size out count = λ d. out_of_fuel
  read_loop (suc fuel) size out count =
      let next = read_loop fuel in
      if ltb max_data (length (receive_command size)) then crash else (do
        d ← get
        (res, rx) ← transceive (receive_command size) max_data (negsuc 0)
        if is_neg res then return (res, out, count) else (do
          let off = status_bytes d.type
          let out' = take count out ++ (take size (drop off rx) ++ drop (count + size) out)
          let count' = count + bit_and size 0x7f
          let size' = get_or rx (size + off) 0
          if size' == 0 then return (pos 0, out', count') else next size' out' count'))

  -- Both exchanges from the timer on. `fuel` bounds the loops; `junk` is `sz` before it is read; `last`
  -- is the last byte that is sent, or `none` where that is read outside of a buffer.
  -- The result, the content of `pbtRx`, the count of bytes, and `*cycles`.
  unfoldable pub timed : ℕ → ℕ → ℕ → ℕ → List ℕ → ℕ → Option ℕ → List ℕ → M W (ℤ × List ℕ × ℕ × ℕ)
  unfolding init_timer send_command wait_loop read_loop get_timer
  timed fuel junk correction cycles tx last_bits last out = do
    let prescaler = prescaler_for cycles
    init_timer prescaler
    if ltb max_data (length (send_command tx last_bits)) then crash else (do
      (sent, rx) ← transceive (send_command tx last_bits) 0 (negsuc 0)
      if is_neg sent then return (sent, out, 0, cycles) else (do
        size ← wait_loop fuel (3 * (prescaler * 2 + 1)) 0 junk
        (res, out', count) ← read_loop fuel size out 0
        if is_neg res then return (res, out', count, cycles) else (do
          byte ← need last
          measured ← get_timer prescaler correction byte
          return (pos count, out', count, measured))))

  abbrev refuse : ℤ → ℕ → List ℕ → M W (ℤ × List ℕ × ℕ)
  refuse e cycles out = do modify (λ d. record d { last_error = e }); return (e, out, cycles)

  -- `pn53x_initiator_transceive_bytes_timed`: the result, the content of `pbtRx`, and `*cycles`.
  unfoldable pub transceive_bytes_timed : ℕ → ℕ → ℕ → ℕ → List ℕ → List ℕ → M W (ℤ × List ℕ × ℕ)
  unfolding timed
  transceive_bytes_timed fuel junk correction cycles tx out = do
    d ← get
    if not d.par
        then refuse nfc_einvarg cycles out
        else if d.easy_framing
        then refuse nfc_enotimpl cycles out
        else (do
          let raw = if d.crc then crc_append (tx ++ 0 ∷ 0 ∷ []) (length tx) else some tx
          (res, out', count, measured) ← timed fuel junk correction cycles tx 0 (last_of raw) out
          return (res, out', measured))

  -- `pn53x_initiator_transceive_bits_timed`. A byte more than the bits fill is read from `pbtTx`.
  unfoldable pub transceive_bits_timed : ℕ → ℕ → ℕ → ℕ → List ℕ → ℕ → List ℕ → M W (ℤ × List ℕ × ℕ)
  unfolding timed
  transceive_bits_timed fuel junk correction cycles tx bits out = do
    d ← get
    if not d.par
        then refuse nfc_enotimpl cycles out
        else if d.easy_framing
        then refuse nfc_enotimpl cycles out
        else if d.crc
        then refuse nfc_enotimpl cycles out
        else if ltb (length tx) (bits / 8 + 1)
        then crash
        else (do
          (res, out', count, measured) ←
              timed fuel junk correction cycles (take (bits / 8 + 1) tx) (bits % 8)
                (get_elem? tx (bits / 8)) out
          if is_neg res
              then return (res, out', measured)
              else return (pos (count * 8), out', measured))
