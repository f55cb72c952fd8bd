-- ===== src/Pn53x/Initiator.antt =====
-- `pn53x_initiator_transceive_bytes` and `pn53x_initiator_transceive_bits` of libnfc/chips/pn53x.c:
-- an exchange with a target through the chip.
pub mod Bounds
mod Tests
use libnfc.Prelude.{
  ℕ, zero, suc, ◌+◌, ◌-◌, ◌*◌, ◌/◌, ◌%◌, ◌^◌, Bool, true, false, not, ◌&&◌, Option, none, some,
}
use libnfc.Prelude.{List, [], ◌∷◌, ◌++◌, ltb, leb, ◌==◌, if◌then◌else◌, length, take, drop, bit_and}
use libnfc.Prelude.Int.{ℤ, pos, negsuc, is_neg, to_size}
use libnfc.Pn53x.Device.{Device, nfc_einvarg, nfc_eovflow}
use libnfc.Pn53x.Framing.{wrap_frame, unwrap_frame}
use libnfc.Pn53x.Monad.{M, crash, ◌>>=◌, ◌>>◌, return, get, modify, Reply, Transceive}
use libnfc.Pn53x.Properties.{set_tx_bits, ciu_control}
use libnfc.Pn53x.Registers.{read_register, max_data}

-- `(int)((size_t)res - 1)` for a count of bytes `res`.
abbrev pub less_one : ℕ → ℤ
less_one zero = negsuc 0
less_one (suc n) = pos n

-- A `size_t` below zero is huge.
abbrev pub wrap : ℕ → ℕ
wrap n = n % 2 ^ 64

-- A `size_t` returned as an `int`.
abbrev pub to_int : ℕ → ℤ
to_int n = if ltb (n % 2 ^ 32) (2 ^ 31) then pos (n % 2 ^ 32) else negsuc (2 ^ 32 - 1 - n % 2 ^ 32)

-- `n` bytes of 0x00 from which `abtCmd + 1` starts.
abbrev pub zeros : ℕ → List ℕ
zeros zero = []
zeros (suc n) = 0x00 ∷ zeros n

module _ {W : Type 0} (transceive : Transceive W) where
  -- `pnd->last_error = res; return pnd->last_error;`
  unfoldable pub fail_with : ℤ → M W Reply
  fail_with res = do modify (λ d. record d { last_error = res }); return (res, [])

  -- The end of `pn53x_initiator_transceive_bytes`: `rx` starts with the status byte. `capacity` is
  -- `szRx`, or `none` for a NULL `pbtRx`.
  unfoldable pub copy_answer : Option ℕ → ℕ → List ℕ → M W Reply
  copy_answer none res rx = return (less_one res, [])
  copy_answer (some capacity) res rx =
      let count = wrap (res + 2 ^ 64 - 1) in
      if ltb capacity count
      then return (nfc_eovflow, [])
      else return (pos count, take count (drop 1 rx))

  -- InDataExchange with target 1, or InCommunicateThru. A command of more than 264 bytes writes past
  -- `abtCmd`.
  unfoldable pub transceive_bytes : List ℕ → Option ℕ → ℤ → M W Reply
  unfolding copy_answer fail_with
  transceive_bytes tx capacity timeout = do
    d ← get
    let cmd = if d.easy_framing then 0x40 ∷ 0x01 ∷ tx else 0x42 ∷ tx
    if not d.par then fail_with nfc_einvarg else if ltb max_data (length cmd) then crash else (do
      reset ← set_tx_bits transceive 0
      if is_neg reset then fail_with reset else (do
        (res, rx) ← transceive cmd max_data timeout
        if is_neg res then fail_with res else copy_answer capacity (to_size res) rx))

  -- The frame that goes behind the command code, and its number of bits; `aborted` stands for a read
  -- or write past a buffer.
  unfoldable pub outgoing : List ℕ → List ℕ → ℕ → M W (ℤ × List ℕ)
  outgoing tx tx_par bits = do
    d ← get
    if d.par
        then (if leb ((bits + 7) / 8) (length tx)
            then return (pos bits, take ((bits + 7) / 8) tx)
            else crash)
        else (elim (wrap_frame tx tx_par bits (zeros (max_data - 1))) [
          | none ↦ crash
          | some framed ↦ return framed
        ])

  -- The end of `pn53x_initiator_transceive_bits`, from the count of bits in the last byte on. `junk`
  -- is what stands in `abtRx` behind the bytes received. The last two lists are `pbtRx` and
  -- `pbtRxPar`, from before the call.
  unfoldable pub incoming :
      ℕ
      → ℕ
      → List ℕ
      → List ℕ
      → Option (List ℕ)
      → Option (List ℕ)
      → M W (ℤ × Option (List ℕ) × Option (List ℕ))
  incoming last_bits size rx junk none out_par = return (pos 0, none, out_par)
  incoming last_bits size rx junk (some out) out_par = do
    d ← get
    let count = wrap (size + 2 ^ 64 - 1 - (if last_bits == 0 then 0 else 1))
    let frame_bits = wrap (count * 8 + last_bits)
    if d.par
        then (if ltb 0 size && leb (size - 1) (length out)
            then return (
              to_int frame_bits,
              some (take (size - 1) (drop 1 rx) ++ drop (size - 1) out),
              out_par,
            )
            else crash)
        else (elim (unwrap_frame (take (max_data - 1) (drop 1 rx ++ junk)) frame_bits out out_par) [
          | none ↦ crash
          | some (res, out', out_par') ↦ return (res, some out', out_par')
        ])

  unfoldable pub transceive_bits :
      List ℕ
      → List ℕ
      → ℕ
      → List ℕ
      → Option (List ℕ)
      → Option (List ℕ)
      → M W (ℤ × Option (List ℕ) × Option (List ℕ))
  unfolding outgoing incoming
  transceive_bits tx tx_par bits junk out out_par = do
    (framed, frame) ← outgoing tx tx_par bits
    let frame_bits = to_size framed
    let last = frame_bits % 8
    let frame_bytes = frame_bits / 8 + (if last == 0 then 0 else 1)
    if is_neg framed then return (framed, out, out_par) else (do
      set ← set_tx_bits transceive last
      if is_neg set then return (set, out, out_par) else (do
        (res, rx) ← transceive (0x42 ∷ take frame_bytes frame) max_data (negsuc 0)
        if is_neg res then return (res, out, out_par) else (do
          (read, control) ← read_register transceive ciu_control
          if is_neg read
              then return (read, out, out_par)
              else incoming (bit_and control 0x07) (to_size res) rx junk out out_par)))
