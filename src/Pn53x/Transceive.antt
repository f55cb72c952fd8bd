-- ===== src/Pn53x/Transceive.antt =====
-- `pn53x_transceive` of libnfc/chips/pn53x.c: a command goes to the chip, its answer comes back, and
-- the status byte of the answer becomes the result.
pub mod Status
pub mod Fuel
mod Tests
use libnfc.Prelude.{ℕ, zero, suc, ◌+◌, Bool, true, false, ◌&&◌, ◌||◌, not, Option, none, some}
use libnfc.Prelude.{List, [], ◌∷◌, ◌==◌, if◌then◌else◌, get_or, bit_and}
use libnfc.Prelude.Int.{ℤ, pos, negsuc, is_neg, to_size}
use libnfc.Pn53x.Device.{Device, Pn53xType, pn53x, pn531, pn532, pn533, rcs360}
use libnfc.Pn53x.Device.{normal, powerdown, nfc_success, nfc_einvarg, nfc_etgreleased, nfc_erftrans}
use libnfc.Pn53x.Device.{nfc_echip, same_result}
use libnfc.Pn53x.Monad.{Outcome, done, aborted, out_of_fuel, M, ◌>>=◌, ◌>>◌, return, get, modify}
use libnfc.Pn53x.Monad.{Reply, Transceive, Io}
use libnfc.Pn53x.Registers.{is_pn533, max_data, writeback_register}

abbrev pub is_pn532 : Pn53xType → Bool
is_pn532 pn532 = true
is_pn532 _ = false

abbrev pub is_rcs360 : Pn53xType → Bool
is_rcs360 rcs360 = true
is_rcs360 _ = false

unfoldable pub one_of : ℕ → List ℕ → Bool
one_of x [] = false
one_of x (y ∷ ys) = x == y || one_of x ys

-- The commands whose answer begins with a status byte: PowerDown, InDataExchange,
-- InCommunicateThru, InJumpForPSL, InPSL, InATR, InSelect, InJumpForDEP, TgGetData,
-- TgGetInitiatorCommand, TgSetData, TgResponseToInitiator, TgSetGeneralBytes and TgSetMetaData.
abbrev pub status_commands : List ℕ
status_commands =
    0x16 ∷ 0x40 ∷ 0x42 ∷ 0x46 ∷ 0x4e ∷ 0x50 ∷ 0x54 ∷ 0x56 ∷ 0x86 ∷ 0x88 ∷ 0x8e ∷ 0x90 ∷ 0x92 ∷ 0x94
    ∷ []

abbrev pub tg_init_as_target : ℕ
tg_init_as_target = 0x8c

-- The first switch: the status byte, or `none` where the code aborts (NAD or MI detected). The
-- commands named by number are Diagnose (0x00), InDeselect (0x44), InRelease (0x52), ReadRegister
-- (0x06) and WriteRegister (0x08).
unfoldable pub status_byte : Pn53xType → List ℕ → List ℕ → Option ℕ
unfolding one_of
status_byte type tx rx =
    let code = get_or tx 0 0 in
    let first = get_or rx 0 0 in
    if one_of code status_commands
    then (if not (bit_and first 0x80 == 0)
        then none
        else if not (bit_and first 0x40 == 0)
        then none
        else some (bit_and first 0x3f))
    else if code == 0x00
    then (if get_or tx 1 0 == 0x06 then some (bit_and first 0x3f) else some 0)
    else if code == 0x44 || code == 0x52
    then (if is_rcs360 type then some 0 else some (bit_and first 0x3f))
    else if code == 0x06 || code == 0x08
    then (if is_pn533 type then some (bit_and first 0x3f) else some 0)
    else some 0

-- The status bytes of the second switch, by their result.
abbrev pub rf_errors : List ℕ
rf_errors =
    0x01 ∷ 0x02 ∷ 0x03 ∷ 0x04 ∷ 0x05 ∷ 0x06 ∷ 0x0b ∷ 0x0a ∷ 0x12 ∷ 0x25 ∷ 0x2e ∷ 0x2c ∷ 0x13 ∷ 0x23
    ∷ 0x2a ∷ []

abbrev pub chip_errors : List ℕ
chip_errors = 0x07 ∷ 0x2d ∷ 0x09 ∷ 0x0d ∷ 0x0e ∷ []

abbrev pub argument_errors : List ℕ
argument_errors = 0x10 ∷ 0x26 ∷ 0x27 ∷ 0x18 ∷ []

-- ETGREL and ECDISCARDED: the target has gone.
abbrev pub released : List ℕ
released = 0x29 ∷ 0x2b ∷ []

-- The second switch: the result for a status byte and a count of bytes received.
unfoldable pub status_result : ℕ → ℕ → ℤ
unfolding one_of
status_result status received =
    if status == 0
    then pos received
    else if one_of status rf_errors
    then nfc_erftrans
    else if one_of status chip_errors
    then nfc_echip
    else if one_of status argument_errors
    then nfc_einvarg
    else if one_of status released
    then nfc_etgreleased
    else if status == 0x14
    then nfc_etgreleased
    else nfc_echip

module _ {W : Type 0} where
  -- `pn53x_current_target_free`
  unfoldable pub current_target_free : Device W → Device W
  current_target_free d = record d { current_target = none }

  -- What the two switches and the end of the function do to the device.
  unfoldable pub take_status : ℕ → ℕ → Device W → ℤ × Device W
  unfolding status_result one_of current_target_free
  take_status status received d =
      let res = status_result status received in
      let d' = if one_of status released then current_target_free d else d in
      (
        res,
        record d' {
          last_status_byte = status;
          last_error = if is_neg res then res else nfc_success;
        },
      )

  -- The PN532 powers down when it is told to wait as a target, and wakes when it answers.
  abbrev pub sleeps : Device W → ℕ → Bool
  sleeps d code = is_pn532 d.type && code == tg_init_as_target

  -- `abort()`, or the result of the status byte.
  unfoldable pub take_answer : Option ℕ → ℕ → List ℕ → M W Reply
  unfolding take_status
  take_answer none received rx d = aborted
  take_answer (some status) received rx d =
      let (res, d') = take_status status received d in done ((res, rx), d')

  -- The command goes out once the cache, if a write triggered it, is written back.
  unfoldable pub after_writeback : Bool → M W ℤ → M W Reply → M W Reply
  after_writeback true writeback rest = do
    res ← writeback
    if is_neg res then return (res, []) else rest
  after_writeback false writeback rest = rest

module _ {W : Type 0} (io : Io W) where
  -- The rest of the function, when the write-back cache is clean.
  unfoldable pub exchange : Transceive W
  unfolding status_byte take_answer
  exchange tx rx_len timeout d =
      let code = get_or tx 0 0 in
      let timeout' = if same_result timeout (negsuc 0) then d.timeout_command else timeout in
      let size = if rx_len == 0 then max_data else rx_len in
      let (sent, d1) = io.send d tx timeout' in
      if is_neg sent
      then done ((sent, []), d1)
      else (let d2 = record d1 {
        last_command = code;
        power_mode = if sleeps d1 code then powerdown else d1.power_mode;
      } in
          let (got, rx, d3) = io.receive d2 size timeout' in
          if is_neg got
          then done ((got, rx), d3)
          else (let d4 = record d3 {
            power_mode = if sleeps d3 code then normal else d3.power_mode;
          } in
              take_answer (status_byte d4.type tx rx) (to_size got) rx d4))

  -- `pn53x_transceive`. Writing the cache back calls it again, hence the fuel.
  unfoldable pub transceive : ℕ → Transceive W
  unfolding exchange after_writeback writeback_register
  transceive zero tx rx_len timeout d = out_of_fuel
  transceive (suc fuel) tx rx_len timeout d =
      after_writeback d.wb_trigged (writeback_register (transceive fuel))
        (exchange tx rx_len timeout) d
