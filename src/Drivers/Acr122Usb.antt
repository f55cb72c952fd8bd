-- ===== src/Drivers/Acr122Usb.antt =====
-- libnfc/drivers/acr122_usb.c: the I/O functions of the driver, and its initialisation.
pub mod Data
pub mod Laws
pub mod Passes
mod Tests
use libnfc.Prelude.{ℕ, zero, suc, ◌+◌, ◌-◌, Bool, true, false, ◌&&◌, List, [], ◌∷◌}
use libnfc.Prelude.{Option, none, not, ltb, ◌==◌, if◌then◌else◌, length, take, drop}
use libnfc.Prelude.Int.{ℤ, pos, is_neg, to_size}
use libnfc.Types.{np_timeout_command}
use libnfc.Pn53x.Device.{Device, nfc_success, nfc_eio, nfc_einvarg, nfc_eovflow, nfc_etimeout}
use libnfc.Pn53x.Device.{nfc_eopaborted, same_result}
use libnfc.Pn53x.Init.{init}
use libnfc.Pn53x.Monad.{M, ◌>>=◌, ◌>>◌, return, get, modify, crash, out_of_fuel, try, Transceive}
use libnfc.Pn53x.Properties.{set_property_int}
use libnfc.Drivers.Usb.{Usb, at, refused, less_pass, is_positive, shorter}
use libnfc.Drivers.Acr122Usb.Data.{
  Acr122UsbData, Acr122UsbModel, unknown, acr122, touchatag, rdr_data_block, rdr_escape,
  build_frame_from_tama, bulk_read, bulk_write, ack, send_apdu,
}

-- `sizeof(abtRxBuf)`
abbrev pub buffer_len : ℕ
buffer_len = 255 + 10

-- `attempted_response`
abbrev pub attempted_response : Acr122UsbModel → ℕ
attempted_response touchatag = rdr_data_block
attempted_response _ = rdr_escape

-- From the direction byte on; `len` counts it, the code and the two bytes of the APDU's status too.
unfoldable pub take_packet : {W : Type 0} → List ℕ → ℕ → M W (ℤ × List ℕ)
take_packet rx len = do
  tfi ← at rx 10
  if not (tfi == 0xd5) then refused nfc_eio else (do
    code ← at rx 11
    d ← get
    if not (code == d.last_command + 1)
        then refused nfc_eio
        else if ltb (length rx) (12 + (len - 4))
        then crash
        else return (pos (len - 4), take (len - 4) (drop 12 rx)))

-- `acr122_usb_receive` from the check of the header on, with `rx` in `abtRxBuf`.
unfoldable pub take_response : {W : Type 0} → ℕ → ℕ → List ℕ → M W (ℤ × List ℕ)
unfolding take_packet
take_response expected capacity rx = do
  header ← at rx 0
  if not (header == expected) then refused nfc_eio else (do
    len ← at rx 1
    b2 ← at rx 2
    b3 ← at rx 3
    b4 ← at rx 4
    if not (b2 == 0x00) && (not (b3 == 0x00) && not (b4 == 0x00))
        then refused nfc_eio
        else if ltb len 4
        then refused nfc_eio
        else if ltb capacity (len - 4)
        then refused nfc_eovflow
        else take_packet rx len)

module _ {P : Type 0} (usb : Usb P) where
  -- `acr122_usb_send`
  pub send : List ℕ → ℤ → M (Acr122UsbData P) ℤ
  send input timeout = do
    d ← get
    let (res, frame) = build_frame_from_tama d.driver_data.tama_frame input
    modify (λ d. record d { driver_data = record d.driver_data { tama_frame = frame } })
    if is_neg res
        then (do modify (λ d. record d { last_error = nfc_einvarg }); return nfc_einvarg)
        else (do
          res ← bulk_write usb (take (to_size res) frame) timeout
          if is_neg res
              then (do modify (λ d. record d { last_error = res }); return res)
              else return nfc_success)

  -- A read that timed out: an abort, or `goto read`.
  pub timed_out : List ℕ → M (Acr122UsbData P) (ℤ × List ℕ) → M (Acr122UsbData P) (ℤ × List ℕ)
  timed_out mem again = do
    d ← get
    if d.driver_data.abort_flag
        then (do
          modify (λ d. record d { driver_data = record d.driver_data { abort_flag = false } })
          ignored ← ack usb mem
          refused nfc_eopaborted)
        else again

  -- What comes behind the switch over the model, with the result of the first read.
  pub finish : List ℕ → Acr122UsbModel → ℕ → ℤ → List ℕ → M (Acr122UsbData P) (ℤ × List ℕ)
  unfolding take_response
  finish mem model capacity res rx =
      if is_neg res
      then (do ignored ← ack usb mem; refused res)
      else take_response (attempted_response model) capacity rx

  -- The case of a Touchatag: its reader has to be asked for the response. The result of that is not
  -- looked at.
  pub ask_touchatag : List ℕ → ℕ → ℤ → List ℕ → M (Acr122UsbData P) (ℤ × List ℕ)
  unfolding finish
  ask_touchatag mem capacity res rx = do
    header ← at rx 0
    if not (header == rdr_data_block) then refused nfc_eio else (do
      len ← at rx 1
      if not (len == 2) then refused nfc_eio else (do
        le ← at rx 11
        (ignored, rx') ← send_apdu usb 0xc0 0x00 0x00 none le rx
        finish mem touchatag capacity res rx'))

  -- The switch over the model.
  pub by_model : List ℕ → Acr122UsbModel → ℕ → ℤ → List ℕ → M (Acr122UsbData P) (ℤ × List ℕ)
  unfolding ask_touchatag
  by_model mem touchatag capacity res rx = ask_touchatag mem capacity res rx
  by_model mem model capacity res rx = finish mem model capacity res rx

  -- A read of at most `limit` milliseconds, and what comes behind it; `again` is `goto read`. A time-out
  -- is handled in the same way inside and behind the switch.
  pub pass :
      List ℕ
      → ℕ
      → ℤ
      → List ℕ
      → (List ℕ → M (Acr122UsbData P) (ℤ × List ℕ))
      → M (Acr122UsbData P) (ℤ × List ℕ)
  unfolding by_model timed_out
  pass mem capacity limit rx again = do
    (res, rx') ← bulk_read usb rx limit
    if same_result res nfc_etimeout
        then timed_out mem (again rx')
        else (do d ← get; by_model mem d.driver_data.model capacity res rx')

  -- The loop of `acr122_usb_receive`: a pass takes 200 milliseconds, or what is left if that is less.
  -- Without a timeout there is no end of passes but by an answer, an error or an abort.
  pub read_loop : ℕ → List ℕ → ℕ → ℤ → ℤ → List ℕ → M (Acr122UsbData P) (ℤ × List ℕ)
  unfolding pass
  read_loop zero mem capacity timeout remaining rx = λ d. out_of_fuel
  read_loop (suc fuel) mem capacity timeout remaining rx =
      let forever =
        pass mem capacity (pos 200) rx (read_loop fuel mem capacity timeout remaining) in
      let left = less_pass remaining in
      let timed = pass mem capacity (shorter left) rx (read_loop fuel mem capacity timeout left) in
      if same_result timeout (pos 0)
      then forever
      else if not (is_positive left)
      then refused nfc_etimeout
      else timed

  -- `acr122_usb_receive`: the result and the content of `pbtData`. `fuel` bounds the passes; `mem` is the
  -- content of `abtRxBuf`, and of the buffer of an abort, before they are filled.
  pub receive : ℕ → List ℕ → ℕ → ℤ → M (Acr122UsbData P) (ℤ × List ℕ)
  unfolding read_loop
  receive fuel mem capacity timeout = read_loop fuel mem capacity timeout timeout mem

  -- `acr122_usb_init`
  pub usb_init : Transceive (Acr122UsbData P) → List ℕ → M (Acr122UsbData P) ℤ
  usb_init transceive mem = try (set_property_int transceive np_timeout_command (pos 1000)) (
      try (bulk_write usb (0x62 ∷ 0 ∷ 0 ∷ 0 ∷ 0 ∷ 0 ∷ 0 ∷ 0x01 ∷ 0x00 ∷ 0x00 ∷ []) (pos 1000)) (do
        (res, rx) ← bulk_read usb mem (pos 1000)
        if is_neg res then return res else (do
          (res, rx') ← send_apdu usb 0x00 0x51 0x00 none 0 rx
          if is_neg res then return res else try (init transceive) (return nfc_success))))
