-- ===== src/Drivers/Pn53xUsb.antt =====
-- libnfc/drivers/pn53x_usb.c: the I/O functions of the driver, and its initialisation and properties.
pub mod Data
pub mod Setup
pub mod Laws
pub mod Passes
mod Tests
use libnfc.Prelude.{ℕ, zero, suc, ◌+◌, ◌-◌, ◌*◌, ◌/◌, ◌%◌, ◌^◌, Bool, true, false, ◌&&◌, ◌||◌}
use libnfc.Prelude.{
  List, [], ◌∷◌, ◌++◌, not, ltb, leb, ◌==◌, if◌then◌else◌, length, take, drop, min,
}
use libnfc.Prelude.Int.{ℤ, pos, negsuc, is_neg, to_size}
use libnfc.Pn53x.Device.{Device, nfc_success, nfc_eio, nfc_etimeout, nfc_eopaborted, same_result}
use libnfc.Pn53x.Frame.{equal_bytes, ack_frame, subtract_bytes, build_frame, check_ack_frame}
use libnfc.Pn53x.Monad.{M, ◌>>=◌, ◌>>◌, return, get, modify, crash, out_of_fuel, Outcome}
use libnfc.Drivers.Answer.{minus_two}
use libnfc.Drivers.Usb.{Usb, usb_timedout, at, refused, less_pass, is_positive, shorter}
use libnfc.Drivers.Pn53xUsb.Data.{Pn53xUsbData, bulk_write, bulk_read, ack}

abbrev pub nack_frame : List ℕ
nack_frame = 0x00 ∷ 0x00 ∷ 0xff ∷ 0xff ∷ 0x00 ∷ 0x00 ∷ []

-- `PN53X_USB_BUFFER_LEN`
abbrev pub buffer_len : ℕ
buffer_len = 264 + 11

module _ {W : Type 0} (capacity : ℕ) (rx : List ℕ) where
  -- The checksum and the postamble behind a payload of `len` bytes, from `offset` on.
  unfoldable pub check_end : ℕ → ℕ → M W (ℤ × List ℕ)
  check_end len offset = do
    d ← get
    let dcs =
        subtract_bytes ((256 - 0xd5 + 256 - (d.last_command + 1) % 256) % 256)
          (take len (drop offset rx))
    found ← at rx (offset + len)
    if not (dcs == found) then refused nfc_eio else (do
      postamble ← at rx (offset + len + 1)
      if not (postamble == 0x00) then refused nfc_eio else (do
        modify (λ d. record d { last_error = pos 0 })
        return (pos len, take len (drop offset rx))))

  -- The direction byte at `offset`, the code, and the payload of `len` bytes.
  unfoldable pub take_packet : ℕ → ℕ → M W (ℤ × List ℕ)
  unfolding check_end
  take_packet len offset = if ltb capacity len then refused nfc_eio else (do
    tfi ← at rx offset
    if not (tfi == 0xd5) then refused nfc_eio else (do
      code ← at rx (offset + 1)
      d ← get
      if not (code == d.last_command + 1)
          then refused nfc_eio
          else if ltb (length rx) (offset + 2 + len)
          then crash
          else check_end len (offset + 2)))

  -- `pn53x_usb_receive` from the preamble on, with `rx` in `abtRxBuf`.
  unfoldable pub take_frame : M W (ℤ × List ℕ)
  unfolding take_packet
  take_frame =
      if not (equal_bytes (take 3 rx) (0x00 ∷ 0x00 ∷ 0xff ∷ [])) then refused nfc_eio else (do
        b3 ← at rx 3
        b4 ← at rx 4
        if b3 == 0x01 && b4 == 0xff
            then refused nfc_eio
            else if b3 == 0xff && b4 == 0xff
            then (do
              b5 ← at rx 5
              b6 ← at rx 6
              b7 ← at rx 7
              if not ((b5 + b6 + b7) % 256 == 0)
                  then refused nfc_eio
                  else take_packet (minus_two (b5 * 2 ^ 8 + b6)) 8)
            else if not (b3 + b4 == 256)
            then refused nfc_eio
            else take_packet (minus_two b3) 5)

module _ {P : Type 0} (usb : Usb P) where
  -- `pn53x_usb_send`, which does not look at the result of `pn53x_build_frame`. `mem` is the content of
  -- `abtRxBuf` before it is filled.
  pub send : List ℕ → List ℕ → ℤ → M (Pn53xUsbData P) ℤ
  send mem input timeout =
      let (built, written, count) = build_frame input 0 in
      (do
        res ← bulk_write usb (take count (0x00 ∷ 0x00 ∷ 0xff ∷ written)) timeout
        if is_neg res then (do modify (λ d. record d { last_error = res }); return res) else (do
          (res, rx) ← bulk_read usb mem timeout
          if is_neg res
              then (do ignored ← ack usb; modify (λ d. record d { last_error = res }); return res)
              else (do
                d ← get
                let (checked, d') = check_ack_frame d (take (to_size res) rx)
                modify (λ d. d')
                if same_result checked (pos 0) then return nfc_success else (do
                  res ← bulk_write usb nack_frame timeout
                  if is_neg res
                      then (do
                        modify (λ d. record d { last_error = res })
                        ignored ← ack usb
                        return res)
                      else return nfc_success))))

  -- A read that came to an end, by an answer or an error.
  pub take_read : ℕ → ℤ → List ℕ → M (Pn53xUsbData P) (ℤ × List ℕ)
  take_read capacity res rx =
      if is_neg res then (do ignored ← ack usb; refused res) else take_frame capacity rx

  -- A read of at most `limit` milliseconds, and what comes behind it; `again` is `goto read`.
  pub pass :
      ℕ → ℤ → List ℕ → (List ℕ → M (Pn53xUsbData P) (ℤ × List ℕ)) → M (Pn53xUsbData P) (ℤ × List ℕ)
  unfolding take_read
  pass capacity limit rx again = do
    (res, rx') ← bulk_read usb rx limit
    d ← get
    if not (same_result res usb_timedout)
        then take_read capacity res rx'
        else if d.driver_data.abort_flag
        then (do
          modify (λ d. record d { driver_data = record d.driver_data { abort_flag = false } })
          ignored ← ack usb
          refused nfc_eopaborted)
        else again rx'

  -- The loop of `pn53x_usb_receive`: a pass takes 200 milliseconds, or what is left if that is less.
  -- Without a timeout there is no end of passes but by an answer, an error or an abort.
  pub read_loop : ℕ → ℕ → ℤ → ℤ → List ℕ → M (Pn53xUsbData P) (ℤ × List ℕ)
  unfolding pass
  read_loop zero capacity timeout remaining rx = λ d. out_of_fuel
  read_loop (suc fuel) capacity timeout remaining rx =
      let forever = pass capacity (pos 200) rx (read_loop fuel capacity timeout remaining) in
      let left = less_pass remaining in
      let timed = pass capacity (shorter left) rx (read_loop fuel capacity timeout left) in
      if same_result timeout (pos 0)
      then forever
      else if not (is_positive left)
      then refused nfc_etimeout
      else timed

  -- `pn53x_usb_receive`: the result and the content of `pbtData`. `fuel` bounds the passes; `mem` is
  -- the content of `abtRxBuf` before it is filled.
  pub receive : ℕ → List ℕ → ℕ → ℤ → M (Pn53xUsbData P) (ℤ × List ℕ)
  unfolding read_loop
  receive fuel mem capacity timeout = read_loop fuel capacity timeout timeout mem
