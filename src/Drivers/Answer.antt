-- ===== src/Drivers/Answer.antt =====
-- An answer behind the length of its frame, as the drivers for serial ports read it: the same lines of
-- libnfc/drivers/pn532_uart.c and of libnfc/drivers/arygon.c. They differ in what they do on an error.
pub mod Checksum
pub mod Stages
pub mod Cache
use libnfc.Prelude.{
  ℕ, ◌+◌, ◌-◌, ◌%◌, ◌^◌, false, List, [], ◌∷◌, not, ltb, ◌==◌, if◌then◌else◌, take, get_or,
}
use libnfc.Prelude.Int.{ℤ, pos}
use libnfc.Pn53x.Device.{Device, nfc_success, nfc_eio, same_result}
use libnfc.Pn53x.Frame.{subtract_bytes}
use libnfc.Drivers.Uart.{Uart}

-- `x - 2` as a `size_t`.
abbrev pub minus_two : ℕ → ℕ
minus_two x = (x + 2 ^ 64 - 2) % 2 ^ 64

-- `failed` is what the driver does on an error, with the port and the result.
module _ {W : Type 0} (uart : Uart W) (failed : Device W → W → ℤ → ℤ × List ℕ × Device W) where
  -- From the checksum on, with `input` in `pbtData`.
  unfoldable pub receive_checksum : Device W → W → List ℕ → ℕ → ℤ → ℤ × List ℕ × Device W
  receive_checksum d port input len timeout =
      let (res, rx, port) = uart.receive port 2 false timeout in
      let dcs =
        subtract_bytes ((256 - 0xd5 + 256 - (d.last_command + 1) % 256) % 256) (take len input) in
      if not (same_result res nfc_success)
      then failed d port res
      else if not (dcs == get_or rx 0 0)
      then failed d port nfc_eio
      else if not (get_or rx 1 0 == 0x00)
      then failed d port nfc_eio
      else (pos len, input, record d { driver_data = port; last_error = res })

  -- From the check of `len` against the buffer on.
  unfoldable pub receive_body : Device W → W → ℕ → ℕ → ℤ → ℤ × List ℕ × Device W
  unfolding receive_checksum
  receive_body d port len capacity timeout =
      if ltb capacity len
      then failed d port nfc_eio
      else (let (res, rx, port) = uart.receive port 2 false timeout in
          if not (same_result res nfc_success)
          then failed d port res
          else if not (get_or rx 0 0 == 0xd5)
          then failed d port nfc_eio
          else if not (get_or rx 1 0 == d.last_command + 1)
          then failed d port nfc_eio
          else if len == 0
          then receive_checksum d port [] 0 timeout
          else (let (res, input, port) = uart.receive port len false timeout in
              if not (same_result res nfc_success)
              then failed d port res
              else receive_checksum d port input len timeout))
