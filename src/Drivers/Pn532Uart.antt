-- ===== src/Drivers/Pn532Uart.antt =====
-- libnfc/drivers/pn532_uart.c: the I/O functions of the driver.
pub mod Table
pub mod Laws
pub mod Cache
mod Tests
use libnfc.Prelude.{
  ℕ, suc, ◌+◌, ◌-◌, ◌*◌, ◌%◌, ◌^◌, Bool, true, false, ◌&&◌, List, [], ◌∷◌, ◌++◌, not,
}
use libnfc.Prelude.{ltb, leb, ◌==◌, if◌then◌else◌, length, take, get_or}
use libnfc.Prelude.Int.{ℤ, pos, negsuc, is_neg}
use libnfc.Pn53x.Device.{Device, PowerMode, normal, powerdown, lowvbat, SamMode, psm_normal}
use libnfc.Pn53x.Device.{nfc_success, nfc_eio, nfc_eopaborted, same_result}
use libnfc.Pn53x.Frame.{ack_frame, equal_bytes, subtract_bytes, build_frame, check_ack_frame}
use libnfc.Drivers.Uart.{Uart}
use libnfc.Drivers.Answer.{minus_two, receive_body}

module _ {W : Type 0} (uart : Uart W) where
  pub wakeup : Device W → ℤ × Device W
  wakeup d =
      let (res, port) = uart.send d.driver_data (0x55 ∷ 0x55 ∷ 0x00 ∷ 0x00 ∷ 0x00 ∷ []) (pos 0) in
      (res, record d { driver_data = port; power_mode = normal })

  -- The last call of `pn532_uart_ack`.
  send_ack : Device W → ℤ × Device W
  send_ack d =
      let (res, port) = uart.send d.driver_data ack_frame (pos 0) in
      (res, record d { driver_data = port })

  pub ack : Device W → ℤ × Device W
  unfolding wakeup send_ack
  ack d = elim d.power_mode [
    | powerdown ↦ let (res, d') = wakeup d in if is_neg res then (res, d') else send_ack d'
    | _ ↦ send_ack d
  ]

  -- The chip and the port are up: build the frame, send it, and wait for the ACK frame.
  pub send_frame : Device W → List ℕ → ℤ → ℤ × Device W
  send_frame d input timeout =
      let (built, written, count) = build_frame input 0 in
      if is_neg built
      then (built, record d { last_error = built })
      else (let (sent, port) =
            uart.send d.driver_data (take count (0x00 ∷ 0x00 ∷ 0xff ∷ written)) timeout in
          if not (same_result sent nfc_success)
          then (sent, record d { driver_data = port; last_error = sent })
          else (let (res, rx, port') = uart.receive port 6 false timeout in
              if not (same_result res nfc_success)
              then (res, record d { driver_data = port'; last_error = res })
              else check_ack_frame (record d { driver_data = port' }) rx))

  -- `pn532_uart_send`. `sam_configuration` is `pn532_SAMConfiguration`, which sends a command itself.
  pub send : (Device W → SamMode → ℤ → ℤ × Device W) → Device W → List ℕ → ℤ → ℤ × Device W
  unfolding wakeup send_frame
  send sam_configuration d input timeout =
      let d = record d { driver_data = uart.flush_input d.driver_data } in
      elim d.power_mode [
        | lowvbat ↦
            let (woken, d1) = wakeup d in
            if is_neg woken
            then (woken, d1)
            else (let (set_up, d2) = sam_configuration d1 psm_normal (pos 1000) in
                if is_neg set_up then (set_up, d2) else send_frame d2 input timeout)
        | powerdown ↦
            let (woken, d1) = wakeup d in
            if is_neg woken then (woken, d1) else send_frame d1 input timeout
        | normal ↦ send_frame d input timeout
      ]

  -- `error:` with `last_error` set to `res`; nothing was stored into `pbtData` that a caller may use.
  abbrev pub fail : Device W → W → ℤ → ℤ × List ℕ × Device W
  fail d port res = (res, [], record d { driver_data = uart.flush_input port; last_error = res })

  -- The extended form: three more bytes with the length and its checksum.
  pub receive_extended : Device W → W → ℕ → ℤ → ℤ × List ℕ × Device W
  unfolding receive_body
  receive_extended d port capacity timeout =
      let (res, rx, port) = uart.receive port 3 false timeout in
      if not (same_result res nfc_success)
      then fail d port res
      else if not ((get_or rx 0 0 + get_or rx 1 0 + get_or rx 2 0) % 256 == 0)
      then fail d port nfc_eio
      else receive_body uart fail d port (minus_two (get_or rx 0 0 * 2 ^ 8 + get_or rx 1 0))
          capacity timeout

  -- `pn532_uart_receive`: the result, the content of `pbtData`, and the device. `capacity` is
  -- `szDataLen`.
  pub receive : Device W → ℕ → ℤ → ℤ × List ℕ × Device W
  unfolding ack receive_extended receive_body
  receive d capacity timeout =
      let (res, rx, port) = uart.receive d.driver_data 5 true timeout in
      if same_result res nfc_eopaborted
      then (let (acked, d') = ack (record d { driver_data = port; last_error = res }) in
          (acked, [], d'))
      else if is_neg res
      then fail d port res
      else if not (equal_bytes (take 3 rx) (0x00 ∷ 0x00 ∷ 0xff ∷ []))
      then fail d port nfc_eio
      else if get_or rx 3 0 == 0x01 && get_or rx 4 0 == 0xff
      then (let (ignored, rest, port) = uart.receive port 3 false timeout in fail d port nfc_eio)
      else if get_or rx 3 0 == 0xff && get_or rx 4 0 == 0xff
      then receive_extended d port capacity timeout
      else if not (get_or rx 3 0 + get_or rx 4 0 == 256)
      then fail d port nfc_eio
      else receive_body uart fail d port (minus_two (get_or rx 3 0)) capacity timeout
