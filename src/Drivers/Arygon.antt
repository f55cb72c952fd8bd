-- ===== src/Drivers/Arygon.antt =====
-- libnfc/drivers/arygon.c: the I/O functions of the driver.
pub mod Laws
mod Tests
use libnfc.Prelude.{ℕ, ◌+◌, true, false, ◌&&◌, List, [], ◌∷◌, not}
use libnfc.Prelude.{ltb, ◌==◌, if◌then◌else◌, length, take, get_or}
use libnfc.Prelude.Int.{ℤ, pos, is_neg}
use libnfc.Pn53x.Device.{Device, nfc_success, nfc_eio, nfc_edevnotsupp, nfc_eopaborted, same_result}
use libnfc.Pn53x.Frame.{equal_bytes, build_frame, check_ack_frame}
use libnfc.Pn53x.Monad.{Outcome, done, aborted}
use libnfc.Drivers.Uart.{Uart}
use libnfc.Drivers.Answer.{minus_two, receive_body}

-- The answers of the reader's own controller, ten characters each.
abbrev pub arygon_error_none : List ℕ
arygon_error_none = b'F' ∷ b'F' ∷ b'0' ∷ b'0' ∷ b'0' ∷ b'0' ∷ b'0' ∷ b'0' ∷ 0x0d ∷ 0x0a ∷ []

abbrev pub arygon_error_unknown_mode : List ℕ
arygon_error_unknown_mode = b'F' ∷ b'F' ∷ b'0' ∷ b'6' ∷ b'0' ∷ b'0' ∷ b'0' ∷ b'0' ∷ 0x0d ∷ 0x0a ∷ []

-- The byte in front of every frame, `DEV_ARYGON_PROTOCOL_TAMA`, and that of the reader's own commands.
abbrev pub protocol_tama : ℕ
protocol_tama = b'2'

abbrev pub protocol_arygon_ascii : ℕ
protocol_arygon_ascii = b'0'

-- The packet of `arygon_abort`.
abbrev dummy : List ℕ
dummy =
    0x32 ∷ 0x00 ∷ 0x00 ∷ 0xff ∷ 0x09 ∷ 0xf7 ∷ 0xd4 ∷ 0x00 ∷ 0x00 ∷ 0x6c ∷ 0x69 ∷ 0x62 ∷ 0x6e ∷ 0x66
    ∷ 0x63 ∷ 0xbe ∷ 0x00 ∷ []

module _ {W : Type 0} (uart : Uart W) where
  -- What `arygon_tama_send` makes of the six bytes that come back.
  pub take_reply : Device W → List ℕ → ℤ → ℤ × Device W
  take_reply d rx timeout =
      let (res, checked) = check_ack_frame d rx in
      if same_result res (pos 0)
      then (nfc_success, checked)
      else if equal_bytes (take 6 rx) (take 6 arygon_error_unknown_mode)
      then (let (res, rx, port) = uart.receive checked.driver_data 4 false timeout in
          (res, record checked { driver_data = port; last_error = res }))
      else (checked.last_error, checked)

  -- `arygon_tama_send`
  pub send : Device W → List ℕ → ℤ → ℤ × Device W
  unfolding take_reply
  send d input timeout =
      let w = uart.flush_input d.driver_data in
      if ltb 254 (length input)
      then (nfc_edevnotsupp, record d { driver_data = w; last_error = nfc_edevnotsupp })
      else (let (built, written, count) = build_frame input 0 in
          if is_neg built
          then (built, record d { driver_data = w; last_error = built })
          else (let (sent, port) =
                uart.send w (take (count + 1) (protocol_tama ∷ 0x00 ∷ 0x00 ∷ 0xff ∷ written))
                  timeout in
              if not (same_result sent (pos 0))
              then (sent, record d { driver_data = port; last_error = sent })
              else (let (res, rx, port') = uart.receive port 6 false timeout in
                  if not (same_result res (pos 0))
                  then (res, record d { driver_data = port'; last_error = res })
                  else take_reply (record d { driver_data = port' }) rx timeout)))

  -- `arygon_reset_tama`, which does not look at the result of the sending.
  unfoldable pub reset_tama : Device W → ℤ × Device W
  reset_tama d =
      let (ignored, port) =
        uart.send d.driver_data (protocol_arygon_ascii ∷ b'a' ∷ b'r' ∷ []) (pos 500) in
      let (res, rx, port') = uart.receive port 10 false (pos 1000) in
      if not (same_result res (pos 0))
      then (res, record d { driver_data = port'; last_error = res })
      else if not (equal_bytes (take 10 rx) arygon_error_none)
      then (nfc_eio, record d { driver_data = port'; last_error = nfc_eio })
      else (nfc_success, record d { driver_data = port' })

  -- A return with an error; nothing was stored into `pbtData` that a caller may use.
  abbrev pub fail : Device W → W → ℤ → ℤ × List ℕ × Device W
  fail d port res = (res, [], record d { driver_data = port; last_error = res })

  -- `arygon_tama_receive` from the check of `len` against the buffer on.
  unfoldable pub receive_rest : Device W → W → ℕ → ℕ → ℤ → ℤ × List ℕ × Device W
  receive_rest = receive_body uart fail

  module _ (check_communication : Device W → ℤ × Device W) where
    -- `arygon_abort`. `check_communication` is `pn53x_check_communication`, which sends a command
    -- itself.
    pub abort : Device W → ℤ × Device W
    abort d =
        let (ignored, port) = uart.send d.driver_data dummy (pos 0) in
        check_communication (record d { driver_data = port })

    -- `arygon_tama_receive`: the result, the content of `pbtData`, and the device; `aborted` is its
    -- call of `abort()`. `capacity` is `szDataLen`.
    pub receive : Device W → ℕ → ℤ → Outcome (ℤ × List ℕ × Device W)
    unfolding abort receive_rest
    receive d capacity timeout =
        let (res, rx, port) = uart.receive d.driver_data 5 true timeout in
        if same_result res nfc_eopaborted
        then (let (ignored, d') = abort (record d { driver_data = port; last_error = res }) in
            done (nfc_eopaborted, [], record d' { last_error = nfc_eopaborted }))
        else if not (same_result res (pos 0))
        then done (fail d port res)
        else if not (equal_bytes (take 3 rx) (0x00 ∷ 0x00 ∷ 0xff ∷ []))
        then done (fail d port nfc_eio)
        else if get_or rx 3 0 == 0x01 && get_or rx 4 0 == 0xff
        then (let (ignored, rest, port) = uart.receive port 3 false timeout in
            done (fail d port nfc_eio))
        else if get_or rx 3 0 == 0xff && get_or rx 4 0 == 0xff
        then aborted
        else if not (get_or rx 3 0 + get_or rx 4 0 == 256)
        then done (fail d port nfc_eio)
        else done (receive_rest d port (minus_two (get_or rx 3 0)) capacity timeout)
