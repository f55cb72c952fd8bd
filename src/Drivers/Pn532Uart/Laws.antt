-- ===== src/Drivers/Pn532Uart/Laws.antt =====
-- What `pn532_uart_receive` makes of the answer of a chip.
use native.Mathlib.Decide.{dec_lt}
use libnfc.Prelude.{ℕ, suc, ◌+◌, ◌*◌, ◌/◌, ◌%◌, ◌^◌, ◌≤◌, ◌<◌, ◌≡◌, arith}
use libnfc.Prelude.{List, [], ◌∷◌, ◌++◌, true, false, leb, ◌==◌, ◌&&◌, length}
use libnfc.Prelude.Int.{ℤ, pos}
use libnfc.Mirror.Laws.{AreBytes}
use libnfc.Pn53x.Device.{Device}
use libnfc.Pn53x.Frame.{equal_bytes}
use libnfc.Pn53x.Frame.Format.{complement, encode}
use libnfc.Drivers.Uart.{Uart, Delivers}
use libnfc.Drivers.Answer.{minus_two}
use libnfc.Drivers.Pn532Uart.{receive, receive_extended, fail}
use libnfc.Drivers.Answer.Stages.{Received, packet, body-Received}

module _ {W : Type 0} (uart : Uart W) (port : Delivers uart) (d : Device W) where
  open port use {Waiting, next, received, still_waiting}

  -- What waits behind the header of an answer.
  abbrev answer : List ℕ → List ℕ
  answer payload = packet uart (fail uart) port d payload

  receive_normal :
      (payload rest : List ℕ) (capacity : ℕ) (timeout : ℤ)
      → AreBytes payload
      → d.last_command < 255
      → length payload ≤ capacity
      → length payload + 2 ≤ 255
      → Waiting d.driver_data (
          0x00
          ∷ 0x00
          ∷ 0xff
          ∷ suc (suc (length payload))
          ∷ complement (suc (suc (length payload)))
          ∷ (answer payload ++ rest))
      → Received uart (fail uart) port d (receive uart d capacity timeout) payload rest
  unfolding receive equal_bytes
  receive_normal payload rest capacity timeout bytes small fits short waiting =
      let n = suc (suc (length payload)) in
      let front = 0x00 ∷ 0x00 ∷ 0xff ∷ n ∷ complement n ∷ [] in
      let back = answer payload ++ rest in
      let got = received d.driver_data front back true timeout (omega arith) waiting in
      let not_error : (n == 0x01) ≡ false = ground arith in
      let not_extended : (n == 0xff && complement n == 0xff) ≡ false = ground arith in
      let checked : (n + complement n == 256) ≡ true = ground arith in
      let len : minus_two n ≡ length payload = omega arith in
      rw (got, not_error, not_extended, checked, len)
        (body-Received uart (fail uart) port d (next d.driver_data front back) payload rest capacity
          timeout bytes small fits (still_waiting d.driver_data front back waiting))

  extended-Received :
      (w : W) (payload rest : List ℕ) (capacity : ℕ) (timeout : ℤ)
      → AreBytes payload
      → d.last_command < 255
      → length payload ≤ capacity
      → length payload + 2 < 2 ^ 16
      → let n = suc (suc (length payload)) in
        Waiting w
          ((n / 256) ∷ (n % 256) ∷ complement (n / 256 + n % 256) ∷ (answer payload ++ rest))
        → Received uart (fail uart) port d (receive_extended uart d w capacity timeout) payload rest
  unfolding receive_extended
  extended-Received w payload rest capacity timeout bytes small fits short waiting =
      let n = suc (suc (length payload)) in
      let front = (n / 256) ∷ (n % 256) ∷ complement (n / 256 + n % 256) ∷ [] in
      let back = answer payload ++ rest in
      let got = received w front back false timeout (omega arith) waiting in
      let checked : ((n / 256 + n % 256 + complement (n / 256 + n % 256)) % 256 == 0) ≡ true =
        ground arith in
      let len : minus_two (n / 256 * 2 ^ 8 + n % 256) ≡ length payload = omega arith in
      rw (got, checked, len)
        (body-Received uart (fail uart) port d (next w front back) payload rest capacity timeout
          bytes small fits (still_waiting w front back waiting))

  receive_long :
      (payload rest : List ℕ) (capacity : ℕ) (timeout : ℤ)
      → AreBytes payload
      → d.last_command < 255
      → length payload ≤ capacity
      → length payload + 2 < 2 ^ 16
      → let n = suc (suc (length payload)) in
        Waiting d.driver_data (
          0x00
          ∷ 0x00
          ∷ 0xff
          ∷ 0xff
          ∷ 0xff
          ∷ (n / 256)
          ∷ (n % 256)
          ∷ complement (n / 256 + n % 256)
          ∷ (answer payload ++ rest))
        → Received uart (fail uart) port d (receive uart d capacity timeout) payload rest
  unfolding receive equal_bytes
  receive_long payload rest capacity timeout bytes small fits short waiting =
      let n = suc (suc (length payload)) in
      let front = 0x00 ∷ 0x00 ∷ 0xff ∷ 0xff ∷ 0xff ∷ [] in
      let back =
        (n / 256) ∷ (n % 256) ∷ complement (n / 256 + n % 256) ∷ (answer payload ++ rest) in
      let got = received d.driver_data front back true timeout (omega arith) waiting in
      rw got (
        extended-Received (next d.driver_data front back) payload rest capacity timeout bytes small
          fits short (still_waiting d.driver_data front back waiting))

  -- On a port where the frame of the answer to the last command waits, normal or extended, with a
  -- payload of bytes that fits the caller's buffer and the length field, and with a command code
  -- below 255, the driver returns the number of bytes of the payload and the
  -- payload, clears the last error, changes nothing else of the device, and leaves at the port just
  -- what came behind the frame.
  pub receive-encode :
      (payload rest : List ℕ) (capacity : ℕ) (timeout : ℤ)
      → AreBytes payload
      → d.last_command < 255
      → length payload ≤ capacity
      → length payload + 2 < 2 ^ 16
      → Waiting d.driver_data (encode 0xd5 ((d.last_command + 1) ∷ payload) ++ rest)
      → (w : W) × (receive uart d capacity timeout
          ≡ (pos (length payload), payload, record d { driver_data = w; last_error = pos 0 }))
        × Waiting w rest
  receive-encode payload rest capacity timeout bytes small fits short waiting =
      elim (dec_lt 255 (suc (suc (length payload)))) [
        | yes long ↦
            let big : leb (suc (suc (length payload))) 255 ≡ false = ground arith in
            receive_long payload rest capacity timeout bytes small fits short (rw big at waiting)
        | no normal ↦
            let little : leb (suc (suc (length payload))) 255 ≡ true = ground arith in
            receive_normal payload rest capacity timeout bytes small fits (omega arith)
              (rw little at waiting)
      ]
