-- ===== src/Drivers/Answer/Stages.antt =====
-- Reading an answer from a port where one is waiting, from its end to its start.
use mathlib.Core.Path.{subst}
use mathlib.Core.List.{append_assoc}
use libnfc.Prelude.{ℕ, ◌+◌, ◌≤◌, ◌<◌, ◌≡◌, refl, arith}
use libnfc.Prelude.{List, [], ◌∷◌, ◌++◌, false, ltb, ◌==◌, not, if◌then◌else◌, length, take-all}
use libnfc.Prelude.{==_self}
use libnfc.Prelude.Int.{ℤ, pos}
use libnfc.Mirror.Laws.{AreBytes}
use libnfc.Pn53x.Device.{Device, nfc_success, same_result}
use libnfc.Drivers.Uart.{Uart, Delivers}
use libnfc.Drivers.Answer.Checksum.{checksum, subtract_bytes-checksum}
use libnfc.Drivers.Answer.{receive_checksum, receive_body}

module _ {W : Type 0} (uart : Uart W) (failed : Device W → W → ℤ → ℤ × List ℕ × Device W)
    (port : Delivers uart) (d : Device W) where
  open port use {Waiting, next, received, still_waiting}

  -- The checksum of the packet of an answer.
  abbrev pub answer_dcs : List ℕ → ℕ
  answer_dcs payload = checksum d.last_command payload

  -- What the driver returns when it has read `payload` and nothing behind the frame.
  abbrev pub Received : ℤ × List ℕ × Device W → List ℕ → List ℕ → Type 0
  Received result payload rest =
      (w : W) × (result
        ≡ (pos (length payload), payload, record d { driver_data = w; last_error = pos 0 }))
      × Waiting w rest

  pub checksum-Received :
      (w : W) (payload rest : List ℕ) (timeout : ℤ)
      → AreBytes payload
      → d.last_command < 255
      → Waiting w (answer_dcs payload ∷ 0x00 ∷ rest)
      → Received (receive_checksum uart failed d w payload (length payload) timeout) payload rest
  unfolding receive_checksum
  checksum-Received w payload rest timeout bytes small waiting =
      let front = answer_dcs payload ∷ 0x00 ∷ [] in
      let got = received w front rest false timeout (omega arith) waiting in
      (
        next w front rest,
        rw
            (
              got,
              take-all payload,
              subtract_bytes-checksum d.last_command payload bytes small,
              ==_self (answer_dcs payload),
            )
            refl,
        still_waiting w front rest waiting,
      )

  -- The packet of an answer, its checksum and the postamble.
  abbrev pub packet : List ℕ → List ℕ
  packet payload = 0xd5 ∷ (d.last_command + 1) ∷ (payload ++ answer_dcs payload ∷ 0x00 ∷ [])

  -- The part behind the direction byte and the code.
  read_input :
      (w : W) (payload rest : List ℕ) (timeout : ℤ)
      → AreBytes payload
      → d.last_command < 255
      → Waiting w (payload ++ (answer_dcs payload ∷ 0x00 ∷ rest))
      → Received
          (if length payload == 0
            then receive_checksum uart failed d w [] 0 timeout
            else (let (res, input, port) = uart.receive w (length payload) false timeout in
                if not (same_result res nfc_success)
                then failed d port res
                else receive_checksum uart failed d port input (length payload) timeout))
          payload
          rest
  read_input w [] rest timeout bytes small waiting =
      checksum-Received w [] rest timeout bytes small waiting
  read_input w (x ∷ xs) rest timeout bytes small waiting =
      let back = answer_dcs (x ∷ xs) ∷ 0x00 ∷ rest in
      let got = received w (x ∷ xs) back false timeout (omega arith) waiting in
      let more : (length (x ∷ xs) == 0) ≡ false = ground arith in
      rw (more, got)
        (checksum-Received (next w (x ∷ xs) back) (x ∷ xs) rest timeout bytes small
          (still_waiting w (x ∷ xs) back waiting))

  pub body-Received :
      (w : W) (payload rest : List ℕ) (capacity : ℕ) (timeout : ℤ)
      → AreBytes payload
      → d.last_command < 255
      → length payload ≤ capacity
      → Waiting w (packet payload ++ rest)
      → Received (receive_body uart failed d w (length payload) capacity timeout) payload rest
  unfolding receive_body
  body-Received w payload rest capacity timeout bytes small fits waiting =
      let front = 0xd5 ∷ (d.last_command + 1) ∷ [] in
      let back = payload ++ (answer_dcs payload ∷ 0x00 ∷ rest) in
      let regroup = append_assoc payload (answer_dcs payload ∷ 0x00 ∷ []) rest in
      let waiting' : Waiting w (front ++ back) =
        subst (λ t. Waiting w (0xd5 ∷ (d.last_command + 1) ∷ t)) regroup waiting in
      let got = received w front back false timeout (omega arith) waiting' in
      let room : ltb capacity (length payload) ≡ false = ground arith in
      rw (room, got, ==_self (d.last_command + 1))
        (read_input (next w front back) payload rest timeout bytes small
          (still_waiting w front back waiting'))
