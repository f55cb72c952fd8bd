-- ===== src/Drivers/Arygon/Laws.antt =====
-- What the driver makes of the answers of the reader.
use libnfc.Prelude.{ℕ, suc, ◌+◌, ◌≤◌, ◌<◌, ◌≡◌, refl, ap, subst, arith}
use libnfc.Prelude.{List, [], ◌∷◌, ◌++◌, true, false, leb, ltb, ◌==◌, ◌&&◌, length, take, drop}
use libnfc.Prelude.{take-all}
use native.Mathlib.Numerals.{add-one}
use libnfc.Prelude.Int.{ℤ, pos}
use libnfc.Mirror.Laws.{AreBytes}
use libnfc.Pn53x.Device.{Device}
use libnfc.Pn53x.Frame.{equal_bytes, check_ack_frame, ack_frame, build_frame}
use libnfc.Pn53x.Frame.Format.{complement, encode}
use libnfc.Pn53x.Frame.Laws.{build_frame-eq-encode}
use libnfc.Pn53x.Monad.{done}
use libnfc.Drivers.Uart.{Uart, Delivers}
use libnfc.Drivers.Answer.{minus_two}
use libnfc.Drivers.Answer.Stages.{packet, body-Received}
use libnfc.Drivers.Arygon.{receive, fail, send, take_reply, protocol_tama}
use libnfc.Drivers.Arygon.{arygon_error_unknown_mode}

module _ {W : Type 0} (uart : Uart W) (port : Delivers uart) (d : Device W) where
  open port use {Waiting, next, received, still_waiting}

  abbrev answer : List ℕ → List ℕ
  answer payload = packet uart (fail uart) port d payload

  -- On a port where the normal frame of the answer to the last command waits, with a payload of bytes
  -- that fits the caller's buffer and with a command code below 255, the driver returns the number of
  -- bytes of the payload and the payload, clears the last error, changes nothing else of the device,
  -- and leaves at the port just what came behind the frame.
  pub receive-encode_normal :
      (check_communication : Device W → ℤ × Device W) (payload rest : List ℕ) (capacity : ℕ)
      (timeout : ℤ)
      → AreBytes payload
      → d.last_command < 255
      → length payload ≤ capacity
      → length payload + 2 ≤ 255
      → Waiting d.driver_data (encode 0xd5 ((d.last_command + 1) ∷ payload) ++ rest)
      → (w : W) × (receive uart check_communication d capacity timeout
          ≡ done (pos (length payload), payload, record d { driver_data = w; last_error = pos 0 }))
        × Waiting w rest
  unfolding receive equal_bytes
  receive-encode_normal check payload rest capacity timeout bytes small fits short waiting =
      let n = suc (suc (length payload)) in
      let little : leb (suc (suc (length payload))) 255 ≡ true = ground arith in
      let front = 0x00 ∷ 0x00 ∷ 0xff ∷ n ∷ complement n ∷ [] in
      let back = answer payload ++ rest in
      let waiting' : Waiting d.driver_data (front ++ back) = rw little at waiting in
      let got = received d.driver_data front back true timeout (omega arith) waiting' in
      let not_error : (n == 0x01) ≡ false = ground arith in
      let not_extended : (n == 0xff && complement n == 0xff) ≡ false = ground arith in
      let checked : (n + complement n == 256) ≡ true = ground arith in
      let len : minus_two n ≡ length payload = omega arith in
      let (w, e, left) =
        body-Received uart (fail uart) port d (next d.driver_data front back) payload rest capacity
          timeout bytes small fits (still_waiting d.driver_data front back waiting') in
      (w, rw (got, not_error, not_extended, checked, len, e) refl, left)

  framed :
      (input : List ℕ)
      → AreBytes input
      → length input ≤ 254
      → (build_frame input 0).0 ≡ pos 0
        × (take
              ((build_frame input 0).2 + 1)
              (protocol_tama ∷ 0x00 ∷ 0x00 ∷ 0xff ∷ (build_frame input 0).1)
            ≡ protocol_tama ∷ encode 0xd4 input)
  framed input bytes short =
      let fits : leb (length input) 264 ≡ true = ground arith in
      let little : leb (suc (length input)) 255 ≡ true = ground arith in
      let frame = encode 0xd4 input in
      let start : frame ≡ 0x00 ∷ 0x00 ∷ 0xff ∷ drop 3 frame = rw little refl in
      let whole : take (length frame + 1) (protocol_tama ∷ frame) ≡ protocol_tama ∷ frame =
        rw (add-one (length frame)) (ap (λ t. protocol_tama ∷ t) (take-all frame)) in
      rw (build_frame-eq-encode input 0 bytes, fits)
        (
          refl,
          subst (λ t. take (length frame + 1) (protocol_tama ∷ t) ≡ protocol_tama ∷ frame) start
              whole,
        )

  module _ (input rest : List ℕ) (timeout : ℤ) (w : W) (bytes : AreBytes input)
      (short : length input ≤ 254)
      (sent : uart.send (uart.flush_input d.driver_data) (protocol_tama ∷ encode 0xd4 input) timeout
        ≡ (pos 0, w)) where
    -- With at most 254 bytes of data, over a port that takes the frame of the data with the byte for
    -- the TAMA protocol in front, and where the ACK frame comes back: the sending succeeds, nothing
    -- else of the device changes, and what came behind the ACK frame is left at the port.
    pub send_acknowledged :
        Waiting w (ack_frame ++ rest)
        → (w' : W) × (send uart d input timeout ≡ (pos 0, record d { driver_data = w' }))
          × Waiting w' rest
    unfolding send take_reply check_ack_frame equal_bytes
    send_acknowledged waiting =
        let (built, frame) = framed input bytes short in
        let small : ltb 254 (length input) ≡ false = ground arith in
        let got = received w ack_frame rest false timeout (omega arith) waiting in
        (
          next w ack_frame rest,
          rw (small, built, frame, sent, got) refl,
          still_waiting w ack_frame rest waiting,
        )

    -- With at most 254 bytes of data, over a port that takes the frame of the data with the byte for
    -- the TAMA protocol in front, and where the reader answers in its ten characters that the mode is
    -- unknown: these are read, and the sending returns success all the same, with no error kept
    -- in the device. Nothing else of the device changes, and what came behind is left at the port.
    pub send-unknown_mode :
        Waiting w (arygon_error_unknown_mode ++ rest)
        → (w' : W) × (send uart d input timeout
            ≡ (pos 0, record d { driver_data = w'; last_error = pos 0 }))
          × Waiting w' rest
    unfolding send take_reply check_ack_frame equal_bytes
    send-unknown_mode waiting =
        let (built, frame) = framed input bytes short in
        let small : ltb 254 (length input) ≡ false = ground arith in
        let front = take 6 arygon_error_unknown_mode in
        let more = drop 6 arygon_error_unknown_mode in
        let back = more ++ rest in
        let got = received w front back false timeout (omega arith) waiting in
        let later = still_waiting w front back waiting in
        let got' = received (next w front back) more rest false timeout (omega arith) later in
        (
          next (next w front back) more rest,
          rw (small, built, frame, sent, got, got') refl,
          still_waiting (next w front back) more rest later,
        )
