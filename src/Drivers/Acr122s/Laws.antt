-- ===== src/Drivers/Acr122s/Laws.antt =====
-- The frames of the reader, from their description, and what the driver makes of a response.
use mathlib.Core.List.{append_assoc}
use native.Mathlib.Numerals.{add-one}
use libnfc.Prelude.{ℕ, suc, ◌+◌, ◌-◌, ◌%◌, ◌^◌, ◌≤◌, zero, ◌≡◌, refl, ap, arith}
use libnfc.Prelude.{List, [], ◌∷◌, ◌++◌, true, false, ltb, length, length-append, drop}
use libnfc.Prelude.{set, get_or, take-append, ==_self}
use libnfc.Prelude.Int.{ℤ, pos}
use libnfc.Pn53x.Device.{Device}
use libnfc.Pn53x.Frame.{equal_bytes}
use libnfc.Pn53x.Monad.{done}
use libnfc.Drivers.Uart.{Uart, Delivers}
use libnfc.Drivers.Acr122s.{Acr122sData, receive, recv_frame, send, send_frame}
use libnfc.Drivers.Acr122s.Frame.{frame_size, fix_frame, build_frame, xor_bytes, le32}
use libnfc.Drivers.Acr122s.Frame.{max_frame_size}

set-append : (xs ys : List ℕ) (y v i : ℕ) → i ≡ length xs → set (xs ++ y ∷ ys) i v ≡ xs ++ v ∷ ys
set-append [] ys y v i e = rw e refl
set-append (x ∷ xs) ys y v zero e = absurd (omega arith)
set-append (x ∷ xs) ys y v (suc i) e = ap (λ t. x ∷ t) (set-append xs ys y v i (omega arith))

set-append_next :
    (xs ys : List ℕ) (y z v i : ℕ)
    → i ≡ suc (length xs)
    → set (xs ++ y ∷ z ∷ ys) i v ≡ xs ++ y ∷ v ∷ ys
set-append_next [] ys y z v i e = rw e refl
set-append_next (x ∷ xs) ys y z v zero e = absurd (omega arith)
set-append_next (x ∷ xs) ys y z v (suc i) e =
    ap (λ t. x ∷ t) (set-append_next xs ys y z v i (omega arith))

-- A frame around `body`: the start byte, the checksum that makes the bytes behind it cancel out, and
-- the end byte.
abbrev pub enclosed : List ℕ → List ℕ
enclosed body = 0x02 ∷ (body ++ xor_bytes 0 body ∷ 0x03 ∷ [])

fix_frame-enclosed :
    (b t u : ℕ) (body more : List ℕ)
    → frame_size (b ∷ (body ++ t ∷ u ∷ more)) ≡ length body + 3
    → fix_frame (b ∷ (body ++ t ∷ u ∷ more)) ≡ enclosed body ++ more
unfolding fix_frame
fix_frame-enclosed b t u body more size =
    let n = length body in
    let last : n + 3 - 1 ≡ suc (suc n) = omega arith in
    let csum : n + 3 - 2 ≡ suc n = omega arith in
    let count : n + 3 - 3 ≡ n = omega arith in
    rw
      (
        size,
        last,
        csum,
        count,
        set-append_next body more t u 0x03 (suc n) refl,
        take-append body (t ∷ 0x03 ∷ more),
      )
      (rw
        (
          set-append body (0x03 ∷ more) t (xor_bytes 0 body) n refl,
          append_assoc body (xor_bytes 0 body ∷ 0x03 ∷ []) more,
        )
        refl)

-- A command for the chip: the message with its length and number, and a pseudo-APDU around `apdu`.
abbrev pub command : ℕ → List ℕ → List ℕ
command seq apdu =
    0x6f
    ∷ (le32 (5 + length apdu)
        ++ (0x00 ∷ seq ∷ 0x00 ∷ 0x00 ∷ 0x00 ∷ 0xff ∷ 0x00 ∷ 0x00 ∷ 0x00 ∷ length apdu ∷ apdu))

command-size :
    (seq b : ℕ) (apdu rest : List ℕ)
    → length apdu ≤ 255
    → frame_size (b ∷ (command seq apdu ++ rest)) ≡ length (command seq apdu) + 3
unfolding frame_size
command-size seq b apdu rest short = omega arith

enclosed-size :
    (seq : ℕ) (apdu more : List ℕ)
    → length apdu ≤ 255
    → frame_size (enclosed (command seq apdu) ++ more) ≡ length (enclosed (command seq apdu))
unfolding frame_size
enclosed-size seq apdu more short =
    omega (arith, length-append apdu (xor_bytes 0 (command seq apdu) ∷ 0x03 ∷ []))

drop-two :
    (k : ℕ) (xs : List ℕ)
    → k + 2 ≤ length xs
    → (t u : ℕ) × (drop k xs ≡ t ∷ u ∷ drop (suc (suc k)) xs)
drop-two zero [] h = absurd (omega arith)
drop-two zero (t ∷ []) h = absurd (omega arith)
drop-two zero (t ∷ u ∷ xs) h = (t, u, refl)
drop-two (suc k) [] h = absurd (omega arith)
drop-two (suc k) (x ∷ xs) h = drop-two k xs (omega arith)

build_frame-command :
    (seq : ℕ) (mem input : List ℕ)
    → length mem ≡ max_frame_size
    → length input ≤ 254
    → (more : List ℕ) × (build_frame seq mem 0x00 0x00 input 1
        ≡ (true, enclosed (command seq (0xd4 ∷ input)) ++ more))
unfolding build_frame
build_frame-command seq mem input full short =
    let room : ltb (length mem) (length input + 18 + 1) ≡ false = ground arith in
    let small : ltb 255 (length input + 1) ≡ false = ground arith in
    let k = 16 + suc (length input) in
    let (t, u, e) = drop-two k mem (omega arith) in
    let more = drop (suc (suc k)) mem in
    let size = command-size seq (get_or mem 0 0) (0xd4 ∷ input) (t ∷ u ∷ more) (omega arith) in
    let framed = fix_frame-enclosed (get_or mem 0 0) t u (command seq (0xd4 ∷ input)) more size in
    (more, rw (room, small, add-one (length input), e) (ap (λ frame. (true, frame)) framed))

response-size :
    (n start message : ℕ) (rest : List ℕ)
    → n ≤ 256
    → frame_size (start ∷ message ∷ (le32 (n + 4) ++ rest)) ≡ n + 17
unfolding frame_size
response-size n start message rest small = omega arith

module _ {P : Type 0} (uart : Uart P) (port : Delivers uart) (d : Device (Acr122sData P)) where
  open port use {Waiting, next, received, still_waiting}

  -- With at most 254 bytes of data and a port that takes the frame of the command with the reader's
  -- number of the message, and where a positive acknowledgement comes back: the sending succeeds and
  -- counts the message, with the wrap-around of a byte; nothing else changes, and what came behind the
  -- acknowledgement is left at the port.
  pub send-command :
      (mem input rest : List ℕ) (timeout : ℤ) (w : P)
      → length mem ≡ max_frame_size
      → length input ≤ 254
      → uart.send
          (uart.flush_input d.driver_data.port)
          (enclosed (command d.driver_data.seq (0xd4 ∷ input)))
          timeout
        ≡ (pos 0, w)
      → Waiting w (0x02 ∷ 0x00 ∷ 0x00 ∷ 0x03 ∷ rest)
      → (w' : P) × (send uart mem input timeout d
          ≡ done (
            pos 0,
            record d { driver_data = record { port = w'; seq = (d.driver_data.seq + 1) % 256 } },
          ))
        × Waiting w' rest
  unfolding send send_frame equal_bytes
  send-command mem input rest timeout w full short sent waiting =
      let (more, built) = build_frame-command d.driver_data.seq mem input full short in
      let body = command d.driver_data.seq (0xd4 ∷ input) in
      let n = length (enclosed body) in
      let size : frame_size (enclosed body ++ more) ≡ n =
        enclosed-size d.driver_data.seq (0xd4 ∷ input) more (omega arith) in
      let fits : ltb (length (enclosed body ++ more)) n ≡ false =
        ground (arith, length-append (enclosed body) more) in
      let ack = 0x02 ∷ 0x00 ∷ 0x00 ∷ 0x03 ∷ [] in
      let got = received w ack rest true timeout (omega arith) waiting in
      (
        next w ack rest,
        rw (built, size, fits, take-append (enclosed body) more, sent, got) refl,
        still_waiting w ack rest waiting,
      )

  -- With at most 256 bytes of payload that fit the caller's buffer, on a port where a response with
  -- the number of the last message waits: the driver returns the number of bytes of the payload and
  -- the payload, clears the last error, changes nothing else, and leaves at the port what came behind.
  -- This holds whatever the kind of the message, the status, the direction byte, the code of the
  -- command, the status words, the checksum and the end byte are: the driver looks at none of them.
  pub receive_response :
      (mem payload rest : List ℕ) (capacity : ℕ) (timeout : ℤ)
      (start message slot seq status error chain direction code sw1 sw2 checksum end : ℕ)
      → length mem ≡ max_frame_size
      → length payload ≤ 256
      → length payload ≤ capacity
      → (seq + 1) % 256 ≡ d.driver_data.seq
      → Waiting d.driver_data.port (
          start
          ∷ message
          ∷ (le32 (length payload + 4)
              ++ (slot
                  ∷ seq
                  ∷ status
                  ∷ error
                  ∷ chain
                  ∷ direction
                  ∷ code
                  ∷ (payload ++ sw1 ∷ sw2 ∷ checksum ∷ end ∷ rest))))
      → (w : P) × (receive uart mem capacity timeout d
          ≡ done (
            (pos (length payload), payload),
            record d { driver_data = record d.driver_data { port = w }; last_error = pos 0 },
          ))
        × Waiting w rest
  unfolding receive recv_frame
  receive_response mem payload rest capacity timeout start message slot seq status error chain
        direction code sw1 sw2 checksum end full short fits same waiting =
      let n = length payload in
      let front = start ∷ message ∷ (le32 (n + 4) ++ (slot ∷ seq ∷ status ∷ error ∷ chain ∷ [])) in
      let body = direction ∷ code ∷ (payload ++ sw1 ∷ sw2 ∷ checksum ∷ end ∷ []) in
      let regroup = append_assoc payload (sw1 ∷ sw2 ∷ checksum ∷ end ∷ []) rest in
      let w0 = d.driver_data.port in
      let tail = sw1 ∷ sw2 ∷ checksum ∷ end ∷ [] in
      let got = received w0 front (body ++ rest) true timeout (omega arith) (rw regroup waiting) in
      let w1 = next w0 front (body ++ rest) in
      let later = still_waiting w0 front (body ++ rest) (rw regroup waiting) in
      let got' = received w1 body rest true timeout (omega arith) later in
      let size = λ (back : List ℕ).
        response-size n start message (slot ∷ seq ∷ status ∷ error ∷ chain ∷ back) short in
      let enough : ltb (length mem) 13 ≡ false = ground arith in
      let room : ltb (length mem) (n + 17) ≡ false = ground arith in
      let remaining : (n + 17 + 2 ^ 32 - 11) % 2 ^ 32 ≡ length body =
        omega (arith, length-append payload tail) in
      let room' : ltb (length mem) (11 + length body) ≡ false =
        ground (arith, length-append payload tail) in
      let len : (n + 17 + 2 ^ 32 - 17) % 2 ^ 32 ≡ n = omega arith in
      let fits' : ltb capacity n ≡ false = ground arith in
      let after = drop (11 + length body) mem in
      (
        next w1 body rest,
        rw
            (
              enough,
              got,
              size (drop 11 mem),
              room,
              remaining,
              room',
              got',
              same,
              ==_self d.driver_data.seq,
              size (body ++ after),
              len,
              fits',
              append_assoc payload tail after,
              take-append payload (tail ++ after),
            )
            refl,
        still_waiting w1 body rest later,
      )
