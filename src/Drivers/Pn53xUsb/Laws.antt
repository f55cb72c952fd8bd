-- ===== src/Drivers/Pn53xUsb/Laws.antt =====
-- What the driver makes of the answer of a chip that came in one transfer.
use mathlib.Core.List.{append_assoc}
use native.Mathlib.Nat.{add-zero}
use native.Mathlib.Decide.{dec_lt}
use libnfc.Prelude.{
  ℕ, zero, suc, ◌+◌, ◌-◌, ◌*◌, ◌/◌, ◌%◌, ◌^◌, ◌≤◌, ◌<◌, ◌≡◌, refl, sym, ap, subst, ◌∙◌,
}
use libnfc.Prelude.{
  List, [], ◌∷◌, ◌++◌, true, false, ltb, leb, ◌==◌, ◌&&◌, ◌||◌, length, drop, arith,
}
use libnfc.Prelude.{
  get_elem?, some, take-append, drop-append, length-append, length-drop, ==_self, min, ◌⊎◌, inl,
  inr,
}
use libnfc.Prelude.Int.{ℤ, pos}
use libnfc.Mirror.Laws.{AreBytes}
use libnfc.Pn53x.Device.{Device}
use libnfc.Pn53x.Frame.{equal_bytes}
use libnfc.Pn53x.Frame.Format.{complement, encode}
use libnfc.Pn53x.Monad.{done}
use libnfc.Drivers.Answer.{minus_two}
use libnfc.Drivers.Answer.Checksum.{checksum, subtract_bytes-checksum}
use libnfc.Drivers.Usb.{Usb}
use libnfc.Drivers.Pn53xUsb.{
  check_end, take_packet, take_frame, receive, read_loop, take_read, pass,
}
use libnfc.Drivers.Pn53xUsb.Data.{Pn53xUsbData, bulk_read}

get_elem?-add : (k i : ℕ) (xs : List ℕ) → get_elem? xs (k + i) ≡ get_elem? (drop k xs) i
get_elem?-add zero i xs = ap (get_elem? xs) (omega arith)
get_elem?-add (suc k) i [] = refl
get_elem?-add (suc k) i (x ∷ xs) =
    let step : suc k + i ≡ suc (k + i) = omega arith in rw step (get_elem?-add k i xs)

drop-nil : (k : ℕ) → drop {A = ℕ} k [] ≡ []
drop-nil zero = refl
drop-nil (suc k) = refl

drop-add : (k i : ℕ) (xs : List ℕ) → drop (k + i) xs ≡ drop i (drop k xs)
drop-add zero i xs = ap (λ n. drop n xs) (omega arith)
drop-add (suc k) i [] = drop-nil (suc k + i) ∙ sym (drop-nil i)
drop-add (suc k) i (x ∷ xs) =
    let step : suc k + i ≡ suc (k + i) = omega arith in rw step (drop-add k i xs)

get_elem?-append :
    (xs : List ℕ) (y : ℕ) (ys : List ℕ) → get_elem? (xs ++ y ∷ ys) (length xs) ≡ some y
get_elem?-append [] y ys = refl
get_elem?-append (x ∷ xs) y ys = get_elem?-append xs y ys

module _ {W : Type 0} (d : Device W) (capacity : ℕ) (rx payload more : List ℕ)
    (bytes : AreBytes payload) (small : d.last_command < 255) where
  check_end-payload :
      (offset : ℕ)
      → drop offset rx ≡ payload ++ (checksum d.last_command payload ∷ 0x00 ∷ more)
      → check_end capacity rx (length payload) offset d
        ≡ done ((pos (length payload), payload), record d { last_error = pos 0 })
  unfolding check_end
  check_end-payload offset behind =
      let dcs = checksum d.last_command payload in
      let tail = dcs ∷ 0x00 ∷ more in
      let shifted : offset + length payload + 1 ≡ offset + (length payload + 1) = omega arith in
      let third : get_elem? (payload ++ tail) (length payload + 1) ≡ some 0x00 =
        get_elem?-add (length payload) 1 (payload ++ tail)
        ∙ ap (λ t. get_elem? t 1) (drop-append payload tail) in
      rw
        (
          get_elem?-add offset (length payload) rx,
          shifted,
          get_elem?-add offset (length payload + 1) rx,
          behind,
          take-append payload tail,
          get_elem?-append payload dcs (0x00 ∷ more),
          third,
          subtract_bytes-checksum d.last_command payload bytes small,
          ==_self dcs,
        )
        refl

  take_packet-payload :
      (offset : ℕ)
      → length payload ≤ capacity
      → drop offset rx
        ≡ 0xd5 ∷ (d.last_command + 1) ∷ (payload ++ (checksum d.last_command payload ∷ 0x00 ∷ more))
      → take_packet capacity rx (length payload) offset d
        ≡ done ((pos (length payload), payload), record d { last_error = pos 0 })
  unfolding take_packet
  take_packet-payload offset fits behind =
      let code = d.last_command + 1 in
      let tail = checksum d.last_command payload ∷ 0x00 ∷ more in
      let room : ltb capacity (length payload) ≡ false = ground arith in
      let start : get_elem? rx offset ≡ some 0xd5 =
        subst (λ i. get_elem? rx i ≡ some 0xd5) (add-zero offset)
          (get_elem?-add offset 0 rx ∙ ap (λ t. get_elem? t 0) behind) in
      let second : get_elem? rx (offset + 1) ≡ some code =
        get_elem?-add offset 1 rx ∙ ap (λ t. get_elem? t 1) behind in
      let later : drop (offset + 2) rx ≡ payload ++ tail =
        drop-add offset 2 rx ∙ ap (drop 2) behind in
      let inside : ltb (length rx) (offset + 2 + length payload) ≡ false =
        ground (arith, ap length behind, length-drop offset rx, length-append payload tail) in
      rw (room, start, second, ==_self code, inside) (check_end-payload (offset + 2) later)

-- The frame of an answer to the last command, with a payload that fits the caller's buffer.
module _ {W : Type 0} (d : Device W) (capacity : ℕ) (payload more : List ℕ)
    (bytes : AreBytes payload) (small : d.last_command < 255)
    (fits : length payload ≤ capacity) where
  abbrev packet : List ℕ
  packet =
      0xd5 ∷ (d.last_command + 1) ∷ (payload ++ (checksum d.last_command payload ∷ 0x00 ∷ more))

  take_frame_normal :
      length payload + 2 ≤ 255
      → let n = suc (suc (length payload)) in
        take_frame capacity (0x00 ∷ 0x00 ∷ 0xff ∷ n ∷ complement n ∷ packet) d
        ≡ done ((pos (length payload), payload), record d { last_error = pos 0 })
  unfolding take_frame equal_bytes
  take_frame_normal short =
      let n = suc (suc (length payload)) in
      let not_error : (n == 0x01) ≡ false = ground arith in
      let not_extended : (n == 0xff && complement n == 0xff) ≡ false = ground arith in
      let checked : (n + complement n == 256) ≡ true = ground arith in
      let len : minus_two n ≡ length payload = omega arith in
      rw (not_error, not_extended, checked, len)
        (take_packet-payload d capacity (0x00 ∷ 0x00 ∷ 0xff ∷ n ∷ complement n ∷ packet) payload
          more bytes small 5 fits refl)

  take_frame_extended :
      length payload + 2 < 2 ^ 16
      → let n = suc (suc (length payload)) in
        take_frame capacity
          (0x00
            ∷ 0x00
            ∷ 0xff
            ∷ 0xff
            ∷ 0xff
            ∷ (n / 256)
            ∷ (n % 256)
            ∷ complement (n / 256 + n % 256)
            ∷ packet)
          d
        ≡ done ((pos (length payload), payload), record d { last_error = pos 0 })
  unfolding take_frame equal_bytes
  take_frame_extended short =
      let n = suc (suc (length payload)) in
      let checked : ((n / 256 + n % 256 + complement (n / 256 + n % 256)) % 256 == 0) ≡ true =
        ground arith in
      let len : minus_two (n / 256 * 2 ^ 8 + n % 256) ≡ length payload = omega arith in
      rw (checked, len)
        (take_packet-payload d capacity
          (0x00
            ∷ 0x00
            ∷ 0xff
            ∷ 0xff
            ∷ 0xff
            ∷ (n / 256)
            ∷ (n % 256)
            ∷ complement (n / 256 + n % 256)
            ∷ packet)
          payload more bytes small 8 fits refl)

  pub take_frame-encode :
      length payload + 2 < 2 ^ 16
      → take_frame capacity (encode 0xd5 ((d.last_command + 1) ∷ payload) ++ more) d
        ≡ done ((pos (length payload), payload), record d { last_error = pos 0 })
  take_frame-encode short =
      let regroup = append_assoc payload (checksum d.last_command payload ∷ 0x00 ∷ []) more in
      elim (dec_lt 255 (suc (suc (length payload)))) [
        | yes long ↦
            let big : leb (suc (suc (length payload))) 255 ≡ false = ground arith in
            rw (big, regroup) (take_frame_extended short)
        | no normal ↦
            let little : leb (suc (suc (length payload))) 255 ≡ true = ground arith in
            rw (little, regroup) (take_frame_normal (omega arith))
      ]

module _ {P : Type 0} (usb : Usb P) (d : Device (Pn53xUsbData P)) where
  -- When the first transfer brings the frame of the answer to the last command, normal or extended,
  -- with a payload of bytes that fits the caller's buffer and the length field, with a command code
  -- below 255, and with no timeout or one of more than 200 milliseconds: the driver returns the number
  -- of bytes of the payload and the payload, whatever was in its buffer before, it clears the last
  -- error, and takes over the port and a request to abort; nothing else of the device changes.
  pub receive-encode_usb :
      (fuel : ℕ) (mem payload : List ℕ) (capacity count : ℕ) (timeout : ℤ) (port : P)
      → AreBytes payload
      → d.last_command < 255
      → length payload ≤ capacity
      → length payload + 2 < 2 ^ 16
      → (timeout ≡ pos 0) ⊎ ((t : ℕ) × (timeout ≡ pos t) × (200 < t))
      → ((t : ℤ)
          → usb.bulk_read d.driver_data.port (length mem) t
            ≡ (pos count, encode 0xd5 ((d.last_command + 1) ∷ payload), port))
      → receive usb (suc fuel) mem capacity timeout d
        ≡ done (
          (pos (length payload), payload),
          record d {
            driver_data = record d.driver_data {
              port = port;
              abort_flag = d.driver_data.abort_flag || usb.interrupted port;
            };
            last_error = pos 0;
          },
        )
  unfolding receive read_loop pass take_read bulk_read
  receive-encode_usb fuel mem payload capacity count timeout port bytes small fits short when got =
      let frame = encode 0xd5 ((d.last_command + 1) ∷ payload) in
      let d1 : Device (Pn53xUsbData P) = record d {
        driver_data = record d.driver_data {
          port = port;
          abort_flag = d.driver_data.abort_flag || usb.interrupted port;
        };
      } in
      let taken =
        take_frame-encode d1 capacity payload (drop (length frame) mem) bytes small fits short in
      elim when [
        | inl e ↦ rw (e, got (pos 200)) taken
        | inr (t, e, long) ↦
            let whole : leb 200 t ≡ true = ground arith in
            let left : ltb 0 (t - 200) ≡ true = ground arith in
            let timed : (t == 0) ≡ false = ground arith in
            rw (e, timed, whole, left, got (pos (min (t - 200) 200))) taken
      ]
