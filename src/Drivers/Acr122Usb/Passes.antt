-- ===== src/Drivers/Acr122Usb/Passes.antt =====
-- The loop of `acr122_usb_receive` comes to an end, and no access leaves the buffer.
use libnfc.Prelude.{ℕ, zero, suc, ◌+◌, ◌-◌, ◌*◌, ◌/◌, ◌%◌, ◌<◌, ◌≡◌, ◌∙◌, arith, min}
use libnfc.Prelude.{List, true, false, not, ltb, leb, ◌==◌, ◌&&◌, length, Bool-cases}
use libnfc.Prelude.{inl, inr, none}
use libnfc.Prelude.Int.{ℤ, pos, negsuc, is_neg, to_size}
use libnfc.Mirror.Laws.{AreBytes}
use libnfc.Pn53x.Device.{Device, nfc_etimeout, same_result}
use libnfc.Pn53x.Monad.{M, return}
use libnfc.Pn53x.Monad.Post.{Returns, Returns-if, Returns-resume, Any}
use libnfc.Drivers.Usb.{Usb, ReadsWithin, less_pass, is_positive}
use libnfc.Drivers.Usb.Reads.{at-Returns, at-Returns_byte, length-fill, fill-AreBytes}
use libnfc.Drivers.Acr122Usb.{
  take_response, receive, read_loop, pass, by_model, finish, ask_touchatag,
}
use libnfc.Drivers.Acr122Usb.{take_packet, timed_out, buffer_len, attempted_response}
use libnfc.Drivers.Acr122Usb.Data.{Acr122UsbData, Acr122UsbModel, unknown, acr122, touchatag}
use libnfc.Drivers.Acr122Usb.Data.{
  bulk_read, bulk_write, end_write, ack, send_apdu, build_frame_from_tama, build_frame_from_apdu,
}

-- A whole buffer of bytes.
abbrev IsBuffer : List ℕ → Type 0
IsBuffer rx = (length rx ≡ buffer_len) × AreBytes rx

-- The packet of the chip, and the copy of its payload.
packet-Returns :
    {W : Type 0} (rx : List ℕ) (len : ℕ) (d : Device W)
    → length rx ≡ buffer_len
    → len < 256
    → Returns Any (take_packet rx len d)
unfolding take_packet
packet-Returns rx len d full small = at-Returns rx 10 _ d (omega arith) λ tfi.
    Returns-if Any (not (tfi == 0xd5)) _ _ d (λ e. tt)
      λ e. at-Returns rx 11 _ d (omega arith) λ code.
        Returns-if Any (not (code == d.last_command + 1)) _ _ d (λ e. tt)
          λ e. let inside : ltb (length rx) (12 + (len - 4)) ≡ false = ground arith in rw inside tt

take_response-Returns :
    {W : Type 0} (expected capacity : ℕ) (rx : List ℕ) (d : Device W)
    → IsBuffer rx
    → Returns Any (take_response expected capacity rx d)
unfolding take_response
take_response-Returns expected capacity rx d (full, bytes) =
    at-Returns rx 0 _ d (omega arith) λ header.
      Returns-if Any (not (header == expected)) _ _ d (λ e. tt)
        λ e. at-Returns_byte rx 1 _ d (omega arith) bytes λ len small.
          at-Returns rx 2 _ d (omega arith) λ b2. at-Returns rx 3 _ d (omega arith) λ b3.
            at-Returns rx 4 _ d (omega arith) λ b4.
              Returns-if Any (not (b2 == 0x00) && (not (b3 == 0x00) && not (b4 == 0x00))) _ _ d
                (λ e. tt)
                λ e.
                  Returns-if Any (ltb len 4) _ _ d (λ e. tt)
                    λ e.
                      Returns-if Any (ltb capacity (len - 4)) _ _ d (λ e. tt)
                        (λ e. packet-Returns rx len d full small)

module _ {P : Type 0} (usb : Usb P) where
  -- The packets of the port have a size.
  abbrev HasPackets : Device (Acr122UsbData P) → Type 0
  HasPackets d = 0 < d.driver_data.max_packet_size

  -- What is left after a step: a whole buffer, and packets with a size.
  abbrev Ready : ℤ × List ℕ → Device (Acr122UsbData P) → Type 0
  Ready result d = IsBuffer result.1 × HasPackets d

  end_write-Returns :
      (max : ℕ) (res : ℤ) (port : P) (timeout : ℤ) (d : Device (Acr122UsbData P))
      → 0 < max
      → HasPackets d
      → Returns (λ res d'. HasPackets d') (end_write usb max res port timeout d)
  unfolding end_write
  end_write-Returns max (negsuc n) port timeout d room packets = packets
  end_write-Returns max (pos n) port timeout d room packets =
      let some_room : (max == 0) ≡ false = ground arith in
      Returns-if (λ res d'. HasPackets d') (not (ltb 0 n)) _ _ d (λ e. packets)
        λ e.
          rw some_room (
            Returns-if (λ res d'. HasPackets d') (n % max == 0) _ _ d (λ e. packets) (λ e. packets))

  bulk_write-Returns :
      (bytes : List ℕ) (timeout : ℤ) (d : Device (Acr122UsbData P))
      → HasPackets d
      → Returns (λ res d'. HasPackets d') (bulk_write usb bytes timeout d)
  unfolding bulk_write
  bulk_write-Returns bytes timeout d packets =
      let (res, port) = usb.bulk_write d.driver_data.port bytes timeout in
      end_write-Returns d.driver_data.max_packet_size res port timeout
        (record d { driver_data = record d.driver_data { port = port } }) packets packets

  module _ (within : ReadsWithin usb)
      (reads_bytes : (p : P) (size : ℕ) (timeout : ℤ)
        → AreBytes (usb.bulk_read p size timeout).1) where
    bulk_read-Ready :
        (mem : List ℕ) (timeout : ℤ) (d : Device (Acr122UsbData P))
        → IsBuffer mem
        → HasPackets d
        → Returns Ready (bulk_read usb mem timeout d)
    unfolding bulk_read
    bulk_read-Ready mem timeout d (full, bytes) packets =
        let port = d.driver_data.port in
        let got = (usb.bulk_read port (length mem) timeout).1 in
        (
          (
            length-fill got mem (within port (length mem) timeout) ∙ full,
            fill-AreBytes got mem (reads_bytes port (length mem) timeout) bytes,
          ),
          packets,
        )

    ack-Returns :
        (mem : List ℕ) (d : Device (Acr122UsbData P))
        → IsBuffer mem
        → HasPackets d
        → Returns Any (ack usb mem d)
    unfolding ack build_frame_from_tama
    ack-Returns mem d whole packets =
        Returns-resume (λ res d'. HasPackets d') Any _ _ (bulk_write-Returns _ (pos 1000) _ packets)
          λ ignored d' packets'.
            Returns-resume {B = ℤ} Ready Any (bulk_read usb mem (pos 1000) d') (λ x. return x.0)
              (bulk_read-Ready mem (pos 1000) d' whole packets') (λ result d'' ready. tt)

    send_apdu-Ready :
        (ins p1 p2 le : ℕ) (mem : List ℕ) (d : Device (Acr122UsbData P))
        → IsBuffer mem
        → HasPackets d
        → Returns Ready (send_apdu usb ins p1 p2 none le mem d)
    unfolding send_apdu build_frame_from_apdu
    send_apdu-Ready ins p1 p2 le mem d whole packets =
        Returns-resume (λ res d'. HasPackets d') Ready _ _
          (bulk_write-Returns _ (pos 1000) _ packets)
          λ res d' packets'.
            Returns-if Ready (is_neg res) _ _ d' (λ e. (whole, packets'))
              (λ e. bulk_read-Ready mem (pos 1000) d' whole packets')

    module _ (mem : List ℕ) (whole : IsBuffer mem) (capacity : ℕ) where
      finish-Returns :
          (model : Acr122UsbModel) (res : ℤ) (rx : List ℕ) (d : Device (Acr122UsbData P))
          → IsBuffer rx
          → HasPackets d
          → Returns Any (finish usb mem model capacity res rx d)
      unfolding finish
      finish-Returns model res rx d buffer packets =
          Returns-if Any (is_neg res) _ _ d
            (λ e.
              Returns-resume Any Any _ _ (ack-Returns mem d whole packets) (λ ignored d' any. tt))
            (λ e. take_response-Returns (attempted_response model) capacity rx d buffer)

      ask_touchatag-Returns :
          (res : ℤ) (rx : List ℕ) (d : Device (Acr122UsbData P))
          → IsBuffer rx
          → HasPackets d
          → Returns Any (ask_touchatag usb mem capacity res rx d)
      unfolding ask_touchatag
      ask_touchatag-Returns res rx d buffer packets =
          let (full, bytes) = buffer in
          at-Returns rx 0 _ d (omega arith) λ header.
            Returns-if Any (not (header == 0x80)) _ _ d (λ e. tt)
              λ e. at-Returns rx 1 _ d (omega arith) λ len.
                Returns-if Any (not (len == 2)) _ _ d (λ e. tt)
                  λ e. at-Returns rx 11 _ d (omega arith) λ le.
                    Returns-resume Ready Any _ _
                      (send_apdu-Ready 0xc0 0x00 0x00 le rx d buffer packets)
                      λ result d' ready. finish-Returns touchatag res result.1 d' ready.0 ready.1

      by_model-Returns :
          (model : Acr122UsbModel) (res : ℤ) (rx : List ℕ) (d : Device (Acr122UsbData P))
          → IsBuffer rx
          → HasPackets d
          → Returns Any (by_model usb mem model capacity res rx d)
      unfolding by_model
      by_model-Returns unknown res rx d buffer packets =
          finish-Returns unknown res rx d buffer packets
      by_model-Returns acr122 res rx d buffer packets =
          finish-Returns acr122 res rx d buffer packets
      by_model-Returns touchatag res rx d buffer packets =
          ask_touchatag-Returns res rx d buffer packets

      timed_out-Returns :
          (again : M (Acr122UsbData P) (ℤ × List ℕ)) (d : Device (Acr122UsbData P))
          → HasPackets d
          → Returns Any (again d)
          → Returns Any (timed_out usb mem again d)
      unfolding timed_out
      timed_out-Returns again d packets next =
          let d1 : Device (Acr122UsbData P) = record d {
            driver_data = record d.driver_data { abort_flag = false };
          } in
          Returns-if Any d.driver_data.abort_flag _ again d
            (λ e.
              Returns-resume Any Any (ack usb mem d1) _ (ack-Returns mem d1 whole packets)
                (λ ignored d' any. tt))
            (λ e. next)

      pass-Returns :
          (limit : ℤ) (rx : List ℕ) (again : List ℕ → M (Acr122UsbData P) (ℤ × List ℕ))
          (d : Device (Acr122UsbData P))
          → IsBuffer rx
          → HasPackets d
          → ((rx' : List ℕ) (d' : Device (Acr122UsbData P))
              → IsBuffer rx'
              → HasPackets d'
              → Returns Any (again rx' d'))
          → Returns Any (pass usb mem capacity limit rx again d)
      unfolding pass
      pass-Returns limit rx again d buffer packets next =
          Returns-resume Ready Any (bulk_read usb rx limit d) _
            (bulk_read-Ready rx limit d buffer packets)
            λ result d1 ready.
              Returns-if Any (same_result result.0 nfc_etimeout) _ _ d1
                (λ e.
                  timed_out-Returns (again result.1) d1 ready.1 (next result.1 d1 ready.0 ready.1))
                (λ e. by_model-Returns d1.driver_data.model result.0 result.1 d1 ready.0 ready.1)

      read_loop-Returns :
          (fuel : ℕ) (timeout remaining : ℤ) (rx : List ℕ) (d : Device (Acr122UsbData P))
          → same_result timeout (pos 0) ≡ false
          → to_size remaining < 200 * fuel
          → IsBuffer rx
          → HasPackets d
          → Returns Any (read_loop usb fuel mem capacity timeout remaining rx d)
      unfolding read_loop
      read_loop-Returns zero timeout remaining rx d timed enough buffer packets =
          absurd (omega arith)
      read_loop-Returns (suc fuel) timeout (negsuc n) rx d timed enough buffer packets = rw timed tt
      read_loop-Returns (suc fuel) timeout (pos n) rx d timed enough buffer packets =
          elim (Bool-cases (ltb 200 n)) [
            | inl more ↦
                let whole_pass : leb 200 n ≡ true = ground arith in
                let left : ltb 0 (n - 200) ≡ true = ground arith in
                let rest = n - 200 in
                let shrunk : rest < 200 * fuel = ground arith in
                rw (timed, whole_pass, left)
                  (pass-Returns (pos (min rest 200)) rx
                    (read_loop usb fuel mem capacity timeout (pos rest)) d buffer packets
                    (λ rx' d' buffer' packets'.
                      read_loop-Returns fuel timeout (pos rest) rx' d' timed shrunk buffer'
                        packets'))
            | inr none_left ↦
                let spent : is_positive (less_pass (pos n)) ≡ false = ground arith in
                rw (timed, spent) tt
          ]

  -- When a read brings bytes, and no more of them than it was asked for, and the packets have a size,
  -- then the receiving with a timeout returns on every model of reader, whatever the reader sends, whatever
  -- room the caller's buffer has, and whoever aborts: no access leaves the driver's buffer of 265 bytes,
  -- and one pass for each 200 milliseconds of the timeout and another one are enough.
  pub receive-Returns_usb :
      ReadsWithin usb
      → ((p : P) (size : ℕ) (timeout : ℤ) → AreBytes (usb.bulk_read p size timeout).1)
      → (fuel : ℕ) (mem : List ℕ) (capacity : ℕ) (timeout : ℤ) (d : Device (Acr122UsbData P))
      → length mem ≡ buffer_len
      → AreBytes mem
      → 0 < d.driver_data.max_packet_size
      → same_result timeout (pos 0) ≡ false
      → to_size timeout / 200 < fuel
      → Returns Any (receive usb fuel mem capacity timeout d)
  unfolding receive
  receive-Returns_usb within reads_bytes fuel mem capacity timeout d full bytes packets timed
        enough =
      read_loop-Returns within reads_bytes mem (full, bytes) capacity fuel timeout timeout mem d
        timed (omega arith) (full, bytes) packets
