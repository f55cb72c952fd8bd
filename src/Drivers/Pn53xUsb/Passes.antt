-- ===== src/Drivers/Pn53xUsb/Passes.antt =====
-- The loop of `pn53x_usb_receive` comes to an end, and no access leaves the buffer.
use libnfc.Prelude.{ℕ, zero, suc, ◌+◌, ◌-◌, ◌*◌, ◌/◌, ◌%◌, ◌^◌, ◌≤◌, ◌<◌, ◌≡◌, refl, arith, min}
use libnfc.Prelude.{
  List, [], ◌∷◌, true, false, not, ltb, leb, ◌==◌, ◌&&◌, ◌||◌, length, take, Bool-cases,
}
use libnfc.Prelude.{inl, inr}
use libnfc.Prelude.Int.{ℤ, pos, negsuc, is_neg, to_size}
use libnfc.Pn53x.Device.{Device, nfc_etimeout, same_result}
use libnfc.Pn53x.Frame.{equal_bytes, ack_frame}
use libnfc.Pn53x.Monad.{M, done}
use libnfc.Pn53x.Monad.Post.{Returns, Returns-if, Returns-resume, Any}
use libnfc.Drivers.Answer.{minus_two}
use libnfc.Drivers.Usb.{Usb, ReadsWithin, fill, usb_timedout}
use libnfc.Drivers.Pn53xUsb.{
  check_end, take_packet, take_frame, receive, read_loop, take_read, pass,
}
use libnfc.Drivers.Pn53xUsb.{buffer_len}
use libnfc.Drivers.Usb.Reads.{at-Returns, length-fill}
use libnfc.Drivers.Usb.{less_pass, is_positive}
use libnfc.Drivers.Pn53xUsb.Data.{Pn53xUsbData, bulk_read, bulk_write, end_write, ack}

module _ {W : Type 0} (capacity : ℕ) (rx : List ℕ) (room : capacity + 12 ≤ length rx) where
  check_end-Returns :
      (len offset : ℕ) (d : Device W)
      → len ≤ capacity
      → offset ≤ 10
      → Returns Any (check_end capacity rx len offset d)
  unfolding check_end
  check_end-Returns len offset d fits start =
      at-Returns rx (offset + len) _ d (omega arith) λ found.
        Returns-if Any (not (_ == found)) _ _ d (λ e. tt)
          λ e.
            at-Returns rx (offset + len + 1) _ d (omega arith)
              λ postamble. Returns-if Any (not (postamble == 0x00)) _ _ d (λ e. tt) (λ e. tt)

  take_packet-Returns :
      (len offset : ℕ) (d : Device W)
      → offset ≤ 8
      → Returns Any (take_packet capacity rx len offset d)
  unfolding take_packet
  take_packet-Returns len offset d start =
      Returns-if Any (ltb capacity len) _ _ d (λ e. tt)
        λ fits. at-Returns rx offset _ d (omega arith) λ tfi.
          Returns-if Any (not (tfi == 0xd5)) _ _ d (λ e. tt)
            λ e. at-Returns rx (offset + 1) _ d (omega arith) λ code.
              Returns-if Any (not (code == d.last_command + 1)) _ _ d (λ e. tt)
                λ e.
                  let inside : ltb (length rx) (offset + 2 + len) ≡ false = ground arith in
                  rw inside (check_end-Returns len (offset + 2) d (ground arith) (omega arith))

  take_frame-Returns : (d : Device W) → Returns Any (take_frame capacity rx d)
  unfolding take_frame
  take_frame-Returns d =
      Returns-if Any (not (equal_bytes (take 3 rx) (0x00 ∷ 0x00 ∷ 0xff ∷ []))) _ _ d (λ e. tt)
        λ e. at-Returns rx 3 _ d (omega arith) λ b3. at-Returns rx 4 _ d (omega arith) λ b4.
          Returns-if Any (b3 == 0x01 && b4 == 0xff) _ _ d (λ e. tt)
            λ e.
              Returns-if Any (b3 == 0xff && b4 == 0xff) _ _ d
                (λ e. at-Returns rx 5 _ d (omega arith) λ b5.
                  at-Returns rx 6 _ d (omega arith) λ b6. at-Returns rx 7 _ d (omega arith) λ b7.
                    Returns-if Any (not ((b5 + b6 + b7) % 256 == 0)) _ _ d (λ e. tt)
                      (λ e. take_packet-Returns (minus_two (b5 * 2 ^ 8 + b6)) 8 d (omega arith)))
                λ e.
                  Returns-if Any (not (b3 + b4 == 256)) _ _ d (λ e. tt)
                    (λ e. take_packet-Returns (minus_two b3) 5 d (omega arith))

module _ {P : Type 0} (usb : Usb P) where
  end_write-Returns :
      (max : ℕ) (res : ℤ) (port : P) (timeout : ℤ) (d : Device (Pn53xUsbData P))
      → 0 < max
      → Returns Any (end_write usb max res port timeout d)
  unfolding end_write
  end_write-Returns max (negsuc n) port timeout d packets = tt
  end_write-Returns max (pos n) port timeout d packets =
      let some_room : (max == 0) ≡ false = ground arith in
      Returns-if Any (not (ltb 0 n)) _ _ d (λ e. tt)
        λ e. rw some_room (Returns-if Any (n % max == 0) _ _ d (λ e. tt) (λ e. tt))

  ack-Returns :
      (d : Device (Pn53xUsbData P)) → 0 < d.driver_data.max_packet_size → Returns Any (ack usb d)
  unfolding ack bulk_write
  ack-Returns d packets =
      let (res, port) = usb.bulk_write d.driver_data.port ack_frame (negsuc 0) in
      end_write-Returns d.driver_data.max_packet_size res port (negsuc 0)
        (record d { driver_data = record d.driver_data { port = port } }) packets

  take_read-Returns :
      (capacity : ℕ) (res : ℤ) (rx : List ℕ) (d : Device (Pn53xUsbData P))
      → capacity + 12 ≤ length rx
      → 0 < d.driver_data.max_packet_size
      → Returns Any (take_read usb capacity res rx d)
  unfolding take_read
  take_read-Returns capacity res rx d room packets =
      Returns-if Any (is_neg res) _ _ d
        (λ e. Returns-resume Any Any (ack usb d) _ (ack-Returns d packets) (λ ignored d' any. tt))
        (λ e. take_frame-Returns capacity rx room d)

  module _ (within : ReadsWithin usb) (capacity : ℕ) where
    -- A pass that the timeout leaves time for, and what comes behind it.
    pass-Returns :
        (limit : ℤ) (rx : List ℕ) (again : List ℕ → M (Pn53xUsbData P) (ℤ × List ℕ))
        (d : Device (Pn53xUsbData P))
        → capacity + 12 ≤ length rx
        → 0 < d.driver_data.max_packet_size
        → ((rx' : List ℕ) (d' : Device (Pn53xUsbData P))
            → capacity + 12 ≤ length rx'
            → 0 < d'.driver_data.max_packet_size
            → Returns Any (again rx' d'))
        → Returns Any (pass usb capacity limit rx again d)
    unfolding pass bulk_read
    pass-Returns limit rx again d room packets next =
        let (res, bytes, port) = usb.bulk_read d.driver_data.port (length rx) limit in
        let rx' = fill bytes rx in
        let room' : capacity + 12 ≤ length rx' =
          omega (arith, length-fill bytes rx (within d.driver_data.port (length rx) limit)) in
        let flag = d.driver_data.abort_flag || usb.interrupted port in
        let d1 : Device (Pn53xUsbData P) = record d {
          driver_data = record d.driver_data { port = port; abort_flag = flag };
        } in
        let d2 : Device (Pn53xUsbData P) = record d {
          driver_data = record d.driver_data { port = port; abort_flag = false };
        } in
        Returns-if Any (not (same_result res usb_timedout)) _ _ d1
          (λ e. take_read-Returns capacity res rx' d1 room' packets)
          λ e.
            Returns-if Any flag _ _ d1
              (λ e.
                Returns-resume Any Any (ack usb d2) _ (ack-Returns d2 packets)
                  (λ ignored d' any. tt))
              (λ e. next rx' d1 room' packets)

    read_loop-Returns :
        (fuel : ℕ) (timeout remaining : ℤ) (rx : List ℕ) (d : Device (Pn53xUsbData P))
        → same_result timeout (pos 0) ≡ false
        → to_size remaining < 200 * fuel
        → capacity + 12 ≤ length rx
        → 0 < d.driver_data.max_packet_size
        → Returns Any (read_loop usb fuel capacity timeout remaining rx d)
    unfolding read_loop
    read_loop-Returns zero timeout remaining rx d timed enough room packets = absurd (omega arith)
    read_loop-Returns (suc fuel) timeout (negsuc n) rx d timed enough room packets = rw timed tt
    read_loop-Returns (suc fuel) timeout (pos n) rx d timed enough room packets =
        elim (Bool-cases (ltb 200 n)) [
          | inl more ↦
              let whole : leb 200 n ≡ true = ground arith in
              let left : ltb 0 (n - 200) ≡ true = ground arith in
              let rest = n - 200 in
              let shrunk : rest < 200 * fuel = ground arith in
              rw (timed, whole, left)
                (pass-Returns (pos (min rest 200)) rx
                  (read_loop usb fuel capacity timeout (pos rest)) d room packets
                  (λ rx' d' room' packets'.
                    read_loop-Returns fuel timeout (pos rest) rx' d' timed shrunk room' packets'))
          | inr none ↦
              let spent : is_positive (less_pass (pos n)) ≡ false = ground arith in
              rw (timed, spent) tt
        ]

    -- When a read brings no more bytes than it was asked for, the packets have a size, and the caller's
    -- buffer has room for at most 263 bytes, then the receiving with a timeout returns, whatever the
    -- chip sends and whoever aborts: no access leaves the driver's buffer of 275 bytes, and one pass
    -- for each 200 milliseconds of the timeout and another one are enough.
    pub receive-Returns :
        (fuel : ℕ) (mem : List ℕ) (timeout : ℤ) (d : Device (Pn53xUsbData P))
        → capacity ≤ 263
        → length mem ≡ buffer_len
        → 0 < d.driver_data.max_packet_size
        → same_result timeout (pos 0) ≡ false
        → to_size timeout / 200 < fuel
        → Returns Any (receive usb fuel mem capacity timeout d)
    unfolding receive
    receive-Returns fuel mem timeout d small full packets timed enough =
        read_loop-Returns fuel timeout timeout mem d timed (omega arith) (omega arith) packets

  -- With a timeout of at most 200 milliseconds, or less than none, the driver reads nothing: it returns the
  -- timeout error whatever waits at the port, and keeps that error.
  pub receive-short_timeout :
      (fuel : ℕ) (mem : List ℕ) (capacity : ℕ) (timeout : ℤ) (d : Device (Pn53xUsbData P))
      → same_result timeout (pos 0) ≡ false
      → to_size timeout ≤ 200
      → receive usb (suc fuel) mem capacity timeout d
        ≡ done ((nfc_etimeout, []), record d { last_error = nfc_etimeout })
  unfolding receive read_loop
  receive-short_timeout fuel mem capacity (negsuc n) d timed short = refl
  receive-short_timeout fuel mem capacity (pos n) d timed short =
      let spent : is_positive (less_pass (pos n)) ≡ false = ground arith in rw (timed, spent) refl
