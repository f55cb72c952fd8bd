-- ===== src/Drivers/Pn532Uart/Cache.antt =====
-- The driver leaves the write-back cache of the registers alone, so that a command over it ends.
use libnfc.Prelude.{ℕ, ◌≡◌, refl, arith, true, false, List, get_or, ◌+◌, ◌*◌, ◌^◌}
use libnfc.Prelude.Int.{ℤ, pos}
use libnfc.Pn53x.Device.{Device, SamMode, psm_normal}
use libnfc.Drivers.Uart.{Uart}
use libnfc.Drivers.Answer.{minus_two}
use libnfc.Drivers.Answer.Cache.{receive_body-wb_trigged}
use libnfc.Drivers.Pn532Uart.{
  send, send_frame, receive, receive_extended, fail, ack, wakeup, send_ack,
}
use libnfc.Pn53x.Transceive.{transceive}
use libnfc.Pn53x.Transceive.Fuel.{IsClean, Ends, transceive-Ends}
use libnfc.Pn53x.Frame.{check_ack_frame}

module _ {W : Type 0} (uart : Uart W) where
  receive_extended-wb_trigged :
      (d : Device W) (port : W) (capacity : ℕ) (timeout : ℤ)
      → (receive_extended uart d port capacity timeout).2.wb_trigged ≡ d.wb_trigged
  unfolding receive_extended
  receive_extended-wb_trigged d port capacity timeout =
      let (res, rx, port1) = uart.receive port 3 false timeout in
      ground (
        arith,
        receive_body-wb_trigged uart (fail uart) (λ d port res. refl) d port1
            (minus_two (get_or rx 0 0 * 2 ^ 8 + get_or rx 1 0)) capacity timeout,
      )

  ack-wb_trigged : (d : Device W) → (ack uart d).1.wb_trigged ≡ d.wb_trigged
  unfolding ack wakeup send_ack
  ack-wb_trigged d = ground arith

  receive-wb_trigged :
      (d : Device W) (capacity : ℕ) (timeout : ℤ)
      → (receive uart d capacity timeout).2.wb_trigged ≡ d.wb_trigged
  unfolding receive
  receive-wb_trigged d capacity timeout =
      let (res, rx, port) = uart.receive d.driver_data 5 true timeout in
      ground (
        arith,
        ack-wb_trigged (record d { driver_data = port; last_error = res }),
        receive_extended-wb_trigged d port capacity timeout,
        receive_body-wb_trigged uart (fail uart) (λ d port res. refl) d port
            (minus_two (get_or rx 3 0)) capacity timeout,
      )

  send_frame-wb_trigged :
      (d : Device W) (input : List ℕ) (timeout : ℤ)
      → (send_frame uart d input timeout).1.wb_trigged ≡ d.wb_trigged
  unfolding send_frame check_ack_frame
  send_frame-wb_trigged d input timeout = ground arith

  -- `pn532_SAMConfiguration`, which sends a command of its own, is the parameter `sam`.
  module _ (sam : Device W → SamMode → ℤ → ℤ × Device W)
      (sam_clean : (d : Device W) (mode : SamMode) (timeout : ℤ)
        → IsClean d
        → IsClean (sam d mode timeout).1) where
    send-IsClean :
        (d : Device W) (input : List ℕ) (timeout : ℤ)
        → IsClean d
        → IsClean (send uart sam d input timeout).1
    unfolding send wakeup
    send-IsClean d input timeout clean =
        let flushed : Device W = record d { driver_data = uart.flush_input d.driver_data } in
        let d1 = (wakeup uart flushed).1 in
        let d2 = (sam d1 psm_normal (pos 1000)).1 in
        ground (
          arith,
          clean,
          sam_clean d1 psm_normal (pos 1000) clean,
          send_frame-wb_trigged flushed input timeout,
          send_frame-wb_trigged d1 input timeout,
          send_frame-wb_trigged d2 input timeout,
        )

    -- Whatever the port gives, a command over the driver comes to an end, from any device, and wherever
    -- it returns no write is left that would trigger a write-back.
    transceive-Ends_uart :
        (tx : List ℕ) (room : ℕ) (timeout : ℤ) (d : Device W)
        → Ends (
            transceive
              (record { send = send uart sam; receive = receive uart })
              2
              tx
              room
              timeout
              d)
    transceive-Ends_uart tx room timeout d =
        transceive-Ends (record { send = send uart sam; receive = receive uart })
          (record {
            send_clean = send-IsClean;
            receive_clean = λ d size timeout clean. rw (receive-wb_trigged d size timeout) clean;
          })
          0 tx room timeout d
