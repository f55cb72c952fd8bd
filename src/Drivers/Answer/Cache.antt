-- ===== src/Drivers/Answer/Cache.antt =====
-- Reading an answer leaves the write-back cache of the registers alone.
use libnfc.Prelude.{ℕ, ◌≡◌, arith, false, List, []}
use libnfc.Prelude.Int.{ℤ}
use libnfc.Pn53x.Device.{Device, nfc_eio}
use libnfc.Drivers.Uart.{Uart}
use libnfc.Drivers.Answer.{receive_body, receive_checksum}

module _ {W : Type 0} (uart : Uart W) (failed : Device W → W → ℤ → ℤ × List ℕ × Device W)
    (kept : (d : Device W) (port : W) (res : ℤ)
      → (failed d port res).2.wb_trigged ≡ d.wb_trigged) where
  receive_checksum-wb_trigged :
      (d : Device W) (port : W) (input : List ℕ) (len : ℕ) (timeout : ℤ)
      → (receive_checksum uart failed d port input len timeout).2.wb_trigged ≡ d.wb_trigged
  unfolding receive_checksum
  receive_checksum-wb_trigged d port input len timeout =
      let (res, rx, port1) = uart.receive port 2 false timeout in
      ground (arith, kept d port1 res, kept d port1 nfc_eio)

  pub receive_body-wb_trigged :
      (d : Device W) (port : W) (len capacity : ℕ) (timeout : ℤ)
      → (receive_body uart failed d port len capacity timeout).2.wb_trigged ≡ d.wb_trigged
  unfolding receive_body
  receive_body-wb_trigged d port len capacity timeout =
      let (res, rx, port1) = uart.receive port 2 false timeout in
      let (res', input, port2) = uart.receive port1 len false timeout in
      ground (
        arith,
        kept d port nfc_eio,
        kept d port1 res,
        kept d port1 nfc_eio,
        kept d port2 res',
        receive_checksum-wb_trigged d port1 [] 0 timeout,
        receive_checksum-wb_trigged d port2 input len timeout,
      )
