-- ===== src/Drivers/Pn532Uart/Tests.antt =====
-- The driver over a port that is a list of waiting bytes.
use libnfc.Prelude.{ℕ, ◌≡◌, refl, arith, List, [], ◌∷◌, ◌++◌}
use libnfc.Prelude.Int.{pos}
use libnfc.Pn53x.Device.{Device}
use libnfc.Pn53x.Frame.Format.{encode}
use libnfc.Pn53x.Samples.{sample}
use libnfc.Drivers.Line.{line, line-Delivers}
use libnfc.Drivers.Pn532Uart.{receive}
use libnfc.Api.{nfc_initiator_init}
use libnfc.Pn53x.Monad.{return, Transceive}
use libnfc.Pn53x.Monad.Post.{Returns}
use libnfc.Drivers.Pn532Uart.Table.{pn532_uart_driver, Initialised, nfc_initiator_init-Initialised}
use libnfc.Drivers.Pn532Uart.Laws.{receive-encode}

-- The firmware version of a PN532, with one byte of a later frame behind.
abbrev version : List ℕ
version = 0x32 ∷ 0x01 ∷ 0x06 ∷ 0x07 ∷ []

abbrev device : Device (List ℕ)
device = sample (encode 0xd5 (0x03 ∷ version) ++ 0x00 ∷ [])

receive-encode_example :
    (w : List ℕ) × (receive (line []) device 264 (pos 100)
      ≡ (pos 4, version, record device { driver_data = w; last_error = pos 0 }))
    × (w ≡ 0x00 ∷ [])
receive-encode_example =
    receive-encode (line []) (line-Delivers []) device version (0x00 ∷ []) 264 (pos 100)
      (omega arith, (omega arith, (omega arith, (omega arith, tt)))) (omega arith) (omega arith)
      (omega arith) refl

-- A chip that acknowledges every command.
abbrev agreeing : Transceive (List ℕ)
agreeing tx room timeout = return (pos 0, [])

nfc_initiator_init-Initialised_example :
    Returns
      (Initialised agreeing)
      (nfc_initiator_init (pn532_uart_driver agreeing 3 [] 0) (sample []))
nfc_initiator_init-Initialised_example =
    nfc_initiator_init-Initialised agreeing (λ tx room timeout d default. default) 3 [] 0
      (sample [])
