-- ===== src/Drivers/Connstring/Tests.antt =====
-- The connection string of a PN532 at /dev/ttyUSB0 with 115200 baud.
use libnfc.Prelude.{◌≡◌, refl, arith, List, [], ◌∷◌, ℕ}
use libnfc.Prelude.Int.{pos}
use libnfc.Drivers.Connstring.{connstring_decode, connstring_of, pn532_uart_name}
use libnfc.Drivers.Connstring.Laws.{connstring_decode-connstring_of}

abbrev tty : List ℕ
tty = 47 ∷ 100 ∷ 101 ∷ 118 ∷ 47 ∷ 116 ∷ 116 ∷ 121 ∷ 85 ∷ 83 ∷ 66 ∷ 48 ∷ []

connstring_decode-connstring_of_example :
    connstring_decode pn532_uart_name
      (connstring_of pn532_uart_name tty 115200)
      (record { port = []; speed = 0 })
    ≡ (pos 3, record { port = tty; speed = 115200 })
connstring_decode-connstring_of_example =
    connstring_decode-connstring_of pn532_uart_name tty 115200 (record { port = []; speed = 0 })
      (refl, (refl, (refl, (refl, (refl, (refl, (refl, (refl, (refl, (refl, tt))))))))))
      (
        refl,
        (refl, (refl, (refl, (refl, (refl, (refl, (refl, (refl, (refl, (refl, (refl, tt))))))))))),
      )
      (omega arith) (omega arith)
