-- ===== src/Drivers/Arygon/Tests.antt =====
-- The driver over a port that is a list of waiting bytes.
use libnfc.Prelude.{◌≡◌, refl, arith, List, [], ◌∷◌, ℕ}
use libnfc.Prelude.Int.{pos}
use libnfc.Pn53x.Device.{Device}
use libnfc.Pn53x.Frame.Format.{encode}
use libnfc.Pn53x.Samples.{sample}
use libnfc.Drivers.Line.{line, line-Delivers}
use libnfc.Drivers.Arygon.{send, arygon_error_unknown_mode}
use libnfc.Drivers.Arygon.Laws.{send-unknown_mode}

-- The firmware version of a PN532 waits.
abbrev device : Device (List ℕ)
device = sample (encode 0xd5 (0x03 ∷ 0x32 ∷ 0x01 ∷ 0x06 ∷ 0x07 ∷ []))

-- A diagnosis; the reader does not know the mode.
send-unknown_mode_example :
    (w' : List ℕ) × (send (line arygon_error_unknown_mode) device (0x00 ∷ []) (pos 100)
      ≡ (pos 0, record device { driver_data = w'; last_error = pos 0 }))
    × (w' ≡ [])
send-unknown_mode_example =
    send-unknown_mode (line arygon_error_unknown_mode) (line-Delivers arygon_error_unknown_mode)
      device (0x00 ∷ []) [] (pos 100) arygon_error_unknown_mode (omega arith, tt) (omega arith) refl
      refl
