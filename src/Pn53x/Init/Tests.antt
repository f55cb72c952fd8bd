-- ===== src/Pn53x/Init/Tests.antt =====
-- A PN532 that answers every command with its firmware version, and a device in another setting.
use libnfc.Prelude.{ℕ, refl, false, List, [], ◌∷◌}
use libnfc.Prelude.Int.{pos}
use libnfc.Pn53x.Device.{Device, pn532}
use libnfc.Pn53x.Init.{init, firmware_type}
use libnfc.Pn53x.Init.Laws.{identified, init-Default}
use libnfc.Pn53x.Monad.{Transceive, done}
use libnfc.Pn53x.Properties.Defaults.{Succeeds, Default}
use libnfc.Pn53x.Samples.{sample}

abbrev version : List ℕ
version = 0x32 ∷ 0x01 ∷ 0x06 ∷ 0x07 ∷ []

abbrev chip : Transceive (List ℕ)
chip tx size timeout d = done ((pos 4, version), d)

abbrev raw : Device (List ℕ)
raw = record (sample []) { crc = false; par = false; tx_bits = 3 }

init-Default_example : Succeeds (init chip) raw Default
unfolding firmware_type
init-Default_example =
    init-Default chip raw raw (identified pn532 version raw) 4 4 version version pn532 refl refl
      refl
