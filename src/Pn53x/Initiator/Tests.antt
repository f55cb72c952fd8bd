-- ===== src/Pn53x/Initiator/Tests.antt =====
-- A card that answers a read with two bytes.
use libnfc.Prelude.{ℕ, List, [], ◌∷◌, some}
use libnfc.Prelude.Int.{pos}
use libnfc.Pn53x.Initiator.{transceive_bytes}
use libnfc.Pn53x.Initiator.Bounds.{Fits, transceive_bytes-Fits}
use libnfc.Pn53x.Monad.{Transceive, done}
use libnfc.Pn53x.Samples.{sample}

abbrev card : Transceive (List ℕ)
card tx size timeout d = done ((pos 3, 0x00 ∷ 0xca ∷ 0xfe ∷ []), d)

transceive_bytes-Fits_example :
    Fits 2 (transceive_bytes card (0x30 ∷ 0x04 ∷ []) (some 2) (pos 0) (sample []))
transceive_bytes-Fits_example = transceive_bytes-Fits card (0x30 ∷ 0x04 ∷ []) 2 (pos 0) (sample [])
