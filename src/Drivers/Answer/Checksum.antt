-- ===== src/Drivers/Answer/Checksum.antt =====
-- The checksum of the packet of an answer, as the drivers compute it.
use libnfc.Prelude.{ℕ, ◌+◌, ◌-◌, ◌%◌, ◌<◌, ◌≡◌, List, ◌∷◌, arith}
use libnfc.Mirror.Laws.{AreBytes}
use libnfc.Pn53x.Frame.{subtract_bytes}
use libnfc.Pn53x.Frame.Format.{sum, complement}
use libnfc.Pn53x.Frame.Laws.{subtract_bytes-complement}

-- The checksum of the answer to a command.
abbrev pub checksum : ℕ → List ℕ → ℕ
checksum command payload = complement (0xd5 + sum ((command + 1) ∷ payload))

pub subtract_bytes-checksum :
    (command : ℕ) (payload : List ℕ)
    → AreBytes payload
    → command < 255
    → subtract_bytes ((256 - 0xd5 + 256 - (command + 1) % 256) % 256) payload
      ≡ checksum command payload
subtract_bytes-checksum command payload bytes small =
    let start : (256 - 0xd5 + 256 - (command + 1) % 256) % 256 ≡ complement (0xd5 + (command + 1)) =
      omega arith in
    let sums : 0xd5 + (command + 1) + sum payload ≡ 0xd5 + sum ((command + 1) ∷ payload) =
      omega arith in
    rw (start, subtract_bytes-complement (0xd5 + (command + 1)) payload bytes, sums)
