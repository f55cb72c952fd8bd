-- ===== src/Iso14443/Cascade.antt =====
-- `iso14443_cascade_uid`.
pub mod Laws
use libnfc.Prelude.{ℕ, ◌+◌, Option, none, some, List, [], ◌∷◌, ◌++◌, leb, ◌==◌, if◌then◌else◌}
use libnfc.Prelude.{length, take, drop}

-- `abtUID` has at least `szUID` bytes (`none` if not, a read past them). The result is the bytes
-- written to `pbtCascadedUID` from its start on; their number is `*pszCascadedUID`.
unfoldable pub cascade_uid : List ℕ → ℕ → Option (List ℕ)
cascade_uid uid size =
    if leb size (length uid)
    then (if size == 7
        then some (0x88 ∷ take 7 uid)
        else if size == 10
        then some (0x88 ∷ (take 3 uid ++ 0x88 ∷ take 7 (drop 3 uid)))
        else some (take size uid))
    else none
