-- ===== src/Iso14443/Ats.antt =====
-- `iso14443a_locate_historical_bytes`.
pub mod Laws
use libnfc.Prelude.{ℕ, suc, ◌+◌, ◌-◌, Option, none, some, List, [], ◌∷◌}
use libnfc.Prelude.{bit_and, ltb, ◌==◌, if◌then◌else◌, not, length}

-- `offset++` if a bit of `mask` is set in `bt`.
abbrev pub skip_if : ℕ → ℕ → ℕ → ℕ
skip_if bt mask offset = if not (bit_and bt mask == 0) then offset + 1 else offset

-- The offset after TA, TB and TC.
pub historical_offset : ℕ → ℕ
historical_offset t0 = skip_if t0 0x40 (skip_if t0 0x20 (skip_if t0 0x10 1))

-- The offset of the returned pointer and `*pszTk`; `none` is NULL, with `*pszTk` set to 0. The list
-- is the `szAts` bytes at `pbtAts`.
pub locate_historical_bytes : List ℕ → Option (ℕ × ℕ)
locate_historical_bytes [] = none
locate_historical_bytes (t0 ∷ rest) =
    let len = length (t0 ∷ rest) in
    let offset = historical_offset t0 in
    if ltb offset len then some (offset, len - offset) else none
