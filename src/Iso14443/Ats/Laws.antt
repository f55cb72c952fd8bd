-- ===== src/Iso14443/Ats/Laws.antt =====
-- The historical bytes of an ATS that is laid out as ISO/IEC 14443-4 says.
use libnfc.Prelude.{ℕ, suc, ◌+◌, ◌-◌, ◌/◌, ◌%◌, ◌<◌, ◌≡◌, refl, arith}
use libnfc.Prelude.{Option, none, some, List, [], ◌∷◌, ◌++◌, true, false, ◌==◌, ==_iff, ltb, lt→ltb}
use libnfc.Prelude.{length, take, drop, drop-append, length-append, take-all}
use libnfc.Prelude.Bits.{all_below, all_below_sound}
use libnfc.Iso14443.Ats.{historical_offset, locate_historical_bytes}

-- The bytes that a caller finds: `*pszTk` bytes from the returned pointer on, none of NULL.
abbrev pub located : List ℕ → List ℕ
located ats = elim (locate_historical_bytes ats) [
  | none ↦ []
  | some (offset, count) ↦ take count (drop offset ats)
]

abbrev flag : Option ℕ → ℕ → ℕ
flag none weight = 0
flag (some x) weight = weight

abbrev present : Option ℕ → List ℕ
present none = []
present (some x) = x ∷ []

-- An ATS without its length byte: the format byte, whose low digit is the frame size and whose bits
-- say which of TA, TB and TC follow, those bytes, and the historical bytes.
abbrev pub build_ats : ℕ → Option ℕ → Option ℕ → Option ℕ → List ℕ → List ℕ
build_ats fsci ta tb tc historical =
    (fsci + flag ta 0x10 + flag tb 0x20 + flag tc 0x40)
    ∷ ((present ta ++ (present tb ++ present tc)) ++ historical)

offset_table :
    all_below 128 (λ t. historical_offset t == 1 + t / 16 % 2 + t / 32 % 2 + t / 64 % 2) ≡ true
unfolding all_below historical_offset
offset_table = refl

historical_offset_lem :
    (t : ℕ) → t < 128 → historical_offset t ≡ 1 + t / 16 % 2 + t / 32 % 2 + t / 64 % 2
historical_offset_lem t h = (==_iff _ _).0 (
    all_below_sound 128 (λ t. historical_offset t == 1 + t / 16 % 2 + t / 32 % 2 + t / 64 % 2) t
      offset_table h)

-- The offset counts the format byte and the interface bytes that are there.
offset-build_ats :
    (fsci : ℕ) (ta tb tc : Option ℕ)
    → fsci < 16
    → historical_offset (fsci + flag ta 0x10 + flag tb 0x20 + flag tc 0x40)
      ≡ suc (length (present ta ++ (present tb ++ present tc)))
offset-build_ats fsci ta tb tc h =
    ground (arith, historical_offset_lem (fsci + flag ta 0x10 + flag tb 0x20 + flag tc 0x40))

-- With the offset known, the caller finds what stands behind the interface bytes.
located_behind :
    (t0 : ℕ) (front historical : List ℕ)
    → historical_offset t0 ≡ suc (length front)
    → located (t0 ∷ (front ++ historical)) ≡ historical
unfolding locate_historical_bytes
located_behind t0 front [] e = rw (e, located, locate_historical_bytes, ltb-same) refl
  where
    ltb-same : ltb (suc (length front)) (suc (length (front ++ []))) ≡ false
    ltb-same = ground (arith, length-append front [])
located_behind t0 front (x ∷ xs) e =
    let total = length-append front (x ∷ xs) in
    let fits = lt→ltb (suc (length front)) (suc (length (front ++ x ∷ xs))) (omega arith) in
    let count : suc (length (front ++ x ∷ xs)) - suc (length front) ≡ suc (length xs) =
      omega arith in
    rw (e, located, locate_historical_bytes, fits, count, drop-append front (x ∷ xs), take-all xs)

-- The bytes located in an ATS with a four-bit FSCI are its historical bytes, whichever interface bytes it has and however
-- many historical bytes, also none.
pub located-build_ats :
    (fsci : ℕ) (ta tb tc : Option ℕ) (historical : List ℕ)
    → fsci < 16
    → located (build_ats fsci ta tb tc historical) ≡ historical
located-build_ats fsci ta tb tc historical h =
    located_behind (fsci + flag ta 0x10 + flag tb 0x20 + flag tc 0x40)
      (present ta ++ (present tb ++ present tc)) historical (offset-build_ats fsci ta tb tc h)
