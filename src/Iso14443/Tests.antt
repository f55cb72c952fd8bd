-- ===== src/Iso14443/Tests.antt =====
-- The routines for ISO 14443 at known values: the HLTA command has the CRC 57 cd.
use libnfc.Prelude.{
  ℕ, ◌/◌, ◌%◌, ◌≡◌, arith, refl, none, some, List, [], ◌∷◌, length, take, drop, inl, inr,
}
use libnfc.Iso14443.Crc.{crc, crc_append}
use libnfc.Iso14443.Crc.Register.{feed}
use libnfc.Iso14443.Crc.Laws.{crc-eq-register, crc_append_lem}
use libnfc.Iso14443.Ats.Laws.{located, build_ats, located-build_ats}
use libnfc.Iso14443.Cascade.{cascade_uid}
use libnfc.Iso14443.Cascade.Laws.{join_levels, join_levels-cascade_uid}

abbrev hlta : List ℕ
hlta = 0x50 ∷ 0x00 ∷ 0x00 ∷ 0x00 ∷ []

crc_append_lem_example :
    (out : List ℕ) × (crc_append hlta 2 ≡ some out)
    × (take 2 out ≡ 0x50 ∷ 0x00 ∷ [])
    × (drop 4 out ≡ [])
    × (crc (take 4 out) ≡ some (0, 0))
crc_append_lem_example = crc_append_lem hlta 2 (omega arith) (omega arith)

located-build_ats_example :
    located (build_ats 8 (some 0x77) none (some 0x02) (0x80 ∷ 0x31 ∷ [])) ≡ 0x80 ∷ 0x31 ∷ []
located-build_ats_example =
    located-build_ats 8 (some 0x77) none (some 0x02) (0x80 ∷ 0x31 ∷ []) (omega arith)

crc-eq-register_example :
    let r = feed 0x6363 (0x50 ∷ 0x00 ∷ []) in crc (0x50 ∷ 0x00 ∷ []) ≡ some (r % 256, r / 256 % 256)
crc-eq-register_example = crc-eq-register 0x50 (0x00 ∷ []) (omega arith, (omega arith, tt))

abbrev uid : List ℕ
uid = 0x04 ∷ 0x11 ∷ 0x22 ∷ 0x33 ∷ 0x44 ∷ 0x55 ∷ 0x66 ∷ []

join_levels-cascade_uid_example :
    (out : List ℕ) × (cascade_uid uid 7 ≡ some out) × (join_levels out ≡ uid) × (length out ≡ 8)
join_levels-cascade_uid_example = join_levels-cascade_uid uid (inr (inl refl))
