-- ===== src/Pn53x/Decode/Tests.antt =====
-- A card with a UID of seven bytes and an ATS of two.
use libnfc.Prelude.{◌≡◌, refl, inl, inr, List, [], ◌∷◌, ◌++◌, length, some}
use libnfc.Prelude.{ℕ}
use libnfc.Iso14443.Cascade.{cascade_uid}
use libnfc.Types.{nmt_iso14443a, nai}
use libnfc.Pn53x.Device.{pn532, nfc_success}
use libnfc.Pn53x.Decode.{decode_target_data}
use libnfc.Pn53x.Decode.Uid.{answer, decode_target_data-cascade_uid}

abbrev uid : List ℕ
uid = 0x04 ∷ 0x6c ∷ 0x33 ∷ 0x92 ∷ 0x2c ∷ 0x22 ∷ 0x80 ∷ []

abbrev ats : List ℕ
ats = 0x75 ∷ 0x77 ∷ []

decode_target_data-cascade_uid_example :
    (c : List ℕ) × (cascade_uid uid 7 ≡ some c)
    × (let raw = answer 1 0x03 0x44 0x20 c (some ats) in
        decode_target_data pn532 nmt_iso14443a (raw ++ []) (length raw)
        ≡ some (
          nfc_success,
          some (nai (record { atqa = 0x03 ∷ 0x44 ∷ []; sak = 0x20; uid = uid; ats = ats })),
        ))
decode_target_data-cascade_uid_example =
    decode_target_data-cascade_uid pn532 1 0x03 0x44 0x20 uid (some ats) [] (inr (inl refl))
