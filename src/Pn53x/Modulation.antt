-- ===== src/Pn53x/Modulation.antt =====
-- Modulations, target types and the data that a polling sends first: the conversions of
-- libnfc/chips/pn53x.c, `prepare_initiator_data` of libnfc/nfc-internal.c, and the enumerations of
-- include/nfc/nfc-types.h and libnfc/chips/pn53x.h.
pub mod Laws
use libnfc.Prelude.{ℕ, Bool, true, false, Option, none, some, List, [], ◌∷◌, if◌then◌else◌}
pub use libnfc.Types.{NfcModulationType, nmt_iso14443a, nmt_jewel, nmt_iso14443b, nmt_iso14443bi}
pub use libnfc.Types.{nmt_iso14443b2sr, nmt_iso14443b2ct, nmt_felica, nmt_dep}
pub use libnfc.Types.{NfcBaudRate, nbr_undefined, nbr_106, nbr_212, nbr_424, nbr_847, NfcModulation}
use libnfc.Pn53x.Device.{Pn53xType}
use libnfc.Pn53x.Registers.{is_pn533}

pub data Pn53xModulation : Type 0 where
  pm_undefined pm_iso14443a_106 pm_felica_212 pm_felica_424 pm_iso14443b_106 : Pn53xModulation
  pm_jewel_106 pm_iso14443b_212 pm_iso14443b_424 pm_iso14443b_847 : Pn53xModulation

pub data Pn53xTargetType : Type 0 where
  ptt_undefined ptt_generic_passive_106 ptt_generic_passive_212 : Pn53xTargetType
  ptt_generic_passive_424 ptt_iso14443_4b_106 ptt_jewel_106 ptt_mifare : Pn53xTargetType
  ptt_felica_212 ptt_felica_424 ptt_iso14443_4a_106 ptt_iso14443_4b_tcl_106 : Pn53xTargetType
  ptt_dep_passive_106 ptt_dep_passive_212 ptt_dep_passive_424 : Pn53xTargetType
  ptt_dep_active_106 ptt_dep_active_212 ptt_dep_active_424 : Pn53xTargetType

-- The two inner switches of `pn53x_nm_to_pm`.
abbrev pub pm_of_b : NfcBaudRate → Pn53xModulation
pm_of_b nbr_106 = pm_iso14443b_106
pm_of_b nbr_212 = pm_iso14443b_212
pm_of_b nbr_424 = pm_iso14443b_424
pm_of_b nbr_847 = pm_iso14443b_847
pm_of_b nbr_undefined = pm_undefined

abbrev pub pm_of_felica : NfcBaudRate → Pn53xModulation
pm_of_felica nbr_212 = pm_felica_212
pm_of_felica nbr_424 = pm_felica_424
pm_of_felica _ = pm_undefined

unfoldable pub nm_to_pm : NfcModulation → Pn53xModulation
nm_to_pm nm = elim nm.nmt [
  | nmt_iso14443a ↦ pm_iso14443a_106
  | nmt_iso14443b ↦ pm_of_b nm.nbr
  | nmt_jewel ↦ pm_jewel_106
  | nmt_felica ↦ pm_of_felica nm.nbr
  | _ ↦ pm_undefined
]

unfoldable pub ptt_to_nm : Pn53xTargetType → NfcModulation
ptt_to_nm ptt_mifare = record { nmt = nmt_iso14443a; nbr = nbr_106 }
ptt_to_nm ptt_iso14443_4a_106 = record { nmt = nmt_iso14443a; nbr = nbr_106 }
ptt_to_nm ptt_iso14443_4b_106 = record { nmt = nmt_iso14443b; nbr = nbr_106 }
ptt_to_nm ptt_iso14443_4b_tcl_106 = record { nmt = nmt_iso14443b; nbr = nbr_106 }
ptt_to_nm ptt_jewel_106 = record { nmt = nmt_jewel; nbr = nbr_106 }
ptt_to_nm ptt_felica_212 = record { nmt = nmt_felica; nbr = nbr_212 }
ptt_to_nm ptt_felica_424 = record { nmt = nmt_felica; nbr = nbr_424 }
ptt_to_nm ptt_dep_passive_106 = record { nmt = nmt_dep; nbr = nbr_106 }
ptt_to_nm ptt_dep_active_106 = record { nmt = nmt_dep; nbr = nbr_106 }
ptt_to_nm ptt_dep_passive_212 = record { nmt = nmt_dep; nbr = nbr_212 }
ptt_to_nm ptt_dep_active_212 = record { nmt = nmt_dep; nbr = nbr_212 }
ptt_to_nm ptt_dep_passive_424 = record { nmt = nmt_dep; nbr = nbr_424 }
ptt_to_nm ptt_dep_active_424 = record { nmt = nmt_dep; nbr = nbr_424 }
ptt_to_nm _ = record { nmt = nmt_iso14443a; nbr = nbr_106 }

-- The two inner switches of `pn53x_nm_to_ptt`.
abbrev pub ptt_of_b : NfcBaudRate → Pn53xTargetType
ptt_of_b nbr_106 = ptt_iso14443_4b_106
ptt_of_b _ = ptt_undefined

abbrev pub ptt_of_felica : NfcBaudRate → Pn53xTargetType
ptt_of_felica nbr_212 = ptt_felica_212
ptt_of_felica nbr_424 = ptt_felica_424
ptt_of_felica _ = ptt_undefined

unfoldable pub nm_to_ptt : NfcModulation → Pn53xTargetType
nm_to_ptt nm = elim nm.nmt [
  | nmt_iso14443a ↦ ptt_mifare
  | nmt_iso14443b ↦ ptt_of_b nm.nbr
  | nmt_jewel ↦ ptt_jewel_106
  | nmt_felica ↦ ptt_of_felica nm.nbr
  | _ ↦ ptt_undefined
]

-- The list of `pn53x_get_supported_baud_rate`, without its closing 0.
unfoldable pub supported_baud_rates : Pn53xType → NfcModulationType → List NfcBaudRate
supported_baud_rates type nmt =
    let iso14443b =
      if is_pn533 type then nbr_847 ∷ nbr_424 ∷ nbr_212 ∷ nbr_106 ∷ [] else nbr_106 ∷ [] in
    elim nmt [
      | nmt_felica ↦ nbr_424 ∷ nbr_212 ∷ []
      | nmt_iso14443a ↦ nbr_106 ∷ []
      | nmt_iso14443b ↦ iso14443b
      | nmt_iso14443bi ↦ iso14443b
      | nmt_iso14443b2sr ↦ iso14443b
      | nmt_iso14443b2ct ↦ iso14443b
      | nmt_jewel ↦ nbr_106 ∷ []
      | nmt_dep ↦ nbr_424 ∷ nbr_212 ∷ nbr_106 ∷ []
    ]

-- `prepare_initiator_data`: the bytes at `*ppbtInitiatorData`, none for NULL.
unfoldable pub prepare_initiator_data : NfcModulation → List ℕ
prepare_initiator_data nm = elim nm.nmt [
  | nmt_iso14443b ↦ 0x00 ∷ []
  | nmt_iso14443bi ↦ 0x01 ∷ 0x0b ∷ 0x3f ∷ 0x80 ∷ []
  | nmt_iso14443b2sr ↦ 0x0b ∷ []
  | nmt_iso14443b2ct ↦ 0x9f ∷ 0xff ∷ 0xff ∷ []
  | nmt_felica ↦ 0x00 ∷ 0xff ∷ 0xff ∷ 0x01 ∷ 0x00 ∷ []
  | nmt_iso14443a ↦ []
  | nmt_jewel ↦ []
  | nmt_dep ↦ []
]
