-- ===== src/Pn53x/Modulation/Laws.antt =====
-- How the conversions agree.
use libnfc.Prelude.{◌≡◌, refl, ◌⊎◌, inl, inr}
use libnfc.Pn53x.Modulation.{
  NfcModulationType, nmt_iso14443a, nmt_jewel, nmt_iso14443b, nmt_iso14443bi,
}
use libnfc.Pn53x.Modulation.{nmt_iso14443b2sr, nmt_iso14443b2ct, nmt_felica, nmt_dep}
use libnfc.Pn53x.Modulation.{NfcBaudRate, nbr_undefined, nbr_106, nbr_212, nbr_424, nbr_847}
use libnfc.Pn53x.Modulation.{NfcModulation, nm_to_pm, nm_to_ptt, ptt_to_nm, ptt_undefined}

abbrev Agrees : NfcModulation → Type 0
Agrees nm =
    (nm_to_ptt nm ≡ ptt_undefined)
    ⊎ ((nm_to_pm (ptt_to_nm (nm_to_ptt nm)) ≡ nm_to_pm nm)
        × ((ptt_to_nm (nm_to_ptt nm)).nmt ≡ nm.nmt))

b-Agrees : (nbr : NfcBaudRate) → Agrees (record { nmt = nmt_iso14443b; nbr = nbr })
unfolding nm_to_ptt nm_to_pm ptt_to_nm
b-Agrees nbr_106 = inr (refl, refl)
b-Agrees nbr_undefined = inl refl
b-Agrees nbr_212 = inl refl
b-Agrees nbr_424 = inl refl
b-Agrees nbr_847 = inl refl

felica-Agrees : (nbr : NfcBaudRate) → Agrees (record { nmt = nmt_felica; nbr = nbr })
unfolding nm_to_ptt nm_to_pm ptt_to_nm
felica-Agrees nbr_212 = inr (refl, refl)
felica-Agrees nbr_424 = inr (refl, refl)
felica-Agrees nbr_undefined = inl refl
felica-Agrees nbr_106 = inl refl
felica-Agrees nbr_847 = inl refl

-- A modulation that has a target type for the automatic poll gets one whose own modulation is of the
-- same kind and has the same code in the command for passive targets.
ptt_to_nm-nm_to_ptt :
    (nmt : NfcModulationType) (nbr : NfcBaudRate)
    → let nm : NfcModulation = record { nmt = nmt; nbr = nbr } in
      (nm_to_ptt nm ≡ ptt_undefined)
      ⊎ ((nm_to_pm (ptt_to_nm (nm_to_ptt nm)) ≡ nm_to_pm nm)
          × ((ptt_to_nm (nm_to_ptt nm)).nmt ≡ nmt))
unfolding nm_to_ptt nm_to_pm ptt_to_nm
ptt_to_nm-nm_to_ptt nmt_iso14443a nbr = inr (refl, refl)
ptt_to_nm-nm_to_ptt nmt_jewel nbr = inr (refl, refl)
ptt_to_nm-nm_to_ptt nmt_iso14443b nbr = b-Agrees nbr
ptt_to_nm-nm_to_ptt nmt_felica nbr = felica-Agrees nbr
ptt_to_nm-nm_to_ptt nmt_iso14443bi nbr = inl refl
ptt_to_nm-nm_to_ptt nmt_iso14443b2sr nbr = inl refl
ptt_to_nm-nm_to_ptt nmt_iso14443b2ct nbr = inl refl
ptt_to_nm-nm_to_ptt nmt_dep nbr = inl refl
