-- ===== src/Types.antt =====
-- The types of include/nfc/nfc-types.h: modulations, properties, and what is known of a target.
use libnfc.Prelude.{ℕ, Option, List}

pub data NfcProperty : Type 0 where
  np_timeout_command np_timeout_atr np_timeout_com np_handle_crc np_handle_parity : NfcProperty
  np_activate_field np_activate_crypto1 np_infinite_select np_accept_invalid_frames : NfcProperty
  np_accept_multiple_frames np_auto_iso14443_4 np_easy_framing np_force_iso14443_a : NfcProperty
  np_force_iso14443_b np_force_speed_106 : NfcProperty

pub data NfcModulationType : Type 0 where
  nmt_iso14443a nmt_jewel nmt_iso14443b nmt_iso14443bi nmt_iso14443b2sr : NfcModulationType
  nmt_iso14443b2ct nmt_felica nmt_dep : NfcModulationType

pub data NfcBaudRate : Type 0 where
  nbr_undefined nbr_106 nbr_212 nbr_424 nbr_847 : NfcBaudRate

pub record NfcModulation : Type 0 where
  pub nmt : NfcModulationType
  pub nbr : NfcBaudRate

pub data NfcDepMode : Type 0 where
  ndm_undefined ndm_passive ndm_active : NfcDepMode

-- An array with its count of bytes in use is the list of these.
pub record NfcDepInfo : Type 0 where
  pub nfcid3 : List ℕ
  pub did : ℕ
  pub bs : ℕ
  pub br : ℕ
  pub to : ℕ
  pub pp : ℕ
  pub gb : List ℕ
  pub ndm : NfcDepMode

pub record NfcIso14443aInfo : Type 0 where
  pub atqa : List ℕ
  pub sak : ℕ
  pub uid : List ℕ
  pub ats : List ℕ

-- `none` in a field: the code leaves it as it was.
pub record NfcFelicaInfo : Type 0 where
  pub len : ℕ
  pub res_code : ℕ
  pub id : List ℕ
  pub pad : List ℕ
  pub sys_code : Option (List ℕ)

pub record NfcIso14443bInfo : Type 0 where
  pub pupi : List ℕ
  pub application_data : List ℕ
  pub protocol_info : List ℕ
  pub card_identifier : Option ℕ

pub record NfcIso14443biInfo : Type 0 where
  pub div : List ℕ
  pub ver_log : ℕ
  pub config : Option ℕ
  pub atr : Option (List ℕ)

pub record NfcIso14443b2ctInfo : Type 0 where
  pub uid : List ℕ
  pub prod_code : ℕ
  pub fab_code : ℕ

pub record NfcJewelInfo : Type 0 where
  pub sens_res : List ℕ
  pub id : List ℕ

-- The union: the member that was written last.
pub data NfcTargetInfo : Type 0 where
  nai : NfcIso14443aInfo → NfcTargetInfo
  nfi : NfcFelicaInfo → NfcTargetInfo
  nbi : NfcIso14443bInfo → NfcTargetInfo
  nii : NfcIso14443biInfo → NfcTargetInfo
  nsi : List ℕ → NfcTargetInfo
  nci : NfcIso14443b2ctInfo → NfcTargetInfo
  nji : NfcJewelInfo → NfcTargetInfo
  ndi : NfcDepInfo → NfcTargetInfo

pub record NfcTarget : Type 0 where
  pub nti : NfcTargetInfo
  pub nm : NfcModulation
