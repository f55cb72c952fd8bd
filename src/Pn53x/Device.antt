-- ===== src/Pn53x/Device.antt =====
-- `struct nfc_device` of libnfc/nfc-internal.h with `struct pn53x_data` of libnfc/chips/pn53x.h: the
-- device handle and, behind its `chip_data`, the state of the chip. Left out are the driver and I/O
-- tables (the operations take what they call as arguments), the texts that are only printed, and
-- the timer fields.
use libnfc.Prelude.{ℕ, ◌==◌, Bool, false, Option, List}
use libnfc.Types.{NfcTarget, NfcModulationType}
use libnfc.Prelude.Int.{ℤ, pos, negsuc}

pub data Pn53xType : Type 0 where
  pn53x pn531 pn532 pn533 rcs360 : Pn53xType

pub data PowerMode : Type 0 where
  normal powerdown lowvbat : PowerMode

pub data OperatingMode : Type 0 where
  idle initiator target : OperatingMode

pub data SamMode : Type 0 where
  psm_normal psm_virtual_card psm_wired_card psm_dual_card : SamMode

-- `W` is what lies behind `driver_data`: the port and the world at its other end. `current_target`
-- is the copied `nfc_target`.
pub record Device (W : Type 0) : Type 0 where
  pub driver_data : W
  pub crc : Bool
  pub par : Bool
  pub easy_framing : Bool
  pub auto_iso14443_4 : Bool
  pub support_byte : ℕ
  pub last_error : ℤ
  pub type : Pn53xType
  pub power_mode : PowerMode
  pub operating_mode : OperatingMode
  pub current_target : Option NfcTarget
  pub sam_mode : SamMode
  pub last_status_byte : ℕ
  pub tx_bits : ℕ
  pub parameters : ℕ
  pub last_command : ℕ
  pub wb_data : List ℕ
  pub wb_mask : List ℕ
  pub wb_trigged : Bool
  pub initiator_modulations : Option (List NfcModulationType)
  pub target_modulations : Option (List NfcModulationType)
  pub timeout_command : ℤ
  pub timeout_atr : ℤ
  pub timeout_communication : ℤ

-- The error codes of include/nfc/nfc.h.
abbrev pub nfc_success : ℤ
nfc_success = pos 0

abbrev pub nfc_eio : ℤ
nfc_eio = negsuc 0

abbrev pub nfc_einvarg : ℤ
nfc_einvarg = negsuc 1

abbrev pub nfc_edevnotsupp : ℤ
nfc_edevnotsupp = negsuc 2

abbrev pub nfc_eovflow : ℤ
nfc_eovflow = negsuc 4

abbrev pub nfc_etimeout : ℤ
nfc_etimeout = negsuc 5

abbrev pub nfc_eopaborted : ℤ
nfc_eopaborted = negsuc 6

abbrev pub nfc_enotimpl : ℤ
nfc_enotimpl = negsuc 7

abbrev pub nfc_etgreleased : ℤ
nfc_etgreleased = negsuc 9

abbrev pub nfc_erftrans : ℤ
nfc_erftrans = negsuc 19

abbrev pub nfc_echip : ℤ
nfc_echip = negsuc 89

-- `res == e` on results.
abbrev pub same_result : ℤ → ℤ → Bool
same_result (pos a) (pos b) = a == b
same_result (pos a) (negsuc b) = false
same_result (negsuc a) (pos b) = false
same_result (negsuc a) (negsuc b) = a == b
