-- ===== src/Pn53x/Init.antt =====
-- `pn53x_init` and `pn53x_decode_firmware_version` of libnfc/chips/pn53x.c: the kind of the chip, the
-- modulations that it supports, and its first settings.
pub mod Laws
mod Tests
use libnfc.Prelude.{ℕ, ◌++◌, Bool, true, false, not, Option, none, some, List, [], ◌∷◌}
use libnfc.Prelude.{◌==◌, if◌then◌else◌, get_or, bit_and}
use libnfc.Prelude.Int.{ℤ, negsuc, is_neg, to_size}
use libnfc.Types.{NfcModulationType, nmt_iso14443a, nmt_iso14443b, nmt_jewel, nmt_felica, nmt_dep}
use libnfc.Pn53x.Device.{Device, Pn53xType, pn531, pn532, pn533, rcs360, nfc_success, nfc_enotimpl}
use libnfc.Pn53x.Monad.{M, ◌>>=◌, ◌>>◌, return, modify, try, Transceive}
use libnfc.Pn53x.Commands.{send_parameters}
use libnfc.Pn53x.Decode.{is_pn531}
use libnfc.Pn53x.Properties.{reset_settings}

-- The chip from the size and the first bytes of its answer; `none` is an unknown one.
unfoldable pub firmware_type : ℕ → List ℕ → Option Pn53xType
firmware_type size fw =
    if size == 2
    then some pn531
    else if size == 4
    then (if get_or fw 0 0 == 0x32
        then some pn532
        else if get_or fw 0 0 == 0x33
        then (if get_or fw 1 0 == 0x01 then some rcs360 else some pn533)
        else none)
    else none

-- `btSupportByte`: a PN531 has ISO14443A and ISO18092.
unfoldable pub support_of : Pn53xType → List ℕ → ℕ
support_of type fw = if is_pn531 type then 0x05 else get_or fw 3 0

-- The modulations as an initiator, without the closing 0.
unfoldable pub supported_as_initiator : Pn53xType → ℕ → List NfcModulationType
supported_as_initiator type support =
    (if not (bit_and support 0x01 == 0) then nmt_iso14443a ∷ nmt_felica ∷ [] else [])
    ++ ((if not (bit_and support 0x02 == 0) then nmt_iso14443b ∷ [] else [])
        ++ ((if not (is_pn531 type) then nmt_jewel ∷ [] else []) ++ (nmt_dep ∷ [])))

abbrev pub supported_as_target : List NfcModulationType
supported_as_target = nmt_iso14443a ∷ nmt_felica ∷ nmt_dep ∷ []

-- A table that is there already stays.
abbrev pub or_else : {A : Type 0} → Option A → A → Option A
or_else none a = some a
or_else (some b) a = some b

module _ {W : Type 0} where
  unfoldable pub store_type : Option Pn53xType → List ℕ → M W ℤ
  store_type none fw = return nfc_enotimpl
  store_type (some type) fw = do
    modify (λ d. record d { type = type; support_byte = support_of type fw })
    return nfc_success

  unfoldable pub store_modulations : Device W → Device W
  store_modulations d = record d {
    initiator_modulations =
        or_else d.initiator_modulations (supported_as_initiator d.type d.support_byte);
    target_modulations = or_else d.target_modulations supported_as_target;
  }

module _ {W : Type 0} (transceive : Transceive W) where
  -- `pn53x_decode_firmware_version`, with the command GetFirmwareVersion.
  unfoldable pub decode_firmware_version : M W ℤ
  unfolding firmware_type support_of store_type
  decode_firmware_version = do
    (res, fw) ← transceive (0x02 ∷ []) 4 (negsuc 0)
    if is_neg res then return res else store_type (firmware_type (to_size res) fw) fw

  -- `pn53x_init`; 0x14 is PARAM_AUTO_ATR_RES with PARAM_AUTO_RATS.
  unfoldable pub init : M W ℤ
  unfolding store_modulations decode_firmware_version
  init = try (decode_firmware_version) (do
    modify store_modulations
    try (send_parameters transceive 0x14) (try (reset_settings transceive) (return nfc_success)))
