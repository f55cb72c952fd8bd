-- ===== src/Pn53x/Commands.antt =====
-- The functions of libnfc/chips/pn53x.c that send one command of the chip and take note of it.
use libnfc.Prelude.{ℕ, Bool, ◌||◌, ◌&&◌, not, List, [], ◌∷◌, ltb, ◌==◌, if◌then◌else◌, get_or, take}
use libnfc.Prelude.Int.{ℤ, pos, negsuc, is_neg, to_size}
use libnfc.Pn53x.Device.{lowvbat, SamMode, psm_normal, psm_virtual_card, psm_wired_card}
use libnfc.Pn53x.Device.{psm_dual_card, nfc_success, nfc_eio, nfc_edevnotsupp}
use libnfc.Pn53x.Frame.{equal_bytes}
use libnfc.Pn53x.Monad.{M, ◌>>=◌, ◌>>◌, return, get, modify, try, Transceive}
use libnfc.Pn53x.Registers.{max_data}
use libnfc.Pn53x.Transceive.{is_pn532, is_rcs360}

-- The codes of the commands.
abbrev pub diagnose : ℕ
diagnose = 0x00

abbrev pub get_general_status : ℕ
get_general_status = 0x04

abbrev pub set_parameters_code : ℕ
set_parameters_code = 0x12

abbrev pub sam_configuration_code : ℕ
sam_configuration_code = 0x14

abbrev pub power_down_code : ℕ
power_down_code = 0x16

abbrev pub rf_configuration : ℕ
rf_configuration = 0x32

abbrev pub in_deselect_code : ℕ
in_deselect_code = 0x44

abbrev pub in_release_code : ℕ
in_release_code = 0x52

-- `enum pn532_sam_mode`
abbrev pub sam_code : SamMode → ℕ
sam_code psm_normal = 0x01
sam_code psm_virtual_card = 0x02
sam_code psm_wired_card = 0x03
sam_code psm_dual_card = 0x04

-- What is sent after the command code of SAMConfiguration: the first `szCmd - 1` bytes.
abbrev pub sam_arguments : SamMode → List ℕ
sam_arguments psm_normal = 0x01 ∷ []
sam_arguments psm_wired_card = 0x03 ∷ []
sam_arguments psm_virtual_card = 0x02 ∷ 0x00 ∷ []
sam_arguments psm_dual_card = 0x04 ∷ 0x00 ∷ []

module _ {W : Type 0} (transceive : Transceive W) where
  -- `pn53x_transceive(pnd, abtCmd, sizeof(abtCmd), NULL, 0, timeout)`
  abbrev pub command : List ℕ → ℤ → M W ℤ
  command cmd timeout = do (res, rx) ← transceive cmd 0 timeout; return res

  -- `pn53x_RFConfiguration__RF_field` and its siblings; the item of the configuration comes first.
  unfoldable pub rf_field : Bool → M W ℤ
  rf_field enable =
      command (rf_configuration ∷ 0x01 ∷ (if enable then 0x01 else 0x00) ∷ []) (negsuc 0)

  unfoldable pub various_timings : ℕ → ℕ → M W ℤ
  various_timings atr_res_timeout retry_timeout =
      command (rf_configuration ∷ 0x02 ∷ 0x00 ∷ atr_res_timeout ∷ retry_timeout ∷ []) (negsuc 0)

  unfoldable pub max_rty_com : ℕ → M W ℤ
  max_rty_com retries = command (rf_configuration ∷ 0x04 ∷ retries ∷ []) (negsuc 0)

  unfoldable pub max_retries : ℕ → ℕ → ℕ → M W ℤ
  max_retries atr psl passive_activation =
      command (rf_configuration ∷ 0x05 ∷ atr ∷ psl ∷ passive_activation ∷ []) (negsuc 0)

  -- `pn53x_SetParameters`
  unfoldable pub send_parameters : ℕ → M W ℤ
  send_parameters value =
      try (command (set_parameters_code ∷ value ∷ []) (negsuc 0))
        (do modify (λ d. record d { parameters = value }); return nfc_success)

  -- `pn532_SAMConfiguration`
  unfoldable pub sam_configuration : SamMode → ℤ → M W ℤ
  sam_configuration mode timeout = do
    d ← get
    if not (is_pn532 d.type)
        then (do modify (λ d. record d { last_error = nfc_edevnotsupp }); return nfc_edevnotsupp)
        else (do
          modify (λ d. record d { sam_mode = mode })
          command (sam_configuration_code ∷ sam_arguments mode) timeout)

  -- `pn53x_PowerDown`
  unfoldable pub power_down : M W ℤ
  power_down = do
    res ← command (power_down_code ∷ 0xf0 ∷ []) (negsuc 0)
    if is_neg res
        then return res
        else (do modify (λ d. record d { power_mode = lowvbat }); return res)

  -- The RC-S360 first tells whether a target is selected: `code` is InDeselect or InRelease.
  unfoldable pub if_selected : ℕ → M W ℤ
  if_selected code = do
    (res, status) ← transceive (get_general_status ∷ []) max_data (negsuc 0)
    if is_neg res
        then return res
        else if ltb (to_size res) 3 || get_or status 2 0 == 0
        then return nfc_success
        else command (code ∷ 0x01 ∷ 0x01 ∷ []) (negsuc 0)

  unfoldable pub in_deselect : ℕ → M W ℤ
  unfolding if_selected
  in_deselect target = do
    d ← get
    if is_rcs360 d.type
        then if_selected in_deselect_code
        else command (in_deselect_code ∷ target ∷ []) (negsuc 0)

  unfoldable pub in_release : ℕ → M W ℤ
  unfolding if_selected
  in_release target = do
    d ← get
    if is_rcs360 d.type
        then if_selected in_release_code
        else command (in_release_code ∷ target ∷ []) (negsuc 0)

  -- `pn53x_check_communication`: the chip must echo a zero and the letters "libnfc".
  unfoldable pub check_communication : M W ℤ
  check_communication = do
    (res, rx) ←
        transceive (diagnose ∷ 0x00 ∷ 0x6c ∷ 0x69 ∷ 0x62 ∷ 0x6e ∷ 0x66 ∷ 0x63 ∷ []) 7 (pos 500)
    if is_neg res
        then return res
        else if to_size res == 7
            && equal_bytes (take 7 rx) (0x00 ∷ 0x6c ∷ 0x69 ∷ 0x62 ∷ 0x6e ∷ 0x66 ∷ 0x63 ∷ [])
        then return nfc_success
        else return nfc_eio
