-- ===== src/Pn53x/Properties.antt =====
-- The properties of a device (`nfc_property` of include/nfc/nfc-types.h) and the settings that
-- libnfc/chips/pn53x.c keeps for them.
pub mod Timeout
pub mod Kinds
pub mod Defaults
pub mod Returns
mod Tests
use libnfc.Prelude.{
  ℕ, zero, suc, ◌+◌, ◌-◌, ◌/◌, Bool, true, false, not, List, [], ◌∷◌, ltb, ◌==◌, if◌then◌else◌,
}
use libnfc.Prelude.{bit_and, bit_or}
use libnfc.Prelude.Int.{ℤ, pos, negsuc, is_neg}
pub use libnfc.Types.{
  NfcProperty, np_timeout_command, np_timeout_atr, np_timeout_com, np_handle_crc,
}
pub use libnfc.Types.{np_handle_parity, np_activate_field, np_activate_crypto1, np_infinite_select}
pub use libnfc.Types.{np_accept_invalid_frames, np_accept_multiple_frames, np_auto_iso14443_4}
pub use libnfc.Types.{np_easy_framing, np_force_iso14443_a, np_force_iso14443_b, np_force_speed_106}
use libnfc.Pn53x.Device.{
  psm_virtual_card, psm_wired_card, psm_dual_card, SamMode, Device, OperatingMode, idle, initiator,
  target, SamMode, psm_normal,
}
use libnfc.Pn53x.Device.{nfc_success, nfc_einvarg, same_result}
use libnfc.Pn53x.Monad.{M, ◌>>=◌, ◌>>◌, return, get, modify, try, Transceive}
use libnfc.Pn53x.Registers.{write_register, inverse}
use libnfc.Pn53x.Commands.{rf_field, various_timings, max_retries, send_parameters, in_deselect}
use libnfc.Pn53x.Commands.{in_release, power_down, sam_configuration}
use libnfc.Pn53x.Transceive.{current_target_free, is_pn532}

-- The registers that the settings are written to.
abbrev pub ciu_tx_mode : ℕ
ciu_tx_mode = 0x6302

abbrev pub ciu_rx_mode : ℕ
ciu_rx_mode = 0x6303

abbrev pub ciu_tx_auto : ℕ
ciu_tx_auto = 0x6305

abbrev pub ciu_manual_rcv : ℕ
ciu_manual_rcv = 0x630d

abbrev pub ciu_status2 : ℕ
ciu_status2 = 0x6338

abbrev pub ciu_control : ℕ
ciu_control = 0x633c

abbrev pub ciu_bit_framing : ℕ
ciu_bit_framing = 0x633d

abbrev pub same_bool : Bool → Bool → Bool
same_bool true b = b
same_bool false b = not b

-- The loop of `pn53x_int_to_timeout`: `i` and `res`. Its `i` halves from 3280, so 12 rounds are
-- more than it has.
unfoldable pub timeout_loop : ℕ → ℤ → ℕ → ℕ → ℕ
timeout_loop zero ms i res = res
timeout_loop (suc fuel) (negsuc n) i res =
    let rest = timeout_loop fuel (negsuc n) (i / 2) (res - 1) in if ltb 1 i then rest else res
timeout_loop (suc fuel) (pos ms) i res =
    let rest = timeout_loop fuel (pos ms) (i / 2) (res - 1) in
    if ltb 1 i then (if ltb i ms then res else rest) else res

unfoldable pub int_to_timeout : ℤ → ℕ
unfolding timeout_loop
int_to_timeout ms = if same_result ms (pos 0) then 0 else timeout_loop 12 ms 3280 0x10

module _ {W : Type 0} (transceive : Transceive W) where
  unfoldable pub set_parameters : ℕ → Bool → M W ℤ
  set_parameters parameter enable = do
    d ← get
    let value =
        if enable then bit_or d.parameters parameter else bit_and d.parameters (inverse parameter)
    if not (value == d.parameters) then send_parameters transceive value else return nfc_success

  unfoldable pub set_tx_bits : ℕ → M W ℤ
  set_tx_bits bits = do
    d ← get
    if not (d.tx_bits == bits)
        then try (write_register transceive ciu_bit_framing 0x07 bits)
            (do modify (λ d. record d { tx_bits = bits }); return nfc_success)
        else return nfc_success

  -- The call that both timeouts of the RF configuration end in.
  unfoldable pub send_timings : M W ℤ
  send_timings = do
    d ← get
    various_timings transceive (int_to_timeout d.timeout_atr)
        (int_to_timeout d.timeout_communication)

  unfoldable pub set_property_int : NfcProperty → ℤ → M W ℤ
  unfolding send_timings
  set_property_int np_timeout_command value = do
    modify (λ d. record d { timeout_command = value })
    return nfc_success
  set_property_int np_timeout_atr value = do
    modify (λ d. record d { timeout_atr = value })
    send_timings
  set_property_int np_timeout_com value = do
    modify (λ d. record d { timeout_communication = value })
    send_timings
  set_property_int _ value = return nfc_einvarg

  unfoldable pub handle_crc : Bool → M W ℤ
  handle_crc enable = do
    d ← get
    if same_bool enable d.crc
        then return nfc_success
        else (let value = if enable then 0x80 else 0x00 in
            try (write_register transceive ciu_tx_mode 0x80 value) (
              try (write_register transceive ciu_rx_mode 0x80 value)
                (do modify (λ d. record d { crc = enable }); return nfc_success)))

  unfoldable pub handle_parity : Bool → M W ℤ
  handle_parity enable = do
    d ← get
    if same_bool enable d.par
        then return nfc_success
        else try (write_register transceive ciu_manual_rcv 0x10 (if enable then 0x00 else 0x10))
            (do modify (λ d. record d { par = enable }); return nfc_success)

  unfoldable pub easy_framing : Bool → M W ℤ
  easy_framing enable = do modify (λ d. record d { easy_framing = enable }); return nfc_success

  unfoldable pub activate_crypto1 : Bool → M W ℤ
  activate_crypto1 enable =
      write_register transceive ciu_status2 0x08 (if enable then 0x08 else 0x00)

  unfoldable pub auto_iso14443_4 : Bool → M W ℤ
  unfolding set_parameters
  auto_iso14443_4 enable = do
    d ← get
    if same_bool enable d.auto_iso14443_4 then return nfc_success else (do
      modify (λ d. record d { auto_iso14443_4 = enable })
      res ← set_parameters 0x10 enable
      if same_result res (pos 0) then return nfc_success else return nfc_einvarg)

  unfoldable pub force_iso14443_a : Bool → M W ℤ
  force_iso14443_a false = return nfc_success
  force_iso14443_a true = try (write_register transceive ciu_tx_mode 0x03 0x00) (
      try (write_register transceive ciu_rx_mode 0x03 0x00)
        (write_register transceive ciu_tx_auto 0x40 0x40))

  unfoldable pub force_iso14443_b : Bool → M W ℤ
  force_iso14443_b false = return nfc_success
  force_iso14443_b true =
      try (write_register transceive ciu_tx_mode 0x03 0x03)
        (write_register transceive ciu_rx_mode 0x03 0x03)

  unfoldable pub force_speed_106 : Bool → M W ℤ
  force_speed_106 false = return nfc_success
  force_speed_106 true =
      try (write_register transceive ciu_tx_mode 0x70 0x00)
        (write_register transceive ciu_rx_mode 0x70 0x00)

  unfoldable pub set_property_bool : NfcProperty → Bool → M W ℤ
  unfolding handle_crc handle_parity easy_framing activate_crypto1 auto_iso14443_4 force_iso14443_a
      force_iso14443_b force_speed_106
  set_property_bool np_handle_crc enable = handle_crc enable
  set_property_bool np_handle_parity enable = handle_parity enable
  set_property_bool np_easy_framing enable = easy_framing enable
  set_property_bool np_activate_field enable = rf_field transceive enable
  set_property_bool np_activate_crypto1 enable = activate_crypto1 enable
  set_property_bool np_infinite_select enable =
      max_retries transceive (if enable then 0xff else 0x00) (if enable then 0xff else 0x01)
        (if enable then 0xff else 0x02)
  set_property_bool np_accept_invalid_frames enable =
      write_register transceive ciu_rx_mode 0x08 (if enable then 0x08 else 0x00)
  set_property_bool np_accept_multiple_frames enable =
      write_register transceive ciu_rx_mode 0x04 (if enable then 0x04 else 0x00)
  set_property_bool np_auto_iso14443_4 enable = auto_iso14443_4 enable
  set_property_bool np_force_iso14443_a enable = force_iso14443_a enable
  set_property_bool np_force_iso14443_b enable = force_iso14443_b enable
  set_property_bool np_force_speed_106 enable = force_speed_106 enable
  set_property_bool _ enable = return nfc_einvarg

  -- `pn53x_reset_settings`
  unfoldable pub reset_settings : M W ℤ
  unfolding handle_crc handle_parity easy_framing activate_crypto1 set_property_bool
  reset_settings = do
    modify (λ d. record d { tx_bits = 0 })
    try (write_register transceive ciu_bit_framing 0x07 0x00) (
        try (set_property_bool np_handle_crc true) (
          try (set_property_bool np_handle_parity true) (
            try (set_property_bool np_easy_framing true)
              (try (set_property_bool np_activate_crypto1 false) (return nfc_success)))))

  -- The end of `pn53x_initiator_init`.
  abbrev pub ready_as_initiator : M W ℤ
  ready_as_initiator =
      try (write_register transceive ciu_control 0x10 0x10)
        (do modify (λ d. record d { operating_mode = initiator }); return nfc_success)

  -- The SAM has to be in the normal mode.
  unfoldable pub prepare_initiator : SamMode → M W ℤ
  prepare_initiator psm_normal = ready_as_initiator
  prepare_initiator psm_virtual_card =
      try (sam_configuration transceive psm_normal (negsuc 0)) ready_as_initiator
  prepare_initiator psm_wired_card =
      try (sam_configuration transceive psm_normal (negsuc 0)) ready_as_initiator
  prepare_initiator psm_dual_card =
      try (sam_configuration transceive psm_normal (negsuc 0)) ready_as_initiator

  -- `pn53x_initiator_init`, which does not look at the result of the reset.
  unfoldable pub initiator_init : M W ℤ
  initiator_init = do ignored ← reset_settings; d ← get; prepare_initiator d.sam_mode

  -- The end of `pn53x_idle`.
  unfoldable pub now_idle : M W ℤ
  now_idle = do
    modify (λ d. record (current_target_free d) { operating_mode = idle })
    return nfc_success

  -- `pn53x_idle`. The field goes off through `nfc_device_set_property_bool`, which resets
  -- `last_error` and calls the driver's function, `pn53x_set_property_bool`.
  unfoldable pub go_idle : M W ℤ
  unfolding now_idle
  go_idle = do
    d ← get
    let field_off = modify (λ d. record d { last_error = pos 0 }) >> rf_field transceive false
    let end_of_target =
        try (in_release transceive 0)
          (do d ← get; if is_pn532 d.type then try (power_down transceive) now_idle else now_idle)
    let end_of_initiator = try (in_deselect transceive 0) (
        try field_off (do
          d ← get
          if is_pn532 d.type
              then try (power_down transceive) now_idle
              else try (in_release transceive 0) now_idle))
    (elim d.operating_mode [
      | target ↦ end_of_target
      | initiator ↦ end_of_initiator
      | idle ↦ now_idle
    ])
