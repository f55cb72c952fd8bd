-- ===== src/Pn53x/Properties/Returns.antt =====
-- Setting a property of libnfc/chips/pn53x.c comes to an end.
use libnfc.Prelude.{ℕ, Bool, true, false, List, not, ◌==◌, if◌then◌else◌, bit_and, bit_or}
use libnfc.Prelude.Int.{ℤ, pos, negsuc, is_neg}
use libnfc.Types.{NfcProperty}
use libnfc.Pn53x.Commands.{rf_field, max_retries, send_parameters}
use libnfc.Pn53x.Device.{Device, same_result}
use libnfc.Pn53x.Monad.{Transceive}
use libnfc.Pn53x.Monad.Post.{Returns, Returns-if, Returns-resume, Any}
use libnfc.Pn53x.Registers.{write_register, inverse}
use libnfc.Pn53x.Properties.{
  set_property_bool, handle_crc, handle_parity, easy_framing, activate_crypto1, auto_iso14443_4,
  force_iso14443_a, force_iso14443_b, force_speed_106, same_bool, set_parameters,
}
use libnfc.Pn53x.Properties.{
  np_timeout_command, np_timeout_atr, np_timeout_com, np_handle_crc, np_handle_parity,
  np_activate_field, np_activate_crypto1, np_infinite_select, np_accept_invalid_frames,
  np_accept_multiple_frames, np_auto_iso14443_4, np_easy_framing, np_force_iso14443_a,
  np_force_iso14443_b, np_force_speed_106,
}

module _ {W : Type 0} (transceive : Transceive W)
    (returns : (tx : List ℕ) (room : ℕ) (timeout : ℤ) (d : Device W)
      → Returns Any (transceive tx room timeout d)) where
  handle_crc-Returns : (enable : Bool) (d : Device W) → Returns Any (handle_crc transceive enable d)
  unfolding handle_crc write_register
  handle_crc-Returns enable d = Returns-if Any (same_bool enable d.crc) _ _ d (λ e. tt) (λ e. tt)

  handle_parity-Returns :
      (enable : Bool) (d : Device W) → Returns Any (handle_parity transceive enable d)
  unfolding handle_parity write_register
  handle_parity-Returns enable d = Returns-if Any (same_bool enable d.par) _ _ d (λ e. tt) (λ e. tt)

  rf_field-Returns : (enable : Bool) (d : Device W) → Returns Any (rf_field transceive enable d)
  unfolding rf_field
  rf_field-Returns enable d =
      Returns-resume Any Any _ _ (returns _ 0 (negsuc 0) d) (λ reply d' any. tt)

  max_retries-Returns : (a p r : ℕ) (d : Device W) → Returns Any (max_retries transceive a p r d)
  unfolding max_retries
  max_retries-Returns a p r d =
      Returns-resume Any Any _ _ (returns _ 0 (negsuc 0) d) (λ reply d' any. tt)

  send_parameters-Returns :
      (value : ℕ) (d : Device W) → Returns Any (send_parameters transceive value d)
  unfolding send_parameters
  send_parameters-Returns value d =
      Returns-resume Any Any _ _
        (Returns-resume Any Any _ _ (returns _ 0 (negsuc 0) d) (λ reply d' any. tt))
        λ res d' any. Returns-if Any (is_neg res) _ _ d' (λ e. tt) (λ e. tt)

  set_parameters-Returns :
      (parameter : ℕ) (enable : Bool) (d : Device W)
      → Returns Any (set_parameters transceive parameter enable d)
  unfolding set_parameters
  set_parameters-Returns parameter enable d =
      let value =
        if enable
        then bit_or d.parameters parameter
        else bit_and d.parameters (inverse parameter) in
      Returns-if Any (not (value == d.parameters)) _ _ d (λ e. send_parameters-Returns value d)
        (λ e. tt)

  auto_iso14443_4-Returns :
      (enable : Bool) (d : Device W) → Returns Any (auto_iso14443_4 transceive enable d)
  unfolding auto_iso14443_4
  auto_iso14443_4-Returns enable d =
      Returns-if Any (same_bool enable d.auto_iso14443_4) _ _ d (λ e. tt)
        λ e.
          Returns-resume Any Any _ _
            (set_parameters-Returns 0x10 enable (record d { auto_iso14443_4 = enable }))
            λ res d' any. Returns-if Any (same_result res (pos 0)) _ _ d' (λ e. tt) (λ e. tt)

  -- When every exchange with the chip returns, setting a Boolean property returns.
  pub set_property_bool-Returns :
      (p : NfcProperty) (enable : Bool) (d : Device W)
      → Returns Any (set_property_bool transceive p enable d)
  unfolding set_property_bool easy_framing activate_crypto1 force_iso14443_a force_iso14443_b
      force_speed_106 write_register
  set_property_bool-Returns np_timeout_command enable d = tt
  set_property_bool-Returns np_timeout_atr enable d = tt
  set_property_bool-Returns np_timeout_com enable d = tt
  set_property_bool-Returns np_handle_crc enable d = handle_crc-Returns enable d
  set_property_bool-Returns np_handle_parity enable d = handle_parity-Returns enable d
  set_property_bool-Returns np_activate_field enable d = rf_field-Returns enable d
  set_property_bool-Returns np_activate_crypto1 enable d = tt
  set_property_bool-Returns np_infinite_select enable d = max_retries-Returns _ _ _ d
  set_property_bool-Returns np_accept_invalid_frames enable d = tt
  set_property_bool-Returns np_accept_multiple_frames enable d = tt
  set_property_bool-Returns np_auto_iso14443_4 enable d = auto_iso14443_4-Returns enable d
  set_property_bool-Returns np_easy_framing enable d = tt
  set_property_bool-Returns np_force_iso14443_a true d = tt
  set_property_bool-Returns np_force_iso14443_a false d = tt
  set_property_bool-Returns np_force_iso14443_b true d = tt
  set_property_bool-Returns np_force_iso14443_b false d = tt
  set_property_bool-Returns np_force_speed_106 true d = tt
  set_property_bool-Returns np_force_speed_106 false d = tt
