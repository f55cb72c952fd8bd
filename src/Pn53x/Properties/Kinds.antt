-- ===== src/Pn53x/Properties/Kinds.antt =====
-- Which properties take a number and which take a Boolean.
use libnfc.Prelude.{◌≡◌, refl, Bool, true, false}
use libnfc.Prelude.Int.{ℤ}
use libnfc.Pn53x.Device.{Device, nfc_einvarg}
use libnfc.Pn53x.Monad.{Outcome, done, Transceive}
use libnfc.Pn53x.Properties.{
  NfcProperty, np_timeout_command, np_timeout_atr, np_timeout_com, np_handle_crc,
}
use libnfc.Pn53x.Properties.{
  np_handle_parity, np_activate_field, np_activate_crypto1, np_infinite_select,
}
use libnfc.Pn53x.Properties.{
  np_accept_invalid_frames, np_accept_multiple_frames, np_auto_iso14443_4,
}
use libnfc.Pn53x.Properties.{np_easy_framing, np_force_iso14443_a, np_force_iso14443_b}
use libnfc.Pn53x.Properties.{np_force_speed_106, set_property_bool, set_property_int}
use libnfc.Prelude.{if◌then◌else◌}

-- The timeouts.
abbrev pub is_number : NfcProperty → Bool
is_number np_timeout_command = true
is_number np_timeout_atr = true
is_number np_timeout_com = true
is_number _ = false

-- The call that does not fit the kind of a property.
abbrev pub wrong_call :
    {W : Type 0} → Transceive W → NfcProperty → ℤ → Bool → Device W → Outcome (ℤ × Device W)
wrong_call transceive property value enable d =
    if is_number property
    then set_property_bool transceive property enable d
    else set_property_int transceive property value d

-- Setting a timeout by a Boolean, or any other property by a number, is refused as an invalid
-- argument: nothing is sent and the device stays as it was.
set_property-refused :
    {W : Type 0} (transceive : Transceive W) (property : NfcProperty) (value : ℤ) (enable : Bool)
    (d : Device W)
    → wrong_call transceive property value enable d ≡ done (nfc_einvarg, d)
unfolding set_property_int set_property_bool
set_property-refused transceive np_timeout_command value enable d = refl
set_property-refused transceive np_timeout_atr value enable d = refl
set_property-refused transceive np_timeout_com value enable d = refl
set_property-refused transceive np_handle_crc value enable d = refl
set_property-refused transceive np_handle_parity value enable d = refl
set_property-refused transceive np_activate_field value enable d = refl
set_property-refused transceive np_activate_crypto1 value enable d = refl
set_property-refused transceive np_infinite_select value enable d = refl
set_property-refused transceive np_accept_invalid_frames value enable d = refl
set_property-refused transceive np_accept_multiple_frames value enable d = refl
set_property-refused transceive np_auto_iso14443_4 value enable d = refl
set_property-refused transceive np_easy_framing value enable d = refl
set_property-refused transceive np_force_iso14443_a value enable d = refl
set_property-refused transceive np_force_iso14443_b value enable d = refl
set_property-refused transceive np_force_speed_106 value enable d = refl
