-- ===== src/Drivers/Pn53xUsb/Setup.antt =====
-- The initialisation of a reader, its properties, and what is sent to the chip before it is closed.
use libnfc.Prelude.{ℕ, Bool, true, false, [], ◌∷◌, if◌then◌else◌}
use libnfc.Prelude.Int.{ℤ, pos, negsuc, is_neg}
use libnfc.Types.{NfcProperty, np_activate_field}
use libnfc.Pn53x.Device.{nfc_success, nfc_echip}
use libnfc.Pn53x.Monad.{M, ◌>>=◌, ◌>>◌, return, get, modify, try, Transceive}
use libnfc.Pn53x.Registers.{write_register}
use libnfc.Pn53x.Init.{init}
use libnfc.Pn53x.Properties.{set_property_bool, go_idle}
use libnfc.Drivers.Usb.{Usb}
use libnfc.Drivers.Pn53xUsb.Data.{Pn53xUsbData, Pn53xUsbModel, ask_logo, scm_scl3711, sony_rcs360}
use libnfc.Drivers.Pn53xUsb.Data.{ack}

-- The registers of the chip's port 3, of its random number generator and of its transmitter.
abbrev pub sfr_p3 : ℕ
sfr_p3 = 0xffb0

abbrev sfr_p3cfgb : ℕ
sfr_p3cfgb = 0xfffd

abbrev control_switch_rng : ℕ
control_switch_rng = 0x6106

abbrev ciu_tx_sel : ℕ
ciu_tx_sel = 0x6306

abbrev is_activate_field : NfcProperty → Bool
is_activate_field np_activate_field = true
is_activate_field _ = false

module _ {P : Type 0} (usb : Usb P) (transceive : Transceive (Pn53xUsbData P)) where
  -- A call whose result is not looked at.
  abbrev ignore : {A : Type 0} → M (Pn53xUsbData P) A → M (Pn53xUsbData P) (Unit {0})
  ignore m = do ignored ← m; return tt

  unfoldable pub init_model : Pn53xUsbModel → M (Pn53xUsbData P) ℤ
  init_model ask_logo = do
    ignore (write_register transceive control_switch_rng 0xff 0x1a)
    ignore (write_register transceive ciu_tx_sel 0xff 0x14)
    ignore (write_register transceive sfr_p3cfgb 0xff 0x37)
    ignore (write_register transceive sfr_p3 0xff 0x2b)
    return nfc_success
  init_model _ = return nfc_success

  unfoldable pub wake_model : Pn53xUsbModel → M (Pn53xUsbData P) (Unit {0})
  wake_model sony_rcs360 = do ignore (transceive (0x18 ∷ 0x01 ∷ []) 0 (negsuc 0)); ignore (ack usb)
  wake_model _ = return tt

  -- `pn53x_usb_init`
  unfoldable pub usb_init : M (Pn53xUsbData P) ℤ
  unfolding init_model wake_model
  usb_init = do
    ignore (transceive (0x02 ∷ []) 0 (negsuc 0))
    modify (λ d. record d { last_error = pos 0 })
    d ← get
    wake_model d.driver_data.model
    try (init transceive) (do d ← get; init_model d.driver_data.model)

  -- The switch of `pn53x_usb_set_property_bool` for the field.
  unfoldable pub show_field : Pn53xUsbModel → Bool → M (Pn53xUsbData P) ℤ
  show_field ask_logo enable = do
    res ← write_register transceive sfr_p3 0x12 (if enable then 0x10 else 0x02)
    if is_neg res then return nfc_echip else return nfc_success
  show_field scm_scl3711 enable =
      try (write_register transceive sfr_p3 0x04 (if enable then 0x00 else 0x04))
        (return nfc_success)
  show_field _ enable = return nfc_success

  -- `pn53x_usb_set_property_bool`
  unfoldable pub usb_set_property_bool : NfcProperty → Bool → M (Pn53xUsbData P) ℤ
  unfolding show_field
  usb_set_property_bool p enable = try (set_property_bool transceive p enable) (do
    d ← get
    if is_activate_field p then show_field d.driver_data.model enable else return nfc_success)

  -- What `pn53x_usb_close` sends to the chip.
  unfoldable pub leave : M (Pn53xUsbData P) (Unit {0})
  leave = do
    ignore (ack usb)
    ignore (go_idle transceive)
    d ← get
    (elim d.driver_data.model [
      | ask_logo ↦ ignore (write_register transceive sfr_p3 0xff 0x2f)
      | _ ↦ return tt
    ])
