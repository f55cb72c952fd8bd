-- ===== src/Pn53x/Properties/Defaults.antt =====
-- The settings after `pn53x_reset_settings`.
use libnfc.Prelude.{◌-◌, ◌≡◌, refl, ap, ◌∙◌, Bool, true, false, if◌then◌else◌}
use libnfc.Prelude.Int.{ℤ, is_neg}
use libnfc.Pn53x.Device.{Device, nfc_success}
use libnfc.Pn53x.Monad.{M, done, resume, ◌>>◌, return, modify, try, Transceive}
use libnfc.Pn53x.Registers.{write_register, cache_write, cache_min}
use libnfc.Pn53x.Properties.{np_handle_crc, np_handle_parity, np_easy_framing, np_activate_crypto1}
use libnfc.Pn53x.Properties.{
  set_property_bool, handle_crc, handle_parity, easy_framing, activate_crypto1,
}
use libnfc.Pn53x.Properties.{
  reset_settings, ciu_bit_framing, ciu_tx_mode, ciu_rx_mode, ciu_manual_rcv,
}

-- The run succeeds, at a device of which `P` holds.
abbrev pub Succeeds : {W : Type 0} → M W ℤ → Device W → (Device W → Type 0) → Type 0
Succeeds {W} m d P = (d' : Device W) × (m d ≡ done (nfc_success, d')) × P d'

pub then-Succeeds :
    {W : Type 0} (m rest : M W ℤ) (d : Device W) (P Q : Device W → Type 0)
    → Succeeds m d P
    → ((d' : Device W) → P d' → Succeeds rest d' Q)
    → Succeeds (try m rest) d Q
then-Succeeds m rest d P Q (d1, e, p) next =
    let (d2, e2, q) = next d1 p in
    (d2, ap (λ o. resume o (λ res. if is_neg res then return res else rest)) e ∙ e2, q)

-- What the steps of the reset have done so far.
abbrev Framed : {W : Type 0} → Device W → Type 0
Framed d = (d.tx_bits ≡ 0) × (d.crc ≡ true)

abbrev Paired : {W : Type 0} → Device W → Type 0
Paired d = (d.tx_bits ≡ 0) × (d.crc ≡ true) × (d.par ≡ true)

abbrev pub Default : {W : Type 0} → Device W → Type 0
Default d = (d.tx_bits ≡ 0) × (d.crc ≡ true) × (d.par ≡ true) × (d.easy_framing ≡ true)

module _ {W : Type 0} (transceive : Transceive W) where
  handle_crc-Succeeds :
      (d : Device W)
      → d.tx_bits ≡ 0
      → Succeeds (set_property_bool transceive np_handle_crc true) d Framed
  unfolding set_property_bool handle_crc write_register cache_write
  handle_crc-Succeeds d h = go d.crc refl
    where
      go :
          (b : Bool)
          → d.crc ≡ b
          → Succeeds
              (if b
                then return nfc_success
                else try (write_register transceive ciu_tx_mode 0x80 0x80) (
                    try
                      (write_register transceive ciu_rx_mode 0x80 0x80)
                      (do modify (λ d. record d { crc = true }); return nfc_success)))
              d
              Framed
      go true e = (d, refl, (h, e))
      go false e = (_, refl, (h, refl))

  handle_parity-Succeeds :
      (d : Device W)
      → Framed d
      → Succeeds (set_property_bool transceive np_handle_parity true) d Paired
  unfolding set_property_bool handle_parity write_register cache_write
  handle_parity-Succeeds d (h, c) = go d.par refl
    where
      go :
          (b : Bool)
          → d.par ≡ b
          → Succeeds
              (if b
                then return nfc_success
                else try
                    (write_register transceive ciu_manual_rcv 0x10 0x00)
                    (do modify (λ d. record d { par = true }); return nfc_success))
              d
              Paired
      go true e = (d, refl, (h, c, e))
      go false e = (_, refl, (h, c, refl))

  easy_framing-Succeeds :
      (d : Device W)
      → Paired d
      → Succeeds (set_property_bool transceive np_easy_framing true) d Default
  unfolding set_property_bool easy_framing
  easy_framing-Succeeds d (h, c, p) = (_, refl, (h, c, p, refl))

  crypto1-Succeeds :
      (d : Device W)
      → Default d
      → Succeeds
          (try (set_property_bool transceive np_activate_crypto1 false) (return nfc_success))
          d
          Default
  unfolding set_property_bool activate_crypto1 write_register cache_write
  crypto1-Succeeds d p = (_, refl, p)

  -- Whatever its settings were and whatever the chip would answer, a reset of a device succeeds, and
  -- the chip handles CRC and parity, easy framing is on, and all bits of the last byte are sent.
  pub reset_settings-Default : (d : Device W) → Succeeds (reset_settings transceive) d Default
  unfolding reset_settings write_register cache_write
  reset_settings-Default d =
      let d0 = cache_write (ciu_bit_framing - cache_min) 0x07 0x00 (record d { tx_bits = 0 }) in
      then-Succeeds (set_property_bool transceive np_handle_crc true) _ d0 Framed Default
        (handle_crc-Succeeds d0 refl)
        λ d1 p1.
          then-Succeeds (set_property_bool transceive np_handle_parity true) _ d1 Paired Default
            (handle_parity-Succeeds d1 p1)
            λ d2 p2.
              then-Succeeds (set_property_bool transceive np_easy_framing true) _ d2 Default Default
                (easy_framing-Succeeds d2 p2) (crypto1-Succeeds)
