-- ===== src/Pn53x/Init/Laws.antt =====
-- The first settings of a chip: `pn53x_init`.
use libnfc.Prelude.{ℕ, ◌≡◌, refl, some, List, [], ◌∷◌}
use libnfc.Prelude.Int.{pos, negsuc}
use libnfc.Pn53x.Device.{Device, Pn53xType, nfc_success}
use libnfc.Pn53x.Monad.{done, Transceive}
use libnfc.Pn53x.Commands.{send_parameters}
use libnfc.Pn53x.Properties.Defaults.{Succeeds, Default, reset_settings-Default}
use libnfc.Pn53x.Init.{
  firmware_type, support_of, store_type, store_modulations, decode_firmware_version, init,
}

-- The device once the chip is known.
abbrev pub identified : {W : Type 0} → Pn53xType → List ℕ → Device W → Device W
identified type fw d =
    store_modulations (record d { type = type; support_byte = support_of type fw })

module _ {W : Type 0} (transceive : Transceive W) where
  -- The chip, in the state `d`, answers the command with a result that is no error.
  abbrev pub Answers : List ℕ → ℕ → Device W → ℕ → List ℕ → Device W → Type 0
  Answers cmd capacity d size rx d' =
      transceive cmd capacity (negsuc 0) d ≡ done ((pos size, rx), d')

  decode_firmware_version-Succeeds :
      (d d1 : Device W) (size : ℕ) (fw : List ℕ)
      → Answers (0x02 ∷ []) 4 d size fw d1
      → decode_firmware_version transceive d ≡ store_type (firmware_type size fw) fw d1
  unfolding decode_firmware_version
  decode_firmware_version-Succeeds d d1 size fw answer = rw answer refl

  send_parameters-Succeeds :
      (d d1 : Device W) (value n : ℕ) (rx : List ℕ)
      → Answers (0x12 ∷ value ∷ []) 0 d n rx d1
      → send_parameters transceive value d ≡ done (nfc_success, record d1 { parameters = value })
  unfolding send_parameters
  send_parameters-Succeeds d d1 value n rx answer = rw answer refl

  -- When a chip gives a firmware version of a known kind and takes SetParameters, its
  -- initialisation succeeds, whatever the settings were before and whatever else the chip would
  -- answer, and leaves a device whose chip handles CRC and parity, with easy framing and all bits of
  -- the last byte sent.
  pub init-Default :
      (d d1 d2 : Device W) (size n : ℕ) (fw rx : List ℕ) (type : Pn53xType)
      → Answers (0x02 ∷ []) 4 d size fw d1
      → firmware_type size fw ≡ some type
      → Answers (0x12 ∷ 0x14 ∷ []) 0 (identified type fw d1) n rx d2
      → Succeeds (init transceive) d Default
  unfolding init store_type
  init-Default d d1 d2 size n fw rx type answer e taken =
      let decoded = decode_firmware_version-Succeeds d d1 size fw answer in
      let sent = send_parameters-Succeeds (identified type fw d1) d2 0x14 n rx taken in
      let (d3, reset, default) =
        reset_settings-Default transceive (record d2 { parameters = 0x14 }) in
      (d3, rw (decoded, e) (rw sent (rw reset refl)), default)
