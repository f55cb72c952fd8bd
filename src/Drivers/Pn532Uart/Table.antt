-- ===== src/Drivers/Pn532Uart/Table.antt =====
-- The table `pn532_uart_driver` of libnfc/drivers/pn532_uart.c, as far as libnfc/nfc.c is modelled
-- over it: all of its entries here are functions of libnfc/chips/pn53x.c.
use libnfc.Prelude.{
  ℕ, ◌≡◌, refl, sym, subst, ◌⊎◌, inl, inr, Bool, true, false, not, Option, none, some,
}
use libnfc.Prelude.{List, [], ◌∷◌, if◌then◌else◌}
use libnfc.Prelude.Int.{ℤ, pos, negsuc, is_neg}
use libnfc.Types.{
  NfcProperty, NfcTarget, np_activate_field, np_infinite_select, np_auto_iso14443_4,
  np_force_iso14443_a, np_force_speed_106, np_accept_invalid_frames, np_accept_multiple_frames,
}
use libnfc.Api.{Driver, set_bool, set_all, nfc_initiator_init, with_driver}
use libnfc.Pn53x.Commands.{sam_configuration, sam_arguments, sam_configuration_code}
use libnfc.Pn53x.Device.{Device, initiator, psm_normal, psm_virtual_card, psm_wired_card}
use libnfc.Pn53x.Device.{psm_dual_card, SamMode}
use libnfc.Pn53x.Monad.{M, resume, ◌>>=◌, return, get, try, Transceive}
use libnfc.Pn53x.Monad.Post.{Returns, Returns-Any, Returns-if, Returns-resume, Any}
use libnfc.Pn53x.Properties.{
  set_property_bool, set_property_int, initiator_init, prepare_initiator, ready_as_initiator,
}
use libnfc.Pn53x.Properties.Returns.{set_property_bool-Returns}
use libnfc.Pn53x.Properties.Defaults.{Default, reset_settings-Default}
use libnfc.Pn53x.Registers.{write_register, cache_write}
use libnfc.Pn53x.Select.{select_passive_target, deselect_target}
use libnfc.Pn53x.Poll.{poll_target}
use libnfc.Pn53x.Dep.{select_dep_target}
use libnfc.Pn53x.Target.{target_init}
use libnfc.Pn53x.Target.Exchange.{send_bytes, receive_bytes}
use libnfc.Pn53x.Transceive.{is_pn532}

-- What is filled in, or what was there before.
abbrev pub filled : NfcTarget → Option NfcTarget → NfcTarget
filled before none = before
filled before (some nt) = nt

module _ {W : Type 0} (transceive : Transceive W) where
  -- `fuel` bounds the wait for an activation; `mem` and `chip_junk` are the content of stack buffers
  -- before they are filled.
  abbrev pub pn532_uart_driver : ℕ → List ℕ → ℕ → Driver W
  pn532_uart_driver fuel mem chip_junk = record {
    set_property_bool = some (set_property_bool transceive);
    set_property_int = some (set_property_int transceive);
    poll_target = some (λ nms poll_nr period before. do
      (res, nt) ← poll_target transceive fuel nms poll_nr period mem chip_junk
      return (res, filled before nt));
    select_dep_target =
        some (λ ndm nbr ndi nt timeout. select_dep_target transceive ndm nbr ndi nt mem timeout);
    initiator_init = some (initiator_init transceive);
    select_passive_target = some (λ nm init before. do
      (res, nt) ← select_passive_target transceive nm init true mem chip_junk
      return (res, filled before nt));
    deselect_target = some (deselect_target transceive);
    target_init = some (λ nt room timeout. do
      (res, rx, activated) ← target_init transceive fuel nt room mem timeout
      return (res, rx));
    target_send_bytes =
        some (λ tx timeout. do (res, rx) ← send_bytes transceive tx timeout; return res);
    target_receive_bytes = some (receive_bytes transceive);
  }

  -- An initialisation ends with an error or in the default settings, as an initiator.
  abbrev pub Initialised : ℤ → Device W → Type 0
  Initialised res d = (is_neg res ≡ true) ⊎ (Default d × (d.operating_mode ≡ initiator))

  -- An exchange returns, and leaves the default settings as they are.
  abbrev pub Quiet : Type 0
  Quiet =
      (tx : List ℕ) (room : ℕ) (timeout : ℤ) (d : Device W)
      → Returns (λ reply d'. Default d → Default d') (transceive tx room timeout d)

  ready-Initialised :
      (d : Device W) → Default d → Returns Initialised (ready_as_initiator transceive d)
  unfolding write_register cache_write
  ready-Initialised d default = inr (default, refl)

  sam_configuration-Default :
      Quiet
      → (d : Device W) → Default d
      → Returns (λ res d'. Default d') (sam_configuration transceive psm_normal (negsuc 0) d)
  unfolding sam_configuration
  sam_configuration-Default quiet d default =
      let tx = sam_configuration_code ∷ sam_arguments psm_normal in
      let d1 : Device W = record d { sam_mode = psm_normal } in
      Returns-if (λ res d'. Default d') (not (is_pn532 d.type)) _ _ d (λ e. default)
        λ e.
          Returns-resume (λ reply d'. Default d1 → Default d') (λ res d'. Default d')
            (transceive tx 0 (negsuc 0) d1) _ (quiet tx 0 (negsuc 0) d1)
            λ reply d2 keeps. keeps default

  prepared-Initialised :
      Quiet
      → (d : Device W) → Default d
      → Returns Initialised (
          try
            (sam_configuration transceive psm_normal (negsuc 0))
            (ready_as_initiator transceive)
            d)
  prepared-Initialised quiet d default =
      Returns-resume (λ res d'. Default d') Initialised
        (sam_configuration transceive psm_normal (negsuc 0) d)
        (λ res. if is_neg res then return res else ready_as_initiator transceive)
        (sam_configuration-Default quiet d default)
        λ res d1 default1.
          Returns-if Initialised (is_neg res) (return res) (ready_as_initiator transceive) d1
            (λ e. inl e) (λ e. ready-Initialised d1 default1)

  prepare_initiator-Initialised :
      Quiet
      → (mode : SamMode) (d : Device W) → Default d
      → Returns Initialised (prepare_initiator transceive mode d)
  unfolding prepare_initiator
  prepare_initiator-Initialised quiet psm_normal d default = ready-Initialised d default
  prepare_initiator-Initialised quiet psm_virtual_card d default =
      prepared-Initialised quiet d default
  prepare_initiator-Initialised quiet psm_wired_card d default =
      prepared-Initialised quiet d default
  prepare_initiator-Initialised quiet psm_dual_card d default = prepared-Initialised quiet d default

  initiator_init-Initialised :
      Quiet → (d : Device W) → Returns Initialised (initiator_init transceive d)
  unfolding initiator_init
  initiator_init-Initialised quiet d =
      let (d1, reset, default) = reset_settings-Default transceive d in
      let next : ℤ → M W ℤ =
        λ ignored. (do later ← get; prepare_initiator transceive later.sam_mode) in
      subst (λ o. Returns Initialised (resume o next)) (sym reset)
        (prepare_initiator-Initialised quiet d1.sam_mode d1 default)

  set_all-Initialised :
      (driver : Driver W) (properties : List (NfcProperty × Bool)) (rest : M W ℤ)
      → ((p : NfcProperty) (enable : Bool) (d : Device W)
          → Returns Any (set_bool driver p enable d))
      → ((d : Device W) → Returns Initialised (rest d))
      → (d : Device W) → Returns Initialised (set_all driver properties rest d)
  unfolding set_all
  set_all-Initialised driver [] rest ends last d = last d
  set_all-Initialised driver ((p, enable) ∷ more) rest ends last d =
      Returns-resume Any Initialised (set_bool driver p enable d)
        (λ res. if is_neg res then return res else set_all driver more rest) (ends p enable d)
        λ res d1 any.
          Returns-if Initialised (is_neg res) (return res) (set_all driver more rest) d1
            (λ e. inl e) (λ e. set_all-Initialised driver more rest ends last d1)

  set_bool-Returns :
      Quiet
      → (fuel : ℕ) (mem : List ℕ) (chip_junk : ℕ) (p : NfcProperty) (enable : Bool) (d : Device W)
      → Returns Any (set_bool (pn532_uart_driver fuel mem chip_junk) p enable d)
  unfolding set_bool
  set_bool-Returns quiet fuel mem chip_junk p enable d =
      set_property_bool-Returns transceive returns p enable (record d { last_error = pos 0 })
    where
      returns :
          (tx : List ℕ) (room : ℕ) (timeout : ℤ) (d : Device W)
          → Returns Any (transceive tx room timeout d)
      returns tx room timeout d =
          Returns-Any _ (transceive tx room timeout d) (quiet tx room timeout d)

  -- Whatever the device was before, and when an exchange with the chip returns and keeps the default settings
  -- (CRC and parity by the chip, easy framing, whole bytes), `nfc_initiator_init` over the
  -- functions of pn53x.c returns, and it either returns an error or leaves the device an initiator with the default settings.
  pub nfc_initiator_init-Initialised :
      Quiet
      → (fuel : ℕ) (mem : List ℕ) (chip_junk : ℕ) (d : Device W)
      → Returns Initialised (nfc_initiator_init (pn532_uart_driver fuel mem chip_junk) d)
  unfolding nfc_initiator_init
  nfc_initiator_init-Initialised quiet fuel mem chip_junk d =
      set_all-Initialised (pn532_uart_driver fuel mem chip_junk)
        ((np_activate_field, false)
          ∷ (np_activate_field, true)
          ∷ (np_infinite_select, true)
          ∷ (np_auto_iso14443_4, true)
          ∷ (np_force_iso14443_a, true)
          ∷ (np_force_speed_106, true)
          ∷ (np_accept_invalid_frames, false)
          ∷ (np_accept_multiple_frames, false)
          ∷ [])
        (with_driver (pn532_uart_driver fuel mem chip_junk).initiator_init (pos 0) (λ f. f))
        (set_bool-Returns quiet fuel mem chip_junk)
        (λ d1. initiator_init-Initialised quiet (record d1 { last_error = pos 0 })) d
