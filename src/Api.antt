-- ===== src/Api.antt =====
-- The functions of libnfc/nfc.c that are more than a call of the driver, and `nfc_emulate_target` of
-- libnfc/nfc-emulation.c.
pub mod Listing
pub mod Emulation
pub mod Polling
mod Tests
use libnfc.Prelude.{
  ℕ, zero, suc, ◌+◌, Bool, true, false, not, ◌||◌, Option, none, some, List, [], ◌∷◌,
}
use libnfc.Prelude.{ltb, ◌==◌, if◌then◌else◌, length}
use libnfc.Prelude.Int.{ℤ, pos, is_neg, to_size}
use libnfc.Iso14443.Cascade.{cascade_uid}
use libnfc.Types.{
  NfcProperty, np_activate_field, np_infinite_select, np_auto_iso14443_4, np_force_iso14443_a,
  np_force_speed_106, np_accept_invalid_frames, np_accept_multiple_frames, np_handle_crc,
  np_handle_parity, np_easy_framing, np_activate_crypto1,
}
use libnfc.Types.{NfcModulation, NfcModulationType, nmt_iso14443a, nmt_jewel, nmt_iso14443b}
use libnfc.Types.{nmt_iso14443bi, nmt_iso14443b2sr, nmt_iso14443b2ct, nmt_felica, nmt_dep}
use libnfc.Types.{NfcTarget, NfcDepMode, NfcDepInfo, NfcBaudRate}
use libnfc.Pn53x.Device.{Device, nfc_success, nfc_edevnotsupp, nfc_etimeout, same_result}
use libnfc.Pn53x.Modulation.{prepare_initiator_data}
use libnfc.Pn53x.Monad.{M, out_of_fuel, ◌>>=◌, ◌>>◌, return, get, modify, try, crash, need}

-- The functions of a driver that are called here; `none` is a NULL pointer. An nfc_target that a
-- function fills in is an argument and a part of the result.
pub record Driver (W : Type 0) : Type 0 where
  pub set_property_bool : Option (NfcProperty → Bool → M W ℤ)
  pub set_property_int : Option (NfcProperty → ℤ → M W ℤ)
  pub initiator_init : Option (M W ℤ)
  pub select_passive_target : Option (NfcModulation → List ℕ → NfcTarget → M W (ℤ × NfcTarget))
  pub poll_target : Option (List NfcModulation → ℕ → ℕ → NfcTarget → M W (ℤ × NfcTarget))
  pub select_dep_target : Option (
      NfcDepMode
      → NfcBaudRate
      → Option NfcDepInfo
      → Option NfcTarget
      → ℤ
      → M W (ℤ × Option NfcTarget))
  pub deselect_target : Option (M W ℤ)
  pub target_init : Option (NfcTarget → ℕ → ℤ → M W (ℤ × List ℕ))
  pub target_send_bytes : Option (List ℕ → ℤ → M W ℤ)
  pub target_receive_bytes : Option (ℕ → ℤ → M W (ℤ × List ℕ))

-- The types after whose first target a listing stops.
abbrev pub lists_one : NfcModulationType → Bool
lists_one nmt_felica = true
lists_one nmt_jewel = true
lists_one nmt_iso14443bi = true
lists_one nmt_iso14443b2sr = true
lists_one nmt_iso14443b2ct = true
lists_one nmt_iso14443a = false
lists_one nmt_iso14443b = false
lists_one nmt_dep = false

-- The initiator data for the driver: a UID of ISO14443A with its cascade tags.
unfoldable pub init_data : NfcModulation → List ℕ → Option (List ℕ)
init_data nm bytes = elim nm.nmt [
  | nmt_iso14443a ↦ cascade_uid bytes (length bytes)
  | _ ↦ some bytes
]

-- Whether a target is among those that were found.
unfoldable pub seen : (NfcTarget → NfcTarget → Bool) → NfcTarget → List NfcTarget → Bool
seen same nt [] = false
seen same nt (found ∷ more) = same found nt || seen same nt more

module _ {W : Type 0} where
  -- `HAL`: without the function the result is `false`.
  abbrev pub with_driver : {F A : Type 0} → Option F → A → (F → M W A) → M W A
  with_driver none without call = do
    modify (λ d. record d { last_error = nfc_edevnotsupp })
    return without
  with_driver (some f) without call = do modify (λ d. record d { last_error = pos 0 }); call f

module _ {W : Type 0} (driver : Driver W) where
  -- `nfc_device_set_property_bool`
  unfoldable pub set_bool : NfcProperty → Bool → M W ℤ
  set_bool p enable = with_driver driver.set_property_bool (pos 0) (λ f. f p enable)

  -- The calls `if ((res = nfc_device_set_property_bool(...)) < 0) return res;` in a row.
  unfoldable pub set_all : List (NfcProperty × Bool) → M W ℤ → M W ℤ
  unfolding set_bool
  set_all [] rest = rest
  set_all ((p, enable) ∷ more) rest = try (set_bool p enable) (set_all more rest)

  -- `nfc_initiator_init`
  unfoldable pub nfc_initiator_init : M W ℤ
  unfolding set_all
  nfc_initiator_init =
      set_all
        ((np_activate_field, false)
          ∷ (np_activate_field, true)
          ∷ (np_infinite_select, true)
          ∷ (np_auto_iso14443_4, true)
          ∷ (np_force_iso14443_a, true)
          ∷ (np_force_speed_106, true)
          ∷ (np_accept_invalid_frames, false)
          ∷ (np_accept_multiple_frames, false)
          ∷ [])
        (with_driver driver.initiator_init (pos 0) (λ f. f))

  unfoldable pub nfc_select_passive_target :
      NfcModulation → List ℕ → NfcTarget → M W (ℤ × NfcTarget)
  unfolding init_data
  nfc_select_passive_target nm bytes nt = do
    data_sent ← need (init_data nm bytes)
    with_driver driver.select_passive_target (pos 0, nt) (λ f. f nm data_sent nt)

  -- The loop of `nfc_initiator_list_passive_targets`. The first argument is the room that is left in
  -- `ant`; the targets found come with the last one first; `nt` is the local target. Without room in
  -- `ant` the next target is written past it.
  unfoldable pub list_loop :
      (NfcTarget → NfcTarget → Bool)
      → NfcModulation
      → ℕ
      → List NfcTarget
      → NfcTarget
      → M W (List NfcTarget)
  unfolding nfc_select_passive_target seen
  list_loop same nm zero found nt = do
    (res, nt) ← nfc_select_passive_target nm (prepare_initiator_data nm) nt
    if is_neg res || same_result res (pos 0)
        then return found
        else if seen same nt found
        then return found
        else crash
  list_loop same nm (suc room) found nt = do
    let next : NfcTarget → M W (List NfcTarget) = (λ nt. list_loop same nm room (nt ∷ found) nt)
    (res, nt) ← nfc_select_passive_target nm (prepare_initiator_data nm) nt
    if is_neg res || same_result res (pos 0)
        then return found
        else if seen same nt found
        then return found
        else if room == 0
        then return (nt ∷ found)
        else (do
          ignored ← with_driver driver.deselect_target (pos 0) (λ f. f)
          if lists_one nm.nmt then return (nt ∷ found) else next nt)

  -- `same` is the comparison of the bytes of two targets, `nt` what the local target holds at first.
  unfoldable pub list_passive_targets :
      (NfcTarget → NfcTarget → Bool) → NfcModulation → ℕ → NfcTarget → M W (ℤ × List NfcTarget)
  unfolding set_bool list_loop
  list_passive_targets same nm size nt = do
    modify (λ d. record d { last_error = pos 0 })
    res ← set_bool np_infinite_select false
    if is_neg res
        then return (res, [])
        else (do found ← list_loop same nm size [] nt; return (pos (length found), found))

  -- `nfc_target_init`
  unfoldable pub nfc_target_init : NfcTarget → ℕ → ℤ → M W (ℤ × List ℕ)
  unfolding set_all
  nfc_target_init nt room timeout = do
    res ←
        set_all
          ((np_accept_invalid_frames, false)
            ∷ (np_accept_multiple_frames, false)
            ∷ (np_handle_crc, true)
            ∷ (np_handle_parity, true)
            ∷ (np_auto_iso14443_4, true)
            ∷ (np_easy_framing, true)
            ∷ (np_activate_crypto1, false)
            ∷ (np_activate_field, false)
            ∷ [])
          (return nfc_success)
    if is_neg res
        then return (res, [])
        else with_driver driver.target_init (pos 0, []) (λ f. f nt room timeout)

  -- What `nfc_emulate_target` does with the result of the state machine: the answer is sent, and the
  -- next command is received.
  unfoldable pub emulate_round : ℤ → List ℕ → M W (ℤ × List ℕ)
  emulate_round io_res tx = do
    sent ←
        (if ltb 0 (to_size io_res)
          then with_driver driver.target_send_bytes (pos 0) (λ f. f tx (pos 0))
          else return (pos 0))
    if is_neg sent
        then return (sent, [])
        else with_driver driver.target_receive_bytes (pos 0, []) (λ f. f 258 (pos 0))

  -- The loop, from a received command on. `io` is the emulator's state machine: from its state and
  -- the command, the result, the answer and the next state.
  unfoldable pub emulate_loop :
      {S : Type 0} → (S → List ℕ → ℤ × List ℕ × S) → ℕ → S → List ℕ → M W ℤ
  unfolding emulate_round
  emulate_loop io zero s rx = λ d. out_of_fuel
  emulate_loop io (suc fuel) s rx =
      let (io_res, tx, s') = io s rx in
      let next : List ℕ → M W ℤ = emulate_loop io fuel s' in
      if is_neg io_res
      then return io_res
      else (do (res, rx) ← emulate_round io_res tx; if is_neg res then return res else next rx)

  unfoldable pub emulate_target :
      {S : Type 0} → (S → List ℕ → ℤ × List ℕ × S) → ℕ → S → NfcTarget → M W ℤ
  unfolding nfc_target_init emulate_loop
  emulate_target io fuel s nt = do
    (res, rx) ← nfc_target_init nt 258 (pos 0)
    if is_neg res then return res else emulate_loop io fuel s rx
