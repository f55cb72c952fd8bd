-- ===== src/Pn53x/Select.antt =====
-- Selection of a passive target, by libnfc/chips/pn53x.c: `pn53x_InListPassiveTarget`,
-- `pn53x_initiator_select_passive_target` and its extended form, the deselection, and the test
-- whether the target is still there.
pub mod Laws
mod Tests
use libnfc.Prelude.{
  ℕ, ◌+◌, ◌-◌, ◌^◌, Bool, true, false, not, ◌||◌, Option, none, some, List, [], ◌∷◌, ◌++◌,
}
use libnfc.Prelude.{ltb, ◌==◌, if◌then◌else◌, length, take, drop, get_or, bit_and}
use libnfc.Prelude.Int.{ℤ, pos, negsuc, is_neg, to_size}
use libnfc.Types.{NfcModulation, NfcModulationType, NfcTarget, NfcTargetInfo}
use libnfc.Types.{nmt_iso14443a, nmt_jewel, nmt_iso14443b, nmt_iso14443bi}
use libnfc.Types.{nmt_iso14443b2sr, nmt_iso14443b2ct, nmt_felica, nmt_dep}
use libnfc.Pn53x.Commands.{in_deselect, diagnose, sam_configuration}
use libnfc.Pn53x.Decode.{is_pn531, decode_target_data}
use libnfc.Pn53x.Device.{Device, Pn53xType, nfc_success, nfc_einvarg, nfc_edevnotsupp, nfc_enotimpl}
use libnfc.Pn53x.Device.{nfc_etgreleased, psm_wired_card, same_result}
use libnfc.Pn53x.Initiator.{transceive_bytes, wrap}
use libnfc.Pn53x.Modulation.{
  Pn53xModulation, pm_undefined, pm_iso14443a_106, pm_felica_212, pm_felica_424, pm_iso14443b_106,
  pm_jewel_106, pm_iso14443b_212, pm_iso14443b_424, pm_iso14443b_847, nm_to_pm,
}
use libnfc.Pn53x.Monad.{M, ◌>>=◌, ◌>>◌, return, get, modify, try, crash, need, Transceive}
use libnfc.Pn53x.Properties.{
  set_property_bool, np_force_iso14443_b, np_force_speed_106, np_handle_crc,
}
use libnfc.Pn53x.Registers.{is_pn533, max_data}
use libnfc.Pn53x.Transceive.{is_rcs360, current_target_free}

-- The values of `pn53x_modulation`.
abbrev pub pm_code : Pn53xModulation → ℕ
pm_code pm_undefined = 0xff
pm_code pm_iso14443a_106 = 0x00
pm_code pm_felica_212 = 0x01
pm_code pm_felica_424 = 0x02
pm_code pm_iso14443b_106 = 0x03
pm_code pm_jewel_106 = 0x04
pm_code pm_iso14443b_212 = 0x06
pm_code pm_iso14443b_424 = 0x07
pm_code pm_iso14443b_847 = 0x08

-- The switch in front of InListPassiveTarget: the error for a modulation that the chip does not
-- support.
unfoldable pub unsupported : Pn53xType → ℕ → Pn53xModulation → Option ℤ
unsupported type support pm =
    let without_b = bit_and support 0x02 == 0 in
    let fast_b = if not (is_pn533 type) || without_b then some nfc_edevnotsupp else none in
    elim pm [
      | pm_iso14443a_106 ↦ none
      | pm_felica_212 ↦ none
      | pm_felica_424 ↦ none
      | pm_iso14443b_106 ↦ if without_b then some nfc_edevnotsupp else none
      | pm_jewel_106 ↦ if is_pn531 type then some nfc_edevnotsupp else none
      | pm_iso14443b_212 ↦ fast_b
      | pm_iso14443b_424 ↦ fast_b
      | pm_iso14443b_847 ↦ fast_b
      | pm_undefined ↦ some nfc_einvarg
    ]

-- The buffer `mem` after `bytes` are stored at `offset`.
abbrev pub overlay : ℕ → List ℕ → List ℕ → List ℕ
overlay offset bytes mem = take offset mem ++ (bytes ++ drop (offset + length bytes) mem)

-- The types without support in InListPassiveTarget.
abbrev pub by_hand : NfcModulationType → Bool
by_hand nmt_iso14443bi = true
by_hand nmt_iso14443b2sr = true
by_hand nmt_iso14443b2ct = true
by_hand nmt_iso14443a = false
by_hand nmt_jewel = false
by_hand nmt_iso14443b = false
by_hand nmt_felica = false
by_hand nmt_dep = false

module _ {W : Type 0} where
  -- `pnd->last_error = e; return pnd->last_error;`
  abbrev pub refuse : ℤ → M W ℤ
  refuse e = do modify (λ d. record d { last_error = e }); return e

  -- The macro `HAL`, with a driver that has the function.
  abbrev pub hal : {A : Type 0} → M W A → M W A
  hal m = do modify (λ d. record d { last_error = pos 0 }); m

  unfoldable pub current_target_new : NfcTarget → Device W → Device W
  current_target_new nt d = record d { current_target = some nt }

  -- `same` is the comparison of the bytes of two targets.
  abbrev pub current_target_is : (NfcTarget → NfcTarget → Bool) → NfcTarget → Device W → Bool
  current_target_is same nt d = elim d.current_target [ none ↦ false | some kept ↦ same nt kept ]

module _ {W : Type 0} (transceive : Transceive W) where
  -- The result, the buffer for the targets and the count of bytes in it. `mem` is the buffer before
  -- the call; a command of more than 15 bytes writes past `abtCmd`.
  unfoldable pub in_list_passive_target :
      Pn53xModulation → ℕ → List ℕ → List ℕ → ℤ → M W (ℤ × List ℕ × ℕ)
  unfolding unsupported
  in_list_passive_target pm max_targets init mem timeout = do
    d ← get
    elim (unsupported d.type d.support_byte pm) [
      | some e ↦ (do res ← refuse e; return (res, mem, max_data))
      | none ↦ if ltb 12 (length init) then crash else (do
        (res, rx) ← transceive (0x4a ∷ max_targets ∷ pm_code pm ∷ init) max_data timeout
        let mem = overlay 0 rx mem
        if is_neg res
            then return (res, mem, max_data)
            else return (pos (get_or mem 0 0), mem, to_size res))
    ]

  -- The settings for a discovery by hand.
  unfoldable pub prepare_by_hand : M W ℤ
  prepare_by_hand = try (hal (set_property_bool transceive np_force_iso14443_b true)) (
      try (hal (set_property_bool transceive np_force_speed_106 true)) (
        try (hal (set_property_bool transceive np_handle_crc true))
          (do modify (λ d. record d { easy_framing = false }); return nfc_success)))

  -- An exchange whose answer goes to the buffer at `offset`.
  unfoldable pub exchange_at : ℕ → List ℕ → List ℕ → ℤ → M W (ℤ × List ℕ)
  exchange_at offset tx mem timeout = do
    (res, rx) ← transceive_bytes transceive tx (some (max_data - offset)) timeout
    return (res, overlay offset rx mem)

  -- What comes before the UID; `chip_junk` stands in `abtRx` before it is filled.
  unfoldable pub before_uid : NfcModulationType → List ℕ → ℕ → ℤ → M W (ℤ × List ℕ × ℕ)
  unfolding exchange_at
  before_uid nmt mem chip_junk timeout = elim nmt [
    | nmt_iso14443b2sr ↦ (do
      (res, rx) ← transceive_bytes transceive (0x06 ∷ 0x00 ∷ []) (some 1) timeout
      if is_neg res then return (res, mem, max_data) else (do
        (res, rx) ←
            transceive_bytes transceive (0x0e ∷ get_or (rx ++ chip_junk ∷ []) 0 0 ∷ []) (some 1)
              timeout
        return (res, mem, to_size res)))
    | nmt_iso14443b2ct ↦ (do
      (res, mem) ← exchange_at 2 (0x10 ∷ []) mem timeout
      return (res, mem, to_size res))
    | _ ↦ return (pos 0, mem, max_data)
  ]

  -- The second half of the UID of an ISO14443B-2 ASK CTx target. The misplaced parenthesis makes the
  -- result of an error 1.
  unfoldable pub rest_of_uid : NfcModulationType → List ℕ → ℕ → ℤ → M W (Option ℤ × List ℕ × ℕ)
  unfolding exchange_at
  rest_of_uid nmt mem size timeout = elim nmt [
    | nmt_iso14443b2ct ↦ if not (size == 2) then return (some (pos 0), mem, size) else (do
      (res, mem) ← exchange_at 4 (0xc4 ∷ []) mem timeout
      return (if is_neg res then some (pos 1) else none, mem, 6))
    | _ ↦ return (none, mem, size)
  ]

  unfoldable pub select_tag : NfcModulationType → List ℕ → ℤ → M W ℤ
  select_tag nmt mem timeout = elim nmt [
    | nmt_iso14443bi ↦ (do
      (res, rx) ←
          transceive_bytes transceive (get_or mem 0 0 ∷ 0x0f ∷ take 4 (drop 2 mem)) none timeout
      return res)
    | _ ↦ return nfc_success
  ]

  -- The target as far as it is wanted: `none` inside for no target.
  unfoldable pub decode_wanted : Bool → NfcModulation → List ℕ → ℕ → M W (ℤ × Option NfcTarget)
  decode_wanted wanted nm mem size = if not wanted then return (pos 0, none) else (do
    d ← get
    (res, info) ← need (decode_target_data d.type nm.nmt mem size)
    return (res, elim info [ none ↦ none | some nti ↦ some (record { nti = nti; nm = nm }) ]))

  unfoldable pub select_by_hand :
      NfcModulation → List ℕ → Bool → ℤ → List ℕ → ℕ → M W (ℤ × Option NfcTarget)
  unfolding prepare_by_hand before_uid rest_of_uid select_tag decode_wanted exchange_at
  select_by_hand nm init wanted timeout mem chip_junk = do
    prepared ← prepare_by_hand
    if is_neg prepared then return (prepared, none) else (do
      (res, mem, size) ← before_uid nm.nmt mem chip_junk timeout
      if is_neg res then return (res, none) else (do
        (res, mem) ← exchange_at 0 init mem timeout
        if is_neg res then return (res, none) else (do
          (early, mem, size) ← rest_of_uid nm.nmt mem size timeout
          let rest : M W (ℤ × Option NfcTarget) = (do
            (res, nt) ← decode_wanted wanted nm mem size
            if is_neg res then return (res, none) else (do
              selected ← select_tag nm.nmt mem timeout
              return (if is_neg selected then selected else pos (get_or mem 0 0), nt)))
          elim early [ some res ↦ return (res, none) | none ↦ rest ])))

  -- With InListPassiveTarget; here, too, an error of the decoding becomes 1.
  unfoldable pub select_listed :
      NfcModulation → List ℕ → Bool → ℤ → List ℕ → M W (ℤ × Option NfcTarget)
  unfolding in_list_passive_target decode_wanted current_target_new
  select_listed nm init wanted timeout mem = do
    (res, mem, size) ← in_list_passive_target (nm_to_pm nm) 1 init mem timeout
    if is_neg res || same_result res (pos 0) then return (res, none) else (do
      (decoded, nt) ← decode_wanted wanted nm (drop 1 mem) (wrap (size + 2 ^ 64 - 1))
      if is_neg decoded then return (pos 1, none) else (do
        modify (λ d. elim nt [ none ↦ d | some nt ↦ current_target_new nt d ])
        return (pos (get_or mem 0 0), nt)))

  abbrev pub is_undefined : Pn53xModulation → Bool
  is_undefined pm_undefined = true
  is_undefined _ = false

  -- `wanted` is a `pnt` that is not NULL, `mem` the content of `abtTargetsData` before the call. The
  -- target is given where the function fills it in.
  unfoldable pub select_passive_target_ext :
      NfcModulation → List ℕ → Bool → ℤ → List ℕ → ℕ → M W (ℤ × Option NfcTarget)
  unfolding select_by_hand select_listed
  select_passive_target_ext nm init wanted timeout mem chip_junk = do
    d ← get
    if by_hand nm.nmt
        then (if is_rcs360 d.type
            then (do res ← refuse nfc_enotimpl; return (res, none))
            else select_by_hand nm init wanted timeout mem chip_junk)
        else (if is_undefined (nm_to_pm nm)
            then (do res ← refuse nfc_einvarg; return (res, none))
            else select_listed nm init wanted timeout mem)

  unfoldable pub select_passive_target :
      NfcModulation → List ℕ → Bool → List ℕ → ℕ → M W (ℤ × Option NfcTarget)
  unfolding select_passive_target_ext
  select_passive_target nm init wanted mem chip_junk =
      select_passive_target_ext nm init wanted (pos 0) mem chip_junk

  -- 0 is all targets.
  unfoldable pub deselect_target : M W ℤ
  unfolding current_target_free
  deselect_target = do modify current_target_free; in_deselect transceive 0

  unfoldable pub target_is_present : (NfcTarget → NfcTarget → Bool) → NfcTarget → M W ℤ
  unfolding current_target_free
  target_is_present same nt = do
    d ← get
    if not (current_target_is same nt d) then return nfc_etgreleased else (do
      (res, rx) ← transceive (diagnose ∷ 0x06 ∷ []) 1 (pos 700)
      if is_neg res
          then return res
          else if same_result res (pos 1)
          then return nfc_success
          else (do modify current_target_free; return nfc_etgreleased))

  unfoldable pub init_secure_element : M W ℤ
  init_secure_element = sam_configuration transceive psm_wired_card (negsuc 0)
