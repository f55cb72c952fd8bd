-- ===== src/Pn53x/Poll.antt =====
-- Polling, by libnfc/chips/pn53x.c: `pn53x_InAutoPoll` and `pn53x_initiator_poll_target`.
pub mod Laws
mod Tests
use libnfc.Prelude.{
  ℕ, zero, suc, ◌+◌, ◌*◌, Bool, true, false, not, ◌&&◌, Option, none, some, List, [], ◌∷◌, ◌++◌,
}
use libnfc.Prelude.{map, ltb, ◌==◌, if◌then◌else◌, length, drop, get_or}
use libnfc.Prelude.Int.{ℤ, pos, negsuc, is_neg, to_size}
use libnfc.Types.{NfcModulation, NfcTarget, NfcTargetInfo}
use libnfc.Pn53x.Decode.{decode_target_data}
use libnfc.Pn53x.Device.{Device, nfc_einvarg, nfc_edevnotsupp, nfc_echip, nfc_etimeout, same_result}
use libnfc.Pn53x.Modulation.{
  Pn53xTargetType, ptt_undefined, ptt_generic_passive_106, ptt_generic_passive_212,
  ptt_generic_passive_424, ptt_iso14443_4b_106, ptt_jewel_106, ptt_mifare, ptt_felica_212,
  ptt_felica_424, ptt_iso14443_4a_106, ptt_iso14443_4b_tcl_106, ptt_dep_passive_106,
  ptt_dep_passive_212, ptt_dep_passive_424, ptt_dep_active_106, ptt_dep_active_212,
  ptt_dep_active_424, nm_to_ptt, ptt_to_nm, prepare_initiator_data,
}
use libnfc.Pn53x.Monad.{M, out_of_fuel, ◌>>=◌, ◌>>◌, return, get, crash, need, Transceive}
use libnfc.Pn53x.Properties.{set_property_bool, np_infinite_select}
use libnfc.Pn53x.Registers.{max_data}
use libnfc.Pn53x.Select.{refuse, overlay, select_passive_target_ext}
use libnfc.Pn53x.Transceive.{is_pn532}

-- The values of `pn53x_target_type`, as they stand in a byte.
abbrev pub ptt_code : Pn53xTargetType → ℕ
ptt_code ptt_undefined = 0xff
ptt_code ptt_generic_passive_106 = 0x00
ptt_code ptt_generic_passive_212 = 0x01
ptt_code ptt_generic_passive_424 = 0x02
ptt_code ptt_iso14443_4b_106 = 0x03
ptt_code ptt_jewel_106 = 0x04
ptt_code ptt_mifare = 0x10
ptt_code ptt_felica_212 = 0x11
ptt_code ptt_felica_424 = 0x12
ptt_code ptt_iso14443_4a_106 = 0x20
ptt_code ptt_iso14443_4b_tcl_106 = 0x23
ptt_code ptt_dep_passive_106 = 0x40
ptt_code ptt_dep_passive_212 = 0x41
ptt_code ptt_dep_passive_424 = 0x42
ptt_code ptt_dep_active_106 = 0x80
ptt_code ptt_dep_active_212 = 0x81
ptt_code ptt_dep_active_424 = 0x82

abbrev pub target_types : List Pn53xTargetType
target_types =
    ptt_generic_passive_106 ∷ ptt_generic_passive_212 ∷ ptt_generic_passive_424
    ∷ ptt_iso14443_4b_106 ∷ ptt_jewel_106 ∷ ptt_mifare ∷ ptt_felica_212 ∷ ptt_felica_424
    ∷ ptt_iso14443_4a_106 ∷ ptt_iso14443_4b_tcl_106 ∷ ptt_dep_passive_106 ∷ ptt_dep_passive_212
    ∷ ptt_dep_passive_424 ∷ ptt_dep_active_106 ∷ ptt_dep_active_212 ∷ ptt_dep_active_424 ∷ []

-- The type of a byte; `pn53x_ptt_to_nm` treats one that is no type as an undefined one.
unfoldable pub find_type : List Pn53xTargetType → ℕ → Pn53xTargetType
find_type [] n = ptt_undefined
find_type (t ∷ ts) n = if ptt_code t == n then t else find_type ts n

-- The target types of the modulations: with the automatic switch to ISO14443-4, a MIFARE target is
-- first looked for as one of ISO14443-4A. `none` is a modulation without a type. The array for the
-- types has 32 places; more than 15 are an overrun in `in_auto_poll`, whose array is shorter.
unfoldable pub with_ats : Bool → Pn53xTargetType → List Pn53xTargetType
with_ats auto ptt = elim ptt [
  | ptt_undefined ↦ []
  | ptt_mifare ↦ if auto then ptt_iso14443_4a_106 ∷ ptt_mifare ∷ [] else ptt_mifare ∷ []
  | other ↦ other ∷ []
]

unfoldable pub poll_types : Bool → List NfcModulation → Option (List Pn53xTargetType)
unfolding with_ats
poll_types auto [] = some []
poll_types auto (nm ∷ nms) =
    let rest = poll_types auto nms in
    elim (nm_to_ptt nm) as (λ x. Option (List Pn53xTargetType)) [
      | ptt_undefined ↦ none
      | ptt ↦ elim rest [ none ↦ none | some types ↦ some (with_ats auto ptt ++ types) ]
    ]

module _ {W : Type 0} (transceive : Transceive W) where
  -- One target of the answer, and what stands behind it. `mem` goes on behind the answer.
  unfoldable pub next_target : List ℕ → M W (ℤ × Option NfcTarget × List ℕ)
  unfolding find_type
  next_target mem = do
    d ← get
    let nm = ptt_to_nm (find_type target_types (get_or mem 0 0))
    let size = get_or mem 1 0
    (res, info) ← need (decode_target_data d.type nm.nmt (drop 2 mem) size)
    let nt : Option NfcTarget = elim info [
      | none ↦ none
      | some nti ↦ some (record { nti = nti; nm = nm })
    ]
    return (res, nt, drop size (drop 2 mem))

  -- The count and the targets; the result of decoding the second one is not looked at.
  unfoldable pub found_targets : List ℕ → M W (ℤ × List (Option NfcTarget))
  unfolding next_target
  found_targets mem =
      let count = get_or mem 0 0 in
      if count == 0 then return (pos 0, []) else (do
        (res, first, mem) ← next_target (drop 1 mem)
        if is_neg res
            then return (res, first ∷ [])
            else if ltb 1 count
            then (do (res, second, mem) ← next_target mem; return (pos count, first ∷ second ∷ []))
            else return (pos count, first ∷ []))

  -- `pn53x_InAutoPoll`; `mem` is `abtRx` before the call.
  unfoldable pub in_auto_poll :
      List Pn53xTargetType → ℕ → ℕ → List ℕ → ℤ → M W (ℤ × List (Option NfcTarget))
  unfolding found_targets
  in_auto_poll types poll_nr period mem timeout = do
    d ← get
    if not (is_pn532 d.type)
        then (do res ← refuse nfc_edevnotsupp; return (res, []))
        else if ltb 15 (length types)
        then crash
        else (do
          (res, rx) ← transceive (0x60 ∷ poll_nr ∷ period ∷ map ptt_code types) max_data timeout
          if is_neg res
              then return (res, [])
              else if to_size res == 0
              then return (pos 0, [])
              else found_targets (overlay 0 rx mem))

  -- The switch on the count.
  unfoldable pub keep_polled : ℤ → List (Option NfcTarget) → M W (ℤ × Option NfcTarget)
  keep_polled res (first ∷ []) =
      if same_result res (pos 1) then return (res, first) else return (nfc_echip, none)
  keep_polled res (first ∷ second ∷ []) =
      if same_result res (pos 2) then return (res, second) else return (nfc_echip, none)
  keep_polled res _ = return (nfc_echip, none)

  unfoldable pub poll_pn532 : List NfcModulation → ℕ → ℕ → List ℕ → M W (ℤ × Option NfcTarget)
  unfolding poll_types in_auto_poll keep_polled
  poll_pn532 nms poll_nr period mem = do
    d ← get
    elim (poll_types d.auto_iso14443_4 nms) [
      | none ↦ (do res ← refuse nfc_einvarg; return (res, none))
      | some types ↦ (do
        (res, targets) ← in_auto_poll types poll_nr period mem (pos 0)
        if is_neg res then return (res, none) else keep_polled res targets)
    ]

  -- The loop over the modulations: `none` if it comes to its end.
  unfoldable pub sweep : List NfcModulation → ℕ → List ℕ → ℕ → M W (Option (ℤ × Option NfcTarget))
  sweep [] period mem chip_junk = return none
  sweep (nm ∷ nms) period mem chip_junk = do
    let next : M W (Option (ℤ × Option NfcTarget)) = sweep nms period mem chip_junk
    (res, nt) ←
        select_passive_target_ext transceive nm (prepare_initiator_data nm) true
          (pos (period * 150)) mem chip_junk
    d ← get
    if not (is_neg res)
        then return (some (res, nt))
        else if same_result d.last_error nfc_etimeout
        then next
        else return (some (d.last_error, none))

  -- The loop over `p`.
  unfoldable pub sweeps :
      ℕ → List NfcModulation → ℕ → List ℕ → ℕ → M W (Option (ℤ × Option NfcTarget))
  unfolding sweep
  sweeps zero nms period mem chip_junk = return none
  sweeps (suc n) nms period mem chip_junk = do
    let next : M W (Option (ℤ × Option NfcTarget)) = sweeps n nms period mem chip_junk
    stopped ← sweep nms period mem chip_junk
    elim stopped [ none ↦ next | some end ↦ return (some end) ]

  -- The outer loop, which goes on while `uiPollNr` is 0xff.
  unfoldable pub poll_forever :
      ℕ → ℕ → List NfcModulation → ℕ → List ℕ → ℕ → M W (ℤ × Option NfcTarget)
  unfolding sweeps
  poll_forever zero poll_nr nms period mem chip_junk = λ d. out_of_fuel
  poll_forever (suc fuel) poll_nr nms period mem chip_junk = do
    let next : M W (ℤ × Option NfcTarget) = poll_forever fuel poll_nr nms period mem chip_junk
    stopped ← sweeps poll_nr nms period mem chip_junk
    elim stopped [
      | none ↦ if poll_nr == 0xff then next else return (pos 0, none)
      | some end ↦ return end
    ]

  -- `pn53x_initiator_poll_target`, for a `pnt` that is not NULL.
  unfoldable pub poll_target :
      ℕ → List NfcModulation → ℕ → ℕ → List ℕ → ℕ → M W (ℤ × Option NfcTarget)
  unfolding poll_pn532 poll_forever
  poll_target fuel nms poll_nr period mem chip_junk = do
    d ← get
    if is_pn532 d.type then poll_pn532 nms poll_nr period mem else (do
      ignored ← set_property_bool transceive np_infinite_select true
      poll_forever fuel poll_nr nms period mem chip_junk)
