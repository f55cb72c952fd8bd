-- ===== src/Pn53x/Dep.antt =====
-- The selection of a D.E.P. target, by libnfc/chips/pn53x.c: `pn53x_InJumpForDEP` and
-- `pn53x_initiator_select_dep_target`.
pub mod Laws
mod Tests
use libnfc.Prelude.{ℕ, ◌+◌, ◌-◌, Bool, true, false, not, Option, none, some, List, [], ◌∷◌, ◌++◌}
use libnfc.Prelude.{ltb, leb, ◌==◌, if◌then◌else◌, length, take, drop, get_or}
use libnfc.Prelude.Int.{ℤ, pos, is_neg, to_size}
use libnfc.Types.{NfcBaudRate, nbr_undefined, nbr_106, nbr_212, nbr_424, nbr_847, nmt_dep}
use libnfc.Types.{NfcDepMode, ndm_undefined, ndm_passive, ndm_active, NfcDepInfo}
use libnfc.Types.{NfcTarget, NfcTargetInfo, ndi}
use libnfc.Pn53x.Device.{Device, nfc_einvarg}
use libnfc.Pn53x.Monad.{M, ◌>>=◌, ◌>>◌, return, get, modify, crash, Transceive}
use libnfc.Pn53x.Registers.{max_data}
use libnfc.Pn53x.Select.{refuse, overlay, current_target_new}
use libnfc.Pn53x.Transceive.{current_target_free}

-- The baud rate in the command; `none` is one that D.E.P. does not have.
abbrev pub dep_rate : NfcBaudRate → Option ℕ
dep_rate nbr_106 = some 0x00
dep_rate nbr_212 = some 0x01
dep_rate nbr_424 = some 0x02
dep_rate nbr_847 = none
dep_rate nbr_undefined = none

abbrev pub with_rate : {A : Type 0} → Option ℕ → A → (ℕ → A) → A
with_rate none without k = without
with_rate (some rate) without k = k rate

abbrev pub is_passive : NfcDepMode → Bool
is_passive ndm_passive = true
is_passive _ = false

abbrev pub is_active : NfcDepMode → Bool
is_active ndm_active = true
is_active _ = false

-- The passive initiator data that is sent.
abbrev pub passive_data : NfcDepMode → NfcBaudRate → Option (List ℕ) → List ℕ
passive_data ndm nbr none = []
passive_data ndm nbr (some bytes) = elim nbr [
  | nbr_106 ↦ if is_passive ndm then take 4 bytes else []
  | _ ↦ if is_passive ndm then take 5 bytes else []
]

abbrev pub bytes_of : Option NfcDepInfo → List ℕ
bytes_of none = []
bytes_of (some info) = take 10 info.nfcid3

abbrev pub gb_of : Option NfcDepInfo → List ℕ
gb_of none = []
gb_of (some info) = info.gb

abbrev pub flag : ℕ → List ℕ → ℕ
flag bit [] = 0
flag bit (b ∷ bytes) = bit

unfoldable pub dep_command : NfcDepMode → ℕ → List ℕ → Option NfcDepInfo → List ℕ
dep_command ndm rate passive initiator =
    let id = bytes_of initiator in
    let gb = gb_of initiator in
    0x56
    ∷ (if is_active ndm then 0x01 else 0x00)
    ∷ rate
    ∷ (flag 0x01 passive + flag 0x02 id + flag 0x04 gb)
    ∷ (passive ++ (id ++ gb))

-- The target in the answer `mem`, of which `size` bytes count; the general bytes must fit in the 48
-- bytes of `abtGB`.
unfoldable pub dep_target : NfcDepMode → NfcBaudRate → List ℕ → ℕ → Option NfcTarget
dep_target ndm nbr mem size =
    if ltb (17 + 48) size
    then none
    else some (record {
      nti = ndi (record {
        nfcid3 = take 10 (drop 2 mem);
        did = get_or mem 12 0;
        bs = get_or mem 13 0;
        br = get_or mem 14 0;
        to = get_or mem 15 0;
        pp = get_or mem 16 0;
        gb = take (size - 17) (drop 17 mem);
        ndm = ndm;
      });
      nm = record { nmt = nmt_dep; nbr = nbr };
    })

module _ {W : Type 0} (transceive : Transceive W) where
  -- `pnt` is the target before the call, `none` for NULL, and after it in the result. `initiator` is
  -- where the NFCID3 and the general bytes are, if there are any. A command of more than 67 bytes
  -- writes past `abtCmd`.
  unfoldable pub in_jump_for_dep :
      NfcDepMode
      → NfcBaudRate
      → Option (List ℕ)
      → Option NfcDepInfo
      → Option NfcTarget
      → List ℕ
      → ℤ
      → M W (ℤ × Option NfcTarget)
  unfolding dep_command dep_target
  in_jump_for_dep ndm nbr passive initiator pnt mem timeout =
      with_rate (dep_rate nbr) (do res ← refuse nfc_einvarg; return (res, pnt))
        λ rate.
          let tx = dep_command ndm rate (passive_data ndm nbr passive) initiator in
          if ltb 67 (length tx) then crash else (do
            (res, rx) ← transceive tx max_data timeout
            let mem = overlay 0 rx mem
            let found = get_or mem 1 0
            let size = to_size res
            let filled : M W (ℤ × Option NfcTarget) = (elim (dep_target ndm nbr mem size) [
              | none ↦ crash
              | some nt ↦ return (pos found, some nt)
            ])
            if is_neg res
                then return (res, pnt)
                else if not (leb 1 found)
                then return (pos found, pnt)
                else elim pnt [ none ↦ return (pos found, none) | some before ↦ filled ])

  -- Only at 212 and 424 kbps there is initiator data.
  abbrev pub polling_request : NfcBaudRate → Option (List ℕ)
  polling_request nbr_106 = none
  polling_request _ = some (0x00 ∷ 0xff ∷ 0xff ∷ 0x00 ∷ 0x0f ∷ [])

  -- The target that is kept; with a NULL `pnt` there is nothing to copy from.
  unfoldable pub keep_dep : ℤ → Option NfcTarget → M W (ℤ × Option NfcTarget)
  unfolding current_target_new
  keep_dep res pnt = if is_neg res then return (res, pnt) else elim pnt [
    | none ↦ crash
    | some nt ↦ (do modify (current_target_new nt); return (res, some nt))
  ]

  unfoldable pub select_dep_target :
      NfcDepMode
      → NfcBaudRate
      → Option NfcDepInfo
      → Option NfcTarget
      → List ℕ
      → ℤ
      → M W (ℤ × Option NfcTarget)
  unfolding in_jump_for_dep keep_dep current_target_free
  select_dep_target ndm nbr initiator pnt mem timeout =
      with_rate (dep_rate nbr) (return (nfc_einvarg, pnt)) λ rate. (do
        modify current_target_free
        (res, nt) ← in_jump_for_dep ndm nbr (polling_request nbr) initiator pnt mem timeout
        keep_dep res nt)
