-- ===== src/Pn53x/Target.antt =====
-- The device as a target, by libnfc/chips/pn53x.c: `pn53x_TgInitAsTarget` and `pn53x_target_init`.
pub mod Laws
pub mod Exchange
mod Tests
use libnfc.Prelude.{
  ℕ, zero, suc, ◌+◌, ◌-◌, ◌%◌, ◌^◌, Bool, true, false, not, ◌||◌, ◌&&◌, Option, none, some,
}
use libnfc.Prelude.{List, [], ◌∷◌, ◌++◌, ltb, leb, ◌==◌, if◌then◌else◌, length, take, drop, get_or}
use libnfc.Prelude.{replicate, bit_and}
use libnfc.Prelude.Int.{ℤ, pos, is_neg, to_size}
use libnfc.Iso14443.Ats.{locate_historical_bytes}
use libnfc.Types.{NfcModulation, NfcModulationType, nmt_iso14443a, nmt_jewel, nmt_iso14443b}
use libnfc.Types.{nmt_iso14443bi, nmt_iso14443b2sr, nmt_iso14443b2ct, nmt_felica, nmt_dep}
use libnfc.Types.{NfcBaudRate, nbr_undefined, nbr_106, nbr_212, nbr_424, nbr_847}
use libnfc.Types.{NfcDepMode, ndm_undefined, ndm_passive, ndm_active}
use libnfc.Types.{
  NfcTarget, NfcTargetInfo, nai, nfi, ndi, NfcIso14443aInfo, NfcFelicaInfo, NfcDepInfo,
}
use libnfc.Pn53x.Decode.{is_pn531}
use libnfc.Pn53x.Device.{Device, Pn53xType, target, nfc_einvarg, nfc_edevnotsupp, nfc_eovflow}
use libnfc.Pn53x.Device.{nfc_etimeout, same_result}
use libnfc.Pn53x.Initiator.{wrap}
use libnfc.Pn53x.Monad.{M, out_of_fuel, ◌>>=◌, ◌>>◌, return, get, modify, crash, need, Transceive}
use libnfc.Pn53x.Properties.{reset_settings, set_parameters, go_idle, ciu_tx_auto}
use libnfc.Pn53x.Registers.{write_register, max_data}
use libnfc.Pn53x.Select.{refuse, overlay, current_target_new}
use libnfc.Pn53x.Transceive.{is_pn532, is_rcs360}

-- What TgInitAsTarget is given: `pn53x_target_mode`, the parameters (a NULL pointer is no bytes),
-- the historical bytes and the general bytes.
pub record TargetParams : Type 0 where
  pub ptm : ℕ
  pub mifare : List ℕ
  pub felica : List ℕ
  pub nfcid3 : List ℕ
  pub tkt : List ℕ
  pub gb : List ℕ

-- Bytes in a field of zeros.
abbrev pub padded : ℕ → List ℕ → List ℕ
padded n bytes = take n bytes ++ replicate (n - length bytes) 0x00

-- The command.
unfoldable pub tg_init_command : Pn53xType → TargetParams → List ℕ
tg_init_command type p =
    let base = padded 6 p.mifare ++ (padded 18 p.felica ++ padded 10 p.nfcid3) in
    let optional =
      if is_pn531 type || is_rcs360 type
      then p.gb
      else (length p.gb % 2 ^ 8) ∷ (p.gb ++ (length p.tkt % 2 ^ 8) ∷ p.tkt) in
    0x8c ∷ p.ptm ∷ (base ++ optional)

-- The modulation, by the values of the enumerations.
abbrev pub nmt_code : NfcModulationType → ℕ
nmt_code nmt_iso14443a = 1
nmt_code nmt_jewel = 2
nmt_code nmt_iso14443b = 3
nmt_code nmt_iso14443bi = 4
nmt_code nmt_iso14443b2sr = 5
nmt_code nmt_iso14443b2ct = 6
nmt_code nmt_felica = 7
nmt_code nmt_dep = 8

abbrev pub nbr_code : NfcBaudRate → ℕ
nbr_code nbr_undefined = 0
nbr_code nbr_106 = 1
nbr_code nbr_212 = 2
nbr_code nbr_424 = 3
nbr_code nbr_847 = 4

abbrev pub ndm_code : NfcDepMode → ℕ
ndm_code ndm_undefined = 0
ndm_code ndm_passive = 1
ndm_code ndm_active = 2

-- The baud rate, the modulation and the D.E.P. mode of an activation, from its mode byte.
unfoldable pub activated_rate : ℕ → NfcBaudRate
activated_rate mode =
    let rate = bit_and mode 0x70 in
    if rate == 0x00
    then nbr_106
    else if rate == 0x10
    then nbr_212
    else if rate == 0x20
    then nbr_424
    else nbr_undefined

unfoldable pub activated_type : ℕ → NfcModulationType
activated_type mode =
    let framing = bit_and mode 0x03 in
    if not (bit_and mode 0x04 == 0)
    then nmt_dep
    else if framing == 0x00
    then nmt_iso14443a
    else if framing == 0x02
    then nmt_felica
    else nmt_dep

unfoldable pub activated_mode : ℕ → NfcDepMode
activated_mode mode =
    if not (bit_and mode 0x04 == 0)
    then (if bit_and mode 0x03 == 0x01 then ndm_active else ndm_passive)
    else ndm_undefined

-- The D.E.P. mode of the emulated target, if it is one.
abbrev pub dep_mode : NfcTargetInfo → NfcDepMode
dep_mode (ndi info) = info.ndm
dep_mode _ = ndm_undefined

-- Whether the activation is the wanted one.
unfoldable pub is_wanted : NfcTarget → ℕ → Bool
unfolding activated_rate activated_type activated_mode
is_wanted nt mode =
    nmt_code nt.nm.nmt == nmt_code (activated_type mode)
    && (nbr_code nt.nm.nbr == 0 || nbr_code nt.nm.nbr == nbr_code (activated_rate mode))
    && (not (nmt_code nt.nm.nmt == 8)
        || ndm_code (dep_mode nt.nti) == 0
        || ndm_code (dep_mode nt.nti) == ndm_code (activated_mode mode))

-- The target with the baud rate and the D.E.P. mode of its activation.
abbrev pub set_dep_mode : NfcDepMode → NfcTargetInfo → NfcTargetInfo
set_dep_mode ndm (ndi info) = ndi (record info { ndm = ndm })
set_dep_mode ndm other = other

unfoldable pub activate : NfcTarget → ℕ → NfcTarget
unfolding activated_rate activated_mode
activate nt mode = record {
  nti = set_dep_mode (activated_mode mode) nt.nti;
  nm = record { nmt = nt.nm.nmt; nbr = activated_rate mode };
}

-- The member of the union that the code reads; `none` where another one was written.
abbrev pub nai_of : NfcTargetInfo → Option NfcIso14443aInfo
nai_of (nai info) = some info
nai_of _ = none

abbrev pub nfi_of : NfcTargetInfo → Option NfcFelicaInfo
nfi_of (nfi info) = some info
nfi_of _ = none

abbrev pub ndi_of : NfcTargetInfo → Option NfcDepInfo
ndi_of (ndi info) = some info
ndi_of _ = none

-- The historical bytes of an ATS.
abbrev pub historical : List ℕ → List ℕ
historical ats = elim (locate_historical_bytes ats) [
  | none ↦ []
  | some (offset, count) ↦ take count (drop offset ats)
]

abbrev pub nothing : ℕ → TargetParams
nothing ptm = record { ptm = ptm; mifare = []; felica = []; nfcid3 = []; tkt = []; gb = [] }

-- The second switch of `pn53x_target_init`. A FeliCa target needs a system code that was stored.
unfoldable pub target_params : ℕ → NfcTarget → Option TargetParams
target_params ptm nt = elim nt.nti [
  | nai info ↦ some (record (nothing ptm) {
    mifare =
        get_or info.atqa 1 0
        ∷ get_or info.atqa 0 0
        ∷ get_or info.uid 1 0
        ∷ get_or info.uid 2 0
        ∷ get_or info.uid 3 0
        ∷ info.sak
        ∷ [];
    tkt = historical info.ats;
  })
  | nfi info ↦ elim info.sys_code [
    | none ↦ none
    | some sys_code ↦
        some
          (record (nothing ptm) { felica = take 8 info.id ++ (take 8 info.pad ++ take 2 sys_code) })
  ]
  | ndi info ↦ some (record (nothing ptm) {
    mifare = 0x08 ∷ 0x00 ∷ 0x12 ∷ 0x34 ∷ 0x56 ∷ 0x40 ∷ [];
    felica =
        0x01 ∷ 0xfe ∷ 0x12 ∷ 0x34 ∷ 0x56 ∷ 0x78 ∷ 0x90 ∷ 0x12 ∷ 0xc0 ∷ 0xc1 ∷ 0xc2 ∷ 0xc3 ∷ 0xc4
        ∷ 0xc5 ∷ 0xc6 ∷ 0xc7 ∷ 0x0f ∷ 0xab ∷ [];
    nfcid3 = info.nfcid3;
    gb = info.gb;
  })
  | _ ↦ none
]

module _ {W : Type 0} (transceive : Transceive W) where
  -- The result, the bytes that the initiator sent, and the mode byte. `room` is `szRxLen`; `mem` is
  -- the answer's buffer before the call. A command of more than 134 bytes writes past `abtCmd`, an
  -- answer of `room + 2` bytes past `pbtRx`.
  unfoldable pub tg_init_as_target : TargetParams → ℕ → List ℕ → ℤ → M W (ℤ × List ℕ × ℕ)
  unfolding tg_init_command
  tg_init_as_target p room mem timeout = do
    d ← get
    let tx = tg_init_command d.type p
    if ltb 134 (length tx) then crash else (do
      (res, rx) ← transceive tx max_data timeout
      let mode = get_or (overlay 0 rx mem) 0 0
      let size = wrap (to_size res + 2 ^ 64 - 1)
      if is_neg res
          then return (res, [], mode)
          else if ltb room (wrap (size + 2 ^ 64 - 1))
          then return (nfc_eovflow, [], mode)
          else if ltb room size
          then crash
          else return (pos size, take size (drop 1 rx), mode))

  -- The first switch: `pn53x_target_mode`, or the error.
  unfoldable pub passive_mode : NfcIso14443aInfo → M W ℕ
  passive_mode info = do
    first ← set_parameters transceive 0x04 false
    d ← get
    let picc = not (bit_and info.sak 0x20 == 0) && d.auto_iso14443_4
    if not (is_pn532 d.type)
        then return 0x01
        else (do second ← set_parameters transceive 0x20 picc; return (if picc then 0x05 else 0x01))

  unfoldable pub dep_ptm : NfcDepInfo → M W ℕ
  dep_ptm info = do
    first ← set_parameters transceive 0x04 true
    return (if ndm_code info.ndm == 1 then 0x03 else 0x02)

  unfoldable pub choose_mode : NfcTarget → M W (ℤ × ℕ)
  unfolding passive_mode dep_ptm
  choose_mode nt = elim nt.nm.nmt [
    | nmt_iso14443a ↦ (do
      info ← need (nai_of nt.nti)
      if not (get_or info.uid 0 0 == 0x08) || not (length info.uid == 4)
          then (do res ← refuse nfc_einvarg; return (res, 0))
          else (do ptm ← passive_mode info; return (pos 0, ptm)))
    | nmt_felica ↦ (do info ← need (nfi_of nt.nti); return (pos 0, 0x01))
    | nmt_dep ↦ (do info ← need (ndi_of nt.nti); ptm ← dep_ptm info; return (pos 0, ptm))
    | _ ↦ (do res ← refuse nfc_edevnotsupp; return (res, 0))
  ]

  -- The end of the loop: the activated target is the current one. As an ISO14443-4 PICC the chip has
  -- answered the first command itself.
  unfoldable pub activation :
      NfcTarget → TargetParams → ℕ → List ℕ → ℕ → M W (ℤ × List ℕ × Option NfcTarget)
  unfolding activate current_target_new
  activation nt p size rx mode = do
    modify (current_target_new (activate nt mode))
    if not (bit_and p.ptm 0x04 == 0)
        then return (pos 0, rx, some (activate nt mode))
        else return (pos size, rx, some (activate nt mode))

  -- The loop, until an activation is the wanted one.
  unfoldable pub await :
      ℕ → NfcTarget → TargetParams → ℕ → List ℕ → ℤ → M W (ℤ × List ℕ × Option NfcTarget)
  unfolding tg_init_as_target is_wanted activation
  await zero nt p room mem timeout = λ d. out_of_fuel
  await (suc fuel) nt p room mem timeout = do
    let again : M W (ℤ × List ℕ × Option NfcTarget) = await fuel nt p room mem timeout
    (res, rx, mode) ← tg_init_as_target p room mem timeout
    if same_result res nfc_etimeout
        then (do idle ← go_idle transceive; return (idle, rx, none))
        else if is_neg res
        then return (res, rx, none)
        else if is_wanted nt mode
        then activation nt p (to_size res) rx mode
        else again

  -- The result, the first bytes of the initiator, and the target once it is activated.
  unfoldable pub target_init : ℕ → NfcTarget → ℕ → List ℕ → ℤ → M W (ℤ × List ℕ × Option NfcTarget)
  unfolding choose_mode target_params await
  target_init fuel nt room mem timeout = do
    ignored ← reset_settings transceive
    modify (λ d. record d { operating_mode = target })
    (chosen, ptm) ← choose_mode nt
    if is_neg chosen then return (chosen, [], none) else (do
      res ← write_register transceive ciu_tx_auto 0x04 0x04
      if is_neg res
          then return (res, [], none)
          else (do p ← need (target_params ptm nt); await fuel nt p room mem timeout))
