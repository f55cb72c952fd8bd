-- ===== src/Pn53x/Decode.antt =====
-- `pn53x_decode_target_data` of libnfc/chips/pn53x.c: the answer to a selection, as the library's
-- record of a target. `raw` is the memory from `pbtRawData` on, which may go on behind the
-- `szRawData` bytes that count. The record is packed, and a copy over the end of an array goes on in
-- the fields behind it; `none` is an access outside of `raw` or of the record.
pub mod Uid
mod Tests
use libnfc.Prelude.{
  ℕ, zero, suc, ◌+◌, ◌-◌, ◌/◌, ◌%◌, Bool, true, false, ◌&&◌, not, Option, none, some, List, [], ◌∷◌,
  ◌++◌,
}
use libnfc.Prelude.{leb, ltb, ◌==◌, if◌then◌else◌, length, take, drop, get_or, bit_and}
use libnfc.Prelude.Options.{◌>>=◌}
use libnfc.Prelude.Int.{ℤ}
use libnfc.Types.{NfcModulationType, nmt_iso14443a, nmt_jewel, nmt_iso14443b, nmt_iso14443bi}
use libnfc.Types.{nmt_iso14443b2sr, nmt_iso14443b2ct, nmt_felica, nmt_dep}
use libnfc.Types.{NfcTargetInfo, nai, nfi, nbi, nii, nsi, nci, nji}
use libnfc.Pn53x.Device.{Pn53xType, pn531, nfc_success, nfc_echip}

abbrev pub is_pn531 : Pn53xType → Bool
is_pn531 pn531 = true
is_pn531 _ = false

-- `*(pbtRawData++)`, and a `memcpy` of `n` bytes from there.
abbrev pub byte : List ℕ → Option (ℕ × List ℕ)
byte [] = none
byte (b ∷ rest) = some (b, rest)

unfoldable pub bytes : ℕ → List ℕ → Option (List ℕ × List ℕ)
bytes n raw = if leb n (length raw) then some (take n raw, drop n raw) else none

-- Strip the cascade tags.
unfoldable pub strip_tags : List ℕ → List ℕ
strip_tags uid =
    if length uid == 8 && get_or uid 0 0 == 0x88
    then take 7 (drop 1 uid)
    else if length uid == 12 && get_or uid 0 0 == 0x88 && get_or uid 4 0 == 0x88
    then take 3 (drop 1 uid) ++ take 7 (drop 5 uid)
    else uid

-- The optional ATS, whose length byte counts itself.
unfoldable pub decode_ats : Bool → List ℕ → Option (List ℕ)
unfolding bytes
decode_ats false raw = some []
decode_ats true raw = do
  (len, raw) ← byte raw
  if len == 0 then none else (do (ats, rest) ← bytes (len - 1) raw; some ats)

-- `szAtsLen` in memory: eight bytes, the lowest one first.
unfoldable pub size_bytes : ℕ → ℕ → List ℕ
size_bytes zero n = []
size_bytes (suc k) n = n % 256 ∷ size_bytes k (n / 256)

-- What stands at `abtUid`, in as many bytes as the UID of the answer has, once the ATS is stored: behind
-- the ten bytes of the array come `szAtsLen` and `abtAts`.
unfoldable pub stored_uid : List ℕ → List ℕ → List ℕ
unfolding size_bytes
stored_uid uid ats =
    take (length uid)
      (take 10 uid ++ (size_bytes 8 (length ats) ++ (ats ++ drop (18 + length ats) uid)))

unfoldable pub decode_nai : Pn53xType → List ℕ → ℕ → Option NfcTargetInfo
unfolding bytes strip_tags decode_ats stored_uid
decode_nai type raw size = do
  (tg, raw) ← byte raw
  (first, raw) ← byte raw
  (second, raw) ← byte raw
  (sak, raw) ← byte raw
  (uid_len, raw) ← byte raw
  (uid, raw) ← bytes uid_len raw
  ats ← decode_ats (ltb (uid_len + 5) size) raw
  some (
      nai (record {
        atqa = if is_pn531 type then second ∷ first ∷ [] else first ∷ second ∷ [];
        sak = sak;
        uid = strip_tags (stored_uid uid ats);
        ats = ats;
      }))

unfoldable pub decode_nbi : List ℕ → Option NfcTargetInfo
unfolding bytes
decode_nbi raw = do
  (tg, raw) ← byte raw
  (atqb, raw) ← byte raw
  (pupi, raw) ← bytes 4 raw
  (application, raw) ← bytes 4 raw
  (protocol, raw) ← bytes 3 raw
  (attrib_res, raw) ← byte raw
  identifier ← if attrib_res == 0 then some none else (do (id, rest) ← byte raw; some (some id))
  some (
      nbi (record {
        pupi = pupi;
        application_data = application;
        protocol_info = protocol;
        card_identifier = identifier;
      }))

-- The bytes of a long REPGEN behind the version: the configuration, and the ATR if it has one. From
-- `abtAtr` on, the union of the records has 269 bytes.
unfoldable pub decode_repgen : Bool → List ℕ → ℕ → Option (Option ℕ × Option (List ℕ))
unfolding bytes
decode_repgen false raw size = some (none, none)
decode_repgen true raw size = do
  (config, raw) ← byte raw
  if bit_and config 0x40 == 0
      then some (some config, none)
      else if leb 8 size && leb size (8 + 269)
      then (do (atr, rest) ← bytes (size - 8) raw; some (some config, some atr))
      else none

-- `none` inside stands for a REPGEN of the wrong type.
unfoldable pub decode_nii : List ℕ → ℕ → Option (Option NfcTargetInfo)
unfolding bytes decode_repgen
decode_nii raw size = do
  (addresses, raw) ← byte raw
  (repgen, raw) ← byte raw
  if not (repgen == 0x07) then some none else (do
    (div, raw) ← bytes 4 raw
    (ver_log, raw) ← byte raw
    (config, atr) ← decode_repgen (not (bit_and ver_log 0x80 == 0)) raw size
    some (some (nii (record { div = div; ver_log = ver_log; config = config; atr = atr }))))

unfoldable pub decode_nci : List ℕ → Option NfcTargetInfo
unfolding bytes
decode_nci raw = do
  (lsb, raw) ← bytes 2 raw
  (prod_code, raw) ← byte raw
  (fab_code, raw) ← byte raw
  (msb, raw) ← bytes 2 raw
  some (nci (record { uid = lsb ++ msb; prod_code = prod_code; fab_code = fab_code }))

unfoldable pub decode_nfi : List ℕ → Option NfcTargetInfo
unfolding bytes
decode_nfi raw = do
  (tg, raw) ← byte raw
  (len, raw) ← byte raw
  (res_code, raw) ← byte raw
  (id, raw) ← bytes 8 raw
  (pad, raw) ← bytes 8 raw
  sys_code ← if ltb 18 len then (do (code, rest) ← bytes 2 raw; some (some code)) else some none
  some (nfi (record { len = len; res_code = res_code; id = id; pad = pad; sys_code = sys_code }))

unfoldable pub decode_nji : List ℕ → Option NfcTargetInfo
unfolding bytes
decode_nji raw = do
  (tg, raw) ← byte raw
  (sens_res, raw) ← bytes 2 raw
  (id, raw) ← bytes 4 raw
  some (nji (record { sens_res = sens_res; id = id }))

-- `return NFC_SUCCESS` with the record filled in.
abbrev pub decoded : Option NfcTargetInfo → Option (ℤ × Option NfcTargetInfo)
decoded none = none
decoded (some info) = some (nfc_success, some info)

-- `NFC_ECHIP` if there is no record.
abbrev pub decoded_or_error : Option (Option NfcTargetInfo) → Option (ℤ × Option NfcTargetInfo)
decoded_or_error none = none
decoded_or_error (some none) = some (nfc_echip, none)
decoded_or_error (some (some info)) = some (nfc_success, some info)

unfoldable pub decode_target_data :
    Pn53xType → NfcModulationType → List ℕ → ℕ → Option (ℤ × Option NfcTargetInfo)
unfolding bytes decode_nai decode_nbi decode_nii decode_nci decode_nfi decode_nji
decode_target_data type nmt_iso14443a raw size = decoded (decode_nai type raw size)
decode_target_data type nmt_iso14443b raw size = decoded (decode_nbi raw)
decode_target_data type nmt_iso14443bi raw size = decoded_or_error (decode_nii raw size)
decode_target_data type nmt_iso14443b2sr raw size =
    decoded (do (uid, rest) ← bytes 8 raw; some (nsi uid))
decode_target_data type nmt_iso14443b2ct raw size = decoded (decode_nci raw)
decode_target_data type nmt_felica raw size = decoded (decode_nfi raw)
decode_target_data type nmt_jewel raw size = decoded (decode_nji raw)
decode_target_data type nmt_dep raw size = some (nfc_echip, none)
