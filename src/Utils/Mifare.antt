-- ===== src/Utils/Mifare.antt =====
-- `nfc_initiator_mifare_cmd` of utils/mifare.c, over the four functions of the library that the
-- tools call.
pub mod Kept
use libnfc.Prelude.{ℕ, ◌%◌, ◌^◌, Bool, true, false, Option, List, ◌∷◌, ◌++◌, take, drop}
use libnfc.Prelude.{if◌then◌else◌}
use libnfc.Prelude.Int.{ℤ, pos, negsuc, is_neg}
use libnfc.Types.{NfcProperty, np_easy_framing, NfcIso14443aInfo}
use libnfc.Pn53x.Device.{same_result}

-- What the tools see of the library, with `W` for the reader and what is in its field:
-- `nfc_device_set_property_bool`, `nfc_initiator_transceive_bytes` (the bytes, the room for the
-- answer, the timeout), `nfc_initiator_transceive_bits` (the bytes and the count of bits), and
-- `nfc_initiator_select_passive_target` for ISO14443A at 106 kbps (the UID, if one is asked for,
-- and what the target's information was before the call).
pub record Reader (W : Type 0) : Type 0 where
  pub set_property_bool : NfcProperty → Bool → W → ℤ × W
  pub transceive_bytes : List ℕ → ℕ → ℤ → W → ℤ × List ℕ × W
  pub transceive_bits : List ℕ → ℕ → W → ℤ × W
  pub select_passive_target : Option (List ℕ) → NfcIso14443aInfo → W → ℤ × NfcIso14443aInfo × W

pub data MifareCmd : Type 0 where
  mc_auth_a mc_auth_b mc_read mc_write mc_transfer mc_decrement mc_increment mc_store : MifareCmd

abbrev pub code : MifareCmd → ℕ
code mc_auth_a = 0x60
code mc_auth_b = 0x61
code mc_read = 0x30
code mc_write = 0xa0
code mc_transfer = 0xb0
code mc_decrement = 0xc0
code mc_increment = 0xc1
code mc_store = 0xc2

-- `szParamLen`
abbrev pub param_len : MifareCmd → ℕ
param_len mc_auth_a = 10
param_len mc_auth_b = 10
param_len mc_read = 0
param_len mc_write = 16
param_len mc_transfer = 4
param_len mc_decrement = 4
param_len mc_increment = 4
param_len mc_store = 0

abbrev pub is_read : MifareCmd → Bool
is_read mc_read = true
is_read mc_auth_a = false
is_read mc_auth_b = false
is_read mc_write = false
is_read mc_transfer = false
is_read mc_decrement = false
is_read mc_increment = false
is_read mc_store = false

-- What the function makes of the result `res` and of the bytes received: whether it succeeds, and the
-- union after it.
unfoldable pub take_result : MifareCmd → List ℕ → ℤ → List ℕ → Bool × List ℕ
take_result mc mp res rx =
    if is_neg res
    then (false, mp)
    else if is_read mc
    then (if same_result res (pos 16) then (true, take 16 rx ++ drop 16 mp) else (false, mp))
    else (true, mp)

module _ {W : Type 0} (reader : Reader W) where
  -- `mp` is the union `mifare_param`, as its 16 bytes. A code that is none of `mifare_cmd` is left
  -- out.
  unfoldable pub mifare_cmd : MifareCmd → ℕ → List ℕ → W → Bool × List ℕ × W
  unfolding take_result
  mifare_cmd mc block mp w =
      let (set, w1) = reader.set_property_bool np_easy_framing true w in
      let cmd = code mc ∷ block % 2 ^ 8 ∷ take (param_len mc) mp in
      let (res, rx, w2) = reader.transceive_bytes cmd 265 (negsuc 0) w1 in
      let (ok, mp') = take_result mc mp res rx in
      if is_neg set then (false, mp, w1) else (ok, mp', w2)
