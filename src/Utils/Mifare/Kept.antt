-- ===== src/Utils/Mifare/Kept.antt =====
-- What a tool that sends commands by `nfc_initiator_mifare_cmd` keeps of a card.
use libnfc.Prelude.{ℕ, ◌%◌, ◌^◌, ◌≡◌, Bool, true, false, Option, List, ◌∷◌, if-both, take}
use libnfc.Prelude.Int.{ℤ, negsuc, is_neg}
use libnfc.Types.{NfcProperty, np_easy_framing, NfcIso14443aInfo}
use libnfc.Utils.Mifare.{Reader, MifareCmd, mifare_cmd, take_result, code, param_len}

-- `Safe` stays true of what the reader and the card are in, under all that a tool asks for but the
-- forbidden commands.
pub record Protected {W : Type 0} (forbidden : List ℕ → Bool) (reader : Reader W)
    (Safe : W → Type 0) : Type 0 where
  pub set_property_bool-Safe :
      (p : NfcProperty) (b : Bool) (w : W) → Safe w → Safe (reader.set_property_bool p b w).1
  pub transceive_bytes-Safe :
      (tx : List ℕ) (room : ℕ) (timeout : ℤ) (w : W)
      → forbidden tx ≡ false
      → Safe w
      → Safe (reader.transceive_bytes tx room timeout w).2
  pub transceive_bits-Safe :
      (tx : List ℕ) (bits : ℕ) (w : W) → Safe w → Safe (reader.transceive_bits tx bits w).1
  pub select_passive_target-Safe :
      (uid : Option (List ℕ)) (nai : NfcIso14443aInfo) (w : W)
      → Safe w
      → Safe (reader.select_passive_target uid nai w).2

module _ {W : Type 0} (forbidden : List ℕ → Bool) (reader : Reader W) (Safe : W → Type 0)
    (protected : Protected forbidden reader Safe) where
  pub mifare_cmd-Safe :
      (mc : MifareCmd) (block : ℕ) (mp : List ℕ) (w : W)
      → forbidden (code mc ∷ block % 2 ^ 8 ∷ take (param_len mc) mp) ≡ false
      → Safe w
      → Safe (mifare_cmd reader mc block mp w).2
  unfolding mifare_cmd
  mifare_cmd-Safe mc block mp w allowed safe =
      let safe1 = protected.set_property_bool-Safe np_easy_framing true w safe in
      let w1 = (reader.set_property_bool np_easy_framing true w).1 in
      let cmd = code mc ∷ block % 2 ^ 8 ∷ take (param_len mc) mp in
      let safe2 = protected.transceive_bytes-Safe cmd 265 (negsuc 0) w1 allowed safe1 in
      let (res, rx, w2) = reader.transceive_bytes cmd 265 (negsuc 0) w1 in
      let (ok, mp') = take_result mc mp res rx in
      if-both (λ (out : Bool × List ℕ × W). Safe out.2)
        (is_neg (reader.set_property_bool np_easy_framing true w).0) (false, mp, w1) (ok, mp', w2)
        safe1 safe2
