-- ===== src/Utils/Mfclassic/Card/Memory.antt =====
-- An ideal card in the field of a reader: every key opens every sector, every command succeeds, and
-- a block holds what was last written to it.
use libnfc.Prelude.{ℕ, ◌-◌, ◌%◌, ◌^◌, ◌≡◌, ◌≤◌, ◌<◌, refl, arith, ◌∙◌}
use libnfc.Prelude.{Bool, true, false, List, [], ◌∷◌, ◌++◌, ltb, ◌==◌}
use libnfc.Prelude.{if◌then◌else◌, length, take, drop}
use libnfc.Prelude.Int.{ℤ, pos}
use libnfc.Utils.Mifare.{Reader, mc_auth_a, mc_auth_b, mc_read, mc_write, mifare_cmd, take_result}
use libnfc.Utils.Mfclassic.{get_trailer_block}
use libnfc.Utils.Mfclassic.State.{State, ended, if-true}
use libnfc.Utils.Mfclassic.Card.{mifare, set_block, key_a, key_b, use_file_key}
use libnfc.Utils.Mfclassic.Card.{copy_uid, authenticate, guess_key, default_keys}

abbrev pub Memory : Type 0
Memory = ℕ → List ℕ

abbrev answer : List ℕ → Memory → ℤ × List ℕ × Memory
answer [] w = (pos 0, [], w)
answer (a ∷ []) w = (pos 0, [], w)
answer (a ∷ block ∷ bytes) w =
    if a == 0xa0
    then (pos 0, [], set_block block bytes w)
    else if a == 0x30
    then (pos 16, w block, w)
    else (pos 0, [], w)

abbrev pub memory : Reader Memory
memory = record {
  set_property_bool = λ p b w. (pos 0, w);
  transceive_bytes = λ tx room timeout w. answer tx w;
  transceive_bits = λ tx bits w. (pos 0, w);
  select_passive_target = λ uid nai w. (pos 1, nai, w);
}

pub mifare-write :
    (block : ℕ) (bytes : List ℕ) (st : State Memory)
    → block < 256
    → take 16 st.mp ≡ bytes
    → mifare memory mc_write block st
      ≡ ended true (record st { reader = set_block block bytes st.reader })
unfolding mifare_cmd take_result
mifare-write block bytes st small whole =
    let here : block % 2 ^ 8 ≡ block = omega arith in rw (whole, here) refl

pub mifare-read :
    (block : ℕ) (st : State Memory)
    → block < 256
    → mifare memory mc_read block st
      ≡ ended true (record st { mp = take 16 (st.reader block) ++ drop 16 st.mp })
unfolding mifare_cmd take_result
mifare-read block st small = let here : block % 2 ^ 8 ≡ block = omega arith in rw here refl

mifare-auth :
    (key_a : Bool) (block : ℕ) (st : State Memory)
    → mifare memory (if key_a then mc_auth_a else mc_auth_b) block st ≡ ended true st
unfolding mifare_cmd take_result
mifare-auth true block st = refl
mifare-auth false block st = refl

-- With a key file and a UID of four bytes or more, the authentication succeeds.
pub authenticate-memory :
    (block : ℕ) (st : State Memory)
    → st.use_key_file ≡ true
    → 4 ≤ length st.nai.uid
    → (mp : List ℕ) × (authenticate memory block st ≡ ended true (record st { mp = mp }))
unfolding authenticate copy_uid use_file_key
authenticate-memory block st file long =
    let uid = st.nai.uid in
    let copied = take 6 st.mp ++ (take 4 (drop (length uid - 4) uid) ++ drop 10 st.mp) in
    let trailer = st.keys_dump (get_trailer_block block) in
    let key = if st.use_key_a then key_a trailer else key_b trailer in
    let mp = key ++ drop 6 copied in
    let enough : ltb (length uid) 4 ≡ false = ground arith in
    let st' : State Memory = record st { mp = copied } in
    (
      mp,
      rw enough (
          if-true st.use_key_file (use_file_key memory block) (guess_key memory block default_keys)
            st' file
          ∙ mifare-auth st.use_key_a block (record st { mp = mp })),
    )
