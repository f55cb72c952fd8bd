-- ===== src/Utils/Mfclassic/Card.antt =====
-- `authenticate`, `unlock_card`, `read_card` and `write_card` of utils/nfc-mfclassic.c. Text that is
-- only printed, and the count of blocks in it, is left out.
pub mod Kept
pub mod Safety
pub mod Memory
pub mod Written
pub mod RoundTrip
mod Tests
use libnfc.Prelude.{ℕ, zero, suc, ◌+◌, ◌-◌, Bool, true, false, not, ◌&&◌, Option, none, some}
use libnfc.Prelude.{
  List, [], ◌∷◌, ◌++◌, ltb, ◌==◌, if◌then◌else◌, length, take, drop, get_or, bit_xor,
}
use libnfc.Prelude.Int.{ℤ, pos, is_neg}
use libnfc.Iso14443.Crc.{crc_append}
use libnfc.Types.{NfcProperty, np_handle_crc, np_easy_framing, NfcIso14443aInfo}
use libnfc.Utils.Mifare.{Reader, MifareCmd, mc_auth_a, mc_auth_b, mc_read, mc_write, mifare_cmd}
use libnfc.Utils.Mfclassic.{is_first_block, is_trailer_block, get_trailer_block}
use libnfc.Utils.Mfclassic.State.{
  State, Run, ◌>>=◌, ◌>>◌, return, get, modify, exit_failure, out_of_bounds,
}

-- `keys`
abbrev pub default_keys : List (List ℕ)
default_keys =
    (0xff ∷ 0xff ∷ 0xff ∷ 0xff ∷ 0xff ∷ 0xff ∷ [])
    ∷ (0xd3 ∷ 0xf7 ∷ 0xd3 ∷ 0xf7 ∷ 0xd3 ∷ 0xf7 ∷ [])
    ∷ (0xa0 ∷ 0xa1 ∷ 0xa2 ∷ 0xa3 ∷ 0xa4 ∷ 0xa5 ∷ [])
    ∷ (0xb0 ∷ 0xb1 ∷ 0xb2 ∷ 0xb3 ∷ 0xb4 ∷ 0xb5 ∷ [])
    ∷ (0x4d ∷ 0x3a ∷ 0x99 ∷ 0xc3 ∷ 0x51 ∷ 0xdd ∷ [])
    ∷ (0x1a ∷ 0x98 ∷ 0x2c ∷ 0x7e ∷ 0x45 ∷ 0x9a ∷ [])
    ∷ (0xaa ∷ 0xbb ∷ 0xcc ∷ 0xdd ∷ 0xee ∷ 0xff ∷ [])
    ∷ (0x00 ∷ 0x00 ∷ 0x00 ∷ 0x00 ∷ 0x00 ∷ 0x00 ∷ [])
    ∷ (0xab ∷ 0xcd ∷ 0xef ∷ 0x12 ∷ 0x34 ∷ 0x56 ∷ [])
    ∷ []

-- A block of a dump, and of its 16 bytes the two keys and the access bits.
abbrev pub set_block : ℕ → List ℕ → (ℕ → List ℕ) → ℕ → List ℕ
set_block block bytes dump i = if i == block then bytes else dump i

abbrev pub key_a : List ℕ → List ℕ
key_a bytes = take 6 bytes

abbrev pub access_bits : List ℕ → List ℕ
access_bits bytes = take 4 (drop 6 bytes)

abbrev pub key_b : List ℕ → List ℕ
key_b bytes = take 6 (drop 10 bytes)

abbrev pub set_key : Bool → List ℕ → List ℕ → List ℕ
set_key true key bytes = key ++ drop 6 bytes
set_key false key bytes = take 10 bytes ++ key

-- The BCC of the manufacturer block.
unfoldable pub bcc_is_wrong : List ℕ → Bool
bcc_is_wrong bytes = not (
    bit_xor
      (bit_xor (bit_xor (bit_xor (get_or bytes 0 0) (get_or bytes 1 0)) (get_or bytes 2 0))
        (get_or bytes 3 0))
      (get_or bytes 4 0)
    == 0)

-- The last four bytes of the UID go to the command; it must have as many.
unfoldable pub copy_uid : {W : Type 0} → Run W (Unit {0})
copy_uid = do
  st ← get
  let uid = st.nai.uid
  let last = take 4 (drop (length uid - 4) uid)
  if ltb (length uid) 4
      then out_of_bounds
      else modify (λ st. record st { mp = take 6 st.mp ++ (last ++ drop 10 st.mp) })

-- A key that opens a sector is kept under the block that it was tried for.
unfoldable pub remember_key : {W : Type 0} → ℕ → Run W Bool
remember_key block = do
  modify (λ st. record st {
    keys_dump =
        set_block block (set_key st.use_key_a (take 6 st.mp) (st.keys_dump block)) st.keys_dump;
  })
  return true

-- What goes into the dump: of a trailer the access bits, with the keys of the key file.
abbrev pub keep_trailer : {W : Type 0} → Bool → ℕ → Bool → Run W (Unit {0})
keep_trailer unlocked block false = return tt
keep_trailer unlocked block true = modify (λ st.
    let keys = st.keys_dump block in
    let bytes =
      if unlocked then take 16 st.mp else key_a keys ++ (access_bits st.mp ++ key_b keys) in
    record st { dump = set_block block bytes st.dump })

abbrev pub keep_block : {W : Type 0} → ℕ → Bool → Run W Bool
keep_block block false = return false
keep_block block true = do
  modify (λ st. record st { dump = set_block block (take 16 st.mp) st.dump })
  return true

-- `bFailure` after the write of a block of data.
abbrev pub next_failure : Option Bool → Option Bool
next_failure none = none
next_failure (some ok) = some (not ok)

module _ {W : Type 0} (reader : Reader W) where
  -- The calls of the library, at the globals.
  abbrev pub mifare : MifareCmd → ℕ → Run W Bool
  mifare mc block = do
    st ← get
    let (ok, mp, w) = mifare_cmd reader mc block st.mp st.reader
    modify (λ st. record st { mp = mp; reader = w })
    return ok

  abbrev pub select_any : Run W ℤ
  select_any = do
    st ← get
    let (res, nai, w) = reader.select_passive_target none st.nai st.reader
    modify (λ st. record st { nai = nai; reader = w })
    return res

  -- With a NULL `pnt`, and the result dropped.
  abbrev pub select_again : Run W (Unit {0})
  select_again = do
    st ← get
    let (res, nai, w) = reader.select_passive_target (some st.nai.uid) st.nai st.reader
    modify (λ st. record st { reader = w })

  abbrev pub configure : NfcProperty → Bool → Run W (Unit {0})
  configure property enable = do
    st ← get
    let (res, w) = reader.set_property_bool property enable st.reader
    modify (λ st. record st { reader = w })
    if is_neg res then exit_failure else return tt

  unfoldable pub transmit_bits : List ℕ → ℕ → Run W Bool
  transmit_bits tx bits = do
    st ← get
    let (res, w) = reader.transceive_bits tx bits st.reader
    modify (λ st. record st { reader = w })
    return (not (is_neg res))

  unfoldable pub transmit_bytes : List ℕ → Run W Bool
  transmit_bytes tx = do
    st ← get
    let (res, rx, w) = reader.transceive_bytes tx 264 (pos 0) st.reader
    modify (λ st. record st { reader = w })
    return (not (is_neg res))

  -- The loop over `keys`.
  unfoldable pub guess_key : ℕ → List (List ℕ) → Run W Bool
  unfolding remember_key
  guess_key block [] = return false
  guess_key block (key ∷ keys) = do
    modify (λ st. record st { mp = key ++ drop 6 st.mp })
    st ← get
    ok ← mifare (if st.use_key_a then mc_auth_a else mc_auth_b) block
    let next : Run W Bool = (do select_again; guess_key block keys)
    if ok then remember_key block else next

  -- With the key of the key file.
  unfoldable pub use_file_key : ℕ → Run W Bool
  use_file_key block = do
    st ← get
    let trailer = st.keys_dump (get_trailer_block block)
    let key = if st.use_key_a then key_a trailer else key_b trailer
    modify (λ st. record st { mp = key ++ drop 6 st.mp })
    mifare (if st.use_key_a then mc_auth_a else mc_auth_b) block

  unfoldable pub authenticate : ℕ → Run W Bool
  unfolding guess_key use_file_key copy_uid
  authenticate block = do
    copy_uid
    st ← get
    if st.use_key_file then use_file_key block else guess_key block default_keys

  -- The CRC goes into the last two bytes of `abtHalt`, whose transmission may fail.
  unfoldable pub send_halt : Run W Bool
  unfolding transmit_bytes
  send_halt = elim (crc_append (0x50 ∷ 0x00 ∷ 0x00 ∷ 0x00 ∷ []) 2) [
    | none ↦ out_of_bounds
    | some halt ↦ transmit_bytes halt
  ]

  unfoldable pub send_unlock : Run W Bool
  unfolding transmit_bits transmit_bytes send_halt
  send_unlock = do
    halted ← send_halt
    first ← transmit_bits (0x40 ∷ []) 7
    if first then transmit_bytes (0x43 ∷ []) else return false

  unfoldable pub reset_reader : Run W Bool
  reset_reader = do configure np_handle_crc true; configure np_easy_framing true; return true

  unfoldable pub unlock_card : Run W Bool
  unfolding send_unlock reset_reader
  unlock_card = do
    configure np_handle_crc false
    configure np_easy_framing false
    unlocked ← send_unlock
    if unlocked then reset_reader else return false

  -- After a failure the card is selected again, before its next sector.
  abbrev pub reselect : Bool → Run W Bool → Run W Bool
  reselect failure rest =
      if failure then (do res ← select_any; if is_neg res then return false else rest) else rest

  -- A card that is unlocked needs no authentication.
  abbrev pub enter_sector : Bool → ℕ → Run W Bool → Run W Bool
  enter_sector unlocked block rest = do
    allowed ← (if unlocked then return true else authenticate block)
    if allowed then rest else return false

  -- The trailer of a sector that is read; a failure is only printed.
  unfoldable pub read_trailer : Bool → ℕ → Run W (Unit {0})
  read_trailer unlocked block = do ok ← mifare mc_read block; keep_trailer unlocked block ok

  unfoldable pub read_data : ℕ → Run W Bool
  read_data block = do ok ← mifare mc_read block; keep_block block ok

  -- `iBlock` counts down to 0: the first argument is one more, and the last one `bFailure`.
  unfoldable pub read_blocks : Bool → ℕ → Bool → Run W Bool
  unfolding read_trailer read_data
  read_blocks unlocked zero failure = return true
  read_blocks unlocked (suc block) failure =
      let rest : Bool → Run W Bool = read_blocks unlocked block in
      let sector : Run W Bool = (do read_trailer unlocked block; rest false) in
      let data_block : Run W Bool = (do
        ok ← read_data block
        if ok then rest false else return false) in
      if is_trailer_block block
      then reselect failure (enter_sector unlocked block sector)
      else if failure
      then rest failure
      else data_block

  unfoldable pub read_card : Bool → Run W Bool
  unfolding unlock_card
  read_card unlocked = do
    ready ← (if unlocked then unlock_card else return true)
    st ← get
    if ready then read_blocks unlocked (suc st.blocks) false else return false

  -- The trailer of a sector that is written.
  unfoldable pub write_trailer : ℕ → Run W Bool
  write_trailer block = do
    modify (λ st.
        let bytes = st.dump block in
        record st { mp = key_a bytes ++ (access_bits bytes ++ (key_b bytes ++ drop 16 st.mp)) })
    mifare mc_write block

  -- `none`: the BCC of the first block is wrong.
  unfoldable pub write_data : ℕ → Run W (Option Bool)
  write_data block = do
    modify (λ st. record st { mp = take 16 (st.dump block) ++ drop 16 st.mp })
    st ← get
    if block == 0 && bcc_is_wrong st.mp
        then return none
        else (do ok ← mifare mc_write block; return (some ok))

  -- One block of `write_card` behind the entry into its sector: the next `bFailure`, or `none` where
  -- the function returns `false`.
  unfoldable pub write_block : Bool → ℕ → Bool → Run W (Option Bool)
  unfolding write_trailer write_data
  write_block block_zero block failure =
      if is_trailer_block block
      then (do ok ← write_trailer block; return (some (if ok then failure else true)))
      else if block == 0 && not block_zero
      then return (some failure)
      else if failure
      then return (some failure)
      else (do written ← write_data block; return (next_failure written))

  -- The rest of the loop, unless the function has returned `false`.
  abbrev pub go_on : Option Bool → (Bool → Run W Bool) → Run W Bool
  go_on none rest = return false
  go_on (some failure) rest = rest failure

  -- `uiBlock` counts up to `uiBlocks`; the count of blocks that are left comes first.
  unfoldable pub write_blocks : Bool → ℕ → ℕ → Bool → Run W Bool
  unfolding write_block
  write_blocks block_zero zero block failure = return true
  write_blocks block_zero (suc left) block failure =
      let rest : Bool → Run W Bool = write_blocks block_zero left (block + 1) in
      let body : Bool → Run W Bool =
        (λ failure. write_block block_zero block failure >>= λ next. go_on next rest) in
      if is_first_block block
      then reselect failure (enter_sector block_zero block (body false))
      else body failure

  unfoldable pub write_card : Bool → Run W Bool
  unfolding unlock_card
  write_card block_zero = do
    ready ← (if block_zero then unlock_card else return true)
    st ← get
    if ready then write_blocks block_zero (suc st.blocks) 0 false else return false
