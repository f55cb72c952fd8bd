-- ===== src/Utils/Mfultralight.antt =====
-- `read_card` and `write_card` of utils/nfc-mfultralight.c. Text that is only printed, and the counts of
-- pages in it, are left out.
pub mod Laws
mod Tests
use libnfc.Prelude.{ℕ, zero, suc, ◌+◌, ◌*◌, ◌/◌, ◌%◌, Bool, true, false, not, ◌&&◌, ◌||◌}
use libnfc.Prelude.{Option, none, List, ◌++◌, ◌==◌, if◌then◌else◌, take, drop}
use libnfc.Prelude.Int.{is_neg}
use libnfc.Types.{NfcIso14443aInfo}
use libnfc.Utils.Mifare.{Reader, mc_read, mc_write, mifare_cmd}

-- The global variables: the reader, what `nt` holds, the 16 bytes of the union `mifare_param`, and the 64
-- bytes of `mtDump`.
pub record Tool (W : Type 0) : Type 0 where
  pub reader : W
  pub nai : NfcIso14443aInfo
  pub mp : List ℕ
  pub dump : List ℕ

-- The lock bytes, page 2, and the OTP bytes, page 3, are left out when the user does not ask for them.
unfoldable pub is_skipped : Bool → Bool → ℕ → Bool
is_skipped write_lock write_otp page = (page == 2 && not write_lock) || (page == 3 && not write_otp)

module _ {W : Type 0} (reader : Reader W) where
  -- A read of four pages into the block of the dump.
  unfoldable pub read_pages : ℕ → Tool W → Bool × Tool W
  read_pages page st =
      let (ok, mp, w) = mifare_cmd reader mc_read page st.mp st.reader in
      let start = page / 4 * 16 in
      let st' : Tool W = record st { reader = w; mp = mp } in
      if ok
      then (
        true,
        record st' { dump = take start st.dump ++ (take 16 mp ++ drop (start + 16) st.dump) },
      )
      else (false, st')

  -- The loop of `read_card`, for the reads that are left.
  unfoldable pub read_loop : ℕ → ℕ → Tool W → Bool × Tool W
  unfolding read_pages
  read_loop zero page st = (true, st)
  read_loop (suc left) page st =
      let (ok, st') = read_pages page st in
      let rest = read_loop left (page + 4) st' in if ok then rest else (false, st')

  -- `read_card`: four reads up to page 15.
  unfoldable pub read_card : Tool W → Bool × Tool W
  unfolding read_loop
  read_card = read_loop 4 0

  -- A write of a page: whether it failed. The command takes 16 bytes from the page on; `behind` is what
  -- the memory holds behind `mtDump`, where the last three pages read.
  unfoldable pub write_page : List ℕ → ℕ → Tool W → Bool × Tool W
  write_page behind page st =
      let bytes = take 16 (drop (page / 4 * 16 + page % 4 * 4) (st.dump ++ behind)) in
      let (ok, mp, w) = mifare_cmd reader mc_write page bytes st.reader in
      (not ok, record st { reader = w; mp = mp })

  -- After a failure the card is selected again: whether it is there.
  unfoldable pub select_after : Bool → Tool W → Bool × Tool W
  select_after false st = (true, st)
  select_after true st =
      let (res, nai, w) = reader.select_passive_target none st.nai st.reader in
      (not (is_neg res), record st { reader = w; nai = nai })

  -- A turn of the loop of `write_card`: whether it goes on, and whether the page failed.
  unfoldable pub write_turn : Bool → Bool → List ℕ → ℕ → Bool → Tool W → Bool × Bool × Tool W
  unfolding select_after write_page is_skipped
  write_turn write_lock write_otp behind page failure st =
      let (there, st1) = select_after failure st in
      let (failed, st2) = write_page behind page st1 in
      if is_skipped write_lock write_otp page
      then (true, failure, st)
      else if there
      then (true, failed, st2)
      else (false, failure, st1)

  unfoldable pub write_loop : Bool → Bool → List ℕ → ℕ → ℕ → Bool → Tool W → Bool × Tool W
  unfolding write_turn
  write_loop write_lock write_otp behind zero page failure st = (true, st)
  write_loop write_lock write_otp behind (suc left) page failure st =
      let (goes_on, failed, st') = write_turn write_lock write_otp behind page failure st in
      let rest = write_loop write_lock write_otp behind left (page + 1) failed st' in
      if goes_on then rest else (false, st')

  -- `write_card`, for the user's two answers.
  unfoldable pub write_card : Bool → Bool → List ℕ → Tool W → Bool × Tool W
  unfolding write_loop
  write_card write_lock write_otp behind = write_loop write_lock write_otp behind 14 2 false
