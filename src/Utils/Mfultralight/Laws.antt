-- ===== src/Utils/Mfultralight/Laws.antt =====
-- What a run of the tool cannot do to the card, and what it reads.
use libnfc.Prelude.{ℕ, zero, suc, ◌+◌, ◌*◌, ◌/◌, ◌%◌, ◌^◌, ◌≤◌, ◌<◌, ◌≡◌, arith}
use libnfc.Prelude.{Bool, true, false, not, ◌&&◌, ◌||◌, none, List, [], ◌∷◌, ◌++◌}
use libnfc.Prelude.{ltb, ◌==◌, Bool-cases, if-both, inl, inr, take, drop}
use libnfc.Utils.Mifare.{Reader, mc_write, mifare_cmd}
use libnfc.Utils.Mifare.Kept.{Protected, mifare_cmd-Safe}
use libnfc.Utils.Mfultralight.{
  Tool, is_skipped, write_page, select_after, write_turn, write_loop, write_card,
}

-- A command that writes the serial number, or the lock or OTP bytes without being asked to.
abbrev pub overwrites : Bool → Bool → List ℕ → Bool
overwrites write_lock write_otp [] = false
overwrites write_lock write_otp (a ∷ []) = false
overwrites write_lock write_otp (a ∷ page ∷ rest) =
    a == 0xa0 && (ltb page 2 || ((page == 2 && not write_lock) || (page == 3 && not write_otp)))

module _ {W : Type 0} (reader : Reader W) (Safe : W → Type 0) (write_lock write_otp : Bool)
    (guarded : Protected (overwrites write_lock write_otp) reader Safe) where
  write_page-Safe :
      (behind : List ℕ) (page : ℕ) (st : Tool W)
      → 2 ≤ page
      → page < 16
      → is_skipped write_lock write_otp page ≡ false
      → Safe st.reader
      → Safe (write_page reader behind page st).1.reader
  unfolding write_page mifare_cmd is_skipped
  write_page-Safe behind page st lo hi kept safe =
      let bytes = take 16 (drop (page / 4 * 16 + page % 4 * 4) (st.dump ++ behind)) in
      let low : ltb (page % 2 ^ 8) 2 ≡ false = ground arith in
      let same : page % 2 ^ 8 ≡ page = omega arith in
      mifare_cmd-Safe (overwrites write_lock write_otp) reader Safe guarded mc_write page bytes
        st.reader (rw (low, same) kept) safe

  select_after-Safe :
      (failure : Bool) (st : Tool W)
      → Safe st.reader
      → Safe (select_after reader failure st).1.reader
  unfolding select_after
  select_after-Safe false st safe = safe
  select_after-Safe true st safe = guarded.select_passive_target-Safe none st.nai st.reader safe

  write_turn-Safe :
      (behind : List ℕ) (page : ℕ) (failure : Bool) (st : Tool W)
      → 2 ≤ page
      → page < 16
      → Safe st.reader
      → Safe (write_turn reader write_lock write_otp behind page failure st).2.reader
  unfolding write_turn
  write_turn-Safe behind page failure st lo hi safe =
      let safe1 = select_after-Safe failure st safe in
      let st1 = (select_after reader failure st).1 in
      elim (Bool-cases (is_skipped write_lock write_otp page)) [
        | inl skipped ↦ rw skipped safe
        | inr kept ↦ rw kept (
            if-both (λ (out : Bool × Bool × Tool W). Safe out.2.reader)
              (select_after reader failure st).0 _ _
              (write_page-Safe behind page st1 lo hi kept safe1) safe1)
      ]

  write_loop-Safe :
      (behind : List ℕ) (left page : ℕ) (failure : Bool) (st : Tool W)
      → 2 ≤ page
      → page + left ≤ 16
      → Safe st.reader
      → Safe (write_loop reader write_lock write_otp behind left page failure st).1.reader
  unfolding write_loop
  write_loop-Safe behind zero page failure st lo hi safe = safe
  write_loop-Safe behind (suc left) page failure st lo hi safe =
      let (goes_on, failed, st') = write_turn reader write_lock write_otp behind page failure st in
      let safe' = write_turn-Safe behind page failure st lo (omega arith) safe in
      if-both (λ (out : Bool × Tool W). Safe out.1.reader) goes_on _ _
        (write_loop-Safe behind left (page + 1) failed st' (omega arith) (omega arith) safe') safe'

  -- Whatever the reader and the card answer, and whatever stands behind the dump: what every action
  -- of the reader keeps, but a write of the pages 0 and 1 with the serial number, of the lock bytes
  -- when the user has not asked for it, and of the OTP bytes when the user has not asked for it, holds
  -- behind a run of `write_card` when it held before.
  pub write_card-Guarded :
      (behind : List ℕ) (st : Tool W)
      → Safe st.reader
      → Safe (write_card reader write_lock write_otp behind st).1.reader
  unfolding write_card
  write_card-Guarded behind st safe =
      write_loop-Safe behind 14 2 false st (omega arith) (omega arith) safe
