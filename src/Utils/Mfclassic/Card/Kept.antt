-- ===== src/Utils/Mfclassic/Card/Kept.antt =====
-- What the steps of `write_card` keep: all that every command but a write of block 0 keeps.
use libnfc.Prelude.{ℕ, ◌%◌, ◌^◌, ◌≡◌, ◌<◌, ◌⊎◌, inl, inr, refl, sym, subst, arith}
use libnfc.Prelude.{Bool, true, false, not, ◌&&◌, some, List, ◌++◌, [], ◌∷◌, ◌==◌}
use libnfc.Prelude.{if◌then◌else◌, take, drop, length, ltb}
use libnfc.Utils.Mifare.{Reader, MifareCmd, mc_auth_a, mc_auth_b, mc_write, code, param_len}
use libnfc.Utils.Mifare.Kept.{Protected, mifare_cmd-Safe}
use libnfc.Utils.Mfclassic.{get_trailer_block, is_trailer_block}
use libnfc.Utils.Mfclassic.State.{
  State, End, ended, exited, overrun, Run, continue, ◌>>◌, out_of_bounds, return, ◌>>=◌,
}
use libnfc.Utils.Mfclassic.Card.{
  mifare, remember_key, select_again, guess_key, use_file_key, copy_uid, default_keys, authenticate,
  write_trailer, write_data, next_failure,
}
use libnfc.Utils.Mfclassic.Card.{write_block, key_a, key_b, access_bits, bcc_is_wrong}

-- The command MC_WRITE for block 0.
abbrev pub overwrites_block_zero : List ℕ → Bool
overwrites_block_zero [] = false
overwrites_block_zero (a ∷ []) = false
overwrites_block_zero (a ∷ b ∷ rest) = a == 0xa0 && b == 0

-- Where a run ends, by a return or an exit, `P` holds of the globals.
abbrev pub Leaves : {W A : Type 0} → (State W → Type 0) → End W A → Type 0
Leaves P (ended a st) = P st
Leaves P (exited st) = P st
Leaves P overrun = Unit

pub Leaves-continue :
    {W A B : Type 0} (P : State W → Type 0) (end : End W A) (f : A → Run W B)
    → Leaves P end
    → ((a : A) (st : State W) → P st → Leaves P (f a st))
    → Leaves P (continue end f)
Leaves-continue P (ended a st) f h next = next a st h
Leaves-continue P (exited st) f h next = h
Leaves-continue P overrun f h next = tt

pub Leaves-return :
    {W A B : Type 0} (P : State W → Type 0) (end : End W A) (f : A → B)
    → Leaves P end
    → Leaves P (continue end (λ a. return (f a)))
Leaves-return P (ended a st) f h = h
Leaves-return P (exited st) f h = h
Leaves-return P overrun f h = tt

pub Leaves-if :
    {W A : Type 0} (P : State W → Type 0) (b : Bool) (m k : Run W A) (st : State W)
    → (b ≡ true → Leaves P (m st))
    → (b ≡ false → Leaves P (k st))
    → Leaves P ((if b then m else k) st)
Leaves-if P true m k st hm hk = hm refl
Leaves-if P false m k st hm hk = hk refl

module _ {W : Type 0} (reader : Reader W) (Safe : W → Type 0)
    (protected : Protected overwrites_block_zero reader Safe) where
  -- What the functions that do not change the dump `D` leave.
  abbrev Unchanged : (ℕ → List ℕ) → State W → Type 0
  Unchanged D st = (st.dump ≡ D) × (st.blocks < 256)

  abbrev pub Kept : (ℕ → List ℕ) → State W → Type 0
  Kept D st = Safe st.reader × Unchanged D st

  module _ (D : ℕ → List ℕ) where
    mifare-Kept :
        (mc : MifareCmd) (block : ℕ) (st : State W)
        → overwrites_block_zero (code mc ∷ block % 2 ^ 8 ∷ take (param_len mc) st.mp) ≡ false
        → Kept D st
        → Leaves (Kept D) (mifare reader mc block st)
    mifare-Kept mc block st allowed (safe, same) = (
      mifare_cmd-Safe overwrites_block_zero reader Safe protected mc block st.mp st.reader allowed
          safe,
      same,
    )

    -- An authentication with the key A or B.
    auth-Kept :
        (key_a : Bool) (block : ℕ) (st : State W)
        → Kept D st
        → Leaves (Kept D) (mifare reader (if key_a then mc_auth_a else mc_auth_b) block st)
    auth-Kept true block st kept = mifare-Kept mc_auth_a block st refl kept
    auth-Kept false block st kept = mifare-Kept mc_auth_b block st refl kept

    guess_key-Kept :
        (block : ℕ) (keys : List (List ℕ)) (st : State W)
        → Kept D st
        → Leaves (Kept D) (guess_key reader block keys st)
    unfolding guess_key remember_key
    guess_key-Kept block [] st kept = kept
    guess_key-Kept block (key ∷ keys) st (safe, same) =
        let st' : State W = record st { mp = key ++ drop 6 st.mp } in
        Leaves-continue (Kept D)
          (mifare reader (if st.use_key_a then mc_auth_a else mc_auth_b) block st') _
          (auth-Kept st.use_key_a block st' (safe, same))
          λ ok st1 (safe1, same1).
            Leaves-if (Kept D) ok (remember_key block)
              (select_again reader >> guess_key reader block keys) st1 (λ e. (safe1, same1))
              λ e.
                guess_key-Kept block keys
                  (record st1 {
                    reader = (reader.select_passive_target (some st1.nai.uid) st1.nai st1.reader).2;
                  })
                  (
                    protected.select_passive_target-Safe (some st1.nai.uid) st1.nai st1.reader
                        safe1,
                    same1,
                  )

    use_file_key-Kept :
        (block : ℕ) (st : State W) → Kept D st → Leaves (Kept D) (use_file_key reader block st)
    unfolding use_file_key
    use_file_key-Kept block st kept =
        let trailer = st.keys_dump (get_trailer_block block) in
        let key = if st.use_key_a then key_a trailer else key_b trailer in
        auth-Kept st.use_key_a block (record st { mp = key ++ drop 6 st.mp }) kept

    copy_uid-Kept : (st : State W) → Kept D st → Leaves (Kept D) (copy_uid st)
    unfolding copy_uid
    copy_uid-Kept st kept =
        Leaves-if (Kept D) (ltb (length st.nai.uid) 4) out_of_bounds _ st (λ e. tt) (λ e. kept)

    pub authenticate-Kept :
        (block : ℕ) (st : State W) → Kept D st → Leaves (Kept D) (authenticate reader block st)
    unfolding authenticate
    authenticate-Kept block st kept =
        Leaves-continue (Kept D) (copy_uid st) _ (copy_uid-Kept st kept) λ a st1 kept1.
          Leaves-if (Kept D) st1.use_key_file (use_file_key reader block)
            (guess_key reader block default_keys) st1 (λ e. use_file_key-Kept block st1 kept1)
            (λ e. guess_key-Kept block default_keys st1 kept1)

    -- What else is known where block 0 may be written.
    abbrev pub Refused : Bool → Type 0
    Refused block_zero =
        (block_zero ≡ false) ⊎ ((mp : List ℕ) → bcc_is_wrong (take 16 (D 0) ++ drop 16 mp) ≡ true)

    write-Kept :
        (block : ℕ) (st : State W)
        → block < 256
        → (block == 0) ≡ false
        → Kept D st
        → Leaves (Kept D) (mifare reader mc_write block st)
    write-Kept block st small other kept =
        let allowed : (block % 2 ^ 8 == 0) ≡ false = ground arith in
        mifare-Kept mc_write block st allowed kept

    write_trailer-Kept :
        (block : ℕ) (st : State W)
        → block < 256
        → is_trailer_block block ≡ true
        → Kept D st
        → Leaves (Kept D) (write_trailer reader block st)
    unfolding write_trailer is_trailer_block
    write_trailer-Kept block st small trailer kept =
        let other : (block == 0) ≡ false = ground arith in
        let bytes = st.dump block in
        let mp = key_a bytes ++ (access_bits bytes ++ (key_b bytes ++ drop 16 st.mp)) in
        write-Kept block (record st { mp = mp }) small other kept

    write_data-Kept :
        (block : ℕ) (st : State W)
        → block < 256
        → (block == 0) ≡ false
        → Kept D st
        → Leaves (Kept D) (write_data reader block st)
    unfolding write_data
    write_data-Kept block st small other kept =
        let st' : State W = record st { mp = take 16 (st.dump block) ++ drop 16 st.mp } in
        rw other (
          Leaves-return (Kept D) (mifare reader mc_write block st') (λ ok. some ok)
            (write-Kept block st' small other kept))

    -- Block 0 with a wrong BCC.
    write_data-refused :
        (st : State W)
        → bcc_is_wrong (take 16 (D 0) ++ drop 16 st.mp) ≡ true
        → Kept D st
        → Leaves (Kept D) (write_data reader 0 st)
    unfolding write_data
    write_data-refused st wrong (safe, same) =
        let here : bcc_is_wrong (take 16 (st.dump 0) ++ drop 16 st.mp) ≡ true =
          subst (λ f. bcc_is_wrong (take 16 (f 0) ++ drop 16 st.mp) ≡ true) (sym same.0) wrong in
        rw here (safe, same)

    may_write-Kept :
        (block_zero : Bool) (block : ℕ) (b : Bool) (st : State W)
        → block < 256
        → Refused block_zero
        → (block == 0) ≡ b
        → (b && not block_zero) ≡ false
        → Kept D st
        → Leaves (Kept D) (write_data reader block st)
    may_write-Kept block_zero block false st small refused e guard kept =
        write_data-Kept block st small e kept
    may_write-Kept false block true st small refused e guard kept = absurd (ground arith)
    may_write-Kept true block true st small (inl never) e guard kept = absurd (ground arith)
    may_write-Kept true block true st small (inr wrong) e guard kept =
        let zero_block : 0 ≡ block = ground arith in
        subst (λ k. Leaves (Kept D) (write_data reader k st)) zero_block
          (write_data-refused st (wrong st.mp) kept)

    pub write_block-Kept :
        (block_zero : Bool) (block : ℕ) (failure : Bool) (st : State W)
        → block < 256
        → Refused block_zero
        → Kept D st
        → Leaves (Kept D) (write_block reader block_zero block failure st)
    unfolding write_block
    write_block-Kept block_zero block failure st small refused kept =
        Leaves-if (Kept D) (is_trailer_block block)
          (do ok ← write_trailer reader block; return (some (if ok then failure else true))) _ st
          (λ trailer.
            Leaves-return (Kept D) (write_trailer reader block st)
              (λ ok. some (if ok then failure else true))
              (write_trailer-Kept block st small trailer kept))
          λ e.
            Leaves-if (Kept D) (block == 0 && not block_zero) (return (some failure)) _ st
              (λ f. kept)
              λ guard.
                Leaves-if (Kept D) failure (return (some failure)) _ st (λ g. kept)
                  λ g.
                    Leaves-return (Kept D) (write_data reader block st) next_failure (
                      may_write-Kept block_zero block (block == 0) st small refused refl guard kept)
