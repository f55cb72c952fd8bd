-- ===== src/Utils/Mfclassic/Card/RoundTrip.antt =====
-- What `read_card` finds in an ideal card, and in one that `write_card` wrote.
use libnfc.Prelude.{ℕ, zero, suc, ◌≡◌, ◌≤◌, ◌<◌, refl, arith, ap, ◌∙◌, sym}
use libnfc.Prelude.{Bool, true, false, List, [], ◌∷◌, ◌++◌, ◌==◌, if◌then◌else◌}
use libnfc.Prelude.{length, take, drop}
use libnfc.Utils.Mifare.{mc_read}
use libnfc.Utils.Mfclassic.{is_trailer_block}
use libnfc.Utils.Mfclassic.State.{State, ended, continue, Run, ◌>>◌, return, if-true, if-false}
use libnfc.Utils.Mfclassic.Card.{mifare, set_block, key_a, access_bits, key_b}
use libnfc.Utils.Mfclassic.Card.{
  enter_sector, read_trailer, read_data, keep_trailer, keep_block, read_blocks, read_card,
}
use libnfc.Utils.Mfclassic.Card.{write_card}
use libnfc.Utils.Mfclassic.Card.Memory.{Memory, memory, mifare-read, authenticate-memory}
use libnfc.Utils.Mfclassic.Card.Written.{
  Whole, take-whole, take_self, write_all, write_all-at, write_all-Whole, write_blocks-memory,
}

-- What is stored for one block: of a trailer, the keys are those of the key file.
abbrev got : Bool → List ℕ → List ℕ → List ℕ
got true keys bytes = key_a keys ++ (access_bits bytes ++ key_b keys)
got false keys bytes = bytes

abbrev stored : ℕ → Memory → Memory → Memory → Memory
stored block keys w d = set_block block (got (is_trailer_block block) (keys block) (w block)) d

got_self : (t : Bool) (bytes : List ℕ) → length bytes ≡ 16 → got t bytes bytes ≡ bytes
got_self false bytes sixteen = refl
got_self true (a ∷ b ∷ c ∷ d ∷ e ∷ f ∷ g ∷ h ∷ i ∷ j ∷ k ∷ l ∷ m ∷ n ∷ o ∷ p ∷ []) sixteen = refl
got_self true _ sixteen = absurd (omega arith)

access_bits-append :
    (bytes rest : List ℕ) → length bytes ≡ 16 → access_bits (bytes ++ rest) ≡ access_bits bytes
access_bits-append (a ∷ b ∷ c ∷ d ∷ e ∷ f ∷ g ∷ h ∷ i ∷ j ∷ k ∷ l ∷ m ∷ n ∷ o ∷ p ∷ []) rest
      sixteen =
    refl
access_bits-append _ rest sixteen = absurd (omega arith)

mifare-read-Whole :
    (block : ℕ) (st : State Memory)
    → Whole st.reader
    → block < 256
    → mifare memory mc_read block st
      ≡ ended true (record st { mp = st.reader block ++ drop 16 st.mp })
mifare-read-Whole block st whole small =
    mifare-read block st small
    ∙ ap (λ bytes. ended true (record st { mp = bytes ++ drop 16 st.mp }))
        (take_self (st.reader block) (whole block))

read_trailer-memory :
    (block : ℕ) (st : State Memory)
    → Whole st.reader
    → block < 256
    → is_trailer_block block ≡ true
    → (mp : List ℕ) × (read_trailer memory false block st
        ≡ ended tt (record st { mp = mp; dump = stored block st.keys_dump st.reader st.dump }))
unfolding read_trailer
read_trailer-memory block st whole small trailer =
    let w = st.reader block in
    let keys = st.keys_dump block in
    let mp = w ++ drop 16 st.mp in
    let parts : key_a keys ++ (access_bits mp ++ key_b keys) ≡ got (is_trailer_block block) keys w =
      ap (λ bits. key_a keys ++ (bits ++ key_b keys))
        (access_bits-append w (drop 16 st.mp) (whole block))
      ∙ ap (λ t. got t keys w) (sym trailer) in
    (
      mp,
      ap (λ o. continue o (keep_trailer false block)) (mifare-read-Whole block st whole small)
          ∙ ap (λ bytes. ended tt (record st { mp = mp; dump = set_block block bytes st.dump }))
              parts,
    )

read_data-memory :
    (block : ℕ) (st : State Memory)
    → Whole st.reader
    → block < 256
    → is_trailer_block block ≡ false
    → (mp : List ℕ) × (read_data memory block st
        ≡ ended true (record st { mp = mp; dump = stored block st.keys_dump st.reader st.dump }))
unfolding read_data
read_data-memory block st whole small other =
    let w = st.reader block in
    let mp = w ++ drop 16 st.mp in
    let parts : take 16 mp ≡ got (is_trailer_block block) (st.keys_dump block) w =
      take-whole w (drop 16 st.mp) (whole block)
      ∙ ap (λ t. got t (st.keys_dump block) w) (sym other) in
    (
      mp,
      ap (λ o. continue o (keep_block block)) (mifare-read-Whole block st whole small)
          ∙ ap (λ bytes. ended true (record st { mp = mp; dump = set_block block bytes st.dump }))
              parts,
    )

-- The dump after the blocks below `n`.
read_all : ℕ → Memory → Memory → Memory → Memory
read_all zero keys w d = d
read_all (suc block) keys w d = read_all block keys w (stored block keys w d)

read_all-above : (n : ℕ) (keys w d : Memory) (k : ℕ) → n ≤ k → read_all n keys w d k ≡ d k
unfolding read_all
read_all-above zero keys w d k above = refl
read_all-above (suc n) keys w d k above =
    let other : (k == n) ≡ false = ground arith in
    read_all-above n keys w (stored n keys w d) k (omega arith)
    ∙ ap (λ b. if b then got (is_trailer_block n) (keys n) (w n) else d k) other

read_all-at :
    (n : ℕ) (keys w d : Memory) (k : ℕ)
    → k < n
    → read_all n keys w d k ≡ got (is_trailer_block k) (keys k) (w k)
unfolding read_all
read_all-at zero keys w d k below = absurd (omega arith)
read_all-at (suc n) keys w d k below =
    elim (k == n)
        as (λ b.
          (k == n) ≡ b
          → read_all n keys w (stored n keys w d) k ≡ got (is_trailer_block k) (keys k) (w k)) [
            | true ↦ λ e.
                let here : n ≡ k = ground arith in
                read_all-above n keys w (stored n keys w d) k (omega arith)
                ∙ ap (λ b. if b then got (is_trailer_block n) (keys n) (w n) else d k) e
                ∙ ap (λ i. got (is_trailer_block i) (keys i) (w i)) here
            | false ↦ λ e. read_all-at n keys w (stored n keys w d) k (ground arith)
          ]
      refl

read_blocks-memory :
    (n : ℕ) (st : State Memory)
    → Whole st.reader
    → st.use_key_file ≡ true
    → 4 ≤ length st.nai.uid
    → n ≤ 256
    → (mp : List ℕ) × (read_blocks memory false n false st
        ≡ ended true (record st { mp = mp; dump = read_all n st.keys_dump st.reader st.dump }))
unfolding read_blocks read_all
read_blocks-memory zero st whole file long fits = (st.mp, refl)
read_blocks-memory (suc block) st whole file long fits =
    let rest : Bool → Run Memory Bool = read_blocks memory false block in
    let sector : Run Memory Bool = (do read_trailer memory false block; rest false) in
    let (mp0, entered) = authenticate-memory block st file long in
    elim (is_trailer_block block)
        as (λ t.
          is_trailer_block block ≡ t
          → (mp : List ℕ) × (read_blocks memory false (suc block) false st
              ≡ ended true (record st {
                mp = mp;
                dump = read_all (suc block) st.keys_dump st.reader st.dump;
              }))) [
                | true ↦ λ e.
                    let (mp1, one) =
                      read_trailer-memory block (record st { mp = mp0 }) whole (omega arith) e in
                    let st1 : State Memory = record st {
                      mp = mp1;
                      dump = stored block st.keys_dump st.reader st.dump;
                    } in
                    let (mp2, others) =
                      read_blocks-memory block st1 whole file long (omega arith) in
                    (
                      mp2,
                      if-true (is_trailer_block block) (enter_sector memory false block sector) _ st
                            e
                          ∙ ap
                              (λ o.
                                continue o (λ allowed. if allowed then sector else return false))
                              entered
                          ∙ ap (λ o. continue o (λ a. rest false)) one
                          ∙ others,
                    )
                | false ↦ λ e.
                    let (mp1, one) = read_data-memory block st whole (omega arith) e in
                    let st1 : State Memory = record st {
                      mp = mp1;
                      dump = stored block st.keys_dump st.reader st.dump;
                    } in
                    let (mp2, others) =
                      read_blocks-memory block st1 whole file long (omega arith) in
                    (
                      mp2,
                      if-false (is_trailer_block block) (enter_sector memory false block sector) _
                            st e
                          ∙ ap (λ o. continue o (λ ok. if ok then rest false else return false)) one
                          ∙ others,
                    )
              ]
      refl

-- The tool writes a card and reads it again. Over an ideal card and with the dump as the key file,
-- when the UID has four bytes or more, the card has at most 256 blocks, and every block of the dump and
-- of the card has 16 bytes, both runs succeed, and each block of the card but block 0 is read as the
-- dump has it, whatever the card held before.
pub read_card-write_card :
    (st : State Memory) (blank : Memory) (k : ℕ)
    → st.use_key_file ≡ true
    → 4 ≤ length st.nai.uid
    → st.blocks < 256
    → Whole st.dump
    → Whole st.reader
    → 0 < k
    → k ≤ st.blocks
    → (st1 : State Memory) × (st2 : State Memory) × (write_card memory false st ≡ ended true st1)
      × (read_card memory false (record st1 { keys_dump = st.dump; dump = blank }) ≡ ended true st2)
      × (st2.dump k ≡ st.dump k)
unfolding write_card read_card
read_card-write_card st blank k file long small whole before positive there =
    let D = st.dump in
    let (mp1, wrote) = write_blocks-memory (suc st.blocks) 0 st whole file long (omega arith) in
    let w = write_all (suc st.blocks) 0 D st.reader in
    let st1 : State Memory = record st { mp = mp1; reader = w } in
    let st1' : State Memory = record st1 { keys_dump = D; dump = blank } in
    let (mp2, found) =
      read_blocks-memory (suc st.blocks) st1'
        (write_all-Whole (suc st.blocks) 0 D st.reader whole before) file long (omega arith) in
    let st2 : State Memory = record st1' { mp = mp2; dump = read_all (suc st.blocks) D w blank } in
    let kept = write_all-at (suc st.blocks) 0 D st.reader k (omega arith) (omega arith) positive in
    (
      st1,
      st2,
      wrote,
      found,
      read_all-at (suc st.blocks) D w blank k (omega arith)
          ∙ ap (λ bytes. got (is_trailer_block k) (D k) bytes) kept
          ∙ got_self (is_trailer_block k) (D k) (whole k),
    )
