-- ===== src/Utils/Mfclassic/Card/Written.antt =====
-- What `write_card` leaves in an ideal card.
use libnfc.Prelude.{ℕ, zero, suc, ◌+◌, ◌≡◌, ◌≤◌, ◌<◌, refl, arith, ap, ◌∙◌, sym, subst}
use libnfc.Prelude.{Bool, true, false, not, ◌&&◌, some, List, [], ◌∷◌, ◌++◌, ◌==◌}
use libnfc.Prelude.{if◌then◌else◌, length, take, drop, take-append, take-all}
use libnfc.Utils.Mfclassic.{is_first_block, is_trailer_block}
use libnfc.Utils.Mfclassic.State.{State, End, ended, continue, Run, ◌>>=◌, return, if-false}
use libnfc.Utils.Mfclassic.Card.{set_block, key_a, access_bits, key_b}
use libnfc.Utils.Mfclassic.Card.{enter_sector, go_on}
use libnfc.Utils.Mfclassic.Card.{write_trailer, write_data, next_failure, write_block, write_blocks}
use libnfc.Utils.Mfclassic.Card.Memory.{Memory, memory, mifare-write, authenticate-memory}

-- Every block of a dump has 16 bytes.
abbrev pub Whole : Memory → Type 0
Whole D = (i : ℕ) → length (D i) ≡ 16

pub take-whole : (bytes rest : List ℕ) → length bytes ≡ 16 → take 16 (bytes ++ rest) ≡ bytes
take-whole bytes rest e = subst (λ n. take n (bytes ++ rest) ≡ bytes) e (take-append bytes rest)

pub take_self : (bytes : List ℕ) → length bytes ≡ 16 → take 16 bytes ≡ bytes
take_self bytes e = subst (λ n. take n bytes ≡ bytes) e (take-all bytes)

-- A trailer is put together from its parts.
trailer-parts :
    (bytes rest : List ℕ)
    → length bytes ≡ 16
    → take 16 (key_a bytes ++ (access_bits bytes ++ (key_b bytes ++ rest))) ≡ bytes
trailer-parts (a ∷ b ∷ c ∷ d ∷ e ∷ f ∷ g ∷ h ∷ i ∷ j ∷ k ∷ l ∷ m ∷ n ∷ o ∷ p ∷ []) rest sixteen =
    refl
trailer-parts _ rest sixteen = absurd (omega arith)

-- The card after the write of one block: block 0 is left out.
abbrev written : ℕ → Memory → Memory → Memory
written block D w = if block == 0 then w else set_block block (D block) w

write_trailer-memory :
    (block : ℕ) (st : State Memory)
    → Whole st.dump
    → block < 256
    → (mp : List ℕ) × (write_trailer memory block st
        ≡ ended true (record st { mp = mp; reader = set_block block (st.dump block) st.reader }))
unfolding write_trailer
write_trailer-memory block st whole small =
    let bytes = st.dump block in
    let mp = key_a bytes ++ (access_bits bytes ++ (key_b bytes ++ drop 16 st.mp)) in
    let parts = trailer-parts bytes (drop 16 st.mp) (whole block) in
    (mp, mifare-write block bytes (record st { mp = mp }) small parts)

write_data-memory :
    (block : ℕ) (st : State Memory)
    → Whole st.dump
    → block < 256
    → (block == 0) ≡ false
    → (mp : List ℕ) × (write_data memory block st
        ≡ ended
            (some true)
            (record st { mp = mp; reader = set_block block (st.dump block) st.reader }))
unfolding write_data
write_data-memory block st whole small other =
    let bytes = st.dump block in
    let self = take_self bytes (whole block) in
    let parts = take-whole bytes (drop 16 st.mp) (whole block) in
    (
      bytes ++ drop 16 st.mp,
      rw (self, other)
          (ap (λ o. continue o (λ ok. return (some ok)))
            (mifare-write block bytes (record st { mp = bytes ++ drop 16 st.mp }) small parts)),
    )

trailer-nonzero : (block : ℕ) → is_trailer_block block ≡ true → (block == 0) ≡ false
unfolding is_trailer_block
trailer-nonzero block trailer = ground arith

write_block-memory :
    (block : ℕ) (st : State Memory)
    → Whole st.dump
    → block < 256
    → (mp : List ℕ) × (write_block memory false block false st
        ≡ ended (some false) (record st { mp = mp; reader = written block st.dump st.reader }))
unfolding write_block
write_block-memory block st whole small = split (is_trailer_block block) refl (block == 0) refl
  where
    split :
        (t : Bool)
        → is_trailer_block block ≡ t
        → (z : Bool) → (block == 0) ≡ z
        → (mp : List ℕ) × (write_block memory false block false st
            ≡ ended (some false) (record st { mp = mp; reader = written block st.dump st.reader }))
    split true trailer z e =
        let nonzero = trailer-nonzero block trailer in
        let (mp, done) = write_trailer-memory block st whole small in
        (
          mp,
          rw (trailer, nonzero)
              (ap (λ o. continue o (λ ok. return (some (if ok then false else true)))) done),
        )
    split false other true e = (st.mp, rw (other, e) refl)
    split false other false e =
        let (mp, done) = write_data-memory block st whole small e in
        let guard : (block == 0 && not false) ≡ false = ap (λ z. z && not false) e in
        let card = ap (λ z. if z then st.reader else set_block block (st.dump block) st.reader) e in
        (
          mp,
          if-false (is_trailer_block block) _ _ st other
              ∙ if-false (block == 0 && not false) (return (some false)) _ st guard
              ∙ ap (λ o. continue o (λ written. return (next_failure written))) done
              ∙ ap (λ w. ended (some false) (record st { mp = mp; reader = w })) (sym card),
        )

-- The card after a run of blocks.
unfoldable pub write_all : ℕ → ℕ → Memory → Memory → Memory
write_all zero block D w = w
write_all (suc left) block D w = write_all left (block + 1) D (written block D w)

skipped : (z : Bool) (w w' : Memory) (k : ℕ) → w' k ≡ w k → (if z then w else w') k ≡ w k
skipped true w w' k e = refl
skipped false w w' k e = e

written-other :
    (block : ℕ) (D w : Memory) (k : ℕ) → (k == block) ≡ false → written block D w k ≡ w k
written-other block D w k other =
    skipped (block == 0) w (set_block block (D block) w) k
      (ap (λ b. if b then D block else w k) other)

written-at : (block : ℕ) (D w : Memory) → 0 < block → written block D w block ≡ D block
written-at block D w positive =
    let nonzero : (block == 0) ≡ false = ground arith in
    let same : (block == block) ≡ true = ground arith in
    ap (λ z. (if z then w else set_block block (D block) w) block) nonzero
    ∙ ap (λ b. if b then D block else w block) same

write_all-below :
    (left block : ℕ) (D w : Memory) (k : ℕ) → k < block → write_all left block D w k ≡ w k
unfolding write_all
write_all-below zero block D w k below = refl
write_all-below (suc left) block D w k below =
    write_all-below left (block + 1) D (written block D w) k (omega arith)
    ∙ written-other block D w k (ground arith)

pub write_all-at :
    (left block : ℕ) (D w : Memory) (k : ℕ)
    → block ≤ k
    → k < block + left
    → 0 < k
    → write_all left block D w k ≡ D k
unfolding write_all
write_all-at zero block D w k from to positive = absurd (omega arith)
write_all-at (suc left) block D w k from to positive =
    elim (k == block)
        as (λ b. (k == block) ≡ b → write_all left (block + 1) D (written block D w) k ≡ D k) [
          | true ↦ λ e.
              let here : block ≡ k = ground arith in
              write_all-below left (block + 1) D (written block D w) k (omega arith)
              ∙ subst (λ i. written block D w i ≡ D i) here (written-at block D w (omega arith))
          | false ↦ λ e.
              write_all-at left (block + 1) D (written block D w) k (ground arith) (omega arith)
                positive
        ]
      refl

pub one_of :
    {W A : Type 0} (P : End W A → Type 0) (b : Bool) (m k : Run W A) (st : State W)
    → P (m st)
    → P (k st)
    → P ((if b then m else k) st)
one_of P true m k st pm pk = pm
one_of P false m k st pm pk = pk

pub write_blocks-memory :
    (left block : ℕ) (st : State Memory)
    → Whole st.dump
    → st.use_key_file ≡ true
    → 4 ≤ length st.nai.uid
    → block + left ≤ 256
    → (mp : List ℕ) × (write_blocks memory false left block false st
        ≡ ended true (record st { mp = mp; reader = write_all left block st.dump st.reader }))
unfolding write_blocks write_all
write_blocks-memory zero block st whole file long fits = (st.mp, refl)
write_blocks-memory (suc left) block st whole file long fits =
    let rest : Bool → Run Memory Bool = write_blocks memory false left (block + 1) in
    let body : Bool → Run Memory Bool =
      (λ failure. write_block memory false block failure >>= λ next. go_on memory next rest) in
    let after : List ℕ → State Memory =
      (λ mp. record st { mp = mp; reader = write_all (suc left) block st.dump st.reader }) in
    let run : (mp0 : List ℕ)
        → (mp : List ℕ) × (body false (record st { mp = mp0 }) ≡ ended true (after mp)) =
      (λ mp0.
        let (mp1, one) = write_block-memory block (record st { mp = mp0 }) whole (omega arith) in
        let st1 : State Memory = record st { mp = mp1; reader = written block st.dump st.reader } in
        let (mp2, others) =
          write_blocks-memory left (block + 1) st1 whole file long (omega arith) in
        (mp2, ap (λ o. continue o (λ next. go_on memory next rest)) one ∙ others)) in
    let (mp0, entered) = authenticate-memory block st file long in
    let through : enter_sector memory false block (body false) st
        ≡ body false (record st { mp = mp0 }) =
      ap (λ o. continue o (λ allowed. if allowed then body false else return false)) entered in
    one_of (λ o. (mp : List ℕ) × (o ≡ ended true (after mp))) (is_first_block block)
      (enter_sector memory false block (body false)) (body false) st
      (let (mp, others) = run mp0 in (mp, through ∙ others)) (run st.mp)

written-Whole : (block : ℕ) (D w : Memory) → Whole D → Whole w → Whole (written block D w)
written-Whole block D w whole before i = one_whole (block == 0) (i == block) refl
  where
    one_whole :
        (z b : Bool)
        → (i == block) ≡ b
        → length ((if z then w else set_block block (D block) w) i) ≡ 16
    one_whole true b e = before i
    one_whole false true e = ap (λ c. length (if c then D block else w i)) e ∙ whole block
    one_whole false false e = ap (λ c. length (if c then D block else w i)) e ∙ before i

pub write_all-Whole :
    (left block : ℕ) (D w : Memory) → Whole D → Whole w → Whole (write_all left block D w)
unfolding write_all
write_all-Whole zero block D w whole before = before
write_all-Whole (suc left) block D w whole before =
    write_all-Whole left (block + 1) D (written block D w) whole
      (written-Whole block D w whole before)
