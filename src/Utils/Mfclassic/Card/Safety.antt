-- ===== src/Utils/Mfclassic/Card/Safety.antt =====
-- What a run of the tool cannot do to the card.
use libnfc.Prelude.{ℕ, zero, suc, ◌+◌, ◌≡◌, ◌<◌, ◌≤◌, ◌⊎◌, inl, inr, refl, arith}
use libnfc.Prelude.{Bool, true, false, Option, none, some, List, [], ◌∷◌, ◌++◌}
use libnfc.Prelude.{if◌then◌else◌, take, drop, length}
use libnfc.Prelude.Int.{pos, is_neg}
use libnfc.Iso14443.Crc.{crc_append, crc, crc_loop, crc_update}
use libnfc.Types.{NfcProperty, np_handle_crc, np_easy_framing}
use libnfc.Utils.Mifare.{Reader}
use libnfc.Utils.Mifare.Kept.{Protected}
use libnfc.Utils.Mfclassic.{is_first_block}
use libnfc.Utils.Mfclassic.State.{
  State, End, ended, exited, overrun, Run, ◌>>=◌, return, exit_failure,
}
use libnfc.Utils.Mfclassic.Card.{reselect, enter_sector, go_on, authenticate}
use libnfc.Utils.Mfclassic.Card.{
  write_block, write_blocks, write_card, unlock_card, send_halt, send_unlock, reset_reader,
  configure,
}
use libnfc.Utils.Mfclassic.Card.{transmit_bits, transmit_bytes, bcc_is_wrong}
use libnfc.Utils.Mfclassic.Card.Kept.{
  overwrites_block_zero, Leaves, Leaves-continue, Leaves-if, Leaves-return, Kept, Refused,
  authenticate-Kept, write_block-Kept,
}

module _ {W : Type 0} (reader : Reader W) (Safe : W → Type 0)
    (protected : Protected overwrites_block_zero reader Safe) (D : ℕ → List ℕ) where
  abbrev Good : State W → Type 0
  Good = Kept reader Safe protected D

  -- A part of a run that keeps the state good.
  abbrev Keeps : {A : Type 0} → Run W A → Type 0
  Keeps {A} m = (st : State W) → Good st → Leaves Good (m st)

  reselect-Keeps :
      (failure : Bool) (rest : Run W Bool) → Keeps rest → Keeps (reselect reader failure rest)
  reselect-Keeps false rest keeps st good = keeps st good
  reselect-Keeps true rest keeps st (safe, same) =
      let (res, nai, w) = reader.select_passive_target none st.nai st.reader in
      let st1 : State W = record st { nai = nai; reader = w } in
      let safe1 = protected.select_passive_target-Safe none st.nai st.reader safe in
      Leaves-if Good (is_neg res) (return false) rest st1 (λ e. (safe1, same))
        λ e. keeps st1 (safe1, same)

  enter_sector-Keeps :
      (unlocked : Bool) (block : ℕ) (rest : Run W Bool)
      → Keeps rest
      → Keeps (enter_sector reader unlocked block rest)
  enter_sector-Keeps true block rest keeps st good = keeps st good
  enter_sector-Keeps false block rest keeps st good =
      Leaves-continue Good (authenticate reader block st)
        (λ allowed. if allowed then rest else return false)
        (authenticate-Kept reader Safe protected D block st good)
        λ allowed st1 good1.
          Leaves-if Good allowed rest (return false) st1 (λ e. keeps st1 good1) (λ e. good1)

  go_on-Keeps :
      (next : Option Bool) (rest : Bool → Run W Bool)
      → ((failure : Bool) → Keeps (rest failure))
      → Keeps (go_on reader next rest)
  go_on-Keeps none rest keeps st good = good
  go_on-Keeps (some failure) rest keeps st good = keeps failure st good

  write_blocks-Keeps :
      (block_zero : Bool) (left block : ℕ) (failure : Bool)
      → block + left ≤ 256
      → Refused reader Safe protected D block_zero
      → Keeps (write_blocks reader block_zero left block failure)
  unfolding write_blocks
  write_blocks-Keeps block_zero zero block failure fits refused st good = good
  write_blocks-Keeps block_zero (suc left) block failure fits refused st good =
      let rest : Bool → Run W Bool = write_blocks reader block_zero left (block + 1) in
      let body : Bool → Run W Bool = (λ failure.
        write_block reader block_zero block failure >>= λ next. go_on reader next rest) in
      let body-Keeps : (failure : Bool) → Keeps (body failure) = (λ failure st good.
        Leaves-continue Good (write_block reader block_zero block failure st)
          (λ next. go_on reader next rest)
          (write_block-Kept reader Safe protected D block_zero block failure st (omega arith)
            refused good)
          λ next st1 good1.
            go_on-Keeps next rest
              (λ failed.
                write_blocks-Keeps block_zero left (block + 1) failed (omega arith) refused)
              st1 good1) in
      Leaves-if Good (is_first_block block)
        (reselect reader failure (enter_sector reader block_zero block (body false))) (body failure)
        st
        (λ e.
          reselect-Keeps failure _
            (enter_sector-Keeps block_zero block (body false) (body-Keeps false)) st good)
        λ e. body-Keeps failure st good

  configure-Keeps : (p : NfcProperty) (enable : Bool) → Keeps (configure reader p enable)
  configure-Keeps p enable st (safe, same) =
      let (res, w) = reader.set_property_bool p enable st.reader in
      let safe1 = protected.set_property_bool-Safe p enable st.reader safe in
      Leaves-if Good (is_neg res) exit_failure (return tt) (record st { reader = w })
        (λ e. (safe1, same)) (λ e. (safe1, same))

  transmit_bytes-Keeps :
      (tx : List ℕ) → overwrites_block_zero tx ≡ false → Keeps (transmit_bytes reader tx)
  unfolding transmit_bytes
  transmit_bytes-Keeps tx allowed st (safe, same) =
      (protected.transceive_bytes-Safe tx 264 (pos 0) st.reader allowed safe, same)

  transmit_bits-Keeps : (tx : List ℕ) (bits : ℕ) → Keeps (transmit_bits reader tx bits)
  unfolding transmit_bits
  transmit_bits-Keeps tx bits st (safe, same) =
      (protected.transceive_bits-Safe tx bits st.reader safe, same)

  send_halt-Keeps : Keeps (send_halt reader)
  unfolding send_halt crc_append crc crc_loop crc_update
  send_halt-Keeps st good = transmit_bytes-Keeps (0x50 ∷ 0x00 ∷ 0x57 ∷ 0xcd ∷ []) refl st good

  send_unlock-Keeps : Keeps (send_unlock reader)
  unfolding send_unlock
  send_unlock-Keeps st good =
      Leaves-continue Good (send_halt reader st) _ (send_halt-Keeps st good) λ a st1 good1.
        Leaves-continue Good (transmit_bits reader (0x40 ∷ []) 7 st1)
          (λ first. if first then transmit_bytes reader (0x43 ∷ []) else return false)
          (transmit_bits-Keeps (0x40 ∷ []) 7 st1 good1)
          λ first st2 good2.
            Leaves-if Good first (transmit_bytes reader (0x43 ∷ [])) (return false) st2
              (λ e. transmit_bytes-Keeps (0x43 ∷ []) refl st2 good2) (λ e. good2)

  reset_reader-Keeps : Keeps (reset_reader reader)
  unfolding reset_reader
  reset_reader-Keeps st good =
      Leaves-continue Good (configure reader np_handle_crc true st) _
        (configure-Keeps np_handle_crc true st good)
        λ a st1 good1.
          Leaves-return Good (configure reader np_easy_framing true st1) (λ b. true)
            (configure-Keeps np_easy_framing true st1 good1)

  unlock_card-Keeps : Keeps (unlock_card reader)
  unfolding unlock_card
  unlock_card-Keeps st good =
      Leaves-continue Good (configure reader np_handle_crc false st) _
        (configure-Keeps np_handle_crc false st good)
        λ a st1 good1.
          Leaves-continue Good (configure reader np_easy_framing false st1) _
            (configure-Keeps np_easy_framing false st1 good1)
            λ b st2 good2.
              Leaves-continue Good (send_unlock reader st2)
                (λ unlocked. if unlocked then reset_reader reader else return false)
                (send_unlock-Keeps st2 good2)
                λ unlocked st3 good3.
                  Leaves-if Good unlocked (reset_reader reader) (return false) st3
                    (λ e. reset_reader-Keeps st3 good3) (λ e. good3)

  ready-Keeps : (unlock : Bool) → Keeps (if unlock then unlock_card reader else return true)
  ready-Keeps true st good = unlock_card-Keeps st good
  ready-Keeps false st good = good

  write_card-Keeps :
      (block_zero : Bool)
      → Refused reader Safe protected D block_zero
      → Keeps (write_card reader block_zero)
  unfolding write_card
  write_card-Keeps block_zero refused st good =
      Leaves-continue Good ((if block_zero then unlock_card reader else return true) st)
        (λ ready st1.
          (if ready then write_blocks reader block_zero (suc st1.blocks) 0 false else return false)
            st1)
        (ready-Keeps block_zero st good)
        λ ready st1 (safe, same).
          Leaves-if Good ready (write_blocks reader block_zero (suc st1.blocks) 0 false)
            (return false) st1
            (λ e.
              write_blocks-Keeps block_zero (suc st1.blocks) 0 false
                (let few = same.1 in omega arith) refused st1 (safe, same))
            λ e. (safe, same)

bcc_is_wrong-take :
    (bytes mp : List ℕ)
    → length bytes ≡ 16
    → bcc_is_wrong bytes ≡ true
    → bcc_is_wrong (take 16 bytes ++ drop 16 mp) ≡ true
unfolding bcc_is_wrong
bcc_is_wrong-take (a ∷ b ∷ c ∷ d ∷ e ∷ bytes) mp sixteen wrong = wrong
bcc_is_wrong-take _ mp sixteen wrong = absurd (omega arith)

dump-Refused :
    {W : Type 0} (reader : Reader W) (Safe : W → Type 0)
    (protected : Protected overwrites_block_zero reader Safe) (D : ℕ → List ℕ) (block_zero : Bool)
    → (block_zero ≡ false) ⊎ ((length (D 0) ≡ 16) × (bcc_is_wrong (D 0) ≡ true))
    → Refused reader Safe protected D block_zero
dump-Refused reader Safe protected D block_zero (inl locked) = inl locked
dump-Refused reader Safe protected D block_zero (inr (sixteen, wrong)) =
    inr (λ mp. bcc_is_wrong-take (D 0) mp sixteen wrong)

weaken :
    {W A : Type 0} (P Q : State W → Type 0) (end : End W A)
    → ((st : State W) → P st → Q st)
    → Leaves P end
    → Leaves Q end
weaken P Q (ended a st) f h = f st h
weaken P Q (exited st) f h = f st h
weaken P Q overrun f h = tt

-- The manufacturer block is not touched: a write of a card, of at most 256 blocks, in the normal
-- mode, or in the unlocked mode with a dump whose first block has 16 bytes and a wrong BCC,
-- keeps all that every other request to the reader keeps, where it returns and where it exits.
pub write_card-Protected :
    {W : Type 0} (reader : Reader W) (Safe : W → Type 0)
    → Protected overwrites_block_zero reader Safe
    → (block_zero : Bool) (st : State W) → st.blocks < 256
    → (block_zero ≡ false) ⊎ ((length (st.dump 0) ≡ 16) × (bcc_is_wrong (st.dump 0) ≡ true))
    → Safe st.reader
    → Leaves (λ st'. Safe st'.reader) (write_card reader block_zero st)
write_card-Protected reader Safe protected block_zero st small refused safe =
    let D = st.dump in
    weaken (Kept reader Safe protected D) (λ st'. Safe st'.reader) (write_card reader block_zero st)
      (λ st1 good. good.0)
      (write_card-Keeps reader Safe protected D block_zero
        (dump-Refused reader Safe protected D block_zero refused) st (safe, (refl, small)))
