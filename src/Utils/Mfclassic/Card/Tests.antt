-- ===== src/Utils/Mfclassic/Card/Tests.antt =====
-- A card of 320 bytes and a dump for it.
use libnfc.Prelude.{◌≡◌, refl, arith, inl, Bool, true, false, ◌||◌, [], ◌∷◌, replicate}
use libnfc.Prelude.Int.{pos}
use libnfc.Types.{NfcIso14443aInfo}
use libnfc.Utils.Mifare.{Reader}
use libnfc.Utils.Mfclassic.State.{State, ended}
use libnfc.Utils.Mfclassic.Card.{write_card, read_card}
use libnfc.Utils.Mfclassic.Card.Kept.{overwrites_block_zero, Leaves}
use libnfc.Utils.Mifare.Kept.{Protected}
use libnfc.Utils.Mfclassic.Card.Safety.{write_card-Protected}
use libnfc.Utils.Mfclassic.Card.Memory.{Memory, memory}
use libnfc.Utils.Mfclassic.Card.RoundTrip.{read_card-write_card}

abbrev dump : Memory
dump i = replicate 16 i

abbrev blank : Memory
blank i = replicate 16 0

abbrev info : NfcIso14443aInfo
info = record {
  atqa = 0x00 ∷ 0x04 ∷ [];
  sak = 0x09;
  uid = 0xde ∷ 0xad ∷ 0xbe ∷ 0xef ∷ [];
  ats = [];
}

abbrev tool : {W : Type 0} → W → State W
tool w = record {
  reader = w;
  nai = info;
  mp = replicate 16 0;
  keys_dump = dump;
  dump = dump;
  use_key_a = true;
  use_key_file = true;
  blocks = 0x13;
}

-- A reader that remembers whether block 0 was written.
abbrev watch : Reader Bool
watch = record {
  set_property_bool = λ p b w. (pos 0, w);
  transceive_bytes = λ tx room timeout w. (pos 0, [], overwrites_block_zero tx || w);
  transceive_bits = λ tx bits w. (pos 0, w);
  select_passive_target = λ uid nai w. (pos 1, nai, w);
}

watch-Protected : Protected overwrites_block_zero watch (λ w. w ≡ false)
watch-Protected = record {
  set_property_bool-Safe = λ p b w safe. safe;
  transceive_bytes-Safe = λ tx room timeout w allowed safe. rw (allowed, safe) refl;
  transceive_bits-Safe = λ tx bits w safe. safe;
  select_passive_target-Safe = λ uid nai w safe. safe;
}

write_card-Protected_example :
    Leaves (λ st. st.reader ≡ false) (write_card watch false (tool false))
write_card-Protected_example =
    write_card-Protected watch (λ w. w ≡ false) watch-Protected false (tool false) (omega arith)
      (inl refl) refl

read_card-write_card_example :
    (st1 : State Memory) × (st2 : State Memory) × (write_card memory false (tool blank)
      ≡ ended true st1)
    × (read_card memory false (record st1 { keys_dump = dump; dump = blank }) ≡ ended true st2)
    × (st2.dump 7 ≡ dump 7)
read_card-write_card_example =
    read_card-write_card (tool blank) blank 7 refl (omega arith) (omega arith) (λ i. refl)
      (λ i. refl) (omega arith) (omega arith)
