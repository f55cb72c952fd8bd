-- ===== src/Pn53x/Target/Tests.antt =====
-- An emulated card with a UID of four bytes, and a reader that sends REQA.
use libnfc.Prelude.{ℕ, ◌≡◌, refl, arith, List, [], ◌∷◌, replicate}
use libnfc.Prelude.Int.{pos}
use libnfc.Types.{NfcTarget, nai, nmt_iso14443a, nbr_106}
use libnfc.Pn53x.Monad.{Transceive, done, aborted}
use libnfc.Pn53x.Monad.Post.{Post}
use libnfc.Pn53x.Samples.{sample}
use libnfc.Pn53x.Target.{nothing, tg_init_command, tg_init_as_target, target_init}
use libnfc.Pn53x.Target.Laws.{Activated, target_init-Activated, tg_init_as_target-overrun}

abbrev initiator : Transceive (List ℕ)
initiator tx size timeout d = done ((pos 3, 0x00 ∷ 0xe0 ∷ 0x80 ∷ []), d)

abbrev card : NfcTarget
card = record {
  nti = nai (record {
    atqa = 0x00 ∷ 0x04 ∷ [];
    sak = 0x20;
    uid = 0x08 ∷ 0xab ∷ 0xcd ∷ 0xef ∷ [];
    ats = 0x75 ∷ 0x33 ∷ 0x92 ∷ 0x03 ∷ [];
  });
  nm = record { nmt = nmt_iso14443a; nbr = nbr_106 };
}

target_init-Activated_example :
    Post (Activated card) (target_init initiator 1 card 262 (replicate 264 0) (pos 0) (sample []))
target_init-Activated_example =
    target_init-Activated initiator 1 card 262 (replicate 264 0) (pos 0) (sample [])

tg_init_as_target-overrun_example :
    tg_init_as_target initiator (nothing 0x01) 1 (replicate 264 0) (pos 0) (sample []) ≡ aborted
unfolding tg_init_command
tg_init_as_target-overrun_example =
    tg_init_as_target-overrun initiator (nothing 0x01) 1 (replicate 264 0) (0x00 ∷ 0xe0 ∷ 0x80 ∷ [])
      (pos 0) (sample []) (sample []) (omega arith) (omega arith) refl
