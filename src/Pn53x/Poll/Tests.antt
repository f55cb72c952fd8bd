-- ===== src/Pn53x/Poll/Tests.antt =====
-- A PN532 that polls a card with a UID of four bytes.
use libnfc.Prelude.{ℕ, refl, List, [], ◌∷◌, replicate}
use libnfc.Prelude.Int.{pos}
use libnfc.Types.{NfcModulation, nmt_iso14443a, nbr_106}
use libnfc.Pn53x.Monad.{Transceive, done}
use libnfc.Pn53x.Monad.Post.{Post}
use libnfc.Pn53x.Poll.{poll_target}
use libnfc.Pn53x.Poll.Laws.{NoTarget, poll_target-NoTarget}
use libnfc.Pn53x.Samples.{sample}

abbrev poller : Transceive (List ℕ)
poller tx size timeout d =
    done ((pos 12, 1 ∷ 0x10 ∷ 9 ∷ 1 ∷ 0x00 ∷ 0x04 ∷ 0x08 ∷ 4 ∷ 0xde ∷ 0xad ∷ 0xbe ∷ 0xef ∷ []), d)

abbrev nms : List NfcModulation
nms = record { nmt = nmt_iso14443a; nbr = nbr_106 } ∷ []

poll_target-NoTarget_example :
    Post (NoTarget poller) (poll_target poller 1 nms 2 1 (replicate 264 0) 0 (sample []))
poll_target-NoTarget_example =
    poll_target-NoTarget poller (λ tx room timeout d free. free) 1 nms 2 1 (replicate 264 0) 0
      (sample []) refl refl
