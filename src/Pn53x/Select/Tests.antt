-- ===== src/Pn53x/Select/Tests.antt =====
-- A chip that lists a card with a UID of four bytes.
use libnfc.Prelude.{ℕ, refl, true, Bool, List, [], ◌∷◌, replicate}
use libnfc.Prelude.Int.{pos}
use libnfc.Types.{NfcModulation, NfcTarget, nmt_iso14443a, nbr_106}
use libnfc.Pn53x.Monad.{Transceive, done}
use libnfc.Pn53x.Monad.Post.{Post}
use libnfc.Pn53x.Samples.{sample}
use libnfc.Pn53x.Select.{select_passive_target_ext}
use libnfc.Pn53x.Select.Laws.{Known, select_passive_target_ext-Known}

abbrev lister : Transceive (List ℕ)
lister tx size timeout d =
    done ((pos 10, 1 ∷ 1 ∷ 0x00 ∷ 0x04 ∷ 0x08 ∷ 4 ∷ 0xde ∷ 0xad ∷ 0xbe ∷ 0xef ∷ []), d)

abbrev any_two : NfcTarget → NfcTarget → Bool
any_two a b = true

abbrev mifare_nm : NfcModulation
mifare_nm = record { nmt = nmt_iso14443a; nbr = nbr_106 }

select_passive_target_ext-Known_example :
    Post
      (Known any_two)
      (select_passive_target_ext lister mifare_nm [] true (pos 0) (replicate 264 0) 0 (sample []))
select_passive_target_ext-Known_example =
    select_passive_target_ext-Known lister any_two (λ nt. refl) mifare_nm [] true (pos 0)
      (replicate 264 0) 0 (sample []) refl
