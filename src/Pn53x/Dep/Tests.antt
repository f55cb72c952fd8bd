-- ===== src/Pn53x/Dep/Tests.antt =====
-- A chip that finds no D.E.P. target at 212 kbps.
use libnfc.Prelude.{ℕ, ◌≡◌, refl, arith, none, some, List, [], ◌∷◌, replicate}
use libnfc.Prelude.Int.{pos}
use libnfc.Types.{NfcTarget, nsi, nmt_dep, nbr_undefined, nbr_212, ndm_passive}
use libnfc.Pn53x.Dep.{dep_command, select_dep_target}
use libnfc.Pn53x.Dep.Laws.{select_dep_target-none_found}
use libnfc.Pn53x.Monad.{Transceive, done}
use libnfc.Pn53x.Samples.{sample}
use libnfc.Pn53x.Select.{current_target_new}
use libnfc.Pn53x.Transceive.{current_target_free}

abbrev empty_field : Transceive (List ℕ)
empty_field tx size timeout d = done ((pos 2, 0x00 ∷ 0x00 ∷ []), d)

abbrev cleared : NfcTarget
cleared = record { nti = nsi (replicate 8 0); nm = record { nmt = nmt_dep; nbr = nbr_undefined } }

select_dep_target-none_found_example :
    select_dep_target empty_field ndm_passive nbr_212 none
      (some cleared)
      (replicate 264 0)
      (pos 0)
      (sample [])
    ≡ done ((pos 0, some cleared), current_target_new cleared (sample []))
unfolding dep_command current_target_free
select_dep_target-none_found_example =
    select_dep_target-none_found empty_field ndm_passive nbr_212 1 none cleared (replicate 264 0)
      (pos 0) 2 0 [] (sample []) (sample []) refl (omega arith, refl)
