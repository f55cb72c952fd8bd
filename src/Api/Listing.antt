-- ===== src/Api/Listing.antt =====
-- The targets that a listing finds.
use libnfc.Prelude.{ℕ, zero, suc, ◌+◌, ◌≤◌, ◌≡◌, refl, arith, ◌⊎◌, inl, inr, subst}
use libnfc.Prelude.{Bool, true, false, ◌||◌, List, [], ◌∷◌, ◌==◌, length}
use libnfc.Prelude.Int.{ℤ, pos, is_neg}
use libnfc.Types.{NfcModulation, NfcTarget, np_infinite_select}
use libnfc.Pn53x.Device.{Device, same_result}
use libnfc.Pn53x.Modulation.{prepare_initiator_data}
use libnfc.Pn53x.Monad.{crash, return}
use libnfc.Pn53x.Monad.Post.{Post, Post-if, Post-resume, Any, Post-Any}
use libnfc.Api.{
  Driver, seen, lists_one, with_driver, set_bool, nfc_select_passive_target, list_loop,
  list_passive_targets,
}

-- No target is found twice.
abbrev pub Distinct : (NfcTarget → NfcTarget → Bool) → List NfcTarget → Type 0
Distinct same [] = Unit
Distinct same (nt ∷ found) = (seen same nt found ≡ false) × Distinct same found

-- At most `size` targets, each once.
abbrev Few : (NfcTarget → NfcTarget → Bool) → ℕ → List NfcTarget → Type 0
Few same size found = (length found ≤ size) × Distinct same found

abbrev Fits : {W : Type 0} → (NfcTarget → NfcTarget → Bool) → ℕ → List NfcTarget → Device W → Type 0
Fits same size found d = Few same size found

-- A listing's result is an error, with no targets, or the count of the targets found.
abbrev pub Listed :
    {W : Type 0} → (NfcTarget → NfcTarget → Bool) → ℕ → ℤ × List NfcTarget → Device W → Type 0
Listed same size (res, found) d =
    (length found ≤ size)
    × Distinct same found
    × (((is_neg res ≡ true) × (found ≡ [])) ⊎ (res ≡ pos (length found)))

module _ {W : Type 0} (driver : Driver W) (same : NfcTarget → NfcTarget → Bool) where
  list_loop-Fits :
      (nm : NfcModulation) (room : ℕ) (found : List NfcTarget) (nt : NfcTarget) (d : Device W)
      → Distinct same found
      → Post (Fits same (length found + room)) (list_loop driver same nm room found nt d)
  unfolding list_loop
  list_loop-Fits nm zero found nt d apart =
      let size = length found + 0 in
      let old : Few same size found = (omega arith, apart) in
      Post-resume Any (Fits same size)
        (nfc_select_passive_target driver nm (prepare_initiator_data nm) nt d) _
        (Post-Any (nfc_select_passive_target driver nm (prepare_initiator_data nm) nt d))
        λ (res, nt1) d1 any.
          Post-if (Fits same size) (is_neg res || same_result res (pos 0)) (return found) _ d1
            (λ e. old)
            λ e.
              Post-if (Fits same size) (seen same nt1 found) (return found) crash d1 (λ f. old)
                (λ f. tt)
  list_loop-Fits nm (suc room) found nt d apart =
      let size = length found + suc room in
      let old : Few same size found = (omega arith, apart) in
      Post-resume Any (Fits same size)
        (nfc_select_passive_target driver nm (prepare_initiator_data nm) nt d) _
        (Post-Any (nfc_select_passive_target driver nm (prepare_initiator_data nm) nt d))
        λ (res, nt1) d1 any.
          let more = with_driver driver.deselect_target (pos 0) (λ f. f) in
          Post-if (Fits same size) (is_neg res || same_result res (pos 0)) (return found) _ d1
            (λ e. old)
            λ e.
              Post-if (Fits same size) (seen same nt1 found) (return found) _ d1 (λ f. old)
                λ fresh.
                  let new : Few same size (nt1 ∷ found) = (omega arith, (fresh, apart)) in
                  Post-if (Fits same size) (room == 0) (return (nt1 ∷ found)) _ d1 (λ g. new)
                    λ g.
                      Post-resume Any (Fits same size) (more d1) _ (Post-Any (more d1))
                        λ ignored d2 any2.
                          Post-if (Fits same size) (lists_one nm.nmt) (return (nt1 ∷ found))
                            (list_loop driver same nm room (nt1 ∷ found) nt1) d2 (λ h. new)
                            λ h.
                              let sum : length (nt1 ∷ found) + room ≡ size = omega arith in
                              subst
                                (λ n.
                                  Post (Fits same n)
                                    (list_loop driver same nm room (nt1 ∷ found) nt1 d2))
                                sum (list_loop-Fits nm room (nt1 ∷ found) nt1 d2 (fresh, apart))

  -- For an array of `size` targets: each listing that returns gives an error, with no targets, or the
  -- count of the targets in the array, which is at most `size`, and no two of them are the same.
  pub list_passive_targets-Listed :
      (nm : NfcModulation) (size : ℕ) (nt : NfcTarget) (d : Device W)
      → Post (Listed same size) (list_passive_targets driver same nm size nt d)
  unfolding list_passive_targets
  list_passive_targets-Listed nm size nt d =
      let d1 : Device W = record d { last_error = pos 0 } in
      Post-resume Any (Listed same size) (set_bool driver np_infinite_select false d1) _
        (Post-Any (set_bool driver np_infinite_select false d1))
        λ res d2 any.
          Post-if (Listed same size) (is_neg res) (return (res, [])) _ d2
            (λ e. (omega arith, tt, inl (e, refl)))
            λ e.
              Post-resume (Fits same size) (Listed same size)
                (list_loop driver same nm size [] nt d2)
                (λ found. return (pos (length found), found))
                (let start : length {A = NfcTarget} [] + size ≡ size = omega arith in
                  subst (λ n. Post (Fits same n) (list_loop driver same nm size [] nt d2)) start
                    (list_loop-Fits nm size [] nt d2 tt))
                λ found d3 (few, apart). (few, apart, inr refl)
