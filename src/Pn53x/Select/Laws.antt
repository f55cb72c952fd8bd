-- ===== src/Pn53x/Select/Laws.antt =====
-- What a selection leaves in the device.
use libnfc.Prelude.{
  ℕ, ◌+◌, ◌-◌, ◌^◌, ◌≡◌, refl, ap, ◌∙◌, Bool, true, false, ◌||◌, Option, none, some, List,
}
use libnfc.Prelude.{drop, get_or}
use libnfc.Prelude.Int.{ℤ, pos, is_neg}
use libnfc.Types.{NfcModulation, NfcTarget}
use libnfc.Pn53x.Device.{Device, same_result}
use libnfc.Pn53x.Initiator.{wrap}
use libnfc.Pn53x.Modulation.{nm_to_pm}
use libnfc.Pn53x.Monad.{M, Outcome, done, aborted, out_of_fuel, ◌>>=◌, return, modify, Transceive}
use libnfc.Pn53x.Monad.Post.{Post, Post-if, Post-resume, Any, Post-Any}
use libnfc.Pn53x.Select.{
  by_hand, is_undefined, in_list_passive_target, decode_wanted, current_target_new, select_listed,
  select_passive_target_ext, current_target_is,
}

-- A target that is handed out is the one that the device keeps.
abbrev pub Keeps : {W : Type 0} → ℤ × Option NfcTarget → Device W → Type 0
Keeps (res, none) d = Unit
Keeps (res, some nt) d = d.current_target ≡ some nt

module _ {W : Type 0} (transceive : Transceive W) where
  keep : ℤ → Option NfcTarget → M W (ℤ × Option NfcTarget)
  keep res nt = (modify (λ d. elim nt [ none ↦ d | some nt ↦ current_target_new nt d ])) >>= λ x.
      return (res, nt)

  keep-Keeps : (res : ℤ) (nt : Option NfcTarget) (d : Device W) → Post Keeps (keep res nt d)
  unfolding keep current_target_new
  keep-Keeps res none d = tt
  keep-Keeps res (some nt) d = refl

  select_listed-Keeps :
      (nm : NfcModulation) (init : List ℕ) (wanted : Bool) (timeout : ℤ) (mem : List ℕ)
      (d : Device W)
      → Post Keeps (select_listed transceive nm init wanted timeout mem d)
  unfolding select_listed keep
  select_listed-Keeps nm init wanted timeout mem d =
      Post-resume Any Keeps (in_list_passive_target transceive (nm_to_pm nm) 1 init mem timeout d) _
        (Post-Any (in_list_passive_target transceive (nm_to_pm nm) 1 init mem timeout d))
        λ (res, mem, size) d1 any.
          Post-if Keeps (is_neg res || same_result res (pos 0)) (return (res, none)) _ d1 (λ e. tt)
            λ e.
              Post-resume Any Keeps
                (decode_wanted transceive wanted nm (drop 1 mem) (wrap (size + 2 ^ 64 - 1)) d1) _
                (Post-Any
                  (decode_wanted transceive wanted nm (drop 1 mem) (wrap (size + 2 ^ 64 - 1)) d1))
                λ (decoded, nt) d2 any2.
                  Post-if Keeps (is_neg decoded) (return (pos 1, none))
                    (keep (pos (get_or mem 0 0)) nt) d2 (λ f. tt)
                    (λ f. keep-Keeps (pos (get_or mem 0 0)) nt d2)

  listed-Keeps :
      (nm : NfcModulation) (init : List ℕ) (wanted : Bool) (timeout : ℤ) (mem : List ℕ)
      (chip_junk : ℕ) (d : Device W)
      → by_hand nm.nmt ≡ false
      → Post Keeps (select_passive_target_ext transceive nm init wanted timeout mem chip_junk d)
  unfolding select_passive_target_ext
  listed-Keeps nm init wanted timeout mem chip_junk d listed = rw listed (
      Post-if Keeps (is_undefined transceive (nm_to_pm nm)) _
        (select_listed transceive nm init wanted timeout mem) d (λ e. tt)
        (λ e. select_listed-Keeps nm init wanted timeout mem d))

-- What `pn53x_current_target_is` says of a target that is handed out.
abbrev pub Known :
    {W : Type 0} → (NfcTarget → NfcTarget → Bool) → ℤ × Option NfcTarget → Device W → Type 0
Known same (res, none) d = Unit
Known same (res, some nt) d = current_target_is same nt d ≡ true

Keeps-Known :
    {W : Type 0} (same : NfcTarget → NfcTarget → Bool)
    → ((nt : NfcTarget) → same nt nt ≡ true)
    → (o : Outcome ((ℤ × Option NfcTarget) × Device W)) → Post Keeps o
    → Post (Known same) o
Keeps-Known same reflexive (done ((res, none), d)) kept = tt
Keeps-Known same reflexive (done ((res, some nt), d)) kept =
    ap (λ current. elim current as (λ x. Bool) [ none ↦ false | some other ↦ same nt other ]) kept
    ∙ reflexive nt
Keeps-Known same reflexive aborted kept = tt
Keeps-Known same reflexive out_of_fuel kept = tt

-- Of a modulation that the chip lists itself, each selection that returns and that hands out a target
-- leaves the device with that target as the current one: `pn53x_current_target_is`, with a
-- comparison that takes a target for itself, is true of it.
pub select_passive_target_ext-Known :
    {W : Type 0} (transceive : Transceive W) (same : NfcTarget → NfcTarget → Bool)
    → ((nt : NfcTarget) → same nt nt ≡ true)
    → (nm : NfcModulation) (init : List ℕ) (wanted : Bool) (timeout : ℤ) (mem : List ℕ)
      (chip_junk : ℕ) (d : Device W)
    → by_hand nm.nmt ≡ false
    → Post
        (Known same)
        (select_passive_target_ext transceive nm init wanted timeout mem chip_junk d)
select_passive_target_ext-Known transceive same reflexive nm init wanted timeout mem chip_junk d
      listed =
    Keeps-Known same reflexive
      (select_passive_target_ext transceive nm init wanted timeout mem chip_junk d)
      (listed-Keeps transceive nm init wanted timeout mem chip_junk d listed)
