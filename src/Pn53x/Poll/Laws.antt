-- ===== src/Pn53x/Poll/Laws.antt =====
-- When a polling ends, and what it leaves in the device.
use libnfc.Prelude.{
  ℕ, suc, ◌≡◌, arith, refl, ap, sym, ◌∙◌, Bool, true, false, not, Option, none, some, List, [], ◌∷◌,
}
use libnfc.Prelude.{if◌then◌else◌, ◌==◌, ltb, length, map, get_or, drop}
use libnfc.Prelude.Int.{ℤ, pos, is_neg, to_size}
use libnfc.Types.{NfcModulation, NfcTarget}
use libnfc.Pn53x.Decode.{decode_target_data}
use libnfc.Pn53x.Device.{Device, nfc_einvarg, nfc_echip, same_result}
use libnfc.Pn53x.Modulation.{Pn53xTargetType, ptt_to_nm}
use libnfc.Pn53x.Monad.{
  M, Outcome, done, aborted, out_of_fuel, resume, ◌>>=◌, return, need, crash, Transceive,
}
use libnfc.Pn53x.Monad.Post.{Post, Post-if, Post-resume}
use libnfc.Pn53x.Properties.{set_property_bool, np_infinite_select}
use libnfc.Pn53x.Registers.{max_data}
use libnfc.Pn53x.Select.{overlay, refuse}
use libnfc.Pn53x.Transceive.{is_pn532}
use libnfc.Pn53x.Poll.{
  next_target, found_targets, in_auto_poll, keep_polled, poll_types, poll_pn532, sweeps,
  poll_forever, poll_target, find_type, target_types, ptt_code,
}

-- A chain with two continuations that agree.
resume-same :
    {W A B : Type 0} (o : Outcome (A × Device W)) (f g : A → M W B)
    → ((a : A) (d : Device W) → f a d ≡ g a d)
    → resume o f ≡ resume o g
resume-same (done (a, d)) f g same = same a d
resume-same aborted f g same = refl
resume-same out_of_fuel f g same = refl

-- The end of a round of the outer loop.
next_round : {W A : Type 0} → Bool → M W (ℤ × Option A) → Option (ℤ × Option A) → M W (ℤ × Option A)
next_round again next none = if again then next else return (pos 0, none)
next_round again next (some end) = return end

next_round-last :
    {W A : Type 0} (again : Bool) (next other : M W (ℤ × Option A))
    (stopped : Option (ℤ × Option A)) (d : Device W)
    → again ≡ false
    → next_round again next stopped d ≡ next_round again other stopped d
unfolding next_round
next_round-last again next other (some end) d e = refl
next_round-last again next other none d e =
    ap (λ b. (if b then next else return (pos 0, none)) d) e
    ∙ sym (ap (λ b. (if b then other else return (pos 0, none)) d) e)

module _ {W : Type 0} (transceive : Transceive W) where
  poll_forever-once :
      (fuel poll_nr : ℕ) (nms : List NfcModulation) (period : ℕ) (mem : List ℕ) (chip_junk : ℕ)
      (d : Device W)
      → (poll_nr == 0xff) ≡ false
      → poll_forever transceive (suc fuel) poll_nr nms period mem chip_junk d
        ≡ poll_forever transceive 1 poll_nr nms period mem chip_junk d
  unfolding poll_forever next_round
  poll_forever-once fuel poll_nr nms period mem chip_junk d finite =
      let next = poll_forever transceive fuel poll_nr nms period mem chip_junk in
      let other = poll_forever transceive 0 poll_nr nms period mem chip_junk in
      resume-same (sweeps transceive poll_nr nms period mem chip_junk d)
        (next_round (poll_nr == 0xff) next) (next_round (poll_nr == 0xff) other)
        λ stopped d1. next_round-last (poll_nr == 0xff) next other stopped d1 finite

  -- Unless the number of pollings is 0xff, the fuel of the outer loop does not matter: its body runs
  -- once.
  pub poll_target-once :
      (fuel poll_nr : ℕ) (nms : List NfcModulation) (period : ℕ) (mem : List ℕ) (chip_junk : ℕ)
      (d : Device W)
      → (poll_nr == 0xff) ≡ false
      → poll_target transceive (suc fuel) nms poll_nr period mem chip_junk d
        ≡ poll_target transceive 1 nms poll_nr period mem chip_junk d
  unfolding poll_target
  poll_target-once fuel poll_nr nms period mem chip_junk d finite = either (is_pn532 d.type) _ _ _ (
      resume-same (set_property_bool transceive np_infinite_select true d) _ _
        λ ignored d1. poll_forever-once fuel poll_nr nms period mem chip_junk d1 finite)
    where
      either :
          (b : Bool) (m k l : M W (ℤ × Option NfcTarget))
          → k d ≡ l d
          → (if b then m else k) d ≡ (if b then m else l) d
      either true m k l e = refl
      either false m k l e = e

  -- No target is the current one.
  abbrev pub NoTarget : {A : Type 0} → A → Device W → Type 0
  NoTarget a d = d.current_target ≡ none

  -- The chip's answers do not make one current.
  abbrev pub Silent : Type 0
  Silent =
      (tx : List ℕ) (room : ℕ) (timeout : ℤ) (d : Device W)
      → d.current_target ≡ none
      → Post NoTarget (transceive tx room timeout d)

  module _ (silent : Silent) where
    need-NoTarget :
        {A B : Type 0} (o : Option A) (f : A → B) (d : Device W)
        → d.current_target ≡ none
        → Post NoTarget (resume (need o d) (λ a. return (f a)))
    need-NoTarget none f d free = tt
    need-NoTarget (some a) f d free = free

    next_target-NoTarget :
        (mem : List ℕ) (d : Device W)
        → d.current_target ≡ none
        → Post NoTarget (next_target transceive mem d)
    unfolding next_target
    next_target-NoTarget mem d free =
        let nm = ptt_to_nm (find_type target_types (get_or mem 0 0)) in
        need-NoTarget (decode_target_data d.type nm.nmt (drop 2 mem) (get_or mem 1 0)) _ d free

    found_targets-NoTarget :
        (mem : List ℕ) (d : Device W)
        → d.current_target ≡ none
        → Post NoTarget (found_targets transceive mem d)
    unfolding found_targets
    found_targets-NoTarget mem d free =
        Post-if NoTarget (get_or mem 0 0 == 0) (return (pos 0, [])) _ d (λ e. free)
          λ e.
            Post-resume NoTarget NoTarget (next_target transceive (drop 1 mem) d) _
              (next_target-NoTarget (drop 1 mem) d free)
              λ (res, first, mem1) d1 free1.
                Post-if NoTarget (is_neg res) (return (res, first ∷ [])) _ d1 (λ f. free1)
                  λ f.
                    Post-if NoTarget (ltb 1 (get_or mem 0 0)) _
                      (return (pos (get_or mem 0 0), first ∷ [])) d1
                      (λ g.
                        Post-resume NoTarget NoTarget (next_target transceive mem1 d1) _
                          (next_target-NoTarget mem1 d1 free1) λ second d2 free2. free2)
                      λ g. free1

    in_auto_poll-NoTarget :
        (types : List Pn53xTargetType) (poll_nr period : ℕ) (mem : List ℕ) (timeout : ℤ)
        (d : Device W)
        → d.current_target ≡ none
        → Post NoTarget (in_auto_poll transceive types poll_nr period mem timeout d)
    unfolding in_auto_poll
    in_auto_poll-NoTarget types poll_nr period mem timeout d free =
        Post-if NoTarget (not (is_pn532 d.type)) _ _ d (λ e. free)
          λ e.
            Post-if NoTarget (ltb 15 (length types)) crash _ d (λ f. tt)
              λ f.
                let tx = 0x60 ∷ poll_nr ∷ period ∷ map ptt_code types in
                Post-resume NoTarget NoTarget (transceive tx max_data timeout d) _
                  (silent tx max_data timeout d free)
                  λ (res, rx) d1 free1.
                    Post-if NoTarget (is_neg res) (return (res, [])) _ d1 (λ g. free1)
                      λ g.
                        Post-if NoTarget (to_size res == 0) (return (pos 0, []))
                          (found_targets transceive (overlay 0 rx mem)) d1 (λ h. free1)
                          λ h. found_targets-NoTarget (overlay 0 rx mem) d1 free1

    keep_polled-NoTarget :
        (res : ℤ) (targets : List (Option NfcTarget)) (d : Device W)
        → d.current_target ≡ none
        → Post NoTarget (keep_polled transceive res targets d)
    unfolding keep_polled
    keep_polled-NoTarget res [] d free = free
    keep_polled-NoTarget res (first ∷ []) d free =
        Post-if NoTarget (same_result res (pos 1)) (return (res, first)) (return (nfc_echip, none))
          d (λ e. free) (λ e. free)
    keep_polled-NoTarget res (first ∷ second ∷ []) d free =
        Post-if NoTarget (same_result res (pos 2)) (return (res, second)) (return (nfc_echip, none))
          d (λ e. free) (λ e. free)
    keep_polled-NoTarget res (first ∷ second ∷ third ∷ more) d free = free

    poll_pn532-NoTarget :
        (nms : List NfcModulation) (poll_nr period : ℕ) (mem : List ℕ) (d : Device W)
        → d.current_target ≡ none
        → Post NoTarget (poll_pn532 transceive nms poll_nr period mem d)
    unfolding poll_pn532
    poll_pn532-NoTarget nms poll_nr period mem d free =
        elim (poll_types d.auto_iso14443_4 nms)
          as (λ types. Post NoTarget (
            elim types as (λ x. M W (ℤ × Option NfcTarget)) [
              | none ↦ (do res ← refuse nfc_einvarg; return (res, none))
              | some types ↦ (do
                (res, targets) ← in_auto_poll transceive types poll_nr period mem (pos 0)
                if is_neg res then return (res, none) else keep_polled transceive res targets)
            ]
              d)) [
                | none ↦ free
                | some types ↦
                    Post-resume NoTarget NoTarget
                      (in_auto_poll transceive types poll_nr period mem (pos 0) d) _
                      (in_auto_poll-NoTarget types poll_nr period mem (pos 0) d free)
                      λ (res, targets) d1 free1.
                        Post-if NoTarget (is_neg res) (return (res, none))
                          (keep_polled transceive res targets) d1 (λ f. free1)
                          (λ f. keep_polled-NoTarget res targets d1 free1)
              ]

  -- A PN532 that has no current target, and whose exchanges do not make one current, has none after a polling
  -- that returns, the target that the polling hands out included.
  pub poll_target-NoTarget :
      Silent
      → (fuel : ℕ) (nms : List NfcModulation) (poll_nr period : ℕ) (mem : List ℕ) (chip_junk : ℕ)
        (d : Device W)
      → is_pn532 d.type ≡ true
      → d.current_target ≡ none
      → Post NoTarget (poll_target transceive fuel nms poll_nr period mem chip_junk d)
  unfolding poll_target
  poll_target-NoTarget silent fuel nms poll_nr period mem chip_junk d chip free =
      Post-if NoTarget (is_pn532 d.type) (poll_pn532 transceive nms poll_nr period mem) _ d
        (λ e. poll_pn532-NoTarget silent nms poll_nr period mem d free) (λ e. absurd (ground arith))
