-- ===== src/Api/Polling.antt =====
-- The functions of libnfc/nfc.c that wait for a target, and those that they call.
use libnfc.Prelude.{ℕ, zero, suc, ◌+◌, ◌-◌, ◌*◌, ◌≤◌, ◌≡◌, ◌⊎◌, inl, inr, refl, arith}
use libnfc.Prelude.{Bool, true, false, not, ◌&&◌, Option, List, leb, ltb, if◌then◌else◌, Bool-cases}
use libnfc.Prelude.Int.{ℤ, pos, negsuc, is_neg}
use libnfc.Types.{
  NfcProperty, np_infinite_select, NfcModulation, NfcTarget, NfcDepMode, NfcDepInfo, NfcBaudRate,
}
use libnfc.Pn53x.Device.{Device, nfc_etimeout, same_result}
use libnfc.Pn53x.Monad.{M, ◌>>=◌, return, out_of_fuel}
use libnfc.Pn53x.Monad.Post.{Returns, Returns-if, Returns-resume, Any}
use libnfc.Api.{Driver, with_driver, set_bool}

-- `remaining_time -= period`, and its test against zero.
abbrev pub less_period : ℤ → ℤ
less_period (pos n) = if leb 300 n then pos (n - 300) else negsuc (299 - n)
less_period (negsuc n) = negsuc (n + 300)

abbrev pub is_left : ℤ → Bool
is_left (pos n) = ltb 0 n
is_left (negsuc n) = false

module _ {W : Type 0} (driver : Driver W) where
  -- `nfc_device_set_property_int`
  unfoldable pub set_int : NfcProperty → ℤ → M W ℤ
  set_int p value = with_driver driver.set_property_int (pos 0) (λ f. f p value)

  -- `nfc_initiator_poll_target`
  unfoldable pub nfc_poll_target : List NfcModulation → ℕ → ℕ → NfcTarget → M W (ℤ × NfcTarget)
  nfc_poll_target nms poll_nr period nt =
      with_driver driver.poll_target (pos 0, nt) (λ f. f nms poll_nr period nt)

  -- `nfc_initiator_deselect_target`
  unfoldable pub nfc_deselect_target : M W ℤ
  nfc_deselect_target = with_driver driver.deselect_target (pos 0) (λ f. f)

  module _ (ndm : NfcDepMode) (nbr : NfcBaudRate) (ndi : Option NfcDepInfo) where
    -- `nfc_initiator_select_dep_target`
    unfoldable pub nfc_select_dep_target : Option NfcTarget → ℤ → M W (ℤ × Option NfcTarget)
    nfc_select_dep_target nt timeout =
        with_driver driver.select_dep_target (pos 0, nt) (λ f. f ndm nbr ndi nt timeout)

    -- The loop of `nfc_initiator_poll_dep_target`, with the time that is left.
    unfoldable pub poll_dep_loop : ℕ → ℤ → Option NfcTarget → M W (ℤ × Option NfcTarget)
    unfolding nfc_select_dep_target
    poll_dep_loop zero left nt = if is_left left then (λ d. out_of_fuel) else return (pos 0, nt)
    poll_dep_loop (suc fuel) left nt =
        let next = poll_dep_loop fuel (less_period left) in
        if not (is_left left) then return (pos 0, nt) else (do
          (res, nt) ← nfc_select_dep_target nt (pos 300)
          if is_neg res && not (same_result res nfc_etimeout)
              then return (res, nt)
              else if same_result res (pos 1)
              then return (res, nt)
              else next nt)

    -- `nfc_initiator_poll_dep_target`
    unfoldable pub nfc_poll_dep_target : ℕ → Option NfcTarget → ℤ → M W (ℤ × Option NfcTarget)
    unfolding set_bool poll_dep_loop
    nfc_poll_dep_target fuel nt timeout = do
      res ← set_bool driver np_infinite_select true
      if is_neg res then return (res, nt) else poll_dep_loop fuel timeout nt

-- One target, none, or an error.
abbrev pub Polled : {W : Type 0} → ℤ × Option NfcTarget → Device W → Type 0
Polled (res, nt) d = (res ≡ pos 0) ⊎ ((res ≡ pos 1) ⊎ (is_neg res ≡ true))

is_one : (res : ℤ) → same_result res (pos 1) ≡ true → res ≡ pos 1
is_one (pos n) e = let one : n ≡ 1 = ground arith in rw one refl
is_one (negsuc n) e = cc

both-left : (a b : Bool) → (a && b) ≡ true → a ≡ true
both-left true b e = refl
both-left false b e = e

module _ {W : Type 0} (driver : Driver W) (ndm : NfcDepMode) (nbr : NfcBaudRate)
    (ndi : Option NfcDepInfo)
    (sets : (d : Device W) → Returns Any (set_bool driver np_infinite_select true d))
    (selects : (nt : Option NfcTarget) (d : Device W)
      → Returns Any (nfc_select_dep_target driver ndm nbr ndi nt (pos 300) d)) where
  poll_dep_loop-over :
      (fuel n : ℕ) (nt : Option NfcTarget) (d : Device W)
      → Returns Polled (poll_dep_loop driver ndm nbr ndi fuel (negsuc n) nt d)
  unfolding poll_dep_loop
  poll_dep_loop-over zero n nt d = inl refl
  poll_dep_loop-over (suc fuel) n nt d = inl refl

  poll_dep_loop-Returns :
      (fuel n : ℕ) (nt : Option NfcTarget) (d : Device W)
      → n ≤ 300 * fuel
      → Returns Polled (poll_dep_loop driver ndm nbr ndi fuel (pos n) nt d)
  unfolding poll_dep_loop
  poll_dep_loop-Returns zero n nt d enough =
      let over : ltb 0 n ≡ false = ground arith in rw over (inl refl)
  poll_dep_loop-Returns (suc fuel) n nt d enough =
      let next : (nt : Option NfcTarget) (d : Device W)
          → Returns Polled (poll_dep_loop driver ndm nbr ndi fuel (less_period (pos n)) nt d) =
        (λ nt d. elim (Bool-cases (leb 300 n)) [
          | inl more ↦ rw more (poll_dep_loop-Returns fuel (n - 300) nt d (omega arith))
          | inr last ↦ rw last (poll_dep_loop-over fuel (299 - n) nt d)
        ]) in
      Returns-if Polled (not (ltb 0 n)) _ _ d (λ e. inl refl)
        λ e. Returns-resume Any Polled _ _ (selects nt d) λ (res, nt1) d1 any.
          Returns-if Polled (is_neg res && not (same_result res nfc_etimeout)) _ _ d1
            (λ f. inr (inr (both-left (is_neg res) _ f)))
            λ f.
              Returns-if Polled (same_result res (pos 1)) _ _ d1 (λ g. inr (inl (is_one res g)))
                (λ g. next nt1 d1)

  -- Over a driver whose functions return, a polling for a D.E.P. target returns within the fuel of one
  -- attempt for every 300 milliseconds of the timeout: with one target, with none, or with an error.
  pub nfc_poll_dep_target-Returns :
      (fuel timeout : ℕ) (nt : Option NfcTarget) (d : Device W)
      → timeout ≤ 300 * fuel
      → Returns Polled (nfc_poll_dep_target driver ndm nbr ndi fuel nt (pos timeout) d)
  unfolding nfc_poll_dep_target
  nfc_poll_dep_target-Returns fuel timeout nt d enough =
      Returns-resume Any Polled _ _ (sets d) λ res d1 any.
        Returns-if Polled (is_neg res) _ _ d1 (λ e. inr (inr e))
          (λ e. poll_dep_loop-Returns fuel timeout nt d1 enough)
