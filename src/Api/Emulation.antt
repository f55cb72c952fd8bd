-- ===== src/Api/Emulation.antt =====
-- How an emulation ends.
use libnfc.Prelude.{ℕ, zero, suc, ◌≡◌, true, List}
use libnfc.Prelude.Int.{ℤ, pos, is_neg}
use libnfc.Types.{NfcTarget}
use libnfc.Pn53x.Device.{Device}
use libnfc.Pn53x.Monad.{return}
use libnfc.Pn53x.Monad.Post.{Post, Post-if, Post-resume, Any, Post-Any}
use libnfc.Api.{Driver, nfc_target_init, emulate_round, emulate_loop, emulate_target}

abbrev pub Fails : {W : Type 0} → ℤ → Device W → Type 0
Fails res d = is_neg res ≡ true

module _ {W S : Type 0} (driver : Driver W) (io : S → List ℕ → ℤ × List ℕ × S) where
  emulate_loop-Fails :
      (fuel : ℕ) (s : S) (rx : List ℕ) (d : Device W)
      → Post Fails (emulate_loop driver io fuel s rx d)
  unfolding emulate_loop
  emulate_loop-Fails zero s rx d = tt
  emulate_loop-Fails (suc fuel) s rx d =
      let (io_res, tx, s') = io s rx in
      Post-if Fails (is_neg io_res) (return io_res) _ d (λ e. e)
        λ e.
          Post-resume Any Fails (emulate_round driver io_res tx d) _
            (Post-Any (emulate_round driver io_res tx d))
            λ (res, rx1) d1 any.
              Post-if Fails (is_neg res) (return res) (emulate_loop driver io fuel s' rx1) d1
                (λ f. f) (λ f. emulate_loop-Fails fuel s' rx1 d1)

  -- Whatever the state machine and the driver do, an emulation that returns gives a negative result:
  -- the error of the driver, or what the state machine ended with.
  emulate_target-Fails :
      (fuel : ℕ) (s : S) (nt : NfcTarget) (d : Device W)
      → Post Fails (emulate_target driver io fuel s nt d)
  unfolding emulate_target
  emulate_target-Fails fuel s nt d =
      Post-resume Any Fails (nfc_target_init driver nt 258 (pos 0) d) _
        (Post-Any (nfc_target_init driver nt 258 (pos 0) d))
        λ (res, rx) d1 any.
          Post-if Fails (is_neg res) (return res) (emulate_loop driver io fuel s rx) d1 (λ e. e)
            (λ e. emulate_loop-Fails fuel s rx d1)
