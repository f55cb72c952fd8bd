-- ===== src/Pn53x/Target/Laws.antt =====
-- What an activation of the emulated target leaves, and the size of what the initiator sent first.
use libnfc.Prelude.{ℕ, zero, suc, ◌+◌, ◌-◌, ◌^◌, ◌<◌, ◌≤◌, ◌≡◌, refl, arith, ◌⊎◌, inl, inr}
use libnfc.Prelude.{
  Bool, true, false, not, ◌&&◌, ◌||◌, Option, none, some, List, [], ltb, ◌==◌, length, bit_and,
}
use libnfc.Prelude.Int.{ℤ, pos, is_neg, to_size}
use libnfc.Types.{NfcTarget}
use libnfc.Pn53x.Device.{Device, nfc_etimeout, same_result, target}
use libnfc.Pn53x.Initiator.{wrap}
use libnfc.Pn53x.Monad.{M, done, aborted, resume, ◌>>=◌, return, need, Transceive}
use libnfc.Pn53x.Monad.Post.{Post, Post-if, Post-resume, Any, Post-Any}
use libnfc.Pn53x.Properties.{reset_settings, go_idle, ciu_tx_auto}
use libnfc.Pn53x.Registers.{max_data, write_register}
use libnfc.Pn53x.Select.{current_target_new}
use libnfc.Pn53x.Target.{
  TargetParams, tg_init_command, tg_init_as_target, is_wanted, activate, activation, await,
  target_init, target_params, choose_mode, nbr_code, activated_rate,
}

-- An activated target has the modulation that was asked for, its baud rate if one was asked for, and
-- it is the current one.
abbrev pub Activated : {W : Type 0} → NfcTarget → ℤ × List ℕ × Option NfcTarget → Device W → Type 0
Activated asked (res, rx, none) d = Unit
Activated asked (res, rx, some nt) d =
    (nt.nm.nmt ≡ asked.nm.nmt)
    × ((nbr_code asked.nm.nbr ≡ 0) ⊎ (nbr_code nt.nm.nbr ≡ nbr_code asked.nm.nbr))
    × (d.current_target ≡ some nt)

second_of : (a b c : Bool) → (a && b && c) ≡ true → b ≡ true
second_of true true c e = refl
second_of true false c e = e
second_of false true c e = refl
second_of false false c e = e

either_rate : (asked got : ℕ) → (asked == 0 || asked == got) ≡ true → (asked ≡ 0) ⊎ (got ≡ asked)
either_rate asked got e =
    elim (asked == 0) as (λ b. (asked == 0) ≡ b → (asked ≡ 0) ⊎ (got ≡ asked)) [
      | true ↦ λ zero_rate. inl (ground arith)
      | false ↦ λ other. inr (ground arith)
    ]
      refl

module _ {W : Type 0} (transceive : Transceive W) where
  activation-Activated :
      (nt : NfcTarget) (p : TargetParams) (size : ℕ) (rx : List ℕ) (mode : ℕ) (d : Device W)
      → is_wanted nt mode ≡ true
      → Post (Activated nt) (activation transceive nt p size rx mode d)
  unfolding activation activate current_target_new is_wanted
  activation-Activated nt p size rx mode d wanted =
      let rate = second_of _ _ _ wanted in
      let kept : (nbr_code nt.nm.nbr ≡ 0) ⊎ (nbr_code (activated_rate mode) ≡ nbr_code nt.nm.nbr) =
        either_rate (nbr_code nt.nm.nbr) (nbr_code (activated_rate mode)) rate in
      Post-if (Activated nt) (not (bit_and p.ptm 0x04 == 0)) _ _ _ (λ e. (refl, kept, refl))
        (λ e. (refl, kept, refl))

  await-Activated :
      (fuel : ℕ) (nt : NfcTarget) (p : TargetParams) (room : ℕ) (mem : List ℕ) (timeout : ℤ)
      (d : Device W)
      → Post (Activated nt) (await transceive fuel nt p room mem timeout d)
  unfolding await
  await-Activated zero nt p room mem timeout d = tt
  await-Activated (suc fuel) nt p room mem timeout d =
      Post-resume Any (Activated nt) (tg_init_as_target transceive p room mem timeout d) _
        (Post-Any (tg_init_as_target transceive p room mem timeout d))
        λ (res, rx, mode) d1 any.
          Post-if (Activated nt) (same_result res nfc_etimeout)
            (do idle ← go_idle transceive; return (idle, rx, none)) _ d1
            (λ e.
              Post-resume Any (Activated nt) (go_idle transceive d1)
                (λ idle. return (idle, rx, none)) (Post-Any (go_idle transceive d1))
                λ idle d2 any2. tt)
            λ e.
              Post-if (Activated nt) (is_neg res) (return (res, rx, none)) _ d1 (λ f. tt)
                λ f.
                  Post-if (Activated nt) (is_wanted nt mode)
                    (activation transceive nt p (to_size res) rx mode)
                    (await transceive fuel nt p room mem timeout) d1
                    (λ wanted. activation-Activated nt p (to_size res) rx mode d1 wanted)
                    (λ other. await-Activated fuel nt p room mem timeout d1)

  need-Activated :
      {A : Type 0} (nt : NfcTarget) (o : Option A) (k : A → M W (ℤ × List ℕ × Option NfcTarget))
      (d : Device W)
      → ((a : A) → Post (Activated nt) (k a d))
      → Post (Activated nt) (resume (need o d) k)
  need-Activated nt none k d next = tt
  need-Activated nt (some a) k d next = next a

  -- When `pn53x_target_init` returns with an activated target, that target has the modulation that
  -- was asked for and, unless the baud rate was left open, the baud rate that was asked for, and it
  -- is the current target of the device, for any number of activations before it.
  pub target_init-Activated :
      (fuel : ℕ) (nt : NfcTarget) (room : ℕ) (mem : List ℕ) (timeout : ℤ) (d : Device W)
      → Post (Activated nt) (target_init transceive fuel nt room mem timeout d)
  unfolding target_init
  target_init-Activated fuel nt room mem timeout d =
      Post-resume Any (Activated nt) (reset_settings transceive d) _
        (Post-Any (reset_settings transceive d))
        λ ignored d1 any1.
          let d2 : Device W = record d1 { operating_mode = target } in
          Post-resume Any (Activated nt) (choose_mode transceive nt d2) _
            (Post-Any (choose_mode transceive nt d2))
            λ (chosen, ptm) d3 any3.
              Post-if (Activated nt) (is_neg chosen) (return (chosen, [], none)) _ d3 (λ e. tt)
                λ e.
                  Post-resume Any (Activated nt)
                    (write_register transceive ciu_tx_auto 0x04 0x04 d3) _
                    (Post-Any (write_register transceive ciu_tx_auto 0x04 0x04 d3))
                    λ res d4 any4.
                      Post-if (Activated nt) (is_neg res) (return (res, [], none)) _ d4 (λ f. tt)
                        λ f.
                          need-Activated nt (target_params ptm nt)
                            (λ p. await transceive fuel nt p room mem timeout) d4
                            λ p. await-Activated fuel nt p room mem timeout d4

  -- Of a command that fits in its buffer: an answer with two bytes more than the buffer for them has
  -- room, its mode byte included, passes the test of its size and is written past that buffer.
  pub tg_init_as_target-overrun :
      (p : TargetParams) (room : ℕ) (mem rx : List ℕ) (timeout : ℤ) (d d1 : Device W)
      → length (tg_init_command d.type p) ≤ 134
      → room + 2 < 2 ^ 64
      → transceive (tg_init_command d.type p) max_data timeout d ≡ done ((pos (room + 2), rx), d1)
      → tg_init_as_target transceive p room mem timeout d ≡ aborted
  unfolding tg_init_as_target
  tg_init_as_target-overrun p room mem rx timeout d d1 short small answer =
      let fits : ltb 134 (length (tg_init_command d.type p)) ≡ false = ground arith in
      let size : wrap (room + 2 + 2 ^ 64 - 1) ≡ room + 1 = omega arith in
      let less : wrap (room + 1 + 2 ^ 64 - 1) ≡ room = omega arith in
      let passes : ltb room room ≡ false = ground arith in
      let overrun : ltb room (room + 1) ≡ true = ground arith in
      rw (fits, answer) (rw size (rw (less, passes, overrun) refl))
