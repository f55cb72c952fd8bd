-- ===== src/Pn53x/Initiator/Bounds.antt =====
-- The caller's buffer holds what an exchange of bytes returns.
use libnfc.Prelude.{ℕ, ◌+◌, ◌-◌, ◌^◌, ◌≤◌, ◌≡◌, refl, arith, Bool, true, false, some}
use libnfc.Prelude.{List, [], ◌∷◌, ltb, not, if◌then◌else◌, length, drop, length-take}
use libnfc.Prelude.Int.{ℤ, pos, negsuc, is_neg, to_size}
use libnfc.Pn53x.Device.{Device, nfc_einvarg, nfc_eovflow}
use libnfc.Pn53x.Monad.{
  M, crash, Outcome, done, aborted, out_of_fuel, resume, return, Reply, Transceive,
}
use libnfc.Pn53x.Initiator.{transceive_bytes, copy_answer, fail_with, wrap}
use libnfc.Pn53x.Properties.{set_tx_bits}
use libnfc.Pn53x.Registers.{max_data}

-- A result is an error, or a count for which the buffer has room, with no more bytes than the count.
abbrev pub FitsReply : ℕ → ℤ → List ℕ → Type 0
FitsReply capacity (pos n) rx = (n ≤ capacity) × (length rx ≤ n)
FitsReply capacity (negsuc n) rx = Unit

abbrev pub Fits : {W : Type 0} → ℕ → Outcome (Reply × Device W) → Type 0
Fits capacity (done ((res, rx), d)) = FitsReply capacity res rx
Fits capacity aborted = Unit
Fits capacity out_of_fuel = Unit

choose :
    {W : Type 0} (capacity : ℕ) (b : Bool) (m k : M W Reply) (d : Device W)
    → (b ≡ true → Fits capacity (m d))
    → (b ≡ false → Fits capacity (k d))
    → Fits capacity ((if b then m else k) d)
choose capacity true m k d hm hk = hm refl
choose capacity false m k d hm hk = hk refl

resume-Fits :
    {W A : Type 0} (capacity : ℕ) (o : Outcome (A × Device W)) (f : A → M W Reply)
    → ((a : A) (d : Device W) → Fits capacity (f a d))
    → Fits capacity (resume o f)
resume-Fits capacity (done (a, d)) f h = h a d
resume-Fits capacity aborted f h = tt
resume-Fits capacity out_of_fuel f h = tt

fail_with-Fits :
    {W : Type 0} (transceive : Transceive W) (capacity : ℕ) (res : ℤ) (d : Device W)
    → is_neg res ≡ true
    → Fits capacity (fail_with transceive res d)
unfolding fail_with
fail_with-Fits transceive capacity (pos n) d h = absurd (ground (arith, h))
fail_with-Fits transceive capacity (negsuc n) d h = tt

copy_answer-Fits :
    {W : Type 0} (transceive : Transceive W) (capacity res : ℕ) (rx : List ℕ) (d : Device W)
    → Fits capacity (copy_answer transceive (some capacity) res rx d)
unfolding copy_answer
copy_answer-Fits transceive capacity res rx d =
    let count = wrap (res + 2 ^ 64 - 1) in
    choose capacity (ltb capacity count) (return (nfc_eovflow, [])) _ d (λ h. tt)
      λ h. (ground (arith, h), omega (arith, length-take count (drop 1 rx)))

-- Whatever the chip answers, when an exchange of bytes into a buffer of `capacity` bytes returns a
-- count, the count is at most the capacity, and at most that many bytes are written.
pub transceive_bytes-Fits :
    {W : Type 0} (transceive : Transceive W) (tx : List ℕ) (capacity : ℕ) (timeout : ℤ)
    (d : Device W)
    → Fits capacity (transceive_bytes transceive tx (some capacity) timeout d)
unfolding transceive_bytes
transceive_bytes-Fits transceive tx capacity timeout d =
    let cmd = if d.easy_framing then 0x40 ∷ 0x01 ∷ tx else 0x42 ∷ tx in
    choose capacity (not d.par) (fail_with transceive nfc_einvarg) _ d
      (λ h. fail_with-Fits transceive capacity nfc_einvarg d refl)
      λ h.
        choose capacity (ltb max_data (length cmd)) crash _ d (λ h. tt)
          λ h. resume-Fits capacity (set_tx_bits transceive 0 d) _ λ reset d1.
            choose capacity (is_neg reset) (fail_with transceive reset) _ d1
              (fail_with-Fits transceive capacity reset d1)
              λ h. resume-Fits capacity (transceive cmd max_data timeout d1) _ λ (res, rx) d2.
                choose capacity (is_neg res) (fail_with transceive res)
                  (copy_answer transceive (some capacity) (to_size res) rx) d2
                  (fail_with-Fits transceive capacity res d2)
                  λ h. copy_answer-Fits transceive capacity (to_size res) rx d2
