-- ===== src/Pn53x/Transceive/Fuel.antt =====
-- Writing the cache back calls `pn53x_transceive` again, and that call finds the cache clean: the
-- recursion is two deep.
use libnfc.Prelude.{ℕ, suc, ◌≡◌, refl, arith, ap, sym, subst, ◌∙◌, true, false, List, ◌∷◌}
use libnfc.Prelude.{ltb, length, ◌==◌, get_or, if◌then◌else◌}
use libnfc.Prelude.{Option, none, some, Bool}
use libnfc.Prelude.Int.{ℤ, negsuc, is_neg}
use libnfc.Pn53x.Device.{Device, powerdown, same_result}
use libnfc.Pn53x.Monad.{Outcome, done, aborted, out_of_fuel, M, resume, Io}
use libnfc.Pn53x.Registers.{read_pending, write_pending, writeback_register, max_data}
use libnfc.Pn53x.Registers.{
  read_addresses, write_values, clear_full, read_register_code, write_register_code,
}
use libnfc.Pn53x.Transceive.{
  sleeps, take_answer, exchange, after_writeback, transceive, take_status,
}

abbrev pub IsClean : {W : Type 0} → Device W → Type 0
IsClean d = d.wb_trigged ≡ false

-- The run came to its end (a result, or `abort()`), and the cache is clean at it.
abbrev pub Ends : {W A : Type 0} → Outcome (A × Device W) → Type 0
Ends (done (a, d)) = IsClean d
Ends aborted = Unit
Ends out_of_fuel = ⊥

-- The driver's functions do not write to the cache.
pub record LeavesCache {W : Type 0} (io : Io W) : Type 0 where
  pub send_clean :
      (d : Device W) (tx : List ℕ) (timeout : ℤ) → IsClean d → IsClean (io.send d tx timeout).1
  pub receive_clean :
      (d : Device W) (size : ℕ) (timeout : ℤ) → IsClean d → IsClean (io.receive d size timeout).2

take_status-IsClean :
    {W : Type 0} (status received : ℕ) (d : Device W)
    → IsClean d
    → IsClean (take_status status received d).1
unfolding take_status
take_status-IsClean status received d h = ground arith

if-Ends :
    {W A : Type 0} (b : Bool) (x y : Outcome (A × Device W))
    → Ends x
    → Ends y
    → Ends (if b then x else y)
if-Ends true x y hx hy = hx
if-Ends false x y hx hy = hy

take_answer-Ends :
    {W : Type 0} (status : Option ℕ) (received : ℕ) (rx : List ℕ) (d : Device W)
    → IsClean d
    → Ends (take_answer status received rx d)
unfolding take_answer
take_answer-Ends none received rx d h = tt
take_answer-Ends (some status) received rx d h = take_status-IsClean status received d h

if_run-Ends :
    {W A : Type 0} (b : Bool) (m k : M W A) (d : Device W)
    → Ends (m d)
    → Ends (k d)
    → Ends ((if b then m else k) d)
if_run-Ends true m k d hm hk = hm
if_run-Ends false m k d hm hk = hk

-- Two runs that agree go on in the same way.
if-agree :
    {W A : Type 0} (b : Bool) (m m' k k' : M W A) (d : Device W)
    → m d ≡ m' d
    → k d ≡ k' d
    → (if b then m else k) d ≡ (if b then m' else k') d
if-agree true m m' k k' d e e' = e
if-agree false m m' k k' d e e' = e'

resume-same :
    {W A B : Type 0} (o o' : Outcome (A × Device W)) (f : A → M W B)
    → o ≡ o'
    → resume o f ≡ resume o' f
resume-same o o' f e = ap (λ o. resume o f) e

resume-agree :
    {W A B : Type 0} (o : Outcome (A × Device W)) (f g : A → M W B)
    → Ends o
    → ((a : A) (d : Device W) → IsClean d → f a d ≡ g a d)
    → resume o f ≡ resume o g
resume-agree (done (a, d)) f g h same = same a d h
resume-agree aborted f g h same = refl
resume-agree out_of_fuel f g h same = refl

resume-Ends :
    {W A B : Type 0} (o : Outcome (A × Device W)) (f : A → M W B)
    → Ends o
    → ((a : A) (d : Device W) → IsClean d → Ends (f a d))
    → Ends (resume o f)
resume-Ends (done (a, d)) f h ends = ends a d h
resume-Ends aborted f h ends = tt
resume-Ends out_of_fuel f h ends = h

module _ {W : Type 0} (io : Io W) (leaves : LeavesCache io) where
  exchange-Ends :
      (tx : List ℕ) (n : ℕ) (timeout : ℤ) (d : Device W)
      → IsClean d
      → Ends (exchange io tx n timeout d)
  unfolding exchange
  exchange-Ends tx n timeout d h =
      let timeout' = if same_result timeout (negsuc 0) then d.timeout_command else timeout in
      let (sent, d1) = io.send d tx timeout' in
      let clean = leaves.send_clean d tx timeout' h in
      if-Ends (is_neg sent) _ _ clean (
        let d2 = record d1 {
          last_command = get_or tx 0 0;
          power_mode = if sleeps d1 (get_or tx 0 0) then powerdown else d1.power_mode;
        } in
        let size = if n == 0 then max_data else n in
        let (got, rx, d3) = io.receive d2 size timeout' in
        let clean' = leaves.receive_clean d2 size timeout' clean in
        if-Ends (is_neg got) _ _ clean' (take_answer-Ends _ _ rx _ clean'))

  -- A call that finds the cache clean.
  transceive-clean :
      (fuel : ℕ) (tx : List ℕ) (n : ℕ) (timeout : ℤ) (d : Device W)
      → IsClean d
      → transceive io (suc fuel) tx n timeout d ≡ exchange io tx n timeout d
  unfolding transceive after_writeback
  transceive-clean fuel tx n timeout d h =
      ap
        (λ b.
          after_writeback b (writeback_register (transceive io fuel)) (exchange io tx n timeout) d)
        h

  read_pending-eq :
      (fuel : ℕ) (d : Device W)
      → read_pending (transceive io (suc fuel)) d ≡ read_pending (exchange io) d
  unfolding read_pending
  read_pending-eq fuel d =
      let cmd = read_register_code ∷ read_addresses 0 d.wb_mask in
      let cleared = record d { wb_trigged = false } in
      if-agree (ltb 1 (length cmd)) _ _ _ _ cleared
        (resume-same _ _ _ (transceive-clean fuel cmd max_data (negsuc 0) cleared refl)) refl

  read_pending-Ends : (d : Device W) → Ends (read_pending (exchange io) d)
  unfolding read_pending
  read_pending-Ends d =
      let cmd = read_register_code ∷ read_addresses 0 d.wb_mask in
      let cleared = record d { wb_trigged = false } in
      if_run-Ends (ltb 1 (length cmd)) _ _ cleared
        (resume-Ends _ _ (exchange-Ends cmd max_data (negsuc 0) cleared refl)
          λ (res, rx) d' h. if_run-Ends (is_neg res) _ _ d' h h)
        refl

  write_pending-eq :
      (fuel : ℕ) (d : Device W)
      → IsClean d
      → write_pending (transceive io (suc fuel)) d ≡ write_pending (exchange io) d
  unfolding write_pending
  write_pending-eq fuel d h =
      let cmd = write_register_code ∷ write_values 0 d.wb_data d.wb_mask in
      let cleared = record d { wb_mask = clear_full d.wb_mask } in
      if-agree (ltb 1 (length cmd)) _ _ _ _ cleared
        (resume-same _ _ _ (transceive-clean fuel cmd 0 (negsuc 0) cleared h)) refl

  write_pending-Ends : (d : Device W) → IsClean d → Ends (write_pending (exchange io) d)
  unfolding write_pending
  write_pending-Ends d h =
      let cmd = write_register_code ∷ write_values 0 d.wb_data d.wb_mask in
      let cleared = record d { wb_mask = clear_full d.wb_mask } in
      if_run-Ends (ltb 1 (length cmd)) _ _ cleared
        (resume-Ends _ _ (exchange-Ends cmd 0 (negsuc 0) cleared h)
          λ (res, rx) d' h'. if_run-Ends (is_neg res) _ _ d' h' h')
        h

  writeback_register-eq :
      (fuel : ℕ) (d : Device W)
      → writeback_register (transceive io (suc fuel)) d ≡ writeback_register (exchange io) d
  unfolding writeback_register
  writeback_register-eq fuel d =
      resume-same _ _ _ (read_pending-eq fuel d)
      ∙ resume-agree (read_pending (exchange io) d) _ _ (read_pending-Ends d)
          λ res d' h. if-agree (is_neg res) _ _ _ _ d' refl (write_pending-eq fuel d' h)

  writeback_register-Ends : (d : Device W) → Ends (writeback_register (exchange io) d)
  unfolding writeback_register
  writeback_register-Ends d =
      resume-Ends (read_pending (exchange io) d) _ (read_pending-Ends d)
        λ res d' h. if_run-Ends (is_neg res) _ _ d' h (write_pending-Ends d' h)

  -- When the driver leaves the cache alone, a command is the write-back, if a write to a cached register triggered it, and then one
  -- exchange with the chip; the write-back itself is made of exchanges. Two is fuel enough.
  pub transceive-two_deep :
      (fuel : ℕ) (tx : List ℕ) (n : ℕ) (timeout : ℤ) (d : Device W)
      → transceive io (suc (suc fuel)) tx n timeout d
        ≡ after_writeback d.wb_trigged
            (writeback_register (exchange io))
            (exchange io tx n timeout)
            d
  unfolding transceive after_writeback
  transceive-two_deep fuel tx n timeout d = go d.wb_trigged
    where
      go :
          (b : Bool)
          → after_writeback b
              (writeback_register (transceive io (suc fuel)))
              (exchange io tx n timeout)
              d
            ≡ after_writeback b (writeback_register (exchange io)) (exchange io tx n timeout) d
      go true = resume-same _ _ _ (writeback_register-eq fuel d)
      go false = refl

  -- From any device, with the driver leaving the cache alone, a command of two or more units of
  -- fuel comes to an end, and wherever it returns no write is left that would trigger a write-back.
  pub transceive-Ends :
      (fuel : ℕ) (tx : List ℕ) (n : ℕ) (timeout : ℤ) (d : Device W)
      → Ends (transceive io (suc (suc fuel)) tx n timeout d)
  unfolding after_writeback
  transceive-Ends fuel tx n timeout d =
      subst Ends (sym (transceive-two_deep fuel tx n timeout d)) (go d.wb_trigged refl)
    where
      go :
          (b : Bool)
          → d.wb_trigged ≡ b
          → Ends (after_writeback b (writeback_register (exchange io)) (exchange io tx n timeout) d)
      go true e =
          resume-Ends (writeback_register (exchange io) d) _ (writeback_register-Ends d)
            λ res d' h. if_run-Ends (is_neg res) _ _ d' h (exchange-Ends tx n timeout d' h)
      go false e = exchange-Ends tx n timeout d e
