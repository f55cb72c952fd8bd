-- ===== src/Utils/Mfclassic/State.antt =====
-- The global variables of utils/nfc-mfclassic.c, and how its functions run.
use libnfc.Prelude.{ℕ, ◌≡◌, ap, Bool, true, false, List, if◌then◌else◌}
use libnfc.Types.{NfcIso14443aInfo}

-- `nai` is what `nt` holds, `mp` the bytes of the union `mifare_param`. A dump gives the 16 bytes of
-- each block.
pub record State (W : Type 0) : Type 0 where
  pub reader : W
  pub nai : NfcIso14443aInfo
  pub mp : List ℕ
  pub keys_dump : ℕ → List ℕ
  pub dump : ℕ → List ℕ
  pub use_key_a : Bool
  pub use_key_file : Bool
  pub blocks : ℕ

-- `exited` is `exit(EXIT_FAILURE)`, and `overrun` a read or write outside of an array.
pub data End (W A : Type 0) : Type 0 where
  ended : A → State W → End W A
  exited : State W → End W A
  overrun : End W A

abbrev pub Run : Type 0 → Type 0 → Type 0
Run W A = State W → End W A

abbrev pub continue : {W A B : Type 0} → End W A → (A → Run W B) → End W B
continue (ended a st) f = f a st
continue (exited st) f = exited st
continue overrun f = overrun

infixl 5 ◌>>=◌ ◌>>◌
abbrev pub ◌>>=◌ : {W A B : Type 0} → Run W A → (A → Run W B) → Run W B
◌>>=◌ m f st = continue (m st) f

abbrev pub ◌>>◌ : {W A B : Type 0} → Run W A → Run W B → Run W B
m >> k = m >>= λ _. k

abbrev pub return : {W A : Type 0} → A → Run W A
return a st = ended a st

abbrev pub get : {W : Type 0} → Run W (State W)
get st = ended st st

abbrev pub modify : {W : Type 0} → (State W → State W) → Run W (Unit {0})
modify f st = ended tt (f st)

abbrev pub exit_failure : {W A : Type 0} → Run W A
exit_failure st = exited st

abbrev pub out_of_bounds : {W A : Type 0} → Run W A
out_of_bounds st = overrun

-- The branch that is taken.
pub if-true :
    {W A : Type 0} (b : Bool) (m k : Run W A) (st : State W)
    → b ≡ true
    → (if b then m else k) st ≡ m st
if-true b m k st e = ap (λ c. (if c then m else k) st) e

pub if-false :
    {W A : Type 0} (b : Bool) (m k : Run W A) (st : State W)
    → b ≡ false
    → (if b then m else k) st ≡ k st
if-false b m k st e = ap (λ c. (if c then m else k) st) e
