-- ===== src/Pn53x/Monad.antt =====
-- How the operations of a PN53x device run: each takes the device and gives its result with the
-- device that it leaves. `aborted` is `abort()` or an access outside of a buffer, and `out_of_fuel`
-- stands for a recursion deeper than the fuel that the model gives it.
pub mod Post
use libnfc.Prelude.{ℕ, List, Option, none, some, if◌then◌else◌}
use libnfc.Prelude.Int.{ℤ, is_neg}
use libnfc.Pn53x.Device.{Device}

pub data Outcome (A : Type 0) : Type 0 where
  done : A → Outcome A
  aborted : Outcome A
  out_of_fuel : Outcome A

abbrev pub M : Type 0 → Type 0 → Type 0
M W A = Device W → Outcome (A × Device W)

-- What is left of a run goes on from a result; an end without a result stays one.
abbrev pub resume : {W A B : Type 0} → Outcome (A × Device W) → (A → M W B) → Outcome (B × Device W)
resume (done (a, d)) f = f a d
resume aborted f = aborted
resume out_of_fuel f = out_of_fuel

infixl 5 ◌>>=◌ ◌>>◌
abbrev pub ◌>>=◌ : {W A B : Type 0} → M W A → (A → M W B) → M W B
◌>>=◌ m f d = resume (m d) f

abbrev pub ◌>>◌ : {W A B : Type 0} → M W A → M W B → M W B
m >> k = m >>= λ _. k

abbrev pub return : {W A : Type 0} → A → M W A
return a d = done (a, d)

-- An access outside of a buffer, and a value that there is only without one.
abbrev pub crash : {W A : Type 0} → M W A
crash d = aborted

abbrev pub need : {W A : Type 0} → Option A → M W A
need none = crash
need (some a) = return a

-- A read of the device, and a change of it.
abbrev pub get : {W : Type 0} → M W (Device W)
get d = done (d, d)

abbrev pub modify : {W : Type 0} → (Device W → Device W) → M W (Unit {0})
modify f d = done (tt, f d)

-- `if ((res = m) < 0) return res;` in front of the rest.
abbrev pub try : {W : Type 0} → M W ℤ → M W ℤ → M W ℤ
try m rest = m >>= λ res. if is_neg res then return res else rest

-- A result and the content of the receive buffer after the call.
abbrev pub Reply : Type 0
Reply = ℤ × List ℕ

-- `pn53x_transceive` as its callers see it: the command, the size of the receive buffer (0 for none)
-- and the timeout.
abbrev pub Transceive : Type 0 → Type 0
Transceive W = List ℕ → ℕ → ℤ → M W Reply

-- The driver's `struct pn53x_io`.
pub record Io (W : Type 0) : Type 0 where
  pub send : Device W → List ℕ → ℤ → ℤ × Device W
  pub receive : Device W → ℕ → ℤ → ℤ × List ℕ × Device W
