-- ===== src/Pn53x/Monad/Post.antt =====
-- What holds when a run returns: `P` of the result and the device. A run that ends without a result
-- satisfies it, but not `Returns`.
use libnfc.Prelude.{◌≡◌, refl, Bool, true, false, if◌then◌else◌}
use libnfc.Pn53x.Device.{Device}
use libnfc.Pn53x.Monad.{Outcome, done, aborted, out_of_fuel, M, resume}

abbrev pub Post : {W A : Type 0} → (A → Device W → Type 0) → Outcome (A × Device W) → Type 0
Post P (done (a, d)) = P a d
Post P aborted = Unit
Post P out_of_fuel = Unit

pub Post-if :
    {W A : Type 0} (P : A → Device W → Type 0) (b : Bool) (m k : M W A) (d : Device W)
    → (b ≡ true → Post P (m d))
    → (b ≡ false → Post P (k d))
    → Post P ((if b then m else k) d)
Post-if P true m k d hm hk = hm refl
Post-if P false m k d hm hk = hk refl

-- The rest of a chain, from what holds after its first step.
pub Post-resume :
    {W A B : Type 0} (P : A → Device W → Type 0) (Q : B → Device W → Type 0)
    (o : Outcome (A × Device W)) (f : A → M W B)
    → Post P o
    → ((a : A) (d : Device W) → P a d → Post Q (f a d))
    → Post Q (resume o f)
Post-resume P Q (done (a, d)) f h next = next a d h
Post-resume P Q aborted f h next = tt
Post-resume P Q out_of_fuel f h next = tt

abbrev pub Any : {W A : Type 0} → A → Device W → Type 0
Any a d = Unit

pub Post-Any : {W A : Type 0} (o : Outcome (A × Device W)) → Post Any o
Post-Any (done (a, d)) = tt
Post-Any aborted = tt
Post-Any out_of_fuel = tt

-- The run returns, with `P` of the result and the device.
abbrev pub Returns : {W A : Type 0} → (A → Device W → Type 0) → Outcome (A × Device W) → Type 0
Returns P (done (a, d)) = P a d
Returns P aborted = ⊥
Returns P out_of_fuel = ⊥

pub Returns-if :
    {W A : Type 0} (P : A → Device W → Type 0) (b : Bool) (m k : M W A) (d : Device W)
    → (b ≡ true → Returns P (m d))
    → (b ≡ false → Returns P (k d))
    → Returns P ((if b then m else k) d)
Returns-if P true m k d hm hk = hm refl
Returns-if P false m k d hm hk = hk refl

pub Returns-resume :
    {W A B : Type 0} (P : A → Device W → Type 0) (Q : B → Device W → Type 0)
    (o : Outcome (A × Device W)) (f : A → M W B)
    → Returns P o
    → ((a : A) (d : Device W) → P a d → Returns Q (f a d))
    → Returns Q (resume o f)
Returns-resume P Q (done (a, d)) f h next = next a d h
Returns-resume P Q aborted f h next = absurd h
Returns-resume P Q out_of_fuel f h next = absurd h

pub Returns-Any :
    {W A : Type 0} (P : A → Device W → Type 0) (o : Outcome (A × Device W))
    → Returns P o
    → Returns Any o
Returns-Any P (done (a, d)) h = tt
Returns-Any P aborted h = h
Returns-Any P out_of_fuel h = h
