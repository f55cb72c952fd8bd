-- ===== src/Prelude/Bits.antt =====
-- Laws of `bit_or`, `bit_xor` and `bit_and` at variables, from their binary digits; and checks of
-- all values below a bound by evaluation.
use Prim.Native.Nat.{ℕ, zero, suc, ◌+◌, ◌*◌, ◌/◌, ◌%◌, ◌^◌, ◌≤◌, ◌<◌, ◌-◌, min, max}
use Prim.Native.Nat.{bit_and, bit_or, bit_xor, differ, digits, bitwise}
use Prim.Native.Nat.{bit_and-bitwise, bit_or-bitwise, bit_xor-bitwise}
use mathlib.Core.Path.{◌≡◌, refl, ap, ◌∙◌}
use native.Mathlib.Decide.{dec_lt}
use mathlib.Core.Bool.{Bool, true, ◌&&◌}
use native.Mathlib.Nat.{pow-suc, one-le-pow}
use native.Mathlib.Omega.{arith}

-- `p` holds of every number below `n`.
unfoldable pub all_below : ℕ → (ℕ → Bool) → Bool
all_below zero p = true
all_below (suc n) p = p n && all_below n p

pub all_below_sound :
    (bound : ℕ) (test : ℕ → Bool) (k : ℕ) → all_below bound test ≡ true → k < bound → test k ≡ true
unfolding all_below
all_below_sound (suc bound) test k all small = ground (arith, all_below_sound bound test k)
all_below_sound zero test k all small = absurd (omega arith)

-- One more unit of fuel than the number changes nothing in the digit recursion, nor do more.
digits-suc :
    (z : ℕ → ℕ) (f : ℕ → ℕ → ℕ) (n a b : ℕ) → a ≤ n → digits z f (suc n) a b ≡ digits z f n a b
digits-suc z f zero (suc a) b h = absurd (omega arith)
digits-suc z f zero zero b h = refl
digits-suc z f (suc n) zero b h = refl
digits-suc z f (suc n) (suc a) b h =
    let half = digits-suc z f n (suc a / 2) (b / 2) (omega arith) in
    ap (λ d. d * 2 + f (suc a % 2) (b % 2)) half

digits_enough :
    (z : ℕ → ℕ) (f : ℕ → ℕ → ℕ) (n m a b : ℕ) → a ≤ m → m ≤ n → digits z f n a b ≡ digits z f m a b
digits_enough z f n m a b small h = elim (dec_lt m n) [
  | no same ↦ ap (λ k. digits z f k a b) (omega arith)
  | yes more ↦ less n more
]
  where
    less : (k : ℕ) → m < k → digits z f k a b ≡ digits z f m a b
    less zero lt = absurd (omega arith)
    less (suc k) lt =
        let step = digits-suc z f k a b (omega arith) in
        elim (dec_lt m k) [
          | yes more ↦ step ∙ less k more
          | no same ↦ step ∙ ap (λ i. digits z f i a b) (omega arith)
        ]

-- One binary digit of an operation that is defined by digits.
bitwise_digit :
    (z : ℕ → ℕ) (f : ℕ → ℕ → ℕ) (a b : ℕ)
    → bitwise z f (suc a) b ≡ bitwise z f (suc a / 2) (b / 2) * 2 + f (suc a % 2) (b % 2)
bitwise_digit z f a b =
    let e = digits_enough z f a (suc a / 2) (suc a / 2) (b / 2) (omega arith) (omega arith) in
    omega arith

differ_digits : (x y : ℕ) → x < 2 → y < 2 → differ x y ≡ (x + y) % 2
differ_digits zero y p q = omega arith
differ_digits (suc zero) zero p q = refl
differ_digits (suc zero) (suc zero) p q = refl
differ_digits (suc zero) (suc (suc y)) p q = absurd (omega arith)
differ_digits (suc (suc x)) y p q = absurd (omega arith)

pub bit_or_digit : (a b : ℕ) → bit_or a b ≡ bit_or (a / 2) (b / 2) * 2 + max (a % 2) (b % 2)
bit_or_digit zero b = omega (arith, bit_or-bitwise 0 b, bit_or-bitwise 0 (b / 2))
bit_or_digit (suc a) b = omega (
  arith,
  bit_or-bitwise (suc a) b,
  bit_or-bitwise (suc a / 2) (b / 2),
  bitwise_digit (λ y. y) max a b,
)

pub bit_and_digit : (a b : ℕ) → bit_and a b ≡ bit_and (a / 2) (b / 2) * 2 + min (a % 2) (b % 2)
bit_and_digit zero b = omega (arith, bit_and-bitwise 0 b, bit_and-bitwise 0 (b / 2))
bit_and_digit (suc a) b = omega (
  arith,
  bit_and-bitwise (suc a) b,
  bit_and-bitwise (suc a / 2) (b / 2),
  bitwise_digit (λ y. 0) min a b,
)

pub bit_xor_digit : (a b : ℕ) → bit_xor a b ≡ bit_xor (a / 2) (b / 2) * 2 + (a + b) % 2
bit_xor_digit zero b = omega (arith, bit_xor-bitwise 0 b, bit_xor-bitwise 0 (b / 2))
bit_xor_digit (suc a) b = omega (
  arith,
  bit_xor-bitwise (suc a) b,
  bit_xor-bitwise (suc a / 2) (b / 2),
  bitwise_digit (λ y. y) differ a b,
  differ_digits (suc a % 2) (b % 2) (omega arith) (omega arith),
)

-- The low digit and the rest of an exclusive or.
pub bit_xor_halves :
    (a b : ℕ) → (bit_xor a b / 2 ≡ bit_xor (a / 2) (b / 2)) × (bit_xor a b % 2 ≡ (a + b) % 2)
bit_xor_halves a b = omega (arith, bit_xor_digit a b)

pub zero-bit_xor : (b : ℕ) → bit_xor 0 b ≡ b
zero-bit_xor b = bit_xor-bitwise 0 b

bit_xor_self_upto : (n a : ℕ) → a ≤ n → bit_xor a a ≡ 0
bit_xor_self_upto n zero h = refl
bit_xor_self_upto zero (suc a) h = absurd (omega arith)
bit_xor_self_upto (suc n) (suc a) h =
    omega (arith, bit_xor_digit (suc a) (suc a), bit_xor_self_upto n (suc a / 2) (omega arith))

pub bit_xor_self : (a : ℕ) → bit_xor a a ≡ 0
bit_xor_self a = bit_xor_self_upto a a (omega arith)

bit_xor_comm_upto : (n a b : ℕ) → a + b ≤ n → bit_xor a b ≡ bit_xor b a
bit_xor_comm_upto zero zero zero h = refl
bit_xor_comm_upto zero zero (suc b) h = absurd (omega arith)
bit_xor_comm_upto zero (suc a) b h = absurd (omega arith)
bit_xor_comm_upto (suc n) zero zero h = refl
bit_xor_comm_upto (suc n) zero (suc b) h = omega (
  arith,
  bit_xor_digit 0 (suc b),
  bit_xor_digit (suc b) 0,
  bit_xor_comm_upto n 0 (suc b / 2) (omega arith),
)
bit_xor_comm_upto (suc n) (suc a) b h = omega (
  arith,
  bit_xor_digit (suc a) b,
  bit_xor_digit b (suc a),
  bit_xor_comm_upto n (suc a / 2) (b / 2) (omega arith),
)

pub bit_xor_comm : (a b : ℕ) → bit_xor a b ≡ bit_xor b a
bit_xor_comm a b = bit_xor_comm_upto (a + b) a b (omega arith)

pub bit_xor-zero : (a : ℕ) → bit_xor a 0 ≡ a
bit_xor-zero a = rw (bit_xor_comm a 0, zero-bit_xor)

bit_xor_assoc_upto :
    (n a b c : ℕ) → a + b + c ≤ n → bit_xor (bit_xor a b) c ≡ bit_xor a (bit_xor b c)
bit_xor_assoc_upto n zero b c h = rw (zero-bit_xor b, zero-bit_xor (bit_xor b c))
bit_xor_assoc_upto zero (suc a) b c h = absurd (omega arith)
bit_xor_assoc_upto (suc n) (suc a) b c h =
    let ih = bit_xor_assoc_upto n (suc a / 2) (b / 2) (c / 2) (omega arith) in
    let ab = bit_xor_halves (suc a) b in
    let bc = bit_xor_halves b c in
    let left = bit_xor_digit (bit_xor (suc a) b) c in
    let right = bit_xor_digit (suc a) (bit_xor b c) in
    omega (arith, rw ab.0 at left, rw bc.0 at right)

pub bit_xor_assoc : (a b c : ℕ) → bit_xor (bit_xor a b) c ≡ bit_xor a (bit_xor b c)
bit_xor_assoc a b c = bit_xor_assoc_upto (a + b + c) a b c (omega arith)

-- An exclusive or needs no more digits than its operands.
pub bit_xor-lt_pow : (k a b : ℕ) → a < 2 ^ k → b < 2 ^ k → bit_xor a b < 2 ^ k
bit_xor-lt_pow zero zero zero p q = omega arith
bit_xor-lt_pow zero zero (suc b) p q = absurd (omega arith)
bit_xor-lt_pow zero (suc a) b p q = absurd (omega arith)
bit_xor-lt_pow (suc k) a b p q =
    let e = pow-suc 2 k in
    omega (arith, bit_xor_digit a b, bit_xor-lt_pow k (a / 2) (b / 2) (omega arith) (omega arith))

bit_or-zero_upto : (n a : ℕ) → a ≤ n → bit_or a 0 ≡ a
bit_or-zero_upto n zero h = refl
bit_or-zero_upto zero (suc a) h = absurd (omega arith)
bit_or-zero_upto (suc n) (suc a) h =
    omega (arith, bit_or_digit (suc a) 0, bit_or-zero_upto n (suc a / 2) (omega arith))

pub bit_or-zero : (a : ℕ) → bit_or a 0 ≡ a
bit_or-zero a = bit_or-zero_upto a a (omega arith)

pub zero-bit_or : (b : ℕ) → bit_or 0 b ≡ b
zero-bit_or b = bit_or-bitwise 0 b

-- Joining a value above `k` digits with one that fits in them is their sum.
pub bit_or_join : (k hi lo : ℕ) → lo < 2 ^ k → bit_or (hi * 2 ^ k) lo ≡ hi * 2 ^ k + lo
bit_or_join zero hi zero p = rw bit_or-zero (omega arith)
bit_or_join zero hi (suc lo) p = absurd (omega arith)
bit_or_join (suc k) hi lo p =
    let e : hi * 2 ^ suc k ≡ 2 * (hi * 2 ^ k) =
      omega (arith, ap (λ (t : ℕ). hi * t) (pow-suc 2 k)) in
    let f = pow-suc 2 k in
    let halved : hi * 2 ^ suc k / 2 ≡ hi * 2 ^ k = omega arith in
    let step = rw halved at (bit_or_digit (hi * 2 ^ suc k) lo) in
    omega (arith, step, bit_or_join k hi (lo / 2) (omega arith))

bit_and-zero_upto : (n a : ℕ) → a ≤ n → bit_and a 0 ≡ 0
bit_and-zero_upto n zero h = refl
bit_and-zero_upto zero (suc a) h = absurd (omega arith)
bit_and-zero_upto (suc n) (suc a) h =
    omega (arith, bit_and_digit (suc a) 0, bit_and-zero_upto n (suc a / 2) (omega arith))

pub bit_and-zero : (a : ℕ) → bit_and a 0 ≡ 0
bit_and-zero a = bit_and-zero_upto a a (omega arith)

-- `x & (2 ^ k - 1)` keeps the `k` low digits.
bit_and_mask_of_sum : (k hi lo : ℕ) → lo < 2 ^ k → bit_and (hi * 2 ^ k + lo) (2 ^ k - 1) ≡ lo
bit_and_mask_of_sum zero hi zero p = bit_and-zero (hi * 2 ^ 0 + 0)
bit_and_mask_of_sum zero hi (suc lo) p = absurd (omega arith)
bit_and_mask_of_sum (suc k) hi lo p =
    let e : hi * 2 ^ suc k ≡ 2 * (hi * 2 ^ k) =
      omega (arith, ap (λ (t : ℕ). hi * t) (pow-suc 2 k)) in
    let f = pow-suc 2 k in
    let whole : (hi * 2 ^ suc k + lo) / 2 ≡ hi * 2 ^ k + lo / 2 = omega arith in
    let ones : (2 ^ suc k - 1) / 2 ≡ 2 ^ k - 1 = omega arith in
    let step = rw (whole, ones) at (bit_and_digit (hi * 2 ^ suc k + lo) (2 ^ suc k - 1)) in
    omega (arith, step, bit_and_mask_of_sum k hi (lo / 2) (omega arith), one-le-pow k 2)

pub bit_and_mask : (k a : ℕ) → bit_and a (2 ^ k - 1) ≡ a % 2 ^ k
bit_and_mask k a = ground (arith, one-le-pow k 2, bit_and_mask_of_sum k (a / 2 ^ k) (a % 2 ^ k))

-- A mask of one digit.
pub bit_and-one : (a : ℕ) → bit_and a 1 ≡ a % 2
bit_and-one a = bit_and_mask 1 a

-- The same join by an exclusive or.
pub bit_xor_join : (k hi lo : ℕ) → lo < 2 ^ k → bit_xor (hi * 2 ^ k) lo ≡ hi * 2 ^ k + lo
bit_xor_join zero hi zero p = rw (bit_xor_comm (hi * 2 ^ 0) 0, zero-bit_xor) (omega arith)
bit_xor_join zero hi (suc lo) p = absurd (omega arith)
bit_xor_join (suc k) hi lo p =
    let e : hi * 2 ^ suc k ≡ 2 * (hi * 2 ^ k) =
      omega (arith, ap (λ (t : ℕ). hi * t) (pow-suc 2 k)) in
    let f = pow-suc 2 k in
    let halved : hi * 2 ^ suc k / 2 ≡ hi * 2 ^ k = omega arith in
    let step = rw halved at (bit_xor_digit (hi * 2 ^ suc k) lo) in
    omega (arith, step, bit_xor_join k hi (lo / 2) (omega arith))
