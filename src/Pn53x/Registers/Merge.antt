-- ===== src/Pn53x/Registers/Merge.antt =====
-- A register whose bits come from two places: those of a mask from one byte, the others from another
-- (`pn53x_WriteRegister` after a read, and the second loop of `pn53x_writeback_register`). The laws
-- are proved one binary digit at a time, for any width.
use libnfc.Prelude.{ℕ, zero, suc, ◌-◌, ◌/◌, ◌%◌, ◌^◌, ◌<◌, min, max, ◌≡◌, refl, sym, ◌∙◌, arith}
use libnfc.Prelude.{bit_and, bit_or}
use libnfc.Prelude.Bits.{bit_and_digit, bit_or_digit, bit_and-zero}
use libnfc.Pn53x.Registers.{merge_one, inverse}
use native.Mathlib.Nat.{pow-suc, one-le-pow}

-- `merge_one` on `k` bits.
abbrev pub select : ℕ → ℕ → ℕ → ℕ → ℕ
select k x mask y = bit_or (bit_and x mask) (bit_and y (2 ^ k - 1 - mask))

-- One digit of it.
abbrev pub pick : ℕ → ℕ → ℕ → ℕ
pick x mask y = max (min (x % 2) (mask % 2)) (min (y % 2) (1 - mask % 2))

and_half : (a b : ℕ) → bit_and a b / 2 ≡ bit_and (a / 2) (b / 2)
and_half a b = omega (arith, bit_and_digit a b)

and_low : (a b : ℕ) → bit_and a b % 2 ≡ min (a % 2) (b % 2)
and_low a b = omega (arith, bit_and_digit a b)

or_half : (a b : ℕ) → bit_or a b / 2 ≡ bit_or (a / 2) (b / 2)
or_half a b = omega (arith, bit_or_digit a b)

or_low : (a b : ℕ) → bit_or a b % 2 ≡ max (a % 2) (b % 2)
or_low a b = omega (arith, bit_or_digit a b)

rest_half : (k mask : ℕ) → (2 ^ suc k - 1 - mask) / 2 ≡ 2 ^ k - 1 - mask / 2
rest_half k mask = omega (arith, pow-suc 2 k, one-le-pow k 2)

rest_low : (k mask : ℕ) → mask < 2 ^ suc k → (2 ^ suc k - 1 - mask) % 2 ≡ 1 - mask % 2
rest_low k mask h = omega (arith, pow-suc 2 k, one-le-pow k 2)

select_half : (k x mask y : ℕ) → select (suc k) x mask y / 2 ≡ select k (x / 2) (mask / 2) (y / 2)
select_half k x mask y =
    let rest = 2 ^ suc k - 1 - mask in
    rw
      (
        or_half (bit_and x mask) (bit_and y rest),
        and_half x mask,
        and_half y rest,
        rest_half k mask,
      )
      refl

select_low : (k x mask y : ℕ) → mask < 2 ^ suc k → select (suc k) x mask y % 2 ≡ pick x mask y
select_low k x mask y h =
    let rest = 2 ^ suc k - 1 - mask in
    rw (or_low (bit_and x mask) (bit_and y rest), and_low x mask, and_low y rest, rest_low k mask h)
      refl

digits_agree : (a b : ℕ) → a / 2 ≡ b / 2 → a % 2 ≡ b % 2 → a ≡ b
digits_agree a b p q = omega arith

select_nothing : (x y : ℕ) → select zero x 0 y ≡ 0
select_nothing x y = rw (bit_and-zero x, bit_and-zero y) refl

-- What a write to a cached register leaves in the cache.
abbrev pub kept : ℕ → ℕ → ℕ → ℕ → ℕ → ℕ
kept k x m mask value = bit_or (bit_and (bit_and x m) (2 ^ k - 1 - mask)) (bit_and value mask)

kept_half :
    (k x m mask value : ℕ)
    → kept (suc k) x m mask value / 2 ≡ kept k (x / 2) (m / 2) (mask / 2) (value / 2)
kept_half k x m mask value =
    let rest = 2 ^ suc k - 1 - mask in
    let old = bit_and (bit_and x m) rest in
    rw
      (
        or_half old (bit_and value mask),
        and_half (bit_and x m) rest,
        and_half x m,
        and_half value mask,
        rest_half k mask,
      )
      refl

kept_low :
    (k x m mask value : ℕ)
    → mask < 2 ^ suc k
    → kept (suc k) x m mask value % 2
      ≡ max (min (min (x % 2) (m % 2)) (1 - mask % 2)) (min (value % 2) (mask % 2))
kept_low k x m mask value h =
    let rest = 2 ^ suc k - 1 - mask in
    let old = bit_and (bit_and x m) rest in
    rw
      (
        or_low old (bit_and value mask),
        and_low (bit_and x m) rest,
        and_low x m,
        and_low value mask,
        rest_low k mask h,
      )
      refl

or-lt : (k a b : ℕ) → a < 2 ^ k → b < 2 ^ k → bit_or a b < 2 ^ k
or-lt zero zero zero p q = omega arith
or-lt zero zero (suc b) p q = absurd (omega arith)
or-lt zero (suc a) b p q = absurd (omega arith)
or-lt (suc k) a b p q =
    let e = pow-suc 2 k in
    omega (arith, bit_or_digit a b, or-lt k (a / 2) (b / 2) (omega arith) (omega arith))

pick_digits :
    (x m mask value y : ℕ)
    → x < 2
    → m < 2
    → mask < 2
    → value < 2
    → y < 2
    → max
        (min (max (min (min x m) (1 - mask)) (min value mask)) (max m mask))
        (min y (1 - max m mask))
      ≡ max (min value mask) (min (max (min x m) (min y (1 - m))) (1 - mask))
pick_digits x zero zero value y hx hm hs hv hy = omega arith
pick_digits x zero (suc zero) value y hx hm hs hv hy = omega arith
pick_digits x (suc zero) zero value y hx hm hs hv hy = omega arith
pick_digits x (suc zero) (suc zero) value y hx hm hs hv hy = omega arith
pick_digits x (suc (suc m)) mask value y hx hm hs hv hy = absurd (omega arith)
pick_digits x m (suc (suc mask)) value y hx hm hs hv hy = absurd (omega arith)

pick-kept :
    (x m mask value y a b c : ℕ)
    → a ≡ max (min (min (x % 2) (m % 2)) (1 - mask % 2)) (min (value % 2) (mask % 2))
    → b ≡ max (m % 2) (mask % 2)
    → c ≡ pick x m y
    → max (min a b) (min (y % 2) (1 - b)) ≡ max (min (value % 2) (mask % 2)) (min c (1 - mask % 2))
pick-kept x m mask value y a b c ea eb ec =
    let digit : (n : ℕ) → n % 2 < 2 = λ n. omega arith in
    rw (ea, eb, ec)
      (pick_digits (x % 2) (m % 2) (mask % 2) (value % 2) (y % 2) (digit x) (digit m) (digit mask)
        (digit value) (digit y))

-- Writing into the cached bits and merging later is merging first and writing then.
pub select-kept :
    (k x m mask value y : ℕ)
    → m < 2 ^ k
    → mask < 2 ^ k
    → select k (kept k x m mask value) (bit_or m mask) y ≡ select k value mask (select k x m y)
select-kept zero x zero zero value y p q =
    select_nothing (kept zero x 0 0 value) y ∙ sym (select_nothing value (select zero x 0 y))
select-kept zero x (suc m) mask value y p q = absurd (omega arith)
select-kept zero x zero (suc mask) value y p q = absurd (omega arith)
select-kept (suc k) x m mask value y p q =
    let new = kept (suc k) x m mask value in
    let old = select (suc k) x m y in
    let e = pow-suc 2 k in
    digits_agree (select (suc k) new (bit_or m mask) y) (select (suc k) value mask old)
      (rw
        (
          select_half k new (bit_or m mask) y,
          kept_half k x m mask value,
          or_half m mask,
          select_half k value mask old,
          select_half k x m y,
        )
        (select-kept k (x / 2) (m / 2) (mask / 2) (value / 2) (y / 2) (omega arith) (omega arith)))
      (select_low k new (bit_or m mask) y (or-lt (suc k) m mask p q)
        ∙ pick-kept x m mask value y (new % 2) (bit_or m mask % 2) (old % 2)
            (kept_low k x m mask value q) (or_low m mask) (select_low k x m y p)
        ∙ sym (select_low k value mask old q))

-- On a byte.
pub merge_one-kept :
    (x m mask value y : ℕ)
    → m < 256
    → mask < 256
    → merge_one
        (bit_or (bit_and (bit_and x m) (inverse mask)) (bit_and value mask))
        (bit_or m mask)
        y
      ≡ merge_one value mask (merge_one x m y)
merge_one-kept x m mask value y p q = select-kept 8 x m mask value y p q
