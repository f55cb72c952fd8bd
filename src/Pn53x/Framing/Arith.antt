-- ===== src/Pn53x/Framing/Arith.antt =====
-- One byte of data and its parity bit, at each of the eight places that they can have in a frame.
-- With `data` the mirrored byte and `held` the bits that wait from the bytes before, the frame gets
-- sums, and taking them apart gives `data` and the parity bit back.
use native.Mathlib.Nat.{pow-suc}
use libnfc.Prelude.{ℕ, zero, suc, ◌+◌, ◌-◌, ◌*◌, ◌/◌, ◌%◌, ◌^◌, ◌<◌, ◌≡◌, refl, arith, ap, ◌∙◌}
use libnfc.Prelude.{bit_and, bit_or}
use libnfc.Prelude.Bits.{bit_or_join, bit_and-one}
use libnfc.Pn53x.Framing.{fill, remain}

pub below8 :
    (P : ℕ → Type 0) → P 0 → P 1 → P 2 → P 3 → P 4 → P 5 → P 6 → P 7 → (n : ℕ) → n < 8 → P n
below8 P a b c d e f g h zero lt = a
below8 P a b c d e f g h (suc zero) lt = b
below8 P a b c d e f g h (suc (suc zero)) lt = c
below8 P a b c d e f g h (suc (suc (suc zero))) lt = d
below8 P a b c d e f g h (suc (suc (suc (suc zero)))) lt = e
below8 P a b c d e f g h (suc (suc (suc (suc (suc zero))))) lt = f
below8 P a b c d e f g h (suc (suc (suc (suc (suc (suc zero)))))) lt = g
below8 P a b c d e f g h (suc (suc (suc (suc (suc (suc (suc zero))))))) lt = h
below8 P a b c d e f g h (suc (suc (suc (suc (suc (suc (suc (suc n)))))))) lt = absurd (omega arith)

-- `fill` on bits that wait above its place.
abbrev FillSum : ℕ → Type 0
FillSum p =
    (held bt : ℕ)
    → held < 2 ^ p
    → bt < 256
    → (fill p (held * 2 ^ (8 - p)) bt ≡ held * 2 ^ (8 - p) + bt / 2 ^ p)
      × (held * 2 ^ (8 - p) + bt / 2 ^ p < 256)

pub fill_sum : (p : ℕ) → p < 8 → FillSum p
fill_sum =
    below8 FillSum (λ held bt k h. (bit_or_join 8 held (bt / 2 ^ 0) (omega arith), omega arith))
      (λ held bt k h. (bit_or_join 7 held (bt / 2 ^ 1) (omega arith), omega arith))
      (λ held bt k h. (bit_or_join 6 held (bt / 2 ^ 2) (omega arith), omega arith))
      (λ held bt k h. (bit_or_join 5 held (bt / 2 ^ 3) (omega arith), omega arith))
      (λ held bt k h. (bit_or_join 4 held (bt / 2 ^ 4) (omega arith), omega arith))
      (λ held bt k h. (bit_or_join 3 held (bt / 2 ^ 5) (omega arith), omega arith))
      (λ held bt k h. (bit_or_join 2 held (bt / 2 ^ 6) (omega arith), omega arith))
      (λ held bt k h. (bit_or_join 1 held (bt / 2 ^ 7) (omega arith), omega arith))

-- The bits that wait after a byte: its low bits and the parity bit.
abbrev pub waiting : ℕ → ℕ → ℕ → ℕ
waiting p bt par = 2 * (bt % 2 ^ p) + par % 2

abbrev RemainSum : ℕ → Type 0
RemainSum p =
    (bt par : ℕ)
    → bt < 256
    → (remain p bt par ≡ waiting p bt par * 2 ^ (7 - p)) × (waiting p bt par < 2 ^ (p + 1))

-- At the place `p`, with `k` the places below it.
remain_at :
    (p k bt par : ℕ)
    → 7 - p ≡ k
    → bt * 2 ^ (8 - p) % 2 ^ 8 ≡ bt % 2 ^ p * 2 ^ suc k
    → par % 2 * 2 ^ k < 2 ^ suc k
    → remain p bt par ≡ waiting p bt par * 2 ^ (7 - p)
remain_at p k bt par below e lt =
    let twice = ap (λ (t : ℕ). bt % 2 ^ p * t) (pow-suc 2 k) in
    rw (e, bit_and-one par, below, bit_or_join (suc k) (bt % 2 ^ p) (par % 2 * 2 ^ k) lt)
      (omega arith)

pub remain_sum : (p : ℕ) → p < 8 → RemainSum p
remain_sum =
    below8 RemainSum
      (λ bt par h. (remain_at 0 7 bt par refl (omega arith) (omega arith), omega arith))
      (λ bt par h. (remain_at 1 6 bt par refl (omega arith) (omega arith), omega arith))
      (λ bt par h. (remain_at 2 5 bt par refl (omega arith) (omega arith), omega arith))
      (λ bt par h. (remain_at 3 4 bt par refl (omega arith) (omega arith), omega arith))
      (λ bt par h. (remain_at 4 3 bt par refl (omega arith) (omega arith), omega arith))
      (λ bt par h. (remain_at 5 2 bt par refl (omega arith) (omega arith), omega arith))
      (λ bt par h. (remain_at 6 1 bt par refl (omega arith) (omega arith), omega arith))
      (λ bt par h. (remain_at 7 0 bt par refl (omega arith) (omega arith), omega arith))

-- The two sums that hold a byte of data, and what `pn53x_unwrap_frame` takes from them; `behind` are
-- the bits of the next byte.
abbrev pub first_sum : ℕ → ℕ → ℕ → ℕ
first_sum p held bt = held * 2 ^ (8 - p) + bt / 2 ^ p

abbrev pub second_sum : ℕ → ℕ → ℕ → ℕ → ℕ
second_sum p bt par behind = waiting p bt par * 2 ^ (7 - p) + behind

-- The arithmetic of one place: both sums, cut at their borders.
abbrev Cuts : ℕ → Type 0
Cuts p =
    (held bt par behind : ℕ)
    → bt < 256
    → behind < 2 ^ (7 - p)
    → (first_sum p held bt * 2 ^ p % 2 ^ 8 ≡ bt / 2 ^ p * 2 ^ p)
      × (second_sum p bt par behind / 2 ^ (8 - p) ≡ bt % 2 ^ p)
      × (bt % 2 ^ p < 2 ^ p)
      × (bt / 2 ^ p * 2 ^ p + bt % 2 ^ p ≡ bt)
      × (second_sum p bt par behind / 2 ^ (7 - p) % 2 ≡ par % 2)
      × (second_sum p bt par behind < 256)

cuts : (p : ℕ) → p < 8 → Cuts p
cuts =
    below8 Cuts (λ held bt par behind h k. omega arith) (λ held bt par behind h k. omega arith)
      (λ held bt par behind h k. omega arith) (λ held bt par behind h k. omega arith)
      (λ held bt par behind h k. omega arith) (λ held bt par behind h k. omega arith)
      (λ held bt par behind h k. omega arith) (λ held bt par behind h k. omega arith)

pub separate :
    (p held bt par behind : ℕ)
    → p < 8
    → bt < 256
    → behind < 2 ^ (7 - p)
    → (bit_or (first_sum p held bt * 2 ^ p % 2 ^ 8) (second_sum p bt par behind / 2 ^ (8 - p)) ≡ bt)
      × (bit_and (second_sum p bt par behind / 2 ^ (7 - p)) 0x01 ≡ par % 2)
      × (second_sum p bt par behind < 256)
separate p held bt par behind lt h k =
    let c = cuts p lt held bt par behind h k in
    (
      rw (c.0, c.1, bit_or_join p (bt / 2 ^ p) (bt % 2 ^ p) c.2) c.3,
      bit_and-one (second_sum p bt par behind / 2 ^ (7 - p)) ∙ c.4,
      c.5,
    )

-- The bits of the next byte fit behind the parity bit.
pub behind_fits : (p : ℕ) → p < 8 → (bt : ℕ) → bt < 256 → bt / 2 ^ (p + 1) < 2 ^ (7 - p)
behind_fits =
    below8 (λ p. (bt : ℕ) → bt < 256 → bt / 2 ^ (p + 1) < 2 ^ (7 - p)) (λ bt h. omega arith)
      (λ bt h. omega arith) (λ bt h. omega arith) (λ bt h. omega arith) (λ bt h. omega arith)
      (λ bt h. omega arith) (λ bt h. omega arith) (λ bt h. omega arith)
