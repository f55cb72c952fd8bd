-- ===== src/Pn53x/Properties/Timeout.antt =====
-- What the code of a timeout stands for: the chip takes `n` as 100 · 2 ^ (n - 1) microseconds.
use libnfc.Prelude.{
  ℕ, ◌+◌, ◌*◌, ◌^◌, ◌-◌, ◌≤◌, ◌<◌, ◌≡◌, refl, arith, Bool, true, false, ◌&&◌, min, leb, leb→le,
}
use libnfc.Prelude.Bits.{all_below, all_below_sound}
use libnfc.Prelude.Int.{pos}
use libnfc.Pn53x.Properties.{int_to_timeout, timeout_loop}
use native.Mathlib.Decide.{dec_lt}

-- Tenths of a millisecond.
abbrev pub duration : ℕ → ℕ
duration n = 2 ^ (n - 1)

abbrev in_bounds : ℕ → Bool
in_bounds ms =
    let n = int_to_timeout (pos (ms + 2)) in
    (leb 5 n && leb n 16)
    && (leb (duration n) (10 * (ms + 2)) && leb (10 * min (ms + 2) 3280) (2 * duration n + 32))

table : all_below 3280 in_bounds ≡ true
unfolding all_below int_to_timeout
table = refl

beyond : (ms : ℕ) → 3280 < ms → int_to_timeout (pos ms) ≡ 16
unfolding int_to_timeout timeout_loop
beyond ms h = ground arith

split :
    (a b c e : Bool)
    → ((a && b) && (c && e)) ≡ true
    → (a ≡ true) × (b ≡ true) × (c ≡ true) × (e ≡ true)
split true true true true h = (refl, refl, refl, refl)
split false b c e h = absurd (ground (arith, h))
split true false c e h = absurd (ground (arith, h))
split true true false e h = absurd (ground (arith, h))
split true true true false h = absurd (ground (arith, h))

-- Of two milliseconds or more, the code is one that the chip takes, its duration is at most the
-- timeout, and up to the longest duration twice the duration is at least the timeout, but for 3.2
-- milliseconds of rounding.
pub int_to_timeout-duration :
    (ms : ℕ)
    → 2 ≤ ms
    → let n = int_to_timeout (pos ms) in
      (5 ≤ n) × (n ≤ 16) × (duration n ≤ 10 * ms) × (10 * min ms 3280 ≤ 2 * duration n + 32)
int_to_timeout-duration ms h = elim (dec_lt 3280 ms) [
  | yes long ↦ let e = beyond ms long in rw e (omega arith, omega arith, omega arith, omega arith)
  | no short ↦
      let back : ms - 2 + 2 ≡ ms = omega arith in
      let found = all_below_sound 3280 in_bounds (ms - 2) table (omega arith) in
      let n = int_to_timeout (pos ms) in
      let (a, b, c, e) =
        split (leb 5 n) (leb n 16) (leb (duration n) (10 * ms))
          (leb (10 * min ms 3280) (2 * duration n + 32)) (rw back at found) in
      (
        leb→le 5 n a,
        leb→le n 16 b,
        leb→le (duration n) (10 * ms) c,
        leb→le (10 * min ms 3280) (2 * duration n + 32) e,
      )
]
