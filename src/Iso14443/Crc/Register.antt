-- ===== src/Iso14443/Crc/Register.antt =====
-- The CRC of ISO/IEC 14443-A as its standard draws it: a shift register that takes one bit at a
-- time, with the polynomial x^16 + x^12 + x^5 + 1.
use native.Mathlib.Nat.{pow-suc}
use libnfc.Prelude.{ℕ, zero, suc, ◌+◌, ◌*◌, ◌/◌, ◌%◌, ◌^◌, ◌<◌, ◌≡◌, refl, arith, ap, ◌∙◌, sym}
use libnfc.Prelude.{List, [], ◌∷◌, true, ◌==◌, ==_iff, if◌then◌else◌, bit_and, bit_xor}
use libnfc.Prelude.Bits.{all_below, all_below_sound, bit_and_mask, bit_xor_join, bit_xor_comm}
use libnfc.Prelude.Bits.{bit_xor_assoc, bit_xor_halves, bit_xor-lt_pow}
use libnfc.Mirror.Laws.{AreBytes}
use libnfc.Iso14443.Crc.{crc_update, crc_loop}

-- The register after one bit has left it.
abbrev pub shift : ℕ → ℕ
shift r = if r % 2 == 0 then r / 2 else bit_xor (r / 2) 0x8408

abbrev pub shifts : ℕ → ℕ → ℕ
shifts zero r = r
shifts (suc k) r = shifts k (shift r)

-- The register fed with bytes, the lowest bit of each first.
abbrev pub feed : ℕ → List ℕ → ℕ
feed r [] = r
feed r (x ∷ xs) = feed (shifts 8 (bit_xor r x)) xs

-- Exchange the last two of three operands.
bit_xor_swap : (a b c : ℕ) → bit_xor (bit_xor a b) c ≡ bit_xor (bit_xor a c) b
bit_xor_swap a b c =
    bit_xor_assoc a b c ∙ ap (λ t. bit_xor a t) (bit_xor_comm b c) ∙ sym (bit_xor_assoc a c b)

-- Bits above those that are shifted out only move down.
shift-bit_xor : (c h : ℕ) → shift (bit_xor c (2 * h)) ≡ bit_xor (shift c) h
shift-bit_xor c h =
    let halves = bit_xor_halves c (2 * h) in
    let even : (c + 2 * h) % 2 ≡ c % 2 = omega arith in
    let half : 2 * h / 2 ≡ h = omega arith in
    rw (halves.0, halves.1, even, half) (ground (arith, bit_xor_swap (c / 2) h 0x8408))

shifts-bit_xor : (k c h : ℕ) → shifts k (bit_xor c (h * 2 ^ k)) ≡ bit_xor (shifts k c) h
shifts-bit_xor zero c h = ap (λ t. bit_xor c t) (omega arith)
shifts-bit_xor (suc k) c h =
    let e : h * 2 ^ suc k ≡ 2 * (h * 2 ^ k) = omega (arith, ap (λ (t : ℕ). h * t) (pow-suc 2 k)) in
    rw (e, shift-bit_xor c (h * 2 ^ k)) (shifts-bit_xor k (shift c) h)

-- What one low byte does to the register.
abbrev table_entry : ℕ → ℕ
table_entry a =
    let b = bit_xor a (a * 2 ^ 4) % 2 ^ 8 in bit_xor (bit_xor (b * 2 ^ 8) (b * 2 ^ 3)) (b / 2 ^ 4)

byte_table : all_below 256 (λ a. shifts 8 a == table_entry a) ≡ true
unfolding all_below
byte_table = refl

shifts_byte : (a : ℕ) → a < 256 → shifts 8 a ≡ table_entry a
shifts_byte a h =
    (==_iff _ _).0 (all_below_sound 256 (λ x. shifts 8 x == table_entry x) a byte_table h)

-- A register and a byte, split into the low byte of the register and the rest.
split_register : (w x : ℕ) → bit_xor w x ≡ bit_xor (bit_xor x (w % 2 ^ 8)) (w / 2 ^ 8 * 2 ^ 8)
split_register w x =
    let whole : w / 2 ^ 8 * 2 ^ 8 + w % 2 ^ 8 ≡ w = omega arith in
    let parts = bit_xor_join 8 (w / 2 ^ 8) (w % 2 ^ 8) (omega arith) ∙ whole in
    ap (λ t. bit_xor t x) (sym parts)
    ∙ bit_xor_comm (bit_xor (w / 2 ^ 8 * 2 ^ 8) (w % 2 ^ 8)) x
    ∙ ap (λ t. bit_xor x t) (bit_xor_comm (w / 2 ^ 8 * 2 ^ 8) (w % 2 ^ 8))
    ∙ sym (bit_xor_assoc x (w % 2 ^ 8) (w / 2 ^ 8 * 2 ^ 8))

-- Three operands behind a first one.
bit_xor_front :
    (h p q r : ℕ) → bit_xor (bit_xor (bit_xor h p) q) r ≡ bit_xor (bit_xor (bit_xor p q) r) h
bit_xor_front h p q r =
    ap (λ t. bit_xor (bit_xor t q) r) (bit_xor_comm h p)
    ∙ ap (λ t. bit_xor t r) (bit_xor_swap p h q)
    ∙ bit_xor_swap (bit_xor p q) h r

pub crc_update-eq-shifts : (w x : ℕ) → x < 256 → crc_update w x ≡ shifts 8 (bit_xor w x)
unfolding crc_update
crc_update-eq-shifts w x h =
    let low : bit_and w 0xff % 2 ^ 8 ≡ w % 2 ^ 8 = omega (arith, bit_and_mask 8 w) in
    let small : bit_xor x (w % 2 ^ 8) < 2 ^ 8 = bit_xor-lt_pow 8 x (w % 2 ^ 8) h (omega arith) in
    let a = bit_xor x (w % 2 ^ 8) in
    let b = bit_xor a (a * 2 ^ 4) % 2 ^ 8 in
    rw (low, split_register w x, shifts-bit_xor 8 a (w / 2 ^ 8), shifts_byte a small)
      (bit_xor_front (w / 2 ^ 8) (b * 2 ^ 8) (b * 2 ^ 3) (b / 2 ^ 4))

-- The loop of `iso14443a_crc` is the register fed with the same bytes.
pub crc_loop-eq-feed : (w : ℕ) (xs : List ℕ) → AreBytes xs → crc_loop w xs ≡ feed w xs
unfolding crc_loop
crc_loop-eq-feed w [] h = refl
crc_loop-eq-feed w (x ∷ xs) h =
    rw (crc_update-eq-shifts w x h.0) (crc_loop-eq-feed (shifts 8 (bit_xor w x)) xs h.1)
