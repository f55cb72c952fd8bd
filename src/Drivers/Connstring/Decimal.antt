-- ===== src/Drivers/Connstring/Decimal.antt =====
-- A number that is printed is read again.
use libnfc.Prelude.{ℕ, zero, suc, ◌+◌, ◌-◌, ◌*◌, ◌/◌, ◌%◌, ◌^◌, ◌≤◌, ◌<◌, ◌≡◌, refl, arith}
use libnfc.Prelude.{
  true, false, some, List, [], ◌∷◌, ◌++◌, Bool-cases, inl, inr, length, length-append,
}
use libnfc.Prelude.{ltb, leb, ◌==◌}
use libnfc.Drivers.Connstring.{
  is_space, is_digit, skip_space, unsign, read_digits, number, scan_ulong, print_decimal,
}

abbrev pub Digits : List ℕ → Type 0
Digits [] = Unit
Digits (c ∷ cs) = (48 ≤ c) × (c ≤ 57) × Digits cs

Digits-append : (xs : List ℕ) (c : ℕ) → Digits xs → 48 ≤ c → c ≤ 57 → Digits (xs ++ c ∷ [])
Digits-append [] c digits lo hi = (lo, hi, tt)
Digits-append (x ∷ xs) c (lo', hi', digits) lo hi = (lo', hi', Digits-append xs c digits lo hi)

pub print_decimal-Digits : (places n : ℕ) → Digits (print_decimal places n)
unfolding print_decimal
print_decimal-Digits zero n = tt
print_decimal-Digits (suc places) n = elim (Bool-cases (ltb n 10)) [
  | inl one ↦ rw one (omega arith, ground arith, tt)
  | inr more ↦ rw more (
      Digits-append (print_decimal places (n / 10)) (48 + n % 10)
        (print_decimal-Digits places (n / 10)) (omega arith) (omega arith))
]

read_digits-append :
    (value : ℕ) (xs : List ℕ) (d : ℕ)
    → Digits xs
    → d < 10
    → read_digits value (xs ++ (48 + d) ∷ []) ≡ read_digits value xs * 10 + d
unfolding read_digits
read_digits-append value [] d digits small =
    let is : is_digit (48 + d) ≡ true = ground arith in rw is (omega arith)
read_digits-append value (x ∷ xs) d (lo, hi, digits) small =
    let is : is_digit x ≡ true = ground arith in
    rw is (read_digits-append (value * 10 + (x - 48)) xs d digits small)

pub read_digits-print_decimal :
    (places n : ℕ) → n < 10 ^ places → read_digits 0 (print_decimal places n) ≡ n
unfolding print_decimal read_digits
read_digits-print_decimal zero n small = omega arith
read_digits-print_decimal (suc places) n small =
    let fewer : n / 10 < 10 ^ places = omega arith in
    elim (Bool-cases (ltb n 10)) [
      | inl one ↦ let is : is_digit (48 + n) ≡ true = ground arith in rw (one, is) (omega arith)
      | inr more ↦
          let front = read_digits-print_decimal places (n / 10) fewer in
          let last =
            read_digits-append 0 (print_decimal places (n / 10)) (n % 10)
              (print_decimal-Digits places (n / 10)) (omega arith) in
          rw (more, last, front) (omega arith)
    ]

scan_ulong-cons :
    (c : ℕ) (cs : List ℕ)
    → Digits (c ∷ cs)
    → read_digits 0 (c ∷ cs) < 2 ^ 64
    → scan_ulong (c ∷ cs) ≡ some (read_digits 0 (c ∷ cs))
unfolding scan_ulong skip_space unsign number
scan_ulong-cons c cs (lo, hi, digits) small =
    let is : is_digit c ≡ true = ground arith in
    let no_space : is_space c ≡ false = ground arith in
    let no_minus : (c == 45) ≡ false = ground arith in
    let no_plus : (c == 43) ≡ false = ground arith in
    let fits : leb (2 ^ 64) (read_digits 0 (c ∷ cs)) ≡ false = ground arith in
    rw (no_space, no_minus, no_plus, fits, is) refl

-- A row of digits is read as its value.
pub scan_ulong-Digits :
    (s : List ℕ)
    → Digits s
    → 1 ≤ length s
    → read_digits 0 s < 2 ^ 64
    → scan_ulong s ≡ some (read_digits 0 s)
scan_ulong-Digits [] digits filled small = absurd (omega arith)
scan_ulong-Digits (c ∷ cs) digits filled small = scan_ulong-cons c cs digits small

pub print_decimal-filled : (places n : ℕ) → 1 ≤ length (print_decimal (suc places) n)
unfolding print_decimal
print_decimal-filled places n = elim (Bool-cases (ltb n 10)) [
  | inl one ↦ rw one (omega arith)
  | inr more ↦
      rw more (omega (arith, length-append (print_decimal places (n / 10)) ((48 + n % 10) ∷ [])))
]
