-- ===== src/Mirror/Laws.antt =====
-- mirror-subr.c against the reversal of binary digits.
use native.Mathlib.Nat.{pow-suc}
use libnfc.Prelude.{ℕ, zero, suc, ◌+◌, ◌*◌, ◌/◌, ◌%◌, ◌^◌, ◌<◌, ◌≡◌, refl, arith, ap, ◌∙◌}
use libnfc.Prelude.{List, [], ◌∷◌, length, true, ltb, ltb→lt, ◌==◌, ==_iff}
use libnfc.Prelude.Bits.{all_below, all_below_sound}
use libnfc.Mirror.{mirror, mirror_bytes, to_bytes, of_bytes, mirror32, mirror64}

-- The `k` low binary digits of `x` in the opposite order.
abbrev pub reverse_bits : ℕ → ℕ → ℕ
reverse_bits zero x = 0
reverse_bits (suc k) x = x % 2 * 2 ^ k + reverse_bits k (x / 2)

reversal_table : all_below 256 (λ x. mirror x == reverse_bits 8 x) ≡ true
unfolding all_below mirror
reversal_table = refl

involution_table : all_below 256 (λ x. mirror (mirror x) == x) ≡ true
unfolding all_below mirror
involution_table = refl

range_table : all_below 256 (λ x. ltb (mirror x) 256) ≡ true
unfolding all_below mirror
range_table = refl

-- The table holds, at every byte, the byte with its eight binary digits in the opposite order.
pub mirror-eq-reverse_bits : (x : ℕ) → x < 256 → mirror x ≡ reverse_bits 8 x
mirror-eq-reverse_bits x h =
    (==_iff _ _).0 (all_below_sound 256 (λ y. mirror y == reverse_bits 8 y) x reversal_table h)

pub mirror-mirror : (x : ℕ) → x < 256 → mirror (mirror x) ≡ x
mirror-mirror x h =
    (==_iff _ _).0 (all_below_sound 256 (λ y. mirror (mirror y) == y) x involution_table h)

pub mirror-lt : (x : ℕ) → x < 256 → mirror x < 256
mirror-lt x h = ltb→lt _ _ (all_below_sound 256 (λ y. ltb (mirror y) 256) x range_table h)

-- Every element is a byte.
abbrev pub AreBytes : List ℕ → Type 0
AreBytes [] = Unit
AreBytes (x ∷ xs) = (x < 256) × AreBytes xs

to_bytes-AreBytes : (n v : ℕ) → AreBytes (to_bytes n v)
unfolding to_bytes
to_bytes-AreBytes zero v = tt
to_bytes-AreBytes (suc n) v = (omega arith, to_bytes-AreBytes n (v / 256))

mirror_bytes-AreBytes : (xs : List ℕ) → AreBytes xs → AreBytes (mirror_bytes xs)
unfolding mirror_bytes
mirror_bytes-AreBytes [] h = tt
mirror_bytes-AreBytes (x ∷ xs) h = (mirror-lt x h.0, mirror_bytes-AreBytes xs h.1)

mirror_bytes-mirror_bytes : (xs : List ℕ) → AreBytes xs → mirror_bytes (mirror_bytes xs) ≡ xs
unfolding mirror_bytes
mirror_bytes-mirror_bytes [] h = refl
mirror_bytes-mirror_bytes (x ∷ xs) h = rw (mirror-mirror x h.0, mirror_bytes-mirror_bytes xs h.1)

-- Bytes in range are the bytes of their number.
to_bytes-of_bytes : (xs : List ℕ) → AreBytes xs → to_bytes (length xs) (of_bytes xs) ≡ xs
unfolding to_bytes of_bytes
to_bytes-of_bytes [] h = refl
to_bytes-of_bytes (x ∷ xs) h =
    let low : (x + 256 * of_bytes xs) % 256 ≡ x = omega arith in
    let high : (x + 256 * of_bytes xs) / 256 ≡ of_bytes xs = omega arith in
    rw (low, high, to_bytes-of_bytes xs h.1)

length-mirror_bytes : (xs : List ℕ) → length (mirror_bytes xs) ≡ length xs
unfolding mirror_bytes
length-mirror_bytes [] = refl
length-mirror_bytes (x ∷ xs) = ap suc (length-mirror_bytes xs)

length-to_bytes : (n v : ℕ) → length (to_bytes n v) ≡ n
unfolding to_bytes
length-to_bytes zero v = refl
length-to_bytes (suc n) v = ap suc (length-to_bytes n (v / 256))

-- Mirroring the bytes of a number twice leaves its bytes.
remirror :
    (n v : ℕ) → mirror_bytes (to_bytes n (of_bytes (mirror_bytes (to_bytes n v)))) ≡ to_bytes n v
remirror n v =
    let bytes = to_bytes-AreBytes n v in
    let mirrored = mirror_bytes-AreBytes (to_bytes n v) bytes in
    let same : length (mirror_bytes (to_bytes n v)) ≡ n =
      length-mirror_bytes (to_bytes n v) ∙ length-to_bytes n v in
    let back = to_bytes-of_bytes (mirror_bytes (to_bytes n v)) mirrored in
    rw (rw same at back) (mirror_bytes-mirror_bytes (to_bytes n v) bytes)

of_bytes-to_bytes : (n v : ℕ) → v < 256 ^ n → of_bytes (to_bytes n v) ≡ v
unfolding of_bytes to_bytes
of_bytes-to_bytes zero v h = omega arith
of_bytes-to_bytes (suc n) v h =
    let e = pow-suc 256 n in omega (arith, of_bytes-to_bytes n (v / 256) (omega arith))

-- Mirroring the bytes of a 32-bit word twice gives the word back, and so for a 64-bit word.
pub mirror_words_twice :
    (v w : ℕ) → v < 2 ^ 32 → w < 2 ^ 64 → (mirror32 (mirror32 v) ≡ v) × (mirror64 (mirror64 w) ≡ w)
unfolding mirror32 mirror64
mirror_words_twice v w p q = (
  rw (remirror 4 v) (of_bytes-to_bytes 4 v (omega arith)),
  rw (remirror 8 w) (of_bytes-to_bytes 8 w (omega arith)),
)
