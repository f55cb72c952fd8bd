-- ===== src/Iso14443/Crc/Laws.antt =====
-- What `iso14443a_crc` computes, and what `iso14443a_crc_append` leaves in the buffer.
use libnfc.Prelude.{ℕ, zero, suc, ◌+◌, ◌*◌, ◌/◌, ◌%◌, ◌^◌, ◌≤◌, ◌<◌, ◌≡◌, refl, arith, ap, ◌∙◌}
use libnfc.Prelude.{some, List, [], ◌∷◌, ◌++◌, bit_and, bit_xor, le→leb}
use libnfc.Prelude.{length, length-append, length-take, set, take, drop}
use libnfc.Prelude.Bits.{bit_and_mask, bit_xor_self, bit_xor-lt_pow, zero-bit_xor, bit_xor-zero}
use libnfc.Mirror.Laws.{AreBytes}
use libnfc.Iso14443.Crc.{crc_update, crc_loop, crc, crc_append}
use libnfc.Iso14443.Crc.Register.{feed, crc_loop-eq-feed}

low_byte : (w : ℕ) → bit_and w 0xff % 2 ^ 8 ≡ w % 256
low_byte w = omega (arith, bit_and_mask 8 w)

-- Of one byte or more, `iso14443a_crc` stores the low and the high byte of the shift register of the
-- standard, started at 0x6363 and fed with those bytes.
pub crc-eq-register :
    (x : ℕ) (xs : List ℕ)
    → AreBytes (x ∷ xs)
    → let r = feed 0x6363 (x ∷ xs) in crc (x ∷ xs) ≡ some (r % 256, r / 256 % 256)
unfolding crc
crc-eq-register x xs h =
    let r = feed 0x6363 (x ∷ xs) in
    let e = crc_loop-eq-feed 0x6363 (x ∷ xs) h in rw (e, low_byte r, low_byte (r / 2 ^ 8))

crc_loop-append : (w : ℕ) (xs ys : List ℕ) → crc_loop w (xs ++ ys) ≡ crc_loop (crc_loop w xs) ys
unfolding crc_loop
crc_loop-append w [] ys = refl
crc_loop-append w (x ∷ xs) ys = crc_loop-append (crc_update w x) xs ys

-- The register keeps to 16 bits.
crc_update-lt : (w x : ℕ) → w < 2 ^ 16 → crc_update w x < 2 ^ 16
unfolding crc_update
crc_update-lt w x h =
    let a = bit_xor x (bit_and w 0xff % 2 ^ 8) in
    let b = bit_xor a (a * 2 ^ 4) % 2 ^ 8 in
    bit_xor-lt_pow 16 (bit_xor (bit_xor (w / 2 ^ 8) (b * 2 ^ 8)) (b * 2 ^ 3)) (b / 2 ^ 4)
      (bit_xor-lt_pow 16 (bit_xor (w / 2 ^ 8) (b * 2 ^ 8)) (b * 2 ^ 3)
        (bit_xor-lt_pow 16 (w / 2 ^ 8) (b * 2 ^ 8) (omega arith) (omega arith)) (omega arith))
      (omega arith)

crc_loop-lt : (w : ℕ) (xs : List ℕ) → w < 2 ^ 16 → crc_loop w xs < 2 ^ 16
unfolding crc_loop
crc_loop-lt w [] h = h
crc_loop-lt w (x ∷ xs) h = crc_loop-lt (crc_update w x) xs (crc_update-lt w x h)

-- A byte equal to the low byte of the register moves the register down by eight bits.
crc_update_same : (w x : ℕ) → x ≡ w % 256 → crc_update w x ≡ w / 256
unfolding crc_update
crc_update_same w x e =
    let c : bit_xor x (bit_and w 0xff % 2 ^ 8) ≡ 0 = rw (low_byte w, e) (bit_xor_self (w % 256)) in
    rw (c, zero-bit_xor 0, zero-bit_xor 0) (simp bit_xor-zero)

crc_residue : (w : ℕ) → w < 2 ^ 16 → crc_loop w ((w % 256) ∷ (w / 256 % 256) ∷ []) ≡ 0
unfolding crc_loop
crc_residue w h =
    rw (crc_update_same w (w % 256) refl, crc_update_same (w / 256) (w / 256 % 256) refl)
      (omega arith)

take-set-set :
    (buf : List ℕ) (n a b : ℕ)
    → suc n < length buf
    → take (suc (suc n)) (set (set buf n a) (suc n) b) ≡ take n buf ++ a ∷ b ∷ []
take-set-set [] n a b h = elim h [ ]
take-set-set (x ∷ []) n a b h = absurd (omega arith)
take-set-set (x ∷ y ∷ buf) zero a b h = refl
take-set-set (x ∷ y ∷ buf) (suc n) a b h =
    ap (λ t. x ∷ t) (take-set-set (y ∷ buf) n a b (omega arith))

drop-set-set :
    (buf : List ℕ) (n a b : ℕ)
    → drop (suc (suc n)) (set (set buf n a) (suc n) b) ≡ drop (suc (suc n)) buf
drop-set-set [] n a b = refl
drop-set-set (x ∷ []) zero a b = refl
drop-set-set (x ∷ []) (suc n) a b = refl
drop-set-set (x ∷ y ∷ buf) zero a b = refl
drop-set-set (x ∷ y ∷ buf) (suc n) a b = drop-set-set (y ∷ buf) n a b

take-set-set_before : (buf : List ℕ) (n a b : ℕ) → take n (set (set buf n a) (suc n) b) ≡ take n buf
take-set-set_before buf zero a b = refl
take-set-set_before [] (suc n) a b = refl
take-set-set_before (x ∷ buf) (suc n) a b = ap (λ t. x ∷ t) (take-set-set_before buf n a b)

crc-cons :
    (xs : List ℕ)
    → 0 < length xs
    → let w = crc_loop 0x6363 xs in crc xs ≡ some (w % 256, w / 256 % 256)
unfolding crc
crc-cons [] h = elim h [ ]
crc-cons (x ∷ xs) h = let w = crc_loop 0x6363 (x ∷ xs) in rw (low_byte w, low_byte (w / 2 ^ 8))

crc-append :
    (xs : List ℕ)
    → 0 < length xs
    → let w = crc_loop 0x6363 xs in crc (xs ++ (w % 256) ∷ (w / 256 % 256) ∷ []) ≡ some (0, 0)
crc-append xs h =
    let w = crc_loop 0x6363 xs in
    let tail = (w % 256) ∷ (w / 256 % 256) ∷ [] in
    let zeroed =
      crc_loop-append 0x6363 xs tail ∙ crc_residue w (crc_loop-lt 0x6363 xs (omega arith)) in
    let e = crc-cons (xs ++ tail) (omega (arith, length-append xs tail)) in rw (e, zeroed)

-- With at least one byte of data and room for two more, `iso14443a_crc_append` succeeds; it leaves
-- the data and what lies behind the two bytes as they were, and the CRC of the data with its two
-- CRC bytes is zero, the test by which a receiver accepts a frame.
pub crc_append_lem :
    (buf : List ℕ) (n : ℕ)
    → 0 < n
    → n + 2 ≤ length buf
    → (out : List ℕ) × (crc_append buf n ≡ some out)
      × (take n out ≡ take n buf)
      × (drop (n + 2) out ≡ drop (n + 2) buf)
      × (crc (take (n + 2) out) ≡ some (0, 0))
unfolding crc_append
crc_append_lem buf n p h =
    let w = crc_loop 0x6363 (take n buf) in
    let filled : 0 < length (take n buf) = omega (arith, length-take n buf) in
    let two : n + 2 ≡ suc (suc n) = omega arith in
    let one : n + 1 ≡ suc n = omega arith in
    (
      set (set buf n (w % 256)) (suc n) (w / 256 % 256),
      rw (crc-cons (take n buf) filled, crc_append, le→leb (n + 2) (length buf) h, one),
      take-set-set_before buf n (w % 256) (w / 256 % 256),
      rw two (drop-set-set buf n (w % 256) (w / 256 % 256)),
      rw (two, take-set-set buf n (w % 256) (w / 256 % 256) (omega arith))
          (crc-append (take n buf) filled),
    )
