-- ===== src/Pn53x/Frame/Laws.antt =====
-- `pn53x_build_frame` builds the frames of the format.
use native.Mathlib.Decide.{dec_lt}
use libnfc.Prelude.{ℕ, suc, ◌+◌, ◌-◌, ◌/◌, ◌%◌, ◌≤◌, ◌<◌, ◌≡◌, refl, arith, ap}
use libnfc.Prelude.{List, [], ◌∷◌, true, false, leb, if◌then◌else◌, length, length-append, drop}
use libnfc.Prelude.{bit_and}
use libnfc.Prelude.Bits.{bit_and_mask}
use libnfc.Mirror.Laws.{AreBytes}
use libnfc.Pn53x.Device.{nfc_success, nfc_echip}
use libnfc.Pn53x.Frame.{build_frame, subtract_bytes}
use libnfc.Pn53x.Frame.Format.{sum, complement, encode}

-- The running checksum is the complement of the sum.
pub subtract_bytes-complement :
    (s : ℕ) (xs : List ℕ) → AreBytes xs → subtract_bytes (complement s) xs ≡ complement (s + sum xs)
unfolding subtract_bytes
subtract_bytes-complement s [] h = ap complement (omega arith)
subtract_bytes-complement s (x ∷ xs) h =
    let step : (complement s + 256 - x) % 256 ≡ complement (s + x) = omega arith in
    let sums : s + x + sum xs ≡ s + (x + sum xs) = omega arith in
    rw (step, subtract_bytes-complement (s + x) xs h.1, sums)

length-encode :
    (tfi : ℕ) (packet : List ℕ)
    → length (encode tfi packet) ≡ length packet + (if leb (length packet) 254 then 8 else 11)
length-encode tfi packet =
    ground (arith, length-append packet (complement (tfi + sum packet) ∷ 0x00 ∷ []))

build_frame_normal :
    (input : List ℕ) (size : ℕ)
    → AreBytes input
    → length input ≤ 254
    → build_frame input size ≡ (nfc_success, drop 3 (encode 0xd4 input), length (encode 0xd4 input))
unfolding build_frame
build_frame_normal input size h lt =
    let short : leb (length input) 254 ≡ true = ground arith in
    let short' : leb (suc (length input)) 255 ≡ true = ground arith in
    let n1 : (length input + 1) % 256 ≡ suc (length input) = omega arith in
    let lcs : (256 - (length input + 1)) % 256 ≡ complement (suc (length input)) = omega arith in
    rw (length-encode, short, short', n1, lcs, subtract_bytes-complement 0xd4 input h) refl

build_frame_extended :
    (input : List ℕ) (size : ℕ)
    → AreBytes input
    → 254 < length input
    → length input ≤ 264
    → build_frame input size ≡ (nfc_success, drop 3 (encode 0xd4 input), length (encode 0xd4 input))
unfolding build_frame
build_frame_extended input size h lo hi =
    let n = length input in
    let long : leb n 254 ≡ false = ground arith in
    let long' : leb (suc n) 255 ≡ false = ground arith in
    let fits : leb n 264 ≡ true = ground arith in
    let high : (n + 1) / 256 % 256 ≡ suc n / 256 = omega arith in
    let low : bit_and (n + 1) 0xff ≡ suc n % 256 = omega (arith, bit_and_mask 8 (n + 1)) in
    let masked = bit_and_mask 8 (suc n / 256 + suc n % 256) in
    let lcs : (256 - (suc n / 256 + suc n % 256) % 256) % 256
        ≡ complement (suc n / 256 + suc n % 256) =
      refl in
    rw (length-encode, long, long', fits, high, low, masked, subtract_bytes-complement 0xd4 input h)
      refl

-- Of data that are bytes, at most 264 of them, behind the start code that the caller has written, the frame is the
-- one of the format for a packet from the host, and its whole length is returned; more data is
-- refused, and nothing is written.
pub build_frame-eq-encode :
    (input : List ℕ) (size : ℕ)
    → AreBytes input
    → build_frame input size ≡ (
        if leb (length input) 264
        then (nfc_success, drop 3 (encode 0xd4 input), length (encode 0xd4 input))
        else (nfc_echip, [], size))
build_frame-eq-encode input size h = elim (dec_lt 264 (length input)) [
  | yes big ↦
      let refused : leb (length input) 264 ≡ false = ground arith in
      let long : leb (length input) 254 ≡ false = ground arith in
      unfold build_frame in rw (long, refused) refl
  | no fits ↦
      let taken : leb (length input) 264 ≡ true = ground arith in
      rw taken (elim (dec_lt 254 (length input)) [
        | yes long ↦ build_frame_extended input size h long (omega arith)
        | no short ↦ build_frame_normal input size h (omega arith)
      ])
]
