-- ===== src/Pn53x/Framing/Tests.antt =====
-- Two bytes and two parity bits, into a frame and back.
use libnfc.Prelude.{
  ℕ, zero, suc, ◌%◌, ◌<◌, ◌≡◌, arith, none, some, List, [], ◌∷◌, get_elem?, get_or,
}
use libnfc.Prelude.Int.{pos}
use libnfc.Pn53x.Framing.{wrap_frame, unwrap_frame}
use libnfc.Pn53x.Framing.Wrap.{InRange}
use libnfc.Pn53x.Framing.RoundTrip.{Room, unwrap_frame-wrap_frame, unwrap_frame_overrun}

abbrev data_bytes : List ℕ
data_bytes = 0x93 ∷ 0x20 ∷ []

abbrev parity_bits : List ℕ
parity_bits = 1 ∷ 0 ∷ []

abbrev blank : List ℕ
blank = 0 ∷ 0 ∷ 0 ∷ 0 ∷ []

data-InRange : InRange data_bytes
data-InRange zero = omega arith
data-InRange (suc zero) = omega arith
data-InRange (suc (suc k)) = omega arith

data-Room : Room data_bytes parity_bits blank 16 blank blank
data-Room = record {
  long = omega arith;
  tx_fits = omega arith;
  tx_par_fits = omega arith;
  frame_fits = omega arith;
  rx_fits = omega arith;
  rx_par_fits = omega arith;
}

unwrap_frame-wrap_frame_example :
    (out back back_par : List ℕ) × (wrap_frame data_bytes parity_bits 16 blank ≡ some (pos 18, out))
    × (unwrap_frame out 18 blank (some blank) ≡ some (pos 16, back, some back_par))
    × ((k : ℕ) → k < 2 → get_elem? back k ≡ some (get_or data_bytes k 0))
    × ((k : ℕ) → k < 2 → get_elem? back_par k ≡ some (get_or parity_bits k 0 % 2))
unwrap_frame-wrap_frame_example =
    unwrap_frame-wrap_frame data_bytes parity_bits blank 16 blank blank data-InRange data-Room

unwrap_frame_overrun_example :
    unwrap_frame (0x93 ∷ 0x41 ∷ 0x00 ∷ 0x00 ∷ []) 18 (0 ∷ 0 ∷ []) none ≡ none
unwrap_frame_overrun_example =
    unwrap_frame_overrun (0x93 ∷ 0x41 ∷ 0x00 ∷ 0x00 ∷ []) 2 (0 ∷ 0 ∷ []) none (omega arith)
      (omega arith)
