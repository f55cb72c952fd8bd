-- ===== src/Pn53x/Framing/RoundTrip.antt =====
-- `pn53x_wrap_frame` followed by `pn53x_unwrap_frame`, and the room that the second one needs.
use libnfc.Prelude.{ℕ, zero, suc, ◌+◌, ◌-◌, ◌*◌, ◌/◌, ◌%◌, ◌≤◌, ◌<◌, ◌≡◌, refl, arith}
use libnfc.Prelude.{Option, none, some, List, false, ltb, ◌==◌, length, get_elem?, get_or}
use libnfc.Prelude.{length-set}
use libnfc.Prelude.Int.{pos}
use libnfc.Mirror.{mirror}
use libnfc.Pn53x.Framing.{
  wrap_frame, unwrap_frame, unwrap_loop, gather, parity, store_par, store, ◌>>=◌,
}
use libnfc.Pn53x.Framing.Wrap.{InRange, Wrapped, wrap_loop-Wrapped, held_group}
use libnfc.Pn53x.Framing.Unwrap.{unwrap_loop-Returns}

module _ (tx tx_par frame : List ℕ) (bits : ℕ) where
  -- `bits` bits of data are at least two bytes, and the buffers hold them; the frame and what is
  -- unwrapped into need one byte more where the last byte is whole.
  pub record Room (rx rx_par : List ℕ) : Type 0 where
    pub long : 9 ≤ bits
    pub tx_fits : (bits - 1) / 8 < length tx
    pub tx_par_fits : (bits - 1) / 8 < length tx_par
    pub frame_fits : bits / 8 + bits / 8 / 8 + 1 < length frame
    pub rx_fits : bits / 8 < length rx
    pub rx_par_fits : bits / 8 < length rx_par

  wrap_frame-Wrapped :
      InRange tx
      → 9 ≤ bits
      → (bits - 1) / 8 < length tx
      → (bits - 1) / 8 < length tx_par
      → bits / 8 + bits / 8 / 8 + 1 < length frame
      → (out : List ℕ) × (wrap_frame tx tx_par bits frame ≡ some (pos (bits + bits / 8), out))
        × Wrapped tx tx_par 0 (suc (0 + (bits - 1) / 8)) frame out
  unfolding wrap_frame
  wrap_frame-Wrapped bytes long a b c =
      let n = (bits - 1) / 8 in
      let some_bits : (bits == 0) ≡ false = ground arith in
      let many_bits : ltb bits 9 ≡ false = ground arith in
      let run =
        wrap_loop-Wrapped tx tx_par n bits 0 bits frame bytes (omega arith) (omega arith)
          (omega arith) (omega arith) (omega arith) (omega arith) in
      let entered = rw (held_group tx tx_par 0 refl) at run.1 in
      (run.0, rw (some_bits, many_bits, entered) refl, run.2)

  -- With data of two bytes or more (each below 256) and room in the buffers, wrapping succeeds with 9 bits for each 8
  -- of a whole byte, and unwrapping that frame succeeds with the number of bits of the data, each of
  -- its bytes, and each of its parity bits.
  pub unwrap_frame-wrap_frame :
      (rx rx_par : List ℕ)
      → InRange tx
      → Room rx rx_par
      → (out back back_par : List ℕ) × (wrap_frame tx tx_par bits frame
          ≡ some (pos (bits + bits / 8), out))
        × (unwrap_frame out (bits + bits / 8) rx (some rx_par)
            ≡ some (pos bits, back, some back_par))
        × ((k : ℕ) → k < (bits + 7) / 8 → get_elem? back k ≡ some (get_or tx k 0))
        × ((k : ℕ) → k < (bits + 7) / 8 → get_elem? back_par k ≡ some (get_or tx_par k 0 % 2))
  unfolding unwrap_frame
  unwrap_frame-wrap_frame rx rx_par bytes room =
      let n = bits / 8 in
      let f = bits + bits / 8 in
      let (out, wrapped, w) =
        wrap_frame-Wrapped bytes room.long room.tx_fits room.tx_par_fits room.frame_fits in
      let some_bits : (f == 0) ≡ false = ground arith in
      let many_bits : ltb f 9 ≡ false = ground arith in
      let count : f - f / 9 ≡ bits = omega arith in
      let same = w.same_length in
      let (back, back_par, run, u) =
        unwrap_loop-Returns tx tx_par out bytes n f 0 (suc ((bits - 1) / 8)) f rx rx_par
          (omega arith) (omega arith) (omega arith) (omega arith) (omega arith) (omega arith)
          (omega arith) (omega arith) (λ k lo hi. w.holds k lo (omega arith)) in
      (
        out,
        back,
        back_par,
        wrapped,
        rw (some_bits, many_bits, run, count) refl,
        λ k h. u.data_back k (omega arith) (omega arith),
        λ k h. u.parity_back k (omega arith) (omega arith),
      )

-- A chain whose rest fails on every value fails.
>>=-none :
    {A B : Type 0} (m : Option A) (f : A → Option B)
    → ((a : A) → m ≡ some a → f a ≡ none)
    → (m >>= f) ≡ none
>>=-none none f h = refl
>>=-none (some a) f h = h a refl

-- A write that succeeds is inside the buffer and keeps its size.
store-some :
    (buf : List ℕ) (i v : ℕ) (out : List ℕ)
    → store buf i v ≡ some out
    → (i < length buf) × (length out ≡ length buf)
store-some buf i v out h = ground (arith, length-set buf i v)

module _ (frame : List ℕ) where
  -- The loop goes on past the end of the output: with nine bits left for each byte of room it has not
  -- stopped when the room is used up.
  unwrap_loop_overrun :
      (fuel m p j at left : ℕ) (rx : List ℕ) (rx_par : Option (List ℕ))
      → left ≡ 9 * m
      → j + m ≡ length rx
      → unwrap_loop frame fuel p j at left rx rx_par ≡ none
  unfolding unwrap_loop
  unwrap_loop_overrun zero m p j at left rx rx_par e h = refl
  unwrap_loop_overrun (suc fuel) m p j at left rx rx_par e h =
      >>=-none (get_elem? frame (at + j)) _ λ b0 r0.
        >>=-none (get_elem? frame (at + (j + 1))) _ λ b1 r1.
          >>=-none (store rx j (mirror (gather p b0 b1))) _ λ rx' stored.
            >>=-none (store_par rx_par j (parity p b1)) _ λ rx_par' r2.
              let (inside, size) = store-some rx j (mirror (gather p b0 b1)) rx' stored in
              let more : ltb left 9 ≡ false = ground arith in
              let next = λ (p' : ℕ) (at' : ℕ).
                unwrap_loop_overrun fuel (m - 1) p' (j + 1) at' (left - 9) rx' rx_par' (omega arith)
                  (omega arith) in
              rw (more, next 0 (at + 1), next (p + 1) at) (ground arith)

  -- Unwrapping a frame of whole bytes into a buffer of just as many bytes writes past its end.
  pub unwrap_frame_overrun :
      (k : ℕ) (rx : List ℕ) (rx_par : Option (List ℕ))
      → 0 < k
      → length rx ≡ k
      → unwrap_frame frame (9 * k) rx rx_par ≡ none
  unfolding unwrap_frame
  unwrap_frame_overrun k rx rx_par p h =
      let some_bits : (9 * k == 0) ≡ false = ground arith in
      let many_bits : ltb (9 * k) 9 ≡ false = ground arith in
      rw
        (
          some_bits,
          many_bits,
          unwrap_loop_overrun (9 * k) k 0 0 0 (9 * k) rx rx_par refl (omega arith),
        )
        refl
