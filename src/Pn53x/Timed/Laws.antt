-- ===== src/Pn53x/Timed/Laws.antt =====
-- The range of the timer, a command that does not fit its buffer, and a wait without an end.
use libnfc.Prelude.{ℕ, zero, suc, ◌+◌, ◌*◌, ◌/◌, ◌%◌, ◌^◌, ◌≤◌, ◌<◌, ◌≡◌, refl, arith}
use libnfc.Prelude.{List, [], ◌∷◌, true, false, ltb, length, length-append, lt→ltb}
use libnfc.Prelude.Int.{pos}
use libnfc.Pn53x.Device.{Device}
use libnfc.Pn53x.Monad.{done, aborted, out_of_fuel, Transceive}
use libnfc.Pn53x.Registers.{write_register, cache_write, read_register, max_data}
use libnfc.Pn53x.Timed.{prescaler_for, fifo_writes, send_command, timed, init_timer, wait_loop}
use libnfc.Pn53x.Timed.{transceive_bytes_timed, transceive_bits_timed, ciu_fifo_level}

-- For more cycles than the counter counts, the timer counts at most so many before it stops, and they
-- are less than two of its ranges of 0xffff more.
prescaler_for-range :
    (max_cycles : ℕ)
    → 0xffff < max_cycles
    → (0xffff * (2 * prescaler_for max_cycles + 1) ≤ max_cycles)
      × (max_cycles < 0xffff * (2 * prescaler_for max_cycles + 3))
unfolding prescaler_for
prescaler_for-range max_cycles h =
    let large : ltb 0xffff max_cycles ≡ true = lt→ltb 0xffff max_cycles h in
    rw large (omega arith, omega arith)

length-fifo_writes : (xs : List ℕ) → length (fifo_writes xs) ≡ 3 * length xs
unfolding fifo_writes
length-fifo_writes [] = refl
length-fifo_writes (x ∷ xs) = omega (arith, length-fifo_writes xs)

module _ {W : Type 0} (transceive : Transceive W) where
  -- With parity by the chip, without easy framing, and with more than 84 bytes to send, a timed exchange
  -- writes its command past the end of the buffer, whatever the chip is.
  pub transceive_bytes_timed_overrun :
      (fuel junk correction cycles : ℕ) (tx out : List ℕ) (d : Device W)
      → d.par ≡ true
      → d.easy_framing ≡ false
      → 84 < length tx
      → transceive_bytes_timed transceive fuel junk correction cycles tx out d ≡ aborted
  unfolding transceive_bytes_timed timed init_timer send_command write_register cache_write
  transceive_bytes_timed_overrun fuel junk correction cycles tx out d par easy long =
      let tail : List ℕ = 0x63 ∷ 0x3d ∷ 0x80 ∷ [] in
      let over : ltb max_data (length (send_command tx 0)) ≡ true =
        lt→ltb max_data (length (send_command tx 0))
          (omega (arith, length-fifo_writes tx, length-append (fifo_writes tx) tail)) in
      rw (par, easy, over) refl

  -- When the loop is to wait for 2 ^ 16 rounds or more, which its counter does not reach, and from a
  -- device in a state `Waits` on each read of the FIFO's level succeeds, gives 0, and leaves a device in
  -- such a state, then the loop has no end: no fuel is enough.
  pub wait_loop-endless :
      (Waits : Device W → Type 0)
      → ((d : Device W)
          → Waits d
          → (res : ℕ) × (d' : Device W) × (read_register transceive ciu_fifo_level d
              ≡ done ((pos res, 0), d'))
            × Waits d')
      → (rounds : ℕ) → 2 ^ 16 ≤ rounds
      → (fuel i junk : ℕ) (d : Device W) → i < 2 ^ 16
      → Waits d
      → wait_loop transceive fuel rounds i junk d ≡ out_of_fuel
  unfolding wait_loop
  wait_loop-endless Waits empty rounds many zero i junk d below waits = refl
  wait_loop-endless Waits empty rounds many (suc fuel) i junk d below waits =
      let more : ltb i rounds ≡ true = ground arith in
      let (res, d', read, waits') = empty d waits in
      rw (more, read)
        (wait_loop-endless Waits empty rounds many fuel ((i + 1) % 2 ^ 16) 0 d' (omega arith)
          waits')

  -- With parity by the chip, and neither easy framing nor CRC, a timed exchange of bits that fill whole
  -- bytes reads a byte behind the data of the caller.
  transceive_bits_timed_overread :
      (fuel junk correction cycles : ℕ) (tx out : List ℕ) (d : Device W)
      → d.par ≡ true
      → d.easy_framing ≡ false
      → d.crc ≡ false
      → transceive_bits_timed transceive fuel junk correction cycles tx (8 * length tx) out d
        ≡ aborted
  unfolding transceive_bits_timed
  transceive_bits_timed_overread fuel junk correction cycles tx out d par easy crc =
      let short : ltb (length tx) (8 * length tx / 8 + 1) ≡ true =
        lt→ltb (length tx) (8 * length tx / 8 + 1) (omega arith) in
      rw (par, easy, crc, short) refl
