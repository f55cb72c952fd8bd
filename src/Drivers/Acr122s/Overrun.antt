-- ===== src/Drivers/Acr122s/Overrun.antt =====
-- A response whose length does not fit the arithmetic of `FRAME_SIZE`.
use libnfc.Prelude.{ℕ, ◌+◌, ◌-◌, ◌%◌, ◌^◌, ◌≤◌, ◌<◌, ◌≡◌, refl, arith}
use libnfc.Prelude.{List, [], ◌∷◌, ◌++◌, true, false, ltb, length, drop, lt→ltb}
use libnfc.Prelude.Int.{ℤ}
use libnfc.Pn53x.Device.{Device}
use libnfc.Pn53x.Monad.{aborted}
use libnfc.Drivers.Uart.{Uart, Delivers}
use libnfc.Drivers.Acr122s.{Acr122sData, receive, recv_frame}
use libnfc.Drivers.Acr122s.Frame.{frame_size, max_frame_size, le32}

wrapped-size :
    (size start message : ℕ) (rest : List ℕ)
    → 2 ^ 32 - 13 ≤ size
    → size < 2 ^ 32 - 2
    → frame_size (start ∷ message ∷ (le32 size ++ rest)) ≡ size + 13 - 2 ^ 32
unfolding frame_size
wrapped-size size start message rest lo hi = omega arith

module _ {P : Type 0} (uart : Uart P) (port : Delivers uart) (d : Device (Acr122sData P)) where
  open port use {Waiting, received}

  -- When the eleven bytes wait of the header of a response whose length field is at least 2 ^ 32 - 13
  -- and less than 2 ^ 32 - 2, the size of the frame wraps around to less than eleven, passes the test
  -- against the buffer, and the driver asks for more bytes than the buffer has room for.
  pub receive_overrun :
      (mem rest : List ℕ) (capacity : ℕ) (timeout : ℤ)
      (size start message slot seq status error chain : ℕ)
      → length mem ≡ max_frame_size
      → 2 ^ 32 - 13 ≤ size
      → size < 2 ^ 32 - 2
      → Waiting d.driver_data.port
          (start ∷ message ∷ (le32 size ++ (slot ∷ seq ∷ status ∷ error ∷ chain ∷ rest)))
      → receive uart mem capacity timeout d ≡ aborted
  unfolding receive recv_frame
  receive_overrun mem rest capacity timeout size start message slot seq status error chain full lo
        hi waiting =
      let front = start ∷ message ∷ (le32 size ++ (slot ∷ seq ∷ status ∷ error ∷ chain ∷ [])) in
      let got = received d.driver_data.port front rest true timeout (omega arith) waiting in
      let wrapped =
        wrapped-size size start message (slot ∷ seq ∷ status ∷ error ∷ chain ∷ drop 11 mem) lo hi in
      let enough : ltb (length mem) 13 ≡ false = ground arith in
      let passes : ltb (length mem) (size + 13 - 2 ^ 32) ≡ false = ground arith in
      let over : ltb (length mem) (11 + (size + 13 - 2 ^ 32 + 2 ^ 32 - 11) % 2 ^ 32) ≡ true =
        lt→ltb (length mem) (11 + (size + 13 - 2 ^ 32 + 2 ^ 32 - 11) % 2 ^ 32) (omega arith) in
      rw (enough, got, wrapped, passes, over) refl
