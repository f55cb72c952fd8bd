-- ===== src/Drivers/Uart.antt =====
-- libnfc/buses/uart.h as a driver calls it. What is behind the port belongs to the operating system
-- and the chip, so the operations are parameters.
use libnfc.Prelude.{ℕ, ◌<◌, ◌≡◌, Bool, List, ◌++◌, length}
use libnfc.Prelude.Int.{ℤ, pos}

-- `receive` gives the result of `uart_receive` for a count of bytes, with or without an abort
-- pointer and with a timeout, the buffer's content after the call, and the port.
pub record Uart (W : Type 0) : Type 0 where
  pub receive : W → ℕ → Bool → ℤ → ℤ × List ℕ × W
  pub send : W → List ℕ → ℤ → ℤ × W
  pub flush_input : W → W

-- The documented behaviour on a port at which bytes are waiting: `uart_receive` returns 0 and gives
-- as many of them as were asked for, in order.
pub record Delivers {W : Type 0} (uart : Uart W) : Type 1 where
  pub Waiting : W → List ℕ → Type 0
  pub next : W → List ℕ → List ℕ → W
  pub received :
      (w : W) (front back : List ℕ) (abort : Bool) (timeout : ℤ)
      → 0 < length front
      → Waiting w (front ++ back)
      → uart.receive w (length front) abort timeout ≡ (pos 0, front, next w front back)
  pub still_waiting :
      (w : W) (front back : List ℕ) → Waiting w (front ++ back) → Waiting (next w front back) back
