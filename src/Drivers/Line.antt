-- ===== src/Drivers/Line.antt =====
-- A port for tests: a list of waiting bytes, to which every sending adds the same reply.
use libnfc.Prelude.{ℕ, ◌<◌, ◌≡◌, refl, List, [], ◌++◌, take, drop, length, Bool}
use libnfc.Prelude.{take-append, drop-append}
use libnfc.Prelude.Int.{ℤ, pos}
use libnfc.Drivers.Uart.{Uart, Delivers}

abbrev pub line : List ℕ → Uart (List ℕ)
line reply = record {
  receive = λ w n abort timeout. (pos 0, take n w, drop n w);
  send = λ w bytes timeout. (pos 0, w ++ reply);
  flush_input = λ w. [];
}

pub line-received :
    (reply w front back : List ℕ) (abort : Bool) (timeout : ℤ)
    → 0 < length front
    → w ≡ front ++ back
    → (line reply).receive w (length front) abort timeout ≡ (pos 0, front, back)
line-received reply w front back abort timeout h e =
    rw (e, take-append front back, drop-append front back) refl

abbrev pub line-Delivers : (reply : List ℕ) → Delivers (line reply)
line-Delivers reply = record {
  Waiting = λ w bytes. w ≡ bytes;
  next = λ w front back. back;
  received = line-received reply;
  still_waiting = λ w front back e. refl;
}
