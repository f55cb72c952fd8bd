-- ===== src/Drivers/Usb.antt =====
-- The bulk transfers of libusb as a driver calls them, and what the drivers for USB do alike. What is
-- behind the port belongs to the operating system and the chip, so the transfers are parameters.
pub mod Reads
pub mod Devices
use libnfc.Prelude.{
  ℕ, ◌+◌, ◌-◌, ◌≤◌, Bool, false, List, [], ◌++◌, length, drop, get_elem?, ltb, leb, min,
  if◌then◌else◌,
}
use libnfc.Prelude.Int.{ℤ, pos, negsuc}
use libnfc.Pn53x.Monad.{M, need, ◌>>=◌, ◌>>◌, return, modify}

-- `bulk_read` takes the size of the buffer and a timeout in milliseconds, and gives the result of
-- `usb_bulk_read`, the bytes that came, and the port. `interrupted` says whether another thread has
-- asked for an abort while the last read waited.
pub record Usb (P : Type 0) : Type 0 where
  pub bulk_read : P → ℕ → ℤ → ℤ × List ℕ × P
  pub bulk_write : P → List ℕ → ℤ → ℤ × P
  pub interrupted : P → Bool

-- The documented bound of a read: no more bytes come than the buffer has room for.
abbrev pub ReadsWithin : {P : Type 0} → Usb P → Type 0
ReadsWithin {P} usb =
    (p : P) (size : ℕ) (timeout : ℤ) → length (usb.bulk_read p size timeout).1 ≤ size

-- `-USB_TIMEDOUT`, `-ETIMEDOUT` on Linux.
abbrev pub usb_timedout : ℤ
usb_timedout = negsuc 109

-- A buffer with `mem` in it after a transfer.
abbrev pub fill : List ℕ → List ℕ → List ℕ
fill bytes mem = bytes ++ drop (length bytes) mem

-- `abtRxBuf[i]`
abbrev pub at : {W : Type 0} → List ℕ → ℕ → M W ℕ
at rx i = need (get_elem? rx i)

-- `remaining_time -= USB_TIMEOUT_PER_PASS`, its test against zero, and the time of a pass.
abbrev pub less_pass : ℤ → ℤ
less_pass (pos n) = if leb 200 n then pos (n - 200) else negsuc (199 - n)
less_pass (negsuc n) = negsuc (n + 200)

abbrev pub is_positive : ℤ → Bool
is_positive (pos n) = ltb 0 n
is_positive (negsuc n) = false

abbrev pub shorter : ℤ → ℤ
shorter (pos n) = pos (min n 200)
shorter (negsuc n) = negsuc n

-- `pnd->last_error = e; return pnd->last_error;`
abbrev pub refused : {W : Type 0} → ℤ → M W (ℤ × List ℕ)
refused e = do modify (λ d. record d { last_error = e }); return (e, [])
