-- ===== src/Pn53x/Frame.antt =====
-- The frames between the host and a PN53x: `pn53x_build_frame`, `pn53x_check_ack_frame` and
-- `pn53x_check_error_frame` of libnfc/chips/pn53x.c.
pub mod Format
pub mod Laws
mod Tests
use libnfc.Prelude.{ℕ, suc, ◌+◌, ◌-◌, ◌/◌, ◌%◌, ◌^◌, Bool, true, false, ◌&&◌, List, [], ◌∷◌, ◌++◌}
use libnfc.Prelude.{leb, ◌==◌, if◌then◌else◌, length, take, bit_and}
use libnfc.Prelude.Int.{ℤ}
use libnfc.Pn53x.Device.{Device, nfc_success, nfc_eio, nfc_echip}

-- `0 == memcmp(…)` on lists of the same length.
unfoldable pub equal_bytes : List ℕ → List ℕ → Bool
equal_bytes [] [] = true
equal_bytes [] (y ∷ ys) = false
equal_bytes (x ∷ xs) [] = false
equal_bytes (x ∷ xs) (y ∷ ys) = x == y && equal_bytes xs ys

abbrev pub ack_frame : List ℕ
ack_frame = 0x00 ∷ 0x00 ∷ 0xff ∷ 0x00 ∷ 0xff ∷ 0x00 ∷ []

abbrev pub error_frame : List ℕ
error_frame = 0x00 ∷ 0x00 ∷ 0xff ∷ 0x01 ∷ 0xff ∷ 0x7f ∷ 0x81 ∷ 0x00 ∷ []

-- `for (…) btDCS -= pbtData[szPos];` on a `uint8_t`.
unfoldable pub subtract_bytes : ℕ → List ℕ → ℕ
subtract_bytes dcs [] = dcs
subtract_bytes dcs (x ∷ xs) = subtract_bytes ((dcs + 256 - x) % 256) xs

-- The result, what is written to `pbtFrame + 3` and on (the writes are side by side; the caller has
-- put 00 00 ff in front), and `*pszFrame`, which an error leaves as it was.
unfoldable pub build_frame : List ℕ → ℕ → ℤ × List ℕ × ℕ
build_frame input size =
    let n = length input in
    let dcs = subtract_bytes (256 - 0xd4) input in
    if leb n 254
    then (
      nfc_success,
      ((n + 1) % 256) ∷ ((256 - (n + 1)) % 256) ∷ 0xd4 ∷ (input ++ dcs ∷ 0x00 ∷ []),
      n + 8,
    )
    else if leb n 264
    then (
      nfc_success,
      0xff
          ∷ 0xff
          ∷ ((n + 1) / 2 ^ 8 % 256)
          ∷ (bit_and (n + 1) 0xff)
          ∷ ((256 - bit_and ((n + 1) / 2 ^ 8 % 256 + bit_and (n + 1) 0xff) 0xff) % 256)
          ∷ 0xd4
          ∷ (input ++ dcs ∷ 0x00 ∷ []),
      n + 11,
    )
    else (nfc_echip, [], size)

module _ {W : Type 0} where
  unfoldable pub check_ack_frame : Device W → List ℕ → ℤ × Device W
  check_ack_frame d rx =
      if leb 6 (length rx) && equal_bytes (take 6 rx) ack_frame
      then (nfc_success, d)
      else (nfc_eio, record d { last_error = nfc_eio })

  unfoldable pub check_error_frame : Device W → List ℕ → ℤ × Device W
  check_error_frame d rx =
      if leb 8 (length rx) && equal_bytes (take 8 rx) error_frame
      then (nfc_eio, record d { last_error = nfc_eio })
      else (nfc_success, d)
