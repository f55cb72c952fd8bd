-- ===== src/Drivers/Acr122Usb/Laws.antt =====
-- What the driver sends for a command, and what it makes of the response of a reader.
use mathlib.Core.List.{append_assoc}
use libnfc.Prelude.{ℕ, suc, ◌+◌, ◌-◌, ◌/◌, ◌%◌, ◌^◌, ◌≤◌, ◌<◌, ◌≡◌, ◌⊎◌, inl, inr, refl, arith}
use libnfc.Prelude.{
  List, ◌∷◌, ◌++◌, true, false, not, ltb, leb, ◌==◌, ◌&&◌, ◌||◌, length, drop, min,
}
use libnfc.Prelude.{length-append, take-append, ==_self}
use libnfc.Prelude.Int.{ℤ, pos}
use libnfc.Pn53x.Device.{Device}
use libnfc.Pn53x.Monad.{done}
use libnfc.Drivers.Usb.{Usb}
use libnfc.Drivers.Acr122Usb.{take_response, receive, read_loop, pass, by_model, finish}
use libnfc.Drivers.Acr122Usb.Data.{Acr122UsbData, acr122, rdr_escape, bulk_read, htole32}

take_response-payload :
    {W : Type 0} (d : Device W) (expected capacity size slot seq status error rfu : ℕ)
    (payload more : List ℕ)
    → size % 256 ≡ length payload + 4
    → size < 2 ^ 24
    → length payload ≤ capacity
    → take_response expected capacity
        (expected
          ∷ (htole32 size
              ++ (slot
                  ∷ seq
                  ∷ status
                  ∷ error
                  ∷ rfu
                  ∷ 0xd5
                  ∷ (d.last_command + 1)
                  ∷ (payload ++ more))))
        d
      ≡ done ((pos (length payload), payload), d)
unfolding take_response
take_response-payload d expected capacity size slot seq status error rfu payload more low high
      fits =
    let n = length payload in
    let top : (size / 2 ^ 24 % 256 == 0x00) ≡ true = ground arith in
    let one_byte : (not (size / 2 ^ 8 % 256 == 0x00)
          && (not (size / 2 ^ 16 % 256 == 0x00) && not (size / 2 ^ 24 % 256 == 0x00)))
        ≡ false =
      ground arith in
    let enough : ltb (n + 4) 4 ≡ false = ground arith in
    let len : n + 4 - 4 ≡ n = omega arith in
    let room : ltb capacity n ≡ false = ground arith in
    let frame =
      expected
      ∷ (htole32 size
          ++ (slot
              ∷ seq
              ∷ status
              ∷ error
              ∷ rfu
              ∷ 0xd5
              ∷ (d.last_command + 1)
              ∷ (payload ++ more))) in
    let inside : ltb (length frame) (12 + n) ≡ false = ground (arith, length-append payload more) in
    rw
      (
        ==_self expected,
        one_byte,
        low,
        enough,
        len,
        room,
        ==_self (d.last_command + 1),
        inside,
        take-append payload more,
      )
      refl

-- A response as an ACR122 sends it: the header with the length, the packet of the chip, and what
-- comes behind.
abbrev pub response : ℕ → ℕ → ℕ → ℕ → ℕ → ℕ → ℕ → List ℕ → List ℕ → List ℕ
response command size slot seq status error rfu payload more =
    rdr_escape
    ∷ (htole32 size
        ++ (slot ∷ seq ∷ status ∷ error ∷ rfu ∷ 0xd5 ∷ (command + 1) ∷ (payload ++ more)))

module _ {P : Type 0} (usb : Usb P) (d : Device (Acr122UsbData P)) where
  -- On an ACR122, when the first transfer brings a response to the last command, with no timeout or one
  -- of more than 200 milliseconds, and with a length below 2 ^ 24 whose lowest byte is the size of a
  -- payload that fits the caller's buffer, and four more: the driver returns that number of bytes and
  -- the payload, and takes over the port and a request to abort; nothing else of the device changes.
  -- Of the length, it takes just the lowest byte; the status and the error of the reader, and what
  -- comes behind the payload, do not matter.
  pub receive_response_usb :
      (fuel : ℕ) (mem payload more : List ℕ) (capacity count : ℕ) (timeout : ℤ) (port : P)
      (size slot seq status error rfu : ℕ)
      → d.driver_data.model ≡ acr122
      → size % 256 ≡ length payload + 4
      → size < 2 ^ 24
      → length payload ≤ capacity
      → (timeout ≡ pos 0) ⊎ ((t : ℕ) × (timeout ≡ pos t) × (200 < t))
      → ((t : ℤ)
          → usb.bulk_read d.driver_data.port (length mem) t ≡ (
            pos count,
            response d.last_command size slot seq status error rfu payload more,
            port,
          ))
      → receive usb (suc fuel) mem capacity timeout d
        ≡ done (
          (pos (length payload), payload),
          record d {
            driver_data = record d.driver_data {
              port = port;
              abort_flag = d.driver_data.abort_flag || usb.interrupted port;
            };
          },
        )
  unfolding receive read_loop pass by_model finish bulk_read
  receive_response_usb fuel mem payload more capacity count timeout port size slot seq status error
        rfu model low high fits when got =
      let d1 : Device (Acr122UsbData P) = record d {
        driver_data = record d.driver_data {
          port = port;
          abort_flag = d.driver_data.abort_flag || usb.interrupted port;
        };
      } in
      let frame = response d.last_command size slot seq status error rfu payload more in
      let behind = drop (length frame) mem in
      let taken =
        take_response-payload d1 rdr_escape capacity size slot seq status error rfu payload
          (more ++ behind) low high fits in
      let regroup = append_assoc payload more behind in
      elim when [
        | inl e ↦ rw (e, got (pos 200), model, regroup) (rw model at taken)
        | inr (t, e, long) ↦
            let whole : leb 200 t ≡ true = ground arith in
            let left : ltb 0 (t - 200) ≡ true = ground arith in
            let timed : (t == 0) ≡ false = ground arith in
            rw (e, timed, whole, left, got (pos (min (t - 200) 200)), model, regroup)
              (rw model at taken)
      ]
