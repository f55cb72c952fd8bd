-- ===== src/Drivers/Acr122Pcsc/Laws.antt =====
-- What a sending and a receiving give together, and a command that does not fit its buffer.
use mathlib.Core.List.{append_assoc}
use libnfc.Prelude.{ℕ, ◌+◌, ◌-◌, ◌%◌, ◌≤◌, ◌≡◌, refl, ap, arith}
use libnfc.Prelude.{List, [], ◌∷◌, ◌++◌, true, false, ltb, length, drop}
use libnfc.Prelude.{length-append, take-append}
use libnfc.Prelude.Int.{ℤ, pos}
use libnfc.Pn53x.Device.{Device, nfc_success}
use libnfc.Pn53x.Monad.{M, ◌>>=◌, return, resume, done, aborted}
use libnfc.Drivers.Acr122Pcsc.{
  Pcsc, Acr122PcscData, Protocol, protocol_undefined, protocol_t0, protocol_other, send, receive,
  ask, unwrap, take_answer, tx_buffer, rx_command, response_len, command_len,
}

-- The answer of the chip as the reader hands it on: the direction byte and the code, the payload, and
-- the two status bytes.
abbrev pub answer_of : ℕ → ℕ → List ℕ → ℕ → ℕ → List ℕ
answer_of tfi code payload sw1 sw2 = tfi ∷ code ∷ (payload ++ sw1 ∷ sw2 ∷ [])

-- The card answers a command with `answer` by the protocol, and leaves `card'`: at once, or for T=0
-- by telling a count first and giving the answer when it is asked for so many bytes.
abbrev pub Gives : {P : Type 0} → Pcsc P → Protocol → P → List ℕ → List ℕ → P → Type 0
Gives pcsc protocol_undefined card tx answer card' =
    pcsc.control card tx response_len ≡ (true, answer, card')
Gives pcsc protocol_other card tx answer card' =
    pcsc.transmit card tx response_len ≡ (true, answer, card')
Gives {P} pcsc protocol_t0 card tx answer card' =
    (count : ℕ) × (mid : P) × (pcsc.transmit card tx response_len ≡ (true, 0x61 ∷ count ∷ [], mid))
    × (pcsc.transmit mid (rx_command count) response_len ≡ (true, answer, card'))

module _ {P : Type 0} (pcsc : Pcsc P) where
  -- A sending and a receiving behind it, with the results of both.
  abbrev pub send_receive : List ℕ → ℕ → M (Acr122PcscData P) (ℤ × ℤ × List ℕ)
  send_receive tx capacity = do
    sent ← send pcsc tx
    (got, rx) ← receive pcsc capacity
    return (sent, got, rx)

module _ {P : Type 0} (pcsc : Pcsc P) (d : Device (Acr122PcscData P)) where
  -- The device behind an exchange.
  abbrev pub after : P → List ℕ → ℕ → Device (Acr122PcscData P)
  after card rx n = record d {
    driver_data = record d.driver_data { card = card; rx = rx; rx_count = n };
  }

  unwrap-payload :
      (card : P) (payload more : List ℕ) (capacity n tfi code : ℕ)
      → n ≡ length payload + 4
      → length payload ≤ capacity
      → unwrap pcsc capacity (after card (tfi ∷ code ∷ (payload ++ more)) n)
        ≡ done ((pos (length payload), payload), after card (tfi ∷ code ∷ (payload ++ more)) n)
  unfolding unwrap
  unwrap-payload card payload more capacity n tfi code size fits =
      let whole : ltb n 4 ≡ false = ground arith in
      let less : n - 4 ≡ length payload = omega arith in
      let room : ltb capacity (length payload) ≡ false = ground arith in
      let inside : ltb (length (tfi ∷ code ∷ (payload ++ more))) (n - 2) ≡ false =
        ground (arith, length-append payload more) in
      rw (whole, less, room, inside, take-append payload more) refl

  -- The sending is a success, and the receiving gives the payload.
  abbrev Exchanged : List ℕ → List ℕ → ℕ → ℕ → P → Type 0
  Exchanged tx payload capacity n card =
      (rx : List ℕ) × (send_receive pcsc tx capacity d
        ≡ done ((nfc_success, pos (length payload), payload), after card rx n))

  by-protocol :
      (tx payload : List ℕ) (capacity tfi code sw1 sw2 : ℕ) (card : P) (p : Protocol)
      → length tx ≤ 254
      → length payload ≤ capacity
      → d.driver_data.protocol ≡ p
      → Gives pcsc p d.driver_data.card
          (0xff ∷ 0x00 ∷ 0x00 ∷ 0x00 ∷ (length tx + 1) ∷ 0xd4 ∷ tx)
          (answer_of tfi code payload sw1 sw2)
          card
      → Exchanged tx payload capacity (length (answer_of tfi code payload sw1 sw2)) card
  unfolding send receive ask take_answer tx_buffer
  by-protocol tx payload capacity tfi code sw1 sw2 card p short fits =
      let accepted : ltb command_len (length tx) ≡ false = ground arith in
      let inside : ltb 271 (length tx + 6) ≡ false = ground arith in
      let count : (length tx + 1) % 256 ≡ length tx + 1 = omega arith in
      let tail = sw1 ∷ sw2 ∷ [] in
      let size : length (answer_of tfi code payload sw1 sw2) ≡ length payload + 4 =
        omega (arith, length-append payload tail) in
      let taken = λ (behind : List ℕ).
        unwrap-payload card payload (tail ++ behind) capacity
          (length (answer_of tfi code payload sw1 sw2)) tfi code size fits in
      let with_success : ℤ × List ℕ → M (Acr122PcscData P) (ℤ × ℤ × List ℕ) =
        (λ (got, rx). return (nfc_success, got, rx)) in
      let answer = answer_of tfi code payload sw1 sw2 in
      let behind = drop (length answer) d.driver_data.rx in
      let regroup = append_assoc payload tail in
      let command = 0xff ∷ 0x00 ∷ 0x00 ∷ 0x00 ∷ (length tx + 1) ∷ 0xd4 ∷ tx in
      elim p
        as (λ k.
          d.driver_data.protocol ≡ k
          → Gives pcsc k d.driver_data.card command answer card
          → Exchanged tx payload capacity (length answer) card) [
            | protocol_undefined ↦ λ is_p gives. (
              tfi ∷ code ∷ (payload ++ (tail ++ behind)),
              rw (accepted, inside, count, is_p, gives, regroup behind)
                  (ap (λ o. resume o with_success) (rw is_p at taken behind)),
            )
            | protocol_other ↦ λ is_p gives. (
              tfi ∷ code ∷ (payload ++ (tail ++ behind)),
              rw (accepted, inside, count, is_p, gives, regroup behind)
                  (ap (λ o. resume o with_success) (rw is_p at taken behind)),
            )
            | protocol_t0 ↦ λ is_p (count', mid, acknowledged, asked).
                let behind' = drop (length answer) (0x61 ∷ count' ∷ drop 2 d.driver_data.rx) in
                (
                  tfi ∷ code ∷ (payload ++ (tail ++ behind')),
                  rw (accepted, inside, count, is_p, acknowledged, asked, regroup behind')
                      (ap (λ o. resume o with_success) (rw is_p at taken behind')),
                )
          ]

  -- With at most 254 bytes of data, by each of the protocols, when the card answers the command with a
  -- payload that fits the caller's buffer: the sending is a success, and the receiving behind it
  -- returns the number of bytes of the payload and the payload. Nothing changes in the device but
  -- the card and the driver's record of the answer. The two bytes in front of the payload and the
  -- two behind it do not matter.
  pub receive-send_pcsc :
      (tx payload : List ℕ) (capacity tfi code sw1 sw2 : ℕ) (card : P)
      → length tx ≤ 254
      → length payload ≤ capacity
      → Gives pcsc d.driver_data.protocol d.driver_data.card
          (0xff ∷ 0x00 ∷ 0x00 ∷ 0x00 ∷ (length tx + 1) ∷ 0xd4 ∷ tx)
          (answer_of tfi code payload sw1 sw2)
          card
      → (rx : List ℕ) × (send_receive pcsc tx capacity d
          ≡ done (
            (nfc_success, pos (length payload), payload),
            after card rx (length (answer_of tfi code payload sw1 sw2)),
          ))
  receive-send_pcsc tx payload capacity tfi code sw1 sw2 card short fits gives =
      by-protocol tx payload capacity tfi code sw1 sw2 card d.driver_data.protocol short fits refl
        gives

  -- Data of 266 bytes pass the test of the size, and are written behind the buffer for the command,
  -- which has room for six bytes in front and 265 of data.
  send_overrun_pcsc : (tx : List ℕ) → length tx ≡ command_len → send pcsc tx d ≡ aborted
  unfolding send
  send_overrun_pcsc tx full = rw full refl
