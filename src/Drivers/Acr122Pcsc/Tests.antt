-- ===== src/Drivers/Acr122Pcsc/Tests.antt =====
-- A card that answers by T=0: it counts its answer, and gives it when asked.
use libnfc.Prelude.{ℕ, ◌≡◌, refl, arith, true, List, [], ◌∷◌, ◌==◌, if◌then◌else◌, replicate}
use libnfc.Prelude.Int.{pos}
use libnfc.Pn53x.Device.{Device, nfc_success}
use libnfc.Pn53x.Monad.{done}
use libnfc.Pn53x.Samples.{sample}
use libnfc.Drivers.Acr122Pcsc.{Pcsc, Acr122PcscData, protocol_t0}
use libnfc.Drivers.Acr122Pcsc.Laws.{answer_of, after, send_receive, receive-send_pcsc}

abbrev version : List ℕ
version = 0x32 ∷ 0x01 ∷ 0x06 ∷ 0x07 ∷ []

abbrev answer : List ℕ
answer = answer_of 0xd5 0x03 version 0x90 0x00

-- The card is the count of the calls.
abbrev pcsc : Pcsc ℕ
pcsc = record {
  control = λ card tx room. (true, [], card);
  transmit = λ card tx room. if card == 0 then (true, 0x61 ∷ 8 ∷ [], 1) else (true, answer, 2);
}

abbrev device : Device (Acr122PcscData ℕ)
device = sample (record { card = 0; protocol = protocol_t0; rx = replicate 268 0; rx_count = 0 })

receive-send_pcsc_example :
    (rx : List ℕ) × (send_receive pcsc (0x02 ∷ []) 264 device
      ≡ done ((nfc_success, pos 4, version), after pcsc device 2 rx 8))
receive-send_pcsc_example =
    receive-send_pcsc pcsc device (0x02 ∷ []) version 264 0xd5 0x03 0x90 0x00 2 (omega arith)
      (omega arith) (8, 1, refl, refl)
