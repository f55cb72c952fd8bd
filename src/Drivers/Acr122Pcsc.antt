-- ===== src/Drivers/Acr122Pcsc.antt =====
-- libnfc/drivers/acr122_pcsc.c: the I/O functions of the driver, over the PC/SC service.
pub mod Laws
mod Tests
use libnfc.Prelude.{ℕ, ◌+◌, ◌-◌, ◌%◌, Bool, List, [], ◌∷◌}
use libnfc.Prelude.{not, ltb, ◌==◌, ◌||◌, if◌then◌else◌, length, take, drop, replicate}
use libnfc.Prelude.Int.{ℤ, pos}
use libnfc.Pn53x.Device.{nfc_success, nfc_eio, nfc_einvarg}
use libnfc.Pn53x.Monad.{M, ◌>>=◌, ◌>>◌, return, get, modify, crash}
use libnfc.Drivers.Usb.{at, fill}

-- `SCardControl` with the escape code, and `SCardTransmit`, on a handle: the bytes that are sent and
-- the room for an answer; whether the call was a success, the answer, and the handle.
pub record Pcsc (P : Type 0) : Type 0 where
  pub control : P → List ℕ → ℕ → Bool × List ℕ × P
  pub transmit : P → List ℕ → ℕ → Bool × List ℕ × P

-- The values of `ioCard.dwProtocol` that the driver tells apart.
pub data Protocol : Type 0 where
  protocol_undefined : Protocol
  protocol_t0 : Protocol
  protocol_other : Protocol

-- `struct acr122_pcsc_data`. `rx` is the whole of `abtRx`, of which `rx_count` bytes are the answer.
pub record Acr122PcscData (P : Type 0) : Type 0 where
  pub card : P
  pub protocol : Protocol
  pub rx : List ℕ
  pub rx_count : ℕ

abbrev pub operation_error : ℕ
operation_error = 0x63

abbrev pub wrap_len : ℕ
wrap_len = 5

abbrev pub command_len : ℕ
command_len = 266

abbrev pub response_len : ℕ
response_len = 268

-- `abtTxBuf`. The count is a byte.
unfoldable pub tx_buffer : List ℕ → List ℕ
tx_buffer tx = 0xff ∷ 0x00 ∷ 0x00 ∷ 0x00 ∷ (length tx + 1) % 256 ∷ 0xd4 ∷ tx

-- `abtRxCmd`
abbrev pub rx_command : ℕ → List ℕ
rx_command count = 0xff ∷ 0xc0 ∷ 0x00 ∷ 0x00 ∷ count ∷ []

-- The room for a firmware text: `dwFwLen - 1`, or all of it.
abbrev pub firmware_room : Protocol → ℕ
firmware_room protocol_undefined = 10
firmware_room _ = 11

module _ {P : Type 0} (pcsc : Pcsc P) where
  -- `pnd->last_error = e; return pnd->last_error;`
  abbrev pub refused : ℤ → M (Acr122PcscData P) ℤ
  refused e = do modify (λ d. record d { last_error = e }); return e

  -- A call of the service leaves its answer in `abtRx`.
  abbrev keep_answer : P → List ℕ → M (Acr122PcscData P) (Unit {0})
  keep_answer card answer = modify (λ d. record d {
    driver_data = record d.driver_data { card = card; rx = fill answer d.driver_data.rx };
  })

  abbrev set_count : ℕ → M (Acr122PcscData P) (Unit {0})
  set_count n = modify (λ d. record d { driver_data = record d.driver_data { rx_count = n } })

  -- The choice of the call.
  abbrev pub by_protocol : Protocol → P → List ℕ → ℕ → Bool × List ℕ × P
  by_protocol protocol_undefined = pcsc.control
  by_protocol protocol_t0 = pcsc.transmit
  by_protocol protocol_other = pcsc.transmit

  -- What `acr122_pcsc_send` does with an answer: an acknowledgement of the reader for T=0, else the
  -- answer of the chip.
  unfoldable pub take_answer : Protocol → ℕ → M (Acr122PcscData P) ℤ
  take_answer protocol_t0 n = if not (n == 2) then refused nfc_eio else (do
    d ← get
    status ← at d.driver_data.rx 0
    if status == operation_error then refused nfc_eio else return nfc_success)
  take_answer _ n = do set_count n; return nfc_success

  -- `acr122_pcsc_send`. Data that are longer than `abtTxBuf` are written behind it.
  unfoldable pub send : List ℕ → M (Acr122PcscData P) ℤ
  unfolding take_answer tx_buffer
  send tx =
      if ltb command_len (length tx)
      then refused nfc_einvarg
      else if ltb (wrap_len + command_len) (length tx + 6)
      then crash
      else (do
        set_count 0
        d ← get
        let protocol = d.driver_data.protocol
        let (ok, answer, card) = by_protocol protocol d.driver_data.card (tx_buffer tx) response_len
        keep_answer card answer
        if not ok then refused nfc_eio else take_answer protocol (length answer))

  -- For T=0, `acr122_pcsc_receive` asks for the answer.
  unfoldable pub ask : Protocol → M (Acr122PcscData P) ℤ
  ask protocol_t0 = do
    d ← get
    count ← at d.driver_data.rx 1
    let (ok, answer, card) = pcsc.transmit d.driver_data.card (rx_command count) response_len
    keep_answer card answer
    if not ok then refused nfc_eio else (do set_count (length answer); return nfc_success)
  ask _ = return nfc_success

  -- The end of `acr122_pcsc_receive`: the answer without its two bytes in front and two behind.
  unfoldable pub unwrap : ℕ → M (Acr122PcscData P) (ℤ × List ℕ)
  unwrap capacity = do
    d ← get
    let n = d.driver_data.rx_count
    if ltb n 4 || ltb capacity (n - 4)
        then (do res ← refused nfc_eio; return (res, []))
        else if ltb (length d.driver_data.rx) (n - 2)
        then crash
        else return (pos (n - 4), take (n - 4) (drop 2 d.driver_data.rx))

  -- `acr122_pcsc_receive`: the result and the content of `pbtData`.
  unfoldable pub receive : ℕ → M (Acr122PcscData P) (ℤ × List ℕ)
  unfolding ask unwrap
  receive capacity = do
    d ← get
    res ← ask d.driver_data.protocol
    elim res [ pos _ ↦ unwrap capacity | e ↦ return (e, []) ]

  -- `acr122_pcsc_firmware`: the content of `abtFw`.
  unfoldable pub firmware : M (Acr122PcscData P) (List ℕ)
  firmware = do
    d ← get
    let cmd = 0xff ∷ 0x00 ∷ 0x48 ∷ 0x00 ∷ 0x00 ∷ []
    let room = firmware_room d.driver_data.protocol
    let (ok, answer, card) = by_protocol d.driver_data.protocol d.driver_data.card cmd room
    modify (λ d. record d { driver_data = record d.driver_data { card = card } })
    return (fill answer (replicate 11 0))
