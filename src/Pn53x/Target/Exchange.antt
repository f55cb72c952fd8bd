-- ===== src/Pn53x/Target/Exchange.antt =====
-- The exchanges of the emulated target, by libnfc/chips/pn53x.c: `pn53x_target_receive_bits`,
-- `pn53x_target_receive_bytes`, `pn53x_target_send_bits` and `pn53x_target_send_bytes`.
use libnfc.Prelude.{ℕ, ◌+◌, ◌-◌, ◌*◌, ◌/◌, ◌%◌, ◌^◌, not, ◌&&◌, Option, none, some}
use libnfc.Prelude.{List, [], ◌∷◌, ◌++◌, ltb, ◌==◌, if◌then◌else◌, length, take, drop, bit_and}
use libnfc.Prelude.Int.{ℤ, pos, negsuc, is_neg, to_size}
use libnfc.Types.{nmt_iso14443a}
use libnfc.Types.{nmt_dep, NfcTarget}
use libnfc.Pn53x.Device.{Device, nfc_eovflow, nfc_enotimpl, nfc_echip}
use libnfc.Pn53x.Framing.{unwrap_frame}
use libnfc.Pn53x.Initiator.{wrap, to_int, outgoing}
use libnfc.Pn53x.Monad.{M, ◌>>=◌, return, get, crash, need, Reply, Transceive}
use libnfc.Pn53x.Properties.{set_tx_bits, ciu_control}
use libnfc.Pn53x.Registers.{read_register, max_data}
use libnfc.Pn53x.Select.{refuse}
use libnfc.Pn53x.Target.{nai_of}
use libnfc.Pn53x.Transceive.{is_pn532}

-- Which pair of commands carries the bytes: those of raw frames, those of a protocol that the chip
-- handles, or none that is implemented.
pub data Framing : Type 0 where
  raw by_chip not_implemented : Framing

module _ {W : Type 0} where
  abbrev pub framing_of : Device W → NfcTarget → Option Framing
  framing_of d nt = elim nt.nm.nmt [
    | nmt_dep ↦ some by_chip
    | nmt_iso14443a ↦ elim (nai_of nt.nti) [
      | none ↦ none
      | some info ↦
          if bit_and info.sak 0x20 == 0
          then some raw
          else some (if is_pn532 d.type && d.auto_iso14443_4 then by_chip else not_implemented)
    ]
    | _ ↦ some raw
  ]

  -- The switch on the current target; `none` where there is none to look at.
  unfoldable pub framing : Device W → Option Framing
  framing d =
      let easy : Option Framing = elim d.current_target [
        | none ↦ none
        | some nt ↦ framing_of d nt
      ] in
      if d.easy_framing then easy else some raw

  -- The command for a framing: `frame` or `chip`.
  abbrev pub with_code : ℕ → ℕ → Framing → (ℕ → M W Reply) → M W Reply
  with_code frame chip raw k = k frame
  with_code frame chip by_chip k = k chip
  with_code frame chip not_implemented k = do res ← refuse nfc_enotimpl; return (res, [])

module _ {W : Type 0} (transceive : Transceive W) where
  -- TgGetInitiatorCommand is 0x88, TgGetData 0x86.
  unfoldable pub receive_frame : ℕ → ℤ → ℕ → M W Reply
  receive_frame room timeout code = do
    (res, rx) ← transceive (code ∷ []) max_data timeout
    d ← get
    let size = wrap (to_size res + 2 ^ 64 - 1)
    if is_neg res
        then return (d.last_error, [])
        else if ltb room size
        then return (nfc_eovflow, [])
        else return (pos size, take size (drop 1 rx))

  unfoldable pub receive_bytes : ℕ → ℤ → M W Reply
  unfolding framing receive_frame
  receive_bytes room timeout = do
    d ← get
    f ← need (framing d)
    with_code 0x88 0x86 f (receive_frame room timeout)

  -- TgResponseToInitiator is 0x90, TgSetData 0x8e.
  unfoldable pub send_frame : List ℕ → ℤ → ℕ → M W Reply
  send_frame tx timeout code = if ltb max_data (length tx + 1) then crash else (do
    (res, rx) ← transceive (code ∷ tx) 0 timeout
    return (if is_neg res then res else to_int (length tx), []))

  unfoldable pub send_bytes : List ℕ → ℤ → M W Reply
  unfolding framing send_frame
  send_bytes tx timeout = do
    d ← get
    if not d.par
        then return (nfc_echip, [])
        else (do f ← need (framing d); with_code 0x90 0x8e f (send_frame tx timeout))

  -- What is received goes to `pbtRx` and `pbtRxPar`; `junk` stands in `abtRx` behind it.
  unfoldable pub take_bits :
      ℕ → ℕ → ℕ → List ℕ → List ℕ → List ℕ → Option (List ℕ) → M W (ℤ × List ℕ × Option (List ℕ))
  take_bits room last_bits size rx junk out out_par = do
    d ← get
    let count = wrap (size + 2 ^ 64 - 1 - (if last_bits == 0 then 0 else 1))
    let frame_bits = wrap (count * 8 + last_bits)
    let bytes = wrap (size + 2 ^ 64 - 1)
    if d.par
        then (if ltb room bytes
            then return (nfc_eovflow, out, out_par)
            else return (to_int frame_bits, take bytes (drop 1 rx) ++ drop bytes out, out_par))
        else (do
          (res, out', par') ←
              need (unwrap_frame (take (max_data - 1) (drop 1 rx ++ junk)) frame_bits out out_par)
          return (res, out', par'))

  unfoldable pub receive_bits :
      ℕ → List ℕ → List ℕ → Option (List ℕ) → M W (ℤ × List ℕ × Option (List ℕ))
  unfolding take_bits
  receive_bits room junk out out_par = do
    (res, rx) ← transceive (0x88 ∷ []) max_data (negsuc 0)
    if is_neg res then return (res, out, out_par) else (do
      (read, control) ← read_register transceive ciu_control
      if is_neg read
          then return (read, out, out_par)
          else take_bits room (bit_and control 0x07) (to_size res) rx junk out out_par)

  -- The frame is made as for an exchange of bits as an initiator.
  unfoldable pub send_bits : List ℕ → List ℕ → ℕ → M W ℤ
  send_bits tx tx_par bits = do
    (framed, frame) ← outgoing transceive tx tx_par bits
    let frame_bits = to_size framed
    let last = frame_bits % 8
    let frame_bytes = frame_bits / 8 + (if last == 0 then 0 else 1)
    if is_neg framed then return framed else (do
      set ← set_tx_bits transceive last
      if is_neg set then return set else (do
        (res, rx) ← transceive (0x90 ∷ take frame_bytes frame) 0 (negsuc 0)
        return (if is_neg res then res else to_int bits)))
