-- ===== src/Drivers/Acr122s.antt =====
-- libnfc/drivers/acr122s.c: the frames of the reader and the I/O functions of the driver.
pub mod Frame
pub mod Laws
pub mod Overrun
mod Tests
use libnfc.Prelude.{
  ℕ, ◌+◌, ◌-◌, ◌%◌, ◌^◌, Bool, true, false, List, [], ◌∷◌, ◌++◌, Option, none, some,
}
use libnfc.Prelude.{not, ltb, leb, ◌==◌, if◌then◌else◌, length, take, drop, get_or}
use libnfc.Prelude.Int.{ℤ, pos, negsuc, is_neg}
use libnfc.Pn53x.Device.{Device, PowerMode, normal, lowvbat, nfc_success, nfc_eio, nfc_einvarg}
use libnfc.Pn53x.Device.{nfc_eopaborted, same_result}
use libnfc.Pn53x.Frame.{equal_bytes}
use libnfc.Pn53x.Monad.{M, ◌>>=◌, ◌>>◌, return, get, modify, crash}
use libnfc.Drivers.Uart.{Uart}
use libnfc.Drivers.Acr122s.Frame.{
  apdu_size, frame_size, fix_frame, build_frame, max_frame_size, power_on_req, power_off_req,
}

-- `struct acr122s_data`, without the means of aborting.
pub record Acr122sData (P : Type 0) : Type 0 where
  pub port : P
  pub seq : ℕ

module _ {P : Type 0} (uart : Uart P) where
  abbrev set_port : P → M (Acr122sData P) (Unit {0})
  set_port port = modify (λ d. record d { driver_data = record d.driver_data { port = port } })

  -- `pnd->last_error = e; return pnd->last_error;`
  abbrev pub refused : ℤ → M (Acr122sData P) ℤ
  refused e = do modify (λ d. record d { last_error = e }); return e

  -- `acr122s_send_frame`. A frame that is longer than its buffer is sent from behind it.
  pub send_frame : List ℕ → ℤ → M (Acr122sData P) ℤ
  send_frame frame timeout = do
    d ← get
    if ltb (length frame) (frame_size frame) then crash else (do
      let (sent, port) = uart.send d.driver_data.port (take (frame_size frame) frame) timeout
      set_port port
      if is_neg sent then return sent else (do
        let (res, ack, port') = uart.receive port 4 true timeout
        set_port port'
        if is_neg res
            then return res
            else if not (equal_bytes (take 4 ack) (0x02 ∷ 0x00 ∷ 0x00 ∷ 0x03 ∷ []))
            then refused nfc_eio
            else (do
              modify (λ d. record d {
                driver_data = record d.driver_data { seq = (get_or frame 7 0 + 1) % 256 };
              })
              return nfc_success)))

  -- `acr122s_recv_frame` into a buffer with `mem` in it: the result and the content of the buffer. The
  -- count of the bytes that remain is a `uint32_t`; what does not fit the buffer is written behind it.
  pub recv_frame : List ℕ → Bool → ℤ → M (Acr122sData P) (ℤ × List ℕ)
  recv_frame mem abort timeout =
      if ltb (length mem) 13 then (do res ← refused nfc_einvarg; return (res, mem)) else (do
        d ← get
        let (res, head, port) = uart.receive d.driver_data.port 11 abort timeout
        set_port port
        let frame = head ++ drop 11 mem
        if not (same_result res (pos 0))
            then return (res, frame)
            else if ltb (length mem) (frame_size frame)
            then (do res ← refused nfc_eio; return (res, frame))
            else if ltb (length mem) (11 + (frame_size frame + 2 ^ 32 - 11) % 2 ^ 32)
            then crash
            else (do
              let remaining = (frame_size frame + 2 ^ 32 - 11) % 2 ^ 32
              let (res, body, port) = uart.receive port remaining abort timeout
              set_port port
              let whole = head ++ (body ++ drop (11 + remaining) mem)
              if not (same_result res (pos 0))
                  then return (res, whole)
                  else if not ((get_or whole 7 0 + 1) % 256 == d.driver_data.seq)
                  then (do res ← refused nfc_eio; return (res, whole))
                  else return (nfc_success, whole)))

  -- A command without data, and its response: `acr122s_activate_sam` and `acr122s_deactivate_sam`.
  -- `mem` is the content of a stack buffer before it is filled.
  unfoldable pub power : ℕ → PowerMode → List ℕ → M (Acr122sData P) ℤ
  unfolding send_frame recv_frame
  power message mode mem = do
    let cmd = fix_frame (0 ∷ message ∷ 0 ∷ 0 ∷ 0 ∷ 0 ∷ 0 ∷ 0 ∷ 0 ∷ 0 ∷ 0 ∷ 0 ∷ 0 ∷ [])
    res ← send_frame cmd (pos 0)
    if not (same_result res (pos 0)) then return res else (do
      (res, resp) ← recv_frame mem false (pos 0)
      if not (same_result res (pos 0))
          then return res
          else (do modify (λ d. record d { power_mode = mode }); return nfc_success))

  unfoldable pub activate_sam : List ℕ → M (Acr122sData P) ℤ
  unfolding power
  activate_sam = power power_on_req normal

  unfoldable pub deactivate_sam : List ℕ → M (Acr122sData P) ℤ
  unfolding power
  deactivate_sam = power power_off_req lowvbat

  -- `acr122s_get_firmware_version`: the result and the text, for a buffer of `size` characters. `mem`
  -- is the content of `cmd` before it is filled.
  unfoldable pub get_firmware_version : ℕ → List ℕ → M (Acr122sData P) (ℤ × List ℕ)
  unfolding send_frame recv_frame
  get_firmware_version size mem = do
    d ← get
    let (built, cmd) = build_frame d.driver_data.seq mem 0x48 0x00 [] 0
    res ← send_frame cmd (pos 1000)
    if not (same_result res (pos 0)) then return (res, []) else (do
      (res, cmd) ← recv_frame cmd false (pos 0)
      if not (same_result res (pos 0)) then return (res, []) else (do
        let len = if ltb size (apdu_size cmd + 1) then size - 1 else apdu_size cmd
        return (nfc_success, take len (drop 11 cmd))))

  -- `acr122s_send`, which does not look at the result of `acr122s_build_frame`. `mem` is the content of
  -- `cmd` before it is filled.
  pub send : List ℕ → List ℕ → ℤ → M (Acr122sData P) ℤ
  unfolding send_frame
  send mem buf timeout = do
    d ← get
    set_port (uart.flush_input d.driver_data.port)
    let (built, cmd) = build_frame d.driver_data.seq mem 0x00 0x00 buf 1
    res ← send_frame cmd timeout
    if not (same_result res (pos 0)) then refused res else return nfc_success

  -- `acr122s_receive`: the result and the content of `buf`. `mem` is the content of `tmp` before it is
  -- filled.
  pub receive : List ℕ → ℕ → ℤ → M (Acr122sData P) (ℤ × List ℕ)
  unfolding recv_frame
  receive mem capacity timeout = do
    (res, tmp) ← recv_frame mem true timeout
    modify (λ d. record d { last_error = res })
    if same_result res nfc_eopaborted
        then return (nfc_eopaborted, [])
        else if is_neg res
        then return (negsuc 0, [])
        else (do
          let data_len = (frame_size tmp + 2 ^ 32 - 17) % 2 ^ 32
          if ltb capacity data_len
              then (do res ← refused nfc_eio; return (res, []))
              else return (pos data_len, take data_len (drop 13 tmp)))
