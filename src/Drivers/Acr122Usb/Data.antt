-- ===== src/Drivers/Acr122Usb/Data.antt =====
-- The driver's data with its two frames, its transfers, and the APDUs that it sends.
use libnfc.Prelude.{ℕ, ◌+◌, ◌/◌, ◌%◌, ◌^◌, Bool, true, ◌||◌, List, [], ◌∷◌, ◌++◌}
use libnfc.Prelude.{Option, none, some, ltb, ◌==◌, if◌then◌else◌, length, take, drop, not}
use libnfc.Prelude.Int.{ℤ, pos, negsuc, is_neg, to_size}
use libnfc.Pn53x.Device.{nfc_eio, nfc_etimeout, nfc_einvarg, same_result}
use libnfc.Pn53x.Monad.{M, ◌>>=◌, ◌>>◌, return, get, modify, crash}
use libnfc.Drivers.Usb.{Usb, fill, usb_timedout}
use libnfc.Drivers.Usb.Devices.{SupportedDevice, find_model}

pub data Acr122UsbModel : Type 0 where
  unknown acr122 touchatag : Acr122UsbModel

-- `struct acr122_usb_data`; the end points are part of the port.
pub record Acr122UsbData (P : Type 0) : Type 0 where
  pub port : P
  pub model : Acr122UsbModel
  pub max_packet_size : ℕ
  pub abort_flag : Bool
  pub tama_frame : List ℕ
  pub apdu_frame : List ℕ

-- `acr122_usb_supported_devices`, without the names.
abbrev pub acr122_devices : List (SupportedDevice Acr122UsbModel)
acr122_devices =
    record { vendor_id = 0x072f; product_id = 0x2200; model = acr122 }
    ∷ record { vendor_id = 0x072f; product_id = 0x90cc; model = touchatag }
    ∷ []

-- `acr122_usb_get_device_model`
unfoldable pub get_acr122_model : ℕ → ℕ → Acr122UsbModel
unfolding find_model
get_acr122_model = find_model unknown acr122_devices

-- The messages of a reader.
abbrev pub xfr_block : ℕ
xfr_block = 0x6f

abbrev pub escape : ℕ
escape = 0x6b

abbrev pub rdr_data_block : ℕ
rdr_data_block = 0x80

abbrev pub rdr_escape : ℕ
rdr_escape = 0x83

-- The start of both frames in `acr122_usb_open`: the template, with the message of the model.
abbrev pub frame_start : Acr122UsbModel → List ℕ
frame_start model =
    elim model [ touchatag ↦ xfr_block | _ ↦ escape ]
    ∷ 0x00
    ∷ 0x00
    ∷ 0x00
    ∷ 0x00
    ∷ 0x00
    ∷ 0x00
    ∷ 0x00
    ∷ 0x00
    ∷ 0x00
    ∷ 0xff
    ∷ 0x00
    ∷ 0x00
    ∷ 0x00
    ∷ 0x00
    ∷ 0xd4
    ∷ []

-- A `uint32_t` in memory after `htole32`.
abbrev pub htole32 : ℕ → List ℕ
htole32 n = (n % 256) ∷ (n / 2 ^ 8 % 256) ∷ (n / 2 ^ 16 % 256) ∷ (n / 2 ^ 24 % 256) ∷ []

-- `acr122_build_frame_from_apdu`: the result and the frame. `none` is `data == NULL`.
unfoldable pub build_frame_from_apdu : List ℕ → ℕ → ℕ → ℕ → Option (List ℕ) → ℕ → ℤ × List ℕ
build_frame_from_apdu frame ins p1 p2 payload le =
    let input : List ℕ = elim payload [ none ↦ [] | some bytes ↦ bytes ] in
    let n = length input in
    let len : ℕ = elim payload [ none ↦ le | some bytes ↦ n % 256 ] in
    if ltb 255 n then (nfc_einvarg, frame) else (
      pos (15 + n),
      take 1 frame
          ++ (htole32 (n + 5)
              ++ (take 6 (drop 5 frame) ++ (ins ∷ p1 ∷ p2 ∷ len ∷ (input ++ drop (15 + n) frame)))),
    )

-- `acr122_build_frame_from_tama`: the result and the frame.
unfoldable pub build_frame_from_tama : List ℕ → List ℕ → ℤ × List ℕ
build_frame_from_tama frame tama =
    let n = length tama in
    if ltb 254 n then (nfc_einvarg, frame) else (
      pos (16 + n),
      take 1 frame
          ++ (htole32 (n + 6)
              ++ (take 9 (drop 5 frame)
                  ++ ((n + 1) ∷ (take 1 (drop 15 frame) ++ (tama ++ drop (16 + n) frame))))),
    )

-- `-USB_TIMEDOUT` and the other errors of libusb, as errors of the library.
abbrev pub usb_error : ℤ → ℤ
usb_error (pos n) = pos n
usb_error (negsuc n) = if same_result (negsuc n) usb_timedout then nfc_etimeout else nfc_eio

module _ {P : Type 0} (usb : Usb P) where
  abbrev set_port : P → M (Acr122UsbData P) (Unit {0})
  set_port port = modify (λ d. record d { driver_data = record d.driver_data { port = port } })

  -- `acr122_usb_bulk_read` into a buffer with `mem` in it: the result and the content of the buffer.
  -- Another thread may have set the flag meanwhile, by `acr122_usb_abort_command`.
  unfoldable pub bulk_read : List ℕ → ℤ → M (Acr122UsbData P) (ℤ × List ℕ)
  bulk_read mem timeout = do
    d ← get
    let (res, bytes, port) = usb.bulk_read d.driver_data.port (length mem) timeout
    modify (λ d. record d {
      driver_data = record d.driver_data {
        port = port;
        abort_flag = d.driver_data.abort_flag || usb.interrupted port;
      };
    })
    return (usb_error res, fill bytes mem)

  -- Behind a transfer that fills its last packet goes an empty one. A division by a packet size of 0
  -- ends the program.
  unfoldable pub end_write : ℕ → ℤ → P → ℤ → M (Acr122UsbData P) ℤ
  end_write max_packet_size (negsuc n) port timeout = return (usb_error (negsuc n))
  end_write max_packet_size (pos n) port timeout =
      if not (ltb 0 n)
      then return (pos n)
      else if max_packet_size == 0
      then crash
      else if n % max_packet_size == 0
      then (do set_port (usb.bulk_write port [] timeout).1; return (pos n))
      else return (pos n)

  -- `acr122_usb_bulk_write`
  unfoldable pub bulk_write : List ℕ → ℤ → M (Acr122UsbData P) ℤ
  unfolding end_write
  bulk_write bytes timeout = do
    d ← get
    let (res, port) = usb.bulk_write d.driver_data.port bytes timeout
    set_port port
    end_write d.driver_data.max_packet_size res port timeout

  -- `acr122_usb_ack`. `mem` is the content of its buffer before it is filled.
  unfoldable pub ack : List ℕ → M (Acr122UsbData P) ℤ
  unfolding bulk_write bulk_read build_frame_from_tama
  ack mem = do
    d ← get
    let (res, frame) = build_frame_from_tama d.driver_data.tama_frame (0x02 ∷ [])
    modify (λ d. record d { driver_data = record d.driver_data { tama_frame = frame } })
    if is_neg res then return res else (do
      ignored ← bulk_write (take (to_size res) frame) (pos 1000)
      (res, rx) ← bulk_read mem (pos 1000)
      return res)

  -- `acr122_usb_send_apdu`: the result and the content of `out`, in which `mem` was. A frame that was
  -- not built is sent with a length of nearly 2 ^ 64.
  unfoldable pub send_apdu :
      ℕ → ℕ → ℕ → Option (List ℕ) → ℕ → List ℕ → M (Acr122UsbData P) (ℤ × List ℕ)
  unfolding bulk_write bulk_read build_frame_from_apdu
  send_apdu ins p1 p2 payload le mem = do
    d ← get
    let (res, frame) = build_frame_from_apdu d.driver_data.apdu_frame ins p1 p2 payload le
    modify (λ d. record d { driver_data = record d.driver_data { apdu_frame = frame } })
    if is_neg res then crash else (do
      res ← bulk_write (take (to_size res) frame) (pos 1000)
      if is_neg res then return (res, mem) else bulk_read mem (pos 1000))

  -- `acr122_usb_abort_command`
  unfoldable pub abort_command : M (Acr122UsbData P) ℤ
  abort_command = do
    modify (λ d. record d { driver_data = record d.driver_data { abort_flag = true } })
    return (pos 0)
