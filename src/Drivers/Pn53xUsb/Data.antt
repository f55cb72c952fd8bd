-- ===== src/Drivers/Pn53xUsb/Data.antt =====
-- The driver's data, and its transfers.
use libnfc.Prelude.{ℕ, ◌%◌, Bool, true, ◌||◌, List, [], ◌∷◌}
use libnfc.Prelude.{ltb, ◌==◌, if◌then◌else◌, length, not}
use libnfc.Prelude.Int.{ℤ, pos, negsuc}
use libnfc.Pn53x.Frame.{ack_frame}
use libnfc.Pn53x.Monad.{M, ◌>>=◌, ◌>>◌, return, get, modify, crash}
use libnfc.Drivers.Usb.{Usb, fill}
use libnfc.Drivers.Usb.Devices.{SupportedDevice, find_model}

pub data Pn53xUsbModel : Type 0 where
  unknown nxp_pn531 sony_pn531 nxp_pn533 ask_logo scm_scl3711 sony_rcs360 : Pn53xUsbModel

-- `struct pn53x_usb_data`; the end points are part of the port.
pub record Pn53xUsbData (P : Type 0) : Type 0 where
  pub port : P
  pub model : Pn53xUsbModel
  pub max_packet_size : ℕ
  pub abort_flag : Bool

-- `pn53x_usb_supported_devices`, without the names.
abbrev pub supported_devices : List (SupportedDevice Pn53xUsbModel)
supported_devices =
    record { vendor_id = 0x04cc; product_id = 0x0531; model = nxp_pn531 }
    ∷ record { vendor_id = 0x04cc; product_id = 0x2533; model = nxp_pn533 }
    ∷ record { vendor_id = 0x04e6; product_id = 0x5591; model = scm_scl3711 }
    ∷ record { vendor_id = 0x054c; product_id = 0x0193; model = sony_pn531 }
    ∷ record { vendor_id = 0x1fd3; product_id = 0x0608; model = ask_logo }
    ∷ record { vendor_id = 0x054c; product_id = 0x02e1; model = sony_rcs360 }
    ∷ []

-- `pn53x_usb_get_device_model`
unfoldable pub get_device_model : ℕ → ℕ → Pn53xUsbModel
unfolding find_model
get_device_model = find_model unknown supported_devices

module _ {P : Type 0} (usb : Usb P) where
  abbrev set_port : P → M (Pn53xUsbData P) (Unit {0})
  set_port port = modify (λ d. record d { driver_data = record d.driver_data { port = port } })

  -- `pn53x_usb_bulk_read` into a buffer with `mem` in it: the result and the content of the buffer.
  -- Another thread may have set the flag meanwhile, by `pn53x_usb_abort_command`.
  unfoldable pub bulk_read : List ℕ → ℤ → M (Pn53xUsbData P) (ℤ × List ℕ)
  bulk_read mem timeout = do
    d ← get
    let (res, bytes, port) = usb.bulk_read d.driver_data.port (length mem) timeout
    modify (λ d. record d {
      driver_data = record d.driver_data {
        port = port;
        abort_flag = d.driver_data.abort_flag || usb.interrupted port;
      };
    })
    return (res, fill bytes mem)

  -- Behind a transfer that fills its last packet goes an empty one. A division by a packet size of 0
  -- ends the program.
  unfoldable pub end_write : ℕ → ℤ → P → ℤ → M (Pn53xUsbData P) ℤ
  end_write max_packet_size (negsuc n) port timeout = return (negsuc n)
  end_write max_packet_size (pos n) port timeout =
      if not (ltb 0 n)
      then return (pos n)
      else if max_packet_size == 0
      then crash
      else if n % max_packet_size == 0
      then (do set_port (usb.bulk_write port [] timeout).1; return (pos n))
      else return (pos n)

  -- `pn53x_usb_bulk_write`
  unfoldable pub bulk_write : List ℕ → ℤ → M (Pn53xUsbData P) ℤ
  unfolding end_write
  bulk_write bytes timeout = do
    d ← get
    let (res, port) = usb.bulk_write d.driver_data.port bytes timeout
    set_port port
    end_write d.driver_data.max_packet_size res port timeout

  -- `pn53x_usb_ack`
  unfoldable pub ack : M (Pn53xUsbData P) ℤ
  unfolding bulk_write
  ack = bulk_write ack_frame (negsuc 0)

  -- `pn53x_usb_abort_command`
  unfoldable pub abort_command : M (Pn53xUsbData P) ℤ
  abort_command = do
    modify (λ d. record d { driver_data = record d.driver_data { abort_flag = true } })
    return (pos 0)
