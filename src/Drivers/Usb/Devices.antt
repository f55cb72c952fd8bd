-- ===== src/Drivers/Usb/Devices.antt =====
-- The devices that a driver for USB supports, and the end points of a device.
use libnfc.Prelude.{ℕ, List, [], ◌∷◌, bit_and, ◌==◌, ◌&&◌, if◌then◌else◌, not}

-- A row of a driver's table, without the name.
pub record SupportedDevice (Model : Type 0) : Type 0 where
  pub vendor_id : ℕ
  pub product_id : ℕ
  pub model : Model

-- The search in a table; `unknown` is what a device has that is not in it.
unfoldable pub find_model : {Model : Type 0} → Model → List (SupportedDevice Model) → ℕ → ℕ → Model
find_model unknown [] vendor product = unknown
find_model unknown (s ∷ rest) vendor product =
    if vendor == s.vendor_id && product == s.product_id
    then s.model
    else find_model unknown rest vendor product

-- An end point's descriptor: `bmAttributes`, `bEndpointAddress` and `wMaxPacketSize`.
pub record Endpoint : Type 0 where
  pub attributes : ℕ
  pub address : ℕ
  pub max_packet_size : ℕ

-- The end points that the driver uses, and the size of their packets.
pub record Endpoints : Type 0 where
  pub end_point_in : ℕ
  pub end_point_out : ℕ
  pub max_packet_size : ℕ

-- `pn53x_usb_get_end_points`, and `acr122_usb_get_end_points` likewise.
unfoldable pub get_end_points : List Endpoint → Endpoints → Endpoints
get_end_points [] found = found
get_end_points (e ∷ rest) found = get_end_points rest (
    if not (e.attributes == 2)
    then found
    else if bit_and e.address 0x80 == 0x80
    then record found { end_point_in = e.address; max_packet_size = e.max_packet_size }
    else if bit_and e.address 0x80 == 0x00
    then record found { end_point_out = e.address; max_packet_size = e.max_packet_size }
    else found)
