-- ===== src/Drivers.antt =====
-- libnfc/drivers: how the frames of a PN53x chip travel over each kind of port.
pub mod Uart
pub mod Line
pub mod Answer
pub mod Connstring
pub mod Pn532Uart
pub mod Arygon
pub mod Acr122s
pub mod Usb
pub mod Pn53xUsb
pub mod Acr122Usb
pub mod Acr122Pcsc
