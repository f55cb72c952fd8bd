-- ===== src/Pn53x.antt =====
-- libnfc/chips: what the drivers of all PN53x chips share.
pub mod Framing
pub mod Device
pub mod Samples
pub mod Frame
pub mod Monad
pub mod Registers
pub mod Transceive
pub mod Modulation
pub mod Commands
pub mod Properties
pub mod Initiator
pub mod Timed
pub mod Decode
pub mod Init
pub mod Select
pub mod Poll
pub mod Target
pub mod Dep
