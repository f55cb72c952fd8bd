-- ===== src/Iso14443.antt =====
-- libnfc/iso14443-subr.c: the CRC of ISO/IEC 14443-A, the historical bytes of an ATS and the
-- cascade tags of a UID.
pub mod Crc
pub mod Ats
pub mod Cascade
mod Tests
