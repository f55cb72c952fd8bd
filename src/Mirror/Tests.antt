-- ===== src/Mirror/Tests.antt =====
-- The mirror at known values.
use libnfc.Prelude.{◌≡◌, arith}
use libnfc.Mirror.{mirror}
use libnfc.Mirror.Laws.{reverse_bits, mirror-eq-reverse_bits}

mirror-eq-reverse_bits_example : mirror 0x2d ≡ reverse_bits 8 0x2d
mirror-eq-reverse_bits_example = mirror-eq-reverse_bits 0x2d (omega arith)
