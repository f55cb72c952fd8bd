-- ===== src/Pn53x/Frame/Format.antt =====
-- The frames of the PN53x user manual, from their description: a start code, a length with its
-- checksum, the direction byte and the data, a checksum that makes these sum up to zero, and a
-- postamble. A length that does not fit a byte takes the extended form.
use libnfc.Prelude.{ℕ, suc, ◌+◌, ◌-◌, ◌/◌, ◌%◌, List, [], ◌∷◌, ◌++◌, leb, if◌then◌else◌, length}

abbrev pub sum : List ℕ → ℕ
sum [] = 0
sum (x ∷ xs) = x + sum xs

-- The byte that makes a sum zero.
abbrev pub complement : ℕ → ℕ
complement s = (256 - s % 256) % 256

-- The start code, and the length of the packet with its checksum.
abbrev pub header : ℕ → List ℕ
header n =
    if leb n 255
    then 0x00 ∷ 0x00 ∷ 0xff ∷ n ∷ complement n ∷ []
    else 0x00
      ∷ 0x00
      ∷ 0xff
      ∷ 0xff
      ∷ 0xff
      ∷ (n / 256)
      ∷ (n % 256)
      ∷ complement (n / 256 + n % 256)
      ∷ []

-- The frame of a packet: its direction byte (D4 from the host, D5 from the chip) and its data.
abbrev pub encode : ℕ → List ℕ → List ℕ
encode tfi packet =
    header (suc (length packet)) ++ (tfi ∷ (packet ++ complement (tfi + sum packet) ∷ 0x00 ∷ []))
