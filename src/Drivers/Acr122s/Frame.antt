-- ===== src/Drivers/Acr122s/Frame.antt =====
-- The frames of an ACR122S, as libnfc/drivers/acr122s.c builds them.
use libnfc.Prelude.{ℕ, ◌+◌, ◌-◌, ◌*◌, ◌/◌, ◌%◌, ◌^◌, Bool, true, false, List, [], ◌∷◌, ◌++◌}
use libnfc.Prelude.{ltb, ◌==◌, if◌then◌else◌, length, take, drop, get_or, set, bit_xor}

-- The messages of the reader, and the largest frame.
abbrev pub power_on_req : ℕ
power_on_req = 0x62

abbrev pub power_off_req : ℕ
power_off_req = 0x63

abbrev pub xfr_block_req : ℕ
xfr_block_req = 0x6f

abbrev pub max_frame_size : ℕ
max_frame_size = 13 + 5 + 255

-- The length in a frame's bytes 2 to 5, lowest byte first. The bits of the bytes do not overlap.
unfoldable pub apdu_size : List ℕ → ℕ
apdu_size p =
    (get_or p 2 0 + get_or p 3 0 * 2 ^ 8 + get_or p 4 0 * 2 ^ 16 + get_or p 5 0 * 2 ^ 24) % 2 ^ 32

unfoldable pub frame_size : List ℕ → ℕ
unfolding apdu_size
frame_size p = (apdu_size p + 13) % 2 ^ 32

-- The loop of `acr122s_fix_frame` over the bytes in front of the checksum.
unfoldable pub xor_bytes : ℕ → List ℕ → ℕ
xor_bytes sum [] = sum
xor_bytes sum (x ∷ xs) = xor_bytes (bit_xor sum x) xs

-- `acr122s_fix_frame`, of a frame that fits its buffer.
unfoldable pub fix_frame : List ℕ → List ℕ
unfolding frame_size xor_bytes
fix_frame frame =
    let n = frame_size frame in
    let ended = set (set frame 0 0x02) (n - 1) 0x03 in
    set ended (n - 2) (xor_bytes 0 (take (n - 3) (drop 1 ended)))

-- A `uint32_t` in memory after `le32`.
abbrev pub le32 : ℕ → List ℕ
le32 n = (n % 256) ∷ (n / 2 ^ 8 % 256) ∷ (n / 2 ^ 16 % 256) ∷ (n / 2 ^ 24 % 256) ∷ []

-- `acr122s_build_frame` in a buffer with `mem` in it; `should_prefix` is 0 or 1.
unfoldable pub build_frame : ℕ → List ℕ → ℕ → ℕ → List ℕ → ℕ → Bool × List ℕ
unfolding fix_frame
build_frame seq mem p1 p2 input should_prefix =
    let n = length input + should_prefix in
    if ltb (length mem) (length input + 18 + should_prefix)
    then (false, mem)
    else if ltb 255 n
    then (false, mem)
    else (
      true,
      fix_frame (
          get_or mem 0 0
          ∷ xfr_block_req
          ∷ (le32 (5 + n)
              ++ (0x00
                  ∷ seq
                  ∷ 0x00
                  ∷ 0x00
                  ∷ 0x00
                  ∷ 0xff
                  ∷ 0x00
                  ∷ p1
                  ∷ p2
                  ∷ n
                  ∷ ((if should_prefix == 0 then [] else 0xd4 ∷ [])
                      ++ (input ++ drop (16 + n) mem))))),
    )
