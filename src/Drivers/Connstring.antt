-- ===== src/Drivers/Connstring.antt =====
-- The connection strings of the serial drivers of libnfc/drivers: how a scan writes them, and how an
-- opening reads them. A text is the row of its characters' codes, without the zero behind them. Memory
-- for the copy that is taken apart is taken to be there.
pub mod Decimal
pub mod Laws
mod Tests
use libnfc.Prelude.{ℕ, zero, suc, ◌+◌, ◌-◌, ◌*◌, ◌/◌, ◌%◌, ◌^◌, Bool, true, false, ◌&&◌, ◌||◌}
use libnfc.Prelude.{Option, none, some, List, [], ◌∷◌, ◌++◌, ltb, leb, ◌==◌, if◌then◌else◌, take}
use libnfc.Prelude.Int.{ℤ, pos, negsuc}
use libnfc.Pn53x.Frame.{equal_bytes}

abbrev pub colon : ℕ
colon = 58

-- A token and the text behind its delimiter, as `strtok` finds them.
unfoldable pub split : List ℕ → List ℕ × List ℕ
split [] = ([], [])
split (c ∷ cs) = let (token, rest) = split cs in if c == colon then ([], cs) else (c ∷ token, rest)

unfoldable pub strtok : List ℕ → Option (List ℕ × List ℕ)
unfolding split
strtok [] = none
strtok (c ∷ cs) = let rest = strtok cs in if c == colon then rest else some (split (c ∷ cs))

-- The reading of an unsigned number by `sscanf`: white space, a sign, and digits. A number that does
-- not fit an unsigned long of 64 bits is the greatest one.
abbrev pub is_space : ℕ → Bool
is_space c = c == 32 || (leb 9 c && leb c 13)

abbrev pub is_digit : ℕ → Bool
is_digit c = leb 48 c && leb c 57

unfoldable pub skip_space : List ℕ → List ℕ
skip_space [] = []
skip_space (c ∷ cs) = let rest = skip_space cs in if is_space c then rest else c ∷ cs

unfoldable pub unsign : List ℕ → Bool × List ℕ
unsign [] = (false, [])
unsign (c ∷ cs) = if c == 45 then (true, cs) else if c == 43 then (false, cs) else (false, c ∷ cs)

unfoldable pub read_digits : ℕ → List ℕ → ℕ
read_digits value [] = value
read_digits value (c ∷ cs) =
    let rest = read_digits (value * 10 + (c - 48)) cs in if is_digit c then rest else value

abbrev pub bounded : Bool → ℕ → ℕ
bounded negative value =
    if leb (2 ^ 64) value then 2 ^ 64 - 1 else if negative then (2 ^ 64 - value) % 2 ^ 64 else value

unfoldable pub number : Bool → List ℕ → Option ℕ
unfolding read_digits
number negative [] = none
number negative (c ∷ cs) =
    if is_digit c then some (bounded negative (read_digits 0 (c ∷ cs))) else none

unfoldable pub scan_ulong : List ℕ → Option ℕ
unfolding skip_space unsign number
scan_ulong s = let (negative, rest) = unsign (skip_space s) in number negative rest

-- `struct pn532_uart_descriptor`, and the like of the other drivers.
pub record Descriptor : Type 0 where
  pub port : List ℕ
  pub speed : ℕ

abbrev pub take_speed : Option ℕ → Descriptor → ℤ × Descriptor
take_speed none desc = (pos 2, desc)
take_speed (some speed) desc = (pos 3, record desc { speed = speed % 2 ^ 32 })

unfoldable pub decode_speed : Option (List ℕ × List ℕ) → Descriptor → ℤ × Descriptor
unfolding scan_ulong
decode_speed none desc = (pos 2, desc)
decode_speed (some (speed_s, rest)) desc = take_speed (scan_ulong speed_s) desc

unfoldable pub decode_port : Option (List ℕ × List ℕ) → Descriptor → ℤ × Descriptor
unfolding decode_speed strtok
decode_port none desc = (pos 1, desc)
decode_port (some (port, rest)) desc =
    decode_speed (strtok rest) (record desc { port = take 127 port })

unfoldable pub decode_driver : List ℕ → Option (List ℕ × List ℕ) → Descriptor → ℤ × Descriptor
unfolding decode_port strtok
decode_driver name none desc = (negsuc 0, desc)
decode_driver name (some (driver_name, rest)) desc =
    if equal_bytes driver_name name then decode_port (strtok rest) desc else (pos 0, desc)

-- How many elements are decoded, and the descriptor, for a driver of this name.
unfoldable pub connstring_decode : List ℕ → List ℕ → Descriptor → ℤ × Descriptor
unfolding decode_driver strtok
connstring_decode name connstring desc = decode_driver name (strtok connstring) desc

-- "pn532_uart", "arygon" and "ACR122S".
abbrev pub pn532_uart_name : List ℕ
pn532_uart_name = 112 ∷ 110 ∷ 53 ∷ 51 ∷ 50 ∷ 95 ∷ 117 ∷ 97 ∷ 114 ∷ 116 ∷ []

abbrev pub arygon_name : List ℕ
arygon_name = 97 ∷ 114 ∷ 121 ∷ 103 ∷ 111 ∷ 110 ∷ []

abbrev pub acr122s_name : List ℕ
acr122s_name = 65 ∷ 67 ∷ 82 ∷ 49 ∷ 50 ∷ 50 ∷ 83 ∷ []

-- `pn532_connstring_decode`, `arygon_connstring_decode` and `acr122s_connstring_decode`
unfoldable pub pn532_connstring_decode : List ℕ → Descriptor → ℤ × Descriptor
unfolding connstring_decode
pn532_connstring_decode = connstring_decode pn532_uart_name

unfoldable pub arygon_connstring_decode : List ℕ → Descriptor → ℤ × Descriptor
unfolding connstring_decode
arygon_connstring_decode = connstring_decode arygon_name

unfoldable pub acr122s_connstring_decode : List ℕ → Descriptor → ℤ × Descriptor
unfolding connstring_decode
acr122s_connstring_decode = connstring_decode acr122s_name

-- `%PRIu32`, for at most `places` digits.
unfoldable pub print_decimal : ℕ → ℕ → List ℕ
print_decimal zero n = []
print_decimal (suc places) n =
    let front = print_decimal places (n / 10) in
    if ltb n 10 then (48 + n) ∷ [] else front ++ (48 + n % 10) ∷ []

-- What a scan writes: `snprintf(connstring, ..., "%s:%s:%"PRIu32, name, port, speed)`.
unfoldable pub connstring_of : List ℕ → List ℕ → ℕ → List ℕ
unfolding print_decimal
connstring_of name port speed = name ++ colon ∷ (port ++ colon ∷ print_decimal 10 speed)
