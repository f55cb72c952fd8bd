-- ===== src/Drivers/Connstring/Laws.antt =====
-- What an opening reads of what a scan has written.
use libnfc.Prelude.{ℕ, zero, suc, ◌%◌, ◌^◌, ◌≤◌, ◌<◌, ◌≡◌, refl, sym, subst, ap, arith}
use libnfc.Prelude.{true, false, some, List, [], ◌∷◌, ◌++◌, length, take}
use libnfc.Prelude.{◌==◌, ==_self}
use libnfc.Prelude.Int.{pos}
use libnfc.Pn53x.Frame.{equal_bytes}
use libnfc.Drivers.Connstring.{
  colon, split, strtok, scan_ulong, Descriptor, take_speed, decode_speed, decode_port,
  decode_driver, connstring_decode, connstring_of, print_decimal,
}
use libnfc.Drivers.Connstring.Decimal.{
  Digits, print_decimal-Digits, print_decimal-filled, read_digits-print_decimal, scan_ulong-Digits,
}

-- A text that is not empty and has no colon.
abbrev NoColon : List ℕ → Type 0
NoColon [] = Unit
NoColon (c ∷ cs) = ((c == colon) ≡ false) × NoColon cs

abbrev pub Token : List ℕ → Type 0
Token [] = ⊥
Token (c ∷ cs) = NoColon (c ∷ cs)

split_front : (token rest : List ℕ) → NoColon token → split (token ++ colon ∷ rest) ≡ (token, rest)
unfolding split
split_front [] rest none_in = refl
split_front (c ∷ cs) rest (other, none_in) = rw (other, split_front cs rest none_in) refl

split_last : (token : List ℕ) → NoColon token → split token ≡ (token, [])
unfolding split
split_last [] none_in = refl
split_last (c ∷ cs) (other, none_in) = rw (other, split_last cs none_in) refl

strtok_front :
    (token rest : List ℕ) → Token token → strtok (token ++ colon ∷ rest) ≡ some (token, rest)
unfolding strtok
strtok_front [] rest none_in = absurd none_in
strtok_front (c ∷ cs) rest (other, none_in) = rw (other, split_front cs rest none_in) refl

strtok_last : (token : List ℕ) → Token token → strtok token ≡ some (token, [])
unfolding strtok
strtok_last [] none_in = absurd none_in
strtok_last (c ∷ cs) (other, none_in) = rw (other, split_last cs none_in) refl

equal_bytes_self : (xs : List ℕ) → equal_bytes xs xs ≡ true
unfolding equal_bytes
equal_bytes_self [] = refl
equal_bytes_self (x ∷ xs) = rw (==_self x, equal_bytes_self xs) refl

take-short : (n : ℕ) (xs : List ℕ) → length xs ≤ n → take n xs ≡ xs
take-short zero [] short = refl
take-short zero (x ∷ xs) short = absurd (omega (arith, short))
take-short (suc n) [] short = refl
take-short (suc n) (x ∷ xs) short = ap (λ ys. x ∷ ys) (take-short n xs (omega arith))

Digits-NoColon : (xs : List ℕ) → Digits xs → NoColon xs
Digits-NoColon [] digits = tt
Digits-NoColon (x ∷ xs) (lo, hi, digits) = (ground arith, Digits-NoColon xs digits)

Digits-Token : (xs : List ℕ) → Digits xs → 1 ≤ length xs → Token xs
Digits-Token [] digits filled = absurd (omega arith)
Digits-Token (x ∷ xs) digits filled = Digits-NoColon (x ∷ xs) digits

decode_speed-some :
    (s : List ℕ) (v : ℕ) (desc : Descriptor)
    → scan_ulong s ≡ some v
    → v < 2 ^ 32
    → decode_speed (some (s, [])) desc ≡ (pos 3, record desc { speed = v })
unfolding decode_speed
decode_speed-some s v desc read small =
    let fits : v % 2 ^ 32 ≡ v = omega arith in
    subst (λ o. take_speed o desc ≡ (pos 3, record desc { speed = v })) (sym read) (rw fits refl)

decode-three :
    (name port s : List ℕ) (v : ℕ) (desc : Descriptor)
    → Token name
    → Token port
    → Token s
    → length port ≤ 127
    → scan_ulong s ≡ some v
    → v < 2 ^ 32
    → connstring_decode name (name ++ colon ∷ (port ++ colon ∷ s)) desc
      ≡ (pos 3, record { port = port; speed = v })
unfolding connstring_decode decode_driver decode_port
decode-three name port s v desc name_ok port_ok s_ok short read small =
    let first = strtok_front name (port ++ colon ∷ s) name_ok in
    let second = strtok_front port s port_ok in
    let last = decode_speed-some s v (record desc { port = port }) read small in
    rw (first, equal_bytes_self name, second, take-short 127 port short, strtok_last s s_ok) last

-- What a driver has written for a port and a speed, it reads again: three elements, the port and the
-- speed; whatever the descriptor held before. The name and the port are not empty and have no
-- colon, the port has at most 127 characters, and the speed fits 32 bits.
pub connstring_decode-connstring_of :
    (name port : List ℕ) (speed : ℕ) (desc : Descriptor)
    → Token name
    → Token port
    → length port ≤ 127
    → speed < 2 ^ 32
    → connstring_decode name (connstring_of name port speed) desc
      ≡ (pos 3, record { port = port; speed = speed })
unfolding connstring_of
connstring_decode-connstring_of name port speed desc name_ok port_ok short small =
    let printed = print_decimal 10 speed in
    let digits = print_decimal-Digits 10 speed in
    let filled = print_decimal-filled 9 speed in
    let value = read_digits-print_decimal 10 speed (omega arith) in
    let read = scan_ulong-Digits printed digits filled (rw value (omega arith)) in
    decode-three name port printed speed desc name_ok port_ok (Digits-Token printed digits filled)
      short (rw value at read) small
