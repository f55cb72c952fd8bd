-- ===== src/Pn53x/Registers/Writeback.antt =====
-- The write-back against a chip that keeps its registers: `regs` is the byte at each address.
use libnfc.Prelude.{
  ℕ, zero, suc, ◌+◌, ◌*◌, ◌/◌, ◌^◌, ◌<◌, ◌≡◌, ◌≢◌, refl, ap, sym, ◌∙◌, arith, Bool, true, false,
}
use libnfc.Prelude.{
  List, [], ◌∷◌, length, get_or, drop, bit_and, ◌==◌, ==_self, ==_iff, if◌then◌else◌,
}
use libnfc.Prelude.Bits.{bit_and_mask, bit_and-zero, bit_or-zero, zero-bit_or}
use native.Mathlib.Decide.{dec_lt}
use libnfc.Pn53x.Registers.{
  cache_min, read_addresses, write_values, merge, merge_one, mask_one, partial,
}

-- What the chip answers to the addresses of a ReadRegister, each of two bytes.
abbrev pub answers : (ℕ → ℕ) → List ℕ → List ℕ
answers regs (hi ∷ lo ∷ rest) = regs (hi * 256 + lo) ∷ answers regs rest
answers regs _ = []

abbrev pub update : (ℕ → ℕ) → ℕ → ℕ → ℕ → ℕ
update regs address value a = if a == address then value else regs a

-- The registers after the addresses and values of a WriteRegister.
abbrev pub apply_writes : (ℕ → ℕ) → List ℕ → ℕ → ℕ
apply_writes regs (hi ∷ lo ∷ value ∷ rest) a =
    apply_writes (update regs (hi * 256 + lo) value) rest a
apply_writes regs _ a = regs a

address_bytes : (a : ℕ) → a / 2 ^ 8 * 256 + bit_and a 0xff ≡ a
address_bytes a = omega (arith, bit_and_mask 8 a)

update_other : (regs : ℕ → ℕ) (b v a : ℕ) → a ≢ b → update regs b v a ≡ regs a
update_other regs b v a h = let e : (a == b) ≡ false = ground arith in rw e refl

update_same : (regs : ℕ → ℕ) (b v : ℕ) → update regs b v b ≡ v
update_same regs b v = rw (==_self b) refl

-- The registers after the first entry of a write command, which is there if `b` holds.
abbrev first_write : Bool → (ℕ → ℕ) → ℕ → ℕ → ℕ → ℕ
first_write b regs address x = if b then update regs address x else regs

first_write_lem :
    (b : Bool) (address x : ℕ) (rest : List ℕ) (regs : ℕ → ℕ) (a : ℕ)
    → apply_writes regs (if b then (address / 2 ^ 8) ∷ bit_and address 0xff ∷ x ∷ rest else rest) a
      ≡ apply_writes (first_write b regs address x) rest a
first_write_lem false address x rest regs a = refl
first_write_lem true address x rest regs a = let e = address_bytes address in rw e refl

first_write_other :
    (b : Bool) (address x : ℕ) (regs : ℕ → ℕ) (a : ℕ)
    → a ≢ address
    → first_write b regs address x a ≡ regs a
first_write_other false address x regs a h = refl
first_write_other true address x regs a h = update_other regs address x a h

first_write_same :
    (b : Bool) (address x : ℕ) (regs : ℕ → ℕ)
    → first_write b regs address x address ≡ (if b then x else regs address)
first_write_same false address x regs = refl
first_write_same true address x regs = update_same regs address x

-- A register below the first one that is written stays as it was.
writes_below :
    (n : ℕ) (xs masks : List ℕ) (regs : ℕ → ℕ) (a : ℕ)
    → a < cache_min + n
    → apply_writes regs (write_values n xs masks) a ≡ regs a
unfolding write_values
writes_below n xs [] regs a h = refl
writes_below n [] (m ∷ ms) regs a h = refl
writes_below n (x ∷ xs) (m ∷ ms) regs a h =
    let here = cache_min + n in
    first_write_lem (m == 0xff) here x (write_values (n + 1) xs ms) regs a
    ∙ writes_below (n + 1) xs ms (first_write (m == 0xff) regs here x) a (omega arith)
    ∙ first_write_other (m == 0xff) here x regs a (omega arith)

-- The value with which a register of the cache ends.
abbrev final : ℕ → ℕ → ℕ → ℕ
final x mask old = if mask == 0xff then x else old

writes_at :
    (n j : ℕ) (xs masks : List ℕ) (regs : ℕ → ℕ)
    → j < length xs
    → j < length masks
    → apply_writes regs (write_values n xs masks) (cache_min + (n + j))
      ≡ final (get_or xs j 0) (get_or masks j 0) (regs (cache_min + (n + j)))
unfolding write_values
writes_at n j [] masks regs p q = absurd (omega arith)
writes_at n j (x ∷ xs) [] regs p q = absurd (omega arith)
writes_at n zero (x ∷ xs) (m ∷ ms) regs p q =
    let here = cache_min + n in
    let first : n + 0 ≡ n = omega arith in
    rw first (
      first_write_lem (m == 0xff) here x (write_values (n + 1) xs ms) regs here
      ∙ writes_below (n + 1) xs ms (first_write (m == 0xff) regs here x) here (omega arith)
      ∙ first_write_same (m == 0xff) here x regs)
writes_at n (suc j) (x ∷ xs) (m ∷ ms) regs p q =
    let here = cache_min + n in
    let there = cache_min + (n + suc j) in
    let same : cache_min + (n + 1 + j) ≡ there = omega arith in
    let regs' = first_write (m == 0xff) regs here x in
    let ih = writes_at (n + 1) j xs ms regs' (omega arith) (omega arith) in
    first_write_lem (m == 0xff) here x (write_values (n + 1) xs ms) regs there
    ∙ rw same at ih
    ∙ ap (final (get_or xs j 0) (get_or ms j 0))
        (first_write_other (m == 0xff) here x regs there (omega arith))

-- One register of the second loop with the answer of the chip in front, if it was asked for.
merge_step :
    (b : Bool) (x m address : ℕ) (xs ms rest : List ℕ) (regs : ℕ → ℕ)
    → let res =
        answers regs (if b then (address / 2 ^ 8) ∷ bit_and address 0xff ∷ rest else rest) in
      let (data', masks') = merge xs ms (if b then drop 1 res else res) in
      let merged : List ℕ × List ℕ =
        if b
        then (merge_one x m (get_or res 0 0) ∷ data', mask_one x m (get_or res 0 0) ∷ masks')
        else (x ∷ data', m ∷ masks') in
      let each : List ℕ × List ℕ = (
        (if b then merge_one x m (regs address) else x) ∷ (merge xs ms (answers regs rest)).0,
        (if b then mask_one x m (regs address) else m) ∷ (merge xs ms (answers regs rest)).1,
      ) in
      merged ≡ each
merge_step false x m address xs ms rest regs = refl
merge_step true x m address xs ms rest regs = let e = address_bytes address in rw e refl

merge_none : (x r : ℕ) → r < 256 → merge_one x 0 r ≡ r
merge_none x r h =
    let low : bit_and r 0xff ≡ r = omega (arith, bit_and_mask 8 r) in
    rw (bit_and-zero x, low, zero-bit_or r) refl

merge_all : (x r : ℕ) → x < 256 → merge_one x 0xff r ≡ x
merge_all x r h =
    let low : bit_and x 0xff ≡ x = omega (arith, bit_and_mask 8 x) in
    rw (bit_and-zero r, low, bit_or-zero x) refl

-- A register that was asked for ends with the joined value, and no other bits are written.
settle_partial : (x m r : ℕ) → final (merge_one x m r) (mask_one x m r) r ≡ merge_one x m r
settle_partial x m r = go (merge_one x m r) (merge_one x m r == r) refl
  where
    go : (v : ℕ) (b : Bool) → (v == r) ≡ b → final v (if b then 0x00 else 0xff) r ≡ v
    go v true e = sym ((==_iff v r).0 e)
    go v false e = refl

settle_whole : (x m r : ℕ) → x < 256 → r < 256 → partial m ≡ false → final x m r ≡ merge_one x m r
settle_whole x m r hx hr h = elim (dec_lt 0 m) [
  | no zero_mask ↦ let e : m ≡ 0 = omega arith in rw e (sym (merge_none x r hr))
  | yes nz ↦ let e : m ≡ 255 = ground arith in rw e (sym (merge_all x r hx))
]

settle :
    (b : Bool) (x m r : ℕ)
    → x < 256
    → r < 256
    → partial m ≡ b
    → final (if b then merge_one x m r else x) (if b then mask_one x m r else m) r ≡ merge_one x m r
settle true x m r hx hr h = settle_partial x m r
settle false x m r hx hr h = settle_whole x m r hx hr h

-- The lists after the second loop, for a cache from register `n` on.
abbrev settled : ℕ → List ℕ → List ℕ → (ℕ → ℕ) → List ℕ × List ℕ
settled n xs masks regs = merge xs masks (answers regs (read_addresses n masks))

settled_step :
    (n x m : ℕ) (xs ms : List ℕ) (regs : ℕ → ℕ)
    → let each : List ℕ × List ℕ = (
      (if partial m then merge_one x m (regs (cache_min + n)) else x)
          ∷ (settled (n + 1) xs ms regs).0,
      (if partial m then mask_one x m (regs (cache_min + n)) else m)
          ∷ (settled (n + 1) xs ms regs).1,
    ) in
      settled n (x ∷ xs) (m ∷ ms) regs ≡ each
unfolding merge read_addresses
settled_step n x m xs ms regs =
    merge_step (partial m) x m (cache_min + n) xs ms (read_addresses (n + 1) ms) regs

settled_at :
    (n j : ℕ) (xs masks : List ℕ) (regs : ℕ → ℕ)
    → j < length xs
    → j < length masks
    → get_or xs j 0 < 256
    → regs (cache_min + (n + j)) < 256
    → (j < length (settled n xs masks regs).0)
      × (j < length (settled n xs masks regs).1)
      × (final
            (get_or (settled n xs masks regs).0 j 0)
            (get_or (settled n xs masks regs).1 j 0)
            (regs (cache_min + (n + j)))
          ≡ merge_one (get_or xs j 0) (get_or masks j 0) (regs (cache_min + (n + j))))
settled_at n j [] masks regs p q hx hr = absurd (omega arith)
settled_at n j (x ∷ xs) [] regs p q hx hr = absurd (omega arith)
settled_at n zero (x ∷ xs) (m ∷ ms) regs p q hx hr =
    let first : n + 0 ≡ n = omega arith in
    let step = settled_step n x m xs ms regs in
    rw (step, first)
      (
        omega arith,
        omega arith,
        settle (partial m) x m (regs (cache_min + n)) hx (rw first at hr) refl,
      )
settled_at n (suc j) (x ∷ xs) (m ∷ ms) regs p q hx hr =
    let same : n + 1 + j ≡ n + suc j = omega arith in
    let step = settled_step n x m xs ms regs in
    let (a, b, c) = settled_at (n + 1) j xs ms regs (omega arith) (omega arith) hx (rw same hr) in
    rw step (omega arith, omega arith, rw same at c)

-- The write-back of a cache to a chip that keeps its registers: after the registers that must be
-- read are read, merged and written, each cached register holds the bits of its mask from the
-- cache and its other bits as they were, whatever its mask. The values in the cache and in the chip
-- are bytes.
pub writeback-content :
    (j : ℕ) (xs masks : List ℕ) (regs : ℕ → ℕ)
    → j < length xs
    → j < length masks
    → get_or xs j 0 < 256
    → regs (cache_min + j) < 256
    → let (data', masks') = merge xs masks (answers regs (read_addresses 0 masks)) in
      apply_writes regs (write_values 0 data' masks') (cache_min + j)
      ≡ merge_one (get_or xs j 0) (get_or masks j 0) (regs (cache_min + j))
writeback-content j xs masks regs p q hx hr =
    let first : 0 + j ≡ j = omega arith in
    let (a, b, c) = settled_at 0 j xs masks regs p q hx (rw first hr) in
    let (data', masks') = settled 0 xs masks regs in
    rw first at (writes_at 0 j data' masks' regs a b ∙ c)
