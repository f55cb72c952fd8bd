-- ===== src/Pn53x/Registers.antt =====
-- Access to the chip's registers, and the write-back cache of the registers from CIU_Mode (0x6301)
-- to CIU_Coll (0x633E): libnfc/chips/pn53x.c, over `pn53x_transceive`. A write in that range is kept
-- in `wb_data` under `wb_mask` until the next command goes out.
pub mod Merge
pub mod Cache
pub mod Writeback
use libnfc.Prelude.{ℕ, zero, suc, ◌+◌, ◌-◌, ◌/◌, ◌%◌, ◌^◌, Bool, true, false, ◌&&◌, ◌||◌, not}
use libnfc.Prelude.{
  List, [], ◌∷◌, ltb, ◌==◌, if◌then◌else◌, length, get_or, set, drop, bit_and, bit_or,
}
use libnfc.Prelude.Int.{ℤ, pos, negsuc, is_neg}
use libnfc.Pn53x.Device.{Device, Pn53xType, pn533, nfc_success}
use libnfc.Pn53x.Monad.{M, ◌>>=◌, ◌>>◌, return, get, modify, try, Reply, Transceive}

abbrev pub is_pn533 : Pn53xType → Bool
is_pn533 pn533 = true
is_pn533 _ = false

-- `~mask` where it meets a byte.
abbrev pub inverse : ℕ → ℕ
inverse mask = 255 - mask

abbrev pub cache_min : ℕ
cache_min = 0x6301

abbrev pub cache_max : ℕ
cache_max = 0x633e

-- `wb_data` and `wb_mask` after a write to the cached register `i`.
module _ {W : Type 0} where
  unfoldable pub cache_write : ℕ → ℕ → ℕ → Device W → Device W
  cache_write i mask value d = record d {
    wb_data = set d.wb_data i (
        bit_or (bit_and (bit_and (get_or d.wb_data i 0) (get_or d.wb_mask i 0)) (inverse mask))
          (bit_and value mask));
    wb_mask = set d.wb_mask i (bit_or (get_or d.wb_mask i 0) mask);
    wb_trigged = true;
  }

-- A register that must be read first: some of its bits are to be written, and not all.
abbrev pub partial : ℕ → Bool
partial mask = not (mask == 0) && not (mask == 0xff)

-- The addresses that the first loop of `pn53x_writeback_register` appends, from register `n` on.
unfoldable pub read_addresses : ℕ → List ℕ → List ℕ
read_addresses n [] = []
read_addresses n (mask ∷ masks) =
    let rest = read_addresses (n + 1) masks in
    if partial mask then ((cache_min + n) / 2 ^ 8) ∷ bit_and (cache_min + n) 0xff ∷ rest else rest

-- One register of the second loop: the value read joined with what is to be written, and the mask,
-- which asks for a write of the whole register if the value is new.
abbrev pub merge_one : ℕ → ℕ → ℕ → ℕ
merge_one x mask read = bit_or (bit_and x mask) (bit_and read (inverse mask))

abbrev pub mask_one : ℕ → ℕ → ℕ → ℕ
mask_one x mask read = if merge_one x mask read == read then 0x00 else 0xff

-- The second loop over `wb_data` and `wb_mask`; `res` are the bytes of `abtRes` from `i` on.
unfoldable pub merge : List ℕ → List ℕ → List ℕ → List ℕ × List ℕ
merge [] masks res = ([], masks)
merge (x ∷ xs) [] res = (x ∷ xs, [])
merge (x ∷ xs) (mask ∷ masks) res =
    let (data', masks') = merge xs masks (if partial mask then drop 1 res else res) in
    if partial mask
    then (merge_one x mask (get_or res 0 0) ∷ data', mask_one x mask (get_or res 0 0) ∷ masks')
    else (x ∷ data', mask ∷ masks')

-- The addresses and values that the last loop appends, and the masks that it leaves.
unfoldable pub write_values : ℕ → List ℕ → List ℕ → List ℕ
write_values n xs [] = []
write_values n [] (mask ∷ masks) = []
write_values n (x ∷ xs) (mask ∷ masks) =
    let rest = write_values (n + 1) xs masks in
    if mask == 0xff
    then ((cache_min + n) / 2 ^ 8) ∷ bit_and (cache_min + n) 0xff ∷ x ∷ rest
    else rest

unfoldable pub clear_full : List ℕ → List ℕ
clear_full [] = []
clear_full (mask ∷ masks) = (if mask == 0xff then 0x00 else mask) ∷ clear_full masks

-- Commands.
abbrev pub read_register_code : ℕ
read_register_code = 0x06

abbrev pub write_register_code : ℕ
write_register_code = 0x08

-- `PN53x_EXTENDED_FRAME__DATA_MAX_LEN`, the size of the buffers.
abbrev pub max_data : ℕ
max_data = 264

module _ {W : Type 0} (transceive : Transceive W) where
  unfoldable pub read_register : ℕ → M W (ℤ × ℕ)
  read_register address = do
    (res, rx) ←
        transceive (read_register_code ∷ (address / 2 ^ 8) ∷ bit_and address 0xff ∷ []) 2 (negsuc 0)
    d ← get
    if is_neg res
        then return (res, 0)
        else return (nfc_success, get_or rx (if is_pn533 d.type then 1 else 0) 0)

  -- `pn53x_WriteRegister`
  unfoldable pub write_register_direct : ℕ → ℕ → M W ℤ
  write_register_direct address value = do
    (res, rx) ←
        transceive (write_register_code ∷ (address / 2 ^ 8) ∷ bit_and address 0xff ∷ value ∷ []) 0
          (negsuc 0)
    return res

  -- The write of some bits of a register that is not cached.
  unfoldable pub write_register_masked : ℕ → ℕ → ℕ → M W ℤ
  unfolding read_register write_register_direct
  write_register_masked address mask value = do
    (res, current) ← read_register address
    let new = bit_or (bit_and value mask) (bit_and current (inverse mask))
    if is_neg res
        then return res
        else if new == current
        then return nfc_success
        else write_register_direct address new

  -- `pn53x_write_register`
  unfoldable pub write_register : ℕ → ℕ → ℕ → M W ℤ
  unfolding write_register_masked write_register_direct cache_write
  write_register address mask value =
      if ltb address cache_min || ltb cache_max address
      then (if not (mask == 0xff)
          then write_register_masked address mask value
          else write_register_direct address value)
      else (do modify (cache_write (address - cache_min) mask value); return nfc_success)

  -- The first half of `pn53x_writeback_register`: `wb_trigged` is reset before anything is sent.
  unfoldable pub read_pending : M W ℤ
  unfolding read_addresses merge
  read_pending = do
    d ← get
    modify (λ d. record d { wb_trigged = false })
    let cmd = read_register_code ∷ read_addresses 0 d.wb_mask
    if ltb 1 (length cmd)
        then (do
          (res, rx) ← transceive cmd max_data (negsuc 0)
          d ← get
          if is_neg res then return res else (do
            let merged = merge d.wb_data d.wb_mask (if is_pn533 d.type then drop 1 rx else rx)
            modify (λ d. record d { wb_data = merged.0; wb_mask = merged.1 })
            return nfc_success))
        else return nfc_success

  -- The second half.
  unfoldable pub write_pending : M W ℤ
  unfolding write_values clear_full
  write_pending = do
    d ← get
    let cmd = write_register_code ∷ write_values 0 d.wb_data d.wb_mask
    modify (λ d. record d { wb_mask = clear_full d.wb_mask })
    if ltb 1 (length cmd)
        then (do
          (res, rx) ← transceive cmd 0 (negsuc 0)
          if is_neg res then return res else return nfc_success)
        else return nfc_success

  -- `pn53x_writeback_register`
  unfoldable pub writeback_register : M W ℤ
  unfolding read_pending write_pending
  writeback_register = try read_pending write_pending
