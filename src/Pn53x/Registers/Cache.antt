-- ===== src/Pn53x/Registers/Cache.antt =====
-- What the write-back cache means: the content that each cached register will have once the cache is
-- written back.
use libnfc.Prelude.{ℕ, ◌+◌, ◌-◌, ◌<◌, ◌≤◌, ◌≡◌, ◌≢◌, refl, ap, ◌∙◌, arith, Bool, true, false, ◌||◌}
use libnfc.Prelude.{
  ltb, if◌then◌else◌, get_or, length, get_or-set_self, get_or-set_ne, bit_or, bit_and,
}
use libnfc.Pn53x.Device.{Device, nfc_success}
use libnfc.Pn53x.Monad.{M, done, Transceive}
use libnfc.Pn53x.Registers.{cache_write, write_register, merge_one, cache_min, cache_max, inverse}
use libnfc.Pn53x.Registers.Merge.{merge_one-kept}

-- The content of cached register `i` over a chip whose register holds `chip`: the bits of the mask
-- from the cache, the others from the chip.
abbrev pub content : {W : Type 0} → Device W → ℕ → ℕ → ℕ
content d i chip = merge_one (get_or d.wb_data i 0) (get_or d.wb_mask i 0) chip

otherwise :
    {W A : Type 0} (b : Bool) (m k : M W A) (d : Device W)
    → b ≡ false
    → (if b then m else k) d ≡ k d
otherwise true m k d h = absurd (ground (arith, h))
otherwise false m k d h = refl

cached-run :
    {W : Type 0} (transceive : Transceive W) (i mask value : ℕ) (d : Device W)
    → i ≤ cache_max - cache_min
    → write_register transceive (cache_min + i) mask value d
      ≡ done (nfc_success, cache_write i mask value d)
unfolding write_register
cached-run transceive i mask value d h =
    let guard : (ltb (cache_min + i) cache_min || ltb cache_max (cache_min + i)) ≡ false =
      ground arith in
    let index : cache_min + i - cache_min ≡ i = omega arith in
    otherwise _ _ _ d guard ∙ ap (λ n. done (nfc_success, cache_write n mask value d)) index

-- A write to a register in the cache's range sends nothing and succeeds; the register's content then
-- has the bits of the mask from the value and keeps the others, and every other register keeps its
-- content, whatever the chip holds. The cache has an entry for the register, and masks are bytes.
pub write_register-content :
    {W : Type 0} (transceive : Transceive W) (i j mask value chip : ℕ) (d : Device W)
    → i ≤ cache_max - cache_min
    → i < length d.wb_data
    → i < length d.wb_mask
    → get_or d.wb_mask i 0 < 256
    → mask < 256
    → j ≢ i
    → (write_register transceive (cache_min + i) mask value d
        ≡ done (nfc_success, cache_write i mask value d))
      × (content (cache_write i mask value d) i chip ≡ merge_one value mask (content d i chip))
      × (content (cache_write i mask value d) j chip ≡ content d j chip)
unfolding cache_write
write_register-content transceive i j mask value chip d hi hd hm m mask_byte ne =
    let x = get_or d.wb_data i 0 in
    let old = get_or d.wb_mask i 0 in
    let data_i =
      get_or-set_self d.wb_data i
        (bit_or (bit_and (bit_and x old) (inverse mask)) (bit_and value mask)) 0 hd in
    let mask_i = get_or-set_self d.wb_mask i (bit_or old mask) 0 hm in
    let data_j =
      get_or-set_ne d.wb_data i j
        (bit_or (bit_and (bit_and x old) (inverse mask)) (bit_and value mask)) 0 ne in
    let mask_j = get_or-set_ne d.wb_mask i j (bit_or old mask) 0 ne in
    (
      cached-run transceive i mask value d hi,
      rw (data_i, mask_i) (merge_one-kept x old mask value chip m mask_byte),
      rw (data_j, mask_j) refl,
    )
