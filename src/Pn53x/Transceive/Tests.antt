-- ===== src/Pn53x/Transceive/Tests.antt =====
-- Commands to a chip that takes every frame and answers with a status byte.
use libnfc.Prelude.{ℕ, ◌≡◌, arith, List, [], ◌∷◌}
use libnfc.Prelude.Int.{pos, negsuc}
use libnfc.Pn53x.Device.{Device, nfc_success}
use libnfc.Pn53x.Monad.{Io, done}
use libnfc.Pn53x.Registers.{cache_write, write_register}
use libnfc.Pn53x.Registers.{merge, read_addresses, write_values}
use libnfc.Pn53x.Registers.Writeback.{answers, apply_writes, writeback-content}
use libnfc.Pn53x.Registers.Cache.{content, write_register-content}
use libnfc.Pn53x.Samples.{sample}
use libnfc.Pn53x.Transceive.{transceive}
use libnfc.Pn53x.Transceive.Fuel.{Ends, LeavesCache, transceive-Ends}

abbrev echo : Io (List ℕ)
echo = record {
  send = λ d tx timeout. (pos 0, d);
  receive = λ d size timeout. (pos 2, 0x00 ∷ 0x0b ∷ [], d);
}

echo-LeavesCache : LeavesCache echo
echo-LeavesCache = record {
  send_clean = λ d tx timeout h. h;
  receive_clean = λ d size timeout h. h;
}

abbrev device : Device (List ℕ)
device = sample []

abbrev in_list : List ℕ
in_list = 0x4a ∷ 0x01 ∷ 0x00 ∷ []

transceive-Ends_example : Ends (transceive echo 2 in_list 264 (negsuc 0) device)
transceive-Ends_example = transceive-Ends echo echo-LeavesCache 0 in_list 264 (negsuc 0) device

write_register-content_example :
    (write_register (transceive echo 2) 0x6302 0x30 0x10 device
      ≡ done (nfc_success, cache_write 1 0x30 0x10 device))
    × (content (cache_write 1 0x30 0x10 device) 1 0x05 ≡ 0x95)
    × (content (cache_write 1 0x30 0x10 device) 2 0x05 ≡ 0x05)
write_register-content_example =
    write_register-content (transceive echo 2) 1 2 0x30 0x10 0x05 device (omega arith) (omega arith)
      (omega arith) (omega arith) (omega arith) (omega arith)

-- Four registers that hold 0x05, the second with its high four bits in the cache.
abbrev fives : ℕ → ℕ
fives a = 0x05

writeback-content_example :
    let (data', masks') =
      merge device.wb_data device.wb_mask (answers fives (read_addresses 0 device.wb_mask)) in
    apply_writes fives (write_values 0 data' masks') 0x6302 ≡ 0x85
writeback-content_example =
    writeback-content 1 device.wb_data device.wb_mask fives (omega arith) (omega arith)
      (omega arith) (omega arith)
