-- ===== src/Pn53x/Timed/Tests.antt =====
-- Timed exchanges at concrete inputs.
use libnfc.Prelude.{ℕ, ◌≡◌, refl, arith, false, [], ◌∷◌, replicate}
use libnfc.Prelude.Int.{pos}
use libnfc.Pn53x.Device.{Device}
use libnfc.Pn53x.Monad.{aborted, out_of_fuel, return, done, Io, Transceive}
use libnfc.Pn53x.Registers.{read_register, read_register_code}
use libnfc.Pn53x.Transceive.{transceive, exchange, take_answer, take_status, status_byte}
use libnfc.Pn53x.Samples.{sample}
use libnfc.Pn53x.Timed.{transceive_bytes_timed, wait_loop}
use libnfc.Pn53x.Timed.Laws.{transceive_bytes_timed_overrun, wait_loop-endless}

-- Every register of the chip is zero.
abbrev zeros : Transceive ℕ
zeros tx room timeout = return (pos 2, 0x00 ∷ 0x00 ∷ [])

abbrev device : Device ℕ
device = record (sample 0) { easy_framing = false; crc = false }

transceive_bytes_timed_overrun_example :
    transceive_bytes_timed zeros 3 0 46 0xffff (replicate 85 0x00) [] device ≡ aborted
transceive_bytes_timed_overrun_example =
    transceive_bytes_timed_overrun zeros 3 0 46 0xffff (replicate 85 0x00) [] device refl refl
      (omega arith)

-- A PN532 over a port that takes every frame, with an empty FIFO: its answers hold one byte, 0.
abbrev empty_fifo : Io ℕ
empty_fifo = record {
  send = λ d tx timeout. (pos 0, d);
  receive = λ d size timeout. (pos 1, 0x00 ∷ [], d);
}

-- A device whose last command was the read of a register, with nothing to write back.
abbrev reading : Device ℕ
reading = record (sample 0) { last_command = read_register_code; wb_trigged = false }

reading-empty :
    (d : Device ℕ)
    → d ≡ reading
    → (res : ℕ) × (d' : Device ℕ) × (read_register (transceive empty_fifo 2) 0x633a d
        ≡ done ((pos res, 0), d'))
      × (d' ≡ reading)
unfolding read_register transceive exchange take_answer take_status status_byte
reading-empty d e = (0, reading, rw e refl, refl)

wait_loop-endless_example :
    wait_loop (transceive empty_fifo 2) 100000 70000 0 7 reading ≡ out_of_fuel
wait_loop-endless_example =
    wait_loop-endless (transceive empty_fifo 2) (λ d. d ≡ reading) reading-empty 70000 (omega arith)
      100000 0 7 reading (omega arith) refl
