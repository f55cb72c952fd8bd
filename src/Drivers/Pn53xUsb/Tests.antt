-- ===== src/Drivers/Pn53xUsb/Tests.antt =====
-- The driver over a port that is a list of transfers to come.
use libnfc.Prelude.{ℕ, ◌≡◌, refl, arith, List, [], ◌∷◌, replicate, false, length, take, inr}
use libnfc.Prelude.{length-take}
use libnfc.Prelude.Int.{pos}
use libnfc.Pn53x.Device.{Device, nfc_etimeout}
use libnfc.Pn53x.Frame.{equal_bytes, subtract_bytes}
use libnfc.Pn53x.Frame.Format.{encode}
use libnfc.Pn53x.Monad.{done, aborted}
use libnfc.Pn53x.Monad.Post.{Returns, Any}
use libnfc.Pn53x.Samples.{sample}
use libnfc.Drivers.Usb.{Usb, ReadsWithin}
use libnfc.Drivers.Pn53xUsb.{receive, take_frame, buffer_len}
use libnfc.Drivers.Pn53xUsb.Data.{Pn53xUsbData, nxp_pn533}
use libnfc.Drivers.Pn53xUsb.Laws.{receive-encode_usb}
use libnfc.Drivers.Pn53xUsb.Passes.{receive-Returns, receive-short_timeout}

-- A port at which one transfer waits.
abbrev transfer : Usb (List ℕ)
transfer = record {
  bulk_read = λ p size timeout. (pos (length (take size p)), take size p, []);
  bulk_write = λ p bytes timeout. (pos (length bytes), p);
  interrupted = λ p. false;
}

transfer-ReadsWithin : ReadsWithin transfer
transfer-ReadsWithin p size timeout = omega (arith, length-take size p)

abbrev version : List ℕ
version = 0x32 ∷ 0x01 ∷ 0x06 ∷ 0x07 ∷ []

abbrev device : Device (Pn53xUsbData (List ℕ))
device = sample (record {
  port = encode 0xd5 (0x03 ∷ version);
  model = nxp_pn533;
  max_packet_size = 64;
  abort_flag = false;
})

abbrev stack : List ℕ
stack = replicate buffer_len 0xaa

receive-encode_usb_example :
    receive transfer 2 stack 262 (pos 350) device
    ≡ done (
      (pos 4, version),
      record device { driver_data = record device.driver_data { port = [] }; last_error = pos 0 },
    )
receive-encode_usb_example =
    receive-encode_usb transfer device 1 stack version 262 13 (pos 350) []
      (omega arith, (omega arith, (omega arith, (omega arith, tt)))) (omega arith) (omega arith)
      (omega arith) (inr (350, refl, omega arith)) (λ t. refl)

receive-Returns_example : Returns Any (receive transfer 2 stack 263 (pos 350) device)
receive-Returns_example =
    receive-Returns transfer transfer-ReadsWithin 263 2 stack (pos 350) device (omega arith) refl
      (omega arith) refl (omega arith)

receive-short_timeout_example :
    receive transfer 1 stack 263 (pos 100) device
    ≡ done ((nfc_etimeout, []), record device { last_error = nfc_etimeout })
receive-short_timeout_example =
    receive-short_timeout transfer 0 stack 263 (pos 100) device refl (omega arith)

-- With room for 264 bytes, the frame of an answer with so many is read past the end of the buffer.
past_the_end :
    take_frame 264 (take buffer_len (encode 0xd5 (0x03 ∷ replicate 264 0x00))) device ≡ aborted
unfolding take_frame equal_bytes subtract_bytes
past_the_end = refl
