-- ===== src/Drivers/Acr122Usb/Tests.antt =====
-- The driver over a port that is a list of bytes of one transfer.
use libnfc.Prelude.{
  ℕ, ◌≡◌, ◌<◌, refl, arith, List, [], ◌∷◌, ◌++◌, replicate, false, length, take, inr,
}
use libnfc.Prelude.{length-take, zero, suc}
use libnfc.Prelude.Int.{pos}
use libnfc.Mirror.Laws.{AreBytes}
use libnfc.Pn53x.Device.{Device}
use libnfc.Pn53x.Monad.{done}
use libnfc.Pn53x.Monad.Post.{Returns, Any}
use libnfc.Pn53x.Samples.{sample}
use libnfc.Drivers.Usb.{Usb, ReadsWithin}
use libnfc.Drivers.Acr122Usb.{receive, buffer_len}
use libnfc.Drivers.Acr122Usb.Data.{Acr122UsbData, acr122, frame_start}
use libnfc.Drivers.Acr122Usb.Laws.{receive_response_usb, response}
use libnfc.Drivers.Acr122Usb.Passes.{receive-Returns_usb}

-- Every read brings the same answer.
abbrev answering : List ℕ → Usb ℕ
answering answer = record {
  bulk_read = λ p size timeout. (pos (length (take size answer)), take size answer, suc p);
  bulk_write = λ p bytes timeout. (pos (length bytes), p);
  interrupted = λ p. false;
}

abbrev version : List ℕ
version = 0x32 ∷ 0x01 ∷ 0x06 ∷ 0x07 ∷ []

-- The length says 256 bytes more than there are.
abbrev answer : List ℕ
answer = response 0x02 264 0x00 0x0a 0x02 0x81 0x00 version (0x90 ∷ 0x00 ∷ [])

abbrev device : Device (Acr122UsbData ℕ)
device = sample (record {
  port = 0;
  model = acr122;
  max_packet_size = 64;
  abort_flag = false;
  tama_frame = frame_start acr122 ++ replicate 254 0x00;
  apdu_frame = frame_start acr122 ++ replicate 254 0x00;
})

abbrev stack : List ℕ
stack = replicate buffer_len 0xaa

receive_response_usb_example :
    receive (answering answer) 1 stack 264 (pos 350) device
    ≡ done
        ((pos 4, version), record device { driver_data = record device.driver_data { port = 1 } })
receive_response_usb_example =
    receive_response_usb (answering answer) device 0 stack version (0x90 ∷ 0x00 ∷ []) 264 18
      (pos 350) 1 264 0x00 0x0a 0x02 0x81 0x00 refl refl (omega arith) (omega arith)
      (inr (350, refl, omega arith)) (λ t. refl)

answering-ReadsWithin : (a : List ℕ) → ReadsWithin (answering a)
answering-ReadsWithin a p size timeout = omega (arith, length-take size a)

take-AreBytes : (n : ℕ) (xs : List ℕ) → AreBytes xs → AreBytes (take n xs)
take-AreBytes zero xs h = tt
take-AreBytes (suc n) [] h = tt
take-AreBytes (suc n) (x ∷ xs) h = (h.0, take-AreBytes n xs h.1)

replicate-AreBytes : (n x : ℕ) → x < 256 → AreBytes (replicate n x)
replicate-AreBytes zero x h = tt
replicate-AreBytes (suc n) x h = (h, replicate-AreBytes n x h)

receive-Returns_usb_example : Returns Any (receive (answering answer) 2 stack 264 (pos 350) device)
receive-Returns_usb_example =
    receive-Returns_usb (answering answer) (answering-ReadsWithin answer)
      (λ p size timeout. take-AreBytes size answer (omega arith)) 2 stack 264 (pos 350) device refl
      (replicate-AreBytes 265 0xaa (omega arith)) (omega arith) refl (omega arith)
