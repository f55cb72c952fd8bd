-- ===== src/Drivers/Acr122s/Tests.antt =====
-- The driver over a port that is a list of waiting bytes.
use libnfc.Prelude.{◌≡◌, refl, arith, List, [], ◌∷◌, ◌++◌, ℕ, replicate}
use libnfc.Prelude.Int.{pos}
use libnfc.Pn53x.Device.{Device}
use libnfc.Pn53x.Monad.{done, aborted}
use libnfc.Pn53x.Samples.{sample}
use libnfc.Drivers.Line.{line, line-Delivers}
use libnfc.Drivers.Acr122s.{Acr122sData, receive, send}
use libnfc.Drivers.Acr122s.Frame.{max_frame_size, le32}
use libnfc.Drivers.Acr122s.Laws.{receive_response, send-command}
use libnfc.Drivers.Acr122s.Overrun.{receive_overrun}

abbrev stack : List ℕ
stack = replicate max_frame_size 0xaa

-- One message has been sent, and `bytes` wait.
abbrev device : List ℕ → Device (Acr122sData (List ℕ))
device bytes = sample (record { port = bytes; seq = 1 })

abbrev version : List ℕ
version = 0x32 ∷ 0x01 ∷ 0x06 ∷ 0x07 ∷ []

abbrev response : List ℕ
response =
    0x02
    ∷ 0x80
    ∷ (le32 8
        ++ (0x00
            ∷ 0x00
            ∷ 0x00
            ∷ 0x00
            ∷ 0x00
            ∷ 0xd5
            ∷ 0x03
            ∷ (version ++ 0x90 ∷ 0x00 ∷ 0x77 ∷ 0x03 ∷ [])))

receive_response_example :
    (w : List ℕ) × (receive (line []) stack 264 (pos 100) (device response)
      ≡ done (
        (pos 4, version),
        record (device response) { driver_data = record { port = w; seq = 1 }; last_error = pos 0 },
      ))
    × (w ≡ [])
receive_response_example =
    receive_response (line []) (line-Delivers []) (device response) stack version [] 264 (pos 100)
      0x02 0x80 0x00 0x00 0x00 0x00 0x00 0xd5 0x03 0x90 0x00 0x77 0x03 refl (omega arith)
      (omega arith) refl refl

abbrev endless : List ℕ
endless = 0x02 ∷ 0x80 ∷ (le32 0xfffffff3 ++ (0x00 ∷ 0x00 ∷ 0x00 ∷ 0x00 ∷ 0x00 ∷ []))

receive_overrun_example : receive (line []) stack 264 (pos 100) (device endless) ≡ aborted
receive_overrun_example =
    receive_overrun (line []) (line-Delivers []) (device endless) stack [] 264 (pos 100) 0xfffffff3
      0x02 0x80 0x00 0x00 0x00 0x00 0x00 refl (omega arith) (omega arith) refl

abbrev acknowledged : List ℕ
acknowledged = 0x02 ∷ 0x00 ∷ 0x00 ∷ 0x03 ∷ []

send-command_example :
    (w' : List ℕ) × (send (line acknowledged) stack (0x02 ∷ []) (pos 100) (device endless)
      ≡ done (pos 0, record (device endless) { driver_data = record { port = w'; seq = 2 } }))
    × (w' ≡ [])
send-command_example =
    send-command (line acknowledged) (line-Delivers acknowledged) (device endless) stack (0x02 ∷ [])
      [] (pos 100) acknowledged refl (omega arith) refl refl
