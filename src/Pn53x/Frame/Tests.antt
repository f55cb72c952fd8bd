-- ===== src/Pn53x/Frame/Tests.antt =====
-- The frame of the command GetFirmwareVersion.
use libnfc.Prelude.{◌≡◌, arith, [], ◌∷◌}
use libnfc.Pn53x.Device.{nfc_success}
use libnfc.Pn53x.Frame.{build_frame}
use libnfc.Pn53x.Frame.Laws.{build_frame-eq-encode}

build_frame-eq-encode_example :
    build_frame (0x02 ∷ []) 0 ≡ (nfc_success, 0x02 ∷ 0xfe ∷ 0xd4 ∷ 0x02 ∷ 0x2a ∷ 0x00 ∷ [], 9)
build_frame-eq-encode_example = build_frame-eq-encode (0x02 ∷ []) 0 (omega arith, tt)
