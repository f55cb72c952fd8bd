-- ===== src/Pn53x/Samples.antt =====
-- Devices for the tests.
use libnfc.Prelude.{true, none, [], ◌∷◌}
use libnfc.Prelude.Int.{pos}
use libnfc.Pn53x.Device.{Device, pn532, normal, idle, psm_normal}

-- A PN532 over the port `w`, with a cache of four registers.
abbrev pub sample : {W : Type 0} → W → Device W
sample w = record {
  driver_data = w;
  crc = true;
  par = true;
  easy_framing = true;
  auto_iso14443_4 = true;
  support_byte = 7;
  last_error = pos 0;
  type = pn532;
  power_mode = normal;
  operating_mode = idle;
  current_target = none;
  sam_mode = psm_normal;
  last_status_byte = 0;
  tx_bits = 0;
  parameters = 0x14;
  last_command = 0x02;
  wb_data = 0x00 ∷ 0x80 ∷ 0x00 ∷ 0x00 ∷ [];
  wb_mask = 0x00 ∷ 0xf0 ∷ 0x00 ∷ 0x00 ∷ [];
  wb_trigged = true;
  initiator_modulations = none;
  target_modulations = none;
  timeout_command = pos 350;
  timeout_atr = pos 103;
  timeout_communication = pos 52;
}
