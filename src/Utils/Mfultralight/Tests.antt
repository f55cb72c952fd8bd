-- ===== src/Utils/Mfultralight/Tests.antt =====
-- A reader that remembers whether a page was written that the user has not asked for.
use libnfc.Prelude.{◌≡◌, refl, Bool, true, false, ◌||◌, [], ◌∷◌, replicate}
use libnfc.Prelude.Int.{pos}
use libnfc.Utils.Mifare.{Reader}
use libnfc.Utils.Mifare.Kept.{Protected}
use libnfc.Utils.Mfultralight.{Tool, write_card}
use libnfc.Utils.Mfultralight.Laws.{overwrites, write_card-Guarded}

abbrev watch : Reader Bool
watch = record {
  set_property_bool = λ p b w. (pos 0, w);
  transceive_bytes = λ tx room timeout w. (pos 0, [], overwrites false true tx || w);
  transceive_bits = λ tx bits w. (pos 0, w);
  select_passive_target = λ uid nai w. (pos 1, nai, w);
}

watch-Protected : Protected (overwrites false true) watch (λ w. w ≡ false)
watch-Protected = record {
  set_property_bool-Safe = λ p b w safe. safe;
  transceive_bytes-Safe = λ tx room timeout w allowed safe. rw (allowed, safe) refl;
  transceive_bits-Safe = λ tx bits w safe. safe;
  select_passive_target-Safe = λ uid nai w safe. safe;
}

abbrev tool : Tool Bool
tool = record {
  reader = false;
  nai = record { atqa = 0x00 ∷ 0x44 ∷ []; sak = 0x00; uid = replicate 7 0x04; ats = [] };
  mp = replicate 16 0;
  dump = replicate 64 0x11;
}

-- The OTP bytes are asked for, the lock bytes are not.
write_card-Guarded_example : (write_card watch false true (replicate 12 0) tool).1.reader ≡ false
write_card-Guarded_example =
    write_card-Guarded watch (λ w. w ≡ false) false true watch-Protected (replicate 12 0) tool refl
