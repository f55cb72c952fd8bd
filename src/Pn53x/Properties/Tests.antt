-- ===== src/Pn53x/Properties/Tests.antt =====
-- The code of a timeout of 103 milliseconds.
use libnfc.Prelude.{◌+◌, ◌*◌, ◌≤◌, arith, min}
use libnfc.Prelude.Int.{pos}
use libnfc.Pn53x.Properties.{int_to_timeout}
use libnfc.Pn53x.Properties.Timeout.{duration, int_to_timeout-duration}

int_to_timeout-duration_example :
    let n = int_to_timeout (pos 103) in
    (5 ≤ n) × (n ≤ 16) × (duration n ≤ 10 * 103) × (10 * min 103 3280 ≤ 2 * duration n + 32)
int_to_timeout-duration_example = int_to_timeout-duration 103 (omega arith)
