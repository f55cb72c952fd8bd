-- ===== src/Pn53x/Transceive/Status.antt =====
-- The result of a command: the switch over the status byte sorts every byte into success or one of
-- the error codes.
use libnfc.Prelude.{ℕ, ◌≡◌, arith, ◌==◌, not}
use libnfc.Prelude.Int.{is_neg}
use libnfc.Pn53x.Transceive.{status_result}

-- A command succeeds by exactly the status 0: for every status byte and every count of bytes, the
-- result is negative when the status is not 0, and is the count when it is.
pub status_result-is_neg :
    (status received : ℕ) → is_neg (status_result status received) ≡ not (status == 0)
unfolding status_result
status_result-is_neg status received = ground arith
