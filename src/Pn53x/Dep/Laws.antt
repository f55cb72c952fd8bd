-- ===== src/Pn53x/Dep/Laws.antt =====
-- What the selection of a D.E.P. target keeps.
use libnfc.Prelude.{ℕ, ◌≤◌, ◌≡◌, refl, arith, false, Option, some, List, ◌∷◌}
use libnfc.Prelude.{ltb, length}
use libnfc.Prelude.Int.{ℤ, pos}
use libnfc.Types.{NfcBaudRate, NfcDepMode, NfcDepInfo, NfcTarget}
use libnfc.Pn53x.Device.{Device}
use libnfc.Pn53x.Monad.{done, Transceive}
use libnfc.Pn53x.Registers.{max_data}
use libnfc.Pn53x.Select.{current_target_new}
use libnfc.Pn53x.Transceive.{current_target_free}
use libnfc.Pn53x.Dep.{
  dep_rate, dep_command, passive_data, polling_request, in_jump_for_dep, keep_dep,
  select_dep_target,
}

-- At a baud rate of D.E.P., with a command that fits in its buffer: when the chip answers that it has
-- found no target, the selection returns 0, and the target that the caller's record held before the call
-- becomes the current one.
pub select_dep_target-none_found :
    {W : Type 0} (transceive : Transceive W) (ndm : NfcDepMode) (nbr : NfcBaudRate) (rate : ℕ)
    (initiator : Option NfcDepInfo) (before : NfcTarget) (mem : List ℕ) (timeout : ℤ)
    (size status : ℕ) (rx : List ℕ) (d d1 : Device W)
    → dep_rate nbr ≡ some rate
    → (let tx =
          dep_command ndm rate (passive_data ndm nbr (polling_request transceive nbr)) initiator in
        (length tx ≤ 67)
        × (transceive tx max_data timeout (current_target_free d)
            ≡ done ((pos size, status ∷ 0 ∷ rx), d1)))
    → select_dep_target transceive ndm nbr initiator (some before) mem timeout d
      ≡ done ((pos 0, some before), current_target_new before d1)
unfolding select_dep_target in_jump_for_dep keep_dep
select_dep_target-none_found transceive ndm nbr rate initiator before mem timeout size status rx d
      d1 dep (short, answer) =
    let fits : ltb 67 (
          length (
            dep_command ndm rate (passive_data ndm nbr (polling_request transceive nbr)) initiator))
        ≡ false =
      ground arith in
    rw dep (rw fits (rw answer refl))
