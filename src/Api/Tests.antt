-- ===== src/Api/Tests.antt =====
-- A driver with one card in its field.
use libnfc.Prelude.{ℕ, some, none, arith, true, Bool, List, [], ◌∷◌}
use libnfc.Prelude.Int.{pos}
use libnfc.Types.{NfcModulation, NfcTarget, nsi, nmt_iso14443a, nbr_106, ndm_passive, nbr_212}
use libnfc.Pn53x.Device.{nfc_etimeout}
use libnfc.Pn53x.Monad.{return}
use libnfc.Pn53x.Monad.Post.{Post, Returns}
use libnfc.Pn53x.Samples.{sample}
use libnfc.Api.{Driver, set_bool, list_passive_targets}
use libnfc.Api.Polling.{
  nfc_select_dep_target, nfc_poll_dep_target, Polled, nfc_poll_dep_target-Returns,
}
use libnfc.Api.Listing.{Listed, list_passive_targets-Listed}

abbrev field : Driver (List ℕ)
field = record {
  set_property_bool = some (λ p enable. return (pos 0));
  initiator_init = some (return (pos 0));
  set_property_int = none;
  poll_target = none;
  select_dep_target = some (λ ndm nbr ndi nt timeout. return (nfc_etimeout, nt));
  select_passive_target = some (λ nm bytes nt. return (pos 1, nt));
  deselect_target = some (return (pos 0));
  target_init = some (λ nt room timeout. return (pos 1, 0xe0 ∷ []));
  target_send_bytes = some (λ tx timeout. return (pos 0));
  target_receive_bytes = some (λ room timeout. return (pos 1, 0xb2 ∷ []));
}

abbrev nm_a : NfcModulation
nm_a = record { nmt = nmt_iso14443a; nbr = nbr_106 }

abbrev one_card : NfcTarget
one_card = record { nti = nsi []; nm = nm_a }

abbrev always : NfcTarget → NfcTarget → Bool
always a b = true

list_passive_targets-Listed_example :
    Post (Listed always 4) (list_passive_targets field always nm_a 4 one_card (sample []))
list_passive_targets-Listed_example =
    list_passive_targets-Listed field always nm_a 4 one_card (sample [])

nfc_poll_dep_target-Returns_example :
    Returns Polled
      (nfc_poll_dep_target field ndm_passive nbr_212 none 4 none (pos 1000) (sample []))
unfolding set_bool nfc_select_dep_target
nfc_poll_dep_target-Returns_example =
    nfc_poll_dep_target-Returns field ndm_passive nbr_212 none (λ d. tt) (λ nt d. tt) 4 1000 none
      (sample []) (omega arith)
