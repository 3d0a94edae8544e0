-- ===== src/Tests/Runs.antt =====
-- Runs of the definitions on inputs that can be followed in the source.
use kaillera_client.Prelude.{
  ℕ, ◌≡◌, refl, List, [], ◌∷◌, ◌++◌, true, false, none, some, codes, le16,
}
use kaillera_client.Containers.Oslist
use kaillera_client.Containers.Oslist.{
  Oslist, contents, close_gap, removei, add, get, remove, remove_loop,
}
use kaillera_client.KMessage
use kaillera_client.KMessage.{KMessage, Address}
use kaillera_client.KrecReader.Markers
use kaillera_client.McChoice

abbrev four : Oslist ℕ
four = record { items = 1 ∷ 2 ∷ 3 ∷ 2 ∷ 9 ∷ []; length = 4 }

oslist_runs :
    (removei four 1 ≡ record { items = 1 ∷ 3 ∷ 2 ∷ 2 ∷ 9 ∷ []; length = 3 })
    × (contents (add four 5) ≡ 1 ∷ 2 ∷ 3 ∷ 2 ∷ 5 ∷ [])
unfolding removei add close_gap
oslist_runs = (refl, refl)

-- A bundle of two messages, the newest first, into an empty window: both are delivered in order.
abbrev peer : Address
peer = record { s_addr = 7; sin_port = 9 }

abbrev two_messages : List ℕ
two_messages = 2 ∷ (le16 1 ++ (le16 1 ++ (66 ∷ (le16 0 ++ (le16 2 ++ (64 ∷ 65 ∷ []))))))

abbrev waiting : KMessage
waiting = record (KMessage.init peer) { has_data_waiting = true }

abbrev received : KMessage
received = KMessage.receive waiting (some (peer, two_messages))

kmessage : Unit {0}
unfolding KMessage.receive KMessage.ingest KMessage.fill_bundle KMessage.fill_slot KMessage.reserve
    KMessage.resync KMessage.free_in_cache KMessage.free_bodies KMessage.blank_slots
    KMessage.deliver KMessage.drop_head Oslist.size Oslist.get Oslist.set_item Oslist.set_size
    Oslist.clear removei close_gap
kmessage = tt

delivered_in_order :
    ((KMessage.deliver received 100 false).0 ≡ some (64 ∷ 65 ∷ []))
    × ((KMessage.deliver (KMessage.deliver received 100 false).1 100 false).0 ≡ some (66 ∷ []))
unfolding kmessage
delivered_in_order = (refl, refl)

mcchoice_runs :
    (McChoice.in_list (some (codes "ana,bob")) (codes "BOB") ≡ true)
    × (McChoice.in_list (some (codes "ana,bob")) (codes "bo") ≡ false)
    × (McChoice.line McChoice.iso false 64 ≡ codes "[M. Card] iso")
unfolding McChoice.in_list McChoice.in_fields McChoice.field_length McChoice.line McChoice.word
mcchoice_runs = (refl, refl, refl)

marker_runs :
    (Markers.memcard_from_marker (codes "[Sem M. Card] desativado.") ≡ some false)
    × (Markers.memcard_from_marker (codes "[Sem M. Card] ativado!") ≡ some true)
    × (Markers.memcard_from_name (codes "recs/x_semmcard.krec") ≡ some true)
    × (Markers.memcard_from_name (codes "ComMCard/x.krec") ≡ none)
unfolding Markers.memcard_from_marker Markers.memcard_from_name
marker_runs = (refl, refl, refl, refl)
