-- ===== src/Tests/Links.antt =====
-- The theorems on two ends and the network between them, at runs that can be followed in the source.
use kaillera_client.Prelude.{ℕ, ◌≡◌, refl, List, [], ◌∷◌, ◌++◌, true, false, some, arith, get_elem?}
use kaillera_client.Containers.Oslist
use kaillera_client.KMessage
use kaillera_client.KMessage.{KMessage, Address, Datagram, Slot}
use kaillera_client.KMessage.Link
use kaillera_client.KMessage.Link.{
  Link, Step, Reach, Arrives, start, handed, sends, readable, receives, genuine, here, next,
}
use kaillera_client.KMessage.Link.Sublists.{Sublist}

abbrev near_end : Address
near_end = record { s_addr = 7; sin_port = 9 }

abbrev far_end : Address
far_end = record { s_addr = 8; sin_port = 9 }

abbrev sending : List ℕ → Link → Link
sending b l = record l { sender = KMessage.send l.sender b; msgs = l.msgs ++ b ∷ [] }

abbrev told : Link → Link
told l = record l { receiver = record l.receiver { has_data_waiting = true } }

abbrev receiving : Datagram → Link → Link
receiving d l = record l {
  receiver = (KMessage.check_recv 0 d l.receiver 20000 false).1;
  delivered = handed l.delivered (KMessage.check_recv 0 d l.receiver 20000 false).0;
}

-- Two messages are sent. The first datagram is lost, and the second arrives twice.
abbrev sent_two : Link
sent_two = told (sending (6 ∷ 2 ∷ []) (sending (5 ∷ 1 ∷ []) (start near_end far_end)))

abbrev second : List ℕ
second = 2 ∷ 1 ∷ 0 ∷ 2 ∷ 0 ∷ 6 ∷ 2 ∷ 0 ∷ 0 ∷ 2 ∷ 0 ∷ 5 ∷ 1 ∷ []

abbrev lossy : Link
lossy = receiving (some (near_end, second)) (told (receiving (some (near_end, second)) sent_two))

second_sent : get_elem? sent_two.sender.sent 0 ≡ some second
unfolding KMessage.send KMessage.send_message Oslist.add KMessage.bundle Oslist.size KMessage.pack
    KMessage.slot_bytes
second_sent = refl

lossy_delivered : lossy.delivered ≡ (5 ∷ 1 ∷ []) ∷ (6 ∷ 2 ∷ []) ∷ []
unfolding KMessage.check_recv KMessage.deliver KMessage.skip_stale_holes KMessage.head_ready
    KMessage.receive KMessage.ingest KMessage.fill_bundle KMessage.fill_slot KMessage.reserve
    Oslist.set_size Oslist.size Oslist.get Oslist.set_item KMessage.blank_slots KMessage.drop_head
    Oslist.removei Oslist.close_gap
lossy_delivered = refl

lossy_run : Reach near_end far_end lossy
lossy_run =
    next
      (next
        (next
          (next
            (next (next here (sends (5 ∷ 1 ∷ []) (omega arith) (omega arith)))
              (sends (6 ∷ 2 ∷ []) (omega arith) (omega arith)))
            readable)
          (receives 0 (some (near_end, second)) 20000 (genuine near_end 0 second second_sent)))
        readable)
      (receives 0 (some (near_end, second)) 20000 (genuine near_end 0 second second_sent))

delivered-Sublist_example : Sublist lossy.delivered lossy.msgs
delivered-Sublist_example = Link.delivered-Sublist lossy_run (omega arith)
