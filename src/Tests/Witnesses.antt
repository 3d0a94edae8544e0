-- ===== src/Tests/Witnesses.antt =====
-- The theorems on the Kaillera messages and the ordered list, at inputs that can be followed in the
-- source: what their hypotheses ask for holds there.
use kaillera_client.Prelude.{
  ℕ, ◌≤◌, ◌<◌, ◌≡◌, refl, List, [], ◌∷◌, ◌++◌, true, false, none, some, arith, le16, le32,
  replicate, length, take, AllBytes, c_str,
}
use kaillera_client.Containers.Oslist
use kaillera_client.Containers.Oslist.{Oslist, contents}
use kaillera_client.KMessage
use kaillera_client.KMessage.{KMessage, Address, Slot}
use kaillera_client.KMessage.Invariant
use kaillera_client.KMessage.Delivery
use kaillera_client.KMessage.Bundle
use kaillera_client.KInstruction
use kaillera_client.KInstruction.{KInstruction}
use kaillera_client.KInstruction.Grow
use kaillera_client.KInstruction.Fields
use kaillera_client.KInstruction.Strings
use kaillera_client.KInstruction.Wire

abbrev peer : Address
peer = record { s_addr = 7; sin_port = 9 }

-- An object that has been told of a datagram.
abbrev waiting : KMessage
waiting = record (KMessage.init peer) { has_data_waiting = true }

waiting-IsValid : Invariant.IsValid waiting
waiting-IsValid = record {
  cache = record { array = refl; bounded = omega arith };
  last = omega arith;
  window = tt;
}

-- Two messages, the newest first.
abbrev two_messages : List ℕ
two_messages = 2 ∷ 1 ∷ 0 ∷ 1 ∷ 0 ∷ 66 ∷ 0 ∷ 0 ∷ 2 ∷ 0 ∷ 64 ∷ 65 ∷ []

two_messages-AllBytes : AllBytes two_messages
two_messages-AllBytes = (
  omega arith,
  (
    omega arith,
    (
      omega arith,
      (
        omega arith,
        (
          omega arith,
          (
            omega arith,
            (
              omega arith,
              (omega arith, (omega arith, (omega arith, (omega arith, (omega arith, tt))))),
            ),
          ),
        ),
      ),
    ),
  ),
)

-- What opens the code of the message layer.
kmessage : Unit {0}
unfolding KMessage.receive KMessage.ingest KMessage.fill_bundle KMessage.fill_slot KMessage.reserve
    KMessage.resync KMessage.free_in_cache KMessage.free_bodies KMessage.blank_slots
    KMessage.deliver KMessage.drop_head KMessage.drop_holes KMessage.head_ready
    KMessage.skip_stale_holes KMessage.has_data KMessage.check_recv Oslist.size Oslist.get
    Oslist.set_item Oslist.set_size Oslist.clear Oslist.removei Oslist.close_gap
kmessage = tt

check_recv-IsValid_example :
    Invariant.IsValid (KMessage.check_recv 5 (some (peer, two_messages)) waiting 20000 false).1
    × Invariant.IsValid (KMessage.has_data 5 waiting).1
check_recv-IsValid_example =
    Invariant.check_recv-IsValid 5 (some (peer, two_messages)) 20000 false waiting-IsValid
      two_messages-AllBytes

-- The object with both messages in its window.
abbrev received : KMessage
received = KMessage.ingest (KMessage.init peer) peer two_messages

received-IsValid : Invariant.IsValid received
received-IsValid =
    Invariant.ingest-IsValid peer two_messages (Invariant.init-IsValid peer) two_messages-AllBytes

deliver_in_order_example :
    Delivery.TakenInOrder received (64 ∷ 65 ∷ []) (KMessage.deliver received 100 false).1
unfolding kmessage
deliver_in_order_example = Delivery.deliver_in_order 100 (64 ∷ 65 ∷ []) received-IsValid refl

has_data-check_recv_example :
    (bytes : List ℕ) × (0 < length bytes)
    × ((KMessage.check_recv 5 none (KMessage.has_data 5 received).1 20000 true).0 ≡ some bytes)
unfolding kmessage
has_data-check_recv_example =
    Delivery.has_data-check_recv 5 none 20000 true received-IsValid refl (omega arith) refl

-- A hole in front of a message, seen at 100 ms.
abbrev stuck : KMessage
stuck = record (KMessage.init peer) {
  in_cache = record {
    items =
        record { serial = 0; length = 0; body = none }
        ∷ record { serial = 1; length = 1; body = some (66 ∷ []) }
        ∷ replicate 14 KMessage.empty_slot;
    length = 2;
  };
  hole_pending = true;
  hole_since = 100;
}

skip_stale_holes_lem_example :
    KMessage.head_ready (KMessage.skip_stale_holes 400 stuck).in_cache ≡ true
skip_stale_holes_lem_example = Delivery.skip_stale_holes_lem 400 stuck refl (omega arith)

ingest-wire_example :
    contents
      (KMessage.ingest
        (KMessage.init peer)
        peer
        (2 ∷ Bundle.wire 1 ((66 ∷ []) ∷ (64 ∷ 65 ∷ []) ∷ []))).in_cache
    ≡ Bundle.arranged 1 ((66 ∷ []) ∷ (64 ∷ 65 ∷ []) ∷ []) []
ingest-wire_example =
    Bundle.ingest-wire (KMessage.init peer) ((66 ∷ []) ∷ (64 ∷ 65 ∷ []) ∷ [])
      (Invariant.init-IsValid peer) refl (omega arith, omega arith, (omega arith, omega arith, tt))
      (omega arith) (omega arith)

-- A chat line of the user `ana`.
abbrev chat : KInstruction
chat = record { type = 8; user = 97 ∷ 110 ∷ 97 ∷ []; buffer = 104 ∷ 105 ∷ 0 ∷ []; buffer_len = 16 }

chat-IsValid : Grow.IsValid chat
chat-IsValid = record {
  allocated = omega arith;
  small = omega arith;
  fits = omega arith;
  user_fits = omega arith;
  user_plain = (λ h. omega (arith, h), (λ h. omega (arith, h), (λ h. omega (arith, h), tt)));
}

fresh-IsValid : Grow.IsValid KInstruction.init
fresh-IsValid = record {
  allocated = omega arith;
  small = omega arith;
  fits = omega arith;
  user_fits = omega arith;
  user_plain = tt;
}

read-write_example :
    (k' : KInstruction) × (KInstruction.read_from_message KInstruction.init
        (KInstruction.write_to_message chat 100)
      ≡ some k')
    × (k'.type ≡ 8)
    × (k'.user ≡ chat.user)
    × (k'.buffer ≡ Wire.sent_payload chat 100)
    × Grow.IsValid k'
read-write_example = Wire.read-write chat 100 fresh-IsValid chat-IsValid (omega arith) (omega arith)

store_bytes_lem_example :
    (k' : KInstruction) × (KInstruction.store_bytes chat (replicate 20 7) ≡ some k')
    × (k'.buffer ≡ chat.buffer ++ replicate 20 7)
    × (k'.type ≡ 8)
    × (k'.user ≡ chat.user)
    × Grow.IsValid k'
store_bytes_lem_example = Grow.store_bytes_lem (replicate 20 7) chat-IsValid (omega arith)

write_to_message_lem_example :
    (KInstruction.write_to_message chat 6 ≡ 8 ∷ (chat.user ++ 0 ∷ Wire.sent_payload chat 6))
    × (length (KInstruction.write_to_message chat 6) ≤ 6)
write_to_message_lem_example = Wire.write_to_message_lem chat 6 (omega arith) (omega arith)

load_str_lem_example :
    let (array', k') =
      KInstruction.load_str
        (record chat { buffer = (104 ∷ 105 ∷ []) ++ 0 ∷ 9 ∷ [] })
        (replicate 256 1)
        (5 ∷ 5 ∷ []) in
    (k' ≡ record chat { buffer = 9 ∷ [] })
    × (c_str array' ≡ take 1 (104 ∷ 105 ∷ []))
    × (length array' ≡ 2)
load_str_lem_example =
    Strings.load_str_lem chat (104 ∷ 105 ∷ []) (9 ∷ []) (replicate 256 1) (5 ∷ 5 ∷ [])
      (λ h. omega (arith, h), (λ h. omega (arith, h), tt))

load_numbers_example :
    let at = λ (b : List ℕ). record chat { buffer = b } in
    (KInstruction.load_int (at (le32 70000 ++ 9 ∷ [])) (replicate 4 204) ≡ (70000, at (9 ∷ [])))
    × (KInstruction.load_short (at (le16 700 ++ 9 ∷ [])) (replicate 2 204) ≡ (700, at (9 ∷ [])))
    × (KInstruction.load_char (at (7 ∷ 9 ∷ [])) (replicate 1 204) ≡ (7, at (9 ∷ [])))
    × (KInstruction.load_int (at []) (replicate 4 204) ≡ (3435973836, at []))
    × (KInstruction.load_short (at []) (replicate 2 204) ≡ (52428, at []))
    × (KInstruction.load_char (at []) (replicate 1 204) ≡ (204, at []))
load_numbers_example =
    Fields.load_numbers chat 70000 700 7 (9 ∷ []) (replicate 4 204) (replicate 2 204)
      (replicate 1 204) (omega arith) (omega arith) (omega arith) refl refl refl

abbrev three : Oslist ℕ
three = record { items = 1 ∷ 2 ∷ 3 ∷ 4 ∷ []; length = 3 }
