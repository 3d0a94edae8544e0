-- ===== src/Tests/Records.antt =====
-- The theorems on the unordered list, the frame cache, the recording reader, the peer-to-peer
-- messages and the memory card choices, at concrete inputs.
use kaillera_client.Prelude.{
  ℕ, zero, suc, ◌+◌, ◌<◌, ◌≤◌, ◌↔◌, ◌≡◌, ◌≢◌, refl, ap, min, List, [], ◌∷◌, ◌++◌, true, false,
  Option, some, inr, ◌⊎◌, arith, codes, replicate, length, take, drop, if◌then◌else◌, bytes_eq,
}
use kaillera_client.Containers.Slist.{Slist}
use kaillera_client.FrameCache
use kaillera_client.FrameCache.{FrameCache}
use kaillera_client.FrameCache.Queue
use kaillera_client.KrecReader
use kaillera_client.KrecReader.{KrecReader}
use kaillera_client.KrecReader.Open
use kaillera_client.KrecReader.Progress
use kaillera_client.KrecReader.Scan
use kaillera_client.P2pInstruction
use kaillera_client.P2pInstruction.{P2pInstruction}
use kaillera_client.P2pInstruction.Codec
use kaillera_client.P2pInstruction.Fields
use kaillera_client.P2pMessage
use kaillera_client.P2pMessage.{P2pMessage, Address}
use kaillera_client.P2pMessage.Bounds
use kaillera_client.McChoice
use kaillera_client.McChoice.Rows
use kaillera_client.McChoice.Slots

abbrev thrice : Slist ℕ
thrice = record { items = 2 ∷ 1 ∷ 2 ∷ 3 ∷ 2 ∷ []; length = 5 }

-- A cache with five bytes put in, two of them taken.
abbrev operations : List Queue.Operation
operations = Queue.put (1 ∷ 2 ∷ 3 ∷ []) ∷ Queue.get 2 ∷ Queue.put (4 ∷ 5 ∷ []) ∷ Queue.peek 9 ∷ []

run-queue_example :
    (last : FrameCache) × (Queue.run FrameCache.init operations
      ≡ some ((Queue.queue [] operations).0, last))
    × (last.buffer ≡ (Queue.queue [] operations).1)
    × Queue.IsValid last
run-queue_example =
    Queue.run-queue {k = FrameCache.init} operations
      (record { inside = omega arith; null = λ h. refl }) (omega arith)

-- A file of two input records and the end of a chat record, behind an empty header.
abbrev file : List ℕ
file = replicate 272 0 ++ (0x12 ∷ 2 ∷ 0 ∷ 5 ∷ 6 ∷ 0x12 ∷ 1 ∷ 0 ∷ 7 ∷ 8 ∷ replicate 20 0)

abbrev reader : KrecReader
reader = record KrecReader.init { buffer = file; ptr = 272 }

reader-IsOpen : Progress.IsOpen reader
reader-IsOpen = record { header = omega arith; inside = omega arith }

-- The file does not start with KRC1.
open_from_memory-HasHeader_example :
    let opened = KrecReader.open_from_memory KrecReader.init file in
    ((272 ≤ length file) × (opened.0 ≡ true) × Open.OpenAt file 272 opened.1)
    ⊎ ((length file < 272) × (opened.0 ≡ false) × (opened.1.buffer ≡ []))
open_from_memory-HasHeader_example =
    Open.open_from_memory-HasHeader KrecReader.init file 272 (inr (not_krc1, refl))
  where
    not_krc1 : take 4 file ≢ codes "KRC1"
    not_krc1 e = absurd (ground (arith, ap (λ (l : List ℕ). bytes_eq l (codes "KRC1")) e))

next_record-Took_example : Progress.Took reader (KrecReader.next_record reader (some 1))
unfolding KrecReader.at_end
next_record-Took_example = Progress.next_record-Took reader (some 1) refl

count_total_frames_lem_example :
    (total : ℕ) × (r' : KrecReader) × (KrecReader.count_total_frames reader ≡ some (total, r'))
    × (r'.ptr ≡ 272)
    × (r'.frames_consumed ≡ 0)
    × (r'.buffer ≡ file)
count_total_frames_lem_example = Scan.count_total_frames_lem reader-IsOpen

seek_to_frame_lem_example :
    (s : KrecReader) × (total : ℕ) × (r' : KrecReader) × (KrecReader.seek_to_frame reader 1
      ≡ some s)
    × (KrecReader.count_total_frames reader ≡ some (total, r'))
    × (KrecReader.frame_index s ≡ min 1 total)
    × Progress.IsOpen s
seek_to_frame_lem_example = Scan.seek_to_frame_lem 1 reader-IsOpen

abbrev out_message : P2pInstruction
out_message = P2pInstruction.make (replicate 256 204) 3 1

abbrev in_message : P2pInstruction
in_message = P2pInstruction.make (replicate 256 205) 0 0

out_message-IsValid : Codec.IsValid out_message
out_message-IsValid = record {
  body = refl;
  pos = omega arith;
  len = omega arith;
  type = omega arith;
  flags = omega arith;
}

in_message-IsValid : Codec.IsValid in_message
in_message-IsValid = record {
  body = refl;
  pos = omega arith;
  len = omega arith;
  type = omega arith;
  flags = omega arith;
}

abbrev numbers : List Fields.Field
numbers = Fields.int_field 70000 ∷ Fields.char_field 9 ∷ Fields.short_field 700 ∷ []

fields_round_trip_example :
    Fields.load_fields 0
      (P2pInstruction.read_from_message in_message
        (P2pInstruction.write_to_message (Fields.store_fields out_message numbers)))
      numbers
    ≡ numbers
fields_round_trip_example =
    Fields.fields_round_trip 0 numbers out_message-IsValid in_message-IsValid refl
      (omega arith, (omega arith, (omega arith, tt))) (omega arith)

store_bytes_bounded_example :
    (Codec.payload (P2pInstruction.store_bytes out_message (1 ∷ 2 ∷ 3 ∷ []) 2)
      ≡ Codec.payload out_message ++ take (min 2 255) (1 ∷ 2 ∷ 3 ∷ []))
    × ((P2pInstruction.store_bytes out_message (1 ∷ 2 ∷ 3 ∷ []) 2).pos ≡ 0 + min 2 255)
    × Codec.IsValid (P2pInstruction.store_bytes out_message (1 ∷ 2 ∷ 3 ∷ []) 2)
store_bytes_bounded_example =
    Codec.store_bytes_bounded (1 ∷ 2 ∷ 3 ∷ []) 2 out_message-IsValid (omega arith)

abbrev table : McChoice.Table
table =
    record { nick = codes "ana"; choice = McChoice.iso; no_login = false }
    ∷ record { nick = codes "bob"; choice = McChoice.online; no_login = false }
    ∷ []

get-set_choice_example :
    McChoice.get (McChoice.set_choice table (codes "eva") McChoice.online true).1 (codes "ANA") ≡ (
      if McChoice.same_nick (codes "eva") (codes "ANA")
      then some McChoice.online
      else McChoice.get table (codes "ANA"))
get-set_choice_example =
    Rows.get-set_choice table (codes "eva") (codes "ANA") McChoice.online true (omega arith)
      (inr (omega arith))

parse-line_example :
    McChoice.parse (drop (length McChoice.chat_prefix) (McChoice.line McChoice.no_card true 64))
    ≡ some (McChoice.no_card, true)
parse-line_example = Slots.parse-line McChoice.no_card true 64 (omega arith)

abbrev players : List (List ℕ)
players = codes "bob" ∷ codes "ana" ∷ []

abbrev accounts : Option (List ℕ)
accounts = some (codes "ana,bob")

-- What opens the code of the choices.
mcchoice : Unit {0}
unfolding McChoice.get McChoice.find McChoice.game_slots McChoice.slot_of McChoice.some_unannounced
    McChoice.in_list McChoice.in_fields McChoice.field_length
mcchoice = tt

iso-no_card : McChoice.iso ≢ McChoice.no_card
iso-no_card h = cc

-- The second slot has the card.
second_given : Slots.card_in (McChoice.game_slots players table accounts true) 1 ≡ McChoice.iso
unfolding mcchoice
second_given = refl

game_slots-Granted_example :
    (Slots.card_in (McChoice.game_slots players table accounts true) 1 ≡ McChoice.iso)
    ↔ Slots.Granted players table accounts true 1 McChoice.iso
game_slots-Granted_example =
    Slots.game_slots-Granted players table accounts true 1 McChoice.iso (omega arith) iso-no_card

abbrev peer : Address
peer = record { s_addr = 7; sin_port = 9 }

-- An object that has been told of a datagram, which is a bundle of one message of two bytes.
abbrev listening : P2pMessage
listening = record (P2pMessage.init peer) { has_data_waiting = true }

abbrev one_message : P2pMessage.Datagram
one_message = some (peer, 1 ∷ 0 ∷ 2 ∷ 64 ∷ 65 ∷ [])

listening-IsValid : Bounds.IsValid listening
listening-IsValid = record {
  cache = record { array = refl; bounded = omega arith };
  slots = empty-AllOk 32;
}
  where
    empty-AllOk : (n : ℕ) → Bounds.AllOk (replicate n P2pMessage.empty_slot)
    empty-AllOk zero = tt
    empty-AllOk (suc n) = ((refl, omega arith), empty-AllOk n)

check_recv-check_recvx_example :
    (Bounds.IsValid (P2pMessage.check_recv one_message listening 1024 false).1
      × Bounds.Fits 1024 (P2pMessage.check_recv one_message listening 1024 false).0)
    × (Bounds.IsValid (P2pMessage.check_recvx one_message listening 1024).1
        × Bounds.Fits 1024 (P2pMessage.check_recvx one_message listening 1024).0)
check_recv-check_recvx_example =
    Bounds.check_recv-check_recvx one_message 1024 false listening-IsValid
      (omega arith, (omega arith, (omega arith, (omega arith, (omega arith, tt)))))
