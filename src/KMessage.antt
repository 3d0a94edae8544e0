-- ===== src/KMessage.antt =====
-- kcore/k_message.h: the Kaillera message layer. Outgoing messages are numbered, kept, and sent in
-- bundles that repeat the latest ones; incoming ones are put in order in a window of slots.
pub mod Window
pub mod Invariant
pub mod Delivery
pub mod Bundle
pub mod Track
pub mod Arrive
pub mod Take
pub mod Sender
pub mod Link
use kaillera_client.Prelude.{
  ℕ, zero, suc, ◌+◌, ◌-◌, ◌%◌, ◌^◌, min, List, [], ◌∷◌, ◌++◌, Bool, true, false, not, ◌&&◌, ◌||◌,
  Option, none, some, length, take, drop, get_or, set, ltb, leb, ◌==◌, if◌then◌else◌, le16,
  from_le16, replicate,
}
use kaillera_client.Containers.Oslist
use kaillera_client.Containers.Oslist.{Oslist}
use kaillera_client.KInstruction
use kaillera_client.KInstruction.{KInstruction}

-- `ICACHESIZE`
abbrev pub cache_size : ℕ
cache_size = 16

-- `KMSG_HOLE_SKIP_MS`
abbrev pub hole_skip_ms : ℕ
hole_skip_ms = 250

-- The largest message that a bundle may carry, and that a caller makes room for (0x4E20).
abbrev pub max_length : ℕ
max_length = 20000

-- Arithmetic on `unsigned short`.
abbrev pub add16 : ℕ → ℕ → ℕ
add16 a b = (a + b) % 2 ^ 16

abbrev pub sub16 : ℕ → ℕ → ℕ
sub16 a b = (a + 2 ^ 16 - b) % 2 ^ 16

-- `k_instruction_ptr`: the head, and the message or `NULL` (`none`). Allocations succeed.
pub record Slot : Type 0 where
  pub serial : ℕ
  pub length : ℕ
  pub body : Option (List ℕ)

-- The part of `sockaddr_in` that is compared.
pub record Address : Type 0 where
  pub s_addr : ℕ
  pub sin_port : ℕ

-- The object, with what it has of `k_socket` (`addr`, `has_data_waiting`), the global
-- `PACKETLOSSCOUNT`, and the datagrams that went to `k_socket::send`, the latest first.
pub record KMessage : Type 0 where
  pub last_sent_instruction : ℕ
  pub last_processed_instruction : ℕ
  pub last_cached_instruction : ℕ
  pub out_cache : Oslist Slot
  pub in_cache : Oslist Slot
  pub hole_pending : Bool
  pub hole_since : ℕ
  pub default_ipm : ℕ
  pub holes_skipped : ℕ
  pub has_data_waiting : Bool
  pub addr : Address
  pub packet_loss_count : ℕ
  pub sent : List (List ℕ)

abbrev pub empty_slot : Slot
empty_slot = record { serial = 0; length = 0; body = none }

abbrev pub empty_cache : Oslist Slot
empty_cache = record { items = replicate cache_size empty_slot; length = 0 }

-- The constructor `k_message()`, on a socket with a peer. What the arrays hold at first is never
-- read.
abbrev pub init : Address → KMessage
init peer = record {
  last_sent_instruction = 0;
  last_processed_instruction = 0;
  last_cached_instruction = 65535;
  out_cache = empty_cache;
  in_cache = empty_cache;
  hole_pending = false;
  hole_since = 0;
  default_ipm = 3;
  holes_skipped = 0;
  has_data_waiting = false;
  addr = peer;
  packet_loss_count = 0;
  sent = [];
}

abbrev pub is_hole : Slot → Bool
is_hole s = elim s.body [ none ↦ true | some b ↦ false ]

-- The loop of `free_in_cache`, over the first `n` elements of the array.
unfoldable pub free_bodies : ℕ → List Slot → List Slot
free_bodies zero items = items
free_bodies (suc n) [] = []
free_bodies (suc n) (s ∷ items) = record s { body = none } ∷ free_bodies n items

unfoldable pub free_in_cache : KMessage → KMessage
free_in_cache m =
    let n = min (Oslist.size m.in_cache) cache_size in
    let freed = record m.in_cache { items = free_bodies n m.in_cache.items } in
    record m { in_cache = Oslist.clear freed; hole_pending = false }

-- The `while` of `skip_stale_holes`. Each round makes the cache smaller, so its size is fuel
-- enough.
unfoldable pub drop_holes : ℕ → KMessage → KMessage
drop_holes zero m = m
drop_holes (suc fuel) m = elim (ltb 0 (Oslist.size m.in_cache)) [
  | false ↦ m
  | true ↦ elim (Oslist.get m.in_cache 0) [
    | none ↦ m
    | some s ↦ elim (is_hole s) [
      | false ↦ m
      | true ↦ drop_holes fuel (record m {
        last_processed_instruction = s.serial;
        in_cache = Oslist.removei m.in_cache 0;
        holes_skipped = (m.holes_skipped + 1) % 2 ^ 32;
      })
    ]
  ]
]

-- `in_cache.size() == 0 || in_cache.items[0].body != NULL`
unfoldable pub head_ready : Oslist Slot → Bool
head_ready c =
    if Oslist.size c == 0
    then true
    else (elim (Oslist.get c 0) [ none ↦ true | some s ↦ not (is_hole s) ])

-- `now` is `GetTickCount()`, a 32-bit count of milliseconds that wraps.
unfoldable pub skip_stale_holes : ℕ → KMessage → KMessage
skip_stale_holes now m =
    if head_ready m.in_cache
    then record m { hole_pending = false }
    else if not m.hole_pending
    then record m { hole_pending = true; hole_since = now }
    else if ltb ((now + 2 ^ 32 - m.hole_since) % 2 ^ 32) hole_skip_ms
    then m
    else (let dropped = drop_holes (Oslist.size m.in_cache) m in
        record dropped { hole_pending = false })

-- `fill_slot(serial, data, length)`, with the message as a list of `length` bytes.
unfoldable pub fill_slot : KMessage → ℕ → List ℕ → KMessage
fill_slot m serial bytes =
    let back = sub16 m.last_cached_instruction serial in
    let n = Oslist.size m.in_cache in
    if leb n back then m else (elim (Oslist.get m.in_cache (n - 1 - back)) [
      | none ↦ m
      | some slot ↦
          if is_hole slot
          then (let filled : Slot = record {
            serial = serial;
            length = length bytes;
            body = some bytes;
          } in
              record m { in_cache = Oslist.set_item m.in_cache filled (n - 1 - back) })
          else m
    ])

-- The loop that empties the slots `i`, `i + 1`, … of the array and numbers them from `serial` on.
unfoldable pub blank_slots : ℕ → ℕ → ℕ → List Slot → List Slot
blank_slots zero i serial items = items
blank_slots (suc n) i serial items =
    blank_slots n (i + 1) (add16 serial 1)
      (set items i (record { serial = serial; length = 0; body = none }))

-- The branch `tx >= 10 && tx < 0x8000`: the window is moved to end at this bundle.
unfoldable pub resync : KMessage → ℕ → ℕ → ℕ → KMessage
resync m latest tx k =
    let freed = free_in_cache m in
    record freed {
      packet_loss_count = m.packet_loss_count + (tx - k);
      last_cached_instruction = sub16 latest k;
    }

-- The branch `tx > 0 && tx < 10`: slots for the messages up to `latest`.
unfoldable pub reserve : KMessage → ℕ → ℕ → KMessage
reserve m latest tx =
    let base = (if ltb cache_size (Oslist.size m.in_cache + tx) then free_in_cache m else m) in
    let si = Oslist.size base.in_cache in
    let grown = Oslist.set_size base.in_cache (si + tx) in
    let blank = blank_slots tx si (add16 base.last_cached_instruction 1) grown.items in
    record base {
      in_cache = record grown { items = blank };
      packet_loss_count = base.packet_loss_count + (tx - 1);
      last_cached_instruction = latest;
    }

-- The loop over the messages of a bundle; `p` runs from `ptr` to `end`, and each `break` ends it.
unfoldable pub fill_bundle : ℕ → List ℕ → KMessage → KMessage
fill_bundle zero p m = m
fill_bundle (suc u) p m =
    let serial = from_le16 p in
    let len = from_le16 (drop 2 p) in
    let body = drop 4 p in
    let rest = fill_bundle u (drop len body) (fill_slot m serial (take len body)) in
    if ltb (length p) 4 || (len == 0 || (ltb max_length len || ltb (length body) len))
    then m
    else rest

-- What `check_recv` does with a datagram from `src`.
unfoldable pub ingest : KMessage → Address → List ℕ → KMessage
ingest m src [] = m
ingest m src (instruction_count ∷ p) =
    if not (src.s_addr == m.addr.s_addr) || not (src.sin_port == m.addr.sin_port)
    then m
    else if instruction_count == 0 || ltb (length p) 4
    then m
    else (let latest = from_le16 p in
        let tx = sub16 latest m.last_cached_instruction in
        let k = min instruction_count 9 in
        let far = leb 10 tx && ltb tx 0x8000 in
        let moved = (if far then resync m latest tx k else m) in
        let tx' = (if far then k else tx) in
        let ready = (if ltb 0 tx' && ltb tx' 10 then reserve moved latest tx' else moved) in
        fill_bundle instruction_count p ready)

-- `Socket` is what `recvfrom` gives: the sender and the bytes, or nothing.
abbrev pub Datagram : Type 0
Datagram = Option (Address × List ℕ)

unfoldable pub receive : KMessage → Datagram → KMessage
receive m datagram =
    if m.has_data_waiting
    then (let polled = record m { has_data_waiting = false } in
        elim datagram [ none ↦ polled | some (src, bytes) ↦ ingest polled src bytes ])
    else m

-- The head of the cache is given up: `free`, `body = NULL`, `removei(0)`.
unfoldable pub drop_head : KMessage → Slot → KMessage
drop_head m s = record m {
  in_cache = Oslist.removei (Oslist.set_item m.in_cache (record s { body = none }) 0) 0;
}

-- The end of `check_recv`, for a caller's buffer of `room` bytes: the message, if it returns true.
unfoldable pub deliver : KMessage → ℕ → Bool → Option (List ℕ) × KMessage
deliver m room leave_in_queue =
    if Oslist.size m.in_cache == 0 then (none, m) else (elim (Oslist.get m.in_cache 0) [
      | none ↦ (none, m)
      | some s ↦ elim s.body [
        | none ↦ (none, m)
        | some bytes ↦
            if s.length == 0 || room == 0
            then (none, m)
            else if ltb room s.length
            then (none, if leave_in_queue then m else drop_head m s)
            else (let done = record m { last_processed_instruction = s.serial } in
                (some (take s.length bytes), if leave_in_queue then m else drop_head done s))
      ]
    ])

unfoldable pub check_recv : ℕ → Datagram → KMessage → ℕ → Bool → Option (List ℕ) × KMessage
check_recv now datagram m room leave_in_queue =
    deliver (skip_stale_holes now (receive m datagram)) room leave_in_queue

unfoldable pub has_data : ℕ → KMessage → Bool × KMessage
has_data now m =
    let m' = skip_stale_holes now m in
    let ready =
      ltb 0 m'.in_cache.length
      && elim (Oslist.get m'.in_cache 0) [ none ↦ false | some s ↦ not (is_hole s) ] in
    (if ready then true else m'.has_data_waiting, m')

-- A message in a bundle: its head, and as many bytes as the head says.
unfoldable pub slot_bytes : Slot → List ℕ
slot_bytes s =
    let body : List ℕ = elim s.body [ none ↦ [] | some b ↦ b ] in
    le16 s.serial ++ (le16 s.length ++ take s.length body)

-- The loop of `send_message`: `i` messages are packed, `buf` is what stands in the buffer so far,
-- its count byte included. The number of messages packed, and the buffer.
unfoldable pub pack : List Slot → ℕ → ℕ → ℕ → List ℕ → ℕ × List ℕ
pack items size zero i buf = (0, buf)
pack items size (suc rounds) i buf =
    let s = get_or items (size - i - 1) empty_slot in
    let next = pack items size rounds (i + 1) (buf ++ slot_bytes s) in
    if ltb 4096 (length buf + 4 + s.length) then (0, buf) else (next.0 + 1, next.1)

-- The datagram of `send_message(limit)`; the count byte stands first.
unfoldable pub bundle : Oslist Slot → ℕ → List ℕ
bundle out_cache limit =
    let packed =
      pack out_cache.items (Oslist.size out_cache) (min (Oslist.size out_cache) limit) 0 (0 ∷ []) in
    packed.0 ∷ drop 1 packed.1

unfoldable pub send_message : KMessage → ℕ → KMessage
send_message m limit = record m { sent = bundle m.out_cache limit ∷ m.sent }

unfoldable pub send : KMessage → List ℕ → KMessage
send m buf =
    let kip : Slot = record {
      serial = m.last_sent_instruction;
      length = length buf % 2 ^ 16;
      body = some buf;
    } in
    let room =
      (if Oslist.size m.out_cache == 15 then Oslist.removei m.out_cache 0 else m.out_cache) in
    send_message
      (record m {
        last_sent_instruction = add16 m.last_sent_instruction 1;
        out_cache = Oslist.add room kip;
      })
      m.default_ipm

-- `send_instruction`, through a buffer of 32767 bytes.
unfoldable pub send_instruction : KMessage → KInstruction → KMessage
send_instruction m k = send m (KInstruction.write_to_message k 32767)

-- `receive_instruction`, through a buffer of 20000 bytes: whether there was a message, which may
-- be `none` where the target's buffer cannot be sized.
unfoldable pub receive_instruction :
    ℕ → Datagram → KMessage → KInstruction → Bool → Option (Option KInstruction) × KMessage
receive_instruction now datagram m k leave_in_queue =
    let got = check_recv now datagram m max_length leave_in_queue in
    (elim got.0 [ none ↦ none | some bytes ↦ some (KInstruction.read_from_message k bytes) ], got.1)
