-- ===== src/P2pMessage.antt =====
-- core/p2p_message.h: the peer-to-peer message layer, which numbers messages with a byte, repeats
-- the latest ones in each bundle, and passes on the packets of the waiting-games server apart.
pub mod Bounds
pub mod Heard
use kaillera_client.Prelude.{
  ℕ, zero, suc, ◌+◌, ◌-◌, ◌%◌, min, List, [], ◌∷◌, ◌++◌, Bool, true, false, not, ◌&&◌, ◌||◌, Option,
  none, some, length, take, drop, set, replicate, get_or, ltb, leb, ◌==◌, if◌then◌else◌,
}
use kaillera_client.Containers.Oslist
use kaillera_client.Containers.Oslist.{Oslist}
use kaillera_client.P2pInstruction
use kaillera_client.P2pInstruction.{P2pInstruction}

-- `ICACHESIZE`
abbrev pub cache_size : ℕ
cache_size = 32

-- Arithmetic on `unsigned char`.
abbrev pub sub8 : ℕ → ℕ → ℕ
sub8 a b = (a + 256 - b) % 256

-- `p2p_instruction_ptr`; `body` holds its 256 bytes.
pub record Slot : Type 0 where
  pub serial : ℕ
  pub length : ℕ
  pub body : List ℕ

abbrev pub empty_slot : Slot
empty_slot = record { serial = 0; length = 0; body = replicate 256 0 }

abbrev pub empty_cache : Oslist Slot
empty_cache = record { items = replicate cache_size empty_slot; length = 0 }

pub record Address : Type 0 where
  pub s_addr : ℕ
  pub sin_port : ℕ

-- The object, with what it has of `k_socket`, the global counters that it writes, and the
-- datagrams that went out, the latest first, with their destinations.
pub record P2pMessage : Type 0 where
  pub last_sent_instruction : ℕ
  pub last_processed_instruction : ℕ
  pub last_cached_instruction : ℕ
  pub out_cache : Oslist Slot
  pub in_cache : Oslist Slot
  pub ssrv_cache : List (Address × List ℕ)
  pub default_ipm : ℕ
  pub dsc : ℕ
  pub has_data_waiting : Bool
  pub addr : Address
  pub packet_loss_count : ℕ
  pub packet_misorder_count : ℕ
  pub sock_recv_retr : ℕ
  pub sent : List (Address × List ℕ)

abbrev pub init : Address → P2pMessage
init peer = record {
  last_sent_instruction = 0;
  last_processed_instruction = 0;
  last_cached_instruction = 255;
  out_cache = empty_cache;
  in_cache = empty_cache;
  ssrv_cache = [];
  default_ipm = 3;
  dsc = 0;
  has_data_waiting = false;
  addr = peer;
  packet_loss_count = 0;
  packet_misorder_count = 0;
  sock_recv_retr = 0;
  sent = [];
}

-- `send_ssrv(bf, bflen, arg_addr)`: the packet of a server, marked by a count of 0. A packet of
-- more than 999 bytes is not sent.
unfoldable pub send_ssrv : P2pMessage → List ℕ → Address → P2pMessage
send_ssrv m bf arg_addr =
    if ltb 999 (length bf) then m else record m { sent = (arg_addr, 0 ∷ bf) ∷ m.sent }

unfoldable pub has_ssrv : P2pMessage → Bool
has_ssrv m = ltb 0 (length m.ssrv_cache)

unfoldable pub receive_ssrv : P2pMessage → Option (Address × List ℕ) × P2pMessage
receive_ssrv m = elim m.ssrv_cache [
  | [] ↦ (none, m)
  | p ∷ rest ↦ (some p, record m { ssrv_cache = rest })
]

-- The loop of `send_message`, as in `KMessage`, with heads of two bytes.
unfoldable pub pack : List Slot → ℕ → ℕ → ℕ → List ℕ → ℕ × List ℕ
pack items size zero i buf = (0, buf)
pack items size (suc rounds) i buf =
    let s = get_or items (size - i - 1) empty_slot in
    let next =
      pack items size rounds (i + 1) (buf ++ (s.serial ∷ s.length ∷ take s.length s.body)) in
    if ltb 4096 (length buf + 2 + s.length) then (0, buf) else (next.0 + 1, next.1)

unfoldable pub bundle : Oslist Slot → ℕ → List ℕ
bundle out_cache limit =
    let n = Oslist.size out_cache in
    let packed = pack out_cache.items n (min n limit) 0 (0 ∷ []) in packed.0 ∷ drop 1 packed.1

-- While `dsc` is positive, that many datagrams are dropped.
unfoldable pub send_message : P2pMessage → ℕ → P2pMessage
send_message m limit =
    if ltb 0 m.dsc
    then record m { dsc = m.dsc - 1 }
    else record m { sent = (m.addr, bundle m.out_cache limit) ∷ m.sent }

-- `send`: the head's length is a byte.
unfoldable pub send : P2pMessage → P2pInstruction → P2pMessage
send m ibuf =
    let bytes = P2pInstruction.write_to_message ibuf in
    let kip : Slot = record {
      serial = m.last_sent_instruction;
      length = length bytes % 256;
      body = bytes;
    } in
    let room =
      (if Oslist.size m.out_cache == 31 then Oslist.removei m.out_cache 0 else m.out_cache) in
    send_message
      (record m {
        last_sent_instruction = (m.last_sent_instruction + 1) % 256;
        out_cache = Oslist.add room kip;
      })
      m.default_ipm

unfoldable pub send_instruction : P2pMessage → P2pInstruction → P2pMessage
send_instruction m k = send m k

unfoldable pub send_tinst : P2pMessage → List ℕ → ℕ → ℕ → P2pMessage
send_tinst m junk type flags = send m (P2pInstruction.make junk type flags)

-- The loop that clears the heads of `n` slots from `i` on; the bodies stay.
unfoldable pub clear_heads : ℕ → ℕ → List Slot → List Slot
clear_heads zero i items = items
clear_heads (suc n) i items =
    clear_heads n (i + 1)
      (set items i (record { serial = 0; length = 0; body = (get_or items i empty_slot).body }))

-- The loop over the messages of a bundle. `tx` new serials follow `last_cached_instruction`, and
-- their slots begin at `si`.
unfoldable pub fill_bundle : ℕ → ℕ → ℕ → List ℕ → P2pMessage → P2pMessage
fill_bundle zero tx si p m = m
fill_bundle (suc u) tx si p m =
    let serial = get_or p 0 0 in
    let len = get_or p 1 0 in
    let body = drop 2 p in
    let cix = sub8 serial m.last_cached_instruction in
    let ind = si + cix - 1 in
    let counted = record m { packet_loss_count = m.packet_loss_count + (cix - 1) } in
    let old = (get_or m.in_cache.items ind empty_slot).body in
    let slot : Slot = record {
      serial = serial;
      length = len;
      body = take len body ++ drop len old;
    } in
    let stored = record counted { in_cache = Oslist.set_item m.in_cache slot ind } in
    let m' =
      (if cix == 0 || ltb tx cix then m else if leb cache_size ind then counted else stored) in
    let rest = fill_bundle u tx si (drop len body) m' in
    if ltb (length p) 2 || (serial == m.last_cached_instruction || ltb (length body) len)
    then m
    else rest

-- The bundle of a datagram: `p` is what stands behind the count.
unfoldable pub ingest_bundle : P2pMessage → ℕ → List ℕ → P2pMessage
ingest_bundle m instruction_count p =
    if ltb (length p) 2
    then m
    else (let latest = get_or p 0 0 in
        let tx = sub8 latest m.last_cached_instruction in
        if ltb 0 tx && ltb tx 15
        then (let base =
              (if ltb cache_size (Oslist.size m.in_cache + tx)
                then record m { in_cache = Oslist.clear m.in_cache }
                else m) in
            let si = Oslist.size base.in_cache in
            let grown = Oslist.set_size base.in_cache (si + tx) in
            let opened = record base {
              in_cache = record grown { items = clear_heads tx si grown.items };
            } in
            let filled = fill_bundle instruction_count tx si p opened in
            record filled { last_cached_instruction = latest })
        else if tx == 0
        then record m { sock_recv_retr = m.sock_recv_retr + 1 }
        else record m { packet_misorder_count = m.packet_misorder_count + 1 })

abbrev pub Datagram : Type 0
Datagram = Option (Address × List ℕ)

-- The first half of `check_recv`. Before the peer is known, its address is 0, and a bundle is
-- taken from anybody.
unfoldable pub ingest : P2pMessage → Address → List ℕ → P2pMessage
ingest m src [] = m
ingest m src (instruction_count ∷ p) =
    if ltb 0 instruction_count && (ltb instruction_count 15 && ltb 0 (length p))
    then (if not (m.addr.s_addr == 0)
          && (not (m.addr.sin_port == 0)
              && (not (src.s_addr == m.addr.s_addr) || not (src.sin_port == m.addr.sin_port)))
        then m
        else ingest_bundle m instruction_count p)
    else if instruction_count == 0 && ltb 5 (length p + 1)
    then record m { ssrv_cache = m.ssrv_cache ++ (src, p) ∷ [] }
    else m

unfoldable pub receive : P2pMessage → Datagram → P2pMessage
receive m datagram =
    if m.has_data_waiting
    then (let polled = record m { has_data_waiting = false } in
        elim datagram [ none ↦ polled | some (src, bytes) ↦ ingest polled src bytes ])
    else m

-- The second half, for a caller's buffer of `room` bytes.
unfoldable pub deliver : P2pMessage → ℕ → Bool → Option (List ℕ) × P2pMessage
deliver m room leave_in_queue =
    if Oslist.size m.in_cache == 0 then (none, m) else (elim (Oslist.get m.in_cache 0) [
      | none ↦ (none, m)
      | some s ↦
          if room == 0 || ltb room s.length
          then (none, m)
          else (let taken = record m {
            last_processed_instruction = s.serial;
            in_cache = Oslist.removei m.in_cache 0;
          } in
              (some (take s.length s.body), if leave_in_queue then m else taken))
    ])

unfoldable pub check_recv : Datagram → P2pMessage → ℕ → Bool → Option (List ℕ) × P2pMessage
check_recv datagram m room leave_in_queue = deliver (receive m datagram) room leave_in_queue

-- `check_recvx` takes bundles from the peer only, and leaves the server's packets alone.
unfoldable pub ingestx : P2pMessage → Address → List ℕ → P2pMessage
ingestx m src [] = m
ingestx m src (instruction_count ∷ p) =
    if (src.s_addr == m.addr.s_addr)
      && ((src.sin_port == m.addr.sin_port)
          && (ltb 0 instruction_count && (ltb instruction_count 15 && ltb 0 (length p))))
    then ingest_bundle m instruction_count p
    else m

unfoldable pub receivex : P2pMessage → Datagram → P2pMessage
receivex m datagram =
    if m.has_data_waiting
    then (let polled = record m { has_data_waiting = false } in
        elim datagram [ none ↦ polled | some (src, bytes) ↦ ingestx polled src bytes ])
    else m

unfoldable pub check_recvx : Datagram → P2pMessage → ℕ → Option (List ℕ) × P2pMessage
check_recvx datagram m room = deliver (receivex m datagram) room false

unfoldable pub has_data : P2pMessage → Bool
has_data m = if m.in_cache.length == 0 then m.has_data_waiting else true

-- `receive_instruction`, into a buffer of 1024 bytes.
unfoldable pub receive_instruction :
    Datagram → P2pMessage → P2pInstruction → Bool → Option P2pInstruction × P2pMessage
receive_instruction datagram m k leave_in_queue =
    let got = check_recv datagram m 1024 leave_in_queue in
    (
      elim got.0 [ none ↦ none | some bytes ↦ some (P2pInstruction.read_from_message k bytes) ],
      got.1,
    )

-- `receive_instructionx`
unfoldable pub receive_instructionx :
    Datagram → P2pMessage → P2pInstruction → Option P2pInstruction × P2pMessage
receive_instructionx datagram m k =
    let got = check_recvx datagram m 1024 in
    (
      elim got.0 [ none ↦ none | some bytes ↦ some (P2pInstruction.read_from_message k bytes) ],
      got.1,
    )
