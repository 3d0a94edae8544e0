-- ===== src/P2pMessage/Heard.antt =====
-- core/p2p_message.h, `check_recvx` on a datagram of the peer that brings one new message, in front
-- of older ones.
use kaillera_client.Prelude.{
  ℕ, zero, suc, ◌+◌, ◌-◌, ◌%◌, ◌≤◌, ◌<◌, ◌≡◌, ◌⊎◌, inl, inr, refl, ap, ◌∙◌, sym, List, [], ◌∷◌,
  ◌++◌, Bool, true, false, ◌||◌, Bool-cases, Option, subst, none, some, arith, length, drop, set,
  take-append, drop-append, get_or, ltb, ◌==◌, ==_refl, length-append,
}
use kaillera_client.Containers.Oslist
use kaillera_client.Containers.Oslist.{Oslist}
use kaillera_client.P2pInstruction
use kaillera_client.P2pInstruction.{P2pInstruction}
use kaillera_client.P2pMessage.{
  P2pMessage, Address, Slot, Datagram, empty_slot, clear_heads, fill_bundle, ingest_bundle, ingestx,
  receivex, deliver, check_recvx, receive_instructionx, send_message, send, send_instruction,
}

-- All that came from the peer, up to the message `last`, was taken.
pub record Ready (peer : Address) (last : ℕ) (m : P2pMessage) : Type 0 where
  pub addr : m.addr ≡ peer
  pub cached : m.last_cached_instruction ≡ last
  pub byte : last < 256
  pub taken : m.in_cache.length ≡ 0
  pub slots : length m.in_cache.items ≡ 32
  pub unread : m.has_data_waiting ≡ false

-- What stands behind the new message: nothing, or the message before it.
abbrev pub Older : ℕ → List ℕ → Type 0
Older last older = (older ≡ []) ⊎ ((rest : List ℕ) × (older ≡ last ∷ rest))

-- The datagram of a bundle of `count` messages, the newest of which is `message`.
abbrev pub bundle_of : Address → ℕ → ℕ → List ℕ → List ℕ → Datagram
bundle_of peer count last message older =
    some (peer, count ∷ ((last + 1) % 256 ∷ (length message ∷ (message ++ older))))

or_true : (a b : Bool) → (a || (true || b)) ≡ true
or_true true b = refl
or_true false b = refl

fill_bundle_stops :
    (u tx si last : ℕ) (older : List ℕ) (m : P2pMessage)
    → m.last_cached_instruction ≡ last
    → Older last older
    → fill_bundle u tx si older m ≡ m
unfolding fill_bundle
fill_bundle_stops zero tx si last older m c o = refl
fill_bundle_stops (suc u) tx si last older m c (inl e) = rw e refl
fill_bundle_stops (suc u) tx si last older m c (inr (rest, e)) =
    let old : (last == m.last_cached_instruction) ≡ true =
      ap (λ (n : ℕ). last == n) c ∙ ==_refl last in
    rw (e, old)
      (rw (or_true (ltb (suc (length rest)) 2) (ltb (length rest - 1) (get_or rest 0 0))) refl)

-- The part of the object that receiving is about.
abbrev Incoming : Type 0
Incoming = Address × (ℕ × (Oslist Slot × Bool))

abbrev incoming : P2pMessage → Incoming
incoming m = (m.addr, (m.last_cached_instruction, (m.in_cache, m.has_data_waiting)))

send-incoming : (m : P2pMessage) (k : P2pInstruction) → incoming (send_instruction m k) ≡ incoming m
unfolding send_instruction send send_message
send-incoming m k = elim (Bool-cases (ltb 0 m.dsc)) [
  | inl skip ↦ rw skip refl
  | inr goes ↦ rw goes refl
]

-- Sending changes nothing of it.
pub send_instruction-Ready :
    (peer : Address) (last : ℕ) (m : P2pMessage) (k : P2pInstruction)
    → Ready peer last m
    → Ready peer last (send_instruction m k)
send_instruction-Ready peer last m k r =
    let e = send-incoming m k in
    record {
      addr = ap (λ (i : Incoming). i.0) e ∙ r.addr;
      cached = ap (λ (i : Incoming). i.1.0) e ∙ r.cached;
      byte = r.byte;
      taken = ap (λ (i : Incoming). Oslist.length i.1.1.0) e ∙ r.taken;
      slots = ap (λ (i : Incoming). length (Oslist.items i.1.1.0)) e ∙ r.slots;
      unread = ap (λ (i : Incoming). i.1.1.1) e ∙ r.unread;
    }

-- One new message goes to the first slot.
first_slot :
    (items : List Slot) (a b : Slot)
    → length items ≡ 32
    → (rest : List Slot) × (set (set items 0 a) 0 b ≡ b ∷ rest) × (length rest ≡ 31)
first_slot [] a b h = absurd (omega (arith, h))
first_slot (x ∷ items) a b h = (items, refl, omega (arith, h))

-- The object when the new message is in the window.
Filled : Address → ℕ → List ℕ → P2pMessage → Type 0
Filled peer serial message m =
    (m.addr ≡ peer)
    × (m.last_cached_instruction ≡ serial)
    × (m.in_cache.length ≡ 1)
    × (m.has_data_waiting ≡ false)
    × ((body : List ℕ) × (rest : List Slot) × (m.in_cache.items
          ≡ record { serial = serial; length = length message; body = message ++ body } ∷ rest)
        × (length rest ≡ 31))

-- The slot that the message is put in.
abbrev slot_of : ℕ → List ℕ → List ℕ → Slot
slot_of serial message old = record {
  serial = serial;
  length = length message;
  body = message ++ drop (length message) old;
}

abbrev stored : ℕ → List ℕ → P2pMessage → P2pMessage
stored serial message m = record m {
  packet_loss_count = m.packet_loss_count + (1 - 1);
  in_cache =
      Oslist.set_item m.in_cache
        (slot_of serial message (Slot.body (get_or m.in_cache.items 0 empty_slot))) 0;
}

fill_first :
    (u : ℕ) (message older : List ℕ) (m : P2pMessage)
    → m.last_cached_instruction < 256
    → Older m.last_cached_instruction older
    → let serial = (m.last_cached_instruction + 1) % 256 in
      fill_bundle (suc u) 1 0 (serial ∷ (length message ∷ (message ++ older))) m
      ≡ stored serial message m
unfolding fill_bundle
fill_first u message older m b o =
    let last = m.last_cached_instruction in
    let serial = (last + 1) % 256 in
    let one : (serial + 256 - last) % 256 ≡ 1 = omega (arith, b) in
    let long : ltb (length (serial ∷ (length message ∷ (message ++ older)))) 2 ≡ false =
      ground arith in
    let new : (serial == last) ≡ false = ground (arith, b) in
    let fits : ltb (length (message ++ older)) (length message) ≡ false =
      ground (arith, length-append message older) in
    rw (fill_bundle, one, long, new, fits, take-append message older, drop-append message older)
      (fill_bundle_stops u 1 0 last older (stored serial message m) refl o)

-- The first slot made ready.
abbrev opened : P2pMessage → P2pMessage
opened m = record m { in_cache = record { items = clear_heads 1 0 m.in_cache.items; length = 1 } }

ingest_first :
    (u : ℕ) (message older : List ℕ) (m : P2pMessage)
    → m.last_cached_instruction < 256
    → m.in_cache.length ≡ 0
    → Older m.last_cached_instruction older
    → let serial = (m.last_cached_instruction + 1) % 256 in
      ingest_bundle m (suc u) (serial ∷ (length message ∷ (message ++ older)))
      ≡ record (stored serial message (opened m)) { last_cached_instruction = serial }
unfolding ingest_bundle Oslist.size Oslist.set_size
ingest_first u message older m b z o =
    let last = m.last_cached_instruction in
    let serial = (last + 1) % 256 in
    let p = serial ∷ (length message ∷ (message ++ older)) in
    let one : (serial + 256 - last) % 256 ≡ 1 = omega (arith, b) in
    let long : ltb (length p) 2 ≡ false = ground arith in
    rw (ingest_bundle, one, long, z)
      (ap (λ (f : P2pMessage). record f { last_cached_instruction = serial })
        (fill_first u message older (opened m) b o))

-- The window after it, and what is delivered.
deliver_first :
    (items : List Slot) (serial : ℕ) (message : List ℕ) (m : P2pMessage)
    → length items ≡ 32
    → length message ≤ 255
    → let kept = clear_heads 1 0 items in
      let slot = slot_of serial message (Slot.body (get_or kept 0 empty_slot)) in
      let filled : Oslist Slot = record { items = set kept 0 slot; length = 1 } in
      (c : Oslist Slot) × (deliver (record m { in_cache = filled }) 1024 false
        ≡ (some message, record m { last_processed_instruction = serial; in_cache = c }))
      × (c.length ≡ 0)
      × (length c.items ≡ 32)
unfolding deliver clear_heads Oslist.size Oslist.get Oslist.removei
deliver_first [] serial message m h l = absurd (omega (arith, h))
deliver_first (x ∷ items) serial message m h l =
    let fits : ltb 1024 (length message) ≡ false = ground (arith, l) in
    let c : Oslist Slot = record { items = slot_of serial message x.body ∷ items; length = 0 } in
    (c, rw (fits, take-append message (drop (length message) x.body)) refl, refl, h)

-- The same, with the object's own address and count.
receive_first :
    (u : ℕ) (message older : List ℕ) (m : P2pMessage) (k : P2pInstruction)
    → m.last_cached_instruction < 256
    → m.in_cache.length ≡ 0
    → length m.in_cache.items ≡ 32
    → suc u < 15
    → length message ≤ 255
    → Older m.last_cached_instruction older
    → (m' : P2pMessage) × (receive_instructionx
          (bundle_of m.addr (suc u) m.last_cached_instruction message older)
          (record m { has_data_waiting = true })
          k
        ≡ (some (P2pInstruction.read_from_message k message), m'))
      × Ready m.addr ((m.last_cached_instruction + 1) % 256) m'
unfolding receive_instructionx check_recvx receivex ingestx Oslist.set_item
receive_first u message older m k b z s c l o =
    let serial = (m.last_cached_instruction + 1) % 256 in
    let polled : P2pMessage = record m { has_data_waiting = false } in
    let few : ltb (suc u) 15 ≡ true = ground (arith, c) in
    let some_sent : ltb 0 (suc u) ≡ true = ground arith in
    let bytes : ltb 0 (length (serial ∷ (length message ∷ (message ++ older)))) ≡ true =
      ground arith in
    let filled : P2pMessage = record (stored serial message (opened polled)) {
      last_cached_instruction = serial;
    } in
    let (cache, e, empty, size) = deliver_first m.in_cache.items serial message filled s l in
    let given : deliver filled 1024 false
        ≡ (some message, record filled { last_processed_instruction = serial; in_cache = cache }) =
      e in
    let received : receivex (record m { has_data_waiting = true })
          (bundle_of m.addr (suc u) m.last_cached_instruction message older)
        ≡ filled =
      rw (==_refl m.addr.s_addr, ==_refl m.addr.sin_port, few, some_sent, bytes)
        (ingest_first u message older polled b z o) in
    (
      record filled { last_processed_instruction = serial; in_cache = cache },
      ap
            (λ (r : P2pMessage). (
              elim (deliver r 1024 false).0 as (λ _. Option P2pInstruction) [
                | none ↦ none
                | some got ↦ some (P2pInstruction.read_from_message k got)
              ],
              (deliver r 1024 false).1,
            ))
            received
          ∙ ap
              (λ (r : Option (List ℕ) × P2pMessage). (
                elim r.0 as (λ _. Option P2pInstruction) [
                  | none ↦ none
                  | some got ↦ some (P2pInstruction.read_from_message k got)
                ],
                r.1,
              ))
              given,
      record {
        addr = refl;
        cached = refl;
        byte = omega arith;
        taken = empty;
        slots = size;
        unread = refl;
      },
    )

abbrev pub Heard : Address → ℕ → ℕ → List ℕ → List ℕ → P2pMessage → P2pInstruction → Type 0
Heard peer count last message older m k =
    (m' : P2pMessage) × (receive_instructionx (bundle_of peer count last message older)
        (record m { has_data_waiting = true }) k
      ≡ (some (P2pInstruction.read_from_message k message), m'))
    × Ready peer ((last + 1) % 256) m'

-- The new message is given to the caller, and all is taken again.
pub receive_instructionx_lem :
    (peer : Address) (count last : ℕ) (message older : List ℕ) (m : P2pMessage) (k : P2pInstruction)
    → Ready peer last m
    → 0 < count
    → count < 15
    → length message ≤ 255
    → Older last older
    → Heard peer count last message older m k
receive_instructionx_lem peer zero last message older m k r c b l o = absurd (omega (arith, c))
receive_instructionx_lem peer (suc u) last message older m k r c b l o =
    subst (λ (a : Address). Heard a (suc u) last message older m k) r.addr
      (subst (λ (n : ℕ). Heard m.addr (suc u) n message older m k) r.cached
        (receive_first u message older m k (omega (arith, r.cached, r.byte)) r.taken r.slots b l
          (subst (λ (n : ℕ). Older n older) (sym r.cached) o)))
