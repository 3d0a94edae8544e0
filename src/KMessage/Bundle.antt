-- ===== src/KMessage/Bundle.antt =====
-- kcore/k_message.h, `send_message` into `check_recv`: a bundle carries the latest messages, newest
-- first, and the receiver puts them in its window in the order in which they were sent.
use kaillera_client.Prelude.{
  ℕ, zero, suc, ◌+◌, ◌-◌, ◌*◌, ◌/◌, ◌%◌, ◌^◌, ◌≤◌, ◌<◌, ◌≡◌, refl, ap, ◌∙◌, sym, subst, lt→leb,
  List, [], ◌∷◌, ◌++◌, true, false, some, arith, length, take, set, ltb, leb, ◌==◌, get_elem?,
  from_le16, append-nil, take-append, drop-append, length-append, take_of_length-le,
}
use kaillera_client.Containers.Oslist
use kaillera_client.Containers.Oslist.{Oslist, contents}
use kaillera_client.Containers.Oslist.Laws
use kaillera_client.KMessage.{
  Slot, KMessage, reserve, ingest, cache_size, max_length, add16, sub16, is_hole, fill_slot,
  fill_bundle, slot_bytes, empty_slot,
}
use kaillera_client.KMessage.Window.{blanks, length-blanks, length-blank_slots, take-blank_slots}
use kaillera_client.KMessage.Invariant.{IsValid}

-- A slot that holds the message `body` under `serial`.
abbrev pub message : ℕ → List ℕ → Slot
message serial body = record { serial = serial; length = length body; body = some body }

-- Messages as a bundle carries them, the newest first, the newest having the serial `last`.
abbrev pub wire : ℕ → List (List ℕ) → List ℕ
wire last [] = []
wire last (body ∷ bodies) = slot_bytes (message last body) ++ wire (sub16 last 1) bodies

-- The slots of the messages in the order of their serials, in front of `done`.
abbrev pub arranged : ℕ → List (List ℕ) → List Slot → List Slot
arranged last [] done = done
arranged last (body ∷ bodies) done = arranged (sub16 last 1) bodies (message last body ∷ done)

abbrev pub AllSendable : List (List ℕ) → Type 0
AllSendable [] = Unit
AllSendable (b ∷ bs) = (0 < length b) × (length b ≤ max_length) × AllSendable bs

-- Filling the last of the empty slots in front of `done`.
set-blank :
    (n serial : ℕ) (s : Slot) (done : List Slot)
    → set (blanks (suc n) serial ++ done) n s ≡ blanks n serial ++ s ∷ done
set-blank zero serial s done = refl
set-blank (suc n) serial s done =
    ap (◌∷◌ (record empty_slot { serial = serial })) (set-blank n (add16 serial 1) s done)

get-blank :
    (n serial : ℕ) (done : List Slot)
    → (s : Slot) × (get_elem? (blanks (suc n) serial ++ done) n ≡ some s) × (is_hole s ≡ true)
get-blank zero serial done = (record empty_slot { serial = serial }, refl, refl)
get-blank (suc n) serial done = get-blank n (add16 serial 1) done

fill_slot_known :
    (m : KMessage) (serial : ℕ) (body : List ℕ) (i : ℕ) (s : Slot)
    → leb m.in_cache.length (sub16 m.last_cached_instruction serial) ≡ false
    → m.in_cache.length - 1 - sub16 m.last_cached_instruction serial ≡ i
    → Oslist.get m.in_cache i ≡ some s
    → is_hole s ≡ true
    → fill_slot m serial body
      ≡ record m { in_cache = Oslist.set_item m.in_cache (message serial body) i }
unfolding fill_slot Oslist.size
fill_slot_known m serial body i s inside e found hole =
    rw (inside, fill_slot) (rw e (rw found (rw hole (rw e))))

-- One message of the bundle goes to its slot.
fill_slot_blank :
    (m : KMessage) (n serial last : ℕ) (body : List ℕ) (done : List Slot)
    → Laws.IsValid cache_size m.in_cache
    → m.last_cached_instruction < 2 ^ 16
    → contents m.in_cache ≡ blanks (suc n) serial ++ done
    → last ≡ sub16 m.last_cached_instruction (length done)
    → (contents (fill_slot m last body).in_cache ≡ blanks n serial ++ message last body ∷ done)
      × Laws.IsValid cache_size (fill_slot m last body).in_cache
      × ((fill_slot m last body).last_cached_instruction ≡ m.last_cached_instruction)
fill_slot_blank m n serial last body done v l e at =
    let d = length done in
    let size = Laws.length-contents v in
    let total : m.in_cache.length ≡ suc n + d = omega (
      arith,
      size,
      ap length e,
      length-append (blanks (suc n) serial) done,
      length-blanks (suc n) serial,
    ) in
    let back : sub16 m.last_cached_instruction last ≡ d = omega (arith, v.bounded) in
    let (s, g, hole) = get-blank n serial done in
    let found =
      Laws.get-contents m.in_cache n (omega arith) ∙ ap (λ (c : List Slot). get_elem? c n) e ∙ g in
    let (w, v') = Laws.contents-set_item (message last body) n v (omega arith) in
    let k =
      fill_slot_known m last body n s (lt→leb m.in_cache.length _ (omega arith)) (omega arith) found
        hole in
    (
      ap (λ (r : KMessage). contents r.in_cache) k
          ∙ w
          ∙ ap (λ (c : List Slot). set c n (message last body)) e
          ∙ set-blank n serial (message last body) done,
      subst (λ (r : KMessage). Laws.IsValid cache_size r.in_cache) (sym k) v',
      ap (λ (r : KMessage). r.last_cached_instruction) k,
    )

-- A round of the loop takes the message at the front.
pub fill_bundle_round :
    (u last : ℕ) (body rest : List ℕ) (m : KMessage)
    → last < 2 ^ 16
    → 0 < length body
    → length body ≤ max_length
    → fill_bundle (suc u) (slot_bytes (message last body) ++ rest) m
      ≡ fill_bundle u rest (fill_slot m last body)
unfolding fill_bundle slot_bytes
fill_bundle_round u last body rest m l p k =
    let whole = take_of_length-le (length body) body (omega arith) in
    let serial : last % 256 + 256 * (last / 256 % 256) ≡ last = omega arith in
    let len : length body % 256 + 256 * (length body / 256 % 256) ≡ length body = omega arith in
    let some_left : (length body == 0) ≡ false = ground arith in
    let small : ltb max_length (length body) ≡ false = ground arith in
    let enough : ltb (length (body ++ rest)) (length body) ≡ false =
      ground (arith, length-append body rest) in
    let four : ltb (suc (suc (suc (suc (length (body ++ rest)))))) 4 ≡ false = ground arith in
    rw (whole, fill_bundle)
      (rw (serial, len, fill_bundle)
        (rw
          (
            some_left,
            small,
            enough,
            take-append body rest,
            drop-append body rest,
            four,
            fill_bundle,
          )
          refl))

-- The loop puts all the messages of the bundle in their slots.
fill_bundle_lem :
    (bodies : List (List ℕ)) (m : KMessage) (serial last : ℕ) (done : List Slot)
    → AllSendable bodies
    → Laws.IsValid cache_size m.in_cache
    → m.last_cached_instruction < 2 ^ 16
    → contents m.in_cache ≡ blanks (length bodies) serial ++ done
    → last ≡ sub16 m.last_cached_instruction (length done)
    → contents (fill_bundle (length bodies) (wire last bodies) m).in_cache
      ≡ arranged last bodies done
unfolding fill_bundle
fill_bundle_lem [] m serial last done ok v l e at = e
fill_bundle_lem (body ∷ bodies) m serial last done ok v l e at =
    let few : length done ≤ cache_size = omega (
      arith,
      v.bounded,
      Laws.length-contents v,
      ap length e,
      length-append (blanks (suc (length bodies)) serial) done,
    ) in
    let (e', v', l') = fill_slot_blank m (length bodies) serial last body done v l e at in
    ap (λ (k : KMessage). contents k.in_cache)
      (fill_bundle_round (length bodies) last body (wire (sub16 last 1) bodies) m (omega arith) ok.0
        ok.1)
    ∙ fill_bundle_lem bodies (fill_slot m last body) serial (sub16 last 1)
        (message last body ∷ done) ok.2 v' (omega arith) e' (omega arith)

-- An empty window gets as many slots as there are messages missing.
reserve_empty :
    (m : KMessage) (latest tx : ℕ)
    → Laws.IsValid cache_size m.in_cache
    → m.in_cache.length ≡ 0
    → tx < 10
    → (contents (reserve m latest tx).in_cache
        ≡ blanks tx (add16 m.last_cached_instruction 1) ++ [])
      × Laws.IsValid cache_size (reserve m latest tx).in_cache
      × ((reserve m latest tx).last_cached_instruction ≡ latest)
unfolding reserve Oslist.set_size Oslist.size
reserve_empty m latest tx v e h =
    let serial = add16 m.last_cached_instruction 1 in
    let fits : ltb cache_size (m.in_cache.length + tx) ≡ false = ground arith in
    let none_before : take m.in_cache.length m.in_cache.items ≡ [] =
      ap (λ (n : ℕ). take n m.in_cache.items) e in
    rw (fits, reserve)
      (
        take-blank_slots tx m.in_cache.length serial m.in_cache.items (omega (arith, v.array))
            ∙ rw none_before (sym (append-nil (blanks tx serial))),
        record {
          array = length-blank_slots tx m.in_cache.length serial m.in_cache.items ∙ v.array;
          bounded = omega arith;
        },
        refl,
      )

-- A datagram from the peer that is a few messages ahead.
ingest_near :
    (m : KMessage) (count tx : ℕ) (p : List ℕ)
    → 0 < count
    → 4 ≤ length p
    → sub16 (from_le16 p) m.last_cached_instruction ≡ tx
    → 0 < tx
    → tx < 10
    → ingest m m.addr (count ∷ p) ≡ fill_bundle count p (reserve m (from_le16 p) tx)
unfolding ingest
ingest_near m count tx p c l e low high =
    let addr : (m.addr.s_addr == m.addr.s_addr) ≡ true = ground arith in
    let port : (m.addr.sin_port == m.addr.sin_port) ≡ true = ground arith in
    let counted : (count == 0) ≡ false = ground arith in
    let long : ltb (length p) 4 ≡ false = ground arith in
    let near : leb 10 tx ≡ false = ground arith in
    let some_new : ltb 0 tx ≡ true = ground arith in
    let few : ltb tx 10 ≡ true = ground arith in
    rw (addr, port, counted, long, ingest) (rw (e, ingest) (rw (near, some_new, few, ingest) refl))

-- A bundle from the peer of one to nine messages of 1 to 20000 bytes, the newest first, that are
-- the next ones after the last serial of a valid receiver whose window is empty: all of them stand
-- in the window afterwards, in the order of their serials.
pub ingest-wire :
    (m : KMessage) (bodies : List (List ℕ))
    → IsValid m
    → m.in_cache.length ≡ 0
    → AllSendable bodies
    → 0 < length bodies
    → length bodies < 10
    → let latest = add16 m.last_cached_instruction (length bodies) in
      contents (ingest m m.addr (length bodies ∷ wire latest bodies)).in_cache
      ≡ arranged latest bodies []
unfolding ingest slot_bytes
ingest-wire m [] v e ok p h = absurd (omega arith)
ingest-wire m (body ∷ bodies) v e ok p h =
    let n = length (body ∷ bodies) in
    let latest = add16 m.last_cached_instruction n in
    let read : latest % 256 + 256 * (latest / 256 % 256) ≡ latest = omega arith in
    let tx : sub16 latest m.last_cached_instruction ≡ n = omega (arith, v.last) in
    let (r, v', l) = reserve_empty m latest n v.cache e h in
    ap (λ (k : KMessage). contents k.in_cache)
      (ingest_near m n n (wire latest (body ∷ bodies)) p (omega arith)
        (ap (λ (k : ℕ). sub16 k m.last_cached_instruction) read ∙ tx) p h)
    ∙ ap
        (λ (k : ℕ). contents (fill_bundle n (wire latest (body ∷ bodies)) (reserve m k n)).in_cache)
        read
    ∙ fill_bundle_lem (body ∷ bodies) (reserve m latest n) (add16 m.last_cached_instruction 1)
        latest [] ok v' (omega (arith, l)) r (omega (arith, l))
