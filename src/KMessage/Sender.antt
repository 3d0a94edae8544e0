-- ===== src/KMessage/Sender.antt =====
-- kcore/k_message.h, the sending side: `send` and `send_message`, and what their bundles hold.
use kaillera_client.Prelude.{
  ℕ, zero, suc, ◌+◌, ◌-◌, ◌%◌, ◌^◌, ◌≤◌, ◌<◌, ◌≡◌, refl, ap, ap₂, ◌∙◌, sym, subst, List, [], ◌∷◌,
  ◌++◌, append_assoc, append-nil, some, inl, inr, arith, length, get_elem?, get_or, get_elem?-take,
  Bool-cases, ltb, if◌then◌else◌, drop, min, ◌==◌, length-append,
}
use kaillera_client.Containers.Oslist
use kaillera_client.Containers.Oslist.{Oslist, contents}
use kaillera_client.Containers.Oslist.Laws
use kaillera_client.KMessage.{
  KMessage, Slot, Address, init, cache_size, max_length, add16, sub16, empty_slot, slot_bytes, pack,
  bundle, send_message, send,
}
use kaillera_client.KMessage.Bundle.{message, wire}
use kaillera_client.KMessage.Track.{get_elem?-snoc}
use kaillera_client.KMessage.Arrive.{IsBundle, Newest}

-- The slots hold the messages from message `j` on, each of a length that a bundle may carry.
abbrev pub Kept : List (List ℕ) → ℕ → List Slot → Type 0
Kept msgs j [] = Unit
Kept msgs j (s ∷ slots) =
    ((b : List ℕ) × (get_elem? msgs j ≡ some b)
      × (s ≡ message (j % 2 ^ 16) b)
      × (0 < length b)
      × (length b ≤ max_length))
    × Kept msgs (suc j) slots

abbrev pub AllBundles : List (List ℕ) → List (List ℕ) → Type 0
AllBundles msgs [] = Unit
AllBundles msgs (d ∷ sent) = IsBundle msgs d × AllBundles msgs sent

-- The sender keeps the latest messages, 15 at most, and has sent bundles only.
pub record Sends (msgs : List (List ℕ)) (m : KMessage) : Type 0 where
  pub cache : Laws.IsValid cache_size m.out_cache
  pub few : m.out_cache.length ≤ 15
  pub next : m.last_sent_instruction ≡ length msgs % 2 ^ 16
  pub enough : m.out_cache.length ≤ length msgs
  pub kept : Kept msgs (length msgs - m.out_cache.length) (contents m.out_cache)
  pub bundles : AllBundles msgs m.sent

Kept-get_elem? :
    (msgs : List (List ℕ)) (j : ℕ) (slots : List Slot) (i : ℕ)
    → Kept msgs j slots
    → i < length slots
    → (b : List ℕ) × (get_elem? slots i ≡ some (message ((j + i) % 2 ^ 16) b))
      × (get_elem? msgs (j + i) ≡ some b)
      × (0 < length b)
      × (length b ≤ max_length)
Kept-get_elem? msgs j [] i k h = absurd (omega arith)
Kept-get_elem? msgs j (s ∷ slots) zero k h =
    let (b, g, e, p, l) = k.0 in let z : j + 0 ≡ j = omega arith in rw z (b, ap some e, g, p, l)
Kept-get_elem? msgs j (s ∷ slots) (suc i) k h =
    let n : j + suc i ≡ suc j + i = omega arith in
    rw n (Kept-get_elem? msgs (suc j) slots i k.1 (omega arith))

get_or-get_elem? :
    (items : List Slot) (i : ℕ) {s : Slot} (d : Slot)
    → get_elem? items i ≡ some s
    → get_or items i d ≡ s
get_or-get_elem? [] i d h = cc
get_or-get_elem? (t ∷ items) zero d h = cc
get_or-get_elem? (t ∷ items) (suc i) d h = get_or-get_elem? items i d h

-- What the loop of `send_message` packs, from the message before `upto` on.
abbrev Packed : List (List ℕ) → ℕ → List ℕ → ℕ × List ℕ → Type 0
Packed msgs upto buf packed =
    (bodies : List (List ℕ)) × (packed.0 ≡ length bodies)
    × (packed.1 ≡ buf ++ wire ((upto + 65535) % 2 ^ 16) bodies)
    × Newest msgs upto bodies

pack_round :
    (msgs : List (List ℕ)) (j : ℕ) (s : Slot) (buf : List ℕ) (next : ℕ × List ℕ) (b : List ℕ)
    → s ≡ message (j % 2 ^ 16) b
    → get_elem? msgs j ≡ some b
    → 0 < length b
    → length b ≤ max_length
    → Packed msgs j (buf ++ slot_bytes s) next
    → Packed msgs
        (suc j)
        buf
        (if ltb 4096 (length buf + 4 + s.length) then (0, buf) else (next.0 + 1, next.1))
pack_round msgs j s buf next b e g p l (bodies, n, w, newest) =
    elim (Bool-cases (ltb 4096 (length buf + 4 + s.length))) [
      | inl full ↦ rw full ([], refl, sym (append-nil buf), tt)
      | inr fits ↦
          let last = (suc j + 65535) % 2 ^ 16 in
          let own : j % 2 ^ 16 ≡ last = omega arith in
          let before : (j + 65535) % 2 ^ 16 ≡ sub16 last 1 = omega arith in
          rw fits (
            b ∷ bodies,
            omega (arith, n),
            w
                ∙ append_assoc buf (slot_bytes s) (wire ((j + 65535) % 2 ^ 16) bodies)
                ∙ ap₂ (λ (x : Slot) (y : ℕ). buf ++ (slot_bytes x ++ wire y bodies))
                    (e ∙ ap (λ (x : ℕ). message x b) own) before,
            (g, p, l, newest),
          )
    ]

pack-Packed :
    {msgs : List (List ℕ)} {m : KMessage} (rounds i : ℕ) (buf : List ℕ)
    → Sends msgs m
    → i + rounds ≤ m.out_cache.length
    → Packed msgs (length msgs - i) buf (pack m.out_cache.items m.out_cache.length rounds i buf)
unfolding pack
pack-Packed zero i buf v h = ([], refl, sym (append-nil buf), tt)
pack-Packed {msgs} {m} (suc rounds) i buf v h =
    let size = m.out_cache.length in
    let j = length msgs - (i + 1) in
    let s = get_or m.out_cache.items (size - i - 1) empty_slot in
    let enough = v.enough in
    let (b, e, g, p, l) =
      Kept-get_elem? msgs (length msgs - size) (contents m.out_cache) (size - i - 1) v.kept
        (omega (arith, Laws.length-contents v.cache)) in
    let place : length msgs - size + (size - i - 1) ≡ j = omega arith in
    let upto : suc j ≡ length msgs - i = omega arith in
    let found =
      sym (get_elem?-take size m.out_cache.items (size - i - 1) (omega arith))
      ∙ e
      ∙ ap (λ (k : ℕ). some (message (k % 2 ^ 16) b)) place in
    let rest = pack-Packed rounds (i + 1) (buf ++ slot_bytes s) v (omega arith) in
    subst (λ (u : ℕ). Packed msgs u buf (pack m.out_cache.items size (suc rounds) i buf)) upto
      (pack_round msgs j s buf (pack m.out_cache.items size rounds (i + 1) (buf ++ slot_bytes s)) b
        (get_or-get_elem? m.out_cache.items (size - i - 1) empty_slot found)
        (ap (get_elem? msgs) (sym place) ∙ g) p l rest)

-- The datagram of `send_message` is a bundle of the latest messages.
bundle-IsBundle :
    {msgs : List (List ℕ)} {m : KMessage} (limit : ℕ)
    → Sends msgs m
    → IsBundle msgs (bundle m.out_cache limit)
unfolding bundle Oslist.size
bundle-IsBundle {msgs} {m} limit v =
    let size = m.out_cache.length in
    let (bodies, n, w, newest) = pack-Packed (min size limit) 0 (0 ∷ []) v (omega arith) in
    (
      length msgs - 0,
      bodies,
      ap₂ (λ (k : ℕ) (buf : List ℕ). k ∷ drop 1 buf) n w,
      omega arith,
      newest,
    )

pub send_message-Sends :
    {msgs : List (List ℕ)} {m : KMessage} (limit : ℕ)
    → Sends msgs m
    → Sends msgs (send_message m limit)
unfolding send_message
send_message-Sends {m = m} limit v = record {
  cache = v.cache;
  few = v.few;
  next = v.next;
  enough = v.enough;
  kept = v.kept;
  bundles = (bundle-IsBundle limit v, v.bundles);
}

Newest-snoc :
    (msgs : List (List ℕ)) (b : List ℕ) (upto : ℕ) (bodies : List (List ℕ))
    → Newest msgs upto bodies
    → Newest (msgs ++ b ∷ []) upto bodies
Newest-snoc msgs b upto [] w = tt
Newest-snoc msgs b zero (c ∷ bodies) w = absurd w
Newest-snoc msgs b (suc j) (c ∷ bodies) w =
    (get_elem?-snoc msgs b j w.0, w.1, w.2, Newest-snoc msgs b j bodies w.3)

AllBundles-snoc :
    (msgs : List (List ℕ)) (b : List ℕ) (sent : List (List ℕ))
    → AllBundles msgs sent
    → AllBundles (msgs ++ b ∷ []) sent
AllBundles-snoc msgs b [] h = tt
AllBundles-snoc msgs b (d ∷ sent) ((upto, bodies, e, u, w), h) = (
  (
    upto,
    bodies,
    e,
    omega (arith, u, length-append msgs (b ∷ [])),
    Newest-snoc msgs b upto bodies w,
  ),
  AllBundles-snoc msgs b sent h,
)

-- A message more is kept.
Kept-snoc :
    (msgs : List (List ℕ)) (b : List ℕ) (j : ℕ) (slots : List Slot)
    → Kept msgs j slots
    → j + length slots ≡ length msgs
    → 0 < length b
    → length b ≤ max_length
    → Kept (msgs ++ b ∷ []) j (slots ++ message (length msgs % 2 ^ 16) b ∷ [])
Kept-snoc msgs b j [] k e p l =
    let z : j ≡ length msgs = omega (arith, e) in
    (
      (
        b,
        ap (get_elem? (msgs ++ b ∷ [])) z ∙ get_elem?-last msgs b,
        ap (λ (x : ℕ). message (x % 2 ^ 16) b) (sym z),
        p,
        l,
      ),
      tt,
    )
  where
    get_elem?-last :
        (msgs : List (List ℕ)) (b : List ℕ) → get_elem? (msgs ++ b ∷ []) (length msgs) ≡ some b
    get_elem?-last [] b = refl
    get_elem?-last (m ∷ msgs) b = get_elem?-last msgs b
Kept-snoc msgs b j (s ∷ slots) ((c, g, f, q, r), k) e p l = (
  (c, get_elem?-snoc msgs b j g, f, q, r),
  Kept-snoc msgs b (suc j) slots k (omega (arith, e)) p l,
)

-- A cache that has room for a message more, and keeps the latest ones.
record Roomy (msgs : List (List ℕ)) (c : Oslist Slot) : Type 0 where
  cache : Laws.IsValid cache_size c
  few : c.length < 15
  enough : c.length ≤ length msgs
  kept : Kept msgs (length msgs - c.length) (contents c)

-- The oldest message goes when there are 15.
make_room :
    {msgs : List (List ℕ)} {m : KMessage}
    → Sends msgs m
    → Roomy msgs
        (if Oslist.size m.out_cache == 15 then Oslist.removei m.out_cache 0 else m.out_cache)
unfolding Oslist.size
make_room {msgs} {m} v = elim (Bool-cases (m.out_cache.length == 15)) [
  | inr fewer ↦
      rw fewer
        (record { cache = v.cache; few = ground (arith, v.few); enough = v.enough; kept = v.kept })
  | inl full ↦
      let some_left : 0 < m.out_cache.length = ground arith in
      let (e, c) = Laws.contents-removei 0 v.cache some_left in
      let shorter = Laws.length-removei m.out_cache 0 some_left in
      let enough = v.enough in
      let few = v.few in
      let j : suc (length msgs - m.out_cache.length)
          ≡ length msgs - (Oslist.removei m.out_cache 0).length =
        omega arith in
      let rest = Kept-tail msgs (length msgs - m.out_cache.length) (contents m.out_cache) v.kept in
      rw full (record {
        cache = c;
        few = omega arith;
        enough = omega arith;
        kept =
            subst (λ (i : ℕ). Kept msgs i (contents (Oslist.removei m.out_cache 0))) j
              (subst (Kept msgs (suc (length msgs - m.out_cache.length))) (sym e) rest);
      })
]
  where
    Kept-tail :
        (msgs : List (List ℕ)) (j : ℕ) (slots : List Slot)
        → Kept msgs j slots
        → Kept msgs (suc j) (Laws.remove_at 0 slots)
    Kept-tail msgs j [] k = tt
    Kept-tail msgs j (s ∷ slots) k = k.1

add-Sends :
    {msgs : List (List ℕ)} {m : KMessage} (b : List ℕ) (c : Oslist Slot)
    → Sends msgs m
    → Roomy msgs c
    → 0 < length b
    → length b ≤ max_length
    → Sends (msgs ++ b ∷ []) (record m {
      last_sent_instruction = add16 m.last_sent_instruction 1;
      out_cache = Oslist.add c (message (length msgs % 2 ^ 16) b);
    })
unfolding Oslist.add
add-Sends {msgs} {m} b c v r p l =
    let size = Laws.length-contents r.cache in
    let enough = r.enough in
    let few = r.few in
    let one_more = length-append msgs (b ∷ []) in
    let slot = message (length msgs % 2 ^ 16) b in
    let (e, c') = Laws.contents-add slot r.cache (omega arith) in
    let j : length msgs - c.length ≡ length (msgs ++ b ∷ []) - (c.length + 1) = omega arith in
    let k = Kept-snoc msgs b (length msgs - c.length) (contents c) r.kept (omega arith) p l in
    record {
      cache = c';
      few = omega arith;
      next = omega (arith, v.next);
      enough = omega arith;
      kept =
          subst (λ (i : ℕ). Kept (msgs ++ b ∷ []) i (contents (Oslist.add c slot))) j
            (subst (Kept (msgs ++ b ∷ []) (length msgs - c.length)) (sym e) k);
      bundles = AllBundles-snoc msgs b m.sent v.bundles;
    }

-- `send` of a message of a length that a bundle may carry.
pub send-Sends :
    {msgs : List (List ℕ)} {m : KMessage} (b : List ℕ)
    → Sends msgs m
    → 0 < length b
    → length b ≤ max_length
    → Sends (msgs ++ b ∷ []) (send m b)
unfolding send
send-Sends {msgs} {m} b v p l =
    let room =
      (if Oslist.size m.out_cache == 15 then Oslist.removei m.out_cache 0 else m.out_cache) in
    let whole : length b ≡ length b % 2 ^ 16 = omega arith in
    let added = add-Sends b room v (make_room v) p l in
    send_message-Sends m.default_ipm (
      subst
        (λ (x : ℕ × ℕ). Sends (msgs ++ b ∷ []) (record m {
          last_sent_instruction = add16 m.last_sent_instruction 1;
          out_cache = Oslist.add room (record { serial = x.0; length = x.1; body = some b });
        }))
        (ap₂ (λ (x y : ℕ). (x, y)) (sym v.next) whole) added)

pub init-Sends : (peer : Address) → Sends [] (init peer)
init-Sends peer = record {
  cache = record { array = refl; bounded = omega arith };
  few = omega arith;
  next = refl;
  enough = omega arith;
  kept = tt;
  bundles = tt;
}
