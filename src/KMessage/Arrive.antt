-- ===== src/KMessage/Arrive.antt =====
-- kcore/k_message.h, the receiving side: what a bundle does to a window that keeps track of the
-- messages that were sent.
use kaillera_client.Prelude.{
  ℕ, zero, suc, ◌+◌, ◌-◌, ◌*◌, ◌/◌, ◌%◌, ◌^◌, ◌≤◌, ◌<◌, ◌≡◌, refl, ◌∙◌, sym, subst, List, [], ◌∷◌,
  ◌++◌, true, false, some, inl, inr, ◌⊎◌, arith, length, get_elem?, Bool-cases, Option-cases, ltb,
  ltb→le, leb, min, ◌==◌, ◌&&◌, ◌||◌, not, if◌then◌else◌, from_le16,
}
use kaillera_client.Containers.Oslist
use kaillera_client.Containers.Oslist.{contents}
use kaillera_client.Containers.Oslist.Laws
use kaillera_client.KMessage.{
  KMessage, Slot, Address, cache_size, max_length, add16, sub16, is_hole, free_in_cache, reserve,
  resync, fill_slot, fill_bundle, ingest, slot_bytes,
}
use kaillera_client.KMessage.Window.{blanks, take-blank_slots}
use kaillera_client.KMessage.Invariant.{
  IsValid, free_in_cache-IsValid, resync-IsValid, reserve-IsValid, fill_slot-IsValid,
}
use kaillera_client.KMessage.Bundle.{message, wire, fill_bundle_round}
use kaillera_client.KMessage.Track.{Holds, Holds-append, Holds-blanks, Holds-set, Tracks}

-- The serials are unambiguous while no more than this many messages are sent.
abbrev pub serial_range : ℕ
serial_range = 0x8000

-- `bodies` are the messages before message `upto`, the newest first.
abbrev pub Newest : List (List ℕ) → ℕ → List (List ℕ) → Type 0
Newest msgs upto [] = Unit
Newest msgs zero (b ∷ bodies) = ⊥
Newest msgs (suc j) (b ∷ bodies) =
    (get_elem? msgs j ≡ some b) × (0 < length b) × (length b ≤ max_length) × Newest msgs j bodies

-- An emptied window, moved to end before message `upto`.
emptied :
    {msgs : List (List ℕ)} {front : ℕ} {m : KMessage} (upto : ℕ)
    → IsValid m
    → m.in_cache.length ≡ 0
    → m.last_cached_instruction ≡ (upto + 65535) % 2 ^ 16
    → front ≤ upto
    → upto ≤ length msgs
    → Tracks msgs front m
emptied {msgs} {front} {m} upto v z l f u = record {
  valid = v;
  upto = upto;
  sent = u;
  last = l;
  behind = omega arith;
  slots = none_left (contents m.in_cache) (omega (arith, Laws.length-contents v.cache));
}
  where
    none_left : (slots : List Slot) → length slots ≡ 0 → Holds msgs (upto - m.in_cache.length) slots
    none_left [] e = tt
    none_left (s ∷ slots) e = absurd (omega arith)

-- Where there is room, the slots are added behind those of the window.
contents-reserve :
    {m : KMessage} (latest tx : ℕ)
    → IsValid m
    → m.in_cache.length + tx ≤ cache_size
    → (contents (reserve m latest tx).in_cache
        ≡ contents m.in_cache ++ blanks tx (add16 m.last_cached_instruction 1))
      × ((reserve m latest tx).in_cache.length ≡ m.in_cache.length + tx)
      × ((reserve m latest tx).last_cached_instruction ≡ latest)
unfolding reserve Oslist.set_size Oslist.size
contents-reserve {m} latest tx v h =
    let fits : ltb cache_size (m.in_cache.length + tx) ≡ false = ground arith in
    let serial = add16 m.last_cached_instruction 1 in
    rw (fits, reserve)
      (
        take-blank_slots tx m.in_cache.length serial m.in_cache.items
            (omega (arith, v.cache.array)),
        refl,
        refl,
      )

-- Where there is none, the window is emptied first.
reserve-free_in_cache :
    {m : KMessage} (latest tx : ℕ)
    → IsValid m
    → ltb cache_size (m.in_cache.length + tx) ≡ true
    → tx ≤ cache_size
    → reserve m latest tx ≡ reserve (free_in_cache m) latest tx
unfolding reserve Oslist.size
reserve-free_in_cache {m} latest tx v over h =
    let (v', z, s) = free_in_cache-IsValid v in
    let fits : ltb cache_size ((free_in_cache m).in_cache.length + tx) ≡ false = ground arith in
    rw (over, fits, reserve) refl

reserve_room :
    {msgs : List (List ℕ)} {front : ℕ} {m : KMessage} (latest tx : ℕ) (t : Tracks msgs front m)
    → latest ≡ (t.upto + tx + 65535) % 2 ^ 16
    → 0 < tx
    → tx < 10
    → t.upto + tx ≤ length msgs
    → m.in_cache.length + tx ≤ cache_size
    → Tracks msgs front (reserve m latest tx)
reserve_room {msgs} {front} {m} latest tx t e p l u room =
    let serial = add16 m.last_cached_instruction 1 in
    let slots = contents m.in_cache in
    let (c, n, k) = contents-reserve latest tx t.valid room in
    let size = Laws.length-contents t.valid.cache in
    let behind = t.behind in
    let same : t.upto - m.in_cache.length ≡ t.upto + tx - (reserve m latest tx).in_cache.length =
      omega arith in
    let both =
      Holds-append msgs (t.upto - m.in_cache.length) slots (blanks tx serial) t.slots
        (Holds-blanks msgs (t.upto - m.in_cache.length + length slots) tx serial) in
    record {
      valid = reserve-IsValid latest tx t.valid (omega arith) (omega (arith, t.last)) p l;
      upto = t.upto + tx;
      sent = u;
      last = k ∙ e;
      behind = omega arith;
      slots =
          subst (λ (i : ℕ). Holds msgs i (contents (reserve m latest tx).in_cache)) same
            (subst (Holds msgs (t.upto - m.in_cache.length)) (sym c) both);
    }

-- Slots for the messages up to message `upto + tx`.
reserve-Tracks :
    {msgs : List (List ℕ)} {front : ℕ} {m : KMessage} (latest tx : ℕ) (t : Tracks msgs front m)
    → latest ≡ (t.upto + tx + 65535) % 2 ^ 16
    → 0 < tx
    → tx < 10
    → t.upto + tx ≤ length msgs
    → Tracks msgs front (reserve m latest tx)
unfolding emptied
reserve-Tracks {msgs} {front} {m} latest tx t e p l u =
    elim (Bool-cases (ltb cache_size (m.in_cache.length + tx))) [
      | inr fits ↦
          reserve_room latest tx t e p l u (ltb→le cache_size (m.in_cache.length + tx) fits)
      | inl over ↦
          let (v, z, s) = free_in_cache-IsValid t.valid in
          let f : Tracks msgs front (free_in_cache m) =
            emptied t.upto v z (s ∙ t.last) (omega (arith, t.behind)) t.sent in
          subst (Tracks msgs front)
            (sym (reserve-free_in_cache latest tx t.valid over (omega arith)))
            (reserve_room latest tx f e p l u (omega arith))
    ]

resync-Tracks :
    {msgs : List (List ℕ)} {front : ℕ} {m : KMessage} (upto latest tx k : ℕ)
    (t : Tracks msgs front m)
    → sub16 latest k ≡ (upto + 65535) % 2 ^ 16
    → t.upto ≤ upto
    → upto ≤ length msgs
    → Tracks msgs front (resync m latest tx k)
unfolding resync free_in_cache Oslist.clear
resync-Tracks upto latest tx k t e h u =
    let (v, l) = resync-IsValid latest tx k t.valid in
    emptied upto v refl (l ∙ e) (omega (arith, t.behind)) u

-- A message goes to a slot of the window, or nowhere.
fill_slot-cases :
    (m : KMessage) (serial : ℕ) (b : List ℕ)
    → let back = sub16 m.last_cached_instruction serial in
      let i = m.in_cache.length - 1 - back in
      (fill_slot m serial b ≡ m)
      ⊎ ((back < m.in_cache.length)
          × (fill_slot m serial b
              ≡ record m { in_cache = Oslist.set_item m.in_cache (message serial b) i }))
unfolding fill_slot Oslist.size
fill_slot-cases m serial b =
    let n = m.in_cache.length in
    let back = sub16 m.last_cached_instruction serial in
    elim (Bool-cases (leb n back)) [
      | inl outside ↦ inl (rw (outside, fill_slot) refl)
      | inr inside ↦
          let near : back < n = ground arith in
          elim (Option-cases (Oslist.get m.in_cache (n - 1 - back))) [
            | inl absent ↦ inl (rw (inside, fill_slot) (rw absent refl))
            | inr (slot, found) ↦ elim (Bool-cases (is_hole slot)) [
              | inr full ↦ inl (rw (inside, fill_slot) (rw found (rw full refl)))
              | inl hole ↦ inr (near, rw (inside, fill_slot) (rw found (rw hole refl)))
            ]
          ]
    ]

-- A message goes to its own slot, or nowhere.
fill_slot-Tracks :
    {msgs : List (List ℕ)} {front : ℕ} {m : KMessage} (j : ℕ) (b : List ℕ)
    → Tracks msgs front m
    → length msgs ≤ serial_range
    → j < length msgs
    → get_elem? msgs j ≡ some b
    → 0 < length b
    → length b ≤ max_length
    → Tracks msgs front (fill_slot m (j % 2 ^ 16) b)
unfolding Oslist.set_item
fill_slot-Tracks {msgs} {front} {m} j b t r h g p l =
    let serial = j % 2 ^ 16 in
    let v = fill_slot-IsValid serial b t.valid (omega arith) p l in
    let n = m.in_cache.length in
    let back = sub16 m.last_cached_instruction serial in
    let i = n - 1 - back in
    elim (fill_slot-cases m serial b) [
      | inl same ↦ subst (Tracks msgs front) (sym same) t
      | inr (near, filled) ↦
          let bound = t.valid.cache.bounded in
          let place : t.upto - n + i ≡ j = omega (arith, t.last, t.sent, t.behind) in
          let (e, c) = Laws.contents-set_item (message serial b) i t.valid.cache (omega arith) in
          let k =
            Holds-set msgs (t.upto - n) (contents m.in_cache) i (message serial b) t.slots
              (subst (λ (x : ℕ). get_elem? msgs x ≡ some b) (sym place) g) in
          subst (Tracks msgs front) (sym filled) (record {
            valid = subst IsValid filled v;
            upto = t.upto;
            sent = t.sent;
            last = t.last;
            behind = t.behind;
            slots = subst (Holds msgs (t.upto - n)) (sym e) k;
          })
    ]

-- The messages of a bundle go to their own slots, or nowhere.
fill_bundle-Tracks :
    {msgs : List (List ℕ)} {front : ℕ} (upto : ℕ) (bodies : List (List ℕ)) {m : KMessage}
    → Tracks msgs front m
    → length msgs ≤ serial_range
    → upto ≤ length msgs
    → Newest msgs upto bodies
    → Tracks msgs front (fill_bundle (length bodies) (wire ((upto + 65535) % 2 ^ 16) bodies) m)
unfolding fill_bundle
fill_bundle-Tracks upto [] t r h w = t
fill_bundle-Tracks zero (b ∷ bodies) t r h w = absurd w
fill_bundle-Tracks {msgs} {front} (suc j) (b ∷ bodies) {m} t r h (g, p, l, w) =
    let last = (suc j + 65535) % 2 ^ 16 in
    let own : j % 2 ^ 16 ≡ last = omega arith in
    let before : (j + 65535) % 2 ^ 16 ≡ sub16 last 1 = omega arith in
    let filled : Tracks msgs front (fill_slot m last b) =
      subst (λ (x : ℕ). Tracks msgs front (fill_slot m x b)) own
        (fill_slot-Tracks j b t r (omega arith) g p l) in
    let rest = fill_bundle-Tracks j bodies {m = fill_slot m last b} filled r (omega arith) w in
    subst (Tracks msgs front)
      (sym
        (fill_bundle_round (length bodies) last b (wire (sub16 last 1) bodies) m (omega arith) p l))
      (subst
        (λ (x : ℕ).
          Tracks msgs front (fill_bundle (length bodies) (wire x bodies) (fill_slot m last b)))
        before rest)

Newest-length :
    (msgs : List (List ℕ)) (upto : ℕ) (bodies : List (List ℕ))
    → Newest msgs upto bodies
    → length bodies ≤ upto
Newest-length msgs upto [] w = omega arith
Newest-length msgs zero (b ∷ bodies) w = absurd w
Newest-length msgs (suc j) (b ∷ bodies) w = omega (arith, Newest-length msgs j bodies w.3)

-- The window after the head of a bundle of `count` messages is read, the newest one with the
-- serial `latest`.
abbrev pub opened : KMessage → ℕ → ℕ → KMessage
opened m count latest =
    let tx = sub16 latest m.last_cached_instruction in
    let k = min count 9 in
    let far = leb 10 tx && ltb tx 0x8000 in
    let moved = (if far then resync m latest tx k else m) in
    let tx' = (if far then k else tx) in
    if ltb 0 tx' && ltb tx' 10 then reserve moved latest tx' else moved

opened-Tracks :
    {msgs : List (List ℕ)} {front : ℕ} {m : KMessage} (count upto : ℕ)
    → Tracks msgs front m
    → length msgs ≤ serial_range
    → 0 < count
    → count ≤ upto
    → upto ≤ length msgs
    → Tracks msgs front (opened m count ((upto + 65535) % 2 ^ 16))
unfolding resync-Tracks emptied
opened-Tracks {msgs} {front} {m} count upto t r p c u =
    let latest = (upto + 65535) % 2 ^ 16 in
    let tx = sub16 latest m.last_cached_instruction in
    let k = min count 9 in
    let last = t.last in
    let sent = t.sent in
    elim (Bool-cases (leb 10 tx && ltb tx 0x8000)) [
      | inl far ↦
          let far1 : 10 ≤ tx = ground arith in
          let far2 : tx < 0x8000 = ground arith in
          let some_new : (ltb 0 k && ltb k 10) ≡ true = ground arith in
          let moved : Tracks msgs front (resync m latest tx k) =
            resync-Tracks (upto - k) latest tx k t (omega arith) (omega arith) (omega arith) in
          rw far (
            rw some_new (
              reserve-Tracks latest k moved (omega arith) (omega arith) (omega arith)
                (omega arith)))
      | inr near ↦ rw near (elim (Bool-cases (ltb 0 tx && ltb tx 10)) [
        | inr old ↦ rw old t
        | inl new ↦
            let new1 : 0 < tx = ground arith in
            let new2 : tx < 10 = ground arith in
            rw new (reserve-Tracks latest tx t (omega arith) new1 new2 (omega arith))
      ])
    ]

-- What a datagram of a bundle is.
abbrev pub IsBundle : List (List ℕ) → List ℕ → Type 0
IsBundle msgs bytes =
    (upto : ℕ) × (bodies : List (List ℕ)) × (bytes
      ≡ length bodies ∷ wire ((upto + 65535) % 2 ^ 16) bodies)
    × (upto ≤ length msgs)
    × Newest msgs upto bodies

pub ingest-wire_Tracks :
    {msgs : List (List ℕ)} {front : ℕ} {m : KMessage} (src : Address) (upto : ℕ)
    (bodies : List (List ℕ))
    → Tracks msgs front m
    → length msgs ≤ serial_range
    → upto ≤ length msgs
    → Newest msgs upto bodies
    → Tracks msgs front (ingest m src (length bodies ∷ wire ((upto + 65535) % 2 ^ 16) bodies))
unfolding ingest slot_bytes
ingest-wire_Tracks {m = m} src upto [] t r u w =
    elim (Bool-cases (not (src.s_addr == m.addr.s_addr) || not (src.sin_port == m.addr.sin_port))) [
      | inl foreign ↦ rw foreign t
      | inr peer ↦ rw peer t
    ]
ingest-wire_Tracks {msgs} {front} {m} src upto (b ∷ bodies) t r u w =
    let latest = (upto + 65535) % 2 ^ 16 in
    let p = wire latest (b ∷ bodies) in
    let count = length (b ∷ bodies) in
    let read : latest % 256 + 256 * (latest / 256 % 256) ≡ latest = omega arith in
    let o = opened-Tracks count upto t r (omega arith) (Newest-length msgs upto (b ∷ bodies) w) u in
    let o' : Tracks msgs front (opened m count (from_le16 p)) =
      subst (λ (x : ℕ). Tracks msgs front (opened m count x)) (sym read) o in
    elim (Bool-cases (not (src.s_addr == m.addr.s_addr) || not (src.sin_port == m.addr.sin_port))) [
      | inl foreign ↦ rw foreign t
      | inr peer ↦ rw peer (elim (Bool-cases (count == 0 || ltb (length p) 4)) [
        | inl short ↦ rw short t
        | inr long ↦ rw long (fill_bundle-Tracks upto (b ∷ bodies) o' r u w)
      ])
    ]
