-- ===== src/KMessage/Invariant.antt =====
-- kcore/k_message.h: every operation keeps the incoming window well formed, whatever the datagram.
use kaillera_client.Prelude.{
  ◌≢◌, ℕ, zero, suc, ◌+◌, ◌-◌, ◌^◌, ◌≤◌, ◌<◌, ◌≡◌, refl, ap, ◌∙◌, sym, subst, List, [], ◌∷◌, Option,
  Bool, true, false, not, ◌&&◌, ◌||◌, none, some, arith, length, take, drop, set, ltb, leb, ◌==◌,
  if◌then◌else◌, min, inl, inr, Bool-cases, Option-cases, ltb→lt, ltb→le, length-take, from_le16,
  AllBytes, AllBytes-drop, from_le16-lt,
}
use kaillera_client.Containers.Oslist
use kaillera_client.Containers.Oslist.{Oslist, contents}
use kaillera_client.Containers.Oslist.Laws
use kaillera_client.KMessage.{
  Slot, KMessage, Address, Datagram, cache_size, max_length, add16, sub16, is_hole, free_bodies,
  free_in_cache, blank_slots, drop_holes, skip_stale_holes, fill_slot, resync, reserve, fill_bundle,
  ingest, receive, drop_head, deliver, check_recv, has_data, init,
}
use kaillera_client.KMessage.Window.{
  Window, Window-set, Window-blanks, Window-append, blanks, length-blanks, length-blank_slots,
  take-blank_slots,
}

-- `in_cache` is an array of `ICACHESIZE` slots with no more than that in use, which hold a
-- contiguous run of serials that ends at `last_cached_instruction`.
pub record IsValid (m : KMessage) : Type 0 where
  pub cache : Laws.IsValid cache_size m.in_cache
  pub last : m.last_cached_instruction < 2 ^ 16
  pub window : Window m.last_cached_instruction (contents m.in_cache)

pub init-IsValid : (peer : Address) → IsValid (init peer)
init-IsValid peer = record {
  cache = record { array = refl; bounded = omega arith };
  last = omega arith;
  window = tt;
}

length-free_bodies : (n : ℕ) (items : List Slot) → length (free_bodies n items) ≡ length items
unfolding free_bodies
length-free_bodies zero items = refl
length-free_bodies (suc n) [] = refl
length-free_bodies (suc n) (s ∷ items) = ap suc (length-free_bodies n items)

pub free_in_cache-IsValid :
    {m : KMessage}
    → IsValid m
    → IsValid (free_in_cache m)
      × ((free_in_cache m).in_cache.length ≡ 0)
      × ((free_in_cache m).last_cached_instruction ≡ m.last_cached_instruction)
unfolding free_in_cache Oslist.clear Oslist.size
free_in_cache-IsValid {m} v = (
  record {
    cache = record {
      array =
          length-free_bodies (min m.in_cache.length cache_size) m.in_cache.items ∙ v.cache.array;
      bounded = omega arith;
    };
    last = v.last;
    window = tt;
  },
  refl,
  refl,
)

-- Without its first slot the window is one still.
Window-tail :
    (last : ℕ) (slots : List Slot) → Window last slots → Window last (Laws.remove_at 0 slots)
Window-tail last [] w = tt
Window-tail last (s ∷ slots) w = w.2

pub removei-Window :
    {c : Oslist Slot} (last : ℕ)
    → Laws.IsValid cache_size c
    → 0 < c.length
    → Window last (contents c)
    → Laws.IsValid cache_size (Oslist.removei c 0) × Window last (contents (Oslist.removei c 0))
removei-Window {c} last v h w =
    let (e, v') = Laws.contents-removei 0 v h in
    (v', subst (Window last) (sym e) (Window-tail last (contents c) w))

set-tail :
    (slots : List Slot) (s : Slot) → Laws.remove_at 0 (set slots 0 s) ≡ Laws.remove_at 0 slots
set-tail [] s = refl
set-tail (t ∷ slots) s = refl

-- The slot that `check_recv` gives up is gone, and the rest of the window stays.
pub drop_head_lem :
    {m : KMessage} (s : Slot)
    → IsValid m
    → 0 < m.in_cache.length
    → IsValid (drop_head m s)
      × (contents (drop_head m s).in_cache ≡ Laws.remove_at 0 (contents m.in_cache))
unfolding drop_head Oslist.set_item
drop_head_lem {m} s v h =
    let freed = record s { body = none } in
    let (e, v') = Laws.contents-set_item freed 0 v.cache h in
    let (e'', v'') = Laws.contents-removei 0 v' h in
    let e3 = e'' ∙ ap (Laws.remove_at 0) e ∙ set-tail (contents m.in_cache) freed in
    (
      record {
        cache = v'';
        last = v.last;
        window =
            subst (Window m.last_cached_instruction) (sym e3)
              (Window-tail m.last_cached_instruction (contents m.in_cache) v.window);
      },
      e3,
    )

drop_holes-IsValid : (fuel : ℕ) {m : KMessage} → IsValid m → IsValid (drop_holes fuel m)
unfolding drop_holes Oslist.size
drop_holes-IsValid zero v = v
drop_holes-IsValid (suc fuel) {m} v = elim (Bool-cases (ltb 0 m.in_cache.length)) [
  | inr none_left ↦ rw (none_left, drop_holes) v
  | inl more ↦
      rw (more, drop_holes)
        (elim (Option-cases (Oslist.get m.in_cache 0)) [
          | inl e ↦ rw e v
          | inr (s, e) ↦ rw e (elim (Bool-cases (is_hole s)) [
            | inr full ↦ rw full v
            | inl hole ↦
                let (c, w) =
                  removei-Window m.last_cached_instruction v.cache (ltb→lt 0 m.in_cache.length more)
                    v.window in
                rw hole (drop_holes-IsValid fuel (record { cache = c; last = v.last; window = w }))
          ])
        ])
]

pub skip_stale_holes-IsValid :
    (now : ℕ) {m : KMessage} → IsValid m → IsValid (skip_stale_holes now m)
unfolding skip_stale_holes
skip_stale_holes-IsValid now {m} v =
    let d = drop_holes-IsValid (Oslist.size m.in_cache) v in ground arith

-- Filling a slot keeps the window, and moves neither its end nor its size.
pub fill_slot-IsValid :
    {m : KMessage} (serial : ℕ) (bytes : List ℕ)
    → IsValid m
    → serial < 2 ^ 16
    → 0 < length bytes
    → length bytes ≤ max_length
    → IsValid (fill_slot m serial bytes)
unfolding fill_slot Oslist.size
fill_slot-IsValid {m} serial bytes v h p l =
    let n = m.in_cache.length in
    let back = sub16 m.last_cached_instruction serial in
    let filled : Slot = record { serial = serial; length = length bytes; body = some bytes } in
    elim (Bool-cases (leb n back)) [
      | inl outside ↦ rw (outside, fill_slot) v
      | inr inside ↦
          let i = n - 1 - back in
          let b : back < n = ground arith in
          let (e, c) = Laws.contents-set_item filled i v.cache (omega arith) in
          let size = Laws.length-contents v.cache in
          let w =
            Window-set m.last_cached_instruction (contents m.in_cache) i filled (omega arith)
              (omega (arith, v.last, v.cache.bounded)) (refl, p, l) v.window in
          rw (inside, fill_slot)
            (elim (Option-cases (Oslist.get m.in_cache i)) [
              | inl absent ↦ rw absent v
              | inr (slot, found) ↦ rw found (elim (Bool-cases (is_hole slot)) [
                | inr full ↦ rw full v
                | inl hole ↦ rw hole (record {
                  cache = c;
                  last = v.last;
                  window = subst (Window m.last_cached_instruction) (sym e) w;
                })
              ])
            ])
    ]

-- Slots for the next messages: the window ends at `latest`, `tx` places on.
pub reserve-IsValid :
    {m : KMessage} (latest tx : ℕ)
    → IsValid m
    → latest < 2 ^ 16
    → tx ≡ sub16 latest m.last_cached_instruction
    → 0 < tx
    → tx < 10
    → IsValid (reserve m latest tx)
unfolding reserve Oslist.set_size Oslist.size
reserve-IsValid {m} latest tx v h e p l =
    let size = m.in_cache.length in
    elim (Bool-cases (ltb cache_size (size + tx))) [
      | inr fits ↦ rw (fits, reserve) (grown m v refl (ltb→le cache_size (size + tx) fits))
      | inl over ↦
          let (v', z, s) = free_in_cache-IsValid v in
          rw (over, reserve) (grown (free_in_cache m) v' s (omega (arith, z)))
    ]
  where
    grown :
        (b : KMessage)
        → IsValid b
        → b.last_cached_instruction ≡ m.last_cached_instruction
        → b.in_cache.length + tx ≤ cache_size
        → IsValid (record b {
          in_cache = record b.in_cache {
            items =
                blank_slots tx b.in_cache.length
                  (add16 b.last_cached_instruction 1)
                  b.in_cache.items;
            length = b.in_cache.length + tx;
          };
          packet_loss_count = b.packet_loss_count + (tx - 1);
          last_cached_instruction = latest;
        })
    grown b vb s room =
        let si = b.in_cache.length in
        let serial = add16 b.last_cached_instruction 1 in
        let c = take-blank_slots tx si serial b.in_cache.items (omega (arith, vb.cache.array)) in
        let lb = length-blanks tx serial in
        let w =
          Window-append b.last_cached_instruction latest (contents b.in_cache) (blanks tx serial)
            vb.last h (omega (arith, lb)) (omega (arith, lb, Laws.length-contents vb.cache))
            vb.window
            (Window-blanks latest tx serial (omega arith) h (omega arith) (omega arith)) in
        record {
          cache = record {
            array = length-blank_slots tx si serial b.in_cache.items ∙ vb.cache.array;
            bounded = room;
          };
          last = h;
          window = subst (Window latest) (sym c) w;
        }

fill_bundle-IsValid :
    (u : ℕ) (p : List ℕ) {m : KMessage} → IsValid m → AllBytes p → IsValid (fill_bundle u p m)
unfolding fill_bundle
fill_bundle-IsValid zero p v b = v
fill_bundle-IsValid (suc u) p {m} v b =
    let len = from_le16 (drop 2 p) in
    let body = drop 4 p in
    let more = λ (f : IsValid (fill_slot m (from_le16 p) (take len body))).
      fill_bundle-IsValid u (drop len body) {m = fill_slot m (from_le16 p) (take len body)} f
        (AllBytes-drop len body (AllBytes-drop 4 p b)) in
    elim (Bool-cases
      (ltb (length p) 4 || (len == 0 || (ltb max_length len || ltb (length body) len)))) [
        | inl stop ↦ rw (stop, fill_bundle) v
        | inr go ↦
            rw (go, fill_bundle)
              (more (
                fill_slot-IsValid (from_le16 p) (take len body) v (from_le16-lt p b)
                  (ground (arith, length-take len body)) (ground (arith, length-take len body))))
      ]

pub resync-IsValid :
    {m : KMessage} (latest tx k : ℕ)
    → IsValid m
    → IsValid (resync m latest tx k)
      × ((resync m latest tx k).last_cached_instruction ≡ sub16 latest k)
unfolding resync
resync-IsValid {m} latest tx k v =
    let (f, z, s) = free_in_cache-IsValid v in
    (
      record {
        cache = f.cache;
        last = omega arith;
        window =
            subst (λ (n : ℕ). Window (sub16 latest k) (take n (free_in_cache m).in_cache.items))
              (sym z) tt;
      },
      refl,
    )

-- Any datagram from anyone keeps the window well formed.
pub ingest-IsValid :
    {m : KMessage} (src : Address) (bytes : List ℕ)
    → IsValid m
    → AllBytes bytes
    → IsValid (ingest m src bytes)
unfolding ingest
ingest-IsValid {m} src [] v b = v
ingest-IsValid {m} src (count ∷ p) v b =
    elim (Bool-cases (not (src.s_addr == m.addr.s_addr) || not (src.sin_port == m.addr.sin_port))) [
      | inl foreign ↦ rw foreign v
      | inr peer ↦ rw peer (elim (Bool-cases (count == 0 || ltb (length p) 4)) [
        | inl short ↦ rw short v
        | inr long ↦ rw long (fill_bundle-IsValid count p (opened (ground arith)) b.1)
      ])
    ]
  where
    latest : ℕ
    latest = from_le16 p

    tx : ℕ
    tx = sub16 latest m.last_cached_instruction

    k : ℕ
    k = min count 9

    far : Bool
    far = leb 10 tx && ltb tx 0x8000

    opened :
        count ≢ 0
        → let moved = (if far then resync m latest tx k else m) in
          let tx' = (if far then k else tx) in
          IsValid (if ltb 0 tx' && ltb tx' 10 then reserve moved latest tx' else moved)
    opened ne =
        let lt = from_le16-lt p b.1 in
        elim (Bool-cases far) [
          | inl f ↦
              let (v', e) = resync-IsValid latest tx k v in
              rw f (elim (Bool-cases (ltb 0 k && ltb k 10)) [
                | inl t ↦
                    rw t (
                      reserve-IsValid latest k v' lt (omega (arith, e)) (omega arith) (omega arith))
                | inr t ↦ rw t v'
              ])
          | inr f ↦ rw f (elim (Bool-cases (ltb 0 tx && ltb tx 10)) [
            | inl t ↦ rw t (reserve-IsValid latest tx v lt refl (ground arith) (ground arith))
            | inr t ↦ rw t v
          ])
        ]

-- What `recvfrom` may give.
abbrev pub DatagramOk : Datagram → Type 0
DatagramOk none = Unit
DatagramOk (some (src, bytes)) = AllBytes bytes

receive-IsValid : (d : Datagram) {m : KMessage} → IsValid m → DatagramOk d → IsValid (receive m d)
unfolding receive
receive-IsValid d {m} v ok = either m.has_data_waiting
  where
    m' : KMessage
    m' = record m { has_data_waiting = false }

    v' : IsValid m'
    v' = record { cache = v.cache; last = v.last; window = v.window }

    polled :
        (d : Datagram)
        → DatagramOk d
        → IsValid (elim d [ none ↦ m' | some (src, bytes) ↦ ingest m' src bytes ])
    polled none ok = v'
    polled (some (src, bytes)) ok = ingest-IsValid src bytes v' ok

    either :
        (b : Bool)
        → IsValid (if b then elim d [ none ↦ m' | some (src, bytes) ↦ ingest m' src bytes ] else m)
    either true = polled d ok
    either false = v

abbrev pair : Option (List ℕ) → KMessage → Option (List ℕ) × KMessage
pair o m = (o, m)

-- One of three outcomes, each valid.
pick :
    {m dropped taken : KMessage} (out : Option (List ℕ)) (small large leave : Bool)
    → IsValid m
    → IsValid dropped
    → IsValid taken
    → IsValid (
        (if small
          then pair none m
          else if large
          then pair none (if leave then m else dropped)
          else pair out (if leave then m else taken)).1)
pick o true large leave v d t = v
pick o false true true v d t = v
pick o false true false v d t = d
pick o false false true v d t = v
pick o false false false v d t = t

pub deliver-IsValid :
    {m : KMessage} (room : ℕ) (leave : Bool) → IsValid m → IsValid (deliver m room leave).1
unfolding deliver Oslist.size
deliver-IsValid {m} room leave v = elim (Bool-cases (m.in_cache.length == 0)) [
  | inl e ↦ rw (e, deliver) v
  | inr ne ↦
      rw (ne, deliver)
        (elim (Option-cases (Oslist.get m.in_cache 0)) [
          | inl absent ↦ rw absent v
          | inr (s, found) ↦ rw found (given s s.body (ground arith))
        ])
]
  where
    given :
        (s : Slot) (b : Option (List ℕ))
        → 0 < m.in_cache.length
        → IsValid (
            (elim b as (λ _. Option (List ℕ) × KMessage) [
              | none ↦ (none, m)
              | some bytes ↦
                  if s.length == 0 || room == 0
                  then (none, m)
                  else if ltb room s.length
                  then (none, if leave then m else drop_head m s)
                  else (let done = record m { last_processed_instruction = s.serial } in
                      (some (take s.length bytes), if leave then m else drop_head done s))
            ]).1)
    given s none h = v
    given s (some bytes) h =
        let done = record m { last_processed_instruction = s.serial } in
        let a = (drop_head_lem s v h).0 in
        let b =
          (drop_head_lem {m = done} s (record { cache = v.cache; last = v.last; window = v.window })
            h).0 in
        pick (some (take s.length bytes)) (s.length == 0 || room == 0) (ltb room s.length) leave v a
          b

-- `check_recv` and `has_data` keep the window well formed, whatever arrives, from whomever, and
-- whatever the clock says.
pub check_recv-IsValid :
    {m : KMessage} (now : ℕ) (d : Datagram) (room : ℕ) (leave : Bool)
    → IsValid m
    → DatagramOk d
    → IsValid (check_recv now d m room leave).1 × IsValid (has_data now m).1
unfolding check_recv has_data
check_recv-IsValid now d room leave v ok = (
  deliver-IsValid room leave (skip_stale_holes-IsValid now (receive-IsValid d v ok)),
  skip_stale_holes-IsValid now v,
)
