-- ===== src/P2pMessage/Bounds.antt =====
-- core/p2p_message.h, `check_recv` and `check_recvx`: the window stays inside its array and every
-- slot inside its body, whatever arrives.
use kaillera_client.Prelude.{
  ℕ, zero, suc, ◌+◌, ◌-◌, ◌≤◌, ◌<◌, ◌≡◌, refl, ◌∙◌, List, [], ◌∷◌, ◌++◌, Bool, true, false, ◌&&◌,
  ◌||◌, Option, none, some, arith, length, take, drop, set, get_or, get_elem?, ltb, leb, ◌==◌,
  if◌then◌else◌, Bool-cases, Option-cases, inl, inr, ltb→le, length-append, length-take,
  length-drop, length-set, AllBytes, AllBytes-drop, subst,
}
use mathlib.Core.Option.{some-injective}
use kaillera_client.Containers.Oslist
use kaillera_client.Containers.Oslist.{Oslist}
use kaillera_client.Containers.Oslist.Laws
use kaillera_client.P2pMessage.{
  Slot, P2pMessage, Address, Datagram, cache_size, sub8, empty_slot, clear_heads, fill_bundle,
  ingest_bundle, ingest, receive, deliver, check_recv, ingestx, receivex, check_recvx,
}

abbrev pub SlotOk : Slot → Type 0
SlotOk s = (length s.body ≡ 256) × (s.length < 256)

abbrev pub AllOk : List Slot → Type 0
AllOk [] = Unit
AllOk (s ∷ slots) = SlotOk s × AllOk slots

-- The window is inside its array of 32 slots, whose bodies have 256 bytes and lengths below that.
pub record IsValid (m : P2pMessage) : Type 0 where
  pub cache : Laws.IsValid cache_size m.in_cache
  pub slots : AllOk m.in_cache.items

-- What `recvfrom` may give.
abbrev pub DatagramOk : Datagram → Type 0
DatagramOk none = Unit
DatagramOk (some (src, bytes)) = AllBytes bytes

AllOk-set : (xs : List Slot) (i : ℕ) (s : Slot) → SlotOk s → AllOk xs → AllOk (set xs i s)
AllOk-set [] i s k h = tt
AllOk-set (x ∷ xs) zero s k h = (k, h.1)
AllOk-set (x ∷ xs) (suc i) s k h = (h.0, AllOk-set xs i s k h.1)

AllOk-append : (xs ys : List Slot) → AllOk xs → AllOk ys → AllOk (xs ++ ys)
AllOk-append [] ys h k = k
AllOk-append (x ∷ xs) ys h k = (h.0, AllOk-append xs ys h.1 k)

AllOk-take : (n : ℕ) (xs : List Slot) → AllOk xs → AllOk (take n xs)
AllOk-take zero xs h = tt
AllOk-take (suc n) [] h = tt
AllOk-take (suc n) (x ∷ xs) h = (h.0, AllOk-take n xs h.1)

AllOk-drop : (n : ℕ) (xs : List Slot) → AllOk xs → AllOk (drop n xs)
AllOk-drop zero xs h = h
AllOk-drop (suc n) [] h = tt
AllOk-drop (suc n) (x ∷ xs) h = AllOk-drop n xs h.1

get_or-body : (xs : List Slot) (i : ℕ) → AllOk xs → length (get_or xs i empty_slot).body ≡ 256
get_or-body [] i h = refl
get_or-body (x ∷ xs) zero h = h.0.0
get_or-body (x ∷ xs) (suc i) h = get_or-body xs i h.1

removei-AllOk : (s : Oslist Slot) (i : ℕ) → AllOk s.items → AllOk (Oslist.removei s i).items
unfolding Oslist.removei Oslist.close_gap
removei-AllOk s i h =
    let l = s.length - 1 in
    let gap =
      AllOk-append (take i s.items) (take (l - i) (drop (i + 1) s.items) ++ drop l s.items)
        (AllOk-take i s.items h)
        (AllOk-append (take (l - i) (drop (i + 1) s.items)) (drop l s.items)
          (AllOk-take (l - i) (drop (i + 1) s.items) (AllOk-drop (i + 1) s.items h))
          (AllOk-drop l s.items h)) in
    elim (Bool-cases (ltb i s.length)) [
      | inr out ↦ rw out h
      | inl inside ↦
          rw inside
            (elim (Bool-cases (l == i)) [ inl last ↦ rw last h | inr before ↦ rw before gap ])
    ]

clear_heads-AllOk :
    (n i : ℕ) (xs : List Slot)
    → AllOk xs
    → AllOk (clear_heads n i xs) × (length (clear_heads n i xs) ≡ length xs)
unfolding clear_heads
clear_heads-AllOk zero i xs h = (h, refl)
clear_heads-AllOk (suc n) i xs h =
    let s : Slot = record { serial = 0; length = 0; body = (get_or xs i empty_slot).body } in
    let (k, l) =
      clear_heads-AllOk n (i + 1) (set xs i s)
        (AllOk-set xs i s (get_or-body xs i h, omega arith) h) in
    (k, l ∙ length-set xs i s)

-- The second byte of a head.
byte_at_one : (p : List ℕ) → AllBytes p → get_or p 1 0 < 256
byte_at_one [] h = omega arith
byte_at_one (x ∷ []) h = omega arith
byte_at_one (x ∷ y ∷ p) h = h.1.0

if-IsValid : (b : Bool) (x y : P2pMessage) → IsValid x → IsValid y → IsValid (if b then x else y)
if-IsValid true x y v w = v
if-IsValid false x y v w = w

-- The message takes the place of the front of the old body.
stored-SlotOk :
    (len : ℕ) (body old : List ℕ)
    → len < 256
    → len ≤ length body
    → length old ≡ 256
    → length (take len body ++ drop len old) ≡ 256
stored-SlotOk len body old h k e =
    omega (
      arith,
      length-append (take len body) (drop len old),
      length-take len body,
      length-drop len old,
    )

fill_bundle-IsValid :
    (u tx si : ℕ) (p : List ℕ) (m : P2pMessage)
    → IsValid m
    → AllBytes p
    → IsValid (fill_bundle u tx si p m)
unfolding fill_bundle Oslist.set_item
fill_bundle-IsValid zero tx si p m v b = v
fill_bundle-IsValid (suc u) tx si p m v b =
    let len = get_or p 1 0 in
    let body = drop 2 p in
    elim (Bool-cases
      (ltb (length p) 2 || (get_or p 0 0 == m.last_cached_instruction || ltb (length body) len))) [
        | inl stop ↦ rw (stop, fill_bundle) v
        | inr on ↦
            let fits : len ≤ length body = ground arith in
            let cix = sub8 (get_or p 0 0) m.last_cached_instruction in
            let ind = si + cix - 1 in
            let counted = record m { packet_loss_count = m.packet_loss_count + (cix - 1) } in
            let old = (get_or m.in_cache.items ind empty_slot).body in
            let slot : Slot = record {
              serial = get_or p 0 0;
              length = len;
              body = take len body ++ drop len old;
            } in
            let ok =
              stored-SlotOk len body old (byte_at_one p b) fits
                (get_or-body m.in_cache.items ind v.slots) in
            let stored = record counted { in_cache = Oslist.set_item m.in_cache slot ind } in
            let placed = (if leb cache_size ind then counted else stored) in
            rw (on, fill_bundle)
              (fill_bundle-IsValid u tx si (drop len body)
                (if cix == 0 || ltb tx cix then m else placed)
                (if-IsValid (cix == 0 || ltb tx cix) m placed v (
                  if-IsValid (leb cache_size ind) counted stored
                    (record { cache = v.cache; slots = v.slots })
                    (record {
                      cache = record {
                        array = length-set m.in_cache.items ind slot ∙ v.cache.array;
                        bounded = v.cache.bounded;
                      };
                      slots = AllOk-set m.in_cache.items ind slot (ok, byte_at_one p b) v.slots;
                    })))
                (AllBytes-drop len body (AllBytes-drop 2 p b)))
      ]

-- `tx` slots are opened behind the first `si`, and filled.
opened-IsValid :
    (count tx : ℕ) (p : List ℕ) (m : P2pMessage)
    → IsValid m
    → AllBytes p
    → m.in_cache.length + tx ≤ cache_size
    → IsValid (
        fill_bundle count tx m.in_cache.length p (record m {
          in_cache = record {
            items = clear_heads tx m.in_cache.length m.in_cache.items;
            length = m.in_cache.length + tx;
          };
        }))
opened-IsValid count tx p m v b h =
    let (k, l) = clear_heads-AllOk tx m.in_cache.length m.in_cache.items v.slots in
    fill_bundle-IsValid count tx m.in_cache.length p
      (record m {
        in_cache = record {
          items = clear_heads tx m.in_cache.length m.in_cache.items;
          length = m.in_cache.length + tx;
        };
      })
      (record { cache = record { array = l ∙ v.cache.array; bounded = h }; slots = k }) b

ingest_bundle-IsValid :
    (m : P2pMessage) (count : ℕ) (p : List ℕ)
    → IsValid m
    → AllBytes p
    → IsValid (ingest_bundle m count p)
unfolding ingest_bundle Oslist.size Oslist.set_size Oslist.clear
ingest_bundle-IsValid m count p v b =
    let latest = get_or p 0 0 in
    let tx = sub8 latest m.last_cached_instruction in
    elim (Bool-cases (ltb (length p) 2)) [
      | inl short ↦ rw (short, ingest_bundle) v
      | inr long ↦
          rw (long, ingest_bundle)
            (elim (Bool-cases (ltb 0 tx && ltb tx 15)) [
              | inr other ↦
                  rw (other, ingest_bundle)
                    (if-IsValid (tx == 0) (record m { sock_recv_retr = m.sock_recv_retr + 1 })
                      (record m { packet_misorder_count = m.packet_misorder_count + 1 })
                      (record { cache = v.cache; slots = v.slots })
                      (record { cache = v.cache; slots = v.slots }))
              | inl near ↦
                  rw (near, ingest_bundle)
                    (elim (Bool-cases (ltb cache_size (m.in_cache.length + tx))) [
                      | inl full ↦
                          let w =
                            opened-IsValid count tx p
                              (record m { in_cache = record m.in_cache { length = 0 } })
                              (record {
                                cache = record { array = v.cache.array; bounded = omega arith };
                                slots = v.slots;
                              })
                              b (ground arith) in
                          rw (full, ingest_bundle) (record { cache = w.cache; slots = w.slots })
                      | inr fits ↦
                          let w =
                            opened-IsValid count tx p m v b
                              (ltb→le cache_size (m.in_cache.length + tx) fits) in
                          rw (fits, ingest_bundle) (record { cache = w.cache; slots = w.slots })
                    ])
            ])
    ]

ingest-IsValid :
    (m : P2pMessage) (src : Address) (bytes : List ℕ)
    → IsValid m
    → AllBytes bytes
    → IsValid (ingest m src bytes) × IsValid (ingestx m src bytes)
unfolding ingest ingestx
ingest-IsValid m src [] v b = (v, v)
ingest-IsValid m src (count ∷ p) v b =
    let w = ingest_bundle-IsValid m count p v b.1 in
    let kept : IsValid (record m { ssrv_cache = m.ssrv_cache ++ (src, p) ∷ [] }) = record {
      cache = v.cache;
      slots = v.slots;
    } in
    (if-IsValid _ _ _ (if-IsValid _ _ _ v w) (if-IsValid _ _ _ kept v), if-IsValid _ _ _ w v)

receive-IsValid :
    (d : Datagram) (m : P2pMessage)
    → IsValid m
    → DatagramOk d
    → IsValid (receive m d) × IsValid (receivex m d)
unfolding receive receivex
receive-IsValid none m v ok =
    let polled : IsValid (record m { has_data_waiting = false }) = record {
      cache = v.cache;
      slots = v.slots;
    } in
    (if-IsValid _ _ _ polled v, if-IsValid _ _ _ polled v)
receive-IsValid (some (src, bytes)) m v ok =
    let polled : IsValid (record m { has_data_waiting = false }) = record {
      cache = v.cache;
      slots = v.slots;
    } in
    let (a, b) = ingest-IsValid (record m { has_data_waiting = false }) src bytes polled ok in
    (if-IsValid _ _ _ a v, if-IsValid _ _ _ b v)

-- The head of the window is in order.
get-SlotOk : (xs : List Slot) (s : Slot) → get_elem? xs 0 ≡ some s → AllOk xs → SlotOk s
get-SlotOk [] s e h = cc
get-SlotOk (x ∷ xs) s e h = subst SlotOk (some-injective x s e) h.0

-- What is handed out is no longer than a byte says, and fits the caller's buffer.
abbrev pub Fits : ℕ → Option (List ℕ) → Type 0
Fits room none = Unit
Fits room (some bytes) = (length bytes ≤ room) × (length bytes < 256)

deliver-IsValid :
    (m : P2pMessage) (room : ℕ) (leave : Bool)
    → IsValid m
    → IsValid (deliver m room leave).1 × Fits room (deliver m room leave).0
unfolding deliver Oslist.size Oslist.get
deliver-IsValid m room leave v = elim (Bool-cases (m.in_cache.length == 0)) [
  | inl empty ↦ rw (empty, deliver) (v, tt)
  | inr more ↦
      rw (more, deliver)
        (elim (Option-cases (get_elem? m.in_cache.items 0)) [
          | inl e ↦ rw (e, deliver) (v, tt)
          | inr (s, e) ↦
              rw (e, deliver)
                (elim (Bool-cases (room == 0 || ltb room s.length)) [
                  | inl small ↦ rw (small, deliver) (v, tt)
                  | inr fits ↦
                      let k = get-SlotOk m.in_cache.items s e v.slots in
                      let taken : IsValid (record m {
                        last_processed_instruction = s.serial;
                        in_cache = Oslist.removei m.in_cache 0;
                      }) =
                        record {
                          cache =
                              (Laws.contents-removei {s = m.in_cache} 0 v.cache (ground arith)).1;
                          slots = removei-AllOk m.in_cache 0 v.slots;
                        } in
                      rw (fits, deliver)
                        (
                          if-IsValid leave m _ v taken,
                          (
                            ground (arith, length-take s.length s.body, k),
                            ground (arith, length-take s.length s.body, k),
                          ),
                        )
                ])
        ])
]

-- Both receiving paths of a valid object keep the window inside its array and the slots inside their bodies, whatever
-- bytes arrive and from whomever, and a message that they hand out fits the caller's buffer and has
-- less than 256 bytes.
pub check_recv-check_recvx :
    {m : P2pMessage} (d : Datagram) (room : ℕ) (leave : Bool)
    → IsValid m
    → DatagramOk d
    → (IsValid (check_recv d m room leave).1 × Fits room (check_recv d m room leave).0)
      × (IsValid (check_recvx d m room).1 × Fits room (check_recvx d m room).0)
unfolding check_recv check_recvx
check_recv-check_recvx {m} d room leave v ok =
    let (a, b) = receive-IsValid d m v ok in
    (deliver-IsValid (receive m d) room leave a, deliver-IsValid (receivex m d) room false b)
