-- ===== src/KMessage/Take.antt =====
-- kcore/k_message.h, the receiving side: `check_recv` on a window that keeps track of the messages
-- that were sent.
use kaillera_client.Prelude.{
  ℕ, suc, ◌-◌, ◌≤◌, ◌<◌, ◌≡◌, refl, ap, sym, subst, List, [], ◌∷◌, Bool, true, false, none, some,
  inl, inr, ◌⊎◌, arith, length, get_elem?, Bool-cases, Option-cases, ltb, ◌==◌, ◌||◌, if◌then◌else◌,
}
use kaillera_client.Containers.Oslist
use kaillera_client.Containers.Oslist.{contents}
use kaillera_client.Containers.Oslist.Laws
use kaillera_client.KMessage.{
  KMessage, Slot, Address, Datagram, receive, ingest, deliver, drop_head, check_recv,
  skip_stale_holes,
}
use kaillera_client.KMessage.Invariant.{drop_head_lem, deliver-IsValid}
use kaillera_client.KMessage.Delivery.{deliver_in_order}
use kaillera_client.KMessage.Track.{
  Matches, Holds, Tracks, without_head, lower, skip_stale_holes-Tracks,
}
use kaillera_client.KMessage.Arrive.{IsBundle, serial_range, ingest-wire_Tracks}

-- Without a message handed out, the head stays or is given up.
deliver-none :
    (m : KMessage) (room : ℕ)
    → (deliver m room false).0 ≡ none
    → ((deliver m room false).1 ≡ m)
      ⊎ ((s : Slot) × (0 < m.in_cache.length) × ((deliver m room false).1 ≡ drop_head m s))
unfolding deliver Oslist.size drop_head
deliver-none m room h = elim (Bool-cases (m.in_cache.length == 0)) [
  | inl e ↦ inl (rw (e, deliver) refl)
  | inr ne ↦ elim (Option-cases (Oslist.get m.in_cache 0)) [
    | inl e ↦ inl (rw (ne, deliver) (rw e refl))
    | inr (s, e) ↦ elim (Option-cases s.body) [
      | inl n ↦ inl (rw (ne, deliver) (rw e (rw n refl)))
      | inr (b, eb) ↦ elim (Bool-cases (s.length == 0 || room == 0)) [
        | inl small ↦ inl (rw (ne, deliver) (rw e (rw eb (rw small refl))))
        | inr some_left ↦ elim (Bool-cases (ltb room s.length)) [
          | inl large ↦
              inr (s, ground arith, rw (ne, deliver) (rw e (rw eb (rw some_left (rw large refl)))))
          | inr fits ↦ absurd (ground arith)
        ]
      ]
    ]
  ]
]

deliver-none-Tracks :
    {msgs : List (List ℕ)} {front : ℕ} {m : KMessage} (room : ℕ)
    → Tracks msgs front m
    → (deliver m room false).0 ≡ none
    → Tracks msgs front (deliver m room false).1
unfolding drop_head
deliver-none-Tracks {msgs} {front} {m} room t h = elim (deliver-none m room h) [
  | inl same ↦ subst (Tracks msgs front) (sym same) t
  | inr (s, l, dropped) ↦
      let (v, c) = drop_head_lem s t.valid l in
      subst (Tracks msgs front) (sym dropped)
        (lower (omega (arith, t.behind)) (without_head t v l refl c))
]

-- The message at the head, which `front` messages stand before, was handed out.
abbrev pub Taken : List (List ℕ) → ℕ → List ℕ → KMessage → Type 0
Taken msgs front b m =
    (j : ℕ) × (front ≤ j) × (get_elem? msgs j ≡ some b) × (j < length msgs) × Tracks msgs (suc j) m

deliver-some-Taken :
    {msgs : List (List ℕ)} {front : ℕ} {m : KMessage} (room : ℕ) (b : List ℕ)
    → Tracks msgs front m
    → (deliver m room false).0 ≡ some b
    → Taken msgs front b (deliver m room false).1
deliver-some-Taken {msgs} {front} {m} room b t h =
    let v = deliver-IsValid room false t.valid in
    let (s, c, eb, serial, processed, last) = deliver_in_order room b t.valid h in
    let behind = t.behind in
    let some_left : 0 < m.in_cache.length =
      omega (arith, ap length c, Laws.length-contents t.valid.cache) in
    let held : Holds msgs (t.upto - m.in_cache.length)
        (s ∷ contents (deliver m room false).1.in_cache) =
      subst (Holds msgs (t.upto - m.in_cache.length)) c t.slots in
    let own : get_elem? msgs (t.upto - m.in_cache.length) ≡ some b =
      subst (Matches msgs (t.upto - m.in_cache.length)) eb held.0 in
    (
      t.upto - m.in_cache.length,
      omega arith,
      own,
      omega (arith, t.sent),
      without_head t v some_left last (sym (ap (Laws.remove_at 0) c)),
    )

-- Datagrams of the two kinds: from the peer, a bundle, and from anyone else, anything.
abbrev pub Genuine : List (List ℕ) → KMessage → Address → List ℕ → Type 0
Genuine msgs m src bytes =
    IsBundle msgs bytes
    ⊎ (((src.s_addr == m.addr.s_addr) ≡ false) ⊎ ((src.sin_port == m.addr.sin_port) ≡ false))

-- What may be polled.
abbrev pub Known : List (List ℕ) → KMessage → Datagram → Type 0
Known msgs m none = Unit
Known msgs m (some (src, bytes)) = Genuine msgs m src bytes

ingest-Tracks :
    {msgs : List (List ℕ)} {front : ℕ} {m : KMessage} (src : Address) (bytes : List ℕ)
    → Tracks msgs front m
    → length msgs ≤ serial_range
    → Genuine msgs m src bytes
    → Tracks msgs front (ingest m src bytes)
unfolding ingest
ingest-Tracks {msgs} {front} {m} src bytes t r (inl (upto, bodies, e, u, w)) =
    subst (λ (x : List ℕ). Tracks msgs front (ingest m src x)) (sym e)
      (ingest-wire_Tracks src upto bodies t r u w)
ingest-Tracks src [] t r (inr f) = t
ingest-Tracks src (count ∷ p) t r (inr (inl f)) = rw f t
ingest-Tracks {m = m} src (count ∷ p) t r (inr (inr f)) =
    elim (Bool-cases (src.s_addr == m.addr.s_addr)) [
      | inl same ↦ rw (same, f) t
      | inr other ↦ rw other t
    ]

receive-Tracks :
    {msgs : List (List ℕ)} {front : ℕ} {m : KMessage} (d : Datagram)
    → Tracks msgs front m
    → length msgs ≤ serial_range
    → Known msgs m d
    → Tracks msgs front (receive m d)
unfolding receive
receive-Tracks {msgs} {front} {m} d t r k = either m.has_data_waiting
  where
    m' : KMessage
    m' = record m { has_data_waiting = false }

    t' : Tracks msgs front m'
    t' = record {
      valid = record { cache = t.valid.cache; last = t.valid.last; window = t.valid.window };
      upto = t.upto;
      sent = t.sent;
      last = t.last;
      behind = t.behind;
      slots = t.slots;
    }

    polled :
        (d : Datagram)
        → Known msgs m d
        → Tracks msgs front (elim d [ none ↦ m' | some (src, bytes) ↦ ingest m' src bytes ])
    polled none k = t'
    polled (some (src, bytes)) k = ingest-Tracks src bytes t' r k

    either :
        (b : Bool)
        → Tracks msgs front
            (if b then elim d [ none ↦ m' | some (src, bytes) ↦ ingest m' src bytes ] else m)
    either true = polled d k
    either false = t

-- `check_recv` hands out no message, or one that comes after those before.
pub check_recv-Tracks :
    {msgs : List (List ℕ)} {front : ℕ} {m : KMessage} (now : ℕ) (d : Datagram) (room : ℕ)
    → Tracks msgs front m
    → length msgs ≤ serial_range
    → Known msgs m d
    → let (out, m') = check_recv now d m room false in
      ((out ≡ none) × Tracks msgs front m')
      ⊎ ((b : List ℕ) × (out ≡ some b) × Taken msgs front b m')
unfolding check_recv
check_recv-Tracks {m = m} now d room t r k =
    let ready = skip_stale_holes-Tracks now (receive-Tracks d t r k) in
    elim (Option-cases (deliver (skip_stale_holes now (receive m d)) room false).0) [
      | inl e ↦ inl (e, deliver-none-Tracks room ready e)
      | inr (b, e) ↦ inr (b, e, deliver-some-Taken room b ready e)
    ]
