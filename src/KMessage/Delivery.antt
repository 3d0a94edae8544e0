-- ===== src/KMessage/Delivery.antt =====
-- kcore/k_message.h, `skip_stale_holes`, `has_data` and the end of `check_recv`: messages are
-- delivered in the order of their serials, and the queue never gets stuck.
use kaillera_client.Prelude.{
  ℕ, zero, suc, ◌+◌, ◌-◌, ◌%◌, ◌^◌, ◌≤◌, ◌<◌, ◌≡◌, refl, ap, ◌∙◌, sym, subst, List, [], ◌∷◌, Option,
  Bool, true, false, not, ◌&&◌, ◌||◌, none, some, arith, length, take, get_elem?, ltb, ◌==◌,
  if◌then◌else◌, inl, inr, Bool-cases, Option-cases, ltb→lt, le→ltb, take_of_length-le, ◌≢◌,
}
use mathlib.Core.Option.{some-injective}
use kaillera_client.Containers.Oslist
use kaillera_client.Containers.Oslist.{Oslist, contents}
use kaillera_client.Containers.Oslist.Laws
use kaillera_client.KMessage.{
  Slot, KMessage, Datagram, max_length, hole_skip_ms, sub16, is_hole, drop_holes, head_ready,
  skip_stale_holes, receive, drop_head, deliver, check_recv, has_data,
}
use kaillera_client.KMessage.Window.{SlotOk, Window}
use kaillera_client.KMessage.Invariant.{IsValid, drop_head_lem, skip_stale_holes-IsValid}

-- With rounds enough, the head is not a hole when the loop ends.
drop_holes-head_ready :
    (fuel : ℕ) (m : KMessage)
    → m.in_cache.length ≤ fuel
    → head_ready (drop_holes fuel m).in_cache ≡ true
unfolding drop_holes head_ready Oslist.size
drop_holes-head_ready zero m h = ground arith
drop_holes-head_ready (suc fuel) m h = elim (Bool-cases (ltb 0 m.in_cache.length)) [
  | inr none_left ↦ rw (none_left, drop_holes) (ground arith)
  | inl more ↦
      rw (more, drop_holes)
        (elim (Option-cases (Oslist.get m.in_cache 0)) [
          | inl e ↦ rw e (ground arith)
          | inr (s, e) ↦ rw e (elim (Bool-cases (is_hole s)) [
            | inr full ↦ rw full (ground arith)
            | inl hole ↦ rw hole (
                drop_holes-head_ready fuel _ (
                  omega
                    (arith, Laws.length-removei m.in_cache 0 (ltb→lt 0 m.in_cache.length more))))
          ])
        ])
]

-- A hole at the head of the queue that has been seen for 250 ms is given up: what stands at the
-- head afterwards, if anything, is a message.
pub skip_stale_holes_lem :
    (now : ℕ) (m : KMessage)
    → m.hole_pending ≡ true
    → hole_skip_ms ≤ (now + 2 ^ 32 - m.hole_since) % 2 ^ 32
    → head_ready (skip_stale_holes now m).in_cache ≡ true
unfolding skip_stale_holes Oslist.size
skip_stale_holes_lem now m p h =
    let d = drop_holes-head_ready m.in_cache.length m (omega arith) in ground arith

-- The message at the head of a valid queue.
head_lem :
    {m : KMessage} (s : Slot)
    → IsValid m
    → 0 < m.in_cache.length
    → Oslist.get m.in_cache 0 ≡ some s
    → (s.serial ≡ sub16 m.last_cached_instruction (m.in_cache.length - 1)) × SlotOk s.body s.length
head_lem {m} s v h e =
    go (contents m.in_cache) (Laws.length-contents v.cache)
      (sym (Laws.get-contents m.in_cache 0 h) ∙ e) v.window
  where
    go :
        (slots : List Slot)
        → length slots ≡ m.in_cache.length
        → get_elem? slots 0 ≡ some s
        → Window m.last_cached_instruction slots
        → (s.serial ≡ sub16 m.last_cached_instruction (m.in_cache.length - 1))
          × SlotOk s.body s.length
    go [] l e w = cc
    go (t ∷ slots) l e w =
        subst
          (λ (x : Slot).
            (x.serial ≡ sub16 m.last_cached_instruction (m.in_cache.length - 1))
            × SlotOk x.body x.length)
          (some-injective t s e) (w.0 ∙ ap (sub16 m.last_cached_instruction) (omega arith), w.1)

head_exists :
    {m : KMessage}
    → IsValid m
    → 0 < m.in_cache.length
    → (s : Slot) × (Oslist.get m.in_cache 0 ≡ some s)
head_exists {m} v h =
    let (s, e) = go (contents m.in_cache) (omega (arith, Laws.length-contents v.cache)) in
    (s, Laws.get-contents m.in_cache 0 h ∙ e)
  where
    go : (slots : List Slot) → 0 < length slots → (s : Slot) × (get_elem? slots 0 ≡ some s)
    go [] l = absurd (omega arith)
    go (t ∷ slots) l = (t, refl)

-- The result of `deliver` once the head and its message are known.
deliver_known :
    (m : KMessage) (room : ℕ) (leave : Bool) (s : Slot) (bytes : List ℕ)
    → Oslist.get m.in_cache 0 ≡ some s
    → s.body ≡ some bytes
    → 0 < m.in_cache.length
    → 0 < s.length
    → s.length ≤ room
    → deliver m room leave ≡ (
      some (take s.length bytes),
      if leave then m else drop_head (record m { last_processed_instruction = s.serial }) s,
    )
unfolding deliver Oslist.size
deliver_known m room leave s bytes e b h p c =
    let z : (m.in_cache.length == 0) ≡ false = ground arith in
    let y : (s.length == 0 || room == 0) ≡ false = ground arith in
    let x : ltb room s.length ≡ false = le→ltb room s.length c in rw z (rw e (simp b (rw y (rw x))))

-- When the queue is valid and its head is a message, a caller with room for 20000 bytes is given
-- that message.
deliver_ready :
    {m : KMessage} (room : ℕ) (leave : Bool)
    → IsValid m
    → head_ready m.in_cache ≡ true
    → 0 < m.in_cache.length
    → max_length ≤ room
    → (bytes : List ℕ) × (0 < length bytes) × ((deliver m room leave).0 ≡ some bytes)
unfolding head_ready Oslist.size
deliver_ready {m} room leave v r h c =
    let (s, e) = head_exists v h in
    let (serial, ok) = head_lem s v h e in given s e (λ hole. ground arith) s.body refl ok
  where
    given :
        (s : Slot)
        → Oslist.get m.in_cache 0 ≡ some s
        → s.body ≢ none
        → (b : Option (List ℕ)) → s.body ≡ b
        → SlotOk b s.length
        → (bytes : List ℕ) × (0 < length bytes) × ((deliver m room leave).0 ≡ some bytes)
    given s e full none eb ok = absurd (full eb)
    given s e full (some bytes) eb ok = (
      bytes,
      ok.1,
      ap (λ (r : Option (List ℕ) × KMessage). r.0)
            (deliver_known m room leave s bytes e eb h (omega arith) (omega arith))
          ∙ ap some (take_of_length-le s.length bytes (omega arith)),
    )

-- Skipping holes does not touch the flag of the socket.
waiting-drop_holes :
    (fuel : ℕ) (m : KMessage) → (drop_holes fuel m).has_data_waiting ≡ m.has_data_waiting
unfolding drop_holes
waiting-drop_holes zero m = refl
waiting-drop_holes (suc fuel) m = elim (Bool-cases (ltb 0 (Oslist.size m.in_cache))) [
  | inr none_left ↦ rw (none_left, drop_holes)
  | inl more ↦
      rw (more, drop_holes)
        (elim (Option-cases (Oslist.get m.in_cache 0)) [
          | inl e ↦ rw e
          | inr (s, e) ↦ rw e (elim (Bool-cases (is_hole s)) [
            | inr full ↦ rw full
            | inl hole ↦ rw hole (waiting-drop_holes fuel _)
          ])
        ])
]

waiting_kept :
    (now : ℕ) (m : KMessage) → (skip_stale_holes now m).has_data_waiting ≡ m.has_data_waiting
unfolding skip_stale_holes
waiting_kept now m = let d = waiting-drop_holes (Oslist.size m.in_cache) m in ground arith

receive_idle : (m : KMessage) (d : Datagram) → m.has_data_waiting ≡ false → receive m d ≡ m
unfolding receive
receive_idle m d h = simp h

skip_ready :
    (now : ℕ) (m : KMessage)
    → head_ready m.in_cache ≡ true
    → skip_stale_holes now m ≡ record m { hole_pending = false }
unfolding skip_stale_holes
skip_ready now m h = simp h

-- `has_data` keeps its promise on a valid queue: if it says true and no datagram is waiting, then
-- `check_recv` at the same tick hands out a message to a caller with room for 20000 bytes.
pub has_data-check_recv :
    {m : KMessage} (now : ℕ) (d : Datagram) (room : ℕ) (leave : Bool)
    → IsValid m
    → m.has_data_waiting ≡ false
    → max_length ≤ room
    → (has_data now m).0 ≡ true
    → (bytes : List ℕ) × (0 < length bytes)
      × ((check_recv now d (has_data now m).1 room leave).0 ≡ some bytes)
unfolding has_data check_recv receive head_ready Oslist.size
has_data-check_recv {m} now d room leave v idle c h =
    let q = skip_stale_holes now m in
    let vq = skip_stale_holes-IsValid now v in
    let (r, l) = ready q (said q h (waiting_kept now m ∙ idle)) in
    let (bytes, p, e) =
      deliver_ready {m = record q { hole_pending = false }} room leave
        (record { cache = vq.cache; last = vq.last; window = vq.window }) r l c in
    (
      bytes,
      p,
      ap (λ (n : KMessage). (deliver (skip_stale_holes now n) room leave).0)
            (receive_idle q d (waiting_kept now m ∙ idle))
          ∙ ap (λ (n : KMessage). (deliver n room leave).0) (skip_ready now q r)
          ∙ e,
    )
  where
    said :
        (q : KMessage)
        → (if ltb 0 q.in_cache.length && elim (Oslist.get q.in_cache 0) as (λ _. Bool) [
          | none ↦ false
          | some s ↦ not (is_hole s)
        ]
            then true
            else q.has_data_waiting)
          ≡ true
        → q.has_data_waiting ≡ false
        → (ltb 0 q.in_cache.length && elim (Oslist.get q.in_cache 0) as (λ _. Bool) [
          | none ↦ false
          | some s ↦ not (is_hole s)
        ])
          ≡ true
    said q h w = ground arith

    ready :
        (q : KMessage)
        → (ltb 0 q.in_cache.length && elim (Oslist.get q.in_cache 0) as (λ _. Bool) [
          | none ↦ false
          | some s ↦ not (is_hole s)
        ])
          ≡ true
        → (head_ready q.in_cache ≡ true) × (0 < q.in_cache.length)
    ready q h = ground arith

-- What has to hold for a message to be handed out.
deliver_inv :
    (m : KMessage) (room : ℕ) (leave : Bool) (bytes : List ℕ)
    → (deliver m room leave).0 ≡ some bytes
    → (s : Slot) × (b : List ℕ) × (Oslist.get m.in_cache 0 ≡ some s)
      × (s.body ≡ some b)
      × (0 < m.in_cache.length)
      × (0 < s.length)
      × (s.length ≤ room)
unfolding deliver Oslist.size
deliver_inv m room leave bytes h = elim (Option-cases (Oslist.get m.in_cache 0)) [
  | inl e ↦ absurd (ground arith)
  | inr (s, e) ↦ elim (Option-cases s.body) [
    | inl n ↦ absurd (ground arith)
    | inr (b, eb) ↦ (s, b, e, eb, ground arith, ground arith, ground arith)
  ]
]

cons_head :
    (slots : List Slot) (s : Slot) → get_elem? slots 0 ≡ some s → slots ≡ s ∷ Laws.remove_at 0 slots
cons_head [] s h = cc
cons_head (t ∷ slots) s h = ap (λ (x : Slot). x ∷ slots) (some-injective t s h)

-- From `m`, the message `bytes` was taken off the head of the queue, and `m'` is what is left.
abbrev pub TakenInOrder : KMessage → List ℕ → KMessage → Type 0
TakenInOrder m bytes m' =
    (s : Slot) × (contents m.in_cache ≡ s ∷ contents m'.in_cache)
    × (s.body ≡ some bytes)
    × (s.serial ≡ sub16 m.last_cached_instruction (length (contents m'.in_cache)))
    × (m'.last_processed_instruction ≡ s.serial)
    × (m'.last_cached_instruction ≡ m.last_cached_instruction)

-- What `check_recv` hands out with `leave_in_queue` false is the message at the head of the queue:
-- its serial is the one in turn, becomes `last_processed_instruction`, and the rest of the queue
-- stays as it is.
pub deliver_in_order :
    {m : KMessage} (room : ℕ) (bytes : List ℕ)
    → IsValid m
    → (deliver m room false).0 ≡ some bytes
    → TakenInOrder m bytes (deliver m room false).1
unfolding drop_head
deliver_in_order {m} room bytes v h =
    let (s, b, e, eb, l, p, c) = deliver_inv m room false bytes h in
    let k = deliver_known m room false s b e eb l p c in
    let done = record m { last_processed_instruction = s.serial } in
    let (dv, dc) =
      drop_head_lem {m = done} s (record { cache = v.cache; last = v.last; window = v.window }) l in
    let (serial, ok) = head_lem s v l e in
    let full : b ≡ bytes =
      whole s b ok eb (ap (λ (r : Option (List ℕ) × KMessage). r.0) (sym k) ∙ h) in
    let front = cons_head (contents m.in_cache) s (sym (Laws.get-contents m.in_cache 0 l) ∙ e) in
    let rest = front ∙ ap (◌∷◌ s) (sym dc) in
    let count = Laws.length-contents v.cache in
    subst (TakenInOrder m bytes) (ap (λ (r : Option (List ℕ) × KMessage). r.1) (sym k)) (
      s,
      rest,
      eb ∙ ap some full,
      serial ∙ ap (sub16 m.last_cached_instruction) (omega (arith, ap length rest, count)),
      refl,
      refl,
    )
  where
    whole :
        (s : Slot) (b : List ℕ)
        → SlotOk s.body s.length
        → s.body ≡ some b
        → some (take s.length b) ≡ some bytes
        → b ≡ bytes
    whole s b ok eb t =
        sym (take_of_length-le s.length b (fits s.body ok eb))
        ∙ some-injective (take s.length b) bytes t
      where
        fits : (o : Option (List ℕ)) → SlotOk o s.length → o ≡ some b → length b ≤ s.length
        fits none ok e = cc
        fits (some a) ok e = rw (← some-injective a b e) (omega arith)
