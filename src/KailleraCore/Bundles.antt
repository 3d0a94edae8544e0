-- ===== src/KailleraCore/Bundles.antt =====
-- kcore/kaillera_core.cpp, `kaillera_ProcessGameInstruction`: a bundle of frames and the queue.
use native.Mathlib.Nat.{add-mul-div_left, zero-div}
use kaillera_client.Prelude.{
  Bool-cases, inl, inr, ◌⊎◌, ==→eq, ℕ, zero, suc, ◌+◌, ◌*◌, ◌/◌, ◌≤◌, ◌<◌, ◌^◌, ◌≡◌, refl, ap, ◌∙◌,
  sym, List, [], ◌∷◌, ◌++◌, true, false, some, arith, length, take, drop, append_assoc, append-nil,
  length-append, take-append, drop-append, lt→ltb, le→ltb, lt→leb, le16, get_elem?, ==_refl, ◌==◌,
}
use kaillera_client.Containers.Oslist
use kaillera_client.Containers.Oslist.{Oslist, contents}
use kaillera_client.Containers.Oslist.Laws
use kaillera_client.KInstruction.{KInstruction, load_bytes}
use kaillera_client.KInstruction.Fields.{load_numbers, load_bytes_lem}
use kaillera_client.KailleraCore.General.{Env, Cursor, array, moved, short, start}
use kaillera_client.KailleraCore.Game.{
  store_bundle, take_block, push, queue_size, queue_slices, queue_frames, on_gamedata,
}
use kaillera_client.KailleraCore.{Core}

-- Frames of `n` bytes each.
abbrev pub AllOf : ℕ → List (List ℕ) → Type 0
AllOf n [] = Unit
AllOf n (frame ∷ frames) = (length frame ≡ n) × AllOf n frames

abbrev pub flatten : List (List ℕ) → List ℕ
flatten [] = []
flatten (frame ∷ frames) = frame ++ flatten frames

pub length-flatten :
    (n : ℕ) (frames : List (List ℕ)) → AllOf n frames → length (flatten frames) ≡ length frames * n
length-flatten n [] a = omega arith
length-flatten n (frame ∷ frames) a =
    omega (arith, length-append frame (flatten frames), a.0, length-flatten n frames a.1)

-- The queue with more at its end.
abbrev pub Queued : Oslist (List ℕ) → List (List ℕ) → Oslist (List ℕ) → Type 0
Queued q more q' =
    (contents q' ≡ contents q ++ more)
    × Laws.IsValid queue_size q'
    × (q'.length ≡ q.length + length more)

push-Queued :
    (q : Oslist (List ℕ)) (item : List ℕ)
    → Laws.IsValid queue_size q
    → q.length < queue_size
    → (q' : Oslist (List ℕ)) × (push q item ≡ some q') × Queued q (item ∷ []) q'
unfolding push Oslist.size Oslist.add
push-Queued q item v h =
    let (e, v') = Laws.contents-add item v h in
    (Oslist.add q item, rw (lt→ltb q.length queue_size h), (e, v', refl))

-- One step of the loop, with the frame in front.
queue_slices-suc :
    (fuel n : ℕ) (frame rest : List ℕ) (q q' : Oslist (List ℕ))
    → 0 < n
    → length frame ≡ n
    → push q frame ≡ some q'
    → queue_slices (suc fuel) n (frame ++ rest) q ≡ queue_slices fuel n rest q'
unfolding queue_slices
queue_slices-suc fuel n [] rest q q' h e p = absurd (omega (arith, e))
queue_slices-suc fuel n (b ∷ frame) rest q q' h e p =
    let t : take n (b ∷ (frame ++ rest)) ≡ b ∷ frame =
      ap (λ m. take m (b ∷ (frame ++ rest))) (sym e) ∙ take-append (b ∷ frame) rest in
    let d : drop n (b ∷ (frame ++ rest)) ≡ rest =
      ap (λ m. drop m (b ∷ (frame ++ rest))) (sym e) ∙ drop-append (b ∷ frame) rest in
    let z : (n == 0) ≡ false = ground (arith, h) in
    let long =
      le→ltb (length (b ∷ (frame ++ rest))) n (omega (arith, e, length-append frame rest)) in
    rw (queue_slices, z, long, t, d, p)

pub queue_slices_lem :
    (fuel n : ℕ) (frames : List (List ℕ)) (q : Oslist (List ℕ))
    → 0 < n
    → AllOf n frames
    → length frames < fuel
    → Laws.IsValid queue_size q
    → q.length + length frames ≤ queue_size
    → (q' : Oslist (List ℕ)) × (queue_slices fuel n (flatten frames) q ≡ some q')
      × Queued q frames q'
unfolding queue_slices
queue_slices_lem zero n frames q h a f v r = absurd (omega (arith, f))
queue_slices_lem (suc fuel) n [] q h a f v r =
    (q, refl, (sym (append-nil (contents q)), v, omega arith))
queue_slices_lem (suc fuel) n (frame ∷ frames) q h a f v r =
    let (q1, p, (c1, v1, l1)) = push-Queued q frame v (omega (arith, r)) in
    let (q2, e, (c2, v2, l2)) =
      queue_slices_lem fuel n frames q1 h a.1 (omega (arith, f)) v1 (omega (arith, l1, r)) in
    (
      q2,
      queue_slices-suc fuel n frame (flatten frames) q q1 h a.0 p ∙ e,
      (
        c2
            ∙ ap (λ (t : List (List ℕ)). t ++ frames) c1
            ∙ append_assoc (contents q) (frame ∷ []) frames,
        v2,
        omega (arith, l1, l2),
      ),
    )

times_div : (y n : ℕ) → 0 < y → y * n / y ≡ n
times_div y n h =
    let left : y * n ≡ 0 + y * n = omega arith in
    let right : 0 / y + n ≡ n = omega (arith, zero-div y) in
    ap (λ t. t / y) left ∙ add-mul-div_left 0 n h ∙ right

length-array : (f : ℕ → ℕ) (n : ℕ) → length (array f n) ≡ n
length-array f zero = refl
length-array f (suc n) = ap suc (length-array f n)

-- As many frames as there are players, all of one size, and room for them.
pub record Bundle (c : Core) (n : ℕ) (frames : List (List ℕ)) : Type 0 where
  pub one_size : AllOf n frames
  pub some_bytes : 0 < n
  pub counted : length frames ≡ c.conset
  pub settings : 0 < c.conset
  pub queue : Laws.IsValid queue_size c.gv_queue
  pub room : c.gv_queue.length + c.conset ≤ queue_size

frames_fuel :
    (n : ℕ) (frames : List (List ℕ))
    → 0 < n
    → AllOf n frames
    → length frames ≤ length (flatten frames)
frames_fuel n [] h a = omega arith
frames_fuel n (frame ∷ frames) h a =
    omega (arith, length-append frame (flatten frames), a.0, frames_fuel n frames h a.1)

pub queue_frames_lem :
    (c : Core) (n : ℕ) (frames : List (List ℕ))
    → Bundle c n frames
    → (q' : Oslist (List ℕ)) × (queue_frames c (flatten frames) ≡ some (record c { gv_queue = q' }))
      × Queued c.gv_queue frames q'
unfolding queue_frames
queue_frames_lem c n frames b =
    let (q', e, queued) =
      queue_slices_lem (suc (length (flatten frames))) n frames c.gv_queue b.some_bytes b.one_size
        (omega (arith, frames_fuel n frames b.some_bytes b.one_size)) b.queue
        (omega (arith, b.counted, b.room)) in
    let size : length (flatten frames) / c.conset ≡ n =
      ap (λ t. t / c.conset) (length-flatten n frames b.one_size ∙ ap (λ t. t * n) b.counted)
      ∙ times_div c.conset n b.settings in
    let z : (c.conset == 0) ≡ false = ground (arith, b.settings) in (q', rw (z, size, e), queued)

-- The length in front of a bundle.
bundle_short :
    (e : Env) (k : KInstruction) (len : ℕ) (bytes : List ℕ)
    → k.buffer ≡ le16 len ++ bytes
    → len < 2 ^ 16
    → short e (start k) ≡ (len, moved (start k) (record k { buffer = bytes }))
bundle_short e k len bytes h l =
    let n =
      load_numbers k 0 len 0 bytes (0 ∷ 0 ∷ 0 ∷ 0 ∷ []) (array (e.garbage 0) 2) (0 ∷ [])
        (omega arith) l (omega arith) refl refl refl in
    ap (λ (b : List ℕ). short e (start (record k { buffer = b }))) h
    ∙ ap (λ (r : ℕ × KInstruction). (r.0, moved (start k) r.1)) n.1

-- Below its capacity the cache keeps every block; when it is full it gives up the oldest one.
abbrev pub Cached : Oslist (List ℕ) → List ℕ → Oslist (List ℕ) → Type 0
Cached cache bytes cache' =
    ((cache.length < queue_size) × (contents cache' ≡ contents cache ++ bytes ∷ []))
    ⊎ ((cache.length ≡ queue_size)
        × (contents cache' ≡ Laws.remove_at 0 (contents cache) ++ bytes ∷ []))

-- Room for a block of `len` bytes.
abbrev pub Replaceable : Oslist (List ℕ) → ℕ → Type 0
Replaceable cache len =
    (cache.length < queue_size)
    ⊎ ((old : List ℕ) × (get_elem? (contents cache) 0 ≡ some old) × (length old ≡ len))

take_block_lem :
    (e : Env) (p : Cursor) (len : ℕ) (cache : Oslist (List ℕ))
    → Laws.IsValid queue_size cache
    → Replaceable cache len
    → (out : List ℕ) × (cache1 : Oslist (List ℕ)) × (take_block e p len cache ≡ some (out, cache1))
      × (length out ≡ len)
      × Laws.IsValid queue_size cache1
      × (cache1.length < queue_size)
      × (((cache.length < queue_size) × (contents cache1 ≡ contents cache))
          ⊎ ((cache.length ≡ queue_size) × (contents cache1 ≡ Laws.remove_at 0 (contents cache))))
unfolding take_block Oslist.size
take_block_lem e p len cache v r = elim (Bool-cases (cache.length == queue_size)) [
  | inr below ↦
      let lt : cache.length < queue_size = ground (arith, below, v.bounded) in
      (
        array (e.garbage p.locals) len,
        cache,
        rw below,
        length-array (e.garbage p.locals) len,
        v,
        lt,
        inl (lt, refl),
      )
  | inl full ↦ elim r [
    | inl lt ↦ absurd (omega (arith, ==→eq cache.length queue_size full, lt))
    | inr (old, g, l) ↦
        let eq = ==→eq cache.length queue_size full in
        let h : 0 < cache.length = omega (arith, eq) in
        let (c, v') = Laws.contents-removei 0 v h in
        let same : (length old == len) ≡ true = rw l (==_refl len) in
        (
          old,
          Oslist.removei cache 0,
          rw (full, Laws.get-contents cache 0 h, g, same),
          l,
          v',
          omega (arith, Laws.length-removei cache 0 h, eq),
          inr (eq, c),
        )
  ]
]

-- The rest of `GAMEDATA`, behind the length.
store_bundle_lem :
    (e : Env) (c : Core) (p : Cursor) (n : ℕ) (frames : List (List ℕ))
    → Bundle c n frames
    → Laws.IsValid queue_size c.incoming_data_cache
    → Replaceable c.incoming_data_cache (length (flatten frames))
    → length (flatten frames) < 2 ^ 15
    → p.message.buffer ≡ flatten frames
    → (cache' q' : Oslist (List ℕ)) × (store_bundle e c (length (flatten frames)) p
        ≡ some (record c { incoming_data_cache = cache'; gv_queue = q' }))
      × Queued c.gv_queue frames q'
      × Cached c.incoming_data_cache (flatten frames) cache'
      × Laws.IsValid queue_size cache'
unfolding store_bundle
store_bundle_lem e c p n frames b v r small h =
    let bytes = flatten frames in
    let (out, cache1, te, lo, v1, l1, kept) =
      take_block_lem e p (length bytes) c.incoming_data_cache v r in
    let loaded : (load_bytes p.message out (length bytes)).0 ≡ bytes =
      ap (λ (t : List ℕ). (load_bytes (record (p.message) { buffer = t }) out (length bytes)).0)
        (h ∙ sym (append-nil bytes))
      ∙ ap (λ (t : List ℕ × KInstruction). t.0) (load_bytes_lem p.message bytes [] out lo) in
    let (cache2, pe, (ce, v2, l2)) = push-Queued cache1 bytes v1 l1 in
    let (q', qe, (qc, qv, ql)) =
      queue_frames_lem (record c { incoming_data_cache = cache2 }) n frames
        (record {
          one_size = b.one_size;
          some_bytes = b.some_bytes;
          counted = b.counted;
          settings = b.settings;
          queue = b.queue;
          room = b.room;
        }) in
    let big = lt→leb (2 ^ 15) (length bytes) small in
    (
      cache2,
      q',
      rw (big, te, loaded, pe) qe,
      (qc, qv, ql),
      elim kept [
        | inl (lt, same) ↦ inl (lt, ce ∙ ap (λ (t : List (List ℕ)). t ++ bytes ∷ []) same)
        | inr (eq, gone) ↦ inr (eq, ce ∙ ap (λ (t : List (List ℕ)). t ++ bytes ∷ []) gone)
      ],
      v2,
    )

pub on_gamedata_lem :
    (e : Env) (c : Core) (k : KInstruction) (n : ℕ) (frames : List (List ℕ))
    → Bundle c n frames
    → Laws.IsValid queue_size c.incoming_data_cache
    → Replaceable c.incoming_data_cache (length (flatten frames))
    → length (flatten frames) < 2 ^ 15
    → k.buffer ≡ le16 (length (flatten frames)) ++ flatten frames
    → (cache' q' : Oslist (List ℕ)) × (on_gamedata e c k
        ≡ some (record c { incoming_data_cache = cache'; gv_queue = q' }))
      × Queued c.gv_queue frames q'
      × Cached c.incoming_data_cache (flatten frames) cache'
      × Laws.IsValid queue_size cache'
unfolding on_gamedata
on_gamedata_lem e c k n frames b v r small h =
    let bytes = flatten frames in
    let p = moved (start k) (record k { buffer = bytes }) in
    let s = bundle_short e k (length bytes) bytes h (omega (arith, small)) in
    let (cache', q', stored, queued, cached, v') =
      store_bundle_lem e c p n frames b v r small refl in
    (cache', q', ap (λ (t : ℕ × Cursor). store_bundle e c t.0 t.1) s ∙ stored, queued, cached, v')
