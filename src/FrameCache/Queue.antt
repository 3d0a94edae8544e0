-- ===== src/FrameCache/Queue.antt =====
-- common/k_framecache.h: the cache is a queue of bytes, and writes stay inside the allocation.
use kaillera_client.Prelude.{
  ℕ, zero, suc, ◌+◌, ◌-◌, ◌*◌, ◌^◌, ◌≤◌, ◌<◌, ◌≡◌, refl, ap, ◌∙◌, sym, min, List, [], ◌∷◌, ◌++◌,
  Bool, true, false, Option, none, some, arith, length, take, drop, ltb, Bool-cases, ltb→le, leb,
  leb→le, inl, inr, length-append, length-drop, take_of_length-le, drop_of_length-le, append-nil,
  take-min-length,
}
use kaillera_client.FrameCache.{
  FrameCache, pos, int_size, ensure_sized, put_data, peek_data, get_data, reset,
}

-- The bytes in use are inside the allocation; without one there are none.
pub record IsValid (k : FrameCache) : Type 0 where
  pub inside : length k.buffer ≤ k.size
  pub null : k.allocated ≡ false → length k.buffer ≡ 0

pub data Operation : Type 0 where
  put : List ℕ → Operation
  get : ℕ → Operation
  peek : ℕ → Operation
  clear : Operation

-- What the operations hand out, one list for each, and the cache after them.
unfoldable pub run : FrameCache → List Operation → Option (List (List ℕ) × FrameCache)
run k [] = some ([], k)
run k (put bytes ∷ ops) = elim (put_data k bytes) [
  | none ↦ none
  | some k' ↦ elim (run k' ops) [ none ↦ none | some (out, last) ↦ some ([] ∷ out, last) ]
]
run k (get n ∷ ops) = elim (run (get_data k n).1 ops) [
  | none ↦ none
  | some (out, last) ↦ some ((get_data k n).0 ∷ out, last)
]
run k (peek n ∷ ops) = elim (run k ops) [
  | none ↦ none
  | some (out, last) ↦ some (peek_data k n ∷ out, last)
]
run k (clear ∷ ops) = elim (run (reset k) ops) [
  | none ↦ none
  | some (out, last) ↦ some ([] ∷ out, last)
]

-- The same operations on a queue of bytes.
unfoldable pub queue : List ℕ → List Operation → List (List ℕ) × List ℕ
queue q [] = ([], q)
queue q (put bytes ∷ ops) = let r = queue (q ++ bytes) ops in ([] ∷ r.0, r.1)
queue q (get n ∷ ops) = let r = queue (drop n q) ops in (take n q ∷ r.0, r.1)
queue q (peek n ∷ ops) = let r = queue q ops in (take n q ∷ r.0, r.1)
queue q (clear ∷ ops) = let r = queue [] ops in ([] ∷ r.0, r.1)

-- The bytes put in.
abbrev pub put_bytes : List Operation → ℕ
put_bytes [] = 0
put_bytes (put bytes ∷ ops) = length bytes + put_bytes ops
put_bytes (get n ∷ ops) = put_bytes ops
put_bytes (peek n ∷ ops) = put_bytes ops
put_bytes (clear ∷ ops) = put_bytes ops

int_size_lem : (n : ℕ) → n < 2 ^ 31 → int_size n ≡ some n
unfolding int_size
int_size_lem n h = ground arith

-- Enough is allocated, and nothing else changes.
ensure_sized_lem :
    (k : FrameCache) (want : ℕ)
    → want ≤ 2 ^ 28
    → (n : ℕ) × (ensure_sized k want ≡ some (record k { size = n; allocated = true })) × (want ≤ n)
unfolding ensure_sized
ensure_sized_lem k want h = elim (Bool-cases k.allocated) [
  | inr fresh ↦ (want * 6, rw (fresh, int_size_lem (want * 6) (omega arith)) refl, omega arith)
  | inl there ↦ elim (Bool-cases (ltb k.size want)) [
    | inl small ↦
        let big : ensure_sized k want ≡ some (record k { size = want * 2 }) =
          simp (there, small, int_size_lem (want * 2) (omega arith)) in
        (
          want * 2,
          big ∙ ap (λ (b : Bool). some (record k { size = want * 2; allocated = b })) there,
          omega arith,
        )
    | inr fits ↦
        let kept : ensure_sized k want ≡ some k = simp (there, fits) in
        (
          k.size,
          kept ∙ ap (λ (b : Bool). some (record k { allocated = b })) there,
          ltb→le k.size want fits,
        )
  ]
]

pub put_data_lem :
    {k : FrameCache} (bytes : List ℕ)
    → IsValid k
    → length k.buffer + length bytes ≤ 2 ^ 28
    → (k' : FrameCache) × (put_data k bytes ≡ some k')
      × (k'.buffer ≡ k.buffer ++ bytes)
      × IsValid k'
unfolding put_data
put_data_lem {k} [] v h = (k, refl, sym (append-nil k.buffer), v)
put_data_lem {k} (b ∷ bytes) v h =
    let (n, e, l) = ensure_sized_lem k (pos k + length (b ∷ bytes)) h in
    let more : ltb 0 (length (b ∷ bytes)) ≡ true = ground arith in
    (
      record { buffer = k.buffer ++ b ∷ bytes; size = n; allocated = true },
      rw (more, e) refl,
      refl,
      record { inside = omega (arith, length-append k.buffer (b ∷ bytes)); null = λ f. cc },
    )

drop-min-length : (n : ℕ) (xs : List ℕ) → drop (min n (length xs)) xs ≡ drop n xs
drop-min-length n xs = elim (Bool-cases (leb n (length xs))) [
  | inl l ↦ let e : min n (length xs) ≡ n = omega (arith, leb→le n (length xs) l) in rw e
  | inr g ↦
      let e : min n (length xs) ≡ length xs = ground arith in
      rw e (
        drop_of_length-le (length xs) xs (omega arith)
        ∙ sym (drop_of_length-le n xs (ground arith)))
]

-- With nothing to copy, the front is empty and all stays.
nothing_taken :
    (n : ℕ) (xs : List ℕ) → ltb 0 (min n (length xs)) ≡ false → (take n xs ≡ []) × (drop n xs ≡ xs)
nothing_taken zero xs h = (refl, refl)
nothing_taken (suc n) [] h = (refl, refl)
nothing_taken (suc n) (x ∷ xs) h = absurd (ground arith)

pub get_data_lem :
    (k : FrameCache) (n : ℕ)
    → get_data k n ≡ (take n k.buffer, record k { buffer = drop n k.buffer })
unfolding get_data
get_data_lem k n =
    let x = min n (length k.buffer) in
    elim (Bool-cases (ltb 0 x)) [
      | inl more ↦
          let rest : take (length k.buffer - x) (drop n k.buffer) ≡ drop n k.buffer =
            take_of_length-le (length k.buffer - x) (drop n k.buffer)
              (omega (arith, length-drop n k.buffer)) in
          simp (more, rest, take-min-length n k.buffer, drop-min-length n k.buffer)
      | inr none_left ↦ let (t, d) = nothing_taken n k.buffer none_left in simp (none_left, t, d)
    ]

peek_data_lem : (k : FrameCache) (n : ℕ) → peek_data k n ≡ take n k.buffer
unfolding peek_data
peek_data_lem k n = elim (Bool-cases (ltb 0 (min n (length k.buffer)))) [
  | inl more ↦ simp (more, take-min-length n k.buffer)
  | inr none_left ↦ simp (none_left, (nothing_taken n k.buffer none_left).0)
]

-- On a valid cache, any run of operations that puts in 256 MB at most, what the cache holds
-- included, completes, hands out what a queue of bytes hands out, and leaves what the queue holds,
-- with all bytes in use inside the allocation.
pub run-queue :
    {k : FrameCache} (ops : List Operation)
    → IsValid k
    → length k.buffer + put_bytes ops ≤ 2 ^ 28
    → (last : FrameCache) × (run k ops ≡ some ((queue k.buffer ops).0, last))
      × (last.buffer ≡ (queue k.buffer ops).1)
      × IsValid last
unfolding run queue reset
run-queue {k} [] v h = (k, refl, refl, v)
run-queue {k} (put bytes ∷ ops) v h =
    let (k', e, b, v') = put_data_lem {k = k} bytes v (omega arith) in
    let (last, r, q, w) =
      run-queue {k = k'} ops v' (omega (arith, ap length b, length-append k.buffer bytes)) in
    (
      last,
      rw (e, run) (rw (r, run) (ap (λ (x : List ℕ). some ([] ∷ (queue x ops).0, last)) b)),
      q ∙ ap (λ (x : List ℕ). (queue x ops).1) b,
      w,
    )
run-queue {k} (get n ∷ ops) v h =
    let small = length-drop n k.buffer in
    let (last, r, q, w) =
      run-queue {k = record k { buffer = drop n k.buffer }} ops
        (record { inside = omega (arith, v.inside); null = λ f. omega (arith, v.null f) })
        (omega arith) in
    (
      last,
      rw (get_data_lem k n, run)
          (rw (r, run) (rw (ap (λ (p : List ℕ × FrameCache). p.0) (get_data_lem k n)) refl)),
      q,
      w,
    )
run-queue {k} (peek n ∷ ops) v h =
    let (last, r, q, w) = run-queue {k = k} ops v h in
    (last, rw (r, peek_data_lem k n, run) refl, q, w)
run-queue {k} (clear ∷ ops) v h =
    let (last, r, q, w) =
      run-queue {k = record k { buffer = [] }} ops
        (record { inside = omega arith; null = λ f. refl }) (omega arith) in
    (last, rw (r, run) refl, q, w)
