-- ===== src/KInstruction/Strings.antt =====
-- kcore/k_instruction.h, `load_str`: a string is taken whole, and as much of it is kept as fits.
use kaillera_client.Prelude.{
  ℕ, zero, suc, ◌+◌, ◌-◌, ◌≤◌, ◌≡◌, refl, ap, ◌∙◌, sym, List, [], ◌∷◌, ◌++◌, min, arith, length,
  length-append, take, drop, set, strlen-append, NoNul, lt→ltb, Bool-cases, inl, inr, ltb, false,
  length-take, length-drop, if◌then◌else◌, drop-drop, ◌==◌, min_left, ltb→lt, ltb→le,
  drop-append_suc, take_of_length-le, length-set, c_str, c_str-take, set-take-drop,
}
use kaillera_client.KInstruction.{
  KInstruction, buffer_pos, load_bytes, skip_chunks, string_extent, skip_str, load_str,
}

-- A load of no more than there is copies the front of the payload over the front of the array,
-- and takes it off the payload.
load_front :
    (k : KInstruction) (out : List ℕ) (n : ℕ)
    → n ≤ buffer_pos k
    → load_bytes k out n ≡ (take n k.buffer ++ drop n out, record k { buffer = drop n k.buffer })
unfolding load_bytes
load_front k out zero h = elim (Bool-cases (buffer_pos k == 0)) [
  | inl e ↦ rw e
  | inr e ↦ rw (e, min_left 0 (buffer_pos k) h)
]
load_front k out (suc n) h =
    let e : (buffer_pos k == 0) ≡ false = ground arith in rw (e, min_left (suc n) (buffer_pos k) h)

-- Given enough rounds, the skipping loop takes the bytes asked for.
skip_chunks_lem :
    (fuel n : ℕ) (scratch : List ℕ) (k : KInstruction)
    → n ≤ fuel
    → n ≤ buffer_pos k
    → skip_chunks fuel n scratch k ≡ record k { buffer = drop n k.buffer }
unfolding skip_chunks
skip_chunks_lem zero zero scratch k h l = refl
skip_chunks_lem zero (suc n) scratch k h l = absurd (omega arith)
skip_chunks_lem (suc fuel) zero scratch k h l = refl
skip_chunks_lem (suc fuel) (suc n) scratch k h l =
    let chunk = min 256 (suc n) in
    let k' = record k { buffer = drop chunk k.buffer } in
    let e : chunk + (suc n - chunk) ≡ suc n = omega arith in
    rw (lt→ltb 0 (suc n) (omega arith), skip_chunks)
      (ap (λ (r : List ℕ × KInstruction). skip_chunks fuel (suc n - chunk) r.0 r.1)
          (load_front k scratch chunk (omega arith))
        ∙ skip_chunks_lem fuel (suc n - chunk) (take chunk k.buffer ++ drop chunk scratch) k'
            (omega arith) (omega (arith, length-drop chunk k.buffer))
        ∙ ap (λ (b : List ℕ). record k { buffer = b })
            (drop-drop (suc n - chunk) chunk k.buffer ∙ ap (λ (m : ℕ). drop m k.buffer) e))

string_extent_lem : (s rest : List ℕ) → NoNul s → string_extent (s ++ 0 ∷ rest) ≡ length s + 1
unfolding string_extent
string_extent_lem s rest h =
    let l = length-append s (0 ∷ rest) in
    rw (strlen-append s rest h, lt→ltb (length s) (length (s ++ 0 ∷ rest)) (omega arith))

-- The copy into the array, as one formula for both branches of the test.
copied_lem :
    (k : KInstruction) (array : List ℕ) (n : ℕ)
    → n ≤ buffer_pos k
    → (if ltb 0 n then load_bytes k array n else (array, k))
      ≡ (take n k.buffer ++ drop n array, record k { buffer = drop n k.buffer })
copied_lem k array zero h = refl
copied_lem k array (suc n) h = rw (lt→ltb 0 (suc n) (omega arith)) (load_front k array (suc n) h)

load_str_shape :
    (k : KInstruction) (scratch : List ℕ) (c : ℕ) (out : List ℕ) (extent to : ℕ)
    → string_extent k.buffer ≡ extent
    → extent ≤ buffer_pos k
    → min (length out) extent ≡ to
    → load_str k scratch (c ∷ out) ≡ (
      set (take to k.buffer ++ drop to (c ∷ out)) to 0,
      record k { buffer = drop extent k.buffer },
    )
unfolding load_str
load_str_shape k scratch c out extent to e h t =
    let o : suc (length out) - 1 ≡ length out = omega arith in
    let u : min to (length out) ≡ to = omega arith in
    let sum : to + (extent - to) ≡ extent = omega arith in
    let k' = record k { buffer = drop to k.buffer } in
    rw (e, o, t, u)
      (rw (copied_lem k (c ∷ out) to (omega arith)) (
        ap (λ (r : KInstruction). (set (take to k.buffer ++ drop to (c ∷ out)) to 0, r))
          (skip_chunks_lem (extent - to) (extent - to) scratch k' (omega arith)
              (omega (arith, length-drop to k.buffer))
            ∙ ap (λ (b : List ℕ). record k { buffer = b })
                (drop-drop (extent - to) to k.buffer ∙ ap (λ (m : ℕ). drop m k.buffer) sum))))

-- The room for the NUL is all that a string that fits gives up.
kept : (s : List ℕ) (n : ℕ) → take (min n (length s + 1)) s ≡ take (suc n - 1) s
kept s n = elim (Bool-cases (ltb n (length s + 1))) [
  | inl short ↦ ap (λ (m : ℕ). take m s) (omega (arith, ltb→lt n (length s + 1) short))
  | inr long ↦
      let e = ltb→le n (length s + 1) long in
      take_of_length-le (min n (length s + 1)) s (omega arith)
      ∙ sym (take_of_length-le (suc n - 1) s (omega arith))
]

-- `load_str` on a payload that starts with a terminated string takes exactly that string off the
-- payload. It leaves in the array, of any size but 0, the longest prefix of the string that leaves
-- room for the NUL; without an array it keeps nothing.
pub load_str_lem :
    (k : KInstruction) (s rest scratch array : List ℕ)
    → NoNul s
    → let (array', k') = load_str (record k { buffer = s ++ 0 ∷ rest }) scratch array in
      (k' ≡ record k { buffer = rest })
      × (c_str array' ≡ take (length array - 1) s)
      × (length array' ≡ length array)
unfolding load_str skip_str
load_str_lem k s rest scratch [] h =
    let b = s ++ 0 ∷ rest in
    let e = string_extent_lem s rest h in
    (
      rw e (
          skip_chunks_lem (length s + 1) (length s + 1) scratch (record k { buffer = b })
            (omega arith) (omega (arith, length-append s (0 ∷ rest)))
          ∙ ap (λ (b : List ℕ). record k { buffer = b }) (drop-append_suc s 0 rest)),
      refl,
      refl,
    )
load_str_lem k s rest scratch (c ∷ out) h =
    let extent = length s + 1 in
    let to = min (length out) extent in
    let front = take to (s ++ 0 ∷ rest) in
    let l = length-append s (0 ∷ rest) in
    let e =
      load_str_shape (record k { buffer = s ++ 0 ∷ rest }) scratch c out extent to
        (string_extent_lem s rest h) (omega arith) refl in
    let w : set (front ++ drop to (c ∷ out)) to 0 ≡ front ++ 0 ∷ drop (to + 1) (c ∷ out) =
      set-take-drop to front (c ∷ out) 0 (omega (arith, length-take to (s ++ 0 ∷ rest)))
        (omega arith) in
    (
      ap (λ (r : List ℕ × KInstruction). r.1) e
          ∙ ap (λ (b : List ℕ). record k { buffer = b }) (drop-append_suc s 0 rest),
      ap (λ (r : List ℕ × KInstruction). c_str r.0) e
          ∙ ap c_str w
          ∙ c_str-take to s rest (drop (to + 1) (c ∷ out)) (omega arith) h
          ∙ kept s (length out),
      ap (λ (r : List ℕ × KInstruction). length r.0) e
          ∙ length-set (front ++ drop to (c ∷ out)) to 0
          ∙ omega (
            arith,
            length-append front (drop to (c ∷ out)),
            length-take to (s ++ 0 ∷ rest),
            length-drop to (c ∷ out),
          ),
    )
