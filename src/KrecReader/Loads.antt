-- ===== src/KrecReader/Loads.antt =====
-- common/krec_reader.h, the loads: what they give where the record stands whole before the last ten
-- bytes of the buffer.
use kaillera_client.Prelude.{
  ℕ, suc, ◌+◌, ◌-◌, ◌^◌, ◌≤◌, ◌<◌, ◌≡◌, refl, ap, ◌∙◌, sym, min, List, [], ◌∷◌, ◌++◌, true, arith,
  length, take, drop, set, ltb, lt→ltb, le16, le32, from_le16-le16, from_le32-le32, append_assoc,
  length-append, length-drop, take-append, drop-append, drop-drop, NoNul, strlen, strlen-append,
  c_str, length-set, subst,
}
use kaillera_client.KrecReader.{
  KrecReader, end_of, load_bytes, str_len, load_str, load_int, load_char, load_short,
}

-- The bytes that the reader has still to read.
abbrev pub ahead : KrecReader → List ℕ
ahead r = drop r.ptr r.buffer

-- The reader `n` bytes further on.
abbrev pub on : ℕ → KrecReader → KrecReader
on n r = record r { ptr = r.ptr + n }

pub ahead-on :
    (r : KrecReader) (x rest : List ℕ) → ahead r ≡ x ++ rest → ahead (on (length x) r) ≡ rest
ahead-on r x rest h =
    sym (drop-drop (length x) r.ptr r.buffer) ∙ ap (drop (length x)) h ∙ drop-append x rest

pub load_bytes-ahead :
    (r : KrecReader) (x rest : List ℕ)
    → ahead r ≡ x ++ rest
    → 10 < length x + length rest
    → load_bytes r (length x) ≡ (x, on (length x) r)
unfolding load_bytes
load_bytes-ahead r x rest h l =
    let n = length-drop r.ptr r.buffer in
    let m = length-append x rest in
    let all = ap length h in
    let inside : ltb (r.ptr + 10) (end_of r) ≡ true =
      lt→ltb (r.ptr + 10) (end_of r) (omega arith) in
    let p : min (length x) (end_of r - r.ptr) ≡ length x = omega arith in
    rw inside (
      rw p
        (ap (λ (s : List ℕ). (s, on (length x) r)) (ap (take (length x)) h ∙ take-append x rest)))

pub load_char-ahead :
    (r : KrecReader) (x : ℕ) (rest : List ℕ)
    → ahead r ≡ x ∷ rest
    → 10 ≤ length rest
    → load_char r ≡ (x, on 1 r)
unfolding load_char
load_char-ahead r x rest h l = rw (load_bytes-ahead r (x ∷ []) rest h (omega arith)) refl

pub load_short-ahead :
    (r : KrecReader) (x : ℕ) (rest : List ℕ)
    → x < 2 ^ 16
    → ahead r ≡ le16 x ++ rest
    → 10 ≤ length rest
    → load_short r ≡ (x, on 2 r)
unfolding load_short
load_short-ahead r x rest s h l =
    rw (load_bytes-ahead r (le16 x) rest h (omega arith))
      (ap (λ (n : ℕ). (n, on 2 r)) (from_le16-le16 x s))

pub load_int-ahead :
    (r : KrecReader) (x : ℕ) (rest : List ℕ)
    → x < 2 ^ 32
    → ahead r ≡ le32 x ++ rest
    → 10 ≤ length rest
    → load_int r ≡ (x, on 4 r)
unfolding load_int
load_int-ahead r x rest s h l =
    rw (load_bytes-ahead r (le32 x) rest h (omega arith))
      (ap (λ (n : ℕ). (n, on 4 r)) (from_le32-le32 x s))

-- A string with its NUL goes to the front of the array, and its terminator stays.
c_str-set : (s more : List ℕ) → NoNul s → c_str (set ((s ++ 0 ∷ []) ++ more) (length s + 1) 0) ≡ s
c_str-set [] more h = refl
c_str-set (c ∷ s) more h =
    let e : suc (length s) + 1 ≡ suc (length s + 1) = omega arith in
    rw e (ground (arith, c_str-set s more h.1))

pub load_str-ahead :
    (r : KrecReader) (s rest out : List ℕ)
    → NoNul s
    → length s < length out
    → ahead r ≡ s ++ 0 ∷ rest
    → 10 ≤ length rest
    → let loaded = load_str r out in
      (c_str loaded.0 ≡ s)
      × (length loaded.0 ≡ length out)
      × (loaded.1 ≡ length s + 1)
      × (loaded.2 ≡ on (length s + 1) r)
unfolding load_str str_len
load_str-ahead r s rest out h f e l =
    let n = length-drop r.ptr r.buffer in
    let m = length-append s (0 ∷ rest) in
    let all = ap length e in
    let z : strlen (ahead r) ≡ length s = ap strlen e ∙ strlen-append s rest h in
    let len : min (min (length out) (strlen (ahead r) + 1)) (end_of r - r.ptr + 1) ≡ length s + 1 =
      omega arith in
    let one = length-append s (0 ∷ []) in
    let whole : ahead r ≡ (s ++ 0 ∷ []) ++ rest = e ∙ sym (append_assoc s (0 ∷ []) rest) in
    let k = load_bytes-ahead r (s ++ 0 ∷ []) rest whole (omega arith) in
    let k' = subst (λ (n : ℕ). load_bytes r n ≡ (s ++ 0 ∷ [], on n r)) one k in
    let array = (s ++ 0 ∷ []) ++ drop (length (s ++ 0 ∷ [])) out in
    rw len (
      rw k' (
        c_str-set s (drop (length (s ++ 0 ∷ [])) out) h,
        length-set array (length s + 1) 0
            ∙ omega (
              arith,
              length-append (s ++ 0 ∷ []) (drop (length (s ++ 0 ∷ [])) out),
              length-drop (length (s ++ 0 ∷ [])) out,
            ),
        refl,
        refl,
      ))
