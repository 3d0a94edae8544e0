-- ===== src/Containers/Oslist/Laws.antt =====
-- common/oslist.h against the list of the elements in use.
use kaillera_client.Prelude.{
  ℕ, zero, suc, ◌+◌, ◌-◌, ◌≤◌, ◌<◌, ◌≡◌, refl, ap, sym, ◌∙◌, List, [], ◌∷◌, ◌++◌, arith, length,
  get_elem?, set, take, drop, ◌==◌, if◌then◌else◌, length-take, length-drop, length-append,
  length-set, take-suc-set, take_of_length-le, take-append_le, take-set_lt, get_elem?-take,
  Bool-cases, lt→ltb, inl, inr, ==→eq,
}
use kaillera_client.Containers.Oslist.{Oslist, contents, add, close_gap, removei, set_item, get}

-- The array has `cap` elements, and no more than that are in use.
pub record IsValid {ℓ} {A : Type ℓ} (cap : ℕ) (s : Oslist A) : Type 0 where
  pub array : length s.items ≡ cap
  pub bounded : s.length ≤ cap

module _ {ℓ} {A : Type ℓ} where
  -- A list without its element at an index.
  abbrev pub remove_at : ℕ → List A → List A
  remove_at i [] = []
  remove_at zero (x ∷ xs) = xs
  remove_at (suc i) (x ∷ xs) = x ∷ remove_at i xs

module _ {ℓ} {A : Type ℓ} where
  pub length-remove_at :
      (i : ℕ) (xs : List A) → i < length xs → length (remove_at i xs) + 1 ≡ length xs
  length-remove_at i [] h = absurd (omega arith)
  length-remove_at zero (x ∷ xs) h = omega arith
  length-remove_at (suc i) (x ∷ xs) h = omega (arith, length-remove_at i xs (omega arith))

  take-close_gap :
      (i l : ℕ) (xs : List A)
      → i ≤ l
      → l < length xs
      → take l (close_gap xs i l) ≡ remove_at i (take (suc l) xs)
  unfolding close_gap
  take-close_gap i l [] h k = absurd (omega arith)
  take-close_gap zero l (x ∷ xs) h k =
      let z : l - 0 ≡ l = omega arith in
      let e : l ≤ length (take l xs) = omega (arith, length-take l xs) in
      rw z (take-append_le l (take l xs) (drop l (x ∷ xs)) e)
      ∙ take_of_length-le l (take l xs) (omega (arith, length-take l xs))
  take-close_gap (suc i) zero (x ∷ xs) h k = absurd (omega arith)
  take-close_gap (suc i) (suc l) (x ∷ xs) h k =
      let e : suc l - suc i ≡ l - i = omega arith in
      let f : suc i + 1 ≡ suc (i + 1) = omega arith in
      rw (e, f) (ap (◌∷◌ x) (take-close_gap i l xs (omega arith) (omega arith)))

  length-close_gap :
      (i l : ℕ) (xs : List A) → i ≤ l → l < length xs → length (close_gap xs i l) ≡ length xs
  unfolding close_gap
  length-close_gap i l xs h k =
      let a = length-append (take i xs) (take (l - i) (drop (i + 1) xs) ++ drop l xs) in
      let b = length-append (take (l - i) (drop (i + 1) xs)) (drop l xs) in
      omega (
        arith,
        a,
        b,
        length-take i xs,
        length-take (l - i) (drop (i + 1) xs),
        length-drop (i + 1) xs,
        length-drop l xs,
      )

  take-last : (l : ℕ) (xs : List A) → l < length xs → take l xs ≡ remove_at l (take (suc l) xs)
  take-last l [] h = absurd (omega arith)
  take-last zero (x ∷ xs) h = refl
  take-last (suc l) (x ∷ xs) h = ap (◌∷◌ x) (take-last l xs (omega arith))

  -- The array after `removei`, whichever way it goes.
  closed :
      (i l : ℕ) (xs : List A)
      → i ≤ l
      → l < length xs
      → let ys = (if l == i then xs else close_gap xs i l) in
        (take l ys ≡ remove_at i (take (suc l) xs)) × (length ys ≡ length xs)
  closed i l xs h k = elim (Bool-cases (l == i)) [
    | inl same ↦ rw same (rw (← ==→eq l i same) (take-last l xs k), refl)
    | inr other ↦ rw other (take-close_gap i l xs h k, length-close_gap i l xs h k)
  ]

  pub length-contents : {cap : ℕ} {s : Oslist A} → IsValid cap s → length (contents s) ≡ s.length
  length-contents {s} v = omega (arith, v.array, v.bounded, length-take s.length s.items)

  -- What `add` does below the capacity: it appends.
  pub contents-add :
      {cap : ℕ} {s : Oslist A} (x : A)
      → IsValid cap s
      → s.length < cap
      → (contents (add s x) ≡ contents s ++ x ∷ []) × IsValid cap (add s x)
  unfolding add
  contents-add {s} x v h =
      let e : s.length + 1 ≡ suc s.length = omega arith in
      (
        rw e (take-suc-set s.length s.items x (omega (arith, v.array))),
        record {
          array = omega (arith, length-set s.items s.length x, v.array);
          bounded = omega arith;
        },
      )

  pub contents-removei :
      {cap : ℕ} {s : Oslist A} (i : ℕ)
      → IsValid cap s
      → i < s.length
      → (contents (removei s i) ≡ remove_at i (contents s)) × IsValid cap (removei s i)
  unfolding removei
  contents-removei {s} i v h =
      let l = s.length - 1 in
      let e : s.length ≡ suc l = omega arith in
      let c = closed i l s.items (omega arith) (omega (arith, v.array, v.bounded)) in
      rw (lt→ltb i s.length h) (
        c.0 ∙ ap (λ k. remove_at i (take k s.items)) (sym e),
        record { array = c.1 ∙ v.array; bounded = omega (arith, v.bounded) },
      )

  pub get-contents : (s : Oslist A) (i : ℕ) → i < s.length → get s i ≡ get_elem? (contents s) i
  unfolding get
  get-contents s i h = sym (get_elem?-take s.length s.items i h)

  pub contents-set_item :
      {cap : ℕ} {s : Oslist A} (v : A) (i : ℕ)
      → IsValid cap s
      → i < s.length
      → (contents (set_item s v i) ≡ set (contents s) i v) × IsValid cap (set_item s v i)
  unfolding set_item
  contents-set_item {s} v i w h = (
    take-set_lt s.length s.items i v h,
    record { array = omega (arith, length-set s.items i v, w.array); bounded = w.bounded },
  )

  pub length-removei : (s : Oslist A) (i : ℕ) → i < s.length → (removei s i).length ≡ s.length - 1
  unfolding removei
  length-removei s i h = rw (lt→ltb i s.length h)
