-- ===== src/Containers/Slist/Laws.antt =====
-- common/slist.h: `remove` leaves none of the elements that it is to remove.
use kaillera_client.Prelude.{
  ℕ, zero, suc, ◌+◌, ◌-◌, ◌≤◌, ◌<◌, ◌≡◌, refl, ap, ◌∙◌, sym, Bool, List, none, some, get_elem?, set,
  ltb, ◌==◌, true, false, arith, length, Bool-cases, Option-cases, inl, inr, ltb→lt, ltb→le, [],
  ◌∷◌, length-set, ==→eq, subst,
}
use mathlib.Core.Option.{some-injective}
use kaillera_client.Containers.Slist.{Slist, move_last, removei, get, remove_loop, remove}

module _ {ℓ} {A : Type ℓ} where
  -- A write leaves the elements in front of it.
  get_elem?-set_before :
      (xs : List A) (i j : ℕ) (x : A) → j < i → get_elem? (set xs i x) j ≡ get_elem? xs j
  get_elem?-set_before [] i j x h = refl
  get_elem?-set_before (y ∷ xs) zero j x h = absurd (omega arith)
  get_elem?-set_before (y ∷ xs) (suc i) zero x h = refl
  get_elem?-set_before (y ∷ xs) (suc i) (suc j) x h = get_elem?-set_before xs i j x (omega arith)

  get_elem?-none : (xs : List A) (i : ℕ) → get_elem? xs i ≡ none → length xs ≤ i
  get_elem?-none [] i h = omega arith
  get_elem?-none (x ∷ xs) zero h = cc
  get_elem?-none (x ∷ xs) (suc i) h = omega (arith, get_elem?-none xs i h)

  move_last_lem :
      (xs : List A) (i l : ℕ)
      → (length (move_last xs i l) ≡ length xs)
        × ((j : ℕ) → j < i → get_elem? (move_last xs i l) j ≡ get_elem? xs j)
  unfolding move_last
  move_last_lem xs i l = elim (Option-cases (get_elem? xs l)) [
    | inl e ↦ rw (e, move_last) (refl, λ j h. refl)
    | inr (x, e) ↦ rw (e, move_last) (length-set xs i x, λ j h. get_elem?-set_before xs i j x h)
  ]

  removei_lem :
      (s : Slist A) (i : ℕ)
      → i < s.length
      → ((removei s i).length ≡ s.length - 1)
        × (length (removei s i).items ≡ length s.items)
        × ((j : ℕ) → j < i → get (removei s i) j ≡ get s j)
  unfolding removei get
  removei_lem s i h =
      let inside : ltb i s.length ≡ true = ground arith in
      let (l, g) = move_last_lem s.items i (s.length - 1) in
      elim (Bool-cases (s.length - 1 == i)) [
        | inl last ↦ rw (inside, last) (refl, refl, λ j h. refl)
        | inr before ↦ rw (inside, before) (refl, l, g)
      ]

module _ {ℓ} {A : Type ℓ} (eq : A → A → Bool) (t : A) where
  -- No element in front of the index is equal to `t`.
  abbrev pub Clean : ℕ → Slist A → Type ℓ
  Clean i s = (j : ℕ) (x : A) → j < i → get s j ≡ some x → eq x t ≡ false

  remove_loop-Clean :
      (fuel i : ℕ) (s : Slist A)
      → s.length ≤ length s.items
      → s.length ≤ fuel + i
      → Clean i s
      → Clean (remove_loop eq t fuel i s).length (remove_loop eq t fuel i s)
  unfolding remove_loop get
  remove_loop-Clean zero i s v f c = λ j x h. c j x (omega arith)
  remove_loop-Clean (suc fuel) i s v f c = elim (Bool-cases (ltb i s.length)) [
    | inr out ↦ rw (out, remove_loop) (λ j x h. c j x (omega (arith, ltb→le i s.length out)))
    | inl inside ↦
        let below = ltb→lt i s.length inside in
        rw (inside, remove_loop)
          (elim (Option-cases (get s i)) [
            | inl e ↦ absurd (omega (arith, get_elem?-none s.items i e))
            | inr (x, e) ↦ rw e (elim (Bool-cases (eq x t)) [
              | inl same ↦
                  let (l, a, g) = removei_lem s i below in
                  rw same (
                    remove_loop-Clean fuel i (removei s i) (omega arith) (omega arith)
                      (λ j y h k. c j y h (sym (g j h) ∙ k)))
              | inr other ↦
                  rw other (remove_loop-Clean fuel (i + 1) s v (omega arith) (next other e))
            ])
          ])
  ]
    where
      next : {x : A} → eq x t ≡ false → get s i ≡ some x → Clean (i + 1) s
      next {x} other e j y h k = elim (Bool-cases (j == i)) [
        | inl here ↦
            let p = ==→eq j i here in
            subst (λ (z : A). eq z t ≡ false)
              (some-injective x y (sym e ∙ (ap (get s) (sym p) ∙ k))) other
        | inr before ↦ c j y (ground arith) k
      ]

  -- After `remove` on a list within its array, no element in use is equal to the one removed.
  pub get-remove :
      (s : Slist A) (j : ℕ) (x : A)
      → s.length ≤ length s.items
      → j < (remove eq s t).length
      → get (remove eq s t) j ≡ some x
      → eq x t ≡ false
  unfolding remove
  get-remove s j x v h e =
      remove_loop-Clean s.length 0 s v (omega arith) (λ i y l k. absurd (omega arith)) j x h e
