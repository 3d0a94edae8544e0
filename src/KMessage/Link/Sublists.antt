-- ===== src/KMessage/Link/Sublists.antt =====
-- Lists that are got from others by leaving elements out.
use kaillera_client.Prelude.{
  ℕ, zero, suc, ◌≤◌, ◌≡◌, List, [], ◌∷◌, ◌++◌, some, get_elem?, take, arith, subst,
}
use mathlib.Core.Option.{some-injective}

pub data Sublist {ℓ} {A : Type ℓ} : List A → List A → Type ℓ where
  done : Sublist [] []
  skip : {xs ys : List A} (y : A) → Sublist xs ys → Sublist xs (y ∷ ys)
  keep : {xs ys : List A} (x : A) → Sublist xs ys → Sublist (x ∷ xs) (x ∷ ys)

module _ {ℓ} {A : Type ℓ} where
  nil-Sublist : (ys : List A) → Sublist [] ys
  nil-Sublist [] = done
  nil-Sublist (y ∷ ys) = skip y (nil-Sublist ys)

  -- An element more, from further back than those before.
  pub snoc-Sublist :
      (ys : List A) (n j : ℕ) (xs : List A) (b : A)
      → Sublist xs (take n ys)
      → n ≤ j
      → get_elem? ys j ≡ some b
      → Sublist (xs ++ b ∷ []) (take (suc j) ys)
  snoc-Sublist [] n j xs b s h e = cc
  snoc-Sublist (y ∷ ys) zero zero [] b s h e =
      subst (λ (x : A). Sublist (x ∷ []) (y ∷ [])) (some-injective y b e) (keep y done)
  snoc-Sublist (y ∷ ys) zero (suc j) [] b s h e =
      skip y (snoc-Sublist ys zero j [] b done (omega arith) e)
  snoc-Sublist (y ∷ ys) zero zero (x ∷ xs) b s h e = elim s [ ]
  snoc-Sublist (y ∷ ys) zero (suc j) (x ∷ xs) b s h e = elim s [ ]
  snoc-Sublist (y ∷ ys) (suc n) zero xs b s h e = absurd (omega arith)
  snoc-Sublist (y ∷ ys) (suc n) (suc j) xs b (skip _ s) h e =
      skip y (snoc-Sublist ys n j xs b s (omega arith) e)
  snoc-Sublist (y ∷ ys) (suc n) (suc j) (x ∷ xs) b (keep _ s) h e =
      keep y (snoc-Sublist ys n j xs b s (omega arith) e)

  pub take-Sublist : (ys : List A) (n : ℕ) {xs : List A} → Sublist xs (take n ys) → Sublist xs ys
  take-Sublist [] zero s = s
  take-Sublist [] (suc n) s = s
  take-Sublist (y ∷ ys) zero done = nil-Sublist (y ∷ ys)
  take-Sublist (y ∷ ys) (suc n) (skip _ s) = skip y (take-Sublist ys n s)
  take-Sublist (y ∷ ys) (suc n) (keep _ s) = keep y (take-Sublist ys n s)
