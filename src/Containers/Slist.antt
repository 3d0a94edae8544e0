-- ===== src/Containers/Slist.antt =====
-- common/slist.h: an array of `_Size` elements whose first `length` ones are in use; a removal moves
-- the last one to the gap.
pub mod Laws
use kaillera_client.Prelude.{
  ℕ, zero, suc, ◌+◌, ◌-◌, Bool, List, Option, none, some, get_elem?, set, take, ltb, ◌==◌,
  if◌then◌else◌, true, false,
}

-- `items` is the whole array.
pub record Slist {ℓ} (A : Type ℓ) : Type ℓ where
  pub items : List A
  pub length : ℕ

module _ {ℓ} {A : Type ℓ} where
  unfoldable pub add : Slist A → A → Slist A
  add s element = record s { items = set s.items s.length element; length = s.length + 1 }

  -- `items[i] = items[l]`; `none` is a read past the array.
  unfoldable pub move_last : List A → ℕ → ℕ → List A
  move_last items i l = elim (get_elem? items l) [ none ↦ items | some x ↦ set items i x ]

  -- The test `i >= 0` is that of the type.
  unfoldable pub removei : Slist A → ℕ → Slist A
  removei s i =
      if ltb i s.length
      then (let l = s.length - 1 in
          let moved = move_last s.items i l in
          record s { items = if l == i then s.items else moved; length = l })
      else s

  unfoldable pub set_item : Slist A → A → ℕ → Slist A
  set_item s v i = record s { items = set s.items i v }

  unfoldable pub get : Slist A → ℕ → Option A
  get s i = get_elem? s.items i

  unfoldable pub clear : Slist A → Slist A
  clear s = record s { length = 0 }

  unfoldable pub size : Slist A → ℕ
  size s = s.length

  -- The loop of `remove`; each round makes `length - i` smaller, so that number is fuel enough.
  unfoldable pub remove_loop : (A → A → Bool) → A → ℕ → ℕ → Slist A → Slist A
  remove_loop eq t zero i s = s
  remove_loop eq t (suc fuel) i s = elim (ltb i s.length) [
    | false ↦ s
    | true ↦ elim (get s i) [
      | none ↦ s
      | some x ↦ elim (eq x t) [
        | true ↦ remove_loop eq t fuel i (removei s i)
        | false ↦ remove_loop eq t fuel (i + 1) s
      ]
    ]
  ]

  unfoldable pub remove : (A → A → Bool) → Slist A → A → Slist A
  remove eq s t = remove_loop eq t s.length 0 s
