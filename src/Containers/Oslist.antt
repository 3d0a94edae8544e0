-- ===== src/Containers/Oslist.antt =====
-- common/oslist.h: an array of `_Size` elements whose first `length` ones are in use, in order.
pub mod Laws
use kaillera_client.Prelude.{
  ℕ, zero, suc, ◌+◌, ◌-◌, Bool, List, ◌++◌, Option, none, some, get_elem?, set, take, drop, ltb,
  ◌==◌, if◌then◌else◌, true, false,
}

-- `items` is the whole array: what stands past `length` is stale, and a later `set_size` can
-- bring it back.
pub record Oslist {ℓ} (A : Type ℓ) : Type ℓ where
  pub items : List A
  pub length : ℕ

module _ {ℓ} {A : Type ℓ} where
  -- The elements in use.
  abbrev pub contents : Oslist A → List A
  contents s = take s.length s.items

  -- A write past the array changes no element; the callers check the size before.
  unfoldable pub add : Oslist A → A → Oslist A
  add s element = record s { items = set s.items s.length element; length = s.length + 1 }

  -- `memcpy(&items[i], &items[i+1], (l-i) * sizeof(_Type))`, with the bytes moved as `memmove` does.
  unfoldable pub close_gap : List A → ℕ → ℕ → List A
  close_gap items i l = take i items ++ (take (l - i) (drop (i + 1) items) ++ drop l items)

  -- The test `i >= 0` is that of the type.
  unfoldable pub removei : Oslist A → ℕ → Oslist A
  unfolding close_gap
  removei s i =
      if ltb i s.length
      then (let l = s.length - 1 in
          let moved = close_gap s.items i l in
          record s { items = if l == i then s.items else moved; length = l })
      else s

  unfoldable pub set_size : Oslist A → ℕ → Oslist A
  set_size s l = record s { length = l }

  unfoldable pub set_item : Oslist A → A → ℕ → Oslist A
  set_item s v i = record s { items = set s.items i v }

  -- `none` is a read past the array.
  unfoldable pub get : Oslist A → ℕ → Option A
  get s i = get_elem? s.items i

  unfoldable pub clear : Oslist A → Oslist A
  clear s = record s { length = 0 }

  unfoldable pub size : Oslist A → ℕ
  size s = s.length

  -- The loop of `remove`: `i` stays where it is after a removal. Each round makes `length - i`
  -- smaller, so that number is fuel enough.
  unfoldable pub remove_loop : (A → A → Bool) → A → ℕ → ℕ → Oslist A → Oslist A
  unfolding removei get
  remove_loop eq t zero i s = s
  remove_loop eq t (suc fuel) i s = elim (ltb i s.length) [
    | false ↦ s
    | true ↦ elim (get s i) [
      | none ↦ s
      | some x ↦ elim (eq x t) [
        | true ↦ remove_loop eq t fuel i (removei s i)
        | false ↦ remove_loop eq t fuel (i + 1) s
      ]
    ]
  ]

  unfoldable pub remove : (A → A → Bool) → Oslist A → A → Oslist A
  unfolding remove_loop
  remove eq s t = remove_loop eq t s.length 0 s
