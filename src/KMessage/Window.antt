-- ===== src/KMessage/Window.antt =====
-- kcore/k_message.h: the comment on `in_cache`, "a contiguous run of serials ending at
-- last_cached_instruction", as a predicate, and the steps that keep it, on lists.
use kaillera_client.Prelude.{
  ℕ, zero, suc, ◌+◌, ◌-◌, ◌^◌, ◌≤◌, ◌<◌, ◌≡◌, refl, ap, ◌∙◌, sym, List, [], ◌∷◌, ◌++◌, Option, none,
  some, arith, length, take, set, append_assoc, append-nil, length-append, take-suc-set, length-set,
}
use kaillera_client.KMessage.{Slot, cache_size, max_length, add16, sub16, blank_slots, empty_slot}

-- A slot is a hole, of length 0, or holds a message of the length that its head says.
abbrev pub SlotOk : Option (List ℕ) → ℕ → Type 0
SlotOk none n = n ≡ 0
SlotOk (some b) n = (n ≡ length b) × (0 < length b) × (length b ≤ max_length)

-- The slots are well formed, and their serials run up to `last`, one by one.
abbrev pub Window : ℕ → List Slot → Type 0
Window last [] = Unit
Window last (s ∷ slots) =
    (s.serial ≡ sub16 last (length slots)) × SlotOk s.body s.length × Window last slots

pub Window-set :
    (last : ℕ) (slots : List Slot) (i : ℕ) (s : Slot)
    → i < length slots
    → s.serial ≡ sub16 last (length slots - 1 - i)
    → SlotOk s.body s.length
    → Window last slots
    → Window last (set slots i s)
Window-set last [] i s h e k w = absurd (omega arith)
Window-set last (t ∷ slots) zero s h e k w = (e ∙ ap (sub16 last) (omega arith), k, w.2)
Window-set last (t ∷ slots) (suc i) s h e k w = (
  w.0 ∙ ap (sub16 last) (sym (length-set slots i s)),
  w.1,
  Window-set last slots i s (omega arith) (e ∙ ap (sub16 last) (omega arith)) k w.2,
)

-- Holes numbered from `serial` on.
abbrev pub blanks : ℕ → ℕ → List Slot
blanks zero serial = []
blanks (suc n) serial =
    record { serial = serial; length = 0; body = none } ∷ blanks n (add16 serial 1)

pub length-blanks : (n serial : ℕ) → length (blanks n serial) ≡ n
length-blanks zero serial = refl
length-blanks (suc n) serial = ap suc (length-blanks n (add16 serial 1))

pub length-blank_slots :
    (n i serial : ℕ) (items : List Slot) → length (blank_slots n i serial items) ≡ length items
unfolding blank_slots
length-blank_slots zero i serial items = refl
length-blank_slots (suc n) i serial items =
    length-blank_slots n (i + 1) (add16 serial 1)
      (set items i (record empty_slot { serial = serial }))
    ∙ length-set items i (record empty_slot { serial = serial })

pub take-blank_slots :
    (n i serial : ℕ) (items : List Slot)
    → i + n ≤ length items
    → take (i + n) (blank_slots n i serial items) ≡ take i items ++ blanks n serial
unfolding blank_slots
take-blank_slots zero i serial items h =
    ap (λ (m : ℕ). take m items) (omega arith) ∙ sym (append-nil (take i items))
take-blank_slots (suc n) i serial items h =
    let b = record empty_slot { serial = serial } in
    let e : i + suc n ≡ (i + 1) + n = omega arith in
    let f : i + 1 ≡ suc i = omega arith in
    rw e (
      take-blank_slots n (i + 1) (add16 serial 1) (set items i b)
        (omega (arith, length-set items i b))
      ∙ rw f (
          rw (take-suc-set i items b (omega arith))
            (append_assoc (take i items) (b ∷ []) (blanks n (add16 serial 1)))))

pub Window-blanks :
    (last n serial : ℕ)
    → n ≤ cache_size
    → last < 2 ^ 16
    → add16 serial n ≡ add16 last 1
    → serial < 2 ^ 16
    → Window last (blanks n serial)
Window-blanks last zero serial h l e k = tt
Window-blanks last (suc n) serial h l e k = (
  rw (length-blanks n (add16 serial 1)) (omega arith),
  refl,
  Window-blanks last n (add16 serial 1) (omega arith) l (omega arith) (omega arith),
)

-- The window moves on by `n` slots.
pub Window-append :
    (last last' : ℕ) (slots more : List Slot)
    → last < 2 ^ 16
    → last' < 2 ^ 16
    → last' ≡ add16 last (length more)
    → length slots + length more ≤ cache_size
    → Window last slots
    → Window last' more
    → Window last' (slots ++ more)
Window-append last last' [] more h h' e k w v = v
Window-append last last' (s ∷ slots) more h h' e k w v = (
  omega (arith, length-append slots more, w.0),
  w.1,
  Window-append last last' slots more h h' e (omega arith) w.2 v,
)
