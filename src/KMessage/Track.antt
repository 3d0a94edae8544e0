-- ===== src/KMessage/Track.antt =====
-- kcore/k_message.h, the receiving side: how its window stands to the messages that were sent.
use kaillera_client.Prelude.{
  ℕ, zero, suc, ◌+◌, ◌-◌, ◌%◌, ◌^◌, ◌≤◌, ◌<◌, ◌≡◌, refl, ap, ◌∙◌, sym, subst, List, [], ◌∷◌, ◌++◌,
  true, Option, none, some, inl, inr, arith, length, set, get_elem?, Bool-cases, Option-cases, ltb,
  ltb→lt, length-append,
}
use kaillera_client.Containers.Oslist
use kaillera_client.Containers.Oslist.{contents}
use kaillera_client.Containers.Oslist.Laws
use kaillera_client.KMessage.{KMessage, Slot, add16, is_hole, drop_holes, skip_stale_holes}
use kaillera_client.KMessage.Window.{blanks}
use kaillera_client.KMessage.Invariant.{IsValid, removei-Window}

-- A slot is empty, or holds message `j`.
abbrev pub Matches : List (List ℕ) → ℕ → Option (List ℕ) → Type 0
Matches msgs j none = Unit
Matches msgs j (some b) = get_elem? msgs j ≡ some b

abbrev pub Holds : List (List ℕ) → ℕ → List Slot → Type 0
Holds msgs j [] = Unit
Holds msgs j (s ∷ slots) = Matches msgs j s.body × Holds msgs (suc j) slots

-- The window ends with message `upto - 1`, and its slots hold the messages before that. The
-- messages below `front` are no more in it.
pub record Tracks (msgs : List (List ℕ)) (front : ℕ) (m : KMessage) : Type 0 where
  pub valid : IsValid m
  pub upto : ℕ
  pub sent : upto ≤ length msgs
  pub last : m.last_cached_instruction ≡ (upto + 65535) % 2 ^ 16
  pub behind : front + m.in_cache.length ≤ upto
  pub slots : Holds msgs (upto - m.in_cache.length) (contents m.in_cache)

pub Holds-append :
    (msgs : List (List ℕ)) (j : ℕ) (xs ys : List Slot)
    → Holds msgs j xs
    → Holds msgs (j + length xs) ys
    → Holds msgs j (xs ++ ys)
Holds-append msgs j [] ys h k = subst (λ (i : ℕ). Holds msgs i ys) (omega arith) k
Holds-append msgs j (x ∷ xs) ys h k =
    (h.0, Holds-append msgs (suc j) xs ys h.1 (subst (λ (i : ℕ). Holds msgs i ys) (omega arith) k))

pub Holds-blanks : (msgs : List (List ℕ)) (j n serial : ℕ) → Holds msgs j (blanks n serial)
Holds-blanks msgs j zero serial = tt
Holds-blanks msgs j (suc n) serial = (tt, Holds-blanks msgs (suc j) n (add16 serial 1))

pub Holds-set :
    (msgs : List (List ℕ)) (j : ℕ) (slots : List Slot) (i : ℕ) (s : Slot)
    → Holds msgs j slots
    → Matches msgs (j + i) s.body
    → Holds msgs j (set slots i s)
Holds-set msgs j [] i s h m = tt
Holds-set msgs j (t ∷ slots) zero s h m =
    (subst (λ (k : ℕ). Matches msgs k s.body) (omega arith) m, h.1)
Holds-set msgs j (t ∷ slots) (suc i) s h m = (
  h.0,
  Holds-set msgs (suc j) slots i s h.1 (subst (λ (k : ℕ). Matches msgs k s.body) (omega arith) m),
)

Holds-tail :
    (msgs : List (List ℕ)) (j : ℕ) (slots : List Slot)
    → Holds msgs j slots
    → Holds msgs (suc j) (Laws.remove_at 0 slots)
Holds-tail msgs j [] h = tt
Holds-tail msgs j (s ∷ slots) h = h.1

-- A message more that is sent.
pub get_elem?-snoc :
    (msgs : List (List ℕ)) (b : List ℕ) (j : ℕ) {x : List ℕ}
    → get_elem? msgs j ≡ some x
    → get_elem? (msgs ++ b ∷ []) j ≡ some x
get_elem?-snoc [] b j h = cc
get_elem?-snoc (m ∷ msgs) b zero h = h
get_elem?-snoc (m ∷ msgs) b (suc j) h = get_elem?-snoc msgs b j h

Holds-snoc :
    (msgs : List (List ℕ)) (b : List ℕ) (j : ℕ) (slots : List Slot)
    → Holds msgs j slots
    → Holds (msgs ++ b ∷ []) j slots
Holds-snoc msgs b j [] h = tt
Holds-snoc msgs b j (s ∷ slots) h = (one s.body h.0, Holds-snoc msgs b (suc j) slots h.1)
  where
    one : (o : Option (List ℕ)) → Matches msgs j o → Matches (msgs ++ b ∷ []) j o
    one none k = tt
    one (some x) k = get_elem?-snoc msgs b j k

pub Tracks-snoc :
    {msgs : List (List ℕ)} {front : ℕ} {m : KMessage} (b : List ℕ)
    → Tracks msgs front m
    → Tracks (msgs ++ b ∷ []) front m
Tracks-snoc {msgs} {m = m} b t = record {
  valid = t.valid;
  upto = t.upto;
  sent = omega (arith, t.sent, length-append msgs (b ∷ []));
  last = t.last;
  behind = t.behind;
  slots = Holds-snoc msgs b (t.upto - m.in_cache.length) (contents m.in_cache) t.slots;
}

pub Tracks-readable :
    {msgs : List (List ℕ)} {front : ℕ} {m : KMessage}
    → Tracks msgs front m
    → Tracks msgs front (record m { has_data_waiting = true })
Tracks-readable t = record {
  valid = record { cache = t.valid.cache; last = t.valid.last; window = t.valid.window };
  upto = t.upto;
  sent = t.sent;
  last = t.last;
  behind = t.behind;
  slots = t.slots;
}

-- The head of the window goes, and what it held with it.
pub without_head :
    {msgs : List (List ℕ)} {front : ℕ} {m m' : KMessage} (t : Tracks msgs front m)
    → IsValid m'
    → 0 < m.in_cache.length
    → m'.last_cached_instruction ≡ m.last_cached_instruction
    → contents m'.in_cache ≡ Laws.remove_at 0 (contents m.in_cache)
    → Tracks msgs (suc (t.upto - m.in_cache.length)) m'
without_head {msgs} {m = m} {m' = m'} t v h l e =
    let size = Laws.length-contents t.valid.cache in
    let size' = Laws.length-contents v.cache in
    let shorter = Laws.length-remove_at 0 (contents m.in_cache) (omega arith) in
    let behind = t.behind in
    let n : m'.in_cache.length + 1 ≡ m.in_cache.length = omega (arith, ap length e) in
    let j : suc (t.upto - m.in_cache.length) ≡ t.upto - m'.in_cache.length = omega arith in
    let rest = Holds-tail msgs (t.upto - m.in_cache.length) (contents m.in_cache) t.slots in
    record {
      valid = v;
      upto = t.upto;
      sent = t.sent;
      last = l ∙ t.last;
      behind = omega arith;
      slots =
          subst (Holds msgs (t.upto - m'.in_cache.length)) (sym e)
            (subst (λ (i : ℕ). Holds msgs i (Laws.remove_at 0 (contents m.in_cache))) j rest);
    }

-- The same window, seen from further back.
pub lower :
    {msgs : List (List ℕ)} {front front' : ℕ} {m : KMessage}
    → front' ≤ front
    → Tracks msgs front m
    → Tracks msgs front' m
lower h t = record {
  valid = t.valid;
  upto = t.upto;
  sent = t.sent;
  last = t.last;
  behind = omega (arith, t.behind);
  slots = t.slots;
}

drop_holes-Tracks :
    (fuel : ℕ) {msgs : List (List ℕ)} {front : ℕ} {m : KMessage}
    → Tracks msgs front m
    → Tracks msgs front (drop_holes fuel m)
unfolding drop_holes Oslist.size
drop_holes-Tracks zero t = t
drop_holes-Tracks (suc fuel) {m = m} t = elim (Bool-cases (ltb 0 m.in_cache.length)) [
  | inr none_left ↦ rw (none_left, drop_holes) t
  | inl more ↦
      rw (more, drop_holes)
        (elim (Option-cases (Oslist.get m.in_cache 0)) [
          | inl e ↦ rw e t
          | inr (s, e) ↦ rw e (elim (Bool-cases (is_hole s)) [
            | inr full ↦ rw full t
            | inl hole ↦
                let h = ltb→lt 0 m.in_cache.length more in
                let (c, w) =
                  removei-Window m.last_cached_instruction t.valid.cache h t.valid.window in
                let rest : KMessage = record m {
                  last_processed_instruction = s.serial;
                  in_cache = Oslist.removei m.in_cache 0;
                  holes_skipped = (m.holes_skipped + 1) % 2 ^ 32;
                } in
                let v : IsValid rest = record { cache = c; last = t.valid.last; window = w } in
                let (k, v') = Laws.contents-removei 0 t.valid.cache h in
                rw hole (
                  drop_holes-Tracks fuel
                    (lower (omega (arith, t.behind)) (without_head t v h refl k)))
          ])
        ])
]

pub skip_stale_holes-Tracks :
    (now : ℕ) {msgs : List (List ℕ)} {front : ℕ} {m : KMessage}
    → Tracks msgs front m
    → Tracks msgs front (skip_stale_holes now m)
unfolding skip_stale_holes
skip_stale_holes-Tracks now {m = m} t =
    let d = drop_holes-Tracks (Oslist.size m.in_cache) t in ground arith
