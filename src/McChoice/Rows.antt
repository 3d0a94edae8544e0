-- ===== src/McChoice/Rows.antt =====
-- common/n02_mcchoice.cpp: the table as a map from nicks, whatever their case, to choices.
use kaillera_client.Prelude.{
  ℕ, zero, suc, ◌≤◌, ◌<◌, ◌≡◌, refl, ap, ◌∙◌, sym, List, [], ◌∷◌, ◌++◌, Bool, true, false, not,
  ◌&&◌, Option, none, some, arith, length, set, get_elem?, ◌==◌, if◌then◌else◌, Bool-cases,
  Option-cases, inl, inr, ◌⊎◌, take_of_length-le, bytes_eq, bytes_eq→eq, bytes_eq_refl, lower_all,
}
use kaillera_client.McChoice.{
  Choice, choice_eq, Entry, Table, choices_max, same_nick, find, set_choice, get, no_login,
}

-- The first row of a nick.
abbrev pub row : Table → List ℕ → Option Entry
row [] nick = none
row (e ∷ t) nick = if same_nick e.nick nick then some e else row t nick

find-row :
    (t : Table) (nick : List ℕ)
    → ((find t nick ≡ none) × (row t nick ≡ none))
      ⊎ ((i : ℕ) × (e : Entry) × (find t nick ≡ some i)
          × (get_elem? t i ≡ some e)
          × (row t nick ≡ some e)
          × (same_nick e.nick nick ≡ true))
unfolding find
find-row [] nick = inl (refl, refl)
find-row (e ∷ t) nick = elim (Bool-cases (same_nick e.nick nick)) [
  | inl here ↦ inr (0, e, rw (here, find), refl, rw here, here)
  | inr there ↦ elim (find-row t nick) [
    | inl (f, r) ↦ inl (rw (there, find) (rw f), rw there r)
    | inr (i, e', f, g, r, s) ↦ inr (suc i, e', rw (there, find) (rw f), g, rw there r, s)
  ]
]

-- `n02_mcchoices_get` reads the row of the nick.
pub get-row :
    (t : Table) (nick : List ℕ)
    → ((row t nick ≡ none) × (get t nick ≡ none) × (no_login t nick ≡ false))
      ⊎ ((e : Entry) × (row t nick ≡ some e)
          × (get t nick ≡ some e.choice)
          × (no_login t nick ≡ e.no_login))
unfolding get no_login
get-row t nick = elim (find-row t nick) [
  | inl (f, r) ↦ inl (r, rw (f, get), rw (f, no_login))
  | inr (i, e, f, g, r, s) ↦ inr (e, r, rw (f, get) (rw g), rw (f, no_login) (rw g))
]

-- Nicks that differ by case only are found alike.
same_nick_trans : (a b c : List ℕ) → same_nick a b ≡ true → same_nick a c ≡ same_nick b c
same_nick_trans a b c h =
    ap (λ (l : List ℕ). bytes_eq l (lower_all c)) (bytes_eq→eq (lower_all a) (lower_all b) h)

find-zero :
    (x : Entry) (t : Table) (nick : List ℕ)
    → find (x ∷ t) nick ≡ some 0
    → same_nick x.nick nick ≡ true
unfolding find
find-zero x t nick h = ground arith

find-suc :
    (x : Entry) (t : Table) (nick : List ℕ) (i : ℕ)
    → find (x ∷ t) nick ≡ some (suc i)
    → (same_nick x.nick nick ≡ false) × (find t nick ≡ some i)
unfolding find
find-suc x t nick i h = ground arith

same_nick-sym : (a b : List ℕ) → same_nick a b ≡ true → same_nick b a ≡ true
same_nick-sym a b h =
    same_nick_trans b a a
      (rw (bytes_eq→eq (lower_all a) (lower_all b) h) (bytes_eq_refl (lower_all b)))
    ∙ bytes_eq_refl (lower_all a)

-- A row written over the one found for a nick is what that nick, in any case, is looked up as,
-- and the other nicks are looked up as before.
row-set :
    (t : Table) (nick k : List ℕ) (i : ℕ) (e : Entry)
    → find t nick ≡ some i
    → same_nick e.nick nick ≡ true
    → row (set t i e) k ≡ (if same_nick nick k then some e else row t k)
row-set [] nick k i e f s = cc (find-nil nick, f)
  where
    find-nil : (nick : List ℕ) → find [] nick ≡ none
    find-nil nick = unfold find in refl
row-set (x ∷ t) nick k zero e f s =
    let here = same_nick_trans x.nick nick k (find-zero x t nick f) in
    let there = same_nick_trans e.nick nick k s in
    rw (here, there) (elim (Bool-cases (same_nick nick k)) [ inl y ↦ rw y | inr n ↦ rw n ])
row-set (x ∷ t) nick k (suc i) e f s =
    let (other, g) = find-suc x t nick i f in
    rw (row-set t nick k i e g s) (elim (Bool-cases (same_nick x.nick k)) [
      | inl y ↦
          let no_match : same_nick nick k ≡ false = elim (Bool-cases (same_nick nick k)) [
            | inr n ↦ n
            | inl m ↦
                let a = same_nick_trans x.nick k nick y in let b = same_nick-sym nick k m in cc
          ] in
          rw (y, no_match)
      | inr n ↦ rw n
    ])

row-same : (t : Table) (nick k : List ℕ) → same_nick nick k ≡ true → row t nick ≡ row t k
row-same [] nick k h = refl
row-same (x ∷ t) nick k h = rw (row-same t nick k h) (
    ap (λ (b : Bool). if b then some x else row t k)
      (ap (λ (l : List ℕ). bytes_eq (lower_all x.nick) l)
        (bytes_eq→eq (lower_all nick) (lower_all k) h)))

row-append :
    (t : Table) (k : List ℕ) (e : Entry)
    → row (t ++ e ∷ []) k
      ≡ elim (row t k) [ some x ↦ some x | none ↦ if same_nick e.nick k then some e else none ]
row-append [] k e = refl
row-append (x ∷ t) k e =
    rw (row-append t k e) (elim (Bool-cases (same_nick x.nick k)) [ inl y ↦ rw y | inr n ↦ rw n ])

abbrev choice_of : Option Entry → Option Choice
choice_of none = none
choice_of (some e) = some e.choice

get-eq : (t : Table) (k : List ℕ) → get t k ≡ choice_of (row t k)
get-eq t k = elim (get-row t k) [
  | inl (r, g, n) ↦ g ∙ ap choice_of (sym r)
  | inr (e, r, g, n) ↦ g ∙ ap choice_of (sym r)
]

choice_eq→eq : (a b : Choice) → choice_eq a b ≡ true → a ≡ b
choice_eq→eq a b h = ground arith

same_choices : (e : Entry) (choice : Choice) (no_login : Bool) → Bool
same_choices e choice no_login =
    choice_eq e.choice choice && (if e.no_login then no_login else not no_login)

set_found :
    (t : Table) (nick : List ℕ) (choice : Choice) (no_login : Bool) (i : ℕ) (e : Entry)
    → find t nick ≡ some i
    → get_elem? t i ≡ some e
    → (set_choice t nick choice no_login).1 ≡ (
        if same_choices e choice no_login
        then t
        else set t i (record e { choice = choice; no_login = no_login }))
unfolding set_choice same_choices
set_found t nick choice no_login i e f g =
    rw (f, set_choice)
      (rw g (elim (Bool-cases (same_choices e choice no_login)) [ inl y ↦ rw y | inr n ↦ rw n ]))

set_fresh :
    (t : Table) (nick : List ℕ) (choice : Choice) (no_login : Bool)
    → find t nick ≡ none
    → length t < choices_max
    → length nick ≤ 31
    → (set_choice t nick choice no_login).1
      ≡ t ++ record { nick = nick; choice = choice; no_login = no_login } ∷ []
unfolding set_choice
set_fresh t nick choice no_login f l s =
    let n : (length t == choices_max) ≡ false = ground arith in
    rw (f, set_choice) (rw n (rw (take_of_length-le 31 nick s)))

-- The rows after `set_choice`.
row-set_choice :
    (t : Table) (nick k : List ℕ) (choice : Choice) (no_login : Bool)
    → length nick ≤ 31
    → ((i : ℕ) × (find t nick ≡ some i)) ⊎ (length t < choices_max)
    → choice_of (row (set_choice t nick choice no_login).1 k)
      ≡ (if same_nick nick k then some choice else choice_of (row t k))
unfolding same_choices
row-set_choice t nick k choice no_login short room = elim (find-row t nick) [
  | inr (i, e, f, g, r, s) ↦
      ap (λ (u : Table). choice_of (row u k)) (set_found t nick choice no_login i e f g)
      ∙ elim (Bool-cases (same_choices e choice no_login)) [
        | inl same ↦ rw same (elim (Bool-cases (same_nick nick k)) [
          | inl y ↦ rw y (
              ap choice_of (sym (row-same t nick k y) ∙ r)
              ∙ ap some (choice_eq→eq e.choice choice (ground arith)))
          | inr n ↦ rw n
        ])
        | inr changed ↦
            let e' = record e { choice = choice; no_login = no_login } in
            rw changed (
              ap choice_of (row-set t nick k i e' f s)
              ∙ elim (Bool-cases (same_nick nick k)) [ inl y ↦ rw y | inr n ↦ rw n ])
      ]
  | inl (f, r) ↦
      let e : Entry = record { nick = nick; choice = choice; no_login = no_login } in
      ap (λ (u : Table). choice_of (row u k))
        (set_fresh t nick choice no_login f (free room f) short)
      ∙ ap choice_of (row-append t k e)
      ∙ elim (Bool-cases (same_nick nick k)) [
        | inl y ↦ rw (sym (row-same t nick k y) ∙ r) (rw y)
        | inr n ↦ rw n (elim (Option-cases (row t k)) [ inl z ↦ rw z (rw n) | inr (x, z) ↦ rw z ])
      ]
]
  where
    free :
        ((i : ℕ) × (find t nick ≡ some i)) ⊎ (length t < choices_max)
        → find t nick ≡ none
        → length t < choices_max
    free (inl (i, e)) f = cc
    free (inr l) f = l

-- After `set` of a nick that is in the table or has room there, looking the nick up, in any case,
-- gives the choice set, and looking any other nick up gives what it gave before. The nick has to
-- fit its field of 32 bytes.
pub get-set_choice :
    (t : Table) (nick k : List ℕ) (choice : Choice) (no_login : Bool)
    → length nick ≤ 31
    → ((i : ℕ) × (find t nick ≡ some i)) ⊎ (length t < choices_max)
    → get (set_choice t nick choice no_login).1 k
      ≡ (if same_nick nick k then some choice else get t k)
get-set_choice t nick k choice no_login short room =
    get-eq (set_choice t nick choice no_login).1 k
    ∙ row-set_choice t nick k choice no_login short room
    ∙ ap (λ (c : Option Choice). if same_nick nick k then some choice else c) (sym (get-eq t k))
