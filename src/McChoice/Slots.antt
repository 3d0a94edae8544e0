-- ===== src/McChoice/Slots.antt =====
-- common/n02_mcchoice.cpp, `n02_mcchoice_game_slots` and the chat line: who gets a card.
use kaillera_client.Prelude.{
  ℕ, zero, suc, ◌-◌, ◌≤◌, ◌<◌, ◌≡◌, ◌≢◌, refl, ap, ◌∙◌, sym, List, [], ◌∷◌, ◌++◌, Bool, true, false,
  ◌&&◌, ◌⊎◌, ltb→lt, ==→eq, Option, none, some, Option-cases, ◌↔◌, arith, length, drop, get_or, ltb,
  ◌==◌, if◌then◌else◌, Bool-cases, inl, inr, take_of_length-le, codes,
}
use kaillera_client.McChoice.{
  Choice, no_card, online, iso, choice_eq, Table, get, word, chat_prefix, line, parse, in_list,
  some_unannounced, slot_of, GameSlots, game_slots,
}

-- The text of a choice's chat line is parsed back to the choice, and to the note that the player
-- is not logged in where there is one; the array has to hold the longest line.
pub parse-line :
    (choice : Choice) (no_login : Bool) (space : ℕ)
    → 20 ≤ space
    → parse (drop (length chat_prefix) (line choice no_login space))
      ≡ some (choice, choice_eq choice no_card && no_login)
unfolding parse line word
parse-line no_card true space h =
    rw (take_of_length-le (space - 1) (chat_prefix ++ codes "sem login") (omega arith))
parse-line no_card false space h =
    rw (take_of_length-le (space - 1) (chat_prefix ++ codes "sem") (omega arith))
parse-line online no_login space h =
    rw (take_of_length-le (space - 1) (chat_prefix ++ codes "online") (omega arith))
parse-line iso no_login space h =
    rw (take_of_length-le (space - 1) (chat_prefix ++ codes "iso") (omega arith))

-- The player that slot `s` goes by.
abbrev pub player_of : List (List ℕ) → ℕ → List ℕ
player_of names s = get_or names (if ltb s (length names) then s else 0) []

slot_of_lem :
    (t : Table) (accounts : Option (List ℕ)) (names : List (List ℕ)) (s : ℕ)
    → slot_of t accounts names s ≢ no_card
    → (get t (player_of names s) ≡ some (slot_of t accounts names s))
      × (in_list accounts (player_of names s) ≡ true)
unfolding slot_of
slot_of_lem t accounts names s h = ground arith

slot_of_solo :
    (t : Table) (accounts : Option (List ℕ)) (names : List (List ℕ)) (s : ℕ)
    → slot_of t accounts names s ≢ no_card
    → (s < length names) ⊎ ((s ≡ 0) ⊎ (slot_of t accounts names s ≡ iso))
unfolding slot_of
slot_of_solo t accounts names s h = elim (Bool-cases (ltb s (length names))) [
  | inl l ↦ inl (ltb→lt s (length names) l)
  | inr l ↦ elim (Bool-cases (0 == s)) [
    | inl z ↦ inr (inl (sym (==→eq 0 s z)))
    | inr p ↦ inr (inr (ground arith))
  ]
]

-- The card in slot 0 or slot 1.
abbrev pub card_in : GameSlots → ℕ → Choice
card_in g zero = g.first
card_in g (suc s) = g.second

-- Every player has announced a choice.
abbrev pub Announced : Table → List (List ℕ) → Type 0
Announced t [] = Unit
Announced t (name ∷ names) = (get t name ≢ none) × Announced t names

unannounced→Announced :
    (t : Table) (names : List (List ℕ)) → some_unannounced t names ≡ false → Announced t names
unfolding some_unannounced
unannounced→Announced t [] h = tt
unannounced→Announced t (name ∷ names) h = elim (Option-cases (get t name)) [
  | inl e ↦ absurd (ground (arith, e, h))
  | inr (c, e) ↦
      (λ z. absurd (ground (arith, e, z)), unannounced→Announced t names (ground (arith, e, h)))
]

Announced→unannounced :
    (t : Table) (names : List (List ℕ)) → Announced t names → some_unannounced t names ≡ false
unfolding some_unannounced
Announced→unannounced t [] h = refl
Announced→unannounced t (name ∷ names) (h, rest) = elim (Option-cases (get t name)) [
  | inl e ↦ absurd (h e)
  | inr (c, e) ↦ rw (some_unannounced, e) (Announced→unannounced t names rest)
]

-- Slot `s` may have the card: the game is a PCSX one with a player, every player has announced a
-- choice, and the slot's player chose this card and is among the confirmed accounts. Where the slot
-- has no player of its own, it goes by the first player, and the card is the game's own.
pub record Granted (names : List (List ℕ)) (t : Table) (accounts : Option (List ℕ)) (pcsx : Bool)
    (s : ℕ) (choice : Choice) : Type 0 where
  pub psx : pcsx ≡ true
  pub players : 0 < length names
  pub announced : Announced t names
  pub chosen : get t (player_of names s) ≡ some choice
  pub account : in_list accounts (player_of names s) ≡ true
  pub own : (s < length names) ⊎ (choice ≡ iso)

slot_needs :
    (names : List (List ℕ)) (t : Table) (accounts : Option (List ℕ)) (pcsx : Bool)
    → (card_in (game_slots names t accounts pcsx) 0 ≢ no_card
        → (pcsx ≡ true)
          × (some_unannounced t names ≡ false)
          × (0 < length names)
          × (card_in (game_slots names t accounts pcsx) 0 ≡ slot_of t accounts names 0))
      × (card_in (game_slots names t accounts pcsx) 1 ≢ no_card
          → (pcsx ≡ true)
            × (some_unannounced t names ≡ false)
            × (0 < length names)
            × (card_in (game_slots names t accounts pcsx) 1 ≡ slot_of t accounts names 1))
unfolding game_slots
slot_needs names t accounts pcsx = (λ h. ground arith, λ h. ground arith)

-- One slot of a game in which cards are given.
given :
    (names : List (List ℕ)) (t : Table) (accounts : Option (List ℕ)) (pcsx : Bool) (s : ℕ)
    → s < 2
    → pcsx ≡ true
    → 0 < length names
    → some_unannounced t names ≡ false
    → card_in (game_slots names t accounts pcsx) s ≡ slot_of t accounts names s
unfolding game_slots
given names t accounts pcsx zero l p n u =
    let some_playing : (length names == 0) ≡ false = ground (arith, n) in
    rw (p, some_playing, u) refl
given names t accounts pcsx (suc zero) l p n u =
    let some_playing : (length names == 0) ≡ false = ground (arith, n) in
    rw (p, some_playing, u) refl
given names t accounts pcsx (suc (suc s)) l p n u = absurd (omega arith)

slot_of_granted :
    (t : Table) (accounts : Option (List ℕ)) (names : List (List ℕ)) (s : ℕ) (choice : Choice)
    → get t (player_of names s) ≡ some choice
    → in_list accounts (player_of names s) ≡ true
    → (s < length names) ⊎ (choice ≡ iso)
    → slot_of t accounts names s ≡ choice
unfolding slot_of
slot_of_granted t accounts names s choice g a (inl own) =
    let inside : ltb s (length names) ≡ true = ground (arith, own) in ground (arith, g, a, inside)
slot_of_granted t accounts names s choice g a (inr card) =
    let game : choice_eq choice iso ≡ true = ap (λ (c : Choice). choice_eq c iso) card in
    ground (arith, g, a, game)

-- Slot 0 or 1 has a given card if and only if the game is a PCSX one with a player, every player has
-- announced a choice, the player that the slot goes by chose this card and is among the confirmed
-- accounts, and the slot has a player of its own or the card is the game's own; a slot without a
-- player of its own goes by the first player.
pub game_slots-Granted :
    (names : List (List ℕ)) (t : Table) (accounts : Option (List ℕ)) (pcsx : Bool) (s : ℕ)
    (choice : Choice)
    → s < 2
    → choice ≢ no_card
    → (card_in (game_slots names t accounts pcsx) s ≡ choice)
      ↔ Granted names t accounts pcsx s choice
game_slots-Granted names t accounts pcsx s choice l some_card = (to, from)
  where
    card : Choice
    card = card_in (game_slots names t accounts pcsx) s

    needs :
        (n : ℕ)
        → n < 2
        → card_in (game_slots names t accounts pcsx) n ≢ no_card
        → (pcsx ≡ true)
          × (some_unannounced t names ≡ false)
          × (0 < length names)
          × (card_in (game_slots names t accounts pcsx) n ≡ slot_of t accounts names n)
    needs zero l h = (slot_needs names t accounts pcsx).0 h
    needs (suc zero) l h = (slot_needs names t accounts pcsx).1 h
    needs (suc (suc n)) l h = absurd (omega arith)

    to : card ≡ choice → Granted names t accounts pcsx s choice
    to e =
        let (p, u, n, same) = needs s l (λ z. some_card (sym e ∙ z)) in
        let it : slot_of t accounts names s ≡ choice = sym same ∙ e in
        let is_some = λ (z : slot_of t accounts names s ≡ no_card). some_card (sym it ∙ z) in
        let (g, a) = slot_of_lem t accounts names s is_some in
        record {
          psx = p;
          players = n;
          announced = unannounced→Announced t names u;
          chosen = g ∙ ap some it;
          account = a;
          own = own n it (slot_of_solo t accounts names s is_some);
        }
      where
        own :
            {x : Choice}
            → 0 < length names
            → x ≡ choice
            → (s < length names) ⊎ ((s ≡ 0) ⊎ (x ≡ iso))
            → (s < length names) ⊎ (choice ≡ iso)
        own n e (inl i) = inl i
        own n e (inr (inl z)) = inl (omega (arith, n, z))
        own n e (inr (inr i)) = inr (sym e ∙ i)

    from : Granted names t accounts pcsx s choice → card ≡ choice
    from g =
        given names t accounts pcsx s l g.psx g.players (Announced→unannounced t names g.announced)
        ∙ slot_of_granted t accounts names s choice g.chosen g.account g.own
