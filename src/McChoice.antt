-- ===== src/McChoice.antt =====
-- common/n02_mcchoice.h and .cpp: the table of the players' memory card choices, the chat lines
-- that carry them, and the two slots worked out from them at game start.
pub mod Rows
pub mod Slots
use kaillera_client.Prelude.{
  ℕ, zero, suc, ◌+◌, ◌-◌, List, [], ◌∷◌, ◌++◌, Bool, true, false, not, ◌&&◌, ◌||◌, Option, none,
  some, length, take, drop, set, get_or, get_elem?, ltb, leb, ◌==◌, if◌then◌else◌, codes, bytes_eq,
  lower_all, contains,
}

-- `N02_MEMCARD_CHOICE_NONE`, `_ONLINE` and `_ISO`
pub data Choice : Type 0 where
  no_card online iso : Choice

abbrev pub choice_eq : Choice → Choice → Bool
choice_eq no_card no_card = true
choice_eq online online = true
choice_eq iso iso = true
choice_eq _ _ = false

-- One row of the table: the characters of `nick[i]`, `choice[i]` and `noLogin[i]`.
pub record Entry : Type 0 where
  pub nick : List ℕ
  pub choice : Choice
  pub no_login : Bool

-- `n02_mcchoices`: the rows in use, so that `count` is the length.
abbrev pub Table : Type 0
Table = List Entry

-- `N02_MCCHOICES_MAX`
abbrev pub choices_max : ℕ
choices_max = 16

-- `_stricmp(a, b) == 0`, in the C locale.
abbrev pub same_nick : List ℕ → List ℕ → Bool
same_nick a b = bytes_eq (lower_all a) (lower_all b)

unfoldable pub clear : Table → Table
clear t = []

-- `Find`; `none` is -1.
unfoldable pub find : Table → List ℕ → Option ℕ
find [] nick = none
find (e ∷ t) nick =
    let rest = find t nick in
    if same_nick e.nick nick then some 0 else elim rest [ none ↦ none | some i ↦ some (suc i) ]

-- `n02_mcchoices_set`: whether it is new or changed, and the table.
unfoldable pub set_choice : Table → List ℕ → Choice → Bool → Bool × Table
set_choice t nick choice no_login = elim (find t nick) [
  | some i ↦ elim (get_elem? t i) [
    | none ↦ (false, t)
    | some e ↦
        if choice_eq e.choice choice && (if e.no_login then no_login else not no_login)
        then (false, t)
        else (true, set t i (record e { choice = choice; no_login = no_login }))
  ]
  | none ↦
      if length t == choices_max
      then (false, t)
      else (let e : Entry = record { nick = take 31 nick; choice = choice; no_login = no_login } in
          (true, t ++ e ∷ []))
]

-- `n02_mcchoices_remove`: the last row takes the place of the row removed.
unfoldable pub remove : Table → List ℕ → Table
remove t nick = elim (find t nick) [
  | none ↦ t
  | some i ↦
      let count = length t - 1 in
      if ltb i count
      then (elim (get_elem? t count) [
        | none ↦ take count t
        | some last ↦ take count (set t i last)
      ])
      else take count t
]

-- `n02_mcchoices_get`; `none` is -1.
unfoldable pub get : Table → List ℕ → Option Choice
get t nick = elim (find t nick) [
  | none ↦ none
  | some i ↦ elim (get_elem? t i) [ none ↦ none | some e ↦ some e.choice ]
]

unfoldable pub no_login : Table → List ℕ → Bool
no_login t nick = elim (find t nick) [
  | none ↦ false
  | some i ↦ elim (get_elem? t i) [ none ↦ false | some e ↦ e.no_login ]
]

-- The word of a choice.
unfoldable pub word : Choice → Bool → List ℕ
word online no_login = codes "online"
word iso no_login = codes "iso"
word no_card true = codes "sem login"
word no_card false = codes "sem"

-- `N02_MCCHOICE_CHAT_PREFIX`
abbrev pub chat_prefix : List ℕ
chat_prefix = codes "[M. Card] "

-- `n02_mcchoice_line`, for an array of `space` bytes: the characters of the C string left there.
unfoldable pub line : Choice → Bool → ℕ → List ℕ
unfolding word
line choice no_login space = take (space - 1) (chat_prefix ++ word choice no_login)

-- `n02_mcchoice_parse`, on the text behind the prefix.
unfoldable pub parse : List ℕ → Option (Choice × Bool)
parse text =
    if bytes_eq text (codes "online")
    then some (online, false)
    else if bytes_eq text (codes "iso")
    then some (iso, false)
    else if bytes_eq text (codes "sem")
    then some (no_card, false)
    else if bytes_eq text (codes "sem login")
    then some (no_card, true)
    else none

unfoldable pub label : Choice → List ℕ
label online = codes "M. Card Online"
label iso = codes "M. Card da ISO"
label no_card = codes "Sem M. Card"

-- `n02_mcchoice_is_pcsx`; a missing name is the empty one.
unfoldable pub is_pcsx : List ℕ → Bool
is_pcsx game = contains (codes "pcsx") (lower_all (take 255 game))

-- The characters up to the first comma, or to the end.
unfoldable pub field_length : List ℕ → ℕ
field_length [] = 0
field_length (c ∷ p) = let rest = field_length p in if c == b',' then 0 else suc rest

-- The loop of `InList`, over the comma-separated fields of `p`. Each round takes a character at
-- least, so the length of the list is fuel enough.
unfoldable pub in_fields : ℕ → List ℕ → List ℕ → Bool
in_fields zero p nick = false
in_fields (suc fuel) [] nick = false
in_fields (suc fuel) (c ∷ p) nick =
    let len = field_length (c ∷ p) in
    let rest = in_fields fuel (drop (len + 1) (c ∷ p)) nick in
    if len == length nick && same_nick (take len (c ∷ p)) nick
    then true
    else if len == length (c ∷ p)
    then false
    else rest

-- `none` is a list that is `NULL`.
unfoldable pub in_list : Option (List ℕ) → List ℕ → Bool
in_list none nick = false
in_list (some accounts) nick = in_fields (length accounts) accounts nick

-- The first loop: whether a player never announced a choice.
unfoldable pub some_unannounced : Table → List (List ℕ) → Bool
some_unannounced t [] = false
some_unannounced t (name ∷ names) =
    let rest = some_unannounced t names in elim (get t name) [ none ↦ true | some c ↦ rest ]

-- One round of the second loop: slot `s` goes by player `p`.
unfoldable pub slot_of : Table → Option (List ℕ) → List (List ℕ) → ℕ → Choice
slot_of t accounts names s =
    let p = (if ltb s (length names) then s else 0) in
    let name = get_or names p [] in
    elim (get t name) [
      | none ↦ no_card
      | some choice ↦
          if not (p == s) && not (choice_eq choice iso)
          then no_card
          else if not (in_list accounts name)
          then no_card
          else choice
    ]

-- `slot[2]` and `*outdated`.
pub record GameSlots : Type 0 where
  pub first : Choice
  pub second : Choice
  pub outdated : Bool

unfoldable pub game_slots : List (List ℕ) → Table → Option (List ℕ) → Bool → GameSlots
game_slots names t accounts pcsx =
    if not pcsx || length names == 0
    then record { first = no_card; second = no_card; outdated = false }
    else if some_unannounced t names
    then record { first = no_card; second = no_card; outdated = true }
    else record {
      first = slot_of t accounts names 0;
      second = slot_of t accounts names 1;
      outdated = false;
    }
