-- ===== src/KrecReader/Markers.antt =====
-- common/krec_reader.h: the marker texts that n02 writes into a replay, and the tag in its name.
use kaillera_client.Prelude.{
  ℕ, zero, suc, List, [], ◌∷◌, Bool, true, false, ◌||◌, Option, none, some, length, take, drop,
  ◌==◌, if◌then◌else◌, codes, starts_with, contains, lower_all,
}
use kaillera_client.KrecReader.{KrecReader, detect_marker}

abbrev pub memcard_prefix : List ℕ
memcard_prefix = codes "[Sem M. Card]"

abbrev pub multitap_prefix : List ℕ
multitap_prefix = codes "[MultiTap]"

abbrev pub mconline_prefix : List ℕ
mconline_prefix = codes "[M. Card online] "

-- `none` is the result -1, `some true` is 1 and `some false` is 0.
unfoldable pub flag_from_marker : List ℕ → List ℕ → Option Bool
flag_from_marker prefix msg =
    if starts_with prefix msg
    then some (if contains (codes "desativado") msg then false else true)
    else none

unfoldable pub memcard_from_marker : List ℕ → Option Bool
unfolding flag_from_marker
memcard_from_marker msg = flag_from_marker memcard_prefix msg

unfoldable pub multitap_from_marker : List ℕ → Option Bool
unfolding flag_from_marker
multitap_from_marker msg = flag_from_marker multitap_prefix msg

-- `while (*p == ' ') p++`
unfoldable pub skip_spaces : List ℕ → List ℕ
skip_spaces [] = []
skip_spaces (c ∷ p) = let rest = skip_spaces p in if c == b' ' then rest else c ∷ p

-- `while (p[n] && p[n] != ' ' && n < 64) n++`, for the `room` characters that are left.
unfoldable pub word_length : ℕ → List ℕ → ℕ
word_length zero p = 0
word_length (suc room) [] = 0
word_length (suc room) (c ∷ p) = if c == b' ' then 0 else suc (word_length room p)

-- The two cards named by the marker.
unfoldable pub mconline_from_marker : List ℕ → Option (List ℕ × List ℕ)
unfolding skip_spaces word_length
mconline_from_marker msg =
    if starts_with mconline_prefix msg
    then (let p = skip_spaces (drop (length mconline_prefix) msg) in
        let n = word_length 64 p in
        let q = skip_spaces (drop n p) in
        let k = word_length 64 q in if n == 64 || k == 64 then some (take n p, take k q) else none)
    else none

unfoldable pub is_marker : List ℕ → Bool
unfolding memcard_from_marker multitap_from_marker mconline_from_marker
is_marker msg = elim (memcard_from_marker msg) [
  | some b ↦ true
  | none ↦ elim (multitap_from_marker msg) [
    | some b ↦ true
    | none ↦ elim (mconline_from_marker msg) [ some p ↦ true | none ↦ false ]
  ]
]

-- The part of a path behind its last separator.
unfoldable pub base_name : List ℕ → List ℕ → List ℕ
base_name name [] = name
base_name name (c ∷ p) = base_name (if c == b'\\' || c == b'/' then p else name) p

-- The loop over the places of the name, either tag at the first place that has one.
unfoldable pub find_tag : List ℕ → Option Bool
find_tag [] = none
find_tag (c ∷ name) =
    let rest = find_tag name in
    if starts_with (lower_all (codes "SemMCard")) (lower_all (c ∷ name))
    then some true
    else if starts_with (lower_all (codes "ComMCard")) (lower_all (c ∷ name))
    then some false
    else rest

unfoldable pub memcard_from_name : List ℕ → Option Bool
unfolding base_name find_tag
memcard_from_name path = find_tag (base_name path path)

unfoldable pub detect_memcard_marker : KrecReader → ℕ → Option Bool × KrecReader
detect_memcard_marker r max_records = detect_marker r memcard_from_marker max_records

unfoldable pub detect_multitap_marker : KrecReader → ℕ → Option Bool × KrecReader
detect_multitap_marker r max_records = detect_marker r multitap_from_marker max_records

unfoldable pub detect_mconline_marker : KrecReader → ℕ → Option (List ℕ × List ℕ) × KrecReader
detect_mconline_marker r max_records = detect_marker r mconline_from_marker max_records
