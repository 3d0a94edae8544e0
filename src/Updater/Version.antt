-- ===== src/Updater/Version.antt =====
-- common/n02_update.cpp, `ParseVersion` and `CompareVersions`: which of two releases is newer.
pub mod Order
use kaillera_client.Prelude.{
  ℕ, zero, suc, ◌+◌, ◌-◌, ◌^◌, min, List, [], ◌∷◌, ◌++◌, Bool, true, false, not, ◌&&◌, ◌||◌, Option,
  none, some, length, drop, get_or, ltb, ◌==◌, if◌then◌else◌, bytes_eq,
}
use kaillera_client.Updater.Manifest.{is_digit, all_chars, split, read_digits}

-- `N02_VERSION_MAX_PARTS`
abbrev pub max_parts : ℕ
max_parts = 8

-- `ParsedVersion`, with the parts in use, so that `count` is the length. `rank` is `suffixRank`
-- plus one: 0 for a release to come, 1 for the plain tag.
pub record ParsedVersion : Type 0 where
  pub parts : List ℕ
  pub rank : ℕ

-- `atoi` on a string that starts with a digit; out of range it stops at `INT_MAX`.
abbrev pub atoi : List ℕ → ℕ
atoi s = min (read_digits 0 s).0 (2 ^ 31 - 1)

-- The characters before the first `-`, and those after it, if there is one.
abbrev pub cut_dash : List ℕ → List ℕ × Option (List ℕ)
cut_dash [] = ([], none)
cut_dash (c ∷ s) = let rest = cut_dash s in if c == b'-' then ([], some s) else (c ∷ rest.0, rest.1)

-- The loop over the pieces between dots: those of digits only are parts.
unfoldable pub collect : List (List ℕ) → List ℕ → List ℕ
collect [] parts = parts
collect (piece ∷ pieces) parts = collect pieces (
    if (not (bytes_eq piece []) && all_chars is_digit piece) && ltb (length parts) max_parts
    then parts ++ atoi piece ∷ []
    else parts)

abbrev pub skip_digits : List ℕ → List ℕ
skip_digits [] = []
skip_digits (c ∷ s) = if is_digit c then skip_digits s else c ∷ s

-- What comes after the dash: `<commits>-g<hash>`, or the name of a release to come.
unfoldable pub suffix_rank : Option (List ℕ) → ℕ
suffix_rank none = 1
suffix_rank (some q) =
    let rest = skip_digits q in
    if ltb (length rest) (length q) && (get_or rest 0 0 == b'-' && get_or rest 1 0 == b'g')
    then atoi q + 1
    else 0

-- `ParseVersion` on the characters of a string; `none` is false.
unfoldable pub parse_version : List ℕ → Option ParsedVersion
parse_version [] = none
parse_version (c ∷ s) =
    let base = cut_dash s in
    let parts = collect (split b'.' base.0) [] in
    if not (c == b'v' || c == b'V')
    then none
    else if length parts == 0
    then none
    else some (record { parts = parts; rank = suffix_rank base.1 })

-- The sign of the result of a comparison.
pub data Verdict : Type 0 where
  older same newer : Verdict

-- The loop of `CompareVersions`, with `n - i` rounds left, and what follows it.
unfoldable pub compare_from : ℕ → ℕ → ParsedVersion → ParsedVersion → Verdict
compare_from zero i a b =
    if a.rank == b.rank then same else if ltb a.rank b.rank then older else newer
compare_from (suc rounds) i a b =
    let x = get_or a.parts i 0 in
    let y = get_or b.parts i 0 in
    let rest = compare_from rounds (i + 1) a b in
    if x == y then rest else if ltb x y then older else newer

unfoldable pub compare_versions : ParsedVersion → ParsedVersion → Verdict
compare_versions a b =
    let n = (if ltb (length b.parts) (length a.parts) then length a.parts else length b.parts) in
    compare_from n 0 a b

unfoldable pub compare_version_strings : List ℕ → List ℕ → Verdict
compare_version_strings remote local = elim (parse_version remote) [
  | none ↦ if bytes_eq remote local then same else newer
  | some r ↦ elim (parse_version local) [
    | none ↦ if bytes_eq remote local then same else newer
    | some l ↦ compare_versions r l
  ]
]
