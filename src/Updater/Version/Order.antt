-- ===== src/Updater/Version/Order.antt =====
-- common/n02_update.cpp, `CompareVersions`: what order it puts the versions in.
use kaillera_client.Prelude.{
  ℕ, zero, suc, ◌+◌, ◌-◌, ◌≤◌, ◌≡◌, refl, ap, ◌∙◌, sym, subst, List, [], ◌∷◌, ◌++◌, Bool, true,
  false, length, get_or, ltb, ◌==◌, if◌then◌else◌, arith, some, none, bytes_eq, ◌||◌, length-append,
  not, ◌&&◌,
}
use mathlib.Core.Option.{some-injective}
use kaillera_client.Updater.Manifest.{is_digit, all_chars, split}
use kaillera_client.Updater.Version.{
  ParsedVersion, Verdict, older, same, newer, max_parts, compare_from, compare_versions, collect,
  parse_version, atoi, cut_dash, suffix_rank, compare_version_strings,
}

-- The other way round.
abbrev pub flip : Verdict → Verdict
flip older = newer
flip same = same
flip newer = older

-- The parts from the `i`-th on, `n` of them with zeros for those that are missing, and the rank.
abbrev pub key_from : ℕ → ℕ → ParsedVersion → List ℕ
key_from zero i v = v.rank ∷ []
key_from (suc n) i v = get_or v.parts i 0 ∷ key_from n (i + 1) v

abbrev pub key : ParsedVersion → List ℕ
key v = key_from max_parts 0 v

-- The lexicographic order.
abbrev pub lex : List ℕ → List ℕ → Verdict
lex [] ys = same
lex (x ∷ xs) [] = same
lex (x ∷ xs) (y ∷ ys) =
    let rest = lex xs ys in if x == y then rest else if ltb x y then older else newer

compare_from-lex :
    (n i : ℕ) (a b : ParsedVersion) → compare_from n i a b ≡ lex (key_from n i a) (key_from n i b)
unfolding compare_from
compare_from-lex zero i a b = refl
compare_from-lex (suc n) i a b = ground (arith, compare_from-lex n (i + 1) a b)

get_or-past : (xs : List ℕ) (i : ℕ) → length xs ≤ i → get_or xs i 0 ≡ 0
get_or-past [] i h = refl
get_or-past (x ∷ xs) zero h = absurd (omega arith)
get_or-past (x ∷ xs) (suc i) h = get_or-past xs i (omega arith)

-- More rounds than there are parts change nothing.
compare_from-more :
    (n d i : ℕ) (a b : ParsedVersion)
    → length a.parts ≤ i + n
    → length b.parts ≤ i + n
    → compare_from (n + d) i a b ≡ compare_from n i a b
unfolding compare_from
compare_from-more zero zero i a b h k = refl
compare_from-more zero (suc d) i a b h k = ground (
  arith,
  get_or-past a.parts i (omega arith),
  get_or-past b.parts i (omega arith),
  compare_from-more zero d (i + 1) a b (omega arith) (omega arith),
)
compare_from-more (suc n) d i a b h k =
    let e : suc n + d ≡ suc (n + d) = omega arith in
    rw e (ground (arith, compare_from-more n d (i + 1) a b (omega arith) (omega arith)))

compare_versions-lex :
    (a b : ParsedVersion)
    → length a.parts ≤ max_parts
    → length b.parts ≤ max_parts
    → compare_versions a b ≡ lex (key a) (key b)
unfolding compare_versions
compare_versions-lex a b h k =
    let n = (if ltb (length b.parts) (length a.parts) then length a.parts else length b.parts) in
    let ha : length a.parts ≤ n = ground arith in
    let hb : length b.parts ≤ n = ground arith in
    let hn : n ≤ max_parts = ground arith in
    let e : n + (max_parts - n) ≡ max_parts = omega arith in
    sym (compare_from-more n (max_parts - n) 0 a b (omega arith) (omega arith))
    ∙ ap (λ (m : ℕ). compare_from m 0 a b) e
    ∙ compare_from-lex max_parts 0 a b

lex-flip : (xs ys : List ℕ) → length xs ≡ length ys → lex ys xs ≡ flip (lex xs ys)
lex-flip [] [] h = refl
lex-flip [] (y ∷ ys) h = absurd (omega arith)
lex-flip (x ∷ xs) [] h = absurd (omega arith)
lex-flip (x ∷ xs) (y ∷ ys) h = ground (arith, lex-flip xs ys (omega arith))

length-key_from : (n i : ℕ) (v : ParsedVersion) → length (key_from n i v) ≡ suc n
length-key_from zero i v = refl
length-key_from (suc n) i v = ap suc (length-key_from n (i + 1) v)

collect-length :
    (pieces : List (List ℕ)) (parts : List ℕ)
    → length parts ≤ max_parts
    → length (collect pieces parts) ≤ max_parts
unfolding collect
collect-length [] parts h = h
collect-length (piece ∷ pieces) parts h =
    collect-length pieces
      (if (not (bytes_eq piece []) && all_chars is_digit piece) && ltb (length parts) max_parts
        then parts ++ atoi piece ∷ []
        else parts)
      (ground (arith, length-append parts (atoi piece ∷ [])))

parse_version-length :
    (s : List ℕ) {v : ParsedVersion} → parse_version s ≡ some v → length v.parts ≤ max_parts
unfolding parse_version
parse_version-length [] h = cc
parse_version-length (c ∷ s) {v} h = go (not (c == b'v' || c == b'V')) (length parts == 0) h
  where
    parts : List ℕ
    parts = collect (split b'.' (cut_dash s).0) []

    go :
        (x y : Bool)
        → (if x
            then none
            else if y
            then none
            else some (record { parts = parts; rank = suffix_rank (cut_dash s).1 }))
          ≡ some v
        → length v.parts ≤ max_parts
    go true y k = cc
    go false true k = cc
    go false false k =
        subst (λ (w : ParsedVersion). length w.parts ≤ max_parts) (some-injective _ v k)
          (collect-length (split b'.' (cut_dash s).0) [] (omega arith))

compare_version_strings-parsed :
    (remote local : List ℕ) {r l : ParsedVersion}
    → parse_version remote ≡ some r
    → parse_version local ≡ some l
    → compare_version_strings remote local ≡ compare_versions r l
unfolding compare_version_strings
compare_version_strings-parsed remote local e f =
    rw (e, compare_version_strings) (rw (f, compare_version_strings) refl)

-- Two version strings that parse compare as the lists of their eight numbers, with zeros for those
-- that are missing, and of what their suffixes count for: in lexicographic order. Exchanging the
-- two turns the verdict round.
pub compare_version_strings-lex :
    (remote local : List ℕ) {r l : ParsedVersion}
    → parse_version remote ≡ some r
    → parse_version local ≡ some l
    → (compare_version_strings remote local ≡ lex (key r) (key l))
      × (compare_version_strings local remote ≡ flip (compare_version_strings remote local))
compare_version_strings-lex remote local {r} {l} e f =
    let there =
      compare_versions-lex r l (parse_version-length remote e) (parse_version-length local f) in
    let back =
      compare_versions-lex l r (parse_version-length local f) (parse_version-length remote e) in
    let turned =
      lex-flip (key r) (key l)
        (length-key_from max_parts 0 r ∙ sym (length-key_from max_parts 0 l)) in
    let given = compare_version_strings-parsed remote local e f in
    (
      given ∙ there,
      compare_version_strings-parsed local remote f e
          ∙ back
          ∙ turned
          ∙ ap flip (sym (given ∙ there)),
    )
