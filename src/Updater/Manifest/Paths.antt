-- ===== src/Updater/Manifest/Paths.antt =====
-- common/n02_update.cpp, `SafePackagePath`: where a path that it accepts can lead.
use kaillera_client.Prelude.{
  ℕ, ◌+◌, ◌-◌, ◌≤◌, ◌<◌, ◌≡◌, ◌≢◌, ◌⊎◌, inl, inr, refl, ap, ◌∙◌, sym, List, [], ◌∷◌, ◌++◌, true,
  false, ◌||◌, length, drop, take, ◌==◌, ==→eq, bytes_eq, bytes_eq→eq, bytes_eq_refl, lower,
  lower_all, codes, arith, Bool-cases, take-append-drop,
}
use kaillera_client.Updater.{max_path}
use kaillera_client.Updater.Manifest.{
  ends_with_no_case, path_char, all_chars, add_first, split, all_segments, safe_package_path,
}

-- The pieces with `sep` between them.
abbrev pub join : ℕ → List (List ℕ) → List ℕ
join sep [] = []
join sep (piece ∷ []) = piece
join sep (piece ∷ more ∷ pieces) = piece ++ sep ∷ join sep (more ∷ pieces)

join-add_first :
    (sep c : ℕ) (pieces : List (List ℕ)) → join sep (add_first c pieces) ≡ c ∷ join sep pieces
join-add_first sep c [] = refl
join-add_first sep c (piece ∷ []) = refl
join-add_first sep c (piece ∷ more ∷ pieces) = refl

abbrev Some : List (List ℕ) → Type 0
Some [] = ⊥
Some (piece ∷ pieces) = Unit

split-Some : (sep : ℕ) (s : List ℕ) → Some (split sep s)
unfolding split
split-Some sep [] = tt
split-Some sep (c ∷ s) = elim (Bool-cases (c == sep)) [
  | inl cut ↦ rw cut tt
  | inr kept ↦ rw kept (added (split sep s))
]
  where
    added : (pieces : List (List ℕ)) → Some (add_first c pieces)
    added [] = tt
    added (piece ∷ pieces) = tt

join_cut :
    (sep : ℕ) (pieces : List (List ℕ))
    → Some pieces
    → join sep ([] ∷ pieces) ≡ sep ∷ join sep pieces
join_cut sep [] h = absurd h
join_cut sep (piece ∷ pieces) h = refl

-- The pieces are those of the string.
join-split : (sep : ℕ) (s : List ℕ) → join sep (split sep s) ≡ s
unfolding split
join-split sep [] = refl
join-split sep (c ∷ s) = elim (Bool-cases (c == sep)) [
  | inl cut ↦ rw cut (
      join_cut sep (split sep s) (split-Some sep s)
      ∙ ap (◌∷◌ sep) (join-split sep s)
      ∙ ap (λ (x : ℕ). x ∷ s) (sym (==→eq c sep cut)))
  | inr kept ↦ rw kept (join-add_first sep c (split sep s) ∙ ap (◌∷◌ c) (join-split sep s))
]

-- A character that names a file and nothing else: printable ASCII, neither a separator nor the
-- colon of a drive.
abbrev pub IsNameChar : ℕ → Type 0
IsNameChar c = (32 ≤ c) × (c < 127) × (c ≢ b'/') × (c ≢ b'\\') × (c ≢ b':')

abbrev pub AllNameChars : List ℕ → Type 0
AllNameChars [] = Unit
AllNameChars (c ∷ s) = IsNameChar c × AllNameChars s

-- The name of a folder below, or of a file.
abbrev pub IsPlain : List ℕ → Type 0
IsPlain seg = (seg ≢ []) × (seg ≢ codes ".") × (seg ≢ codes "..") × AllNameChars seg

abbrev pub AllPlain : List (List ℕ) → Type 0
AllPlain [] = Unit
AllPlain (seg ∷ segs) = IsPlain seg × AllPlain segs

abbrev AllPieces : List (List ℕ) → Type 0
AllPieces [] = Unit
AllPieces (piece ∷ pieces) = AllNameChars piece × AllPieces pieces

split-AllPieces : (s : List ℕ) → all_chars path_char s ≡ true → AllPieces (split b'/' s)
unfolding split
split-AllPieces [] h = (tt, tt)
split-AllPieces (c ∷ s) h = elim (Bool-cases (c == b'/')) [
  | inl cut ↦ rw cut (tt, split-AllPieces s (ground arith))
  | inr kept ↦ rw kept (added (split b'/' s) (ground arith) (split-AllPieces s (ground arith)))
]
  where
    added :
        (pieces : List (List ℕ)) → IsNameChar c → AllPieces pieces → AllPieces (add_first c pieces)
    added [] h k = ((h, tt), tt)
    added (piece ∷ pieces) h k = ((h, k.0), k.1)

segments_plain : (segs : List (List ℕ)) → AllPieces segs → all_segments segs ≡ true → AllPlain segs
segments_plain [] p h = tt
segments_plain (seg ∷ segs) p h = (
  (
    differs [] (ground arith),
    differs (codes ".") (ground arith),
    differs (codes "..") (ground arith),
    p.0,
  ),
  segments_plain segs p.1 (ground arith),
)
  where
    differs : (t : List ℕ) → bytes_eq seg t ≡ false → seg ≢ t
    differs t k e = absurd (ground (arith, bytes_eq_refl t, k, ap (λ (x : List ℕ). bytes_eq x t) e))

-- The name ends with `ext`, in whatever case.
abbrev pub HasExtension : List ℕ → List ℕ → Type 0
HasExtension p ext = (base : List ℕ) × (lower_all p ≡ base ++ ext)

pub lower_all-append : (s t : List ℕ) → lower_all (s ++ t) ≡ lower_all s ++ lower_all t
lower_all-append [] t = refl
lower_all-append (c ∷ s) t = ap (◌∷◌ (lower c)) (lower_all-append s t)

ends_with_no_case-HasExtension :
    (p ext : List ℕ) → ends_with_no_case p ext ≡ true → HasExtension p (lower_all ext)
unfolding ends_with_no_case
ends_with_no_case-HasExtension p ext h =
    let n = length p - length ext in
    (
      lower_all (take n p),
      ap lower_all (sym (take-append-drop n p))
          ∙ lower_all-append (take n p) (drop n p)
          ∙ ap (λ (x : List ℕ). lower_all (take n p) ++ x)
              (bytes_eq→eq (lower_all (drop n p)) (lower_all ext) (ground arith)),
    )

-- A path to a program's file, that stays in the folder it starts from.
pub record IsSafe (p : List ℕ) : Type 0 where
  pub segs : List (List ℕ)
  pub whole : p ≡ join b'/' segs
  pub plain : AllPlain segs
  pub short : length p + 8 < max_path
  pub binary :
      HasExtension p (codes ".exe")
      ⊎ (HasExtension p (codes ".dll") ⊎ HasExtension p (codes ".lck"))

pub safe_package_path-IsSafe : (p : List ℕ) → safe_package_path p ≡ true → IsSafe p
unfolding safe_package_path
safe_package_path-IsSafe p h =
    let chars : all_chars path_char p ≡ true = ground arith in
    let segs : all_segments (split b'/' p) ≡ true = ground arith in
    record {
      segs = split b'/' p;
      whole = sym (join-split b'/' p);
      plain = segments_plain (split b'/' p) (split-AllPieces p chars) segs;
      short = ground arith;
      binary = one_of (ground arith);
    }
  where
    one_of :
        (ends_with_no_case p (codes ".exe")
            || (ends_with_no_case p (codes ".dll") || ends_with_no_case p (codes ".lck")))
          ≡ true
        → HasExtension p (codes ".exe")
          ⊎ (HasExtension p (codes ".dll") ⊎ HasExtension p (codes ".lck"))
    one_of k = elim (Bool-cases (ends_with_no_case p (codes ".exe"))) [
      | inl e ↦ inl (ends_with_no_case-HasExtension p (codes ".exe") e)
      | inr ne ↦ elim (Bool-cases (ends_with_no_case p (codes ".dll"))) [
        | inl d ↦ inr (inl (ends_with_no_case-HasExtension p (codes ".dll") d))
        | inr nd ↦ inr (inr (ends_with_no_case-HasExtension p (codes ".lck") (ground arith)))
      ]
    ]
