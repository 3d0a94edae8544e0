-- ===== src/Updater/Swap/Names.antt =====
-- common/n02_update.cpp, `PackageFilePath` and `OldFilePath`: the names that are made of the paths
-- of a package.
use kaillera_client.Prelude.{
  ℕ, ◌+◌, ◌-◌, ◌≤◌, ◌<◌, ◌≡◌, ◌≢◌, ◌⊎◌, inl, inr, refl, ap, ap₂, ◌∙◌, sym, subst, List, [], ◌∷◌,
  ◌++◌, append-nil, leb, ◌==◌, if◌then◌else◌, codes, Bool-cases, ==→eq, lower_all, arith, length,
  take, take_of_length-le, length-append,
}
use mathlib.Core.List.{
  append_cancel_left, append_cancel_right, head-eq_of_cons-eq, tail-eq_of_cons-eq,
}
use kaillera_client.Updater.{PackageFile, max_path}
use kaillera_client.Updater.Manifest.Paths.{
  IsSafe, HasExtension, AllNameChars, AllPlain, join, lower_all-append,
}
use kaillera_client.Updater.Manifest.Accepted.{AllListed, AllDistinct, Absent}
use kaillera_client.Updater.Files.{
  FileSystem, IsFileSystem, Apart, backslashes, package_file_path, old_suffix,
}
use kaillera_client.Updater.Swap.Rounds.{OwnNames}
use kaillera_client.Updater.Swap.Whole.{
  Kind, in_place, fetched, aside, suffix_of, IsUsed, AreApart, ApartFromAll, Separate,
}

-- The longest of the names of the path has room in a buffer of `MAX_PATH`.
abbrev pub Fits : List ℕ → List ℕ → Type 0
Fits dir path = length dir + 1 + length path + 5 < max_path

abbrev pub AllFit : List ℕ → List PackageFile → Type 0
AllFit dir [] = Unit
AllFit dir (f ∷ files) = Fits dir f.path × AllFit dir files

-- The name with what does not tell files apart taken out of it.
abbrev folded : List ℕ → List ℕ
folded s = backslashes (lower_all s)

lower_all-backslashes : (s : List ℕ) → lower_all (backslashes s) ≡ folded s
lower_all-backslashes [] = refl
lower_all-backslashes (c ∷ s) =
    ap₂ (λ (x : ℕ) (t : List ℕ). x ∷ t) (ground arith) (lower_all-backslashes s)

backslashes-append : (s t : List ℕ) → backslashes (s ++ t) ≡ backslashes s ++ backslashes t
backslashes-append [] t = refl
backslashes-append (c ∷ s) t = ap (◌∷◌ (if c == b'/' then b'\\' else c)) (backslashes-append s t)

folded-append : (s t : List ℕ) → folded (s ++ t) ≡ folded s ++ folded t
folded-append s t =
    ap backslashes (lower_all-append s t) ∙ backslashes-append (lower_all s) (lower_all t)

length-suffix_of : (a : Kind) → length (suffix_of a) ≤ 5
length-suffix_of in_place = omega arith
length-suffix_of fetched = omega arith
length-suffix_of (aside n) = elim (Bool-cases (leb n 1)) [
  | inl e ↦ rw e (omega arith)
  | inr e ↦ rw e (omega arith)
]

-- The name, in three pieces.
name_lem :
    (dir p : List ℕ) (a : Kind)
    → Fits dir p
    → lower_all (package_file_path dir p (suffix_of a))
      ≡ folded dir ++ b'\\' ∷ (folded p ++ folded (suffix_of a))
unfolding package_file_path
name_lem dir p a h =
    let whole = dir ++ b'\\' ∷ (p ++ suffix_of a) in
    let fits : length whole ≤ max_path - 1 = omega (
      arith,
      length-append dir (b'\\' ∷ (p ++ suffix_of a)),
      length-append p (suffix_of a),
      length-suffix_of a,
    ) in
    lower_all-backslashes (take (max_path - 1) whole)
    ∙ ap folded (take_of_length-le (max_path - 1) whole fits)
    ∙ folded-append dir (b'\\' ∷ (p ++ suffix_of a))
    ∙ ap (λ (t : List ℕ). folded dir ++ b'\\' ∷ t) (folded-append p (suffix_of a))

abbrev last_of : ℕ → List ℕ → ℕ
last_of d [] = d
last_of d (c ∷ s) = last_of c s

last_of-append : (d c : ℕ) (s t : List ℕ) → last_of d (s ++ c ∷ t) ≡ last_of c t
last_of-append d c [] t = refl
last_of-append d c (x ∷ s) t = last_of-append x c s t

-- The last characters of the names of each kind.
abbrev EndOf : Kind → ℕ → Type 0
EndOf in_place c = (c ≡ b'e') ⊎ ((c ≡ b'l') ⊎ (c ≡ b'k'))
EndOf fetched c = c ≡ b'w'
EndOf (aside n) c = c ≡ (if leb n 1 then b'd' else b'0' + n)

-- The last character of a name, which stands behind a backslash.
abbrev tail : List ℕ → Kind → ℕ
tail p a = last_of b'\\' (folded p ++ folded (suffix_of a))

extension_tail :
    (p : List ℕ) (c : ℕ) (ext : List ℕ)
    → HasExtension p (c ∷ ext)
    → tail p in_place ≡ last_of (if c == b'/' then b'\\' else c) (backslashes ext)
extension_tail p c ext (base, e) =
    ap (last_of b'\\')
      (append-nil (folded p) ∙ ap backslashes e ∙ backslashes-append base (c ∷ ext))
    ∙ last_of-append b'\\' (if c == b'/' then b'\\' else c) (backslashes base) (backslashes ext)

tail-EndOf : (p : List ℕ) (a : Kind) → IsSafe p → IsUsed a → EndOf a (tail p a)
tail-EndOf p in_place v h = elim v.binary [
  | inl e ↦ inl (extension_tail p b'.' (codes "exe") e)
  | inr (inl e) ↦ inr (inl (extension_tail p b'.' (codes "dll") e))
  | inr (inr e) ↦ inr (inr (extension_tail p b'.' (codes "lck") e))
]
tail-EndOf p fetched v h = last_of-append b'\\' b'.' (folded p) (codes "new")
tail-EndOf p (aside n) v h = elim (Bool-cases (leb n 1)) [
  | inl e ↦ rw e (last_of-append b'\\' b'.' (folded p) (codes "old"))
  | inr e ↦
      let digit : folded ((b'0' + n) ∷ []) ≡ (b'0' + n) ∷ [] =
        ap (λ (x : ℕ). x ∷ []) (ground arith) in
      rw e (
        last_of-append b'\\' b'.' (folded p) (b'o' ∷ b'l' ∷ b'd' ∷ folded ((b'0' + n) ∷ []))
        ∙ ap (last_of b'd') digit)
]

-- Names that end differently.
tails_differ :
    (dir p q : List ℕ) (a b : Kind)
    → Fits dir p
    → Fits dir q
    → tail p a ≢ tail q b
    → Apart (package_file_path dir p (suffix_of a)) (package_file_path dir q (suffix_of b))
tails_differ dir p q a b f g h e = h (
    sym (last_of-append 0 b'\\' (folded dir) (folded p ++ folded (suffix_of a)))
    ∙ ap (last_of 0) (sym (name_lem dir p a f) ∙ e ∙ name_lem dir q b g)
    ∙ last_of-append 0 b'\\' (folded dir) (folded q ++ folded (suffix_of b)))

-- Names that end alike, of different paths.
paths_differ :
    (dir p q : List ℕ) (a b : Kind)
    → Fits dir p
    → Fits dir q
    → suffix_of a ≡ suffix_of b
    → folded p ≢ folded q
    → Apart (package_file_path dir p (suffix_of a)) (package_file_path dir q (suffix_of b))
paths_differ dir p q a b f g same h e =
    let whole = sym (name_lem dir p a f) ∙ e ∙ name_lem dir q b g in
    let rest =
      append_cancel_left (b'\\' ∷ []) (folded p ++ folded (suffix_of a))
        (folded q ++ folded (suffix_of b)) (append_cancel_left (folded dir) _ _ whole) in
    h (
      append_cancel_right (folded p) (folded q) (folded (suffix_of b))
        (ap (λ (t : List ℕ). folded p ++ folded t) (sym same) ∙ rest))

-- A path of the package has no backslashes, so that folding it loses the case only.
abbrev Slashed : List ℕ → Type 0
Slashed [] = Unit
Slashed (c ∷ s) = (c ≢ b'\\') × Slashed s

Slashed-folded :
    (p q : List ℕ) → Slashed p → Slashed q → folded p ≡ folded q → lower_all p ≡ lower_all q
Slashed-folded [] [] v w e = refl
Slashed-folded [] (d ∷ q) v w e = cc
Slashed-folded (c ∷ p) [] v w e = cc
Slashed-folded (c ∷ p) (d ∷ q) v w e =
    let first = head-eq_of_cons-eq e in
    let rest = tail-eq_of_cons-eq e in
    ap₂ (λ (x : ℕ) (t : List ℕ). x ∷ t) (ground (arith, v, w, first))
      (Slashed-folded p q v.1 w.1 rest)

Slashed-append : (s t : List ℕ) → Slashed s → Slashed t → Slashed (s ++ t)
Slashed-append [] t v w = w
Slashed-append (c ∷ s) t v w = (v.0, Slashed-append s t v.1 w)

AllNameChars-Slashed : (s : List ℕ) → AllNameChars s → Slashed s
AllNameChars-Slashed [] h = tt
AllNameChars-Slashed (c ∷ s) h = (h.0.3, AllNameChars-Slashed s h.1)

join-Slashed : (segs : List (List ℕ)) → AllPlain segs → Slashed (join b'/' segs)
join-Slashed [] h = tt
join-Slashed (seg ∷ []) h = AllNameChars-Slashed seg h.0.3
join-Slashed (seg ∷ more ∷ segs) h =
    Slashed-append seg (b'/' ∷ join b'/' (more ∷ segs)) (AllNameChars-Slashed seg h.0.3)
      ((λ e. absurd (ground arith)), join-Slashed (more ∷ segs) h.1)

IsSafe-Slashed : {p : List ℕ} → IsSafe p → Slashed p
IsSafe-Slashed v = subst Slashed (sym v.whole) (join-Slashed v.segs v.plain)

-- Two of the `.old` suffixes are the same, or end differently.
old_suffix-cases :
    (n m : ℕ)
    → n ≤ 9
    → m ≤ 9
    → (old_suffix n ≡ old_suffix m)
      ⊎ ((if leb n 1 then b'd' else b'0' + n) ≢ (if leb m 1 then b'd' else b'0' + m))
old_suffix-cases n m h k = elim (Bool-cases (leb n 1)) [
  | inl a ↦ elim (Bool-cases (leb m 1)) [
    | inl b ↦ inl (rw (a, b) refl)
    | inr b ↦ inr (rw (a, b) (λ e. absurd (ground (arith, e, k))))
  ]
  | inr a ↦ elim (Bool-cases (leb m 1)) [
    | inl b ↦ inr (rw (a, b) (λ e. absurd (ground (arith, e, h))))
    | inr b ↦ elim (Bool-cases (n == m)) [
      | inl same ↦ inl (ap old_suffix (==→eq n m same))
      | inr differ ↦ inr (rw (a, b) (λ e. absurd (ground (arith, e, differ))))
    ]
  ]
]

IsSafe-AreApart :
    (dir p q : List ℕ)
    → IsSafe p
    → IsSafe q
    → Fits dir p
    → Fits dir q
    → lower_all p ≢ lower_all q
    → AreApart dir p q
IsSafe-AreApart dir p q v w f g h a b u t = kinds a b u t (tail-EndOf p a v u) (tail-EndOf q b w t)
  where
    other : folded p ≢ folded q
    other e = h (Slashed-folded p q (IsSafe-Slashed v) (IsSafe-Slashed w) e)

    kinds :
        (a b : Kind)
        → IsUsed a
        → IsUsed b
        → EndOf a (tail p a)
        → EndOf b (tail q b)
        → Apart (package_file_path dir p (suffix_of a)) (package_file_path dir q (suffix_of b))
    kinds in_place in_place u t x y = paths_differ dir p q in_place in_place f g refl other
    kinds fetched fetched u t x y = paths_differ dir p q fetched fetched f g refl other
    kinds in_place fetched u t x y =
        tails_differ dir p q in_place fetched f g (λ e. absurd (ground (arith, e, x, y)))
    kinds fetched in_place u t x y =
        tails_differ dir p q fetched in_place f g (λ e. absurd (ground (arith, e, x, y)))
    kinds in_place (aside n) u t x y =
        tails_differ dir p q in_place (aside n) f g (λ e. absurd (ground (arith, e, x, y, t)))
    kinds (aside n) in_place u t x y =
        tails_differ dir p q (aside n) in_place f g (λ e. absurd (ground (arith, e, x, y, u)))
    kinds fetched (aside n) u t x y =
        tails_differ dir p q fetched (aside n) f g (λ e. absurd (ground (arith, e, x, y, t)))
    kinds (aside n) fetched u t x y =
        tails_differ dir p q (aside n) fetched f g (λ e. absurd (ground (arith, e, x, y, u)))
    kinds (aside n) (aside m) u t x y = elim (old_suffix-cases n m u t) [
      | inl same ↦ paths_differ dir p q (aside n) (aside m) f g same other
      | inr differ ↦ tails_differ dir p q (aside n) (aside m) f g (λ e. differ (sym x ∙ e ∙ y))
    ]

module _ (fs : FileSystem) (laws : IsFileSystem fs) (dir : List ℕ) where
  IsSafe-OwnNames : (p : List ℕ) → IsSafe p → Fits dir p → OwnNames fs laws dir p
  IsSafe-OwnNames p v f =
      let whole = tail-EndOf p in_place v tt in
      let fresh = tail-EndOf p fetched v tt in
      record {
        full_new =
            tails_differ dir p p in_place fetched f f
              (λ e. absurd (ground (arith, e, whole, fresh)));
        full_old = λ n h.
            (let old = tail-EndOf p (aside n) v h in
              tails_differ dir p p in_place (aside n) f f
                (λ e. absurd (ground (arith, e, whole, old, h))));
        new_old = λ n h.
            (let old = tail-EndOf p (aside n) v h in
              tails_differ dir p p fetched (aside n) f f
                (λ e. absurd (ground (arith, e, fresh, old, h))));
      }

  IsSafe-ApartFromAll :
      (p : List ℕ) (files : List PackageFile)
      → IsSafe p
      → Fits dir p
      → AllListed files
      → AllFit dir files
      → Absent p files
      → ApartFromAll fs laws dir p files
  IsSafe-ApartFromAll p [] v f l g k = tt
  IsSafe-ApartFromAll p (q ∷ files) v f l g k = (
    IsSafe-AreApart dir p q.path v l.0.path f g.0 (λ e. k.0 (sym e)),
    IsSafe-ApartFromAll p files v f l.1 g.1 k.1,
  )

  pub AllDistinct-Separate :
      (files : List PackageFile)
      → AllListed files
      → AllDistinct files
      → AllFit dir files
      → Separate fs laws dir files
  AllDistinct-Separate [] l d f = tt
  AllDistinct-Separate (q ∷ files) l d f = (
    IsSafe-OwnNames q.path l.0.path f.0,
    IsSafe-ApartFromAll q.path files l.0.path f.0 l.1 f.1 d.0,
    AllDistinct-Separate files l.1 d.1 f.1,
  )
