-- ===== src/Updater/Swap/Whole.antt =====
-- common/n02_update.cpp, `SwapPackage`: its two loops together.
use kaillera_client.Prelude.{
  ℕ, ◌≤◌, ◌≡◌, ◌≢◌, ◌⊎◌, inl, inr, refl, ap, ◌∙◌, sym, subst, List, [], ◌∷◌, Bool, true, false,
  Option, none, some, codes, Bool-cases, arith,
}
use kaillera_client.Updater.{PackageFile, Package}
use kaillera_client.Updater.Files.{
  FileSystem, IsFileSystem, Apart, package_file_path, old_file_path, old_suffix,
}
use kaillera_client.Updater.Swap.{
  Swapped, Progress, full_name, new_name, swap_file, swap_files, put_back, roll_back, swap_package,
}
use kaillera_client.Updater.Swap.Undone.{swap_undone, files_undone, roll_undone, package_undone}
use kaillera_client.Updater.Swap.Rounds.{
  Apart-sym, NotOld, OwnNames, Moved, swap_file-Round, put_back_lem,
}

-- The names that the updater makes of a path.
pub data Kind : Type 0 where
  in_place : Kind
  fetched : Kind
  aside : ℕ → Kind

abbrev pub suffix_of : Kind → List ℕ
suffix_of in_place = []
suffix_of fetched = codes ".new"
suffix_of (aside n) = old_suffix n

abbrev pub IsUsed : Kind → Type 0
IsUsed in_place = Unit
IsUsed fetched = Unit
IsUsed (aside n) = n ≤ 9

-- No name of the one path is a name of the other.
abbrev pub AreApart : List ℕ → List ℕ → List ℕ → Type 0
AreApart dir p q =
    (a b : Kind)
    → IsUsed a
    → IsUsed b
    → Apart (package_file_path dir p (suffix_of a)) (package_file_path dir q (suffix_of b))

module _ (fs : FileSystem) (laws : IsFileSystem fs) (dir : List ℕ) where
  abbrev pub ApartFromAll : List ℕ → List PackageFile → Type 0
  ApartFromAll p [] = Unit
  ApartFromAll p (f ∷ files) = AreApart dir p f.path × ApartFromAll p files

  -- No two names of the package are those of one file.
  abbrev pub Separate : List PackageFile → Type 0
  Separate [] = Unit
  Separate (f ∷ files) = OwnNames fs laws dir f.path × ApartFromAll f.path files × Separate files

  -- The name is none of the `.old` names of the package.
  abbrev pub NotOldOf : List PackageFile → List ℕ → Type 0
  NotOldOf [] x = Unit
  NotOldOf (f ∷ files) x = NotOld fs laws dir f.path x × NotOldOf files x

  -- The name is none of the package's.
  abbrev Elsewhere : List PackageFile → List ℕ → Type 0
  Elsewhere [] x = Unit
  Elsewhere (f ∷ files) x =
      (NotOld fs laws dir f.path x
        × Apart x (full_name fs dir f.path)
        × Apart x (new_name fs dir f.path))
      × Elsewhere files x

  -- What a file that was to be replaced, or was not, holds afterwards.
  abbrev pub Outcome : Bool → List ℕ → fs.Store → fs.Store → Type 0
  Outcome true path s s' =
      (fs.read s' (full_name fs dir path) ≡ fs.read s (new_name fs dir path))
      × (fs.read s (new_name fs dir path) ≢ none)
  Outcome false path s s' = fs.read s' (full_name fs dir path) ≡ fs.read s (full_name fs dir path)

  -- Every file of the package that was fetched is in its place, and the others are as before.
  abbrev pub Installed : List PackageFile → fs.Store → fs.Store → Type 0
  Installed [] s s' = Unit
  Installed (f ∷ files) s s' = Outcome f.download f.path s s' × Installed files s s'

  -- The files of the package are as before, and so are those that were fetched.
  abbrev pub Unchanged : List PackageFile → fs.Store → fs.Store → Type 0
  Unchanged [] s s' = Unit
  Unchanged (f ∷ files) s s' =
      ((fs.read s' (full_name fs dir f.path) ≡ fs.read s (full_name fs dir f.path))
        × (fs.read s' (new_name fs dir f.path) ≡ fs.read s (new_name fs dir f.path)))
      × Unchanged files s s'

  -- The names of the first files are no `.old` names of the second.
  abbrev pub NamesNotOld : List PackageFile → List PackageFile → Type 0
  NamesNotOld [] all = Unit
  NamesNotOld (f ∷ files) all =
      (NotOldOf all (full_name fs dir f.path) × NotOldOf all (new_name fs dir f.path))
      × NamesNotOld files all

  name-NotOldOf :
      (files : List PackageFile) (p : List ℕ) (a : Kind)
      → IsUsed a
      → ApartFromAll p files
      → NotOldOf files (package_file_path dir p (suffix_of a))
  name-NotOldOf [] p a h k = tt
  name-NotOldOf (f ∷ files) p a h k = (λ n m. k.0 a (aside n) h m, name-NotOldOf files p a h k.1)

  name-Elsewhere :
      (files : List PackageFile) (p : List ℕ) (a : Kind)
      → IsUsed a
      → ApartFromAll p files
      → Elsewhere files (package_file_path dir p (suffix_of a))
  name-Elsewhere [] p a h k = tt
  name-Elsewhere (f ∷ files) p a h k = (
    (λ n m. k.0 a (aside n) h m, k.0 a in_place h tt, k.0 a fetched h tt),
    name-Elsewhere files p a h k.1,
  )

  -- The names of the other files stay what they are in a step.
  Installed-shift :
      (files : List PackageFile) (p : List ℕ) (s s1 s' : fs.Store) (step : Swapped)
      → ApartFromAll p files
      → Moved fs laws dir p s step s1
      → Installed files s1 s'
      → Installed files s s'
  Installed-shift [] p s s1 s' step k v h = tt
  Installed-shift (f ∷ files) p s s1 s' step k v h =
      (one f.download h.0, Installed-shift files p s s1 s' step k.1 v h.1)
    where
      same :
          (b : Kind)
          → IsUsed b
          → fs.read s1 (package_file_path dir f.path (suffix_of b))
            ≡ fs.read s (package_file_path dir f.path (suffix_of b))
      same b u =
          let name = package_file_path dir f.path (suffix_of b) in
          v.other name (λ n m. Apart-sym (old_file_path dir p n) name (k.0 (aside n) b m u))
            (Apart-sym (full_name fs dir p) name (k.0 in_place b tt u))
            (Apart-sym (new_name fs dir p) name (k.0 fetched b tt u))

      one : (b : Bool) → Outcome b f.path s1 s' → Outcome b f.path s s'
      one true o = (o.0 ∙ same fetched tt, λ z. o.1 (same fetched tt ∙ z))
      one false o = o ∙ same in_place tt

  -- How the first loop ends: all is in place, or the second loop first takes back what the first
  -- did to these files.
  abbrev Ended : List PackageFile → List Swapped → fs.Store → Progress fs → Type 0
  Ended files steps s e =
      ((e.failed_path ≡ none)
        × Installed files s e.store
        × ((x : List ℕ) → Elsewhere files x → fs.read e.store x ≡ fs.read s x))
      ⊎ ((path : List ℕ) × (u : fs.Store) × (e.failed_path ≡ some path)
          × (roll_back fs dir e.steps e.store ≡ roll_back fs dir steps u)
          × (roll_undone fs dir steps u ≡ true)
          × ((x : List ℕ) → NotOldOf files x → fs.read u x ≡ fs.read s x))

  -- The moves of the second loop succeed, if there is one.
  abbrev RollsBack : Progress fs → Type 0
  RollsBack e =
      (path : List ℕ) → e.failed_path ≡ some path → roll_undone fs dir e.steps e.store ≡ true

  -- A file that is to be replaced, and the rest of the package after it.
  swap_file-Ended :
      (f : PackageFile) (files : List PackageFile) (steps : List Swapped) (s s1 : fs.Store)
      (step : Swapped) (e : Progress fs)
      → f.download ≡ true
      → Separate (f ∷ files)
      → Moved fs laws dir f.path s step s1
      → Ended files (step ∷ steps) s1 e
      → Ended (f ∷ files) steps s e
  unfolding roll_back roll_undone
  swap_file-Ended f files steps s s1 step e d (own, cross, rest) v (inl (ok, installed, frame)) =
      let p = f.path in
      let full = full_name fs dir p in
      let placed : Outcome true p s e.store =
        (frame full (name-Elsewhere files p in_place tt cross) ∙ v.placed, v.some_new) in
      inl (
        ok,
        (
          subst (λ (b : Bool). Outcome b p s e.store) (sym d) placed,
          Installed-shift files p s s1 e.store step cross v installed,
        ),
        λ x k. frame x k.1 ∙ v.other x k.0.0 k.0.1 k.0.2,
      )
  swap_file-Ended f files steps s s1 step e d (own, cross, rest) v
        (inr (path, u, failed, back, undone, same)) =
      let p = f.path in
      inr (
        path,
        put_back fs dir step u,
        failed,
        back,
        ground (arith, undone),
        λ x k.
            put_back_lem fs laws dir p s s1 u step x own v (ground (arith, undone))
              (same (full_name fs dir p) (name-NotOldOf files p in_place tt cross))
              (same (new_name fs dir p) (name-NotOldOf files p fetched tt cross))
              (λ m h. same (old_file_path dir p m) (name-NotOldOf files p (aside m) h cross)) k.0
              (same x k.1),
      )

  -- The three ways of a round.
  swap_files-skip :
      (f : PackageFile) (files : List PackageFile) (steps : List Swapped) (s : fs.Store)
      → f.download ≡ false
      → swap_files fs dir (f ∷ files) steps s ≡ swap_files fs dir files steps s
  unfolding swap_files
  swap_files-skip f files steps s d = rw (d, swap_files) refl

  swap_files-stop :
      (f : PackageFile) (files : List PackageFile) (steps : List Swapped) (s : fs.Store)
      → f.download ≡ true
      → (swap_file fs dir f.path s).0 ≡ none
      → swap_files fs dir (f ∷ files) steps s
        ≡ record { failed_path = some f.path; steps = steps; store = (swap_file fs dir f.path s).1 }
  unfolding swap_files
  swap_files-stop f files steps s d e = rw (d, swap_files) (rw e refl)

  swap_files-go :
      (f : PackageFile) (files : List PackageFile) (steps : List Swapped) (s : fs.Store)
      {step : Swapped}
      → f.download ≡ true
      → (swap_file fs dir f.path s).0 ≡ some step
      → swap_files fs dir (f ∷ files) steps s
        ≡ swap_files fs dir files (step ∷ steps) (swap_file fs dir f.path s).1
  unfolding swap_files
  swap_files-go f files steps s d e = rw (d, swap_files) (rw e refl)

  swap_files-Ended :
      (files : List PackageFile) (steps : List Swapped) (s : fs.Store)
      → Separate files
      → files_undone fs dir files s ≡ true
      → RollsBack (swap_files fs dir files steps s)
      → Ended files steps s (swap_files fs dir files steps s)
  unfolding swap_files files_undone
  swap_files-Ended [] steps s v undone back = inl (refl, tt, λ x k. refl)
  swap_files-Ended (f ∷ files) steps s (own, cross, rest) undone back =
      let s1 = (swap_file fs dir f.path s).1 in
      elim (Bool-cases f.download) [
        | inr skipped ↦
            let same = swap_files-skip f files steps s skipped in
            subst (Ended (f ∷ files) steps s) (sym same) (
              passed (swap_files fs dir files steps s) skipped (
                swap_files-Ended files steps s rest (ground (arith, undone, skipped))
                  (subst RollsBack same back)))
        | inl wanted ↦
            let first : swap_undone fs dir f.path s ≡ true = ground (arith, undone, wanted) in
            elim (swap_file-Round fs laws dir f.path s own first) [
              | inl (e, same) ↦
                  let stop = swap_files-stop f files steps s wanted e in
                  subst (Ended (f ∷ files) steps s) (sym stop) (
                    inr (
                      f.path,
                      s1,
                      refl,
                      refl,
                      subst RollsBack stop back f.path refl,
                      λ x k. same x k.0,
                    ))
              | inr (step, e, v) ↦
                  let go = swap_files-go f files steps s wanted e in
                  subst (Ended (f ∷ files) steps s) (sym go) (
                    swap_file-Ended f files steps s s1 step
                      (swap_files fs dir files (step ∷ steps) s1) wanted (own, cross, rest) v
                      (swap_files-Ended files (step ∷ steps) s1 rest
                        (ground (arith, undone, wanted, e)) (subst RollsBack go back)))
            ]
      ]
    where
      passed :
          (e : Progress fs)
          → f.download ≡ false
          → Ended files steps s e
          → Ended (f ∷ files) steps s e
      passed e d (inl (ok, installed, frame)) = inl (
        ok,
        (
          subst (λ (b : Bool). Outcome b f.path s e.store) (sym d)
              (frame (full_name fs dir f.path) (name-Elsewhere files f.path in_place tt cross)),
          installed,
        ),
        λ x k. frame x k.1,
      )
      passed e d (inr (path, u, failed, back, undone, same)) =
          inr (path, u, failed, back, undone, λ x k. same x k.1)

  same-Unchanged :
      (all files : List PackageFile) (s s' : fs.Store)
      → NamesNotOld files all
      → ((x : List ℕ) → NotOldOf all x → fs.read s' x ≡ fs.read s x)
      → Unchanged files s s'
  same-Unchanged all [] s s' k same = tt
  same-Unchanged all (f ∷ files) s s' k same = (
    (same (full_name fs dir f.path) k.0.0, same (new_name fs dir f.path) k.0.1),
    same-Unchanged all files s s' k.1 same,
  )

  -- A package more in front.
  NamesNotOld-cons :
      (f : PackageFile) (files all : List PackageFile)
      → ApartFromAll f.path files
      → NamesNotOld files all
      → NamesNotOld files (f ∷ all)
  NamesNotOld-cons f [] all k h = tt
  NamesNotOld-cons f (g ∷ files) all k h = (
    (
      (
        λ n m.
            Apart-sym (old_file_path dir f.path n) (full_name fs dir g.path)
              (k.0 (aside n) in_place m tt),
        h.0.0,
      ),
      (
        λ n m.
            Apart-sym (old_file_path dir f.path n) (new_name fs dir g.path)
              (k.0 (aside n) fetched m tt),
        h.0.1,
      ),
    ),
    NamesNotOld-cons f files all k.1 h.1,
  )

  pub Separate-NamesNotOld : (files : List PackageFile) → Separate files → NamesNotOld files files
  Separate-NamesNotOld [] v = tt
  Separate-NamesNotOld (f ∷ files) (own, cross, rest) = (
    (
      (own.full_old, name-NotOldOf files f.path in_place tt cross),
      (own.new_old, name-NotOldOf files f.path fetched tt cross),
    ),
    NamesNotOld-cons f files files cross (Separate-NamesNotOld files rest),
  )

  -- All or nothing.
  abbrev pub Result : Package → fs.Store → List ℕ → Option (List ℕ) × fs.Store → Type 0
  Result pkg s x r =
      ((r.0 ≡ none) × Installed pkg.files s r.1)
      ⊎ ((path : List ℕ) × (r.0 ≡ some path)
          × Unchanged pkg.files s r.1
          × (fs.read r.1 x ≡ fs.read s x))

  pub swap_package-Separate :
      (pkg : Package) (s : fs.Store) (x : List ℕ)
      → Separate pkg.files
      → NotOldOf pkg.files x
      → package_undone fs dir pkg s ≡ true
      → Result pkg s x (swap_package fs dir pkg s)
  unfolding swap_package roll_back package_undone
  swap_package-Separate pkg s x v k undone =
      elim (swap_files-Ended pkg.files [] s v (ground (arith, undone))
        (λ path e. ground (arith, undone, e))) [
          | inl (ok, installed, frame) ↦ inl (rw (ok, swap_package) (refl, installed))
          | inr (path, u, failed, back, rolled, same) ↦
              let names = Separate-NamesNotOld pkg.files v in
              let undone : swap_package fs dir pkg s ≡ (some path, u) =
                rw (failed, swap_package) (ap (λ (t : fs.Store). (some path, t)) back) in
              subst (Result pkg s x) (sym undone)
                (inr (path, refl, same-Unchanged pkg.files pkg.files s u names same, same x k))
        ]
