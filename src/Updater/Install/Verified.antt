-- ===== src/Updater/Install/Verified.antt =====
-- common/n02_update.cpp, `CheckPackageUpdate`: what the program's files are after it.
use kaillera_client.Prelude.{
  ℕ, ◌≡◌, ◌⊎◌, refl, ◌∙◌, List, [], ◌∷◌, Bool, true, false, not, if◌then◌else◌, bytes_eq→eq,
  Bool-cases, Option-cases, inl, inr, arith,
}
use kaillera_client.Updater.{PackageFile, Package}
use kaillera_client.Updater.Manifest.{same_name}
use kaillera_client.Updater.Manifest.Accepted.{IsInstallable}
use kaillera_client.Updater.Version.{Verdict, older, same, newer, compare_version_strings}
use kaillera_client.Updater.Files.{FileSystem, IsFileSystem}
use kaillera_client.Updater.Swap.{full_name, new_name, swap_package}
use kaillera_client.Updater.Swap.Rounds.{Apart-sym}
use kaillera_client.Updater.Swap.Whole.{
  in_place, fetched, ApartFromAll, NotOldOf, Separate, NamesNotOld, Separate-NamesNotOld, Outcome,
  Installed, Unchanged, swap_package-Separate,
}
use kaillera_client.Updater.Swap.Names.{AllFit, AllDistinct-Separate}
use kaillera_client.Updater.Install.{
  Response, Ending, not_used, handled, installed, package_self, is_same, up_to_date, mark_file,
  mark_files, is_tieres, wanted, download_files, delete_old_files, delete_new_files, fetch_package,
  check_package_update,
}
use kaillera_client.Updater.Install.Undone.{fetch_undone, update_undone}
use kaillera_client.Updater.Install.Fetched.{
  IsGenuine, NotNewOf, AllFetched, download_files-other, download_files-AllFetched,
  delete_old_files-other, delete_new_files-other,
}

abbrev pub is_installed : Ending → Bool
is_installed installed = true
is_installed _ = false

module _ (fs : FileSystem) (laws : IsFileSystem fs) (sha : List ℕ → List ℕ) (opens : List ℕ → Bool)
    (dir : List ℕ) where
  abbrev pub Kept : PackageFile → fs.Store → fs.Store → Type 0
  Kept f s s' = fs.read s' (full_name fs dir f.path) ≡ fs.read s (full_name fs dir f.path)

  -- The files of the program are as before.
  abbrev pub AllKept : List PackageFile → fs.Store → fs.Store → Type 0
  AllKept [] s s' = Unit
  AllKept (f ∷ files) s s' = Kept f s s' × AllKept files s s'

  -- Every file is the one that the manifest lists; the library itself may stay as it was, if the
  -- versions are the same.
  abbrev pub AllGenuine : Verdict → List PackageFile → fs.Store → fs.Store → Type 0
  AllGenuine cmp [] s s' = Unit
  AllGenuine cmp (f ∷ files) s s' =
      (IsGenuine fs laws sha opens dir f (full_name fs dir f.path) s'
        ⊎ ((is_same cmp ≡ true) × (same_name f.path package_self ≡ true) × Kept f s s'))
      × AllGenuine cmp files s s'

  -- The names of the first files are no `.new` names of the second.
  abbrev NotNew : List PackageFile → List PackageFile → Type 0
  NotNew [] all = Unit
  NotNew (f ∷ files) all =
      NotNewOf fs laws sha opens dir all (full_name fs dir f.path) × NotNew files all

  full_name-NotNewOf :
      (files : List PackageFile) (p : List ℕ)
      → ApartFromAll fs laws dir p files
      → NotNewOf fs laws sha opens dir files (full_name fs dir p)
  full_name-NotNewOf [] p k = tt
  full_name-NotNewOf (f ∷ files) p k = (k.0 in_place fetched tt tt, full_name-NotNewOf files p k.1)

  NotNew-cons :
      (f : PackageFile) (files all : List PackageFile)
      → ApartFromAll fs laws dir f.path files
      → NotNew files all
      → NotNew files (f ∷ all)
  NotNew-cons f [] all k h = tt
  NotNew-cons f (g ∷ files) all k h = (
    (
      Apart-sym (new_name fs dir f.path) (full_name fs dir g.path) (k.0 fetched in_place tt tt),
      h.0,
    ),
    NotNew-cons f files all k.1 h.1,
  )

  Separate-NotNew : (files : List PackageFile) → Separate fs laws dir files → NotNew files files
  Separate-NotNew [] v = tt
  Separate-NotNew (f ∷ files) (own, cross, rest) = (
    (own.full_new, full_name-NotNewOf files f.path cross),
    NotNew-cons f files files cross (Separate-NotNew files rest),
  )

  -- Where nothing but `.new` and `.old` names was touched.
  AllKept_lem :
      (all files : List PackageFile) (s s' : fs.Store)
      → NamesNotOld fs laws dir files all
      → NotNew files all
      → ((x : List ℕ)
          → NotOldOf fs laws dir all x
          → NotNewOf fs laws sha opens dir all x
          → fs.read s' x ≡ fs.read s x)
      → AllKept files s s'
  AllKept_lem all [] s s' k n untouched = tt
  AllKept_lem all (f ∷ files) s s' k n untouched =
      (untouched (full_name fs dir f.path) k.0.0 n.0, AllKept_lem all files s s' k.1 n.1 untouched)

  AllKept-trans :
      (files : List PackageFile) (s t u : fs.Store)
      → AllKept files s t
      → AllKept files t u
      → AllKept files s u
  AllKept-trans [] s t u h k = tt
  AllKept-trans (f ∷ files) s t u h k = (k.0 ∙ h.0, AllKept-trans files s t u h.1 k.1)

  Unchanged-AllKept :
      (files : List PackageFile) (s t : fs.Store)
      → Unchanged fs laws dir files s t
      → AllKept files s t
  Unchanged-AllKept [] s t h = tt
  Unchanged-AllKept (f ∷ files) s t h = (h.0.0, Unchanged-AllKept files s t h.1)

  -- Some name that is no `.old` name of the package.
  some_name :
      (files : List PackageFile)
      → Separate fs laws dir files
      → (x : List ℕ) × NotOldOf fs laws dir files x
  some_name [] v = ([], tt)
  some_name (f ∷ files) v =
      (full_name fs dir f.path, (Separate-NamesNotOld fs laws dir (f ∷ files) v).0.0)

  -- How the fetching ends.
  abbrev Fetching : Package → fs.Store → Ending × fs.Store → Type 0
  Fetching pkg s r =
      ((t : fs.Store) × (is_installed r.0 ≡ true)
        × AllKept pkg.files s t
        × AllFetched fs laws sha opens dir pkg.files t
        × Installed fs laws dir pkg.files t r.1)
      ⊎ ((is_installed r.0 ≡ false) × AllKept pkg.files s r.1)

  fetch_package-Fetching :
      (web : List ℕ → Response) (pkg : Package) (s : fs.Store)
      → Separate fs laws dir pkg.files
      → fetch_undone fs sha opens dir web pkg s ≡ true
      → Fetching pkg s (fetch_package fs sha opens dir web pkg s)
  unfolding fetch_package fetch_undone
  fetch_package-Fetching web pkg s v undo =
      let got = download_files fs sha opens dir web pkg.files s in
      let swapped = swap_package fs dir pkg got.1 in
      let k = Separate-NamesNotOld fs laws dir pkg.files v in
      let n = Separate-NotNew pkg.files v in
      let first =
        AllKept_lem pkg.files pkg.files s got.1 k n
          (λ x a b. download_files-other fs laws sha opens dir web pkg.files x s b) in
      let undone = λ (t : fs.Store).
        AllKept_lem pkg.files pkg.files t (delete_new_files fs sha opens dir pkg.files t) k n
          (λ x a b. delete_new_files-other fs laws sha opens dir pkg.files x t b) in
      elim (Bool-cases got.0) [
        | inr failed ↦
            rw (failed, fetch_package)
              (inr (refl, AllKept-trans pkg.files s got.1 _ first (undone got.1)))
        | inl done ↦
            let (x, outside) = some_name pkg.files v in
            elim (swap_package-Separate fs laws dir pkg got.1 x v outside
              (ground (arith, undo, done))) [
                | inl (e, placed) ↦
                    rw (done, e, fetch_package)
                      (inl (
                        got.1,
                        refl,
                        first,
                        download_files-AllFetched fs laws sha opens dir web pkg.files s v done,
                        placed,
                      ))
                | inr (path, e, back, other) ↦
                    rw (done, e, fetch_package)
                      (inr (
                        refl,
                        AllKept-trans pkg.files s got.1 _ first (
                            AllKept-trans pkg.files got.1 swapped.1 _
                              (Unchanged-AllKept pkg.files got.1 swapped.1 back)
                              (undone swapped.1)),
                      ))
              ]
      ]

  up_to_date-IsGenuine :
      (f : PackageFile) (s : fs.Store)
      → up_to_date fs sha opens dir f s ≡ true
      → IsGenuine fs laws sha opens dir f (full_name fs dir f.path) s
  up_to_date-IsGenuine f s h = elim (Option-cases (fs.read s (full_name fs dir f.path))) [
    | inl e ↦ absurd (ground (arith, e, h))
    | inr (bytes, e) ↦
        (bytes, e, ground (arith, e, h), bytes_eq→eq (sha bytes) f.sha256 (ground (arith, e, h)))
  ]

  -- A file that was marked, at the end.
  marked-AllGenuine :
      (cmp : Verdict) (files : List PackageFile) (s t s' : fs.Store)
      → AllKept (mark_files fs sha opens dir cmp s files) s t
      → AllFetched fs laws sha opens dir (mark_files fs sha opens dir cmp s files) t
      → Installed fs laws dir (mark_files fs sha opens dir cmp s files) t s'
      → AllGenuine cmp files s s'
  unfolding mark_files
  marked-AllGenuine cmp [] s t s' k g i = tt
  marked-AllGenuine cmp (f ∷ files) s t s' k g i = (
    one (mark_file fs sha opens dir cmp s f).download refl i.0,
    marked-AllGenuine cmp files s t s' k.1 g.1 i.1,
  )
    where
      one :
          (b : Bool)
          → (mark_file fs sha opens dir cmp s f).download ≡ b
          → Outcome fs laws dir b f.path t s'
          → IsGenuine fs laws sha opens dir f (full_name fs dir f.path) s'
            ⊎ ((is_same cmp ≡ true) × (same_name f.path package_self ≡ true) × Kept f s s')
      one true e o = let (bytes, held, size, hash) = g.0 e in inl (bytes, o.0 ∙ held, size, hash)
      one false e o = elim (Bool-cases (up_to_date fs sha opens dir f s)) [
        | inl current ↦
            let (bytes, held, size, hash) = up_to_date-IsGenuine f s current in
            inl (bytes, o ∙ k.0 ∙ held, size, hash)
        | inr stale ↦ inr (ground (arith, e, stale), ground (arith, e, stale), o ∙ k.0)
      ]

  -- Marking changes no names.
  mark_files-ApartFromAll :
      (cmp : Verdict) (s : fs.Store) (p : List ℕ) (files : List PackageFile)
      → ApartFromAll fs laws dir p files
      → ApartFromAll fs laws dir p (mark_files fs sha opens dir cmp s files)
  unfolding mark_files
  mark_files-ApartFromAll cmp s p [] k = tt
  mark_files-ApartFromAll cmp s p (f ∷ files) k = (k.0, mark_files-ApartFromAll cmp s p files k.1)

  mark_files-Separate :
      (cmp : Verdict) (s : fs.Store) (files : List PackageFile)
      → Separate fs laws dir files
      → Separate fs laws dir (mark_files fs sha opens dir cmp s files)
  unfolding mark_files
  mark_files-Separate cmp s [] v = tt
  mark_files-Separate cmp s (f ∷ files) (own, cross, rest) =
      (own, mark_files-ApartFromAll cmp s f.path files cross, mark_files-Separate cmp s files rest)

  mark_files-AllKept :
      (cmp : Verdict) (s t u : fs.Store) (files : List PackageFile)
      → AllKept (mark_files fs sha opens dir cmp s files) t u
      → AllKept files t u
  unfolding mark_files
  mark_files-AllKept cmp s t u [] k = tt
  mark_files-AllKept cmp s t u (f ∷ files) k = (k.0, mark_files-AllKept cmp s t u files k.1)

  AllKept-refl : (files : List PackageFile) (s : fs.Store) → AllKept files s s
  AllKept-refl [] s = tt
  AllKept-refl (f ∷ files) s = (refl, AllKept-refl files s)

  -- The new package, whole and checked, or the old files.
  abbrev pub Updated : List ℕ → Package → fs.Store → Ending × fs.Store → Type 0
  Updated local pkg s r =
      ((is_installed r.0 ≡ true)
        × AllGenuine (compare_version_strings pkg.version local) pkg.files s r.1)
      ⊎ ((is_installed r.0 ≡ false) × AllKept pkg.files s r.1)

  -- On a file system that keeps its laws, for a package that a manifest may list, in a folder whose
  -- name leaves room for those of the files, whatever the server sends and the user answers, where
  -- each move that takes something back succeeds (the code drops the results of these moves): either
  -- the update ends as installed, and every file of the package has the size and the hash that the
  -- manifest gives, except that the library itself may be as it was if the versions are the same;
  -- or it does not, and every file of the package is as it was.
  pub check_package_update-Updated :
      (local : List ℕ) (accepted : Bool) (web : List ℕ → Response) (pkg : Package) (s : fs.Store)
      → IsInstallable pkg.files
      → AllFit dir pkg.files
      → update_undone fs sha opens dir local accepted web pkg s ≡ true
      → Updated local pkg s (check_package_update fs sha opens dir local accepted web pkg s)
  unfolding check_package_update update_undone
  check_package_update-Updated local accepted web pkg s v f undo =
      go (compare_version_strings pkg.version local) (is_tieres fs sha opens dir pkg.files s false)
        (wanted fs sha opens dir (marked (compare_version_strings pkg.version local)).files)
        accepted undo
    where
      marked : Verdict → Package
      marked cmp = record pkg { files = mark_files fs sha opens dir cmp s pkg.files }

      cleared : Verdict → fs.Store
      cleared cmp = delete_old_files fs sha opens dir (marked cmp).files s

      Goal : Verdict → Ending × fs.Store → Type 0
      Goal cmp r =
          ((is_installed r.0 ≡ true) × AllGenuine cmp pkg.files s r.1)
          ⊎ ((is_installed r.0 ≡ false) × AllKept pkg.files s r.1)

      separate : (cmp : Verdict) → Separate fs laws dir (marked cmp).files
      separate cmp =
          mark_files-Separate cmp s pkg.files
            (AllDistinct-Separate fs laws dir pkg.files v.listed v.distinct f)

      first : (cmp : Verdict) → AllKept (marked cmp).files s (cleared cmp)
      first cmp =
          AllKept_lem (marked cmp).files (marked cmp).files s (cleared cmp)
            (Separate-NamesNotOld fs laws dir (marked cmp).files (separate cmp))
            (Separate-NotNew (marked cmp).files (separate cmp))
            (λ x a b. delete_old_files-other fs laws sha opens dir (marked cmp).files x s a)

      fetch :
          (cmp : Verdict)
          → fetch_undone fs sha opens dir web (marked cmp) (cleared cmp) ≡ true
          → Goal cmp (fetch_package fs sha opens dir web (marked cmp) (cleared cmp))
      fetch cmp u = elim (fetch_package-Fetching web (marked cmp) (cleared cmp) (separate cmp) u) [
        | inl (t, e, k, g, i) ↦ inl (
          e,
          marked-AllGenuine cmp pkg.files s t _
              (AllKept-trans (marked cmp).files s (cleared cmp) t (first cmp) k) g i,
        )
        | inr (e, k) ↦ inr (
          e,
          mark_files-AllKept cmp s s _ pkg.files
              (AllKept-trans (marked cmp).files s (cleared cmp) _ (first cmp) k),
        )
      ]

      undone_in : Verdict → Bool → Bool → Bool → Bool
      undone_in cmp tieres some_wanted accepted =
          if not tieres
          then true
          else if not some_wanted
          then true
          else if not accepted
          then true
          else fetch_undone fs sha opens dir web (marked cmp) (cleared cmp)

      rest :
          (cmp : Verdict) (tieres some_wanted accepted : Bool)
          → undone_in cmp tieres some_wanted accepted ≡ true
          → Goal cmp (
              if not tieres
              then (not_used, s)
              else if not some_wanted
              then (not_used, cleared cmp)
              else if not accepted
              then (handled, cleared cmp)
              else fetch_package fs sha opens dir web (marked cmp) (cleared cmp))
      rest cmp false w a u = inr (refl, AllKept-refl pkg.files s)
      rest cmp true false a u =
          inr (refl, mark_files-AllKept cmp s s (cleared cmp) pkg.files (first cmp))
      rest cmp true true false u =
          inr (refl, mark_files-AllKept cmp s s (cleared cmp) pkg.files (first cmp))
      rest cmp true true true u = fetch cmp u

      go :
          (cmp : Verdict) (tieres some_wanted accepted : Bool)
          → (elim cmp as (λ _. Bool) [
            | older ↦ true
            | _ ↦ undone_in cmp tieres some_wanted accepted
          ])
            ≡ true
          → Goal cmp (elim cmp as (λ _. Ending × fs.Store) [
            | older ↦ (not_used, s)
            | _ ↦
                if not tieres
                then (not_used, s)
                else if not some_wanted
                then (not_used, cleared cmp)
                else if not accepted
                then (handled, cleared cmp)
                else fetch_package fs sha opens dir web (marked cmp) (cleared cmp)
          ])
      go older t w a u = inr (refl, AllKept-refl pkg.files s)
      go same t w a u = rest same t w a u
      go newer t w a u = rest newer t w a u
