-- ===== src/Updater/Swap.antt =====
-- common/n02_update.cpp, `SwapPackage`: the new files take the places of the old ones.
pub mod Undone
pub mod Rounds
pub mod Whole
pub mod Names
pub mod AllOrNothing
use kaillera_client.Prelude.{
  ℕ, zero, suc, ◌+◌, List, [], ◌∷◌, Bool, true, false, not, Option, none, some, if◌then◌else◌,
  codes,
}
use kaillera_client.Updater.{PackageFile, Package}
use kaillera_client.Updater.Files.{FileSystem, package_file_path, old_file_path}

-- `Step` of a file that was swapped, and the name `old`, where `hadOld` is true.
pub record Swapped : Type 0 where
  pub path : List ℕ
  pub old : Option (List ℕ)

-- What is there so far: `failed_path`, where it failed, the steps, the latest first, and the files.
pub record Progress (fs : FileSystem) : Type 0 where
  pub failed_path : Option (List ℕ)
  pub steps : List Swapped
  pub store : fs.Store

module _ (fs : FileSystem) (dir : List ℕ) where
  abbrev pub full_name : List ℕ → List ℕ
  full_name path = package_file_path dir path []

  abbrev pub new_name : List ℕ → List ℕ
  new_name path = package_file_path dir path (codes ".new")

  unfoldable pub file_exists : fs.Store → List ℕ → Bool
  file_exists s name = elim (fs.read s name) [ none ↦ false | some bytes ↦ true ]

  -- The loop that finds a free `.old` name, from `n` on.
  unfoldable pub free_old : ℕ → ℕ → List ℕ → fs.Store → Option (List ℕ) × fs.Store
  free_old zero n path s = (none, s)
  free_old (suc rounds) n path s =
      let old = old_file_path dir path n in
      let cleared = fs.delete s old in
      let rest = free_old rounds (n + 1) path cleared in
      if file_exists cleared old then rest else (some old, cleared)

  -- A file that is there already.
  unfoldable pub replace_file : List ℕ → List ℕ → fs.Store → Option Swapped × fs.Store
  replace_file path old s =
      let away = fs.move s (full_name path) old false in
      let placed = fs.move away.1 (new_name path) (full_name path) false in
      if not away.0
      then (none, away.1)
      else if not placed.0
      then (none, (fs.move placed.1 old (full_name path) false).1)
      else (some (record { path = path; old = some old }), placed.1)

  -- A round of the loop; `none` is that it failed.
  unfoldable pub swap_file : List ℕ → fs.Store → Option Swapped × fs.Store
  swap_file path s =
      let old = free_old 9 1 path s in
      let placed = fs.move s (new_name path) (full_name path) false in
      if file_exists s (full_name path)
      then (elim old.0 [ none ↦ (none, old.1) | some name ↦ replace_file path name old.1 ])
      else if placed.0
      then (some (record { path = path; old = none }), placed.1)
      else (none, placed.1)

  unfoldable pub swap_files : List PackageFile → List Swapped → fs.Store → Progress fs
  swap_files [] steps s = record { failed_path = none; steps = steps; store = s }
  swap_files (f ∷ files) steps s =
      if not f.download
      then swap_files files steps s
      else (let (done, s') = swap_file f.path s in
          elim done [
            | none ↦ record { failed_path = some f.path; steps = steps; store = s' }
            | some step ↦ swap_files files (step ∷ steps) s'
          ])

  -- A file that was swapped goes back.
  unfoldable pub put_back : Swapped → fs.Store → fs.Store
  put_back step s =
      let taken = (fs.move s (full_name step.path) (new_name step.path) true).1 in
      elim step.old [ none ↦ taken | some old ↦ (fs.move taken old (full_name step.path) false).1 ]

  unfoldable pub roll_back : List Swapped → fs.Store → fs.Store
  roll_back [] s = s
  roll_back (step ∷ steps) s = roll_back steps (put_back step s)

  -- The path that could not be replaced, if there was one, and the files afterwards.
  unfoldable pub swap_package : Package → fs.Store → Option (List ℕ) × fs.Store
  swap_package pkg s =
      let end = swap_files pkg.files [] s in
      elim end.failed_path [
        | none ↦ (none, end.store)
        | some path ↦ (some path, roll_back end.steps end.store)
      ]
