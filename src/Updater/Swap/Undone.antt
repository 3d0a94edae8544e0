-- ===== src/Updater/Swap/Undone.antt =====
-- common/n02_update.cpp, `SwapPackage`: the moves that take something back. The source drops their
-- results.
use kaillera_client.Prelude.{
  ℕ, List, [], ◌∷◌, Bool, true, false, not, ◌&&◌, none, some, if◌then◌else◌,
}
use kaillera_client.Updater.{PackageFile, Package}
use kaillera_client.Updater.Files.{FileSystem}
use kaillera_client.Updater.Swap.{
  Swapped, full_name, new_name, file_exists, free_old, swap_file, swap_files, put_back,
}

module _ (fs : FileSystem) (dir : List ℕ) where
  -- The move of `old` back to its name, where the new file could not take its place.
  unfoldable pub replace_undone : List ℕ → List ℕ → fs.Store → Bool
  replace_undone path old s =
      let away = fs.move s (full_name fs dir path) old false in
      let placed = fs.move away.1 (new_name fs dir path) (full_name fs dir path) false in
      if not away.0
      then true
      else if not placed.0
      then (fs.move placed.1 old (full_name fs dir path) false).0
      else true

  unfoldable pub swap_undone : List ℕ → fs.Store → Bool
  swap_undone path s =
      let old = free_old fs dir 9 1 path s in
      if file_exists fs dir s (full_name fs dir path)
      then (elim old.0 [ none ↦ true | some name ↦ replace_undone path name old.1 ])
      else true

  unfoldable pub files_undone : List PackageFile → fs.Store → Bool
  files_undone [] s = true
  files_undone (f ∷ files) s =
      let (done, s') = swap_file fs dir f.path s in
      let skipped = files_undone files s in
      let rest = files_undone files s' in
      if not f.download
      then skipped
      else swap_undone f.path s && (elim done [ none ↦ true | some step ↦ rest ])

  -- The moves of `put_back`.
  unfoldable pub put_undone : Swapped → fs.Store → Bool
  put_undone step s =
      let taken = fs.move s (full_name fs dir step.path) (new_name fs dir step.path) true in
      taken.0 && (elim step.old [
        | none ↦ true
        | some old ↦ (fs.move taken.1 old (full_name fs dir step.path) false).0
      ])

  unfoldable pub roll_undone : List Swapped → fs.Store → Bool
  roll_undone [] s = true
  roll_undone (step ∷ steps) s = put_undone step s && roll_undone steps (put_back fs dir step s)

  -- Whether each move with which `swap_package` takes something back succeeds.
  unfoldable pub package_undone : Package → fs.Store → Bool
  package_undone pkg s =
      let end = swap_files fs dir pkg.files [] s in
      files_undone pkg.files s
      && (elim end.failed_path [ none ↦ true | some path ↦ roll_undone end.steps end.store ])
