-- ===== src/Updater/Install/Undone.antt =====
-- common/n02_update.cpp, `CheckPackageUpdate`: the moves that take something back in it.
use kaillera_client.Prelude.{ℕ, List, Bool, true, false, not, if◌then◌else◌}
use kaillera_client.Updater.{Package}
use kaillera_client.Updater.Version.{older, compare_version_strings}
use kaillera_client.Updater.Files.{FileSystem}
use kaillera_client.Updater.Swap.Undone.{package_undone}
use kaillera_client.Updater.Install.{
  Response, mark_files, is_tieres, wanted, download_files, delete_old_files,
}

module _ (fs : FileSystem) (sha : List ℕ → List ℕ) (opens : List ℕ → Bool) (dir : List ℕ) where
  unfoldable pub fetch_undone : (List ℕ → Response) → Package → fs.Store → Bool
  fetch_undone web pkg s =
      let fetched = download_files fs sha opens dir web pkg.files s in
      if not fetched.0 then true else package_undone fs dir pkg fetched.1

  -- Whether each move with which `check_package_update` takes something back succeeds; there is
  -- none where it does not come to the new files.
  unfoldable pub update_undone : List ℕ → Bool → (List ℕ → Response) → Package → fs.Store → Bool
  update_undone local accepted web pkg s =
      let cmp = compare_version_strings pkg.version local in
      let marked = record pkg { files = mark_files fs sha opens dir cmp s pkg.files } in
      elim cmp [
        | older ↦ true
        | _ ↦
            if not (is_tieres fs sha opens dir pkg.files s false)
            then true
            else if not (wanted fs sha opens dir marked.files)
            then true
            else if not accepted
            then true
            else fetch_undone web marked (delete_old_files fs sha opens dir marked.files s)
      ]
