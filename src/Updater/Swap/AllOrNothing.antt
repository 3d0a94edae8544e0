-- ===== src/Updater/Swap/AllOrNothing.antt =====
-- common/n02_update.cpp, `SwapPackage` on the package of a manifest.
use kaillera_client.Prelude.{ℕ, ◌≡◌, List, true}
use kaillera_client.Updater.{Package}
use kaillera_client.Updater.Manifest.Accepted.{IsInstallable}
use kaillera_client.Updater.Files.{FileSystem, IsFileSystem}
use kaillera_client.Updater.Swap.{swap_package}
use kaillera_client.Updater.Swap.Undone.{package_undone}
use kaillera_client.Updater.Swap.Whole.{NotOldOf, Result, swap_package-Separate}
use kaillera_client.Updater.Swap.Names.{AllFit, AllDistinct-Separate}

module _ (fs : FileSystem) (laws : IsFileSystem fs) (dir : List ℕ) where
  -- On a file system that keeps its laws, for a package that a manifest may list, in a folder whose
  -- name leaves room for those of the files, where each move that takes something back succeeds
  -- (the code drops the results of these moves): either no path is reported, every file that was
  -- fetched stands in its place, and the others are as before; or a path is reported, the files of
  -- the package are as before, those that were fetched are there still, and so is any other file
  -- whose name is not an `.old` name of the package.
  pub swap_package-all_or_nothing :
      (pkg : Package) (s : fs.Store) (x : List ℕ)
      → IsInstallable pkg.files
      → AllFit dir pkg.files
      → NotOldOf fs laws dir pkg.files x
      → package_undone fs dir pkg s ≡ true
      → Result fs laws dir pkg s x (swap_package fs dir pkg s)
  swap_package-all_or_nothing pkg s x v f k undone =
      swap_package-Separate fs laws dir pkg s x
        (AllDistinct-Separate fs laws dir pkg.files v.listed v.distinct f) k undone
