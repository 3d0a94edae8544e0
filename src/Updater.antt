-- ===== src/Updater.antt =====
-- common/n02_update.cpp: the package that an update consists of.
pub mod Manifest
pub mod Version
pub mod Files
pub mod Swap
pub mod Install
use kaillera_client.Prelude.{ℕ, ◌*◌, List, Bool}

-- `PackageFile`: `path` is relative to the program's folder.
pub record PackageFile : Type 0 where
  pub path : List ℕ
  pub sha256 : List ℕ
  pub size : ℕ
  pub download : Bool

-- `Package`, with the files in use, so that `count` is the length.
pub record Package : Type 0 where
  pub version : List ℕ
  pub name : List ℕ
  pub files : List PackageFile

-- `N02_PACKAGE_MAX_FILES`
abbrev pub max_files : ℕ
max_files = 16

-- `N02_PACKAGE_MAX_FILE_SIZE`
abbrev pub max_file_size : ℕ
max_file_size = 64 * 1024 * 1024

-- `MAX_PATH` of the Windows headers.
abbrev pub max_path : ℕ
max_path = 260
