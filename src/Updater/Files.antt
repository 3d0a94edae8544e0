-- ===== src/Updater/Files.antt =====
-- common/n02_update.cpp, the file system under it, and the names of a package's files in it.
use kaillera_client.Prelude.{
  ℕ, ◌+◌, ◌-◌, ◌≡◌, ◌≢◌, List, [], ◌∷◌, ◌++◌, Bool, true, false, Option, none, some, take, leb,
  ◌==◌, if◌then◌else◌, lower_all, codes,
}
use kaillera_client.Updater.{max_path}

-- The calls of the Windows API: `read` is what a file of that name holds, `none` that there is none,
-- `delete` is `DeleteFileW`, `create` is
-- `CreateFileW` with `CREATE_ALWAYS`, `write` is `WriteFile` of all the bytes at the end, and `move` is `MoveFileExW`, with `MOVEFILE_REPLACE_EXISTING` or not,
-- and its result.
pub record FileSystem : Type 1 where
  pub Store : Type 0
  pub read : Store → List ℕ → Option (List ℕ)
  pub delete : Store → List ℕ → Store
  pub create : Store → List ℕ → Bool × Store
  pub write : Store → List ℕ → List ℕ → Bool × Store
  pub move : Store → List ℕ → List ℕ → Bool → Bool × Store

-- Names of different files: upper and lower case are not told apart.
abbrev pub Apart : List ℕ → List ℕ → Type 0
Apart p q = lower_all p ≢ lower_all q

-- What the updater relies on. Any of the calls may fail at any time.
pub record IsFileSystem (fs : FileSystem) : Type 0 where
  pub case_blind :
      (s : fs.Store) (p q : List ℕ) → lower_all p ≡ lower_all q → fs.read s p ≡ fs.read s q
  pub delete_other :
      (s : fs.Store) (d p : List ℕ) → Apart p d → fs.read (fs.delete s d) p ≡ fs.read s p
  pub create_other :
      (s : fs.Store) (a p : List ℕ) → Apart p a → fs.read (fs.create s a).1 p ≡ fs.read s p
  pub create_new :
      (s : fs.Store) (a : List ℕ) → (fs.create s a).0 ≡ true → fs.read (fs.create s a).1 a ≡ some []
  pub write_other :
      (s : fs.Store) (a bytes p : List ℕ)
      → Apart p a
      → fs.read (fs.write s a bytes).1 p ≡ fs.read s p
  pub write_end :
      (s : fs.Store) (a bytes held : List ℕ)
      → (fs.write s a bytes).0 ≡ true
      → fs.read s a ≡ some held
      → fs.read (fs.write s a bytes).1 a ≡ some (held ++ bytes)
  pub move_fails :
      (s : fs.Store) (a b p : List ℕ) (replace : Bool)
      → (fs.move s a b replace).0 ≡ false
      → fs.read (fs.move s a b replace).1 p ≡ fs.read s p
  pub move_to :
      (s : fs.Store) (a b : List ℕ) (replace : Bool)
      → (fs.move s a b replace).0 ≡ true
      → Apart a b
      → fs.read (fs.move s a b replace).1 b ≡ fs.read s a
  pub move_from :
      (s : fs.Store) (a b : List ℕ) (replace : Bool)
      → (fs.move s a b replace).0 ≡ true
      → Apart a b
      → (fs.read (fs.move s a b replace).1 a ≡ none) × (fs.read s a ≢ none)
  pub move_other :
      (s : fs.Store) (a b p : List ℕ) (replace : Bool)
      → Apart p a
      → Apart p b
      → fs.read (fs.move s a b replace).1 p ≡ fs.read s p

-- The loop that turns the slashes of a name.
abbrev pub backslashes : List ℕ → List ℕ
backslashes [] = []
backslashes (c ∷ s) = (if c == b'/' then b'\\' else c) ∷ backslashes s

-- `PackageFilePath`, in a buffer of `MAX_PATH`.
unfoldable pub package_file_path : List ℕ → List ℕ → List ℕ → List ℕ
package_file_path dir path suffix =
    backslashes (take (max_path - 1) (dir ++ b'\\' ∷ (path ++ suffix)))

-- `OldFilePath`, for `n` up to 9.
abbrev pub old_suffix : ℕ → List ℕ
old_suffix n = if leb n 1 then codes ".old" else codes ".old" ++ (b'0' + n) ∷ []

abbrev pub old_file_path : List ℕ → List ℕ → ℕ → List ℕ
old_file_path dir path n = package_file_path dir path (old_suffix n)
