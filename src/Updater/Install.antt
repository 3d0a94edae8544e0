-- ===== src/Updater/Install.antt =====
-- common/n02_update.cpp, `CheckPackageUpdate` from the manifest on: which files are fetched, how
-- they are checked, and what becomes of them.
pub mod Fetched
pub mod Undone
pub mod Verified
use kaillera_client.Prelude.{
  ℕ, zero, suc, ◌+◌, List, [], ◌∷◌, ◌++◌, Bool, true, false, not, ◌&&◌, ◌||◌, Option, none, some,
  length, ltb, ◌==◌, if◌then◌else◌, codes, bytes_eq, contains,
}
use kaillera_client.Updater.{PackageFile, Package}
use kaillera_client.Updater.Manifest.{same_name}
use kaillera_client.Updater.Version.{Verdict, older, same, newer, compare_version_strings}
use kaillera_client.Updater.Files.{FileSystem, old_file_path}
use kaillera_client.Updater.Swap.{full_name, new_name, swap_package}

-- `N02_PACKAGE_EXE`, `N02_PACKAGE_SELF` and `N02_PACKAGE_EXE_MARKER`
abbrev pub package_exe : List ℕ
package_exe = codes "retroarch.exe"

abbrev pub package_self : List ℕ
package_self = codes "kailleraclient.dll"

abbrev pub exe_marker : List ℕ
exe_marker = codes "FFW.TIERES"

-- What comes of a request: the status, or 0 where there is none, the pieces of the body, each with
-- whether the user has given up before it, whether the body came to its end, and whether the
-- user has given up and the hash could be worked out after it.
pub record Response : Type 0 where
  pub status : ℕ
  pub chunks : List (Bool × List ℕ)
  pub complete : Bool
  pub cancelled : Bool
  pub hashed : Bool

-- `FileSink` when the request is over, with `status`; `got` are the bytes that were hashed.
pub record Sunk (fs : FileSystem) : Type 0 where
  pub status : ℕ
  pub write_failed : Bool
  pub got : List ℕ
  pub store : fs.Store

-- `PackageResult`, with what the user is told.
pub data Ending : Type 0 where
  not_used handled installed : Ending
  not_replaced : List ℕ → Ending

abbrev pub is_same : Verdict → Bool
is_same same = true
is_same _ = false

-- `sha` is SHA-256 in hexadecimal, and `opens` whether a file can be opened and read.
module _ (fs : FileSystem) (sha : List ℕ → List ℕ) (opens : List ℕ → Bool) (dir : List ℕ) where
  -- `FileSinkWrite` under the loop of `WinHttpGetTo`.
  unfoldable pub receive_chunks :
      ℕ → List ℕ → List (Bool × List ℕ) → Bool → List ℕ → fs.Store → Sunk fs
  receive_chunks expected name [] complete got s = record {
    status = if complete then 200 else 0;
    write_failed = false;
    got = got;
    store = s;
  }
  receive_chunks expected name ((cancel, bytes) ∷ chunks) complete got s =
      let written = fs.write s name bytes in
      let rest = receive_chunks expected name chunks complete (got ++ bytes) written.1 in
      if cancel || ltb expected (length got + length bytes)
      then record { status = 0; write_failed = false; got = got; store = s }
      else if not written.0
      then record { status = 0; write_failed = true; got = got; store = written.1 }
      else rest

  unfoldable pub http_get : ℕ → List ℕ → Response → fs.Store → Sunk fs
  http_get expected name r s =
      if r.status == 200
      then receive_chunks expected name r.chunks r.complete [] s
      else record { status = r.status; write_failed = false; got = []; store = s }

  -- What `DownloadThread` asks of a file that has come.
  abbrev pub arrived : PackageFile → Response → Sunk fs → Bool
  arrived f r k =
      not r.cancelled
      && (not k.write_failed
          && (k.status == 200
              && (r.hashed && (length k.got == f.size && bytes_eq (sha k.got) f.sha256))))

  -- A round of `DownloadThread`. The folders that it creates are left out.
  unfoldable pub download_file : PackageFile → Response → fs.Store → Bool × fs.Store
  download_file f r s =
      let name = new_name fs dir f.path in
      let created = fs.create s name in
      let sunk =
        (if ltb 0 f.size
          then http_get f.size name r created.1
          else record { status = 200; write_failed = false; got = []; store = created.1 }) in
      if not created.0 then (false, created.1) else (arrived f r sunk, sunk.store)

  -- `DownloadThread`
  unfoldable pub download_files :
      (List ℕ → Response) → List PackageFile → fs.Store → Bool × fs.Store
  download_files web [] s = (true, s)
  download_files web (f ∷ files) s =
      let one = download_file f (web f.path) s in
      let rest = download_files web files one.1 in
      let skipped = download_files web files s in
      if not f.download then skipped else if one.0 then rest else (false, one.1)

  -- `HashLocalFile` after the test on the size: the file's bytes.
  abbrev pub local_bytes : PackageFile → fs.Store → Option (List ℕ)
  local_bytes f s = elim (fs.read s (full_name fs dir f.path)) [
    | none ↦ none
    | some bytes ↦
        if (length bytes == f.size || same_name f.path package_exe)
          && opens (full_name fs dir f.path)
        then some bytes
        else none
  ]

  -- `same`
  abbrev pub up_to_date : PackageFile → fs.Store → Bool
  up_to_date f s = elim (local_bytes f s) [
    | none ↦ false
    | some bytes ↦ length bytes == f.size && bytes_eq (sha bytes) f.sha256
  ]

  abbrev pub mark_file : Verdict → fs.Store → PackageFile → PackageFile
  mark_file cmp s f = record f {
    download = not (up_to_date f s) && not (is_same cmp && same_name f.path package_self);
  }

  unfoldable pub mark_files : Verdict → fs.Store → List PackageFile → List PackageFile
  mark_files cmp s [] = []
  mark_files cmp s (f ∷ files) = mark_file cmp s f ∷ mark_files cmp s files

  -- `tieres`, after the loop, from what it is before.
  unfoldable pub is_tieres : List PackageFile → fs.Store → Bool → Bool
  is_tieres [] s tieres = tieres
  is_tieres (f ∷ files) s tieres =
      let found : Bool = elim (local_bytes f s) [ none ↦ false | some b ↦ contains exe_marker b ] in
      is_tieres files s (if same_name f.path package_exe then found else tieres)

  -- The inner loop of `DeleteOldFiles`, from `n` on.
  unfoldable pub delete_old : ℕ → ℕ → List ℕ → fs.Store → fs.Store
  delete_old zero n path s = s
  delete_old (suc rounds) n path s =
      delete_old rounds (n + 1) path (fs.delete s (old_file_path dir path n))

  unfoldable pub delete_old_files : List PackageFile → fs.Store → fs.Store
  delete_old_files [] s = s
  delete_old_files (f ∷ files) s = delete_old_files files (delete_old 9 1 f.path s)

  unfoldable pub delete_new_files : List PackageFile → fs.Store → fs.Store
  delete_new_files [] s = s
  delete_new_files (f ∷ files) s = delete_new_files files (fs.delete s (new_name fs dir f.path))

  abbrev pub wanted : List PackageFile → Bool
  wanted [] = false
  wanted (f ∷ files) = f.download || wanted files

  -- The files fetched and put in their places.
  unfoldable pub fetch_package : (List ℕ → Response) → Package → fs.Store → Ending × fs.Store
  fetch_package web pkg s =
      let fetched = download_files web pkg.files s in
      let swapped = swap_package fs dir pkg fetched.1 in
      if not fetched.0 then (handled, delete_new_files pkg.files fetched.1) else (elim swapped.0 [
        | some path ↦ (not_replaced path, delete_new_files pkg.files swapped.1)
        | none ↦ (installed, swapped.1)
      ])

  -- `CheckPackageUpdate` on the package of a manifest, in a client of the version `local`; `accepted`
  -- is the user's answer.
  unfoldable pub check_package_update :
      List ℕ → Bool → (List ℕ → Response) → Package → fs.Store → Ending × fs.Store
  check_package_update local accepted web pkg s =
      let cmp = compare_version_strings pkg.version local in
      let marked = record pkg { files = mark_files cmp s pkg.files } in
      let cleared = delete_old_files marked.files s in
      elim cmp [
        | older ↦ (not_used, s)
        | _ ↦
            if not (is_tieres pkg.files s false)
            then (not_used, s)
            else if not (wanted marked.files)
            then (not_used, cleared)
            else if not accepted
            then (handled, cleared)
            else fetch_package web marked cleared
      ]
