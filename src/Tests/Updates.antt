-- ===== src/Tests/Updates.antt =====
-- The theorems on the updater, at inputs that can be followed in the source.
use kaillera_client.Prelude.{
  ℕ, ◌<◌, ◌≡◌, ◌≢◌, refl, ap, ◌∙◌, List, [], ◌∷◌, ◌++◌, Bool, true, false, not, ◌&&◌, ◌||◌, Option,
  none, some, inl, inr, ◌⊎◌, if◌then◌else◌, codes, arith, Bool-cases, bytes_eq, bytes_eq→eq,
  bytes_eq_refl, lower_all, length, replicate,
}
use mathlib.Core.List.{head-eq_of_cons-eq}
use kaillera_client.Updater.{Package, PackageFile}
use kaillera_client.Updater.Manifest
use kaillera_client.Updater.Version
use kaillera_client.Updater.Manifest.{parse_manifest}
use kaillera_client.Updater.Manifest.Accepted
use kaillera_client.Updater.Version.{newer, compare_version_strings, parse_version}
use kaillera_client.Updater.Version.Order
use kaillera_client.Updater.Files.{package_file_path, FileSystem, IsFileSystem, Apart}
use kaillera_client.Updater.Swap
use kaillera_client.Updater.Swap.Undone as SwapUndone
use kaillera_client.Updater.Swap.Undone.{package_undone}
use kaillera_client.Updater.Swap.{swap_package}
use kaillera_client.Updater.Swap.Whole
use kaillera_client.Updater.Swap.AllOrNothing
use kaillera_client.Updater.Install
use kaillera_client.Updater.Install.Undone as InstallUndone
use kaillera_client.Updater.Install.Undone.{update_undone}
use kaillera_client.Updater.Install.{Response, Ending, check_package_update}
use kaillera_client.Updater.Install.Verified

-- A disk: what stands under each name, in lower case. A move wants a file to move, and a free name
-- or the leave to replace what has it.
abbrev Disk : Type 0
Disk = List ℕ → Option (List ℕ)

abbrev stands : Option (List ℕ) → Bool
stands none = false
stands (some b) = true

abbrev put : Disk → List ℕ → Option (List ℕ) → Disk
put s a o k = if bytes_eq k (lower_all a) then o else s k

abbrev extended : Option (List ℕ) → List ℕ → Option (List ℕ)
extended none bytes = some bytes
extended (some held) bytes = some (held ++ bytes)

abbrev disk : FileSystem
disk = record {
  Store = Disk;
  read = λ s p. s (lower_all p);
  delete = λ s p. put s p none;
  create = λ s p. (true, put s p (some []));
  write = λ s p bytes. (true, put s p (extended (s (lower_all p)) bytes));
  move = λ s a b replace.
      (let held = s (lower_all a) in
        if stands held && (replace || not (stands (s (lower_all b))))
        then (true, put (put s a none) b held)
        else (false, s));
}

put_same : (s : Disk) (a : List ℕ) (o : Option (List ℕ)) → put s a o (lower_all a) ≡ o
put_same s a o = rw (bytes_eq_refl (lower_all a)) refl

put_other :
    (s : Disk) (a p : List ℕ) (o : Option (List ℕ))
    → Apart p a
    → put s a o (lower_all p) ≡ s (lower_all p)
put_other s a p o h = elim (Bool-cases (bytes_eq (lower_all p) (lower_all a))) [
  | inl e ↦ absurd (h (bytes_eq→eq (lower_all p) (lower_all a) e))
  | inr e ↦ rw e refl
]

abbrev moved : Disk → List ℕ → List ℕ → Disk
moved s a b = put (put s a none) b (s (lower_all a))

move-cases :
    (s : Disk) (a b : List ℕ) (replace : Bool)
    → ((disk.move s a b replace ≡ (true, moved s a b)) × (stands (s (lower_all a)) ≡ true))
      ⊎ (disk.move s a b replace ≡ (false, s))
move-cases s a b replace =
    elim (Bool-cases (stands (s (lower_all a)) && (replace || not (stands (s (lower_all b)))))) [
      | inl e ↦ inl (rw e refl, ground (arith, e))
      | inr e ↦ inr (rw e refl)
    ]

-- The same move went well.
move-true :
    (s : Disk) (a b : List ℕ) (replace : Bool)
    → (disk.move s a b replace).0 ≡ true
    → (disk.move s a b replace ≡ (true, moved s a b)) × (stands (s (lower_all a)) ≡ true)
move-true s a b replace h = elim (move-cases s a b replace) [
  | inl e ↦ e
  | inr e ↦ absurd (ground (arith, h, ap (λ (r : Bool × Disk). r.0) e))
]

moved_to : (s : Disk) (a b : List ℕ) → moved s a b (lower_all b) ≡ s (lower_all a)
moved_to s a b = put_same (put s a none) b (s (lower_all a))

moved_from : (s : Disk) (a b : List ℕ) → Apart a b → moved s a b (lower_all a) ≡ none
moved_from s a b k = put_other (put s a none) b a (s (lower_all a)) k ∙ put_same s a none

moved_other :
    (s : Disk) (a b p : List ℕ)
    → Apart p a
    → Apart p b
    → moved s a b (lower_all p) ≡ s (lower_all p)
moved_other s a b p h k = put_other (put s a none) b p (s (lower_all a)) k ∙ put_other s a p none h

disk-IsFileSystem : IsFileSystem disk
disk-IsFileSystem = record {
  case_blind = λ s p q e. ap s e;
  delete_other = λ s d p h. put_other s d p none h;
  create_other = λ s a p h. put_other s a p (some []) h;
  create_new = λ s a h. put_same s a (some []);
  write_other = λ s a bytes p h. put_other s a p (extended (s (lower_all a)) bytes) h;
  write_end = λ s a bytes held h e.
      (put_same s a (extended (s (lower_all a)) bytes)
        ∙ ap (λ (o : Option (List ℕ)). extended o bytes) e);
  move_fails = λ s a b p replace h. (elim (move-cases s a b replace) [
    | inl e ↦ absurd (ground (arith, h, ap (λ (r : Bool × Disk). r.0) e.0))
    | inr e ↦ ap (λ (r : Bool × Disk). r.1 (lower_all p)) e
  ]);
  move_to = λ s a b replace h k.
      (ap (λ (r : Bool × Disk). r.1 (lower_all b)) (move-true s a b replace h).0 ∙ moved_to s a b);
  move_from = λ s a b replace h k. (
    ap (λ (r : Bool × Disk). r.1 (lower_all a)) (move-true s a b replace h).0 ∙ moved_from s a b k,
    λ e. absurd (ground (arith, (move-true s a b replace h).1, ap stands e)),
  );
  move_other = λ s a b p replace h k. (elim (move-cases s a b replace) [
    | inl e ↦ ap (λ (r : Bool × Disk). r.1 (lower_all p)) e.0 ∙ moved_other s a b p h k
    | inr e ↦ ap (λ (r : Bool × Disk). r.1 (lower_all p)) e
  ]);
}

-- A manifest of two files.
abbrev hash : List ℕ
hash = replicate 64 b'a'

abbrev manifest : List ℕ
manifest =
    codes "versao\tv.TIERES.0.25\r\nnota\narquivo\t"
    ++ (hash
        ++ (codes "\t12\tretroarch.exe\narquivo\t" ++ (hash ++ codes "\t 7\tcores/Snes9x.dll")))

abbrev listed_files : List PackageFile
listed_files =
    record { path = codes "retroarch.exe"; sha256 = hash; size = 12; download = false }
    ∷ record { path = codes "cores/Snes9x.dll"; sha256 = hash; size = 7; download = false }
    ∷ []

abbrev listed_package : Package
listed_package = record { version = codes "v.TIERES.0.25"; name = []; files = listed_files }

manifest_parsed : parse_manifest manifest ≡ some listed_package
unfolding Manifest.parse_manifest Manifest.parse_lines Manifest.lines Manifest.split_tabs
    Manifest.split Manifest.chop Manifest.parse_fields Manifest.add_file Manifest.is_sha256_hex
    Manifest.safe_package_path Manifest.ends_with_no_case Manifest.read_size
manifest_parsed = refl

parse_manifest-IsInstallable_example :
    Accepted.IsInstallable listed_files × (0 < length listed_files) × (listed_package.version ≢ [])
parse_manifest-IsInstallable_example =
    Accepted.parse_manifest-IsInstallable manifest manifest_parsed

-- Two versions, the first of which has a part more.
abbrev remote_version : List ℕ
remote_version = codes "v.TIERES.0.18.0-3-g15dd983"

abbrev local_version : List ℕ
local_version = codes "v.TIERES.0.18"

remote_parsed : parse_version remote_version ≡ some (record { parts = 0 ∷ 18 ∷ 0 ∷ []; rank = 4 })
unfolding Version.parse_version Version.collect Manifest.split Version.suffix_rank
remote_parsed = refl

local_parsed : parse_version local_version ≡ some (record { parts = 0 ∷ 18 ∷ []; rank = 1 })
unfolding Version.parse_version Version.collect Manifest.split Version.suffix_rank
local_parsed = refl

compare_version_strings-lex_example :
    (compare_version_strings remote_version local_version ≡ newer)
    × (compare_version_strings local_version remote_version
        ≡ Order.flip (compare_version_strings remote_version local_version))
compare_version_strings-lex_example =
    Order.compare_version_strings-lex remote_version local_version remote_parsed local_parsed

-- Both files are to be replaced, but the second was not fetched: the first, which is there already,
-- is swapped and put back.
abbrev fetched_package : Package
fetched_package = record listed_package {
  files =
      record { path = codes "retroarch.exe"; sha256 = hash; size = 12; download = true }
      ∷ record { path = codes "cores/Snes9x.dll"; sha256 = hash; size = 7; download = true }
      ∷ [];
}

abbrev folder : List ℕ
folder = codes "C:\\RA"

abbrev before : Disk
before =
    put (put (λ k. none) (codes "C:\\RA\\retroarch.exe") (some (1 ∷ [])))
      (codes "C:\\RA\\retroarch.exe.new") (some (2 ∷ []))

fetched_package-IsInstallable : Accepted.IsInstallable fetched_package.files
fetched_package-IsInstallable =
    let v = (Accepted.parse_manifest-IsInstallable manifest manifest_parsed).0 in
    let (exe, (core, end)) = v.listed in
    record {
      listed = (
        record { path = exe.path; hash = exe.hash; digits = exe.digits; size = exe.size },
        (record { path = core.path; hash = core.hash; digits = core.digits; size = core.size }, tt),
      );
      distinct = v.distinct;
      few = v.few;
    }

first_apart : {s t : List ℕ} → 100 ∷ s ≡ 99 ∷ t → ⊥
first_apart e = absurd (ground (arith, head-eq_of_cons-eq e))

package_undone-before : package_undone disk folder fetched_package before ≡ true
unfolding package_file_path Swap.file_exists Swap.free_old Swap.replace_file Swap.swap_file
    Swap.swap_files Swap.put_back SwapUndone.replace_undone SwapUndone.swap_undone
    SwapUndone.files_undone SwapUndone.put_undone SwapUndone.roll_undone SwapUndone.package_undone
package_undone-before = refl

swap_package-all_or_nothing_example :
    Whole.Result disk disk-IsFileSystem folder fetched_package before
      (codes "D:\\notes.txt")
      (swap_package disk folder fetched_package before)
unfolding package_file_path
swap_package-all_or_nothing_example =
    AllOrNothing.swap_package-all_or_nothing disk disk-IsFileSystem folder fetched_package before
      (codes "D:\\notes.txt") fetched_package-IsInstallable (omega arith, (omega arith, tt))
      ((λ n h e. first_apart e), ((λ n h e. first_apart e), tt)) package_undone-before

-- The server sends both files, the first in two pieces.
abbrev sent_files : List ℕ → Response
sent_files path = record {
  status = 200;
  chunks =
      (if bytes_eq path (codes "retroarch.exe")
        then (false, codes "FFW.TIERES") ∷ (false, codes "25") ∷ []
        else (false, codes "Snes9x!") ∷ []);
  complete = true;
  cancelled = false;
  hashed = true;
}

-- The old program stands there alone.
abbrev marked_disk : Disk
marked_disk = put (λ k. none) (codes "C:\\RA\\retroarch.exe") (some (codes "FFW.TIERES"))

abbrev update : Ending × Disk
update =
    check_package_update disk (λ b. hash) (λ name. true) folder local_version true sent_files
      listed_package marked_disk

update_is_installed : Verified.is_installed update.0 ≡ true
unfolding package_file_path Swap.file_exists Swap.free_old Swap.replace_file Swap.swap_file
    Swap.swap_files Swap.put_back Swap.roll_back Swap.swap_package SwapUndone.replace_undone
    SwapUndone.swap_undone SwapUndone.files_undone SwapUndone.put_undone SwapUndone.roll_undone
    SwapUndone.package_undone Install.receive_chunks Install.http_get Install.download_file
    Install.download_files Install.mark_files Install.is_tieres Install.delete_old
    Install.delete_old_files Install.delete_new_files Install.fetch_package
    Install.check_package_update InstallUndone.fetch_undone InstallUndone.update_undone
    Version.compare_version_strings Version.parse_version Version.collect Manifest.split
    Version.suffix_rank Version.compare_versions Version.compare_from
update_is_installed = refl

update_undone-marked_disk :
    update_undone disk
      (λ b. hash)
      (λ name. true)
      folder
      local_version
      true
      sent_files
      listed_package
      marked_disk
    ≡ true
unfolding package_file_path Swap.file_exists Swap.free_old Swap.replace_file Swap.swap_file
    Swap.swap_files Swap.put_back Swap.roll_back Swap.swap_package SwapUndone.replace_undone
    SwapUndone.swap_undone SwapUndone.files_undone SwapUndone.put_undone SwapUndone.roll_undone
    SwapUndone.package_undone Install.receive_chunks Install.http_get Install.download_file
    Install.download_files Install.mark_files Install.is_tieres Install.delete_old
    Install.delete_old_files Install.delete_new_files Install.fetch_package
    Install.check_package_update InstallUndone.fetch_undone InstallUndone.update_undone
    Version.compare_version_strings Version.parse_version Version.collect Manifest.split
    Version.suffix_rank Version.compare_versions Version.compare_from
update_undone-marked_disk = refl

check_package_update-Updated_example :
    Verified.Updated disk disk-IsFileSystem
      (λ b. hash)
      (λ name. true)
      folder
      local_version
      listed_package
      marked_disk
      (check_package_update disk
        (λ b. hash)
        (λ name. true)
        folder
        local_version
        true
        sent_files
        listed_package
        marked_disk)
check_package_update-Updated_example =
    Verified.check_package_update-Updated disk disk-IsFileSystem (λ b. hash) (λ name. true) folder
      local_version true sent_files listed_package marked_disk
      (Accepted.parse_manifest-IsInstallable manifest manifest_parsed).0
      (omega arith, (omega arith, tt)) update_undone-marked_disk
