-- ===== src/Updater/Manifest/Accepted.antt =====
-- common/n02_update.cpp, `ParseManifest`: what a manifest that is accepted lists.
use kaillera_client.Prelude.{
  ℕ, ◌≤◌, ◌<◌, ◌≡◌, ◌≢◌, refl, ap, ◌∙◌, sym, subst, List, [], ◌∷◌, ◌++◌, Bool, true, false, not,
  ◌&&◌, ◌||◌, Option, none, some, inl, inr, length, leb, ltb, if◌then◌else◌, bytes_eq,
  bytes_eq_refl, lower_all, codes, arith, Bool-cases, Option-cases, length-append, take,
}
use mathlib.Core.Option.{some-injective}
use kaillera_client.Updater.{PackageFile, Package, max_files, max_file_size}
use kaillera_client.Updater.Manifest.{
  same_name, safe_package_path, hex_char, all_chars, is_sha256_hex, strtoi64, read_size, listed,
  add_file, parse_fields, split_tabs, chop, lines, parse_lines, empty_package, parse_manifest,
}
use kaillera_client.Updater.Manifest.Paths.{IsSafe, safe_package_path-IsSafe}

-- A file that may be fetched: its path is safe, its hash is a SHA-256 in lower case, and its size
-- is no more than 64 MB.
pub record IsListed (f : PackageFile) : Type 0 where
  pub path : IsSafe f.path
  pub hash : length f.sha256 ≡ 64
  pub digits : all_chars hex_char f.sha256 ≡ true
  pub size : f.size ≤ max_file_size

abbrev pub AllListed : List PackageFile → Type 0
AllListed [] = Unit
AllListed (f ∷ files) = IsListed f × AllListed files

-- No file of the list has this path, in whatever case.
abbrev pub Absent : List ℕ → List PackageFile → Type 0
Absent path [] = Unit
Absent path (f ∷ files) = (lower_all f.path ≢ lower_all path) × Absent path files

-- No two files of the list have the same path, in whatever case.
abbrev pub AllDistinct : List PackageFile → Type 0
AllDistinct [] = Unit
AllDistinct (f ∷ files) = Absent f.path files × AllDistinct files

-- A list of files that can be installed.
pub record IsInstallable (files : List PackageFile) : Type 0 where
  pub listed : AllListed files
  pub distinct : AllDistinct files
  pub few : length files ≤ max_files

AllListed-snoc :
    (files : List PackageFile) (f : PackageFile)
    → AllListed files
    → IsListed f
    → AllListed (files ++ f ∷ [])
AllListed-snoc [] f h k = (k, tt)
AllListed-snoc (g ∷ files) f h k = (h.0, AllListed-snoc files f h.1 k)

Absent-snoc :
    (path : List ℕ) (files : List PackageFile) (f : PackageFile)
    → Absent path files
    → lower_all f.path ≢ lower_all path
    → Absent path (files ++ f ∷ [])
Absent-snoc path [] f h k = (k, tt)
Absent-snoc path (g ∷ files) f h k = (h.0, Absent-snoc path files f h.1 k)

AllDistinct-snoc :
    (files : List PackageFile) (f : PackageFile)
    → AllDistinct files
    → listed files f.path ≡ false
    → AllDistinct (files ++ f ∷ [])
AllDistinct-snoc [] f h k = (tt, tt)
AllDistinct-snoc (g ∷ files) f h k =
    let other : same_name g.path f.path ≡ false = ground arith in
    (
      Absent-snoc g.path files f h.0 (λ e. absurd (
          ground (
            arith,
            other,
            bytes_eq_refl (lower_all g.path),
            ap (λ (x : List ℕ). bytes_eq (lower_all g.path) x) e,
          ))),
      AllDistinct-snoc files f h.1 (ground arith),
    )

read_size-le : (s : List ℕ) (n : ℕ) → read_size s ≡ some n → n ≤ max_file_size
unfolding read_size
read_size-le s n h = go (strtoi64 s) h
  where
    go :
        (o : Option (Bool × ℕ × List ℕ))
        → elim o as (λ _. Option ℕ) [
          | none ↦ none
          | some (negative, m, rest) ↦
              if not (bytes_eq rest []) || ((negative && ltb 0 m) || ltb max_file_size m)
              then none
              else some m
        ]
          ≡ some n
        → n ≤ max_file_size
    go none k = cc
    go (some (negative, m, rest)) k = ground arith

add_file-IsInstallable :
    (pkg : Package) (sha256 size path : List ℕ) {pkg' : Package}
    → add_file pkg sha256 size path ≡ some pkg'
    → IsInstallable pkg.files
    → IsInstallable pkg'.files
unfolding add_file is_sha256_hex
add_file-IsInstallable pkg sha256 size path {pkg'} h v =
    elim (Bool-cases (
      leb max_files (length pkg.files)
      || (not (is_sha256_hex sha256) || not (safe_package_path path)))) [
        | inl bad ↦ absurd (ground (arith, bad, h))
        | inr good ↦ elim (Option-cases (read_size size)) [
          | inl e ↦ absurd (ground (arith, good, e, h))
          | inr (n, e) ↦ elim (Bool-cases (listed pkg.files path)) [
            | inl there ↦ absurd (ground (arith, good, e, there, h))
            | inr absent ↦
                let file : PackageFile = record {
                  path = path;
                  sha256 = sha256;
                  size = n;
                  download = false;
                } in
                let made : add_file pkg sha256 size path
                    ≡ some (record pkg { files = pkg.files ++ file ∷ [] }) =
                  rw (good, add_file) (rw e (rw absent refl)) in
                let grown =
                  some-injective (record pkg { files = pkg.files ++ file ∷ [] }) pkg'
                    (sym made ∙ h) in
                let ok : IsListed file = record {
                  path = safe_package_path-IsSafe path (ground arith);
                  hash = ground arith;
                  digits = ground arith;
                  size = read_size-le size n e;
                } in
                subst (λ (p : Package). IsInstallable p.files) grown
                  (record {
                    listed = AllListed-snoc pkg.files file v.listed ok;
                    distinct = AllDistinct-snoc pkg.files file v.distinct absent;
                    few = ground (arith, length-append pkg.files (file ∷ []));
                  })
          ]
        ]
      ]

kept :
    (p : Package) {pkg' : Package}
    → some p ≡ some pkg'
    → IsInstallable p.files
    → IsInstallable pkg'.files
kept p {pkg'} h v = subst IsInstallable (ap (λ (q : Package). q.files) (some-injective p pkg' h)) v

parse_fields-IsInstallable :
    (pkg : Package) (fields : List (List ℕ)) {pkg' : Package}
    → parse_fields pkg fields ≡ some pkg'
    → IsInstallable pkg.files
    → IsInstallable pkg'.files
unfolding parse_fields
parse_fields-IsInstallable pkg [] h v = kept pkg h v
parse_fields-IsInstallable pkg (a ∷ []) h v = kept pkg h v
parse_fields-IsInstallable pkg (a ∷ b ∷ []) {pkg'} h v =
    setting (bytes_eq a (codes "versao")) (bytes_eq a (codes "pacote")) h
  where
    setting :
        (x y : Bool)
        → (if x
            then some (record pkg { version = take 63 b })
            else if y
            then some (record pkg { name = take 127 b })
            else some pkg)
          ≡ some pkg'
        → IsInstallable pkg'.files
    setting true y k = kept (record pkg { version = take 63 b }) k v
    setting false true k = kept (record pkg { name = take 127 b }) k v
    setting false false k = kept pkg k v
parse_fields-IsInstallable pkg (a ∷ b ∷ c ∷ []) h v = kept pkg h v
parse_fields-IsInstallable pkg (a ∷ b ∷ c ∷ d ∷ []) {pkg'} h v =
    entry (bytes_eq a (codes "arquivo")) h
  where
    entry :
        (x : Bool)
        → (if x then add_file pkg b c d else some pkg) ≡ some pkg'
        → IsInstallable pkg'.files
    entry true k = add_file-IsInstallable pkg b c d k v
    entry false k = kept pkg k v
parse_fields-IsInstallable pkg (a ∷ b ∷ c ∷ d ∷ e ∷ more) h v = kept pkg h v

parse_lines-IsInstallable :
    (text : List (List ℕ)) (pkg : Package) {pkg' : Package}
    → parse_lines text pkg ≡ some pkg'
    → IsInstallable pkg.files
    → IsInstallable pkg'.files
unfolding parse_lines
parse_lines-IsInstallable [] pkg h v = kept pkg h v
parse_lines-IsInstallable (line ∷ text) pkg {pkg'} h v =
    elim (Option-cases (parse_fields pkg (split_tabs (chop line) 5))) [
      | inl e ↦ absurd (ground (arith, e, h))
      | inr (p, e) ↦
          parse_lines-IsInstallable text p
            (ap (λ (o : Option Package). elim o [ none ↦ none | some q ↦ parse_lines text q ])
                (sym e)
              ∙ h)
            (parse_fields-IsInstallable pkg (split_tabs (chop line) 5) e v)
    ]

-- A manifest that is accepted gives a version and one to 16 files. Each has a SHA-256 in lower
-- case, a size of no more than 64 MB, and a relative path of less than 252 characters to a .exe,
-- .dll or .lck: names of printable ASCII characters between slashes, none of them empty, `.` or
-- `..`, without backslashes and colons. No two paths are the same, in whatever case.
pub parse_manifest-IsInstallable :
    (text : List ℕ) {pkg : Package}
    → parse_manifest text ≡ some pkg
    → IsInstallable pkg.files × (0 < length pkg.files) × (pkg.version ≢ [])
unfolding parse_manifest
parse_manifest-IsInstallable text {pkg} h =
    elim (Option-cases (parse_lines (lines text) empty_package)) [
      | inl e ↦ absurd (ground (arith, e, h))
      | inr (p, e) ↦ elim (Bool-cases (not (bytes_eq p.version []) && ltb 0 (length p.files))) [
        | inr bad ↦ absurd (ground (arith, e, bad, h))
        | inl good ↦
            let made : parse_manifest text ≡ some p = rw (e, parse_manifest) (rw good refl) in
            let same = some-injective p pkg (sym made ∙ h) in
            subst (λ (q : Package). IsInstallable q.files × (0 < length q.files) × (q.version ≢ []))
              same
              (
                parse_lines-IsInstallable (lines text) empty_package e
                    (record { listed = tt; distinct = tt; few = omega arith }),
                ground arith,
                λ none_given.
                    absurd (ground (arith, good, ap (λ (x : List ℕ). bytes_eq x []) none_given)),
              )
      ]
    ]
