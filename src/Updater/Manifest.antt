-- ===== src/Updater/Manifest.antt =====
-- common/n02_update.cpp, `ParseManifest` and what it calls: the list of a package's files, as the
-- server sends it.
pub mod Paths
pub mod Accepted
use kaillera_client.Prelude.{
  ℕ, zero, suc, ◌+◌, ◌-◌, ◌*◌, ◌^◌, min, List, [], ◌∷◌, ◌++◌, Bool, true, false, not, ◌&&◌, ◌||◌,
  Option, none, some, length, take, drop, get_or, ltb, leb, ◌==◌, if◌then◌else◌, bytes_eq,
  lower_all, codes,
}
use kaillera_client.Updater.{PackageFile, Package, max_files, max_file_size, max_path}

-- `_stricmp(a, b) == 0`, in the C locale.
abbrev pub same_name : List ℕ → List ℕ → Bool
same_name a b = bytes_eq (lower_all a) (lower_all b)

unfoldable pub ends_with_no_case : List ℕ → List ℕ → Bool
ends_with_no_case s suffix =
    leb (length suffix) (length s) && same_name (drop (length s - length suffix) s) suffix

abbrev pub is_digit : ℕ → Bool
is_digit c = leb b'0' c && leb c b'9'

-- The characters that a path may have.
abbrev pub path_char : ℕ → Bool
path_char c =
    (leb b'a' c && leb c b'z')
    || ((leb b'A' c && leb c b'Z')
        || (is_digit c || (c == b'.' || (c == b'_' || (c == b'-' || (c == b' ' || c == b'/'))))))

abbrev pub all_chars : (ℕ → Bool) → List ℕ → Bool
all_chars ok [] = true
all_chars ok (c ∷ s) = ok c && all_chars ok s

-- The pieces of a string between the characters `sep`, as repeated calls of `strchr` find them.
abbrev pub add_first : ℕ → List (List ℕ) → List (List ℕ)
add_first c [] = (c ∷ []) ∷ []
add_first c (piece ∷ pieces) = (c ∷ piece) ∷ pieces

unfoldable pub split : ℕ → List ℕ → List (List ℕ)
split sep [] = [] ∷ []
split sep (c ∷ s) = let rest = split sep s in if c == sep then [] ∷ rest else add_first c rest

-- The test on a segment: it is not empty, `.` or `..`.
abbrev pub segment_ok : List ℕ → Bool
segment_ok seg = not (bytes_eq seg [] || (bytes_eq seg (codes ".") || bytes_eq seg (codes "..")))

abbrev pub all_segments : List (List ℕ) → Bool
all_segments [] = true
all_segments (seg ∷ segs) = segment_ok seg && all_segments segs

unfoldable pub safe_package_path : List ℕ → Bool
safe_package_path p =
    let len = length p in
    if (len == 0 || leb (max_path - 8) len)
      || (get_or p 0 0 == b'/' || get_or p (len - 1) 0 == b'/')
    then false
    else if not (all_chars path_char p)
    then false
    else if not (all_segments (split b'/' p))
    then false
    else ends_with_no_case p (codes ".exe")
      || (ends_with_no_case p (codes ".dll") || ends_with_no_case p (codes ".lck"))

abbrev pub hex_char : ℕ → Bool
hex_char c = is_digit c || (leb b'a' c && leb c b'f')

unfoldable pub is_sha256_hex : List ℕ → Bool
is_sha256_hex s = if not (length s == 64) then false else all_chars hex_char s

-- What `SplitTabs` stores, at most `max` fields: the last one ends at the next tab too.
unfoldable pub split_tabs : List ℕ → ℕ → List (List ℕ)
split_tabs line max = take max (split b'\t' line)

-- `isspace` of the C locale.
abbrev pub is_space : ℕ → Bool
is_space c = c == 32 || (leb 9 c && leb c 13)

abbrev pub skip_spaces : List ℕ → List ℕ
skip_spaces [] = []
skip_spaces (c ∷ s) = if is_space c then skip_spaces s else c ∷ s

-- The digits at the front of a string, as the number after `n`, and what follows them.
abbrev pub read_digits : ℕ → List ℕ → ℕ × List ℕ
read_digits n [] = (n, [])
read_digits n (c ∷ s) =
    let more = read_digits (10 * n + (c - b'0')) s in if is_digit c then more else (n, c ∷ s)

-- A sign and its absence: whether it is `-`, and what follows it.
abbrev pub read_sign : List ℕ → Bool × List ℕ
read_sign [] = (false, [])
read_sign (c ∷ s) =
    if c == b'-' then (true, s) else if c == b'+' then (false, s) else (false, c ∷ s)

-- `_strtoi64(s, &end, 10)`: whether the number is negative, its amount and `end`. `none` is that
-- `end` is `s`. Out of range it stops at the largest amount.
abbrev pub strtoi64 : List ℕ → Option (Bool × ℕ × List ℕ)
strtoi64 s =
    let signed = read_sign (skip_spaces s) in
    let number = read_digits 0 signed.1 in
    if is_digit (get_or signed.1 0 0)
    then some (signed.0, min number.0 (if signed.0 then 2 ^ 63 else 2 ^ 63 - 1), number.1)
    else none

-- The third field of an `arquivo` line.
unfoldable pub read_size : List ℕ → Option ℕ
read_size s = elim (strtoi64 s) [
  | none ↦ none
  | some (negative, n, rest) ↦
      if not (bytes_eq rest []) || ((negative && ltb 0 n) || ltb max_file_size n)
      then none
      else some n
]

-- The loop that looks for the path among the files there are.
abbrev pub listed : List PackageFile → List ℕ → Bool
listed [] path = false
listed (f ∷ files) path = same_name f.path path || listed files path

-- An `arquivo` line; `none` is that the manifest is refused.
unfoldable pub add_file : Package → List ℕ → List ℕ → List ℕ → Option Package
add_file pkg sha256 size path =
    if leb max_files (length pkg.files)
      || (not (is_sha256_hex sha256) || not (safe_package_path path))
    then none
    else (elim (read_size size) [
      | none ↦ none
      | some n ↦
          if listed pkg.files path
          then none
          else (let file : PackageFile = record {
            path = path;
            sha256 = sha256;
            size = n;
            download = false;
          } in
              some (record pkg { files = pkg.files ++ file ∷ [] }))
    ])

-- A line by its fields. `version` has 64 characters and `name` 128, the NUL included.
unfoldable pub parse_fields : Package → List (List ℕ) → Option Package
parse_fields pkg (key ∷ value ∷ []) =
    if bytes_eq key (codes "versao")
    then some (record pkg { version = take 63 value })
    else if bytes_eq key (codes "pacote")
    then some (record pkg { name = take 127 value })
    else some pkg
parse_fields pkg (key ∷ sha256 ∷ size ∷ path ∷ []) =
    if bytes_eq key (codes "arquivo") then add_file pkg sha256 size path else some pkg
parse_fields pkg _ = some pkg

-- A carriage return at the end of the line goes.
unfoldable pub chop : List ℕ → List ℕ
chop line =
    let len = length line in
    if ltb 0 len && get_or line (len - 1) 0 == b'\r' then take (len - 1) line else line

-- The lines that the loop goes through: at the end of the text it stops.
unfoldable pub lines : List ℕ → List (List ℕ)
lines [] = []
lines (c ∷ s) = let rest = lines s in if c == b'\n' then [] ∷ rest else add_first c rest

unfoldable pub parse_lines : List (List ℕ) → Package → Option Package
parse_lines [] pkg = some pkg
parse_lines (line ∷ more) pkg = elim (parse_fields pkg (split_tabs (chop line) 5)) [
  | none ↦ none
  | some pkg' ↦ parse_lines more pkg'
]

abbrev pub empty_package : Package
empty_package = record { version = []; name = []; files = [] }

-- `ParseManifest` on the characters of a text; `none` is false.
unfoldable pub parse_manifest : List ℕ → Option Package
parse_manifest text = elim (parse_lines (lines text) empty_package) [
  | none ↦ none
  | some pkg ↦ if not (bytes_eq pkg.version []) && ltb 0 (length pkg.files) then some pkg else none
]
