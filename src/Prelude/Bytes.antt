-- ===== src/Prelude/Bytes.antt =====
-- Byte strings: bytes are numbers below 256, C strings run to the first NUL, and the integers of
-- the wire formats and files are little-endian, as on the x86 machines that the library is built
-- for.
use Prim.Native.Nat.{ℕ, zero, suc, ◌+◌, ◌*◌, ◌/◌, ◌%◌, ◌≤◌, ◌<◌}
use mathlib.Core.Path.{◌≡◌, refl}
use mathlib.Core.Logic.{◌≢◌}
use mathlib.Core.List.{List, [], ◌∷◌, ◌++◌}
use mathlib.Core.Bool.{Bool, true, false, ◌&&◌, ◌||◌}
use native.Mathlib.Omega.{arith}
use Prim.Native.Char.{code}
use Prim.Native.String.{String}
use kaillera_client.Prelude.Tests.{leb, ◌==◌, if◌then◌else◌}
use kaillera_client.Prelude.Lists.{length, get_or, take, drop}

-- The code points of a text: its bytes, if it is ASCII.
abbrev pub codes : String → List ℕ
codes String.[] = []
codes (String.◌∷◌ c s) = code c ∷ codes s

-- `strlen` on a buffer: the number of bytes before the first NUL, or all of them if there is none.
abbrev pub strlen : List ℕ → ℕ
strlen [] = 0
strlen (c ∷ s) = if c == 0 then 0 else suc (strlen s)

-- The C string that a buffer holds.
abbrev pub c_str : List ℕ → List ℕ
c_str [] = []
c_str (c ∷ s) = if c == 0 then [] else c ∷ c_str s

-- The bytes hold no NUL, as the characters of a C string do.
abbrev pub NoNul : List ℕ → Type 0
NoNul [] = Unit
NoNul (c ∷ s) = (c ≢ 0) × NoNul s

-- Every element is a byte.
abbrev pub AllBytes : List ℕ → Type 0
AllBytes [] = Unit
AllBytes (c ∷ s) = (c < 256) × AllBytes s

abbrev pub le16 : ℕ → List ℕ
le16 x = (x % 256) ∷ (x / 256 % 256) ∷ []

abbrev pub le32 : ℕ → List ℕ
le32 x = (x % 256) ∷ (x / 256 % 256) ∷ (x / 65536 % 256) ∷ (x / 16777216 % 256) ∷ []

-- The value of a little-endian field, read from its first bytes.
abbrev pub from_le16 : List ℕ → ℕ
from_le16 s = get_or s 0 0 + 256 * get_or s 1 0

abbrev pub from_le32 : List ℕ → ℕ
from_le32 s = get_or s 0 0 + 256 * get_or s 1 0 + 65536 * get_or s 2 0 + 16777216 * get_or s 3 0

pub strlen-append : (s rest : List ℕ) → NoNul s → strlen (s ++ 0 ∷ rest) ≡ length s
strlen-append [] rest h = refl
strlen-append (c ∷ s) rest h = ground (arith, strlen-append s rest h.1)

pub strlen_of_NoNul : (s : List ℕ) → NoNul s → strlen s ≡ length s
strlen_of_NoNul [] h = refl
strlen_of_NoNul (c ∷ s) h = ground (arith, strlen_of_NoNul s h.1)

pub strlen-le-length : (s : List ℕ) → strlen s ≤ length s
strlen-le-length [] = omega arith
strlen-le-length (c ∷ s) = ground (arith, strlen-le-length s)

pub from_le16-le16 : (x : ℕ) → x < 65536 → from_le16 (le16 x) ≡ x
from_le16-le16 x h = omega arith

pub from_le32-le32 : (x : ℕ) → x < 4294967296 → from_le32 (le32 x) ≡ x
from_le32-le32 x h = omega arith

pub c_str-append : (s more : List ℕ) → NoNul s → c_str (s ++ 0 ∷ more) ≡ s
c_str-append [] more h = refl
c_str-append (c ∷ s) more h = ground (arith, c_str-append s more h.1)

-- A copy of the front of a terminated string, terminated again, holds the front of the string.
pub c_str-take :
    (m : ℕ) (s rest more : List ℕ)
    → m ≤ length s + 1
    → NoNul s
    → c_str (take m (s ++ 0 ∷ rest) ++ 0 ∷ more) ≡ take m s
c_str-take zero s rest more h p = refl
c_str-take (suc m) [] rest more h p = refl
c_str-take (suc m) (c ∷ s) rest more h p =
    ground (arith, c_str-take m s rest more (omega arith) p.1)

pub AllBytes-drop : (n : ℕ) (s : List ℕ) → AllBytes s → AllBytes (drop n s)
AllBytes-drop zero s h = h
AllBytes-drop (suc n) [] h = tt
AllBytes-drop (suc n) (c ∷ s) h = AllBytes-drop n s h.1

pub from_le16-lt : (s : List ℕ) → AllBytes s → from_le16 s < 65536
from_le16-lt [] h = omega arith
from_le16-lt (a ∷ []) h = omega arith
from_le16-lt (a ∷ b ∷ s) h = omega arith

-- `memcmp` and `strcmp` as tests for equality.
abbrev pub bytes_eq : List ℕ → List ℕ → Bool
bytes_eq [] [] = true
bytes_eq [] (d ∷ t) = false
bytes_eq (c ∷ s) [] = false
bytes_eq (c ∷ s) (d ∷ t) = (c == d) && bytes_eq s t

-- `strncmp(s, prefix, strlen(prefix)) == 0`
abbrev pub starts_with : List ℕ → List ℕ → Bool
starts_with [] s = true
starts_with (c ∷ prefix) [] = false
starts_with (c ∷ prefix) (d ∷ s) = (c == d) && starts_with prefix s

-- `strstr(s, needle) != NULL`
abbrev pub contains : List ℕ → List ℕ → Bool
contains needle [] = starts_with needle []
contains needle (c ∷ s) = starts_with needle (c ∷ s) || contains needle s

-- `tolower` of the C locale.
abbrev pub lower : ℕ → ℕ
lower c = if leb b'A' c && leb c b'Z' then c + 32 else c

abbrev pub lower_all : List ℕ → List ℕ
lower_all [] = []
lower_all (c ∷ s) = lower c ∷ lower_all s

pub bytes_eq→eq : (s t : List ℕ) → bytes_eq s t ≡ true → s ≡ t
bytes_eq→eq [] [] h = refl
bytes_eq→eq [] (d ∷ t) h = cc
bytes_eq→eq (c ∷ s) [] h = cc
bytes_eq→eq (c ∷ s) (d ∷ t) h = ground (arith, bytes_eq→eq s t)

pub bytes_eq_refl : (s : List ℕ) → bytes_eq s s ≡ true
bytes_eq_refl [] = refl
bytes_eq_refl (c ∷ s) = ground (arith, bytes_eq_refl s)
