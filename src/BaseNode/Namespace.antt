-- ===== src/BaseNode/Namespace.antt =====
-- `validate_robotnamespace` of core/BaseNode/BaseNode.cpp.
pub mod Squeeze
pub mod Laws
pub mod Termination
mod Tests
use robot_framework_ros.Prelude.{
  ◌==◌, if◌then◌else◌, length, Text, ℕ, zero, suc, Bool, ◌&&◌, Option, none, some, [], ◌∷◌, ◌++◌,
}

abbrev pub slash : ℕ
slash = b'/'

-- `(str.at(i) == str.at(i - 1)) && (str.at(i) == '/')`.
abbrev pub is_duplicate : ℕ → ℕ → Bool
is_duplicate previous c = (c == previous) && (c == slash)

-- The `for` loop over i: the last position that repeats a slash, `found` being the one so far.
pub scan : ℕ → ℕ → Text → Option ℕ → Option ℕ
scan i previous [] found = found
scan i previous (c ∷ cs) found =
    scan (suc i) c cs (if is_duplicate previous c then some i else found)

pub find_duplicate : Text → Option ℕ
unfolding scan
find_duplicate [] = none
find_duplicate (c ∷ cs) = scan 1 c cs none

-- `str.erase(str.begin() + index)`.
pub erase : ℕ → Text → Text
erase i [] = []
erase zero (c ∷ cs) = cs
erase (suc i) (c ∷ cs) = c ∷ erase i cs

-- The `while` loop; the fuel is `max_count - counter`, at which the code gives up too.
pub remove_duplicates : ℕ → Text → Text
remove_duplicates zero str = str
remove_duplicates (suc rounds) str = elim (find_duplicate str) [
  | none ↦ str
  | some index ↦ remove_duplicates rounds (erase index str)
]

abbrev pub or_slash : Text → Text
or_slash [] = slash ∷ []
or_slash (c ∷ cs) = c ∷ cs

abbrev pub open_slash : Text → Text
open_slash [] = slash ∷ []
open_slash (c ∷ cs) = if c == slash then c ∷ cs else slash ∷ c ∷ cs

-- The byte at `str.length() - 1`, `c` being the one before `cs`.
abbrev pub last_byte : ℕ → Text → ℕ
last_byte c [] = c
last_byte c (d ∷ cs) = last_byte d cs

abbrev pub close_slash : Text → Text
close_slash [] = slash ∷ []
close_slash (c ∷ cs) = if last_byte c cs == slash then c ∷ cs else (c ∷ cs) ++ (slash ∷ [])

unfoldable pub validate_robotnamespace : Text → Text
unfolding remove_duplicates
validate_robotnamespace str =
    let closed = close_slash (open_slash (or_slash str)) in remove_duplicates (length closed) closed
