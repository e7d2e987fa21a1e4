-- ===== src/BaseNode/Namespace/Squeeze.antt =====
-- The loop of `validate_robotnamespace` against a description by recursion: the text with each run
-- of slashes cut down to one.
use robot_framework_ros.Prelude.{
  if◌then◌else◌, Option-cases, length, Text, ℕ, zero, suc, ◌+◌, ◌<◌, ◌≡◌, refl, inl, inr, Option,
  none, some, [], ◌∷◌, arith,
}
use robot_framework_ros.BaseNode.Namespace.{
  is_duplicate, scan, find_duplicate, erase, remove_duplicates,
}

-- The bytes after `previous`, less each slash that follows a slash.
unfoldable pub squeeze : ℕ → Text → Text
squeeze previous [] = []
squeeze previous (c ∷ cs) = if is_duplicate previous c then squeeze c cs else c ∷ squeeze c cs

-- The last repeated slash, counted from the byte after `previous`.
last_duplicate : ℕ → Text → Option ℕ
last_duplicate previous [] = none
last_duplicate previous (c ∷ cs) = elim (last_duplicate c cs) [
  | some k ↦ some (suc k)
  | none ↦ if is_duplicate previous c then some 0 else none
]

abbrev shifted : ℕ → Option ℕ → Option ℕ → Option ℕ
shifted i found none = found
shifted i found (some k) = some (i + k)

scan_lem :
    (i previous : ℕ) (cs : Text) (found : Option ℕ)
    → scan i previous cs found ≡ shifted i found (last_duplicate previous cs)
unfolding scan last_duplicate
scan_lem i previous [] found = refl
scan_lem i previous (c ∷ cs) found =
    ground (arith, scan_lem (suc i) c cs (if is_duplicate previous c then some i else found))

squeeze-none :
    (previous : ℕ) (cs : Text) → last_duplicate previous cs ≡ none → squeeze previous cs ≡ cs
unfolding last_duplicate squeeze
squeeze-none previous [] h = refl
squeeze-none previous (c ∷ cs) h = ground (arith, squeeze-none c cs)

squeeze-erase :
    (previous : ℕ) (cs : Text) (k : ℕ)
    → last_duplicate previous cs ≡ some k
    → (squeeze previous (erase k cs) ≡ squeeze previous cs) × (length (erase k cs) + 1 ≡ length cs)
unfolding last_duplicate squeeze erase
squeeze-erase previous [] k h = ground arith
squeeze-erase previous (c ∷ cs) zero h = ground (arith, squeeze-none c cs)
squeeze-erase previous (c ∷ cs) (suc k) h = ground (arith, squeeze-erase c cs k)

-- With as many rounds as there are bytes the loop ends by finding nothing to remove.
pub remove_duplicates_lem :
    (rounds c : ℕ) (cs : Text)
    → length cs < rounds
    → remove_duplicates rounds (c ∷ cs) ≡ c ∷ squeeze c cs
unfolding remove_duplicates find_duplicate erase
remove_duplicates_lem zero c cs h = absurd (omega arith)
remove_duplicates_lem (suc rounds) c cs h = elim (Option-cases (last_duplicate c cs)) [
  | inl e ↦ ground (arith, scan_lem 1 c cs none, squeeze-none c cs)
  | inr (k, e) ↦ ground (
    arith,
    scan_lem 1 c cs none,
    squeeze-erase c cs k,
    remove_duplicates_lem rounds c (erase k cs),
  )
]

last_duplicate-squeeze :
    (previous : ℕ) (cs : Text) → last_duplicate previous (squeeze previous cs) ≡ none
unfolding last_duplicate squeeze
last_duplicate-squeeze previous [] = refl
last_duplicate-squeeze previous (c ∷ cs) = ground (arith, last_duplicate-squeeze c cs)

-- A text with its runs cut down has nothing to remove.
pub find_duplicate-squeeze : (c : ℕ) (cs : Text) → find_duplicate (c ∷ squeeze c cs) ≡ none
unfolding find_duplicate
find_duplicate-squeeze c cs =
    ground (arith, scan_lem 1 c (squeeze c cs) none, last_duplicate-squeeze c cs)
