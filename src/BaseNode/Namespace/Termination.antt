-- ===== src/BaseNode/Namespace/Termination.antt =====
-- The `while` loop of `validate_robotnamespace` ends by itself.
use robot_framework_ros.Prelude.{
  length, Text, ℕ, zero, suc, ◌+◌, ◌≤◌, ◌≡◌, refl, sym, ◌∙◌, none, [], ◌∷◌, arith,
}
use robot_framework_ros.BaseNode.Namespace.{find_duplicate, remove_duplicates}
use robot_framework_ros.BaseNode.Namespace.Squeeze.{remove_duplicates_lem, find_duplicate-squeeze}

remove_duplicates-empty : (rounds : ℕ) → remove_duplicates rounds [] ≡ []
unfolding remove_duplicates find_duplicate
remove_duplicates-empty zero = refl
remove_duplicates-empty (suc rounds) = refl

-- With at least as many rounds as there are bytes, which is what the code allows, the loop that
-- removes repeated slashes ends because it finds none, not because it gives up, and more rounds
-- would change nothing.
pub remove_duplicates-stops :
    (rounds extra : ℕ) (str : Text)
    → length str ≤ rounds
    → (find_duplicate (remove_duplicates rounds str) ≡ none)
      × (remove_duplicates (rounds + extra) str ≡ remove_duplicates rounds str)
unfolding remove_duplicates find_duplicate
remove_duplicates-stops rounds extra [] h =
    let now = remove_duplicates-empty rounds in
    (rw (now, find_duplicate) refl, remove_duplicates-empty (rounds + extra) ∙ sym now)
remove_duplicates-stops rounds extra (c ∷ cs) h =
    let now = remove_duplicates_lem rounds c cs h in
    let later = remove_duplicates_lem (rounds + extra) c cs (omega (arith, h)) in
    (rw now (find_duplicate-squeeze c cs), later ∙ sym now)
