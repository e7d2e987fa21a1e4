-- ===== src/BaseNode/Namespace/Laws.antt =====
-- What `validate_robotnamespace` promises of a namespace.
use robot_framework_ros.Prelude.{
  Bool-cases, length, length-append, Text, ℕ, ◌+◌, ◌≡◌, refl, ◌∙◌, inl, inr, false, [], ◌∷◌, ◌++◌,
  arith,
}
use robot_framework_ros.BaseNode.Namespace.{slash, is_duplicate, validate_robotnamespace, last_byte}
use robot_framework_ros.BaseNode.Namespace.Squeeze.{squeeze, remove_duplicates_lem}

-- No slash follows a slash, `previous` being the byte before.
abbrev pub HasNoDuplicate : ℕ → Text → Type 0
HasNoDuplicate previous [] = Unit {0}
HasNoDuplicate previous (c ∷ cs) = (is_duplicate previous c ≡ false) × HasNoDuplicate c cs

-- It begins and ends with a slash, and no two slashes are adjacent.
abbrev pub IsNamespace : Text → Type 0
IsNamespace [] = ⊥
IsNamespace (c ∷ cs) = (c ≡ slash) × (last_byte c cs ≡ slash) × HasNoDuplicate c cs

squeeze-closed :
    (c : ℕ) (cs : Text) → last_byte c cs ≡ slash → squeeze c (cs ++ (slash ∷ [])) ≡ squeeze c cs
unfolding squeeze
squeeze-closed c [] h = ground arith
squeeze-closed c (d ∷ cs) h = ground (arith, squeeze-closed d cs h)

-- For every text, the namespace is a slash and then the text with a slash behind it, where each
-- slash that follows a slash is left out.
pub validate_robotnamespace_lem :
    (str : Text) → validate_robotnamespace str ≡ slash ∷ squeeze slash (str ++ (slash ∷ []))
unfolding validate_robotnamespace squeeze
validate_robotnamespace_lem [] = remove_duplicates_lem 1 slash [] (omega arith)
validate_robotnamespace_lem (c ∷ cs) = ground (
  arith,
  squeeze-closed c cs,
  length-append cs (slash ∷ []),
  remove_duplicates_lem (length cs + 1) c cs,
  remove_duplicates_lem (length cs + 2) c (cs ++ (slash ∷ [])),
  remove_duplicates_lem (length cs + 2) slash (c ∷ cs),
  remove_duplicates_lem (length cs + 3) slash (c ∷ (cs ++ (slash ∷ []))),
)

squeeze-HasNoDuplicate : (previous : ℕ) (cs : Text) → HasNoDuplicate previous (squeeze previous cs)
unfolding squeeze
squeeze-HasNoDuplicate previous [] = tt
squeeze-HasNoDuplicate previous (c ∷ cs) = elim (Bool-cases (is_duplicate previous c)) [
  | inl e ↦
      let same : c ≡ previous = ground arith in rw (e, same) (squeeze-HasNoDuplicate previous cs)
  | inr e ↦ rw e (e, squeeze-HasNoDuplicate c cs)
]

last_byte-squeeze :
    (previous : ℕ) (cs : Text) → last_byte previous (squeeze previous cs) ≡ last_byte previous cs
unfolding squeeze
last_byte-squeeze previous [] = refl
last_byte-squeeze previous (c ∷ cs) = ground (arith, last_byte-squeeze c cs)

last_byte-append : (c d : ℕ) (cs : Text) → last_byte c (cs ++ (d ∷ [])) ≡ d
last_byte-append c d [] = refl
last_byte-append c d (e ∷ cs) = last_byte-append e d cs

-- For every text the result begins and ends with a slash and holds no two adjacent slashes.
pub validate_robotnamespace-IsNamespace : (str : Text) → IsNamespace (validate_robotnamespace str)
validate_robotnamespace-IsNamespace str = rw (validate_robotnamespace_lem str) (
  refl,
  last_byte-squeeze slash (str ++ (slash ∷ [])) ∙ last_byte-append slash slash str,
  squeeze-HasNoDuplicate slash (str ++ (slash ∷ [])),
)
