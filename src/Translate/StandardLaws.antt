-- ===== src/Translate/StandardLaws.antt =====
-- Covariances keep their values.
use robot_framework_ros.Prelude.{
  length, ℕ, zero, suc, ◌<◌, ◌≡◌, refl, ap, none, some, List, [], ◌∷◌, arith,
}
use robot_framework_ros.Platform.{Platform}
use robot_framework_ros.Translate.Standard.{
  covariance_to_core, covariance_to_ros, fresh_array, copy_into, copy_n, convert_boostarray_9,
}

module _ ⦃p : Platform⦄ where
  copy_into_full :
      (vs fresh : List p.Real) → length vs ≡ length fresh → copy_into vs fresh ≡ some vs
  unfolding copy_into
  copy_into_full [] [] h = refl
  copy_into_full [] (f ∷ fresh) h = absurd (omega arith)
  copy_into_full (v ∷ vs) [] h = absurd (omega arith)
  copy_into_full (v ∷ vs) (f ∷ fresh) h = ground (arith, copy_into_full vs fresh)

  copy_into_long : (vs fresh : List p.Real) → length fresh < length vs → copy_into vs fresh ≡ none
  unfolding copy_into
  copy_into_long [] fresh h = absurd (omega arith)
  copy_into_long (v ∷ vs) [] h = refl
  copy_into_long (v ∷ vs) (f ∷ fresh) h = ground (arith, copy_into_long vs fresh)

  length-fresh_array : (n : ℕ) → length (fresh_array n) ≡ n
  unfolding fresh_array
  length-fresh_array zero = refl
  length-fresh_array (suc n) = ap suc (length-fresh_array n)

  -- An array of n numbers that is converted to a core covariance and back comes back whole,
  -- whatever the local array held; and a vector longer than the array is a fault.
  pub covariance_to_ros-to_core :
      (n : ℕ) (msg : List p.Real)
      → length msg ≡ n
      → (covariance_to_ros n (covariance_to_core msg) ≡ some msg)
        × ((v : p.Real) → covariance_to_ros n (covariance_to_core (v ∷ msg)) ≡ none)
  unfolding covariance_to_ros covariance_to_core
  covariance_to_ros-to_core n msg h =
      let size = length-fresh_array n in
      (
        copy_into_full msg (fresh_array n) (omega arith),
        λ v. copy_into_long (v ∷ msg) (fresh_array n) (omega arith),
      )

  copy_n_full :
      (n : ℕ) (vs into : List p.Real) → length vs ≡ n → length into ≡ n → copy_n n vs into ≡ some vs
  unfolding copy_n
  copy_n_full zero [] [] h k = refl
  copy_n_full zero [] (i ∷ into) h k = absurd (omega arith)
  copy_n_full zero (v ∷ vs) into h k = absurd (omega arith)
  copy_n_full (suc n) [] into h k = absurd (omega arith)
  copy_n_full (suc n) (v ∷ vs) [] h k = absurd (omega arith)
  copy_n_full (suc n) (v ∷ vs) (i ∷ into) h k = ground (arith, copy_n_full n vs into)

  -- A vector of nine values is converted to an array of the same values.
  pub convert_boostarray_9_full :
      (vs : List p.Real) → length vs ≡ 9 → convert_boostarray_9 vs ≡ some vs
  unfolding convert_boostarray_9
  convert_boostarray_9_full vs h = copy_n_full 9 vs _ h (omega arith)

  -- A vector of fewer than nine values is read past its end.
  copy_n_short : (n : ℕ) (vs into : List p.Real) → length vs < n → copy_n n vs into ≡ none
  unfolding copy_n
  copy_n_short zero vs into h = absurd (omega arith)
  copy_n_short (suc n) [] into h = refl
  copy_n_short (suc n) (v ∷ vs) [] h = refl
  copy_n_short (suc n) (v ∷ vs) (i ∷ into) h = ground (arith, copy_n_short n vs into)
