-- ===== src/Translate/Standard.antt =====
-- TranslateUtilityStandardMsgs.cpp: vectors and covariances. `Vector3DMsg` and
-- `geometry_msgs/Vector3` have the same three members; a `boost::array<double, n>` is a list of n
-- numbers.
use robot_framework_ros.Prelude.{replicate, ℕ, zero, suc, Option, none, some, List, [], ◌∷◌}
use robot_framework_ros.Platform.{Platform}

module _ ⦃p : Platform⦄ where
  -- `geometry_msgs::Vector3`.
  pub record Vector3 : Type 0 where
    pub x : p.Real
    pub y : p.Real
    pub z : p.Real

  -- `StandardMsgs::Vector3DMsg`.
  pub record Vector3DMsg : Type 0 where
    pub x : p.Real
    pub y : p.Real
    pub z : p.Real

  -- `StandardMsgs::Covariance3DMsg` and `Covariance6DMsg`, whose `covariance` is a `std::vector`.
  pub record CovarianceMsg : Type 0 where
    pub covariance : List p.Real

  unfoldable pub vector_to_core : Vector3 → Vector3DMsg
  vector_to_core msg = record { x = msg.x; y = msg.y; z = msg.z }

  unfoldable pub vector_to_ros : Vector3DMsg → Vector3
  vector_to_ros msg = record { x = msg.x; y = msg.y; z = msg.z }

  -- `covariance.assign(begin, end)`.
  unfoldable pub covariance_to_core : List p.Real → CovarianceMsg
  covariance_to_core msg = record { covariance = msg }

  -- `std::copy` into a local array, whose `fresh` values are not initialised. A longer vector would
  -- be written past the end: `none`.
  unfoldable pub copy_into : List p.Real → List p.Real → Option (List p.Real)
  copy_into [] fresh = some fresh
  copy_into (v ∷ vs) [] = none
  copy_into (v ∷ vs) (f ∷ fresh) = elim (copy_into vs fresh) [ none ↦ none | some r ↦ some (v ∷ r) ]

  -- A local array of n numbers.
  unfoldable pub fresh_array : ℕ → List p.Real
  fresh_array zero = []
  fresh_array (suc n) = p.uninitialised n ∷ fresh_array n

  -- `convert_covariance3D` at n = 9 and `convert_covariance6D` at n = 36.
  unfoldable pub covariance_to_ros : ℕ → CovarianceMsg → Option (List p.Real)
  unfolding copy_into fresh_array
  covariance_to_ros n msg = copy_into msg.covariance (fresh_array n)

  -- `CoreUtility::convert_boostarray_9`: nine zeros, and then `copy_n` of nine values, which reads
  -- past the end of a shorter vector: `none`.
  unfoldable pub copy_n : ℕ → List p.Real → List p.Real → Option (List p.Real)
  copy_n zero from into = some into
  copy_n (suc n) [] into = none
  copy_n (suc n) (v ∷ vs) [] = none
  copy_n (suc n) (v ∷ vs) (i ∷ into) = elim (copy_n n vs into) [
    | none ↦ none
    | some r ↦ some (v ∷ r)
  ]

  unfoldable pub convert_boostarray_9 : List p.Real → Option (List p.Real)
  unfolding copy_n
  convert_boostarray_9 vector = copy_n 9 vector (replicate 9 (p.decimal 0 0))
