-- ===== src/Prelude/Table.antt =====
-- `std::map`: an association list whose iteration order is the order of the keys.
use Prim.Native.Nat.{ℕ, ◌+◌}
use mathlib.Core.Path.{◌≡◌, refl}
use mathlib.Core.Logic.{◌↔◌}
use mathlib.Core.Bool.{Bool, true}
use mathlib.Core.Option.{Option, none, some}
use mathlib.Core.List.{List, [], ◌∷◌}
use native.Mathlib.Omega.{arith}
use robot_framework_ros.Prelude.Tests.{◌==◌, ==_iff, ltb, if◌then◌else◌}
use robot_framework_ros.Prelude.Bytes.{Text, text_eq, text_eq_iff, text_lt}
use robot_framework_ros.Prelude.Lists.{length}

-- The keys of a map: `operator==` and `operator<`.
pub record Key (K : Type 0) : Type 0 where
  pub eqb : K → K → Bool
  pub eqb_iff : (a b : K) → (eqb a b ≡ true) ↔ (a ≡ b)
  pub before : K → K → Bool

instance abbrev pub number_key : Key ℕ
number_key = record { eqb = ◌==◌; eqb_iff = ==_iff; before = ltb }

instance abbrev pub text_key : Key Text
text_key = record { eqb = text_eq; eqb_iff = text_eq_iff; before = text_lt }

abbrev pub Table : Type 0 → Type 0 → Type 0
Table K V = List (K × V)

module _ {K V : Type 0} ⦃k : Key K⦄ where
  open k use {eqb, eqb_iff, before}

  -- `find`.
  unfoldable pub lookup : K → Table K V → Option V
  lookup x [] = none
  lookup x ((y, v) ∷ m) = if eqb y x then some v else lookup x m

  -- `m[x] = v`.
  unfoldable pub insert : K → V → Table K V → Table K V
  insert x v [] = (x, v) ∷ []
  insert x v ((y, w) ∷ m) =
      if eqb y x
      then (x, v) ∷ m
      else if before x y
      then (x, v) ∷ (y, w) ∷ m
      else (y, w) ∷ insert x v m

  pub lookup-insert :
      (x z : K) (v : V) (m : Table K V)
      → lookup z (insert x v m) ≡ (if eqb x z then some v else lookup z m)
  unfolding lookup insert
  lookup-insert x z v [] = refl
  lookup-insert x z v ((y, w) ∷ m) =
      ground (arith, eqb_iff x z, eqb_iff y x, eqb_iff y z, lookup-insert x z v m)

  pub lookup-insert_self : (x : K) (v : V) (m : Table K V) → lookup x (insert x v m) ≡ some v
  lookup-insert_self x v m = ground (arith, lookup-insert x x v m, eqb_iff x x)

  -- A new key makes the map one longer.
  pub length-insert_new :
      (x : K) (v : V) (m : Table K V) → lookup x m ≡ none → length (insert x v m) ≡ length m + 1
  unfolding lookup insert
  length-insert_new x v [] h = omega arith
  length-insert_new x v ((y, w) ∷ m) h = ground (arith, length-insert_new x v m)

  -- A loop `for (auto& p : m)` that changes the values in place.
  unfoldable pub map_values : (V → V) → Table K V → Table K V
  map_values f [] = []
  map_values f ((y, w) ∷ m) = (y, f w) ∷ map_values f m

  pub lookup-map_values :
      (f : V → V) (x : K) (m : Table K V)
      → lookup x (map_values f m) ≡ elim (lookup x m) [ none ↦ none | some v ↦ some (f v) ]
  unfolding lookup map_values
  lookup-map_values f x [] = refl
  lookup-map_values f x ((y, w) ∷ m) = ground (arith, lookup-map_values f x m)

  pub length-map_values : (f : V → V) (m : Table K V) → length (map_values f m) ≡ length m
  unfolding map_values
  length-map_values f [] = refl
  length-map_values f ((y, w) ∷ m) = omega (arith, length-map_values f m)

  -- A change of `it->second`, where `it` is `find(x)`.
  unfoldable pub modify : K → (V → V) → Table K V → Table K V
  modify x f [] = []
  modify x f ((y, w) ∷ m) = if eqb y x then (y, f w) ∷ m else (y, w) ∷ modify x f m

  pub lookup-modify :
      (x z : K) (f : V → V) (m : Table K V)
      → lookup z (modify x f m)
        ≡ elim (lookup z m) [ none ↦ none | some v ↦ some (if eqb x z then f v else v) ]
  unfolding lookup modify
  lookup-modify x z f [] = refl
  lookup-modify x z f ((y, w) ∷ m) =
      ground (arith, eqb_iff x z, eqb_iff y x, eqb_iff y z, lookup-modify x z f m)

  pub length-modify : (x : K) (f : V → V) (m : Table K V) → length (modify x f m) ≡ length m
  unfolding modify
  length-modify x f [] = refl
  length-modify x f ((y, w) ∷ m) = ground (arith, length-modify x f m)
