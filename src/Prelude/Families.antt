-- ===== src/Prelude/Families.antt =====
-- Families of values by number.
use Prim.Native.Nat.{ℕ}
use mathlib.Core.Path.{sym, subst}
use mathlib.Core.Logic.{inl, inr}
use robot_framework_ros.Prelude.Tests.{◌==◌, ==_iff, Bool-cases, if◌then◌else◌}

-- A family, changed at one place.
abbrev pub put {ℓ} : {A : Type ℓ} → ℕ → A → (ℕ → A) → ℕ → A
put i x f j = if j == i then x else f j

pub put-all :
    {A : Type 0} (P : ℕ → A → Type 0) (i : ℕ) (x : A) (f : ℕ → A)
    → P i x
    → ((j : ℕ) → P j (f j))
    → (j : ℕ) → P j (put i x f j)
put-all P i x f h k j = elim (Bool-cases (j == i)) [
  | inl e ↦ rw e (subst (λ l. P l x) (sym ((==_iff j i).0 e)) h)
  | inr e ↦ rw e (k j)
]
