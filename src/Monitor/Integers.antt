-- ===== src/Monitor/Integers.antt =====
-- The signed integers of the windows: `int`, and the conversion to `int16_t`.
use robot_framework_ros.Prelude.{
  ltb, leb, ◌==◌, if◌then◌else◌, ℕ, zero, suc, ◌+◌, ◌-◌, ◌%◌, ◌^◌, Bool, true, false,
}

pub data ℤ : Type 0 where
  pos negsuc : ℕ → ℤ

abbrev pub sucℤ : ℤ → ℤ
sucℤ (pos n) = pos (n + 1)
sucℤ (negsuc zero) = pos 0
sucℤ (negsuc (suc n)) = negsuc n

abbrev pub predℤ : ℤ → ℤ
predℤ (pos zero) = negsuc 0
predℤ (pos (suc n)) = pos n
predℤ (negsuc n) = negsuc (n + 1)

abbrev pub lebℤ : ℤ → ℤ → Bool
lebℤ (pos a) (pos b) = leb a b
lebℤ (pos a) (negsuc b) = false
lebℤ (negsuc a) (pos b) = true
lebℤ (negsuc a) (negsuc b) = leb b a

-- `(int16_t) x`, modulo 2^16.
unfoldable pub narrow16 : ℤ → ℤ
narrow16 (pos n) = let r = n % 2 ^ 16 in if ltb r (2 ^ 15) then pos r else negsuc (2 ^ 16 - 1 - r)
narrow16 (negsuc n) =
    let r = n % 2 ^ 16 in if ltb r (2 ^ 15) then negsuc r else pos (2 ^ 16 - 1 - r)

abbrev pub eqbℤ : ℤ → ℤ → Bool
eqbℤ (pos a) (pos b) = a == b
eqbℤ (pos a) (negsuc b) = false
eqbℤ (negsuc a) (pos b) = false
eqbℤ (negsuc a) (negsuc b) = a == b
