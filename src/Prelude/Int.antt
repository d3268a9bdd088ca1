-- ===== src/Prelude/Int.antt =====
-- Signed integers over the native numbers, for field and enum value numbers (`i64` in the source).
use Prim.Native.Nat.{ℕ, ◌-◌, ◌^◌}
use mathlib.Core.Path.{◌≡◌}
use mathlib.Core.Logic.{◌↔◌}
use mathlib.Core.Bool.{Bool, true, false}
use native.Mathlib.Omega.{arith}
use pbpp.Prelude.Tests.{ltb, leb, ◌==◌, if◌then◌else◌}

-- `negsuc n` is -(n + 1).
pub data ℤ : Type 0 where
  pos : ℕ → ℤ
  negsuc : ℕ → ℤ

abbrev pub ℤ_eq : ℤ → ℤ → Bool
ℤ_eq (pos a) (pos b) = a == b
ℤ_eq (negsuc a) (negsuc b) = a == b
ℤ_eq _ _ = false

abbrev pub ℤ_leb : ℤ → ℤ → Bool
ℤ_leb (pos a) (pos b) = leb a b
ℤ_leb (negsuc a) (negsuc b) = leb b a
ℤ_leb (negsuc a) (pos b) = true
ℤ_leb (pos a) (negsuc b) = false

-- `u64::cast_signed`.
unfoldable pub cast_signed : ℕ → ℤ
cast_signed n = if ltb n (2 ^ 63) then pos n else negsuc ((2 ^ 64 - 1) - n)

pub ℤ_eq_iff : (a b : ℤ) → (ℤ_eq a b ≡ true) ↔ (a ≡ b)
ℤ_eq_iff (pos a) (pos b) = ground arith
ℤ_eq_iff (pos a) (negsuc b) = ground arith
ℤ_eq_iff (negsuc a) b = ground arith
