-- ===== src/Common/Int.antt =====
-- Python's integers as numbers with a sign, and their order. `negsuc n` is -(n + 1).
use Prim.Native.Nat.{ℕ, suc, ◌+◌, ◌-◌, ◌*◌, max, min}
use mathlib.Core.Bool.{Bool, true, false}
use low_altitude_io_t_system.Common.Tests.{leb, nat_eqb}

pub data ℤ : Type 0 where
  pos : ℕ → ℤ
  negsuc : ℕ → ℤ

abbrev pub leb_ℤ : ℤ → ℤ → Bool
leb_ℤ (pos a) (pos b) = leb a b
leb_ℤ (pos a) (negsuc b) = false
leb_ℤ (negsuc a) (pos b) = true
leb_ℤ (negsuc a) (negsuc b) = leb b a

abbrev pub eqb_ℤ : ℤ → ℤ → Bool
eqb_ℤ (pos a) (pos b) = nat_eqb a b
eqb_ℤ (pos a) (negsuc b) = false
eqb_ℤ (negsuc a) (pos b) = false
eqb_ℤ (negsuc a) (negsuc b) = nat_eqb a b

-- Multiplication by a positive factor.
abbrev pub scale : ℕ → ℤ → ℤ
scale k (pos n) = pos (n * k)
scale k (negsuc n) = negsuc (suc n * k - 1)

-- `-n`
abbrev pub minus : ℕ → ℤ
minus n = elim n [ ℕ.zero ↦ pos 0 | suc m ↦ negsuc m ]

-- `abs(a - b)`
abbrev pub distance : ℤ → ℤ → ℕ
distance (pos a) (pos b) = max a b - min a b
distance (pos a) (negsuc b) = a + suc b
distance (negsuc a) (pos b) = b + suc a
distance (negsuc a) (negsuc b) = max a b - min a b

-- `bool(n)`
abbrev pub is_nonzero : ℤ → Bool
is_nonzero (pos n) = leb 1 n
is_nonzero (negsuc n) = true
