-- ===== src/Base/Int.antt =====
-- Python's `int`, over the native numbers: `negsuc n` is -(n + 1).
use Prim.Native.Nat.{ℕ, suc, ◌*◌}
use mathlib.Core.Bool.{Bool, true, false}
use docker_vm_runner.Base.Tests.{leb, nat_beq}

pub data ℤ : Type 0 where
  pos : ℕ → ℤ
  negsuc : ℕ → ℤ

-- -n
abbrev pub neg_ℕ : ℕ → ℤ
neg_ℕ Prim.Native.Nat.zero = pos 0
neg_ℕ (suc n) = negsuc n

-- The tests `n <= z` and `z <= n` against a number, and `z == n`.
abbrev pub nat_le_int : ℕ → ℤ → Bool
nat_le_int n (pos m) = leb n m
nat_le_int n (negsuc m) = false

abbrev pub int_le_nat : ℤ → ℕ → Bool
int_le_nat (pos m) n = leb m n
int_le_nat (negsuc m) n = true

abbrev pub int_is : ℤ → ℕ → Bool
int_is (pos m) n = nat_beq m n
int_is (negsuc m) n = false

-- The number of an integer that is not negative.
abbrev pub to_nat : ℤ → ℕ
to_nat (pos n) = n
to_nat (negsuc n) = 0

-- `z * n`
abbrev pub mul_nat : ℤ → ℕ → ℤ
mul_nat (pos m) n = pos (m * n)
mul_nat (negsuc m) n = neg_ℕ (suc m * n)
