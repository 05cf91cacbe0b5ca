-- ===== src/Prelude/Int.antt =====
-- Signed integers over the native numbers, and the C++ conversions and increments on them.
use Prim.Native.Nat.{ℕ, zero, suc, ◌+◌, ◌-◌, ◌%◌, ◌≤◌, ◌<◌}
use mathlib.Core.Path.{◌≡◌}
use mathlib.Core.Bool.{Bool, true, false}
use native.Mathlib.Omega.{arith}
use native.Mathlib.Decide.{ℕ_discrete}
use distributed_systems_chub.Prelude.Tests.{Eq, ltb, if◌then◌else◌}

-- `negsuc n` is -(n + 1).
pub data ℤ : Type 0 where
  pos : ℕ → ℤ
  negsuc : ℕ → ℤ

ℤ-discrete : Discrete ℤ
ℤ-discrete = hlevel ℕ_discrete

instance unfoldable pub ℤ_eq : Eq ℤ
unfolding ℤ-discrete ℕ_discrete
ℤ_eq = record { dec = ℤ-discrete }

abbrev pub pos_part : ℤ → ℕ
pos_part (pos n) = n
pos_part (negsuc n) = 0

abbrev pub neg_part : ℤ → ℕ
neg_part (pos n) = 0
neg_part (negsuc n) = suc n

infix 50 ◌≤ℤ◌
abbrev pub ◌≤ℤ◌ : ℤ → ℤ → Type 0
a ≤ℤ b = pos_part a + neg_part b ≤ pos_part b + neg_part a

abbrev pub ltb_ℤ : ℤ → ℤ → Bool
ltb_ℤ a b = ltb (pos_part a + neg_part b) (pos_part b + neg_part a)

-- -1, the C++ code for a failure or for a closed handle.
abbrev pub minus_one : ℤ
minus_one = negsuc 0

abbrev pub int_max : ℕ
int_max = 0x7fff_ffff

-- `i + 1` on a 32-bit `int`, with the wrap-around of two's complement.
unfoldable pub int_succ : ℤ → ℤ
int_succ (pos n) = if ltb n int_max then pos (n + 1) else negsuc int_max
int_succ (negsuc zero) = pos 0
int_succ (negsuc (suc n)) = negsuc n

-- The `int` with the bit pattern `u`.
int_of_bits : ℕ → ℤ
int_of_bits u = if ltb u 0x8000_0000 then pos u else negsuc (0xffff_ffff - u)

-- The conversion from `int64_t` to `int`: the low 32 bits.
unfoldable pub to_int : ℤ → ℤ
unfolding int_of_bits
to_int (pos n) = int_of_bits (n % 0x1_0000_0000)
to_int (negsuc n) = int_of_bits (0xffff_ffff - n % 0x1_0000_0000)

-- The conversion from an integer to `bool`.
abbrev pub to_bool : ℤ → Bool
to_bool (pos zero) = false
to_bool (pos (suc n)) = true
to_bool (negsuc n) = true

pub to_int-pos : (n : ℕ) → n < 0x8000_0000 → to_int (pos n) ≡ pos n
unfolding to_int
to_int-pos n h = ground arith
