-- ===== src/Base/Word.antt =====
-- 64-bit words. A `u64` is a number below 2 ^ 64; an `i64` is kept as its bit pattern, and
-- `to_i64` is the integer that the pattern stands for.
use Prim.Native.Nat.{ℕ, ◌+◌, ◌-◌, ◌%◌, ◌<◌}
use mathlib.Core.Path.{◌≡◌}
use native.Mathlib.Omega.{arith}
use vector_forth_kernel.Base.Tests.{ltb, if◌then◌else◌}
use vector_forth_kernel.Base.Int.{ℤ, pos, negsuc}

abbrev pub two64 : ℕ
two64 = 0x1_0000_0000_0000_0000

abbrev pub two63 : ℕ
two63 = 0x8000_0000_0000_0000

abbrev pub u64_max : ℕ
u64_max = 0xffff_ffff_ffff_ffff

abbrev pub u64 : ℕ → ℕ
u64 n = n % two64

abbrev pub add64 : ℕ → ℕ → ℕ
add64 a b = (a + b) % two64

abbrev pub sub64 : ℕ → ℕ → ℕ
sub64 a b = (a + (two64 - b)) % two64

abbrev pub to_i64 : ℕ → ℤ
to_i64 w = if ltb w two63 then pos w else negsuc (two64 - w - 1)

abbrev pub of_i64 : ℤ → ℕ
of_i64 (pos n) = n % two64
of_i64 (negsuc n) = two64 - 1 - n % two64

pub of_i64-to_i64 : (w : ℕ) → w < two64 → of_i64 (to_i64 w) ≡ w
of_i64-to_i64 w h = ground arith

pub of_i64-lt : (z : ℤ) → of_i64 z < two64
of_i64-lt (pos n) = omega arith
of_i64-lt (negsuc n) = omega arith
