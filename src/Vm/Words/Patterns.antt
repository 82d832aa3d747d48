-- ===== src/Vm/Words/Patterns.antt =====
-- The operations on 64-bit patterns are those on the integers that the patterns stand for.
use vector_forth_kernel.Base.{ℕ, ◌+◌, ◌-◌, ◌*◌, ◌/◌, ◌%◌, ◌<◌, ◌≡◌, arith, if◌then◌else◌}
use vector_forth_kernel.Base.Int.{ℤ, pos, negsuc, pos_part, neg_part, sub_ℕ, abs, neg}
use vector_forth_kernel.Base.Word.{two64, u64_max, add64, sub64, to_i64, of_i64}
use vector_forth_kernel.Vm.Words.Arith.{lt_i64, half_i64}

abbrev pub ◌+ℤ◌ : ℤ → ℤ → ℤ
◌+ℤ◌ a b = sub_ℕ (pos_part a + pos_part b) (neg_part a + neg_part b)

-- The integer half, rounded down.
abbrev pub floor_half : ℤ → ℤ
floor_half (pos n) = pos (n / 2)
floor_half (negsuc n) = negsuc (n / 2)

pub add64_lem : (a b : ℕ) → a < two64 → b < two64 → add64 a b ≡ of_i64 (◌+ℤ◌ (to_i64 a) (to_i64 b))
add64_lem a b ha hb = ground arith

pub sub64_lem :
    (a b : ℕ) → a < two64 → b < two64 → sub64 a b ≡ of_i64 (◌+ℤ◌ (to_i64 a) (neg (to_i64 b)))
sub64_lem a b ha hb = ground arith

pub negate_lem : (a : ℕ) → a < two64 → sub64 0 a ≡ of_i64 (neg (to_i64 a))
negate_lem a ha = ground arith

pub abs_lem :
    (a : ℕ) → a < two64 → (if lt_i64 a 0 then sub64 0 a else a) ≡ of_i64 (pos (abs (to_i64 a)))
abs_lem a ha = ground arith

pub half_lem : (a : ℕ) → a < two64 → half_i64 a ≡ of_i64 (floor_half (to_i64 a))
half_lem a ha = ground arith

pub double_lem : (a : ℕ) → a < two64 → a * 2 % two64 ≡ of_i64 (◌+ℤ◌ (to_i64 a) (to_i64 a))
double_lem a ha = ground arith

pub invert_lem : (a : ℕ) → a < two64 → u64_max - a ≡ of_i64 (◌+ℤ◌ (neg (to_i64 a)) (negsuc 0))
invert_lem a ha = ground arith
