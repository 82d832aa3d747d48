-- ===== src/Vm/Words/Arith.antt =====
-- The arithmetic words of vm/core/forth.c on 64-bit patterns. Signed overflow, which C leaves
-- undefined, wraps; the division that overflows is the processor's exception.
use vector_forth_kernel.Base.{ℕ, ◌+◌, ◌*◌, ◌/◌, ◌%◌, Bool, ◌==◌, ◌&&◌, leb, if◌then◌else◌, codes}
use vector_forth_kernel.Base.Int.{ltb_ℤ, quot, rem}
use vector_forth_kernel.Base.Word.{two63, two64, u64_max, add64, sub64, to_i64, of_i64}
use vector_forth_kernel.Vm.State.{Act, trapped, ◌>>=◌, ◌>>◌, puts}
use vector_forth_kernel.Vm.Stack.{ds_push, ds_pop}

-- `a < b` on `i64`
abbrev pub lt_i64 : ℕ → ℕ → Bool
lt_i64 a b = ltb_ℤ (to_i64 a) (to_i64 b)

-- `idiv` raises an exception where the quotient is no `i64`.
abbrev pub overflows : ℕ → ℕ → Bool
overflows a b = a == two63 && b == u64_max

abbrev pub div_i64 : ℕ → ℕ → ℕ
div_i64 a b = of_i64 (quot (to_i64 a) (to_i64 b))

abbrev pub rem_i64 : ℕ → ℕ → ℕ
rem_i64 a b = of_i64 (rem (to_i64 a) (to_i64 b))

abbrev pub trap : Act
trap m = trapped

unfoldable pub w_plus : Act
w_plus = do b ← ds_pop; a ← ds_pop; ds_push (add64 a b)

unfoldable pub w_minus : Act
w_minus = do b ← ds_pop; a ← ds_pop; ds_push (sub64 a b)

unfoldable pub w_mul : Act
w_mul = do b ← ds_pop; a ← ds_pop; ds_push (a * b % two64)

unfoldable pub w_div : Act
w_div = do
  b ← ds_pop
  if b == 0
      then (do puts (codes " Div/0!\n"); ds_push 0)
      else do a ← ds_pop; if overflows a b then trap else ds_push (div_i64 a b)

unfoldable pub w_mod : Act
w_mod = do
  b ← ds_pop
  if b == 0
      then (do puts (codes " Div/0!\n"); ds_push 0)
      else do a ← ds_pop; if overflows a b then trap else ds_push (rem_i64 a b)

unfoldable pub w_divmod : Act
w_divmod = do
  b ← ds_pop
  if b == 0 then (do puts (codes " Div/0!\n"); ds_push 0; ds_push 0) else do
    a ← ds_pop
    if overflows a b then trap else (do ds_push (rem_i64 a b); ds_push (div_i64 a b))

unfoldable pub w_negate : Act
w_negate = do v ← ds_pop; ds_push (sub64 0 v)

unfoldable pub w_abs : Act
w_abs = do v ← ds_pop; ds_push (if lt_i64 v 0 then sub64 0 v else v)

unfoldable pub w_min : Act
w_min = do b ← ds_pop; a ← ds_pop; ds_push (if lt_i64 a b then a else b)

unfoldable pub w_max : Act
w_max = do b ← ds_pop; a ← ds_pop; ds_push (if lt_i64 b a then a else b)

unfoldable pub w_1plus : Act
w_1plus = do v ← ds_pop; ds_push (add64 v 1)

unfoldable pub w_1minus : Act
w_1minus = do v ← ds_pop; ds_push (sub64 v 1)

unfoldable pub w_2star : Act
w_2star = do v ← ds_pop; ds_push (v * 2 % two64)

-- `>> 1` on `i64` repeats the sign bit.
abbrev pub half_i64 : ℕ → ℕ
half_i64 v = if leb two63 v then v / 2 + two63 else v / 2

unfoldable pub w_2slash : Act
w_2slash = do v ← ds_pop; ds_push (half_i64 v)
