-- ===== src/Vm/Words/Logic.antt =====
-- The bitwise words and the comparisons of vm/core/forth.c. A flag is -1 or 0. A shift count is
-- taken modulo 64, as the processor takes it; C leaves larger counts undefined.
use Prim.Native.Nat.{bit_and, bit_or, bit_xor}
use vector_forth_kernel.Base.{ℕ, ◌-◌, ◌*◌, ◌/◌, ◌%◌, ◌^◌, Bool, not, ◌==◌, if◌then◌else◌}
use vector_forth_kernel.Base.Word.{two64, u64_max}
use vector_forth_kernel.Vm.State.{Act, ◌>>=◌}
use vector_forth_kernel.Vm.Stack.{ds_push, ds_pop}
use vector_forth_kernel.Vm.Words.Arith.{lt_i64}

abbrev pub flag : Bool → ℕ
flag b = if b then u64_max else 0

unfoldable pub w_and : Act
w_and = do b ← ds_pop; a ← ds_pop; ds_push (bit_and a b)

unfoldable pub w_or : Act
w_or = do b ← ds_pop; a ← ds_pop; ds_push (bit_or a b)

unfoldable pub w_xor : Act
w_xor = do b ← ds_pop; a ← ds_pop; ds_push (bit_xor a b)

unfoldable pub w_invert : Act
w_invert = do v ← ds_pop; ds_push (u64_max - v)

unfoldable pub w_lshift : Act
w_lshift = do n ← ds_pop; v ← ds_pop; ds_push (v * 2 ^ (n % 64) % two64)

unfoldable pub w_rshift : Act
w_rshift = do n ← ds_pop; v ← ds_pop; ds_push (v / 2 ^ (n % 64))

unfoldable pub w_eq : Act
w_eq = do b ← ds_pop; a ← ds_pop; ds_push (flag (a == b))

unfoldable pub w_neq : Act
w_neq = do b ← ds_pop; a ← ds_pop; ds_push (flag (not (a == b)))

unfoldable pub w_lt : Act
w_lt = do b ← ds_pop; a ← ds_pop; ds_push (flag (lt_i64 a b))

unfoldable pub w_gt : Act
w_gt = do b ← ds_pop; a ← ds_pop; ds_push (flag (lt_i64 b a))

unfoldable pub w_le : Act
w_le = do b ← ds_pop; a ← ds_pop; ds_push (flag (not (lt_i64 b a)))

unfoldable pub w_ge : Act
w_ge = do b ← ds_pop; a ← ds_pop; ds_push (flag (not (lt_i64 a b)))

unfoldable pub w_0eq : Act
w_0eq = do v ← ds_pop; ds_push (flag (v == 0))

unfoldable pub w_0lt : Act
w_0lt = do v ← ds_pop; ds_push (flag (lt_i64 v 0))

unfoldable pub w_0gt : Act
w_0gt = do v ← ds_pop; ds_push (flag (lt_i64 0 v))
