-- ===== src/Vm/Stack.antt =====
-- The functions of vm/stack/stack.c. Cells are 64-bit patterns; an index is never negative, so
-- `dsp <= 0` is `dsp == 0`.
pub mod View
use vector_forth_kernel.Base.{ℕ, ◌+◌, ◌-◌, ◌==◌, leb, if◌then◌else◌, get_or, set, codes}
use vector_forth_kernel.Base.Int.{ℤ, pos}
use vector_forth_kernel.Base.Word.{add64, to_i64}
use vector_forth_kernel.Base.Memory.{load64}
use vector_forth_kernel.Vm.State.{Cmd, Act, pure, done, ◌>>=◌, ◌>>◌, modify, read, puts}

abbrev pub data_stack_size : ℕ
data_stack_size = 256

abbrev pub return_stack_size : ℕ
return_stack_size = 256

unfoldable pub ds_push : ℕ → Act
ds_push v m =
    if leb data_stack_size m.dsp
    then puts (codes " Data Stack Overflow!\n") m
    else modify (λ m. record m { ds = set m.ds m.dsp v; dsp = m.dsp + 1 }) m

unfoldable pub ds_pop : Cmd ℕ
ds_pop m =
    if m.dsp == 0
    then (do puts (codes " Stack Underflow!\n"); pure 0) m
    else pure (get_or m.ds (m.dsp - 1) 0) (record m { dsp = m.dsp - 1 })

unfoldable pub ds_peek : Cmd ℕ
ds_peek = read λ m. if m.dsp == 0 then 0 else get_or m.ds (m.dsp - 1) 0

-- The argument of every call in the program is a natural number.
unfoldable pub ds_pick : ℕ → Cmd ℕ
ds_pick n m =
    if leb m.dsp n
    then (do puts (codes " Invalid PICK!\n"); pure 0) m
    else pure (get_or m.ds (m.dsp - 1 - n) 0) m

unfoldable pub ds_depth : Cmd ℕ
ds_depth = read λ m. m.dsp

unfoldable pub ds_clear : Act
ds_clear = modify λ m. record m { dsp = 0 }

unfoldable pub rs_push : ℕ → Act
rs_push v m =
    if leb return_stack_size m.rsp_idx
    then puts (codes " Return Stack Overflow!\n") m
    else modify (λ m. record m { rs = set m.rs m.rsp_idx v; rsp_idx = m.rsp_idx + 1 }) m

unfoldable pub rs_pop : Cmd ℕ
rs_pop m =
    if m.rsp_idx == 0
    then (do puts (codes " Return Stack Underflow!\n"); pure 0) m
    else pure (get_or m.rs (m.rsp_idx - 1) 0) (record m { rsp_idx = m.rsp_idx - 1 })

unfoldable pub rs_peek : Cmd ℕ
rs_peek = read λ m. if m.rsp_idx == 0 then 0 else get_or m.rs (m.rsp_idx - 1) 0

unfoldable pub rs_depth : Cmd ℕ
rs_depth = read λ m. m.rsp_idx

unfoldable pub rs_clear : Act
rs_clear = modify λ m. record m { rsp_idx = 0 }

unfoldable pub ip_set : ℕ → Act
ip_set a = modify λ m. record m { ip = a }

unfoldable pub ip_get : Cmd ℕ
ip_get = read λ m. m.ip

-- Fetch the cell at the instruction pointer, which moves to the next one.
unfoldable pub ip_fetch_advance : Cmd ℕ
ip_fetch_advance m = pure (load64 m.mem m.ip) (record m { ip = add64 m.ip 8 })
