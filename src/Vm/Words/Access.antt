-- ===== src/Vm/Words/Access.antt =====
-- The words of vm/core/forth.c that read and write memory, HERE and the loop parameters.
use vector_forth_kernel.Base.{ℕ, ◌%◌, ◌==◌, if◌then◌else◌}
use vector_forth_kernel.Base.Word.{add64}
use vector_forth_kernel.Base.Memory.{load8, load64, store8, store64}
use vector_forth_kernel.Vm.State.{Act, done, ◌>>=◌, ◌>>◌, modify, read}
use vector_forth_kernel.Vm.Stack.{
  ds_push, ds_pop, rs_push, rs_pop, rs_peek, ip_set, ip_fetch_advance,
}
use vector_forth_kernel.Vm.Dict.{dict_comma, dict_c_comma}
use vector_forth_kernel.Vm.Words.Arith.{lt_i64}

unfoldable pub w_fetch : Act
w_fetch = do a ← ds_pop; v ← read (λ m. load64 m.mem a); ds_push v

-- `*a = v`
abbrev pub poke64 : ℕ → ℕ → Act
poke64 a v = modify λ m. record m { mem = store64 m.mem a v }

unfoldable pub w_store : Act
w_store = do a ← ds_pop; v ← ds_pop; poke64 a v

unfoldable pub w_cfetch : Act
w_cfetch = do a ← ds_pop; v ← read (λ m. load8 m.mem a); ds_push v

unfoldable pub w_cstore : Act
w_cstore = do a ← ds_pop; v ← ds_pop; modify λ m. record m { mem = store8 m.mem a v }

unfoldable pub w_plus_store : Act
w_plus_store = do a ← ds_pop; v ← ds_pop; old ← read (λ m. load64 m.mem a); poke64 a (add64 old v)

unfoldable pub w_here : Act
w_here = do h ← read (λ m. m.here); ds_push h

unfoldable pub w_allot : Act
w_allot = do n ← ds_pop; modify λ m. record m { here = add64 m.here n }

unfoldable pub w_comma : Act
w_comma = do v ← ds_pop; dict_comma v

unfoldable pub w_c_comma : Act
w_c_comma = do v ← ds_pop; dict_c_comma (v % 256)

-- The run-time actions of the control words.
unfoldable pub do_literal_code : Act
do_literal_code = do v ← ip_fetch_advance; ds_push v

unfoldable pub rt_branch_code : Act
rt_branch_code = do t ← ip_fetch_advance; ip_set t

unfoldable pub rt_0branch_code : Act
rt_0branch_code = do t ← ip_fetch_advance; v ← ds_pop; if v == 0 then ip_set t else done

unfoldable pub rt_do_code : Act
rt_do_code = do i ← ds_pop; limit ← ds_pop; rs_push limit; rs_push i

unfoldable pub rt_loop_code : Act
rt_loop_code = do
  t ← ip_fetch_advance
  i ← rs_pop
  l ← rs_peek
  if lt_i64 (add64 i 1) l then (do rs_push (add64 i 1); ip_set t) else (do v ← rs_pop; done)
