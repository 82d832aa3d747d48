-- ===== src/Vm/Words/Shuffle.antt =====
-- The words of vm/core/forth.c that move cells: stack shuffles, the return stack, the SSE2 pair
-- words.
use vector_forth_kernel.Base.{◌==◌, ltb, if◌then◌else◌, codes}
use vector_forth_kernel.Base.Word.{add64}
use vector_forth_kernel.Vm.State.{Act, done, ◌>>=◌, ◌>>◌, puts}
use vector_forth_kernel.Vm.Stack.{
  ds_push, ds_pop, ds_peek, ds_pick, ds_depth, rs_push, rs_pop, rs_peek,
}

unfoldable pub w_dup : Act
w_dup = do v ← ds_peek; ds_push v

unfoldable pub w_drop : Act
w_drop = do v ← ds_pop; done

unfoldable pub w_swap : Act
w_swap = do b ← ds_pop; a ← ds_pop; ds_push b; ds_push a

unfoldable pub w_over : Act
w_over = do v ← ds_pick 1; ds_push v

unfoldable pub w_rot : Act
w_rot = do c ← ds_pop; b ← ds_pop; a ← ds_pop; ds_push b; ds_push c; ds_push a

unfoldable pub w_nip : Act
w_nip = do t ← ds_pop; a ← ds_pop; ds_push t

unfoldable pub w_tuck : Act
w_tuck = do b ← ds_pop; a ← ds_pop; ds_push b; ds_push a; ds_push b

unfoldable pub w_2dup : Act
w_2dup = do b ← ds_peek; a ← ds_pick 1; ds_push a; ds_push b

unfoldable pub w_2drop : Act
w_2drop = do b ← ds_pop; a ← ds_pop; done

unfoldable pub w_2swap : Act
w_2swap = do
  d ← ds_pop
  c ← ds_pop
  b ← ds_pop
  a ← ds_pop
  ds_push c
  ds_push d
  ds_push a
  ds_push b

unfoldable pub w_qdup : Act
w_qdup = do t ← ds_peek; if t == 0 then done else ds_push t

unfoldable pub w_depth : Act
w_depth = do n ← ds_depth; ds_push n

unfoldable pub w_to_r : Act
w_to_r = do v ← ds_pop; rs_push v

unfoldable pub w_from_r : Act
w_from_r = do v ← rs_pop; ds_push v

unfoldable pub w_r_fetch : Act
w_r_fetch = do v ← rs_peek; ds_push v

unfoldable pub w_i : Act
w_i = do v ← rs_peek; ds_push v

-- `movq`, `punpcklqdq` and `movdqa` copy the cell to both halves of a register and store both.
unfoldable pub w_vdup : Act
w_vdup = do n ← ds_depth; if ltb n 1 then done else do top ← ds_pop; ds_push top; ds_push top

-- `paddq` adds the two halves of its registers, each modulo 2 ^ 64.
unfoldable pub w_vplus : Act
w_vplus = do
  n ← ds_depth
  if ltb n 4 then puts (codes " Stack Underflow for V+\n") else do
    b1 ← ds_pop
    b0 ← ds_pop
    a1 ← ds_pop
    a0 ← ds_pop
    ds_push (add64 a0 b0)
    ds_push (add64 a1 b1)
