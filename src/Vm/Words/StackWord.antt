-- ===== src/Vm/Words/StackWord.antt =====
-- The primitives of vm/core/forth.c that work on the data stack alone, as a table.
use vector_forth_kernel.Vm.Words.Shuffle.{
  w_dup, w_drop, w_swap, w_over, w_rot, w_nip, w_tuck, w_2dup, w_2drop, w_2swap, w_qdup, w_depth,
  w_vdup, w_vplus,
}
use vector_forth_kernel.Vm.Words.Arith.{
  w_plus, w_minus, w_mul, w_div, w_mod, w_divmod, w_negate, w_abs, w_min, w_max, w_1plus, w_1minus,
  w_2star, w_2slash,
}
use vector_forth_kernel.Vm.Words.Logic.{
  w_and, w_or, w_xor, w_invert, w_lshift, w_rshift, w_eq, w_neq, w_lt, w_gt, w_le, w_ge, w_0eq,
  w_0lt, w_0gt,
}
use vector_forth_kernel.Vm.State.{Act}

pub data StackWord : Type 0 where
  dup drop swap over rot nip tuck two_dup two_drop two_swap qdup depth vdup vplus : StackWord
  plus minus mul div modulo divmod negate abs min max one_plus one_minus two_star two_slash :
      StackWord
  bit_and bit_or bit_xor invert lshift rshift eq neq lt gt le ge zero_eq zero_lt zero_gt : StackWord

-- The C function of each.
unfoldable pub run_stack_word : StackWord → Act
unfolding w_dup w_drop w_swap w_over w_rot w_nip w_tuck w_2dup w_2drop w_2swap w_qdup w_depth w_vdup
    w_vplus w_plus w_minus w_mul w_div w_mod w_divmod w_negate w_abs w_min w_max w_1plus w_1minus
    w_2star w_2slash w_and w_or w_xor w_invert w_lshift w_rshift w_eq w_neq w_lt w_gt w_le w_ge
    w_0eq w_0lt w_0gt
run_stack_word dup = w_dup
run_stack_word drop = w_drop
run_stack_word swap = w_swap
run_stack_word over = w_over
run_stack_word rot = w_rot
run_stack_word nip = w_nip
run_stack_word tuck = w_tuck
run_stack_word two_dup = w_2dup
run_stack_word two_drop = w_2drop
run_stack_word two_swap = w_2swap
run_stack_word qdup = w_qdup
run_stack_word depth = w_depth
run_stack_word vdup = w_vdup
run_stack_word vplus = w_vplus
run_stack_word plus = w_plus
run_stack_word minus = w_minus
run_stack_word mul = w_mul
run_stack_word div = w_div
run_stack_word modulo = w_mod
run_stack_word divmod = w_divmod
run_stack_word negate = w_negate
run_stack_word abs = w_abs
run_stack_word min = w_min
run_stack_word max = w_max
run_stack_word one_plus = w_1plus
run_stack_word one_minus = w_1minus
run_stack_word two_star = w_2star
run_stack_word two_slash = w_2slash
run_stack_word bit_and = w_and
run_stack_word bit_or = w_or
run_stack_word bit_xor = w_xor
run_stack_word invert = w_invert
run_stack_word lshift = w_lshift
run_stack_word rshift = w_rshift
run_stack_word eq = w_eq
run_stack_word neq = w_neq
run_stack_word lt = w_lt
run_stack_word gt = w_gt
run_stack_word le = w_le
run_stack_word ge = w_ge
run_stack_word zero_eq = w_0eq
run_stack_word zero_lt = w_0lt
run_stack_word zero_gt = w_0gt
