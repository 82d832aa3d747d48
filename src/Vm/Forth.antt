-- ===== src/Vm/Forth.antt =====
-- The interpreters of vm/core/forth.c: `forth_execute` and `forth_inner` run threaded code,
-- `forth_eval` reads a line. The fuel bounds the calls and the rounds of the loops together; a run
-- that uses it up ends in `out_of_fuel`.
pub mod Code
pub mod Threaded
pub mod Control
use Prim.Native.Nat.{bit_and}
use vector_forth_kernel.Base.{
  ℕ, zero, suc, ◌+◌, ◌%◌, Bool, true, false, not, ◌&&◌, ◌||◌, Option, none, some, List, [], ◌∷◌,
  ◌++◌, ◌==◌, ltb, leb, if◌then◌else◌, length, Text, codes, map,
}
use vector_forth_kernel.Base.Memory.{load64}
use vector_forth_kernel.Utils.Stdlib.{itoa}
use vector_forth_kernel.Vm.State.{
  Vm, Cmd, Act, pure, done, trapped, out_of_fuel, ◌>>=◌, ◌>>◌, modify, read, puts,
}
use vector_forth_kernel.Vm.Stack.{
  ds_push, ds_pop, ds_clear, rs_push, rs_pop, rs_clear, ip_set, ip_get, ip_fetch_advance,
}
use vector_forth_kernel.Vm.Dict.{
  dict_comma, dict_find, dict_get_flags, dict_get_code_field, dict_get_param_field, dict_virt_base,
  dict_size, f_immediate,
}
use vector_forth_kernel.Vm.Parse.{parse_word, try_parse_number}
use vector_forth_kernel.Vm.Native
use vector_forth_kernel.Vm.Dict.Listing.{dict_list_words}
use vector_forth_kernel.Vm.Native.{Native, DeviceWord, Image}
use vector_forth_kernel.Vm.Words.Shuffle.{w_to_r, w_from_r, w_r_fetch, w_i}
use vector_forth_kernel.Vm.Words.StackWord.{run_stack_word}
use vector_forth_kernel.Vm.Words.Access.{
  w_fetch, w_store, w_cfetch, w_cstore, w_plus_store, w_here, w_allot, w_comma, w_c_comma,
  do_literal_code, rt_branch_code, rt_0branch_code, rt_do_code, rt_loop_code,
}
use vector_forth_kernel.Vm.Words.Output.{
  w_dot, w_u_dot, w_dot_s, w_dot_hex, w_emit, w_cr, w_space, w_spaces, w_type, w_dot_quote, w_paren,
  w_clear, w_bye, w_decimal, w_hex, w_base,
}
use vector_forth_kernel.Vm.Words.Compile.{
  state_interpret, state_compile, sentinel_exit, set_state, w_semicolon, w_immediate, w_tick,
  w_begin, w_then, w_colon, w_create, w_variable, w_constant, w_if, w_else, w_until, w_again,
  w_while, w_repeat, w_do, w_loop,
}

unfoldable pub w_words : Act
w_words = dict_list_words

-- What the words ask of the rest of the kernel: the words that only call it, and the 1008
-- characters of a block's data.
pub record Devices : Type 0 where
  pub call : DeviceWord → Act
  pub block_data : ℕ → Cmd Text

-- `if (buf[i] < 32 || buf[i] > 126) buf[i] = ' '`
abbrev pub printable : ℕ → ℕ
printable c = if ltb c 32 || ltb 126 c then 32 else c

-- `rs_push((u64)ip_get()); ip_set(param);`
unfoldable pub enter_colon : ℕ → Act
enter_colon param = do saved ← ip_get; rs_push saved; ip_set param

abbrev pub in_dictionary : ℕ → Bool
in_dictionary cell = leb dict_virt_base cell && ltb cell (dict_virt_base + dict_size)

module _ (img : Image) (dev : Devices) where
  -- `w_load`: a block's text is evaluated, and the line that loaded it goes on.
  unfoldable pub w_load : (Text → Act) → Act
  w_load eval = do
    n ← ds_pop
    let blk_num = n % 0x1_0000_0000
    bytes ← dev.block_data blk_num
    saved ← read (λ m. m.parse)
    puts (codes "\n[Loading Block ")
    puts (itoa blk_num 10)
    puts (codes "...]\n")
    eval (map printable bytes)
    modify λ m. record m { parse = saved }

  -- The call of a C function by a code field; `execute` and `eval` are the interpreters.
  unfoldable pub run_native : (ℕ → Act) → (Text → Act) → Native → Act
  unfolding w_load
  run_native execute eval (Native.stack w) = run_stack_word w
  run_native execute eval (Native.device w) = dev.call w
  run_native execute eval Native.do_colon = done
  run_native execute eval Native.do_literal = do_literal_code
  run_native execute eval Native.do_variable = done
  run_native execute eval Native.do_constant = done
  run_native execute eval Native.rt_branch = rt_branch_code
  run_native execute eval Native.rt_0branch = rt_0branch_code
  run_native execute eval Native.rt_do = rt_do_code
  run_native execute eval Native.rt_loop = rt_loop_code
  run_native execute eval Native.to_r = w_to_r
  run_native execute eval Native.from_r = w_from_r
  run_native execute eval Native.r_fetch = w_r_fetch
  run_native execute eval Native.loop_index = w_i
  run_native execute eval Native.fetch = w_fetch
  run_native execute eval Native.store = w_store
  run_native execute eval Native.cfetch = w_cfetch
  run_native execute eval Native.cstore = w_cstore
  run_native execute eval Native.plus_store = w_plus_store
  run_native execute eval Native.here = w_here
  run_native execute eval Native.allot = w_allot
  run_native execute eval Native.comma = w_comma
  run_native execute eval Native.c_comma = w_c_comma
  run_native execute eval Native.dot = w_dot
  run_native execute eval Native.u_dot = w_u_dot
  run_native execute eval Native.dot_s = w_dot_s
  run_native execute eval Native.dot_hex = w_dot_hex
  run_native execute eval Native.emit = w_emit
  run_native execute eval Native.cr = w_cr
  run_native execute eval Native.space = w_space
  run_native execute eval Native.spaces = w_spaces
  run_native execute eval Native.type_text = w_type
  run_native execute eval Native.dot_quote = w_dot_quote
  run_native execute eval Native.paren = w_paren
  run_native execute eval Native.colon = w_colon img
  run_native execute eval Native.semicolon = w_semicolon
  run_native execute eval Native.variable = w_variable img
  run_native execute eval Native.constant = w_constant img
  run_native execute eval Native.create = w_create img
  run_native execute eval Native.immediate = w_immediate
  run_native execute eval Native.tick = w_tick
  run_native execute eval Native.execute = do xt ← ds_pop; execute xt
  run_native execute eval Native.if_word = w_if img
  run_native execute eval Native.else_word = w_else img
  run_native execute eval Native.then_word = w_then
  run_native execute eval Native.begin = w_begin
  run_native execute eval Native.until = w_until img
  run_native execute eval Native.again = w_again img
  run_native execute eval Native.while_word = w_while img
  run_native execute eval Native.repeat = w_repeat img
  run_native execute eval Native.do_word = w_do img
  run_native execute eval Native.loop_word = w_loop img
  run_native execute eval Native.list_words = w_words
  run_native execute eval Native.clear_screen = w_clear
  run_native execute eval Native.bye = w_bye
  run_native execute eval Native.base = w_base
  run_native execute eval Native.decimal = w_decimal
  run_native execute eval Native.hex = w_hex
  run_native execute eval Native.load = w_load eval

  -- `native_fn_t fn = (native_fn_t)code; fn();`: at an address of no function the processor runs
  -- into whatever is there.
  unfoldable pub call_code : (ℕ → Act) → (Text → Act) → ℕ → Act
  unfolding run_native
  call_code execute eval code = elim (img.native_at code) [
    | none ↦ λ m. trapped
    | some n ↦ run_native execute eval n
  ]

  -- The four ways to run a word, by its code field. `enter` is what is done with a colon word.
  unfoldable pub run_word : (enter : ℕ → Act) → (ℕ → Act) → (Text → Act) → ℕ → Act
  unfolding call_code
  run_word enter execute eval entry m =
      let code = load64 m.mem (dict_get_code_field m.mem entry) in
      let param = dict_get_param_field m.mem entry in
      (if code == img.addr Native.do_colon
          then enter param
          else if code == img.addr Native.do_variable
          then ds_push param
          else if code == img.addr Native.do_constant
          then ds_push (load64 m.mem param)
          else call_code execute eval code)
        m

  -- One round of the loop of `forth_inner`; `again` is the rest of the loop.
  unfoldable pub inner_round : Act → (ℕ → Act) → (Text → Act) → Act
  unfolding run_word enter_colon
  inner_round again execute eval = do
    cell ← ip_fetch_advance
    if cell == sentinel_exit
        then (do saved_ip ← rs_pop; ip_set saved_ip; if saved_ip == 0 then done else again)
        else if cell == img.addr Native.do_literal
        then (do v ← ip_fetch_advance; ds_push v; again)
        else if in_dictionary cell
        then run_word enter_colon execute eval cell >> again
        else puts (codes " Invalid word address!\n")

  -- One round of the loop of `forth_eval`; `again` is the rest of the loop.
  unfoldable pub eval_round : Act → (ℕ → Act) → Act
  eval_round again execute = do
    token ← parse_word 64
    state ← read (λ m. m.state)
    if length token == 0
        then (if state == state_interpret then puts (codes " ok\n") else done)
        else (do
          entry ← dict_find token
          flags ← read (λ m. dict_get_flags m.mem entry)
          base ← read (λ m. m.base)
          if not (entry == 0)
              then (if state == state_compile && bit_and flags f_immediate == 0
                  then dict_comma entry
                  else execute entry)
                >> again
              else (elim (try_parse_number base token) [
                | some num ↦
                    (if state == state_compile
                      then (do dict_comma (img.addr Native.do_literal); dict_comma num)
                      else ds_push num)
                    >> again
                | none ↦ do puts token; puts (codes " ? Unknown word\n"); set_state state_interpret
              ]))

  unfoldable mutual
    unfolding inner_round run_word enter_colon eval_round

    pub forth_execute : ℕ → ℕ → Act
    forth_execute zero entry = λ m. out_of_fuel
    forth_execute (suc f) entry =
        run_word (λ param. enter_colon param >> forth_inner f) (forth_execute f) (forth_eval f)
          entry

    pub forth_inner : ℕ → Act
    forth_inner zero = λ m. out_of_fuel
    forth_inner (suc f) = inner_round (forth_inner f) (forth_execute f) (forth_eval f)

    pub eval_loop : ℕ → Act
    eval_loop zero = λ m. out_of_fuel
    eval_loop (suc f) = eval_round (eval_loop f) (forth_execute f)

    pub forth_eval : ℕ → Text → Act
    forth_eval zero line = λ m. out_of_fuel
    forth_eval (suc f) line = modify (λ m. record m { parse = line }) >> eval_loop f
