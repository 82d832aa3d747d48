-- ===== src/Vm/Words/Compile.antt =====
-- The compiling words of vm/core/forth.c.
use Prim.Native.Nat.{bit_and, bit_xor}
use vector_forth_kernel.Base.{ℕ, ◌+◌, ◌==◌, if◌then◌else◌, length, Text, codes}
use vector_forth_kernel.Base.Memory.{load8, store8}
use vector_forth_kernel.Vm.State.{Act, done, ◌>>=◌, ◌>>◌, modify, read, puts}
use vector_forth_kernel.Vm.Stack.{ds_push, ds_pop}
use vector_forth_kernel.Vm.Parse.{parse_word}
use vector_forth_kernel.Vm.Dict.{
  dict_comma, dict_create, dict_set_code, dict_find, f_hidden, f_immediate,
}
use vector_forth_kernel.Vm.Native.{Native, Image}
use vector_forth_kernel.Vm.Words.Access.{poke64}

abbrev pub state_interpret : ℕ
state_interpret = 0

abbrev pub state_compile : ℕ
state_compile = 1

abbrev pub sentinel_exit : ℕ
sentinel_exit = 0xdeadc0de_0000_0000

abbrev pub set_state : ℕ → Act
set_state s = modify λ m. record m { state = s }

-- `dict_latest[8] &= ~F_HIDDEN`
abbrev pub reveal_latest : Act
reveal_latest =
    modify λ m. record m {
      mem = store8 m.mem (m.latest + 8) (bit_and (load8 m.mem (m.latest + 8)) 0xbf);
    }

unfoldable pub w_semicolon : Act
w_semicolon = do dict_comma sentinel_exit; reveal_latest; set_state state_interpret

-- `if (dict_latest) dict_latest[8] ^= F_IMMEDIATE`
unfoldable pub w_immediate : Act
w_immediate = do
  latest ← read (λ m. m.latest)
  if latest == 0
      then done
      else modify λ m. record m {
        mem = store8 m.mem (m.latest + 8) (bit_xor (load8 m.mem (m.latest + 8)) f_immediate);
      }

-- `if (!parse_word(name, sizeof(name))) return;` and what follows
abbrev pub with_name : (Text → Act) → Act
with_name k = do name ← parse_word 64; if length name == 0 then done else k name

unfoldable pub w_tick : Act
w_tick = with_name λ name. do
  entry ← dict_find name
  if entry == 0 then (do puts name; puts (codes " ? Not found\n")) else ds_push entry

unfoldable pub w_begin : Act
w_begin = do h ← read (λ m. m.here); ds_push h

-- `*(cell_t *)ds_pop() = (cell_t)(u64)dict_here`
unfoldable pub w_then : Act
w_then = do a ← ds_pop; h ← read (λ m. m.here); poke64 a h

module _ (img : Image) where
  unfoldable pub w_colon : Act
  w_colon = with_name λ name. do
    dict_create name f_hidden
    dict_set_code (img.addr Native.do_colon)
    set_state state_compile

  unfoldable pub w_create : Act
  w_create = with_name λ name. do dict_create name 0; dict_set_code (img.addr Native.do_variable)

  unfoldable pub w_variable : Act
  unfolding w_create
  w_variable = do w_create; dict_comma 0

  unfoldable pub w_constant : Act
  w_constant = with_name λ name. do
    dict_create name 0
    dict_set_code (img.addr Native.do_constant)
    v ← ds_pop
    dict_comma v

  unfoldable pub w_if : Act
  w_if = do dict_comma (img.addr Native.rt_0branch); h ← read (λ m. m.here); ds_push h; dict_comma 0

  unfoldable pub w_else : Act
  w_else = do
    dict_comma (img.addr Native.rt_branch)
    e ← read (λ m. m.here)
    dict_comma 0
    a ← ds_pop
    h ← read (λ m. m.here)
    poke64 a h
    ds_push e

  unfoldable pub w_until : Act
  w_until = do b ← ds_pop; dict_comma (img.addr Native.rt_0branch); dict_comma b

  unfoldable pub w_again : Act
  w_again = do b ← ds_pop; dict_comma (img.addr Native.rt_branch); dict_comma b

  unfoldable pub w_while : Act
  w_while = do
    dict_comma (img.addr Native.rt_0branch)
    h ← read (λ m. m.here)
    ds_push h
    dict_comma 0

  unfoldable pub w_repeat : Act
  w_repeat = do
    w ← ds_pop
    b ← ds_pop
    dict_comma (img.addr Native.rt_branch)
    dict_comma b
    h ← read (λ m. m.here)
    poke64 w h

  unfoldable pub w_do : Act
  w_do = do dict_comma (img.addr Native.rt_do); h ← read (λ m. m.here); ds_push h

  unfoldable pub w_loop : Act
  w_loop = do d ← ds_pop; dict_comma (img.addr Native.rt_loop); dict_comma d
