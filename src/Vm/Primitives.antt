-- ===== src/Vm/Primitives.antt =====
-- `register_primitives` of vm/core/forth.c: the names of the C functions, in the order in which they
-- are put into the dictionary.
pub mod Register
pub mod Lookup
use vector_forth_kernel.Base.{ℕ, List, [], ◌∷◌, Text, codes}
use vector_forth_kernel.Vm.State.{Act, done, ◌>>=◌, ◌>>◌}
use vector_forth_kernel.Vm.Dict.{dict_add_primitive, f_immediate}
use vector_forth_kernel.Vm.Words.StackWord.{StackWord}
use vector_forth_kernel.Vm.Native.{Native, DeviceWord, Image}

-- A name, the function and the flags.
abbrev pub Primitive : Type 0
Primitive = Text × Native × ℕ

abbrev pub primitives : List Primitive
primitives =
    (codes "DUP", Native.stack StackWord.dup, 0)
    ∷ (codes "DROP", Native.stack StackWord.drop, 0)
    ∷ (codes "SWAP", Native.stack StackWord.swap, 0)
    ∷ (codes "OVER", Native.stack StackWord.over, 0)
    ∷ (codes "ROT", Native.stack StackWord.rot, 0)
    ∷ (codes "NIP", Native.stack StackWord.nip, 0)
    ∷ (codes "TUCK", Native.stack StackWord.tuck, 0)
    ∷ (codes "2DUP", Native.stack StackWord.two_dup, 0)
    ∷ (codes "2DROP", Native.stack StackWord.two_drop, 0)
    ∷ (codes "2SWAP", Native.stack StackWord.two_swap, 0)
    ∷ (codes "?DUP", Native.stack StackWord.qdup, 0)
    ∷ (codes "DEPTH", Native.stack StackWord.depth, 0)
    ∷ (codes "+", Native.stack StackWord.plus, 0)
    ∷ (codes "-", Native.stack StackWord.minus, 0)
    ∷ (codes "*", Native.stack StackWord.mul, 0)
    ∷ (codes "/", Native.stack StackWord.div, 0)
    ∷ (codes "MOD", Native.stack StackWord.modulo, 0)
    ∷ (codes "/MOD", Native.stack StackWord.divmod, 0)
    ∷ (codes "NEGATE", Native.stack StackWord.negate, 0)
    ∷ (codes "ABS", Native.stack StackWord.abs, 0)
    ∷ (codes "MIN", Native.stack StackWord.min, 0)
    ∷ (codes "MAX", Native.stack StackWord.max, 0)
    ∷ (codes "1+", Native.stack StackWord.one_plus, 0)
    ∷ (codes "1-", Native.stack StackWord.one_minus, 0)
    ∷ (codes "2*", Native.stack StackWord.two_star, 0)
    ∷ (codes "2/", Native.stack StackWord.two_slash, 0)
    ∷ (codes "AND", Native.stack StackWord.bit_and, 0)
    ∷ (codes "OR", Native.stack StackWord.bit_or, 0)
    ∷ (codes "XOR", Native.stack StackWord.bit_xor, 0)
    ∷ (codes "INVERT", Native.stack StackWord.invert, 0)
    ∷ (codes "LSHIFT", Native.stack StackWord.lshift, 0)
    ∷ (codes "RSHIFT", Native.stack StackWord.rshift, 0)
    ∷ (codes "=", Native.stack StackWord.eq, 0)
    ∷ (codes "<>", Native.stack StackWord.neq, 0)
    ∷ (codes "<", Native.stack StackWord.lt, 0)
    ∷ (codes ">", Native.stack StackWord.gt, 0)
    ∷ (codes "<=", Native.stack StackWord.le, 0)
    ∷ (codes ">=", Native.stack StackWord.ge, 0)
    ∷ (codes "0=", Native.stack StackWord.zero_eq, 0)
    ∷ (codes "0<", Native.stack StackWord.zero_lt, 0)
    ∷ (codes "0>", Native.stack StackWord.zero_gt, 0)
    ∷ (codes ">R", Native.to_r, 0)
    ∷ (codes "R>", Native.from_r, 0)
    ∷ (codes "R@", Native.r_fetch, 0)
    ∷ (codes "@", Native.fetch, 0)
    ∷ (codes "!", Native.store, 0)
    ∷ (codes "C@", Native.cfetch, 0)
    ∷ (codes "C!", Native.cstore, 0)
    ∷ (codes "+!", Native.plus_store, 0)
    ∷ (codes "HERE", Native.here, 0)
    ∷ (codes "ALLOT", Native.allot, 0)
    ∷ (codes ",", Native.comma, 0)
    ∷ (codes "C,", Native.c_comma, 0)
    ∷ (codes ".", Native.dot, 0)
    ∷ (codes "U.", Native.u_dot, 0)
    ∷ (codes ".S", Native.dot_s, 0)
    ∷ (codes ".HEX", Native.dot_hex, 0)
    ∷ (codes "EMIT", Native.emit, 0)
    ∷ (codes "CR", Native.cr, 0)
    ∷ (codes "SPACE", Native.space, 0)
    ∷ (codes "SPACES", Native.spaces, 0)
    ∷ (codes "TYPE", Native.type_text, 0)
    ∷ (codes ".\"", Native.dot_quote, f_immediate)
    ∷ (codes "(", Native.paren, f_immediate)
    ∷ (codes ":", Native.colon, 0)
    ∷ (codes ";", Native.semicolon, f_immediate)
    ∷ (codes "VARIABLE", Native.variable, 0)
    ∷ (codes "CONSTANT", Native.constant, 0)
    ∷ (codes "CREATE", Native.create, 0)
    ∷ (codes "IMMEDIATE", Native.immediate, 0)
    ∷ (codes "'", Native.tick, 0)
    ∷ (codes "EXECUTE", Native.execute, 0)
    ∷ (codes "SEE", Native.device DeviceWord.see, 0)
    ∷ (codes "IF", Native.if_word, f_immediate)
    ∷ (codes "ELSE", Native.else_word, f_immediate)
    ∷ (codes "THEN", Native.then_word, f_immediate)
    ∷ (codes "BEGIN", Native.begin, f_immediate)
    ∷ (codes "UNTIL", Native.until, f_immediate)
    ∷ (codes "AGAIN", Native.again, f_immediate)
    ∷ (codes "WHILE", Native.while_word, f_immediate)
    ∷ (codes "REPEAT", Native.repeat, f_immediate)
    ∷ (codes "DO", Native.do_word, f_immediate)
    ∷ (codes "LOOP", Native.loop_word, f_immediate)
    ∷ (codes "I", Native.loop_index, 0)
    ∷ (codes "WORDS", Native.list_words, 0)
    ∷ (codes "STATUS", Native.device DeviceWord.status, 0)
    ∷ (codes "DUMP", Native.device DeviceWord.dump, 0)
    ∷ (codes "FORK", Native.device DeviceWord.fork, 0)
    ∷ (codes "YIELD", Native.device DeviceWord.yield, 0)
    ∷ (codes "CLEAR", Native.clear_screen, 0)
    ∷ (codes "BYE", Native.bye, 0)
    ∷ (codes "BASE", Native.base, 0)
    ∷ (codes "DECIMAL", Native.decimal, 0)
    ∷ (codes "HEX", Native.hex, 0)
    ∷ (codes "BLOCK", Native.device DeviceWord.block, 0)
    ∷ (codes "UPDATE", Native.device DeviceWord.update, 0)
    ∷ (codes "FLUSH", Native.device DeviceWord.flush, 0)
    ∷ (codes "EDIT", Native.device DeviceWord.edit, 0)
    ∷ (codes "VDUP", Native.stack StackWord.vdup, 0)
    ∷ (codes "V+", Native.stack StackWord.vplus, 0)
    ∷ (codes "LOAD", Native.load, 0)
    ∷ []

module _ (img : Image) where
  unfoldable pub add_primitives : List Primitive → Act
  add_primitives [] = done
  add_primitives ((name, fn, flags) ∷ ps) =
      dict_add_primitive name (img.addr fn) flags >> add_primitives ps

  unfoldable pub register_primitives : Act
  register_primitives = add_primitives primitives
