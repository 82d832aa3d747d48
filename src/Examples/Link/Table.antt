-- ===== src/Examples/Link/Table.antt =====
-- The C functions in the order in which the examples link them.
use vector_forth_kernel.Base.{ℕ, zero, suc, ◌≡◌, refl, Option, none, some, List, [], ◌∷◌}
use vector_forth_kernel.Vm.Words.StackWord.{StackWord}
use vector_forth_kernel.Vm.Native.{Native, DeviceWord}
use vector_forth_kernel.Examples.Link.Position.{position}

abbrev pub natives : List Native
natives =
    (Native.stack StackWord.dup)
    ∷ (Native.stack StackWord.drop)
    ∷ (Native.stack StackWord.swap)
    ∷ (Native.stack StackWord.over)
    ∷ (Native.stack StackWord.rot)
    ∷ (Native.stack StackWord.nip)
    ∷ (Native.stack StackWord.tuck)
    ∷ (Native.stack StackWord.two_dup)
    ∷ (Native.stack StackWord.two_drop)
    ∷ (Native.stack StackWord.two_swap)
    ∷ (Native.stack StackWord.qdup)
    ∷ (Native.stack StackWord.depth)
    ∷ (Native.stack StackWord.vdup)
    ∷ (Native.stack StackWord.vplus)
    ∷ (Native.stack StackWord.plus)
    ∷ (Native.stack StackWord.minus)
    ∷ (Native.stack StackWord.mul)
    ∷ (Native.stack StackWord.div)
    ∷ (Native.stack StackWord.modulo)
    ∷ (Native.stack StackWord.divmod)
    ∷ (Native.stack StackWord.negate)
    ∷ (Native.stack StackWord.abs)
    ∷ (Native.stack StackWord.min)
    ∷ (Native.stack StackWord.max)
    ∷ (Native.stack StackWord.one_plus)
    ∷ (Native.stack StackWord.one_minus)
    ∷ (Native.stack StackWord.two_star)
    ∷ (Native.stack StackWord.two_slash)
    ∷ (Native.stack StackWord.bit_and)
    ∷ (Native.stack StackWord.bit_or)
    ∷ (Native.stack StackWord.bit_xor)
    ∷ (Native.stack StackWord.invert)
    ∷ (Native.stack StackWord.lshift)
    ∷ (Native.stack StackWord.rshift)
    ∷ (Native.stack StackWord.eq)
    ∷ (Native.stack StackWord.neq)
    ∷ (Native.stack StackWord.lt)
    ∷ (Native.stack StackWord.gt)
    ∷ (Native.stack StackWord.le)
    ∷ (Native.stack StackWord.ge)
    ∷ (Native.stack StackWord.zero_eq)
    ∷ (Native.stack StackWord.zero_lt)
    ∷ (Native.stack StackWord.zero_gt)
    ∷ (Native.device DeviceWord.fork)
    ∷ (Native.device DeviceWord.yield)
    ∷ (Native.device DeviceWord.block)
    ∷ (Native.device DeviceWord.update)
    ∷ (Native.device DeviceWord.flush)
    ∷ (Native.device DeviceWord.edit)
    ∷ Native.list_words
    ∷ (Native.device DeviceWord.see)
    ∷ (Native.device DeviceWord.status)
    ∷ (Native.device DeviceWord.dump)
    ∷ Native.do_colon
    ∷ Native.do_literal
    ∷ Native.do_variable
    ∷ Native.do_constant
    ∷ Native.rt_branch
    ∷ Native.rt_0branch
    ∷ Native.rt_do
    ∷ Native.rt_loop
    ∷ Native.to_r
    ∷ Native.from_r
    ∷ Native.r_fetch
    ∷ Native.loop_index
    ∷ Native.fetch
    ∷ Native.store
    ∷ Native.cfetch
    ∷ Native.cstore
    ∷ Native.plus_store
    ∷ Native.here
    ∷ Native.allot
    ∷ Native.comma
    ∷ Native.c_comma
    ∷ Native.dot
    ∷ Native.u_dot
    ∷ Native.dot_s
    ∷ Native.dot_hex
    ∷ Native.emit
    ∷ Native.cr
    ∷ Native.space
    ∷ Native.spaces
    ∷ Native.type_text
    ∷ Native.dot_quote
    ∷ Native.paren
    ∷ Native.colon
    ∷ Native.semicolon
    ∷ Native.variable
    ∷ Native.constant
    ∷ Native.create
    ∷ Native.immediate
    ∷ Native.tick
    ∷ Native.execute
    ∷ Native.if_word
    ∷ Native.else_word
    ∷ Native.then_word
    ∷ Native.begin
    ∷ Native.until
    ∷ Native.again
    ∷ Native.while_word
    ∷ Native.repeat
    ∷ Native.do_word
    ∷ Native.loop_word
    ∷ Native.clear_screen
    ∷ Native.bye
    ∷ Native.base
    ∷ Native.decimal
    ∷ Native.hex
    ∷ Native.load
    ∷ []

unfoldable pub nth : List Native → ℕ → Option Native
nth [] i = none
nth (n ∷ ns) zero = some n
nth (n ∷ ns) (suc i) = nth ns i

pub nth-position : (n : Native) → nth natives (position n) ≡ some n
unfolding nth position
nth-position (Native.stack StackWord.dup) = refl
nth-position (Native.stack StackWord.drop) = refl
nth-position (Native.stack StackWord.swap) = refl
nth-position (Native.stack StackWord.over) = refl
nth-position (Native.stack StackWord.rot) = refl
nth-position (Native.stack StackWord.nip) = refl
nth-position (Native.stack StackWord.tuck) = refl
nth-position (Native.stack StackWord.two_dup) = refl
nth-position (Native.stack StackWord.two_drop) = refl
nth-position (Native.stack StackWord.two_swap) = refl
nth-position (Native.stack StackWord.qdup) = refl
nth-position (Native.stack StackWord.depth) = refl
nth-position (Native.stack StackWord.vdup) = refl
nth-position (Native.stack StackWord.vplus) = refl
nth-position (Native.stack StackWord.plus) = refl
nth-position (Native.stack StackWord.minus) = refl
nth-position (Native.stack StackWord.mul) = refl
nth-position (Native.stack StackWord.div) = refl
nth-position (Native.stack StackWord.modulo) = refl
nth-position (Native.stack StackWord.divmod) = refl
nth-position (Native.stack StackWord.negate) = refl
nth-position (Native.stack StackWord.abs) = refl
nth-position (Native.stack StackWord.min) = refl
nth-position (Native.stack StackWord.max) = refl
nth-position (Native.stack StackWord.one_plus) = refl
nth-position (Native.stack StackWord.one_minus) = refl
nth-position (Native.stack StackWord.two_star) = refl
nth-position (Native.stack StackWord.two_slash) = refl
nth-position (Native.stack StackWord.bit_and) = refl
nth-position (Native.stack StackWord.bit_or) = refl
nth-position (Native.stack StackWord.bit_xor) = refl
nth-position (Native.stack StackWord.invert) = refl
nth-position (Native.stack StackWord.lshift) = refl
nth-position (Native.stack StackWord.rshift) = refl
nth-position (Native.stack StackWord.eq) = refl
nth-position (Native.stack StackWord.neq) = refl
nth-position (Native.stack StackWord.lt) = refl
nth-position (Native.stack StackWord.gt) = refl
nth-position (Native.stack StackWord.le) = refl
nth-position (Native.stack StackWord.ge) = refl
nth-position (Native.stack StackWord.zero_eq) = refl
nth-position (Native.stack StackWord.zero_lt) = refl
nth-position (Native.stack StackWord.zero_gt) = refl
nth-position (Native.device DeviceWord.fork) = refl
nth-position (Native.device DeviceWord.yield) = refl
nth-position (Native.device DeviceWord.block) = refl
nth-position (Native.device DeviceWord.update) = refl
nth-position (Native.device DeviceWord.flush) = refl
nth-position (Native.device DeviceWord.edit) = refl
nth-position Native.list_words = refl
nth-position (Native.device DeviceWord.see) = refl
nth-position (Native.device DeviceWord.status) = refl
nth-position (Native.device DeviceWord.dump) = refl
nth-position Native.do_colon = refl
nth-position Native.do_literal = refl
nth-position Native.do_variable = refl
nth-position Native.do_constant = refl
nth-position Native.rt_branch = refl
nth-position Native.rt_0branch = refl
nth-position Native.rt_do = refl
nth-position Native.rt_loop = refl
nth-position Native.to_r = refl
nth-position Native.from_r = refl
nth-position Native.r_fetch = refl
nth-position Native.loop_index = refl
nth-position Native.fetch = refl
nth-position Native.store = refl
nth-position Native.cfetch = refl
nth-position Native.cstore = refl
nth-position Native.plus_store = refl
nth-position Native.here = refl
nth-position Native.allot = refl
nth-position Native.comma = refl
nth-position Native.c_comma = refl
nth-position Native.dot = refl
nth-position Native.u_dot = refl
nth-position Native.dot_s = refl
nth-position Native.dot_hex = refl
nth-position Native.emit = refl
nth-position Native.cr = refl
nth-position Native.space = refl
nth-position Native.spaces = refl
nth-position Native.type_text = refl
nth-position Native.dot_quote = refl
nth-position Native.paren = refl
nth-position Native.colon = refl
nth-position Native.semicolon = refl
nth-position Native.variable = refl
nth-position Native.constant = refl
nth-position Native.create = refl
nth-position Native.immediate = refl
nth-position Native.tick = refl
nth-position Native.execute = refl
nth-position Native.if_word = refl
nth-position Native.else_word = refl
nth-position Native.then_word = refl
nth-position Native.begin = refl
nth-position Native.until = refl
nth-position Native.again = refl
nth-position Native.while_word = refl
nth-position Native.repeat = refl
nth-position Native.do_word = refl
nth-position Native.loop_word = refl
nth-position Native.clear_screen = refl
nth-position Native.bye = refl
nth-position Native.base = refl
nth-position Native.decimal = refl
nth-position Native.hex = refl
nth-position Native.load = refl
