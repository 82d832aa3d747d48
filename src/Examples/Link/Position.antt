-- ===== src/Examples/Link/Position.antt =====
-- The order in which the examples link the C functions.
use vector_forth_kernel.Base.{ℕ, ◌<◌, arith}
use vector_forth_kernel.Vm.Words.StackWord.{StackWord}
use vector_forth_kernel.Vm.Native.{Native, DeviceWord}

unfoldable pub position : Native → ℕ
position (Native.stack StackWord.dup) = 0
position (Native.stack StackWord.drop) = 1
position (Native.stack StackWord.swap) = 2
position (Native.stack StackWord.over) = 3
position (Native.stack StackWord.rot) = 4
position (Native.stack StackWord.nip) = 5
position (Native.stack StackWord.tuck) = 6
position (Native.stack StackWord.two_dup) = 7
position (Native.stack StackWord.two_drop) = 8
position (Native.stack StackWord.two_swap) = 9
position (Native.stack StackWord.qdup) = 10
position (Native.stack StackWord.depth) = 11
position (Native.stack StackWord.vdup) = 12
position (Native.stack StackWord.vplus) = 13
position (Native.stack StackWord.plus) = 14
position (Native.stack StackWord.minus) = 15
position (Native.stack StackWord.mul) = 16
position (Native.stack StackWord.div) = 17
position (Native.stack StackWord.modulo) = 18
position (Native.stack StackWord.divmod) = 19
position (Native.stack StackWord.negate) = 20
position (Native.stack StackWord.abs) = 21
position (Native.stack StackWord.min) = 22
position (Native.stack StackWord.max) = 23
position (Native.stack StackWord.one_plus) = 24
position (Native.stack StackWord.one_minus) = 25
position (Native.stack StackWord.two_star) = 26
position (Native.stack StackWord.two_slash) = 27
position (Native.stack StackWord.bit_and) = 28
position (Native.stack StackWord.bit_or) = 29
position (Native.stack StackWord.bit_xor) = 30
position (Native.stack StackWord.invert) = 31
position (Native.stack StackWord.lshift) = 32
position (Native.stack StackWord.rshift) = 33
position (Native.stack StackWord.eq) = 34
position (Native.stack StackWord.neq) = 35
position (Native.stack StackWord.lt) = 36
position (Native.stack StackWord.gt) = 37
position (Native.stack StackWord.le) = 38
position (Native.stack StackWord.ge) = 39
position (Native.stack StackWord.zero_eq) = 40
position (Native.stack StackWord.zero_lt) = 41
position (Native.stack StackWord.zero_gt) = 42
position (Native.device DeviceWord.fork) = 43
position (Native.device DeviceWord.yield) = 44
position (Native.device DeviceWord.block) = 45
position (Native.device DeviceWord.update) = 46
position (Native.device DeviceWord.flush) = 47
position (Native.device DeviceWord.edit) = 48
position Native.list_words = 49
position (Native.device DeviceWord.see) = 50
position (Native.device DeviceWord.status) = 51
position (Native.device DeviceWord.dump) = 52
position Native.do_colon = 53
position Native.do_literal = 54
position Native.do_variable = 55
position Native.do_constant = 56
position Native.rt_branch = 57
position Native.rt_0branch = 58
position Native.rt_do = 59
position Native.rt_loop = 60
position Native.to_r = 61
position Native.from_r = 62
position Native.r_fetch = 63
position Native.loop_index = 64
position Native.fetch = 65
position Native.store = 66
position Native.cfetch = 67
position Native.cstore = 68
position Native.plus_store = 69
position Native.here = 70
position Native.allot = 71
position Native.comma = 72
position Native.c_comma = 73
position Native.dot = 74
position Native.u_dot = 75
position Native.dot_s = 76
position Native.dot_hex = 77
position Native.emit = 78
position Native.cr = 79
position Native.space = 80
position Native.spaces = 81
position Native.type_text = 82
position Native.dot_quote = 83
position Native.paren = 84
position Native.colon = 85
position Native.semicolon = 86
position Native.variable = 87
position Native.constant = 88
position Native.create = 89
position Native.immediate = 90
position Native.tick = 91
position Native.execute = 92
position Native.if_word = 93
position Native.else_word = 94
position Native.then_word = 95
position Native.begin = 96
position Native.until = 97
position Native.again = 98
position Native.while_word = 99
position Native.repeat = 100
position Native.do_word = 101
position Native.loop_word = 102
position Native.clear_screen = 103
position Native.bye = 104
position Native.base = 105
position Native.decimal = 106
position Native.hex = 107
position Native.load = 108

pub position-lt : (n : Native) → position n < 256
unfolding position
position-lt (Native.stack StackWord.dup) = omega arith
position-lt (Native.stack StackWord.drop) = omega arith
position-lt (Native.stack StackWord.swap) = omega arith
position-lt (Native.stack StackWord.over) = omega arith
position-lt (Native.stack StackWord.rot) = omega arith
position-lt (Native.stack StackWord.nip) = omega arith
position-lt (Native.stack StackWord.tuck) = omega arith
position-lt (Native.stack StackWord.two_dup) = omega arith
position-lt (Native.stack StackWord.two_drop) = omega arith
position-lt (Native.stack StackWord.two_swap) = omega arith
position-lt (Native.stack StackWord.qdup) = omega arith
position-lt (Native.stack StackWord.depth) = omega arith
position-lt (Native.stack StackWord.vdup) = omega arith
position-lt (Native.stack StackWord.vplus) = omega arith
position-lt (Native.stack StackWord.plus) = omega arith
position-lt (Native.stack StackWord.minus) = omega arith
position-lt (Native.stack StackWord.mul) = omega arith
position-lt (Native.stack StackWord.div) = omega arith
position-lt (Native.stack StackWord.modulo) = omega arith
position-lt (Native.stack StackWord.divmod) = omega arith
position-lt (Native.stack StackWord.negate) = omega arith
position-lt (Native.stack StackWord.abs) = omega arith
position-lt (Native.stack StackWord.min) = omega arith
position-lt (Native.stack StackWord.max) = omega arith
position-lt (Native.stack StackWord.one_plus) = omega arith
position-lt (Native.stack StackWord.one_minus) = omega arith
position-lt (Native.stack StackWord.two_star) = omega arith
position-lt (Native.stack StackWord.two_slash) = omega arith
position-lt (Native.stack StackWord.bit_and) = omega arith
position-lt (Native.stack StackWord.bit_or) = omega arith
position-lt (Native.stack StackWord.bit_xor) = omega arith
position-lt (Native.stack StackWord.invert) = omega arith
position-lt (Native.stack StackWord.lshift) = omega arith
position-lt (Native.stack StackWord.rshift) = omega arith
position-lt (Native.stack StackWord.eq) = omega arith
position-lt (Native.stack StackWord.neq) = omega arith
position-lt (Native.stack StackWord.lt) = omega arith
position-lt (Native.stack StackWord.gt) = omega arith
position-lt (Native.stack StackWord.le) = omega arith
position-lt (Native.stack StackWord.ge) = omega arith
position-lt (Native.stack StackWord.zero_eq) = omega arith
position-lt (Native.stack StackWord.zero_lt) = omega arith
position-lt (Native.stack StackWord.zero_gt) = omega arith
position-lt (Native.device DeviceWord.fork) = omega arith
position-lt (Native.device DeviceWord.yield) = omega arith
position-lt (Native.device DeviceWord.block) = omega arith
position-lt (Native.device DeviceWord.update) = omega arith
position-lt (Native.device DeviceWord.flush) = omega arith
position-lt (Native.device DeviceWord.edit) = omega arith
position-lt Native.list_words = omega arith
position-lt (Native.device DeviceWord.see) = omega arith
position-lt (Native.device DeviceWord.status) = omega arith
position-lt (Native.device DeviceWord.dump) = omega arith
position-lt Native.do_colon = omega arith
position-lt Native.do_literal = omega arith
position-lt Native.do_variable = omega arith
position-lt Native.do_constant = omega arith
position-lt Native.rt_branch = omega arith
position-lt Native.rt_0branch = omega arith
position-lt Native.rt_do = omega arith
position-lt Native.rt_loop = omega arith
position-lt Native.to_r = omega arith
position-lt Native.from_r = omega arith
position-lt Native.r_fetch = omega arith
position-lt Native.loop_index = omega arith
position-lt Native.fetch = omega arith
position-lt Native.store = omega arith
position-lt Native.cfetch = omega arith
position-lt Native.cstore = omega arith
position-lt Native.plus_store = omega arith
position-lt Native.here = omega arith
position-lt Native.allot = omega arith
position-lt Native.comma = omega arith
position-lt Native.c_comma = omega arith
position-lt Native.dot = omega arith
position-lt Native.u_dot = omega arith
position-lt Native.dot_s = omega arith
position-lt Native.dot_hex = omega arith
position-lt Native.emit = omega arith
position-lt Native.cr = omega arith
position-lt Native.space = omega arith
position-lt Native.spaces = omega arith
position-lt Native.type_text = omega arith
position-lt Native.dot_quote = omega arith
position-lt Native.paren = omega arith
position-lt Native.colon = omega arith
position-lt Native.semicolon = omega arith
position-lt Native.variable = omega arith
position-lt Native.constant = omega arith
position-lt Native.create = omega arith
position-lt Native.immediate = omega arith
position-lt Native.tick = omega arith
position-lt Native.execute = omega arith
position-lt Native.if_word = omega arith
position-lt Native.else_word = omega arith
position-lt Native.then_word = omega arith
position-lt Native.begin = omega arith
position-lt Native.until = omega arith
position-lt Native.again = omega arith
position-lt Native.while_word = omega arith
position-lt Native.repeat = omega arith
position-lt Native.do_word = omega arith
position-lt Native.loop_word = omega arith
position-lt Native.clear_screen = omega arith
position-lt Native.bye = omega arith
position-lt Native.base = omega arith
position-lt Native.decimal = omega arith
position-lt Native.hex = omega arith
position-lt Native.load = omega arith
