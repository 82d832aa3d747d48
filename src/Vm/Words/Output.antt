-- ===== src/Vm/Words/Output.antt =====
-- The words of vm/core/forth.c that print, with `ds_print` of vm/stack/stack.c and `vga_put_hex` of
-- kernel/drivers/vga.c.
use vector_forth_kernel.Base.{
  ℕ, zero, suc, ◌+◌, ◌-◌, ◌%◌, List, [], ◌∷◌, ◌++◌, length, replicate, get_or, Text, codes,
}
use vector_forth_kernel.Base.Int.{pos_part}
use vector_forth_kernel.Base.Word.{to_i64}
use vector_forth_kernel.Base.Memory.{Mem, load8}
use vector_forth_kernel.Utils.Stdlib.{ltoa, ultoa, itoa}
use vector_forth_kernel.Vm.State.{
  Act, clear, done, halted, ◌>>=◌, ◌>>◌, modify, read, putchar, puts,
}
use vector_forth_kernel.Vm.Stack.{ds_push, ds_pop}
use vector_forth_kernel.Vm.Parse.{parse_until}

-- The text of `vga_put_hex`.
unfoldable pub hex_text : ℕ → Text
hex_text value =
    let digits = ultoa value 16 in codes "0x" ++ (replicate (16 - length digits) b'0' ++ digits)

unfoldable pub w_dot : Act
w_dot = do v ← ds_pop; b ← read (λ m. m.base); puts (ltoa v b); putchar 32

unfoldable pub w_u_dot : Act
w_u_dot = do v ← ds_pop; b ← read (λ m. m.base); puts (ultoa v b); putchar 32

-- The loop of `ds_print` over `n` cells from index `i` on.
unfoldable pub cells_text : List ℕ → ℕ → ℕ → Text
cells_text ds i zero = []
cells_text ds i (suc n) = ltoa (get_or ds i 0) 10 ++ (32 ∷ cells_text ds (i + 1) n)

unfoldable pub ds_print : Act
unfolding cells_text
ds_print = do
  puts (codes "<")
  n ← read (λ m. m.dsp)
  puts (itoa n 10)
  puts (codes "> ")
  ds ← read (λ m. m.ds)
  puts (cells_text ds 0 n)

unfoldable pub w_dot_s : Act
unfolding ds_print
w_dot_s = ds_print

unfoldable pub w_dot_hex : Act
unfolding hex_text
w_dot_hex = do v ← ds_pop; puts (hex_text v); putchar 32

unfoldable pub w_emit : Act
w_emit = do v ← ds_pop; putchar (v % 256)

unfoldable pub w_cr : Act
w_cr = putchar 10

unfoldable pub w_space : Act
w_space = putchar 32

-- A negative count prints nothing.
unfoldable pub w_spaces : Act
w_spaces = do n ← ds_pop; puts (replicate (pos_part (to_i64 n)) 32)

-- The `n` characters from an address on.
unfoldable pub text_at : Mem → ℕ → ℕ → Text
text_at mem a zero = []
text_at mem a (suc n) = load8 mem a ∷ text_at mem (a + 1) n

unfoldable pub w_type : Act
unfolding text_at
w_type = do
  len ← ds_pop
  a ← ds_pop
  text ← read (λ m. text_at m.mem a (pos_part (to_i64 len)))
  puts text

unfoldable pub w_dot_quote : Act
w_dot_quote = do text ← parse_until b'"' 128; puts text

unfoldable pub w_paren : Act
w_paren = do text ← parse_until b')' 256; done

unfoldable pub w_clear : Act
w_clear = modify λ m. record m { screen = m.screen ++ clear ∷ [] }

-- The processor is halted with interrupts off.
unfoldable pub w_bye : Act
w_bye = do puts (codes "\nSystem halted.\n"); λ m. halted m

unfoldable pub w_decimal : Act
w_decimal = modify λ m. record m { base = 10 }

unfoldable pub w_hex : Act
w_hex = modify λ m. record m { base = 16 }

unfoldable pub w_base : Act
w_base = do b ← read (λ m. m.base); ds_push b
