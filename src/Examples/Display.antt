-- ===== src/Examples/Display.antt =====
-- The screen driver on a blank screen with the cursor in its last row.
use vector_forth_kernel.Base.{◌≡◌, refl, List, [], ◌∷◌, arith, length, Text, codes}
use vector_forth_kernel.Base.Int.{pos, negsuc}
use vector_forth_kernel.Kernel.Screen.{Screen, vga_puts, vga_put_hex}
use vector_forth_kernel.Kernel.Screen.Paper.{Paper, Shows, type_text}
use vector_forth_kernel.Kernel.Screen.Puts.{vga_puts-Shows}
use vector_forth_kernel.Kernel.Screen.Bounds.{Inside}
use vector_forth_kernel.Kernel.Screen.Calls.{Call, calls, calls-Inside}
use vector_forth_kernel.Kernel.Screen.Hex.{hex_text, vga_put_hex-vga_puts}

abbrev screen : Screen
screen = record { cells = λ i. 0x720; row = 24; col = 0; attrib = 7; ports = [] }

-- The lines 0 to 24 are in the window.
abbrev paper : Paper
paper = record { lines = λ x y. 0x720; top = 0; line = 24; col = 0; attrib = 7 }

screen-Shows : Shows 25 screen paper
screen-Shows = record {
  row = refl;
  within = omega arith;
  col = refl;
  col_within = omega arith;
  attrib = refl;
  cells = λ r c hr hc. refl;
}

abbrev lines : Text
lines = codes "dup swap\nok\n"

vga_puts-Shows_example : Shows 25 (vga_puts lines screen) (type_text lines paper)
vga_puts-Shows_example = vga_puts-Shows lines screen paper screen-Shows

screen-Inside : Inside 25 (λ i. 0x720) screen
screen-Inside = record { row = omega arith; col = omega arith; behind = λ i le. refl }

abbrev some_calls : List Call
some_calls =
    Call.puts lines ∷ Call.put_at (pos 79) (pos 24) 65 7 ∷ Call.set_cursor (negsuc 0) (pos 30) ∷ []

calls-Inside_example : Inside 25 (λ i. 0x720) (calls some_calls screen)
calls-Inside_example = calls-Inside some_calls (λ i. 0x720) screen screen-Inside

vga_put_hex-vga_puts_example :
    (vga_put_hex 0xbeef screen ≡ vga_puts (hex_text 0xbeef) screen)
    × (length (hex_text 0xbeef) ≡ 18)
vga_put_hex-vga_puts_example = vga_put_hex-vga_puts 0xbeef screen (omega arith)
