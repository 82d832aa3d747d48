-- ===== src/Kernel/Screen.antt =====
-- The text screen, kernel/drivers/vga.c. `cells` is the memory from VGA_MEMORY on, in cells of 16 bits,
-- which goes on behind the 2000 cells of the screen. The bytes that `outb` writes to the ports of the
-- cursor are a list, and those that `inb` reads are arguments. A `char` is signed: the codes from 128
-- on are negative.
pub mod Paper
pub mod Scroll
pub mod Puts
pub mod Bounds
pub mod Calls
pub mod Hex
use Prim.Native.Nat.{bit_and, bit_or}
use vector_forth_kernel.Base.{
  ℕ, zero, suc, ◌+◌, ◌-◌, ◌*◌, ◌/◌, ◌%◌, Bool, true, false, ◌&&◌, List, [], ◌∷◌, ◌++◌, ◌==◌, ltb,
  leb, if◌then◌else◌, length, Text, codes,
}
use vector_forth_kernel.Base.Int.{ℤ, pos, negsuc}
use vector_forth_kernel.Utils.Stdlib.{ultoa}

abbrev pub vga_width : ℕ
vga_width = 80

abbrev pub vga_height : ℕ
vga_height = 25

abbrev pub Cells : Type 0
Cells = ℕ → ℕ

-- `vga_buffer`, `vga_row`, `vga_col`, `vga_attrib` and what was written to the ports
pub record Screen : Type 0 where
  pub cells : Cells
  pub row : ℕ
  pub col : ℕ
  pub attrib : ℕ
  pub ports : List (ℕ × ℕ)

unfoldable pub vga_entry : ℕ → ℕ → ℕ
vga_entry c color =
    let wide = if ltb c 128 then c else 0xff00 + c in bit_or wide (color * 256) % 0x1_0000

unfoldable pub vga_color : ℕ → ℕ → ℕ
vga_color fg bg = bit_or fg (bg * 16) % 256

unfoldable pub store_cell : ℕ → ℕ → Cells → Cells
store_cell i v m x = if x == i then v else m x

-- `n` cells from `i` on.
unfoldable pub fill_cells : (n i v : ℕ) → Cells → Cells
fill_cells zero i v m = m
fill_cells (suc n) i v m = fill_cells n (i + 1) v (store_cell i v m)

unfoldable pub update_cursor : Screen → Screen
update_cursor s =
    let p = (s.row * vga_width + s.col) % 0x1_0000 in
    record s {
      ports =
          s.ports
          ++ ((0x3d4, 0x0f) ∷ (0x3d5, p % 256) ∷ (0x3d4, 0x0e) ∷ (0x3d5, p / 256 % 256) ∷ []);
    }

unfoldable pub vga_clear : Screen → Screen
vga_clear s =
    let blank = vga_entry 32 s.attrib in
    update_cursor
      (record s { cells = fill_cells (vga_width * vga_height) 0 blank s.cells; row = 0; col = 0 })

-- The arguments are what `inb` reads from port 0x3D5.
unfoldable pub vga_init : (start end : ℕ) → Screen → Screen
vga_init start end s =
    let t = vga_clear (record s { attrib = vga_color 7 0 }) in
    record t {
      ports =
          t.ports
          ++ ((0x3d4, 0x0a)
              ∷ (0x3d5, bit_or (bit_and start 0xc0) 14)
              ∷ (0x3d4, 0x0b)
              ∷ (0x3d5, bit_or (bit_and end 0xe0) 15)
              ∷ []);
    }

unfoldable pub vga_set_color : ℕ → ℕ → Screen → Screen
vga_set_color fg bg s = record s { attrib = vga_color fg bg }

-- `memmove` of all rows but the first.
unfoldable pub rows_up : Cells → Cells
rows_up m x = if ltb x (vga_width * (vga_height - 1)) then m (x + vga_width) else m x

unfoldable pub vga_scroll : Screen → Screen
vga_scroll s =
    let blank = vga_entry 32 s.attrib in
    if ltb s.row vga_height then s else record s {
      cells = fill_cells vga_width ((vga_height - 1) * vga_width) blank (rows_up s.cells);
      row = vga_height - 1;
    }

abbrev pub next_row : Screen → Screen
next_row s = record s { col = 0; row = s.row + 1 }

-- The cases of the `switch` in `vga_putchar`.
unfoldable pub put_tab : Screen → Screen
put_tab s =
    let col = (s.col + 8) / 8 * 8 in
    if leb vga_width col then next_row s else record s { col = col }

unfoldable pub put_backspace : Screen → Screen
put_backspace s =
    let col = s.col - 1 in
    if s.col == 0 then s else record s {
      col = col;
      cells = store_cell (s.row * vga_width + col) (vga_entry 32 s.attrib) s.cells;
    }

unfoldable pub put_printable : ℕ → Screen → Screen
put_printable c s =
    let t = record s {
      cells = store_cell (s.row * vga_width + s.col) (vga_entry c s.attrib) s.cells;
    } in
    if leb vga_width (s.col + 1) then next_row t else record t { col = s.col + 1 }

unfoldable pub put_code : ℕ → Screen → Screen
put_code c s =
    if c == 10
    then next_row s
    else if c == 13
    then record s { col = 0 }
    else if c == 9
    then put_tab s
    else if c == 8
    then put_backspace s
    else if leb 32 c && ltb c 128
    then put_printable c s
    else s

unfoldable pub vga_putchar : ℕ → Screen → Screen
vga_putchar c s =
    let t = put_code c s in update_cursor (if leb vga_height t.row then vga_scroll t else t)

unfoldable pub vga_puts : Text → Screen → Screen
vga_puts [] s = s
vga_puts (c ∷ str) s = vga_puts str (vga_putchar c s)

-- The loop of `vga_put_hex`.
unfoldable pub put_zeros : ℕ → Screen → Screen
put_zeros zero s = s
put_zeros (suc n) s = put_zeros n (vga_putchar 48 s)

unfoldable pub vga_put_hex : ℕ → Screen → Screen
vga_put_hex value s =
    let buf = ultoa value 16 in vga_puts buf (put_zeros (16 - length buf) (vga_puts (codes "0x") s))

unfoldable pub vga_put_dec : ℕ → Screen → Screen
vga_put_dec value s = vga_puts (ultoa value 10) s

-- A coordinate that is on the screen.
abbrev pub on_screen : ℤ → ℕ → Bool
on_screen (pos n) limit = ltb n limit
on_screen (negsuc n) limit = false

abbrev pub coordinate : ℤ → ℕ
coordinate (pos n) = n
coordinate (negsuc n) = 0

unfoldable pub vga_set_cursor : ℤ → ℤ → Screen → Screen
vga_set_cursor x y s = update_cursor (record s {
  col = if on_screen x vga_width then coordinate x else s.col;
  row = if on_screen y vga_height then coordinate y else s.row;
})

unfoldable pub vga_put_at : ℤ → ℤ → (c color : ℕ) → Screen → Screen
vga_put_at x y c color s =
    if on_screen x vga_width && on_screen y vga_height
    then record s {
      cells = store_cell (coordinate y * vga_width + coordinate x) (vga_entry c color) s.cells;
    }
    else s

abbrev pub vga_get_row : Screen → ℕ
vga_get_row s = s.row

abbrev pub vga_get_col : Screen → ℕ
vga_get_col s = s.col
