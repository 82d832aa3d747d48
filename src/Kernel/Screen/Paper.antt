-- ===== src/Kernel/Screen/Paper.antt =====
-- The screen as a window on a roll of paper: text is written on numbered lines, and scrolling only moves
-- the window.
use vector_forth_kernel.Base.{
  ℕ, ◌+◌, ◌-◌, ◌*◌, ◌/◌, ◌<◌, ◌≡◌, ◌&&◌, [], ◌∷◌, ◌==◌, ltb, leb, if◌then◌else◌, Text,
}
use vector_forth_kernel.Kernel.Screen.{Screen, vga_width, vga_height, vga_entry}

-- `top` is the first line in the window; `line` and `col` are where the next character goes.
pub record Paper : Type 0 where
  pub lines : ℕ → ℕ → ℕ
  pub top : ℕ
  pub line : ℕ
  pub col : ℕ
  pub attrib : ℕ

abbrev pub write : ℕ → ℕ → ℕ → (ℕ → ℕ → ℕ) → ℕ → ℕ → ℕ
write line col v lines x y = if x == line && y == col then v else lines x y

abbrev pub next_line : Paper → Paper
next_line p = record p { col = 0; line = p.line + 1 }

-- A character on the paper: line feed, carriage return, tab, backspace, printable ASCII; others do
-- nothing.
unfoldable pub type_code : ℕ → Paper → Paper
type_code c p =
    if c == 10
    then next_line p
    else if c == 13
    then record p { col = 0 }
    else if c == 9
    then (if leb vga_width ((p.col + 8) / 8 * 8)
        then next_line p
        else record p { col = (p.col + 8) / 8 * 8 })
    else if c == 8
    then (if p.col == 0 then p else record p {
      col = p.col - 1;
      lines = write p.line (p.col - 1) (vga_entry 32 p.attrib) p.lines;
    })
    else if leb 32 c && ltb c 128
    then (let q = record p { lines = write p.line p.col (vga_entry c p.attrib) p.lines } in
        if leb vga_width (p.col + 1) then next_line q else record q { col = p.col + 1 })
    else p

-- The window moves down to a line below it, which is blank.
unfoldable pub feed : Paper → Paper
feed p = if ltb p.line (p.top + vga_height) then p else record p {
  top = p.line - (vga_height - 1);
  lines = λ x y. if x == p.line then vga_entry 32 p.attrib else p.lines x y;
}

unfoldable pub type_text : Text → Paper → Paper
type_text [] p = p
type_text (c ∷ cs) p = type_text cs (feed (type_code c p))

-- The screen shows the lines of the paper in the window, with the cursor in one of the first `n` rows.
pub record Shows (n : ℕ) (s : Screen) (p : Paper) : Type 0 where
  pub row : s.row + p.top ≡ p.line
  pub within : s.row < n
  pub col : s.col ≡ p.col
  pub col_within : s.col < vga_width
  pub attrib : s.attrib ≡ p.attrib
  pub cells :
      (r c : ℕ)
      → r < vga_height
      → c < vga_width
      → s.cells (r * vga_width + c) ≡ p.lines (p.top + r) c
