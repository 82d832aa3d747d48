-- ===== src/Kernel/Screen/Bounds.antt =====
-- Writing text stays on the screen.
use vector_forth_kernel.Base.{
  ℕ, zero, suc, ◌+◌, ◌-◌, ◌*◌, ◌/◌, ◌≤◌, ◌<◌, ◌≡◌, ◌∙◌, true, false, ◌&&◌, List, [], ◌∷◌, inl, inr,
  arith, ◌==◌, ltb, leb, if◌then◌else◌, Bool-cases, Text,
}
use vector_forth_kernel.Kernel.Screen.{
  Screen, Cells, vga_width, vga_height, vga_entry, store_cell, fill_cells, update_cursor, rows_up,
  vga_scroll, next_row, put_tab, put_backspace, put_printable, put_code, vga_putchar, vga_puts,
  put_zeros,
}
use vector_forth_kernel.Kernel.Screen.Scroll.{fill_cells_lem}

-- The cursor is in one of the first `n` rows and on the screen's columns, and the memory behind the
-- screen's 2000 cells is `m`.
pub record Inside (n : ℕ) (m : Cells) (s : Screen) : Type 0 where
  pub row : s.row < n
  pub col : s.col < vga_width
  pub behind : (i : ℕ) → vga_width * vga_height ≤ i → s.cells i ≡ m i

module _ (m : Cells) where
  pub store-Inside :
      (n row col v : ℕ) (s : Screen)
      → row < vga_height
      → col < vga_width
      → Inside n m s
      → Inside n m (record s { cells = store_cell (row * vga_width + col) v s.cells })
  unfolding store_cell
  store-Inside n row col v s hr hc h = record {
    row = h.row;
    col = h.col;
    behind = λ i le.
        let away : (i == row * vga_width + col) ≡ false = ground arith in rw away (h.behind i le);
  }

  pub fill-Inside :
      (n k i v : ℕ) (s : Screen)
      → i + k ≤ vga_width * vga_height
      → Inside n m s
      → Inside n m (record s { cells = fill_cells k i v s.cells })
  fill-Inside n k i v s le h = record {
    row = h.row;
    col = h.col;
    behind = λ x out.
        let away : (leb i x && ltb x (i + k)) ≡ false = ground arith in
        fill_cells_lem k i v s.cells x ∙ rw away (h.behind x out);
  }

  pub move-Inside :
      (n k row col : ℕ) (s : Screen)
      → row < n
      → col < vga_width
      → Inside k m s
      → Inside n m (record s { row = row; col = col })
  move-Inside n k row col s hr hc h = record { row = hr; col = hc; behind = h.behind }

  pub ports-Inside :
      (n a : ℕ) (ports : List (ℕ × ℕ)) (s : Screen)
      → Inside n m s
      → Inside n m (record s { attrib = a; ports = ports })
  ports-Inside n a ports s h = record { row = h.row; col = h.col; behind = h.behind }

  scroll-Inside :
      (s : Screen) → Inside 26 m s → Inside 25 m (if leb vga_height s.row then vga_scroll s else s)
  unfolding vga_scroll
  scroll-Inside s h =
      let row = h.row in
      elim (Bool-cases (ltb s.row 25)) [
        | inl e ↦
            let stay : leb vga_height s.row ≡ false = ground (arith, e) in
            rw stay (move-Inside 25 26 s.row s.col s (ground (arith, e)) h.col h)
        | inr e ↦
            let past : leb vga_height s.row ≡ true = ground (arith, e) in
            let up : Inside 26 m (record s { cells = rows_up s.cells }) =
              unfold rows_up in
              record {
                row = h.row;
                col = h.col;
                behind = λ i le.
                    let away : ltb i (vga_width * (vga_height - 1)) ≡ false = ground arith in
                    rw away (h.behind i le);
              } in
            rw (past, e)
              (move-Inside 25 26 24 s.col _ (omega arith) h.col (
                fill-Inside 26 vga_width ((vga_height - 1) * vga_width) (vga_entry 32 s.attrib) _
                  (omega arith) up))
      ]

  next-Inside : (s : Screen) → Inside 25 m s → Inside 26 m (next_row s)
  next-Inside s h =
      let row = h.row in move-Inside 26 25 (s.row + 1) 0 s (omega arith) (omega arith) h

  col-Inside :
      (col : ℕ) (s : Screen)
      → col < vga_width
      → Inside 25 m s
      → Inside 26 m (record s { col = col })
  col-Inside col s lt h = let row = h.row in move-Inside 26 25 s.row col s (omega arith) lt h

  tab-Inside : (s : Screen) → Inside 25 m s → Inside 26 m (put_tab s)
  unfolding put_tab
  tab-Inside s h = elim (Bool-cases (leb vga_width ((s.col + 8) / 8 * 8))) [
    | inl e ↦ rw e (next-Inside s h)
    | inr e ↦ rw e (col-Inside ((s.col + 8) / 8 * 8) s (ground (arith, e)) h)
  ]

  backspace-Inside : (s : Screen) → Inside 25 m s → Inside 26 m (put_backspace s)
  unfolding put_backspace
  backspace-Inside s h =
      let lt = h.col in
      let less : s.col - 1 < vga_width = omega arith in
      elim (Bool-cases (s.col == 0)) [
        | inl e ↦ rw e (col-Inside s.col s h.col h)
        | inr e ↦ rw e (
            col-Inside (s.col - 1) _ less
              (store-Inside 25 s.row (s.col - 1) (vga_entry 32 s.attrib) s h.row less h))
      ]

  printable-Inside : (c : ℕ) (s : Screen) → Inside 25 m s → Inside 26 m (put_printable c s)
  unfolding put_printable
  printable-Inside c s h =
      let put = store-Inside 25 s.row s.col (vga_entry c s.attrib) s h.row h.col h in
      elim (Bool-cases (leb vga_width (s.col + 1))) [
        | inl e ↦ rw e (next-Inside _ put)
        | inr e ↦ rw e (col-Inside (s.col + 1) _ (ground (arith, e)) put)
      ]

  code-Inside : (c : ℕ) (s : Screen) → Inside 25 m s → Inside 26 m (put_code c s)
  unfolding put_code
  code-Inside c s h = elim (Bool-cases (c == 10)) [
    | inl e ↦ rw e (next-Inside s h)
    | inr n10 ↦ elim (Bool-cases (c == 13)) [
      | inl e ↦ rw (n10, e) (col-Inside 0 s (omega arith) h)
      | inr n13 ↦ elim (Bool-cases (c == 9)) [
        | inl e ↦ rw (n10, n13, e) (tab-Inside s h)
        | inr n9 ↦ elim (Bool-cases (c == 8)) [
          | inl e ↦ rw (n10, n13, n9, e) (backspace-Inside s h)
          | inr n8 ↦ elim (Bool-cases (leb 32 c && ltb c 128)) [
            | inl e ↦ rw (n10, n13, n9, n8, e) (printable-Inside c s h)
            | inr e ↦ rw (n10, n13, n9, n8, e) (col-Inside s.col s h.col h)
          ]
        ]
      ]
    ]
  ]

  pub cursor-Inside : (s : Screen) → Inside 25 m s → Inside 25 m (update_cursor s)
  unfolding update_cursor
  cursor-Inside s h = ports-Inside 25 s.attrib _ s h

  pub putchar-Inside : (c : ℕ) (s : Screen) → Inside 25 m s → Inside 25 m (vga_putchar c s)
  unfolding vga_putchar
  putchar-Inside c s h = cursor-Inside _ (scroll-Inside (put_code c s) (code-Inside c s h))

  pub puts-Inside : (str : Text) (s : Screen) → Inside 25 m s → Inside 25 m (vga_puts str s)
  unfolding vga_puts
  puts-Inside [] s h = h
  puts-Inside (c ∷ str) s h = puts-Inside str (vga_putchar c s) (putchar-Inside c s h)

  pub zeros-Inside : (n : ℕ) (s : Screen) → Inside 25 m s → Inside 25 m (put_zeros n s)
  unfolding put_zeros
  zeros-Inside zero s h = h
  zeros-Inside (suc n) s h = zeros-Inside n (vga_putchar 48 s) (putchar-Inside 48 s h)
