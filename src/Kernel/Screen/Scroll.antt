-- ===== src/Kernel/Screen/Scroll.antt =====
-- Scrolling moves the window on the paper.
use vector_forth_kernel.Base.{
  ℕ, zero, suc, ◌+◌, ◌-◌, ◌*◌, ◌<◌, ◌≡◌, ap, ◌∙◌, true, false, ◌&&◌, inl, inr, arith, ◌==◌, ltb,
  leb, if◌then◌else◌, Bool-cases,
}
use vector_forth_kernel.Kernel.Screen.{
  Screen, Cells, vga_width, vga_height, vga_entry, store_cell, fill_cells, rows_up, vga_scroll,
}
use vector_forth_kernel.Kernel.Screen.Paper.{Paper, write, feed, Shows}

pub fill_cells_lem :
    (n i v : ℕ) (m : Cells) (x : ℕ)
    → fill_cells n i v m x ≡ (if leb i x && ltb x (i + n) then v else m x)
unfolding fill_cells
fill_cells_lem zero i v m x = ground arith
fill_cells_lem (suc n) i v m x =
    fill_cells_lem n (i + 1) v (store_cell i v m) x ∙ unfold store_cell in ground arith

-- A cell that is written on both.
pub stored-Shows :
    (m : Cells) (lines : ℕ → ℕ → ℕ) (top row col v r c : ℕ)
    → col < vga_width
    → c < vga_width
    → m (r * vga_width + c) ≡ lines (top + r) c
    → store_cell (row * vga_width + col) v m (r * vga_width + c)
      ≡ write (row + top) col v lines (top + r) c
unfolding store_cell
stored-Shows m lines top row col v r c hcol hc e = ground (arith, e)

blank_row :
    (blank : ℕ) (m : Cells) (lines : ℕ → ℕ → ℕ) (top line r c : ℕ)
    → line ≡ 25 + top
    → r < vga_height
    → c < vga_width
    → ((r c : ℕ) → r < vga_height → c < vga_width → m (r * vga_width + c) ≡ lines (top + r) c)
    → fill_cells vga_width ((vga_height - 1) * vga_width) blank (rows_up m) (r * vga_width + c) ≡ (
        if line - (vga_height - 1) + r == line
        then blank
        else lines (line - (vga_height - 1) + r) c)
unfolding rows_up
blank_row blank m lines top line r c e hr hc cells =
    fill_cells_lem vga_width ((vga_height - 1) * vga_width) blank (rows_up m) (r * vga_width + c)
    ∙ elim (Bool-cases (ltb r 24)) [
      | inl lt ↦
          let above : leb 1920 (r * vga_width + c) ≡ false = ground (arith, lt) in
          let other : (line - (vga_height - 1) + r == line) ≡ false = ground (arith, lt) in
          let moved : ltb (r * vga_width + c) 1920 ≡ true = ground (arith, lt) in
          let below : r * vga_width + c + vga_width ≡ (r + 1) * vga_width + c = omega arith in
          let same : top + (r + 1) ≡ line - (vga_height - 1) + r = omega arith in
          rw (above, other, moved)
            (ap m below ∙ cells (r + 1) c (ground (arith, lt)) hc ∙ ap (λ x. lines x c) same)
      | inr ge ↦
          let here : (leb 1920 (r * vga_width + c) && ltb (r * vga_width + c) 2000) ≡ true =
            ground (arith, ge) in
          let last : (line - (vga_height - 1) + r == line) ≡ true = ground (arith, ge) in
          rw (here, last)
    ]

-- Scrolling, when the cursor has left the last row.
pub scroll-Shows :
    (s : Screen) (p : Paper)
    → Shows 26 s p
    → Shows 25 (if leb vga_height s.row then vga_scroll s else s) (feed p)
unfolding vga_scroll feed
scroll-Shows s p h =
    let row = h.row in
    let within = h.within in
    elim (Bool-cases (ltb s.row 25)) [
      | inl e ↦
          let stay : leb vga_height s.row ≡ false = ground (arith, e) in
          let stay' : ltb p.line (p.top + vga_height) ≡ true = ground (arith, e) in
          rw (stay, stay')
            (record {
              row = row;
              within = ground (arith, e);
              col = h.col;
              col_within = h.col_within;
              attrib = h.attrib;
              cells = h.cells;
            })
      | inr e ↦
          let past : leb vga_height s.row ≡ true = ground (arith, e) in
          let past' : ltb p.line (p.top + vga_height) ≡ false = ground (arith, e) in
          let at : p.line ≡ 25 + p.top = ground (arith, e) in
          rw (past, past', e)
            (record {
              row = omega arith;
              within = omega arith;
              col = h.col;
              col_within = h.col_within;
              attrib = h.attrib;
              cells = λ r c hr hc.
                  ap
                    (λ a.
                      fill_cells vga_width ((vga_height - 1) * vga_width) (vga_entry 32 a)
                        (rows_up s.cells) (r * vga_width + c))
                    h.attrib
                  ∙ blank_row (vga_entry 32 p.attrib) s.cells p.lines p.top p.line r c at hr hc
                      h.cells;
            })
    ]
