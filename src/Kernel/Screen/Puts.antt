-- ===== src/Kernel/Screen/Puts.antt =====
-- `vga_putchar` and `vga_puts` write on the paper.
use mathlib.Core.Path.{subst}
use vector_forth_kernel.Base.{
  ℕ, ◌+◌, ◌-◌, ◌*◌, ◌/◌, ◌<◌, ◌≡◌, refl, sym, ap, ap₂, ◌∙◌, true, false, ◌&&◌, [], ◌∷◌, inl, inr,
  arith, ◌==◌, ltb, leb, if◌then◌else◌, Bool-cases, Text,
}
use vector_forth_kernel.Kernel.Screen.{
  Screen, vga_width, vga_height, vga_entry, store_cell, update_cursor, next_row, put_tab,
  put_backspace, put_printable, put_code, vga_putchar, vga_puts,
}
use vector_forth_kernel.Kernel.Screen.Paper.{
  Paper, write, next_line, type_code, feed, type_text, Shows,
}
use vector_forth_kernel.Kernel.Screen.Scroll.{stored-Shows, scroll-Shows}

-- The cursor's ports are not part of what is shown.
cursor-Shows : (s : Screen) (p : Paper) → Shows 25 s p → Shows 25 (update_cursor s) p
unfolding update_cursor
cursor-Shows s p h = record {
  row = h.row;
  within = h.within;
  col = h.col;
  col_within = h.col_within;
  attrib = h.attrib;
  cells = h.cells;
}

next-Shows : (s : Screen) (p : Paper) → Shows 25 s p → Shows 26 (next_row s) (next_line p)
next-Shows s p h =
    let row = h.row in
    let within = h.within in
    record {
      row = omega arith;
      within = omega arith;
      col = refl;
      col_within = omega arith;
      attrib = h.attrib;
      cells = h.cells;
    }

-- A column that is on the screen.
moved-Shows :
    (s : Screen) (p : Paper) (a b : ℕ)
    → a ≡ b
    → a < vga_width
    → Shows 25 s p
    → Shows 26 (record s { col = a }) (record p { col = b })
moved-Shows s p a b e lt h =
    let within = h.within in
    record {
      row = h.row;
      within = omega arith;
      col = e;
      col_within = lt;
      attrib = h.attrib;
      cells = h.cells;
    }

put-Shows :
    (s : Screen) (p : Paper) (col v : ℕ)
    → col < vga_width
    → Shows 25 s p
    → Shows 25
        (record s { cells = store_cell (s.row * vga_width + col) v s.cells })
        (record p { lines = write p.line col v p.lines })
put-Shows s p col v hcol h = record {
  row = h.row;
  within = h.within;
  col = h.col;
  col_within = h.col_within;
  attrib = h.attrib;
  cells = λ r c hr hc.
      stored-Shows s.cells p.lines p.top s.row col v r c hcol hc (h.cells r c hr hc)
      ∙ ap (λ l. write l col v p.lines (p.top + r) c) h.row;
}

widen : (s : Screen) (p : Paper) → Shows 25 s p → Shows 26 s p
widen s p h =
    let within = h.within in
    record {
      row = h.row;
      within = omega arith;
      col = h.col;
      col_within = h.col_within;
      attrib = h.attrib;
      cells = h.cells;
    }

tab-Shows :
    (s : Screen) (p : Paper)
    → Shows 25 s p
    → Shows 26 (put_tab s) (
        if leb vga_width ((p.col + 8) / 8 * 8)
        then next_line p
        else record p { col = (p.col + 8) / 8 * 8 })
unfolding put_tab
tab-Shows s p h =
    let stop : ℕ → ℕ = λ x. (x + 8) / 8 * 8 in
    elim (Bool-cases (leb vga_width (stop s.col))) [
      | inl e ↦
          let e' : leb vga_width (stop p.col) ≡ true =
            ap (λ x. leb vga_width (stop x)) (sym h.col) ∙ e in
          rw (e, e') (next-Shows s p h)
      | inr e ↦
          let e' : leb vga_width (stop p.col) ≡ false =
            ap (λ x. leb vga_width (stop x)) (sym h.col) ∙ e in
          rw (e, e')
            (moved-Shows s p (stop s.col) (stop p.col) (ap stop h.col) (ground (arith, e)) h)
    ]

backspace-Shows :
    (s : Screen) (p : Paper)
    → Shows 25 s p
    → Shows 26 (put_backspace s) (
        if p.col == 0 then p else record p {
          col = p.col - 1;
          lines = write p.line (p.col - 1) (vga_entry 32 p.attrib) p.lines;
        })
unfolding put_backspace
backspace-Shows s p h =
    let lt = h.col_within in
    elim (Bool-cases (s.col == 0)) [
      | inl e ↦
          let e' : (p.col == 0) ≡ true = ap (λ x. x == 0) (sym h.col) ∙ e in
          rw (e, e') (widen s p h)
      | inr e ↦
          let e' : (p.col == 0) ≡ false = ap (λ x. x == 0) (sym h.col) ∙ e in
          let less : s.col - 1 < vga_width = omega arith in
          let put = put-Shows s p (s.col - 1) (vga_entry 32 s.attrib) less h in
          let moved = moved-Shows _ _ (s.col - 1) (p.col - 1) (ap (λ x. x - 1) h.col) less put in
          let same : write p.line (s.col - 1) (vga_entry 32 s.attrib) p.lines
              ≡ write p.line (p.col - 1) (vga_entry 32 p.attrib) p.lines =
            ap₂ (λ x a. write p.line (x - 1) (vga_entry 32 a) p.lines) h.col h.attrib in
          rw (e, e')
            (subst
              (λ l.
                Shows 26
                  (record s {
                    col = s.col - 1;
                    cells =
                        store_cell (s.row * vga_width + (s.col - 1)) (vga_entry 32 s.attrib)
                          s.cells;
                  })
                  (record p { col = p.col - 1; lines = l }))
              same moved)
    ]

printable-Shows :
    (c : ℕ) (s : Screen) (p : Paper)
    → Shows 25 s p
    → Shows 26 (put_printable c s) (
        let q = record p { lines = write p.line p.col (vga_entry c p.attrib) p.lines } in
        if leb vga_width (p.col + 1) then next_line q else record q { col = p.col + 1 })
unfolding put_printable
printable-Shows c s p h =
    let lt = h.col_within in
    let t : Screen = record s {
      cells = store_cell (s.row * vga_width + s.col) (vga_entry c s.attrib) s.cells;
    } in
    let q : Paper = record p { lines = write p.line p.col (vga_entry c p.attrib) p.lines } in
    let put : Shows 25 t q =
      subst (λ l. Shows 25 t (record p { lines = l }))
        (ap₂ (λ x a. write p.line x (vga_entry c a) p.lines) h.col h.attrib)
        (put-Shows s p s.col (vga_entry c s.attrib) lt h) in
    elim (Bool-cases (leb vga_width (s.col + 1))) [
      | inl e ↦
          let e' : leb vga_width (p.col + 1) ≡ true =
            ap (λ x. leb vga_width (x + 1)) (sym h.col) ∙ e in
          rw (e, e') (next-Shows t q put)
      | inr e ↦
          let e' : leb vga_width (p.col + 1) ≡ false =
            ap (λ x. leb vga_width (x + 1)) (sym h.col) ∙ e in
          rw (e, e')
            (moved-Shows t q (s.col + 1) (p.col + 1) (ap (λ x. x + 1) h.col) (ground (arith, e))
              put)
    ]

code-Shows :
    (c : ℕ) (s : Screen) (p : Paper) → Shows 25 s p → Shows 26 (put_code c s) (type_code c p)
unfolding put_code type_code
code-Shows c s p h = elim (Bool-cases (c == 10)) [
  | inl e ↦ rw e (next-Shows s p h)
  | inr n10 ↦ elim (Bool-cases (c == 13)) [
    | inl e ↦ rw (n10, e) (moved-Shows s p 0 0 refl (omega arith) h)
    | inr n13 ↦ elim (Bool-cases (c == 9)) [
      | inl e ↦ rw (n10, n13, e) (tab-Shows s p h)
      | inr n9 ↦ elim (Bool-cases (c == 8)) [
        | inl e ↦ rw (n10, n13, n9, e) (backspace-Shows s p h)
        | inr n8 ↦ elim (Bool-cases (leb 32 c && ltb c 128)) [
          | inl e ↦ rw (n10, n13, n9, n8, e) (printable-Shows c s p h)
          | inr e ↦ rw (n10, n13, n9, n8, e) (widen s p h)
        ]
      ]
    ]
  ]
]

pub vga_putchar-Shows :
    (c : ℕ) (s : Screen) (p : Paper)
    → Shows 25 s p
    → Shows 25 (vga_putchar c s) (feed (type_code c p))
unfolding vga_putchar
vga_putchar-Shows c s p h =
    cursor-Shows _ (feed (type_code c p))
      (scroll-Shows (put_code c s) (type_code c p) (code-Shows c s p h))

-- If the screen shows the lines of the paper that are in its window, with the cursor where the next
-- character goes on the paper, then it does so again after `vga_puts` of any text and the same text on
-- the paper: scrolling keeps every line that was written and only moves the window.
pub vga_puts-Shows :
    (str : Text) (s : Screen) (p : Paper)
    → Shows vga_height s p
    → Shows vga_height (vga_puts str s) (type_text str p)
unfolding vga_puts type_text
vga_puts-Shows [] s p h = h
vga_puts-Shows (c ∷ str) s p h =
    vga_puts-Shows str (vga_putchar c s) (feed (type_code c p)) (vga_putchar-Shows c s p h)
