-- ===== src/Kernel/Screen/Calls.antt =====
-- All calls of the screen driver stay on the screen.
use vector_forth_kernel.Base.{
  ℕ, ◌*◌, ◌<◌, ◌≡◌, true, List, [], ◌∷◌, inl, inr, arith, if◌then◌else◌, Bool-cases, Text, codes,
}
use vector_forth_kernel.Base.Int.{ℤ, pos, negsuc}
use vector_forth_kernel.Utils.Stdlib.{ultoa}
use vector_forth_kernel.Kernel.Screen.{
  Screen, Cells, vga_width, vga_height, vga_entry, on_screen, coordinate, vga_putchar, vga_puts,
  vga_clear, vga_init, vga_set_color, vga_put_hex, vga_put_dec, vga_set_cursor, vga_put_at,
}
use vector_forth_kernel.Kernel.Screen.Bounds.{
  Inside, store-Inside, fill-Inside, move-Inside, ports-Inside, cursor-Inside, putchar-Inside,
  puts-Inside, zeros-Inside,
}

pub data Call : Type 0 where
  init : ℕ → ℕ → Call
  clear : Call
  set_color : ℕ → ℕ → Call
  putchar : ℕ → Call
  puts : Text → Call
  put_hex : ℕ → Call
  put_dec : ℕ → Call
  set_cursor : ℤ → ℤ → Call
  put_at : ℤ → ℤ → ℕ → ℕ → Call

unfoldable pub call : Call → Screen → Screen
call (init start end) = vga_init start end
call clear = vga_clear
call (set_color fg bg) = vga_set_color fg bg
call (putchar c) = vga_putchar c
call (puts str) = vga_puts str
call (put_hex value) = vga_put_hex value
call (put_dec value) = vga_put_dec value
call (set_cursor x y) = vga_set_cursor x y
call (put_at x y c color) = vga_put_at x y c color

unfoldable pub calls : List Call → Screen → Screen
calls [] s = s
calls (c ∷ cs) s = calls cs (call c s)

module _ (m : Cells) where
  clear-Inside : (s : Screen) → Inside 25 m s → Inside 25 m (vga_clear s)
  unfolding vga_clear
  clear-Inside s h = cursor-Inside m _ (
      move-Inside m 25 25 0 0 _ (omega arith) (omega arith)
        (fill-Inside m 25 (vga_width * vga_height) 0 (vga_entry 32 s.attrib) s (omega arith) h))

  on_screen-lt : (x : ℤ) (limit : ℕ) → on_screen x limit ≡ true → coordinate x < limit
  on_screen-lt (pos n) limit e = ground (arith, e)
  on_screen-lt (negsuc n) limit e = absurd cc

  chosen :
      (x : ℤ) (limit old : ℕ)
      → old < limit
      → (if on_screen x limit then coordinate x else old) < limit
  chosen x limit old h = elim (Bool-cases (on_screen x limit)) [
    | inl e ↦ rw e (on_screen-lt x limit e)
    | inr e ↦ rw e h
  ]

  set_cursor-Inside : (x y : ℤ) (s : Screen) → Inside 25 m s → Inside 25 m (vga_set_cursor x y s)
  unfolding vga_set_cursor
  set_cursor-Inside x y s h = cursor-Inside m _ (
      move-Inside m 25 25 _ _ s (chosen y vga_height s.row h.row) (chosen x vga_width s.col h.col)
        h)

  put_at-Inside :
      (x y : ℤ) (c color : ℕ) (s : Screen) → Inside 25 m s → Inside 25 m (vga_put_at x y c color s)
  unfolding vga_put_at
  put_at-Inside x y c color s h = elim (Bool-cases (on_screen x vga_width)) [
    | inr e ↦ rw e h
    | inl e ↦ elim (Bool-cases (on_screen y vga_height)) [
      | inr e' ↦ rw (e, e') h
      | inl e' ↦
          rw (e, e')
            (store-Inside m 25 (coordinate y) (coordinate x) (vga_entry c color) s
              (on_screen-lt y vga_height e') (on_screen-lt x vga_width e) h)
    ]
  ]

  call-Inside : (c : Call) (s : Screen) → Inside 25 m s → Inside 25 m (call c s)
  unfolding call vga_init vga_set_color vga_put_hex vga_put_dec
  call-Inside (init start end) s h =
      ports-Inside m 25 _ _ _ (clear-Inside _ (ports-Inside m 25 _ s.ports s h))
  call-Inside clear s h = clear-Inside s h
  call-Inside (set_color fg bg) s h = ports-Inside m 25 _ s.ports s h
  call-Inside (putchar c) s h = putchar-Inside m c s h
  call-Inside (puts str) s h = puts-Inside m str s h
  call-Inside (put_hex value) s h =
      puts-Inside m (ultoa value 16) _ (zeros-Inside m _ _ (puts-Inside m (codes "0x") s h))
  call-Inside (put_dec value) s h = puts-Inside m (ultoa value 10) s h
  call-Inside (set_cursor x y) s h = set_cursor-Inside x y s h
  call-Inside (put_at x y c color) s h = put_at-Inside x y c color s h

-- When the cursor is on the screen, then after any sequence of calls of the driver it is again, and no
-- call has written to memory behind the 2000 cells of the screen.
pub calls-Inside :
    (cs : List Call) (m : Cells) (s : Screen)
    → Inside vga_height m s
    → Inside vga_height m (calls cs s)
unfolding calls
calls-Inside [] m s h = h
calls-Inside (c ∷ cs) m s h = calls-Inside cs m (call c s) (call-Inside m c s h)
