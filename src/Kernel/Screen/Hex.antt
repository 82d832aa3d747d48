-- ===== src/Kernel/Screen/Hex.antt =====
-- What `vga_put_hex` prints.
use vector_forth_kernel.Base.{
  ℕ, zero, suc, ◌-◌, ◌<◌, ◌≡◌, refl, sym, ap, ◌∙◌, [], ◌∷◌, ◌++◌, arith, length, length-append,
  length-replicate, replicate, Text, codes,
}
use vector_forth_kernel.Base.Word.{two64}
use vector_forth_kernel.Utils.Stdlib.{ultoa}
use vector_forth_kernel.Utils.Stdlib.Digits.{ltoa_fits}
use vector_forth_kernel.Kernel.Screen.{Screen, vga_putchar, vga_puts, put_zeros, vga_put_hex}

puts-append : (a b : Text) (s : Screen) → vga_puts (a ++ b) s ≡ vga_puts b (vga_puts a s)
unfolding vga_puts
puts-append [] b s = refl
puts-append (c ∷ a) b s = puts-append a b (vga_putchar c s)

zeros-puts : (n : ℕ) (s : Screen) → put_zeros n s ≡ vga_puts (replicate n 48) s
unfolding put_zeros vga_puts
zeros-puts zero s = refl
zeros-puts (suc n) s = zeros-puts n (vga_putchar 48 s)

-- "0x" and the digits, with zeros in front up to 16.
abbrev pub hex_text : ℕ → Text
hex_text value = codes "0x" ++ (replicate (16 - length (ultoa value 16)) 48 ++ ultoa value 16)

-- `vga_put_hex` of a 64-bit value does the same as `vga_puts` of a text of 18 characters: "0x" and the
-- digits that `ultoa` writes in base 16, filled with zeros in front.
pub vga_put_hex-vga_puts :
    (value : ℕ) (s : Screen)
    → value < two64
    → (vga_put_hex value s ≡ vga_puts (hex_text value) s) × (length (hex_text value) ≡ 18)
unfolding vga_put_hex
vga_put_hex-vga_puts value s small =
    let digits = ultoa value 16 in
    let zeros : Text = replicate (16 - length digits) 48 in
    let fits = (ltoa_fits value small).2 in
    (
      ap (vga_puts digits) (zeros-puts (16 - length digits) (vga_puts (codes "0x") s))
          ∙ sym (puts-append zeros digits (vga_puts (codes "0x") s))
          ∙ sym (puts-append (codes "0x") (zeros ++ digits) s),
      omega (
        arith,
        length-append zeros digits,
        length-replicate {A = ℕ} (16 - length digits) 48,
        fits,
      ),
    )
