-- ===== src/Fs/Files/Search.antt =====
-- The search for the first clear bit of the bitmap.
use mathlib.Core.Path.{subst}
use vector_forth_kernel.Base.{
  ℕ, zero, suc, ◌+◌, ◌*◌, ◌/◌, ◌%◌, ◌≤◌, ◌<◌, ◌≡◌, inl, inr, ap, ◌∙◌, true, false, Option, none,
  some, arith, ◌==◌, get_or, ==→eq, Bool-cases, Option-cases, Text,
}
use vector_forth_kernel.Base.Bitmap.{bit_is, bit_is-full}
use vector_forth_kernel.Fs.Files.{free_bit, free_byte}
use vector_forth_kernel.Fs.Files.Fields.{bit_at}

-- The first clear bit of a byte from `bit` on.
abbrev FirstBit : (n bit b : ℕ) → Option ℕ → Type 0
FirstBit n bit b none = (j : ℕ) → bit ≤ j → j < bit + n → bit_is b j ≡ true
FirstBit n bit b (some k) =
    (bit ≤ k)
    × (k < bit + n)
    × (bit_is b k ≡ false)
    × ((j : ℕ) → bit ≤ j → j < k → bit_is b j ≡ true)

one_more : (P : ℕ → Type 0) (i j : ℕ) → P i → (i + 1 ≤ j → P j) → i ≤ j → P j
one_more P i j here above h = elim (Bool-cases (i == j)) [
  | inl e ↦ subst P (==→eq i j e) here
  | inr e ↦ above (ground (arith, e))
]

more_bits :
    (n bit b : ℕ) (r : Option ℕ)
    → bit_is b bit ≡ true
    → FirstBit n (bit + 1) b r
    → FirstBit (suc n) bit b r
more_bits n bit b none e all = λ j lo hi.
    one_more (λ j. j < bit + suc n → bit_is b j ≡ true) bit j (λ h. e)
      (λ l h. all j l (omega arith)) lo hi
more_bits n bit b (some k) e (lo, hi, clear, all) = (
  omega arith,
  omega arith,
  clear,
  λ j l h. one_more (λ j. j < k → bit_is b j ≡ true) bit j (λ h. e) (λ l h. all j l h) l h,
)

free_bit-FirstBit : (n bit b : ℕ) → FirstBit n bit b (free_bit n bit b)
unfolding free_bit
free_bit-FirstBit zero bit b = λ j lo hi. absurd (omega arith)
free_bit-FirstBit (suc n) bit b = elim (Bool-cases (bit_is b bit)) [
  | inl e ↦ rw (free_bit, e) (more_bits n bit b _ e (free_bit-FirstBit n (bit + 1) b))
  | inr e ↦ rw (free_bit, e) (omega arith, omega arith, e, λ j lo hi. absurd (omega arith))
]

-- The first clear bit of the bytes from `byte` on.
abbrev pub FirstByte : (n byte : ℕ) → Text → Option (ℕ × ℕ) → Type 0
FirstByte n byte bytes none = (q : ℕ) → byte * 8 ≤ q → q < (byte + n) * 8 → bit_at bytes q ≡ true
FirstByte n byte bytes (some (y, k)) =
    (y < byte + n)
    × (k < 8)
    × (bit_is (get_or bytes y 0) k ≡ false)
    × ((q : ℕ) → byte * 8 ≤ q → q < y * 8 + k → bit_at bytes q ≡ true)

-- A byte whose bits are all set, and one with a clear bit.
more_bytes :
    (n byte : ℕ) (bytes : Text) (r : Option (ℕ × ℕ))
    → ((k : ℕ) → k < 8 → bit_is (get_or bytes byte 0) k ≡ true)
    → FirstByte n (byte + 1) bytes r
    → FirstByte (suc n) byte bytes r
more_bytes n byte bytes none full all = λ q lo hi. elim (Bool-cases (q / 8 == byte)) [
  | inl e ↦ rw (==→eq (q / 8) byte e) (full (q % 8) (omega arith))
  | inr e ↦ all q (ground (arith, e)) (omega arith)
]
more_bytes n byte bytes (some (y, k)) full (hi, lk, clear, all) = (
  omega arith,
  lk,
  clear,
  λ q lo h. elim (Bool-cases (q / 8 == byte)) [
    | inl e ↦ rw (==→eq (q / 8) byte e) (full (q % 8) (omega arith))
    | inr e ↦ all q (ground (arith, e)) h
  ],
)

in_byte :
    (n byte k : ℕ) (bytes : Text)
    → FirstBit 8 0 (get_or bytes byte 0) (some k)
    → FirstByte (suc n) byte bytes (some (byte, k))
in_byte n byte k bytes (lo, hi, clear, all) = (
  omega arith,
  omega arith,
  clear,
  λ q l h. let at : q / 8 ≡ byte = omega arith in rw at (all (q % 8) (omega arith) (omega arith)),
)

pub free_byte-FirstByte :
    (n byte : ℕ) (bytes : Text) → FirstByte n byte bytes (free_byte n byte bytes)
unfolding free_byte
free_byte-FirstByte zero byte bytes = λ q lo hi. absurd (omega arith)
free_byte-FirstByte (suc n) byte bytes = elim (Bool-cases (get_or bytes byte 0 == 0xff)) [
  | inl e ↦
      rw (free_byte, e)
        (more_bytes n byte bytes _ (λ k h. ap (λ b. bit_is b k) (==→eq _ _ e) ∙ bit_is-full k h)
          (free_byte-FirstByte n (byte + 1) bytes))
  | inr e ↦ elim (Option-cases (free_bit 8 0 (get_or bytes byte 0))) [
    | inl f ↦
        let all =
          subst (FirstBit 8 0 (get_or bytes byte 0)) f
            (free_bit-FirstBit 8 0 (get_or bytes byte 0)) in
        rw (free_byte, e, f)
          (more_bytes n byte bytes _ (λ k h. all k (omega arith) (omega arith))
            (free_byte-FirstByte n (byte + 1) bytes))
    | inr (k, f) ↦
        let found =
          subst (FirstBit 8 0 (get_or bytes byte 0)) f
            (free_bit-FirstBit 8 0 (get_or bytes byte 0)) in
        rw (free_byte, e, f) (in_byte n byte k bytes found)
  ]
]
