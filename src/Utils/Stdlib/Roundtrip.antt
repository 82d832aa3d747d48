-- ===== src/Utils/Stdlib/Roundtrip.antt =====
-- `strtol` reads back what `ultoa` and `ltoa` write.
use mathlib.Core.List.{reverse-append}
use native.Mathlib.Nat.{pow-suc, pow-zero, div-add-mod}
use vector_forth_kernel.Base.{
  ℕ, zero, suc, ◌+◌, ◌-◌, ◌*◌, ◌/◌, ◌%◌, ◌^◌, ◌≤◌, ◌<◌, ◌≡◌, ◌≢◌, ap, sym, ◌∙◌, inl, inr, false,
  ◌&&◌, none, some, [], ◌∷◌, ◌++◌, arith, leb, ◌==◌, reverse, Text, Bool-cases, ==→eq, not-==→ne,
  Option-cases, ==_of_eq, ne→not-==,
}
use vector_forth_kernel.Base.Word.{two64, two63}
use vector_forth_kernel.Utils.Stdlib.{
  digits_loop, digit_char, base_digit, strtol_loop, ultoa, ltoa, strtol, max_digits, isspace,
  bad_base,
}
use vector_forth_kernel.Utils.Stdlib.Digits.{write_digits-reverse, base_digit-digit_char}

pub strtol_loop-digit :
    (base x d : ℕ) (xs : Text) (acc : ℕ)
    → base_digit base x ≡ some d
    → strtol_loop base (x ∷ xs) acc ≡ strtol_loop base xs ((acc * base + d) % two64)
unfolding strtol_loop
strtol_loop-digit base x d xs acc e = rw (e, strtol_loop)

pub strtol_loop-stop :
    (base x : ℕ) (xs : Text) (acc : ℕ)
    → base_digit base x ≡ none
    → strtol_loop base (x ∷ xs) acc ≡ (acc, x ∷ xs)
unfolding strtol_loop
strtol_loop-stop base x xs acc e = rw (e, strtol_loop)

-- Reading goes on behind a part that is all digits.
strtol_loop-append :
    (base : ℕ) (xs ys : Text) (acc r : ℕ)
    → strtol_loop base xs acc ≡ (r, [])
    → strtol_loop base (xs ++ ys) acc ≡ strtol_loop base ys r
strtol_loop-append base [] ys acc r h =
    let e : ◌≡◌ {A = ℕ × Text} (acc, []) (r, []) = unfold strtol_loop in h in
    ap (λ (t : ℕ × Text). strtol_loop base ys t.0) e
strtol_loop-append base (x ∷ xs) ys acc r h = elim (Option-cases (base_digit base x)) [
  | inl e ↦
      let t : x ∷ xs ≡ [] =
        ap (λ (t : ℕ × Text). t.1) (sym (strtol_loop-stop base x xs acc e) ∙ h) in
      absurd (cc)
  | inr (d, e) ↦
      strtol_loop-digit base x d (xs ++ ys) acc e
      ∙ strtol_loop-append base xs ys ((acc * base + d) % two64) r
          (sym (strtol_loop-digit base x d xs acc e) ∙ h)
]

half : (value base : ℕ) → 2 ≤ base → 2 * (value / base) ≤ value
half value base hb = grind (arith, div-add-mod value base)

halves : (value base f : ℕ) → 2 ≤ base → value < 2 ^ suc f → value / base < 2 ^ f
halves value base f hb h = omega (arith, pow-suc 2 f, half value base hb)

digits_loop-one :
    (f base value : ℕ)
    → value / base ≡ 0
    → digits_loop (suc f) base value ≡ digit_char (value % base) ∷ []
digits_loop-one f base value e = unfold digits_loop in rw (==_of_eq (value / base) 0 e)

digits_loop-more :
    (f base value : ℕ)
    → value / base ≢ 0
    → digits_loop (suc f) base value ≡ digit_char (value % base) ∷ digits_loop f base (value / base)
digits_loop-more f base value e = unfold digits_loop in rw (ne→not-== (value / base) 0 e)

-- The last digit of a number, read behind the others.
reads_last :
    (base value : ℕ) (xs : Text)
    → 2 ≤ base
    → base ≤ 36
    → value < two64
    → strtol_loop base xs 0 ≡ (value / base, [])
    → strtol_loop base (xs ++ digit_char (value % base) ∷ []) 0 ≡ (value, [])
reads_last base value xs lo hi small h =
    let e : (value / base * base + value % base) % two64 ≡ value =
      grind (arith, div-add-mod value base) in
    strtol_loop-append base xs (digit_char (value % base) ∷ []) 0 (value / base) h
    ∙ strtol_loop-digit base (digit_char (value % base)) (value % base) [] (value / base)
        (base_digit-digit_char base (value % base) hi (omega arith))
    ∙ (unfold strtol_loop in ap (λ (t : ℕ). let r : ℕ × Text = (t, []) in r) e)

fuel_left : (q f : ℕ) → q ≢ 0 → q < 2 ^ f → 0 < f
fuel_left q zero ne h = absurd (omega (arith, pow-zero 2))
fuel_left q (suc f) ne h = omega arith

-- With fuel for a number's digits, they are read back as the number.
reads_digits :
    (f base value : ℕ)
    → 2 ≤ base
    → base ≤ 36
    → 0 < f
    → value < two64
    → value < 2 ^ f
    → strtol_loop base (reverse (digits_loop f base value)) 0 ≡ (value, [])
reads_digits zero base value lo hi pos small fits = absurd (omega arith)
reads_digits (suc f) base value lo hi pos small fits = elim (Bool-cases (value / base == 0)) [
  | inl e ↦
      let z = ==→eq (value / base) 0 e in
      rw (digits_loop-one f base value z)
        (reads_last base value [] lo hi small (unfold strtol_loop in rw z))
  | inr e ↦
      let z = not-==→ne (value / base) 0 e in
      let below = halves value base f lo fits in
      let small' : value / base < two64 = omega (arith, half value base lo) in
      rw
        (
          digits_loop-more f base value z,
          reverse-append (digit_char (value % base) ∷ []) (digits_loop f base (value / base)),
        )
        (reads_last base value (reverse (digits_loop f base (value / base))) lo hi small (
          reads_digits f base (value / base) lo hi (fuel_left (value / base) f z below) small'
            below))
]

-- A digit is no white space and no sign.
digit_plain :
    (base x d : ℕ)
    → base_digit base x ≡ some d
    → (isspace x ≡ false) × ((x == b'-') ≡ false) × ((x == b'+') ≡ false)
unfolding base_digit
digit_plain base x d h = ground arith

strtol_plain :
    (base : ℕ) (xs : Text) (value : ℕ)
    → 2 ≤ base
    → strtol_loop base xs 0 ≡ (value, [])
    → strtol xs base ≡ (value, [])
unfolding strtol
strtol_plain base [] value lo h = rw (ne→not-== base 0 (λ e. omega arith)) h
strtol_plain base (x ∷ xs) value lo h = elim (Option-cases (base_digit base x)) [
  | inl e ↦
      let t : x ∷ xs ≡ [] = ap (λ (t : ℕ × Text). t.1) (sym (strtol_loop-stop base x xs 0 e) ∙ h) in
      absurd (cc)
  | inr (d, e) ↦
      let (a, b, c) = digit_plain base x d e in rw (a, b, c, ne→not-== base 0 (λ e. omega arith)) h
]

strtol_minus :
    (base : ℕ) (xs : Text) (value : ℕ)
    → 2 ≤ base
    → strtol_loop base xs 0 ≡ (value, [])
    → strtol (b'-' ∷ xs) base ≡ ((two64 - value) % two64, [])
unfolding strtol
strtol_minus base xs value lo h = rw (ne→not-== base 0 (λ e. omega arith), h)

reads_all :
    (base value : ℕ)
    → 2 ≤ base
    → base ≤ 36
    → value < two64
    → strtol_loop base (reverse (digits_loop max_digits base value)) 0 ≡ (value, [])
reads_all base value lo hi small =
    reads_digits max_digits base value lo hi (omega arith) small small

good_base : (base : ℕ) → 2 ≤ base → base ≤ 36 → bad_base base ≡ false
good_base base lo hi = ground arith

-- What `ultoa` writes in a base from 2 to 36 `strtol` reads back in full, as the same 64 bits.
pub strtol-ultoa :
    (value base : ℕ)
    → value < two64
    → 2 ≤ base
    → base ≤ 36
    → strtol (ultoa value base) base ≡ (value, [])
strtol-ultoa value base small lo hi =
    unfold ultoa in
    rw (good_base base lo hi, write_digits-reverse [] base value)
      (strtol_plain base (reverse (digits_loop max_digits base value)) value lo
        (reads_all base value lo hi small))

-- What `ltoa` writes of a signed 64-bit value in a base from 2 to 36, `strtol` reads back in full as
-- the same value, the most negative one and the sign of base 10 included.
pub strtol-ltoa :
    (value base : ℕ)
    → value < two64
    → 2 ≤ base
    → base ≤ 36
    → strtol (ltoa value base) base ≡ (value, [])
strtol-ltoa value base small lo hi = elim (Bool-cases (leb two63 value && base == 10)) [
  | inl e ↦
      let big : two63 ≤ value = ground arith in
      let w = (two64 - value) % two64 in
      let back : (two64 - w) % two64 ≡ value = omega arith in
      unfold ltoa in
      rw (good_base base lo hi, e, write_digits-reverse (b'-' ∷ []) base w)
        (strtol_minus base (reverse (digits_loop max_digits base w)) w lo
            (reads_all base w lo hi (omega arith))
          ∙ ap (λ (t : ℕ). let r : ℕ × Text = (t, []) in r) back)
  | inr e ↦
      unfold ltoa in
      rw (good_base base lo hi, e, write_digits-reverse [] base value)
        (strtol_plain base (reverse (digits_loop max_digits base value)) value lo
          (reads_all base value lo hi small))
]
