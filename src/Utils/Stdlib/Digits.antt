-- ===== src/Utils/Stdlib/Digits.antt =====
-- The digits that `ltoa` and its kin write: what they are, and how many.
use vector_forth_kernel.Base.{
  ℕ, zero, suc, ◌+◌, ◌-◌, ◌*◌, ◌/◌, ◌%◌, ◌^◌, ◌≤◌, ◌<◌, ◌≡◌, refl, ap, ◌∙◌, ◌&&◌, some, [], ◌∷◌,
  ◌++◌, arith, leb, ◌==◌, length, reverse, Text, Bool-cases, length-append, not-==→ne, ◌≢◌, inl,
  inr,
}
use mathlib.Core.List.{reverse-append}
use native.Mathlib.Nat.{pow-suc, pow-zero, div-lt_iff_lt-mul}
use vector_forth_kernel.Base.Word.{two64, two63}
use vector_forth_kernel.Utils.Stdlib.{
  digits_loop, digit_char, base_digit, write_digits, ultoa, ltoa, max_digits,
}
use vector_forth_kernel.Utils.Stdlib.Reverse.{reverse_digits}

-- What is written is the sign and the digits, the highest first.
pub write_digits-reverse :
    (sign : Text) (base value : ℕ)
    → write_digits sign base value ≡ sign ++ reverse (digits_loop max_digits base value)
write_digits-reverse sign base value =
    unfold write_digits in reverse_digits sign (digits_loop max_digits base value)

-- A digit that is written is read back as the same digit.
pub base_digit-digit_char :
    (base d : ℕ) → base ≤ 36 → d < base → base_digit base (digit_char d) ≡ some d
unfolding base_digit
base_digit-digit_char base d hb hd = ground arith

base-le : (value base : ℕ) → value / base ≢ 0 → base ≤ value
base-le value base h = grind arith

quotient_below : (value base n : ℕ) → value < base ^ n * base → value / base < base ^ n
quotient_below value zero n h = absurd (omega arith)
quotient_below value (suc b) n h = (div-lt_iff_lt-mul (omega arith)).1 h

pow_pos : (value base n : ℕ) → base ≤ value → value < base ^ n * base → 0 < n
pow_pos value base zero big lt = absurd (omega (arith, ap (λ (t : ℕ). t * base) (pow-zero base)))
pow_pos value base (suc n) big lt = omega arith

-- The digits of a number below `base ^ n` are at most `n`, but at least one.
pub length-digits_loop :
    (f base value n : ℕ) → 0 < n → value < base ^ n → length (digits_loop f base value) ≤ n
unfolding digits_loop
length-digits_loop zero base value n h lt = omega arith
length-digits_loop (suc f) base value zero h lt = absurd (omega arith)
length-digits_loop (suc f) base value (suc n) h lt = elim (Bool-cases (value / base == 0)) [
  | inl e ↦ rw e (omega arith)
  | inr e ↦
      let ne = not-==→ne (value / base) 0 e in
      let big : base ≤ value = base-le value base ne in
      let below : value / base < base ^ n =
        quotient_below value base n (rw (pow-suc base n) at lt) in
      let pos : 0 < n = pow_pos value base n big (rw (pow-suc base n) at lt) in
      rw e (omega (arith, length-digits_loop f base (value / base) n pos below))
]

length-reverse : (ds : Text) → length (reverse ds) ≡ length ds
length-reverse [] = refl
length-reverse (d ∷ ds) =
    ap length (reverse-append (d ∷ []) ds)
    ∙ length-append (reverse ds) (d ∷ [])
    ∙ omega (arith, length-reverse ds)

length-write_digits :
    (sign : Text) (base value n : ℕ)
    → 0 < n
    → value < base ^ n
    → length (write_digits sign base value) ≤ length sign + n
length-write_digits sign base value n pos lt =
    rw (write_digits-reverse sign base value, length-append, length-reverse)
      (omega (arith, length-digits_loop max_digits base value n pos lt))

-- Of any 64-bit value `ltoa` and `ultoa` write at most 20 characters in base 10 and at most 16 in base
-- 16, before the NUL.
pub ltoa_fits :
    (value : ℕ)
    → value < two64
    → (length (ltoa value 10) ≤ 20)
      × (length (ltoa value 16) ≤ 16)
      × (length (ultoa value 16) ≤ 16)
      × (length (ultoa value 10) ≤ 20)
ltoa_fits value small = (
  elim (Bool-cases (leb two63 value && 10 == 10)) [
    | inl e ↦
        unfold ltoa in
        rw e (
          length-write_digits (b'-' ∷ []) 10 ((two64 - value) % two64) 19 (omega arith)
            (ground arith))
    | inr e ↦ unfold ltoa in rw e (length-write_digits [] 10 value 20 (omega arith) (omega arith))
  ],
  unfold ltoa in
      elim (Bool-cases (leb two63 value && 16 == 10)) [
        | inl e ↦ absurd (ground arith)
        | inr e ↦ rw e (length-write_digits [] 16 value 16 (omega arith) (omega arith))
      ],
  unfold ultoa in length-write_digits [] 16 value 16 (omega arith) (omega arith),
  unfold ultoa in length-write_digits [] 10 value 20 (omega arith) (omega arith),
)
