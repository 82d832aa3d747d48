-- ===== src/Base/Bitmap.antt =====
-- Bitmaps: the bit of number `p` is bit `p % 8` of byte `p / 8`, as in kernel/memory/pmm.c.
use Prim.Native.Nat.{ℕ, zero, suc, ◌-◌, ◌/◌, ◌%◌, ◌^◌, ◌≤◌, ◌<◌, bit_and, bit_or}
use mathlib.Core.Path.{◌≡◌, refl, ap, sym, ◌∙◌}
use mathlib.Core.Logic.{◌≢◌, inl, inr}
use mathlib.Core.Bool.{Bool, true, false, not, ◌&&◌, ◌||◌}
use native.Mathlib.Omega.{arith}
use vector_forth_kernel.Base.Tests.{◌==◌, if◌then◌else◌, ==→eq, ne→not-==, not-==→ne, Bool-cases}
use vector_forth_kernel.Base.Memory.{
  Mem, load8, store8, load8-lt, load8-store8_self, load8-store8_ne,
}
use vector_forth_kernel.Base.Bytes.{every_below, below_every}

-- Bit `k` of a byte, and the byte with that bit set or cleared.
unfoldable pub bit_is : ℕ → ℕ → Bool
bit_is b k = not (bit_and b (2 ^ k) == 0)

abbrev pub bit_set : ℕ → ℕ → ℕ
bit_set b k = bit_or b (2 ^ k) % 256

abbrev pub bit_clear : ℕ → ℕ → ℕ
bit_clear b k = bit_and b (255 - 2 ^ k) % 256

unfoldable pub bitmap_set : Mem → ℕ → Mem
bitmap_set bm p = store8 bm (p / 8) (bit_set (load8 bm (p / 8)) (p % 8))

unfoldable pub bitmap_clear : Mem → ℕ → Mem
bitmap_clear bm p = store8 bm (p / 8) (bit_clear (load8 bm (p / 8)) (p % 8))

unfoldable pub bitmap_test : Mem → ℕ → Bool
bitmap_test bm p = bit_is (load8 bm (p / 8)) (p % 8)

-- A statement about a byte and two bit numbers holds if it holds at every value.
byte_and_bits :
    (p : ℕ → ℕ → ℕ → Bool)
    → every_below 256 (λ b. every_below 8 (λ k. every_below 8 (λ j. p b k j))) ≡ true
    → (b k j : ℕ) → b < 256
    → k < 8
    → j < 8
    → p b k j ≡ true
byte_and_bits p h b k j hb hk hj =
    let at_b = below_every 256 (λ b. every_below 8 (λ k. every_below 8 (λ j. p b k j))) b h hb in
    let at_k = below_every 8 (λ k. every_below 8 (λ j. p b k j)) k at_b hk in
    below_every 8 (λ j. p b k j) j at_k hj

unfoldable pub same : Bool → Bool → Bool
same true b = b
same false b = not b

pub same→eq : (a b : Bool) → same a b ≡ true → a ≡ b
unfolding same
same→eq true true h = refl
same→eq true false h = absurd cc
same→eq false true h = absurd cc
same→eq false false h = refl

set_table :
    every_below 256 (λ b.
      every_below 8
        (λ k. every_below 8 (λ j. same (bit_is (bit_set b k) j) (k == j || bit_is b j))))
    ≡ true
unfolding every_below same bit_is
set_table = refl

clear_table :
    every_below 256 (λ b.
      every_below 8
        (λ k. every_below 8 (λ j. same (bit_is (bit_clear b k) j) (not (k == j) && bit_is b j))))
    ≡ true
unfolding every_below same bit_is
clear_table = refl

pub bit_is-bit_set :
    (b k j : ℕ) → b < 256 → k < 8 → j < 8 → bit_is (bit_set b k) j ≡ (k == j || bit_is b j)
bit_is-bit_set b k j hb hk hj = same→eq _ _ (
    byte_and_bits (λ b k j. same (bit_is (bit_set b k) j) (k == j || bit_is b j)) set_table b k j hb
      hk hj)

pub bit_is-bit_clear :
    (b k j : ℕ) → b < 256 → k < 8 → j < 8 → bit_is (bit_clear b k) j ≡ (not (k == j) && bit_is b j)
bit_is-bit_clear b k j hb hk hj = same→eq _ _ (
    byte_and_bits (λ b k j. same (bit_is (bit_clear b k) j) (not (k == j) && bit_is b j))
      clear_table b k j hb hk hj)

full_table : every_below 8 (λ k. bit_is 255 k) ≡ true
unfolding every_below bit_is
full_table = refl

pub bit_is-full : (k : ℕ) → k < 8 → bit_is 255 k ≡ true
bit_is-full k h = below_every 8 (λ k. bit_is 255 k) k full_table h

same_bit : (p q : ℕ) → p / 8 ≡ q / 8 → (p % 8 == q % 8) ≡ (p == q)
same_bit p q h = ground arith

stored : (m : Mem) (a b v : ℕ) → a ≡ b → load8 (store8 m a (v % 256)) b ≡ v % 256
stored m a b v e = rw (sym e) (load8-store8_self m a (v % 256) ∙ omega arith)

same_byte :
    (bm : Mem) (p q v : ℕ)
    → p / 8 ≡ q / 8
    → bitmap_test (store8 bm (p / 8) (v % 256)) q ≡ bit_is (v % 256) (q % 8)
unfolding bitmap_test
same_byte bm p q v e = rw (stored bm (p / 8) (q / 8) v e)

other_byte :
    (bm : Mem) (p q v : ℕ) → p / 8 ≢ q / 8 → bitmap_test (store8 bm (p / 8) v) q ≡ bitmap_test bm q
unfolding bitmap_test
other_byte bm p q v ne = rw (load8-store8_ne bm (p / 8) v (q / 8) (λ e. ne (sym e)))

other_bit : (p q : ℕ) → p / 8 ≢ q / 8 → (p == q) ≡ false
other_bit p q h = ne→not-== p q (λ e. h (ap (λ x. x / 8) e))

pub bitmap_test-set :
    (bm : Mem) (p q : ℕ) → bitmap_test (bitmap_set bm p) q ≡ (p == q || bitmap_test bm q)
unfolding bitmap_set
bitmap_test-set bm p q = elim (Bool-cases (p / 8 == q / 8)) [
  | inl e ↦
      let at : p / 8 ≡ q / 8 = ==→eq (p / 8) (q / 8) e in
      same_byte bm p q (bit_or (load8 bm (p / 8)) (2 ^ (p % 8))) at
      ∙ bit_is-bit_set (load8 bm (p / 8)) (p % 8) (q % 8) (load8-lt bm (p / 8)) (omega arith)
          (omega arith)
      ∙ rw (same_bit p q at, at) (unfold bitmap_test in refl)
  | inr e ↦
      let away = not-==→ne (p / 8) (q / 8) e in
      rw (other_byte bm p q (bit_set (load8 bm (p / 8)) (p % 8)) away, other_bit p q away)
]

pub bitmap_test-clear :
    (bm : Mem) (p q : ℕ) → bitmap_test (bitmap_clear bm p) q ≡ (not (p == q) && bitmap_test bm q)
unfolding bitmap_clear
bitmap_test-clear bm p q = elim (Bool-cases (p / 8 == q / 8)) [
  | inl e ↦
      let at : p / 8 ≡ q / 8 = ==→eq (p / 8) (q / 8) e in
      same_byte bm p q (bit_and (load8 bm (p / 8)) (255 - 2 ^ (p % 8))) at
      ∙ bit_is-bit_clear (load8 bm (p / 8)) (p % 8) (q % 8) (load8-lt bm (p / 8)) (omega arith)
          (omega arith)
      ∙ rw (same_bit p q at, at) (unfold bitmap_test in refl)
  | inr e ↦
      let away = not-==→ne (p / 8) (q / 8) e in
      rw (other_byte bm p q (bit_clear (load8 bm (p / 8)) (p % 8)) away, other_bit p q away)
]

-- The number of set bits below `n`.
unfoldable pub count : ℕ → Mem → ℕ
count zero bm = 0
count (suc n) bm = if bitmap_test bm n then suc (count n bm) else count n bm

pub count-le : (n : ℕ) (bm : Mem) → count n bm ≤ n
unfolding count
count-le zero bm = omega arith
count-le (suc n) bm = ground (arith, count-le n bm)

pub count-cong :
    (n : ℕ) (a b : Mem)
    → ((q : ℕ) → q < n → bitmap_test a q ≡ bitmap_test b q)
    → count n a ≡ count n b
unfolding count
count-cong zero a b h = refl
count-cong (suc n) a b h = rw (h n (omega arith), count-cong n a b (λ q l. h q (omega arith)))

pub count-set :
    (n p : ℕ) (bm : Mem)
    → p < n
    → bitmap_test bm p ≡ false
    → count n (bitmap_set bm p) ≡ suc (count n bm)
unfolding count
count-set zero p bm h e = absurd (omega arith)
count-set (suc n) p bm h e = elim (Bool-cases (p == n)) [
  | inl at ↦
      let same : p ≡ n = ==→eq p n at in
      let below =
        count-cong n (bitmap_set bm p) bm
          (λ q l. bitmap_test-set bm p q ∙ rw (ne→not-== p q (λ x. omega arith))) in
      let free : bitmap_test bm n ≡ false = rw (sym same) e in
      rw (bitmap_test-set bm p n, at, free, below)
  | inr ne ↦
      let away = not-==→ne p n ne in
      let below = count-set n p bm (omega arith) e in
      rw (bitmap_test-set bm p n, ne, below) (ground arith)
]

pub count-clear :
    (n p : ℕ) (bm : Mem)
    → p < n
    → bitmap_test bm p ≡ true
    → suc (count n (bitmap_clear bm p)) ≡ count n bm
unfolding count
count-clear zero p bm h e = absurd (omega arith)
count-clear (suc n) p bm h e = elim (Bool-cases (p == n)) [
  | inl at ↦
      let same : p ≡ n = ==→eq p n at in
      let below =
        count-cong n (bitmap_clear bm p) bm
          (λ q l. bitmap_test-clear bm p q ∙ rw (ne→not-== p q (λ x. omega arith))) in
      let used : bitmap_test bm n ≡ true = rw (sym same) e in
      rw (bitmap_test-clear bm p n, at, used, below)
  | inr ne ↦
      let away = not-==→ne p n ne in
      let below = count-clear n p bm (omega arith) e in
      rw (bitmap_test-clear bm p n, ne) (ground (arith, below))
]
