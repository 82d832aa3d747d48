-- ===== src/Vm/Words/Effects.antt =====
-- What the primitives of the data stack are to do, as a relation between the stack before and after
-- (top first), and that the C functions do it.
use Prim.Native.Nat.{bit_and, bit_or, bit_xor}
use vector_forth_kernel.Base.{
  ap, ℕ, ◌-◌, ◌*◌, ◌/◌, ◌%◌, ◌^◌, ◌≤◌, ◌<◌, ◌≡◌, ◌≢◌, false, not, List, [], ◌∷◌, arith, length,
  if◌then◌else◌, ◌==◌, ne→not-==, le→not-ltb, suc,
}
use vector_forth_kernel.Base.Int.{pos, negsuc, abs, neg, ltb_ℤ, quot, rem}
use vector_forth_kernel.Base.Word.{two64, u64_max, add64, sub64, to_i64, of_i64}
use vector_forth_kernel.Vm.Effect.{
  Effect, pop_then, push_then, push_as, push, done_lem, peek_then, pick_then, depth_then,
}
use vector_forth_kernel.Vm.Words.Arith.{overflows}
use vector_forth_kernel.Vm.Words.Logic.{flag}
use vector_forth_kernel.Vm.Words.Patterns.{
  ◌+ℤ◌, floor_half, add64_lem, sub64_lem, negate_lem, abs_lem, half_lem, double_lem, invert_lem,
}
use vector_forth_kernel.Vm.Words.StackWord.{StackWord, run_stack_word}

-- Arithmetic is that of the signed integers, wrapped to 64 bits; `0 ≤ n < 64` for a shift.
pub data Spec : StackWord → List ℕ → List ℕ → Type 0 where
  dup : {a : ℕ} {xs : List ℕ} → Spec StackWord.dup (a ∷ xs) (a ∷ a ∷ xs)
  drop : {a : ℕ} {xs : List ℕ} → Spec StackWord.drop (a ∷ xs) (xs)
  swap : {a b : ℕ} {xs : List ℕ} → Spec StackWord.swap (b ∷ a ∷ xs) (a ∷ b ∷ xs)
  over : {a b : ℕ} {xs : List ℕ} → Spec StackWord.over (b ∷ a ∷ xs) (a ∷ b ∷ a ∷ xs)
  rot : {a b c : ℕ} {xs : List ℕ} → Spec StackWord.rot (c ∷ b ∷ a ∷ xs) (a ∷ c ∷ b ∷ xs)
  nip : {a b : ℕ} {xs : List ℕ} → Spec StackWord.nip (b ∷ a ∷ xs) (b ∷ xs)
  tuck : {a b : ℕ} {xs : List ℕ} → Spec StackWord.tuck (b ∷ a ∷ xs) (b ∷ a ∷ b ∷ xs)
  two_dup : {a b : ℕ} {xs : List ℕ} → Spec StackWord.two_dup (b ∷ a ∷ xs) (b ∷ a ∷ b ∷ a ∷ xs)
  two_drop : {a b : ℕ} {xs : List ℕ} → Spec StackWord.two_drop (b ∷ a ∷ xs) (xs)
  two_swap :
      {a b c d : ℕ} {xs : List ℕ}
      → Spec StackWord.two_swap (d ∷ c ∷ b ∷ a ∷ xs) (b ∷ a ∷ d ∷ c ∷ xs)
  qdup : {a : ℕ} {xs : List ℕ} → (a ≢ 0) → Spec StackWord.qdup (a ∷ xs) (a ∷ a ∷ xs)
  qdup_zero : {xs : List ℕ} → Spec StackWord.qdup (0 ∷ xs) (0 ∷ xs)
  depth : {xs : List ℕ} → Spec StackWord.depth (xs) (length xs ∷ xs)
  vdup : {a : ℕ} {xs : List ℕ} → Spec StackWord.vdup (a ∷ xs) (a ∷ a ∷ xs)
  vplus :
      {a b c d : ℕ} {xs : List ℕ}
      → Spec StackWord.vplus (d ∷ c ∷ b ∷ a ∷ xs) (add64 b d ∷ add64 a c ∷ xs)
  plus :
      {a b : ℕ} {xs : List ℕ}
      → Spec StackWord.plus (b ∷ a ∷ xs) (of_i64 (◌+ℤ◌ (to_i64 a) (to_i64 b)) ∷ xs)
  minus :
      {a b : ℕ} {xs : List ℕ}
      → Spec StackWord.minus (b ∷ a ∷ xs) (of_i64 (◌+ℤ◌ (to_i64 a) (neg (to_i64 b))) ∷ xs)
  mul : {a b : ℕ} {xs : List ℕ} → Spec StackWord.mul (b ∷ a ∷ xs) ((a * b % two64) ∷ xs)
  div :
      {a b : ℕ} {xs : List ℕ}
      → (b ≢ 0)
      → (overflows a b ≡ false)
      → Spec StackWord.div (b ∷ a ∷ xs) (of_i64 (quot (to_i64 a) (to_i64 b)) ∷ xs)
  modulo :
      {a b : ℕ} {xs : List ℕ}
      → (b ≢ 0)
      → (overflows a b ≡ false)
      → Spec StackWord.modulo (b ∷ a ∷ xs) (of_i64 (rem (to_i64 a) (to_i64 b)) ∷ xs)
  divmod :
      {a b : ℕ} {xs : List ℕ}
      → (b ≢ 0)
      → (overflows a b ≡ false)
      → Spec StackWord.divmod
          (b ∷ a ∷ xs)
          (of_i64 (quot (to_i64 a) (to_i64 b)) ∷ of_i64 (rem (to_i64 a) (to_i64 b)) ∷ xs)
  negate : {a : ℕ} {xs : List ℕ} → Spec StackWord.negate (a ∷ xs) (of_i64 (neg (to_i64 a)) ∷ xs)
  absolute :
      {a : ℕ} {xs : List ℕ} → Spec StackWord.abs (a ∷ xs) (of_i64 (pos (abs (to_i64 a))) ∷ xs)
  min :
      {a b : ℕ} {xs : List ℕ}
      → Spec StackWord.min (b ∷ a ∷ xs) ((if ltb_ℤ (to_i64 a) (to_i64 b) then a else b) ∷ xs)
  max :
      {a b : ℕ} {xs : List ℕ}
      → Spec StackWord.max (b ∷ a ∷ xs) ((if ltb_ℤ (to_i64 b) (to_i64 a) then a else b) ∷ xs)
  one_plus :
      {a : ℕ} {xs : List ℕ}
      → Spec StackWord.one_plus (a ∷ xs) (of_i64 (◌+ℤ◌ (to_i64 a) (pos 1)) ∷ xs)
  one_minus :
      {a : ℕ} {xs : List ℕ}
      → Spec StackWord.one_minus (a ∷ xs) (of_i64 (◌+ℤ◌ (to_i64 a) (negsuc 0)) ∷ xs)
  two_star :
      {a : ℕ} {xs : List ℕ}
      → Spec StackWord.two_star (a ∷ xs) (of_i64 (◌+ℤ◌ (to_i64 a) (to_i64 a)) ∷ xs)
  two_slash :
      {a : ℕ} {xs : List ℕ}
      → Spec StackWord.two_slash (a ∷ xs) (of_i64 (floor_half (to_i64 a)) ∷ xs)
  and_bits : {a b : ℕ} {xs : List ℕ} → Spec StackWord.bit_and (b ∷ a ∷ xs) (bit_and a b ∷ xs)
  or_bits : {a b : ℕ} {xs : List ℕ} → Spec StackWord.bit_or (b ∷ a ∷ xs) (bit_or a b ∷ xs)
  xor_bits : {a b : ℕ} {xs : List ℕ} → Spec StackWord.bit_xor (b ∷ a ∷ xs) (bit_xor a b ∷ xs)
  invert :
      {a : ℕ} {xs : List ℕ}
      → Spec StackWord.invert (a ∷ xs) (of_i64 (◌+ℤ◌ (neg (to_i64 a)) (negsuc 0)) ∷ xs)
  lshift :
      {a n : ℕ} {xs : List ℕ}
      → (n < 64)
      → Spec StackWord.lshift (n ∷ a ∷ xs) ((a * 2 ^ n % two64) ∷ xs)
  rshift :
      {a n : ℕ} {xs : List ℕ} → (n < 64) → Spec StackWord.rshift (n ∷ a ∷ xs) ((a / 2 ^ n) ∷ xs)
  eq : {a b : ℕ} {xs : List ℕ} → Spec StackWord.eq (b ∷ a ∷ xs) (flag (a == b) ∷ xs)
  neq : {a b : ℕ} {xs : List ℕ} → Spec StackWord.neq (b ∷ a ∷ xs) (flag (not (a == b)) ∷ xs)
  lt :
      {a b : ℕ} {xs : List ℕ}
      → Spec StackWord.lt (b ∷ a ∷ xs) (flag (ltb_ℤ (to_i64 a) (to_i64 b)) ∷ xs)
  gt :
      {a b : ℕ} {xs : List ℕ}
      → Spec StackWord.gt (b ∷ a ∷ xs) (flag (ltb_ℤ (to_i64 b) (to_i64 a)) ∷ xs)
  le :
      {a b : ℕ} {xs : List ℕ}
      → Spec StackWord.le (b ∷ a ∷ xs) (flag (not (ltb_ℤ (to_i64 b) (to_i64 a))) ∷ xs)
  ge :
      {a b : ℕ} {xs : List ℕ}
      → Spec StackWord.ge (b ∷ a ∷ xs) (flag (not (ltb_ℤ (to_i64 a) (to_i64 b))) ∷ xs)
  zero_eq : {a : ℕ} {xs : List ℕ} → Spec StackWord.zero_eq (a ∷ xs) (flag (a == 0) ∷ xs)
  zero_lt :
      {a : ℕ} {xs : List ℕ} → Spec StackWord.zero_lt (a ∷ xs) (flag (ltb_ℤ (to_i64 a) (pos 0)) ∷ xs)
  zero_gt :
      {a : ℕ} {xs : List ℕ} → Spec StackWord.zero_gt (a ∷ xs) (flag (ltb_ℤ (pos 0) (to_i64 a)) ∷ xs)

-- Every cell is a 64-bit pattern.
abbrev pub IsWords : List ℕ → Type 0
IsWords [] = Unit {0}
IsWords (x ∷ xs) = (x < two64) × IsWords xs

shifts : (f : ℕ → ℕ) (n : ℕ) → n < 64 → f (n % 64) ≡ f n
shifts f n h = ap f (omega arith)

-- From 64-bit cells that `Spec` relates (so without a division by zero, an overflow of a division or a
-- shift by 64 or more) and with room for the results, each of these C functions returns, leaves the
-- results of `Spec` in place of the operands and the rest of the stack below, and changes nothing else
-- of the machine.
pub run_stack_word-Spec :
    {p : StackWord} {xs ys : List ℕ} (rs : List ℕ)
    → Spec p xs ys
    → length ys ≤ 256
    → IsWords xs
    → Effect (run_stack_word p) xs rs ys rs
unfolding run_stack_word
run_stack_word-Spec rs (dup {a}) room w = peek_then _ a (push a (omega arith))
run_stack_word-Spec rs (drop {a}) room w = pop_then _ a (done_lem)
run_stack_word-Spec rs (swap {a} {b}) room w =
    pop_then _ b (pop_then _ a (push_then b (omega arith) (push a (omega arith))))
run_stack_word-Spec rs (over {a} {b}) room w = pick_then _ 1 (omega arith) (push a (omega arith))
run_stack_word-Spec rs (rot {a} {b} {c}) room w = pop_then _ c (
    pop_then _ b
      (pop_then _ a (push_then b (omega arith) (push_then c (omega arith) (push a (omega arith))))))
run_stack_word-Spec rs (nip {a} {b}) room w = pop_then _ b (pop_then _ a (push b (omega arith)))
run_stack_word-Spec rs (tuck {a} {b}) room w =
    pop_then _ b
      (pop_then _ a (push_then b (omega arith) (push_then a (omega arith) (push b (omega arith)))))
run_stack_word-Spec rs (two_dup {a} {b}) room w =
    peek_then _ b (pick_then _ 1 (omega arith) (push_then a (omega arith) (push b (omega arith))))
run_stack_word-Spec rs (two_drop {a} {b}) room w = pop_then _ b (pop_then _ a (done_lem))
run_stack_word-Spec rs (two_swap {a} {b} {c} {d}) room w = pop_then _ d (
    pop_then _ c (
      pop_then _ b (
        pop_then _ a (
          push_then c (omega arith)
            (push_then d (omega arith) (push_then a (omega arith) (push b (omega arith))))))))
run_stack_word-Spec rs (qdup {a} nz) room w =
    peek_then _ a (rw (ne→not-== a 0 nz) (push a (omega arith)))
run_stack_word-Spec rs qdup_zero room w = peek_then _ 0 done_lem
run_stack_word-Spec rs (depth {xs}) room w = depth_then _ (push (length xs) (omega arith))
run_stack_word-Spec rs (vdup {a} {xs}) room w = depth_then _ (
    rw (le→not-ltb (suc (length xs)) 1 (omega arith))
      (pop_then _ a (push_then a (omega arith) (push a (omega arith)))))
run_stack_word-Spec rs (vplus {a} {b} {c} {d} {xs}) room w = depth_then _ (
    rw (le→not-ltb (suc (suc (suc (suc (length xs))))) 4 (omega arith)) (
      pop_then _ d (
        pop_then _ c (
          pop_then _ b (
            pop_then _ a (push_then (add64 a c) (omega arith) (push (add64 b d) (omega arith))))))))
run_stack_word-Spec rs (plus {a} {b}) room w =
    pop_then _ b (pop_then _ a (push_as (add64 a b) _ (add64_lem a b w.1.0 w.0) (omega arith)))
run_stack_word-Spec rs (minus {a} {b}) room w =
    pop_then _ b (pop_then _ a (push_as (sub64 a b) _ (sub64_lem a b w.1.0 w.0) (omega arith)))
run_stack_word-Spec rs (mul {a} {b}) room w =
    pop_then _ b (pop_then _ a (push (a * b % two64) (omega arith)))
run_stack_word-Spec rs (div {a} {b} nz fits) room w = pop_then _ b (
    rw (ne→not-== b 0 nz)
      (pop_then _ a (rw fits (push (of_i64 (quot (to_i64 a) (to_i64 b))) (omega arith)))))
run_stack_word-Spec rs (modulo {a} {b} nz fits) room w = pop_then _ b (
    rw (ne→not-== b 0 nz)
      (pop_then _ a (rw fits (push (of_i64 (rem (to_i64 a) (to_i64 b))) (omega arith)))))
run_stack_word-Spec rs (divmod {a} {b} nz fits) room w = pop_then _ b (
    rw (ne→not-== b 0 nz) (
      pop_then _ a (
        rw fits (
          push_then (of_i64 (rem (to_i64 a) (to_i64 b))) (omega arith)
            (push (of_i64 (quot (to_i64 a) (to_i64 b))) (omega arith))))))
run_stack_word-Spec rs (negate {a}) room w =
    pop_then _ a (push_as (sub64 0 a) _ (negate_lem a w.0) (omega arith))
run_stack_word-Spec rs (absolute {a}) room w =
    pop_then _ a (push_as _ _ (abs_lem a w.0) (omega arith))
run_stack_word-Spec rs (min {a} {b}) room w = pop_then _ b (pop_then _ a (push _ (omega arith)))
run_stack_word-Spec rs (max {a} {b}) room w = pop_then _ b (pop_then _ a (push _ (omega arith)))
run_stack_word-Spec rs (one_plus {a}) room w =
    pop_then _ a (push_as (add64 a 1) _ (add64_lem a 1 w.0 (omega arith)) (omega arith))
run_stack_word-Spec rs (one_minus {a}) room w =
    pop_then _ a (push_as (sub64 a 1) _ (sub64_lem a 1 w.0 (omega arith)) (omega arith))
run_stack_word-Spec rs (two_star {a}) room w =
    pop_then _ a (push_as (a * 2 % two64) _ (double_lem a w.0) (omega arith))
run_stack_word-Spec rs (two_slash {a}) room w =
    pop_then _ a (push_as _ _ (half_lem a w.0) (omega arith))
run_stack_word-Spec rs (and_bits {a} {b}) room w =
    pop_then _ b (pop_then _ a (push _ (omega arith)))
run_stack_word-Spec rs (or_bits {a} {b}) room w = pop_then _ b (pop_then _ a (push _ (omega arith)))
run_stack_word-Spec rs (xor_bits {a} {b}) room w =
    pop_then _ b (pop_then _ a (push _ (omega arith)))
run_stack_word-Spec rs (invert {a}) room w =
    pop_then _ a (push_as (u64_max - a) _ (invert_lem a w.0) (omega arith))
run_stack_word-Spec rs (lshift {a} {n} small) room w = pop_then _ n (
    pop_then _ a (
      push_as (a * 2 ^ (n % 64) % two64) _ (shifts (λ k. a * 2 ^ k % two64) n small) (omega arith)))
run_stack_word-Spec rs (rshift {a} {n} small) room w =
    pop_then _ n
      (pop_then _ a (push_as (a / 2 ^ (n % 64)) _ (shifts (λ k. a / 2 ^ k) n small) (omega arith)))
run_stack_word-Spec rs (eq {a} {b}) room w = pop_then _ b (pop_then _ a (push _ (omega arith)))
run_stack_word-Spec rs (neq {a} {b}) room w = pop_then _ b (pop_then _ a (push _ (omega arith)))
run_stack_word-Spec rs (lt {a} {b}) room w = pop_then _ b (pop_then _ a (push _ (omega arith)))
run_stack_word-Spec rs (gt {a} {b}) room w = pop_then _ b (pop_then _ a (push _ (omega arith)))
run_stack_word-Spec rs (le {a} {b}) room w = pop_then _ b (pop_then _ a (push _ (omega arith)))
run_stack_word-Spec rs (ge {a} {b}) room w = pop_then _ b (pop_then _ a (push _ (omega arith)))
run_stack_word-Spec rs (zero_eq {a}) room w = pop_then _ a (push _ (omega arith))
run_stack_word-Spec rs (zero_lt {a}) room w = pop_then _ a (push _ (omega arith))
run_stack_word-Spec rs (zero_gt {a}) room w = pop_then _ a (push _ (omega arith))
