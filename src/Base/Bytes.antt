-- ===== src/Base/Bytes.antt =====
-- Facts about the bits of a byte, by checking every value.
use Prim.Native.Nat.{ℕ, zero, suc, ◌+◌, ◌*◌, ◌/◌, ◌%◌, ◌<◌, bit_and, bit_or, bit_xor}
use mathlib.Core.Path.{◌≡◌, refl}
use mathlib.Core.Bool.{Bool, true, ◌&&◌}
use native.Mathlib.Omega.{arith}
use vector_forth_kernel.Base.Tests.{◌==◌, ==→eq}

-- A test that every number below a bound passes.
unfoldable pub every_below : (bound : ℕ) (test : ℕ → Bool) → Bool
every_below zero test = true
every_below (suc bound) test = every_below bound test && test bound

pub below_every :
    (bound : ℕ) (test : ℕ → Bool) (k : ℕ)
    → every_below bound test ≡ true
    → k < bound
    → test k ≡ true
unfolding every_below
below_every zero test k passed small = absurd (omega arith)
below_every (suc bound) test k passed small = ground (arith, below_every bound test k, passed)

-- An equation between two functions of a byte holds if it holds at every value.
pub byte_table :
    (n : ℕ) (f g : ℕ → ℕ) → every_below n (λ x. f x == g x) ≡ true → (x : ℕ) → x < n → f x ≡ g x
byte_table n f g h x lt = ==→eq _ _ (below_every n (λ y. f y == g y) x h lt)

pub low_five : (x : ℕ) → x < 256 → bit_and x 0x1f ≡ x % 32
unfolding every_below
low_five = byte_table 256 (λ x. bit_and x 0x1f) (λ x. x % 32) refl

pub high_three : (x : ℕ) → x < 256 → bit_and x 0xe0 ≡ x / 32 * 32
unfolding every_below
high_three = byte_table 256 (λ x. bit_and x 0xe0) (λ x. x / 32 * 32) refl

-- Bit 6 of a byte.
pub bit_six : (x : ℕ) → x < 256 → bit_and x 0x40 ≡ x / 64 % 2 * 64
unfolding every_below
bit_six = byte_table 256 (λ x. bit_and x 0x40) (λ x. x / 64 % 2 * 64) refl

pub bit_seven : (x : ℕ) → x < 256 → bit_and x 0x80 ≡ x / 128 * 128
unfolding every_below
bit_seven = byte_table 256 (λ x. bit_and x 0x80) (λ x. x / 128 * 128) refl

pub low_seven : (x : ℕ) → x < 256 → bit_and x 0x7f ≡ x % 128
unfolding every_below
low_seven = byte_table 256 (λ x. bit_and x 0x7f) (λ x. x % 128) refl

pub clear_six : (x : ℕ) → x < 256 → bit_and x 0xbf + x / 64 % 2 * 64 ≡ x
unfolding every_below
clear_six = byte_table 256 (λ x. bit_and x 0xbf + x / 64 % 2 * 64) (λ x. x) refl

pub flip_seven : (x : ℕ) → x < 256 → bit_xor x 0x80 ≡ (x + 128) % 256
unfolding every_below
flip_seven = byte_table 256 (λ x. bit_xor x 0x80) (λ x. (x + 128) % 256) refl

-- Three high bits joined to five low ones.
join_table : every_below 256 (λ x. bit_or (x / 32 * 32) (x % 32) == x) ≡ true
unfolding every_below
join_table = refl

pub join_bits : (h l : ℕ) → h < 256 → h % 32 ≡ 0 → l < 32 → bit_or h l ≡ h + l
join_bits h l hh he hl =
    let e : (h + l) / 32 * 32 ≡ h = omega arith in
    let f : (h + l) % 32 ≡ l = omega arith in
    let t : bit_or ((h + l) / 32 * 32) ((h + l) % 32) ≡ h + l = ==→eq _ _ (
      below_every 256 (λ x. bit_or (x / 32 * 32) (x % 32) == x) (h + l) join_table (omega arith)) in
    rw (e, f) at t
