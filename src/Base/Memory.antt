-- ===== src/Base/Memory.antt =====
-- Byte memory with little-endian 64-bit cells, as the processor accesses it. Memory is total:
-- page faults are not modelled, nor an access that straddles the top of the address space.
use Prim.Native.Nat.{ℕ, zero, suc, ◌+◌, ◌-◌, ◌*◌, ◌/◌, ◌%◌, ◌^◌, ◌≤◌, ◌<◌}
use mathlib.Core.Path.{◌≡◌, refl, ◌∙◌}
use mathlib.Core.Logic.{◌⊎◌, ◌≢◌}
use mathlib.Core.Bool.{◌&&◌}
use mathlib.Core.List.{List, [], ◌∷◌}
use native.Mathlib.Omega.{arith}
use vector_forth_kernel.Base.Tests.{ltb, leb, ◌==◌, if◌then◌else◌, le→leb, lt→ltb}
use vector_forth_kernel.Base.Word.{two64}
use vector_forth_kernel.Base.Lists.{length, get_or}

abbrev pub Mem : Type 0
Mem = ℕ → ℕ

unfoldable pub load8 : Mem → ℕ → ℕ
load8 m a = m a % 256

unfoldable pub store8 : Mem → ℕ → ℕ → Mem
store8 m a v x = if x == a then v % 256 else m x

-- The byte of `v` that a 64-bit store puts `i` bytes behind its address.
abbrev pub byte_of : ℕ → ℕ → ℕ
byte_of v i = v / 256 ^ i % 256

unfoldable pub load64 : Mem → ℕ → ℕ
unfolding load8
load64 m a =
    load8 m a
    + 0x100 * load8 m (a + 1)
    + 0x1_0000 * load8 m (a + 2)
    + 0x100_0000 * load8 m (a + 3)
    + 0x1_0000_0000 * load8 m (a + 4)
    + 0x100_0000_0000 * load8 m (a + 5)
    + 0x1_0000_0000_0000 * load8 m (a + 6)
    + 0x100_0000_0000_0000 * load8 m (a + 7)

unfoldable pub store64 : Mem → ℕ → ℕ → Mem
store64 m a v x = if leb a x && ltb x (a + 8) then byte_of v (x - a) else m x

-- Copies a list of bytes to consecutive addresses (`memcpy` from another object).
unfoldable pub store_bytes : Mem → ℕ → List ℕ → Mem
unfolding store8
store_bytes m a [] = m
store_bytes m a (b ∷ bs) = store_bytes (store8 m a b) (a + 1) bs

pub load8-lt : (m : Mem) (a : ℕ) → load8 m a < 256
unfolding load8
load8-lt m a = omega arith

pub load64-lt : (m : Mem) (a : ℕ) → load64 m a < two64
unfolding load64
load64-lt m a = omega arith

-- A byte written by `store64`.
pub load8-store64_in : (m : Mem) (a v i : ℕ) → i < 8 → load8 (store64 m a v) (a + i) ≡ byte_of v i
unfolding load8 store64
load8-store64_in m a v i h =
    rw (le→leb a (a + i) (omega arith), lt→ltb (a + i) (a + 8) (omega arith))
      (let e : a + i - a ≡ i = omega arith in rw e (omega arith))

pub load8-store64_out :
    (m : Mem) (a v x : ℕ) → (x < a) ⊎ (a + 8 ≤ x) → load8 (store64 m a v) x ≡ load8 m x
unfolding load8 store64
load8-store64_out m a v x h = ground arith

pub load64-store64_self : (m : Mem) (a v : ℕ) → v < two64 → load64 (store64 m a v) a ≡ v
load64-store64_self m a v h =
    unfold load64 in
    ground (
      arith,
      load8-store64_in m a v 0,
      load8-store64_in m a v 1,
      load8-store64_in m a v 2,
      load8-store64_in m a v 3,
      load8-store64_in m a v 4,
      load8-store64_in m a v 5,
      load8-store64_in m a v 6,
      load8-store64_in m a v 7,
    )

pub load64-store64_out :
    (m : Mem) (a v x : ℕ) → (x + 8 ≤ a) ⊎ (a + 8 ≤ x) → load64 (store64 m a v) x ≡ load64 m x
load64-store64_out m a v x h =
    unfold load64 in
    ground (
      arith,
      load8-store64_out m a v x,
      load8-store64_out m a v (x + 1),
      load8-store64_out m a v (x + 2),
      load8-store64_out m a v (x + 3),
      load8-store64_out m a v (x + 4),
      load8-store64_out m a v (x + 5),
      load8-store64_out m a v (x + 6),
      load8-store64_out m a v (x + 7),
    )

pub load8-store8_self : (m : Mem) (a v : ℕ) → load8 (store8 m a v) a ≡ v % 256
unfolding load8 store8
load8-store8_self m a v = ground arith

pub load8-store8_ne : (m : Mem) (a v x : ℕ) → x ≢ a → load8 (store8 m a v) x ≡ load8 m x
unfolding load8 store8
load8-store8_ne m a v x h = ground arith

-- Two memories that agree on the eight bytes of a cell give the same cell.
pub load64_ext :
    (m g : Mem) (a : ℕ)
    → ((i : ℕ) → i < 8 → load8 m (a + i) ≡ load8 g (a + i))
    → load64 m a ≡ load64 g a
unfolding load64
load64_ext m g a h = ground (arith, h 0, h 1, h 2, h 3, h 4, h 5, h 6, h 7)

pub load8-store_bytes_out :
    (m : Mem) (a : ℕ) (bs : List ℕ) (x : ℕ)
    → (x < a) ⊎ (a + length bs ≤ x)
    → load8 (store_bytes m a bs) x ≡ load8 m x
unfolding store_bytes
load8-store_bytes_out m a [] x h = refl
load8-store_bytes_out m a (b ∷ bs) x h =
    load8-store_bytes_out (store8 m a b) (a + 1) bs x (omega arith)
    ∙ load8-store8_ne m a b x (omega arith)

pub load8-store_bytes_in :
    (m : Mem) (a : ℕ) (bs : List ℕ) (i : ℕ)
    → i < length bs
    → load8 (store_bytes m a bs) (a + i) ≡ get_or bs i 0 % 256
unfolding store_bytes
load8-store_bytes_in m a [] i h = absurd (omega arith)
load8-store_bytes_in m a (b ∷ bs) zero h =
    let e : a + 0 ≡ a = omega arith in
    rw e (load8-store_bytes_out (store8 m a b) (a + 1) bs a (omega arith) ∙ load8-store8_self m a b)
load8-store_bytes_in m a (b ∷ bs) (suc i) h =
    let e : a + suc i ≡ a + 1 + i = omega arith in
    rw e (load8-store_bytes_in (store8 m a b) (a + 1) bs i (omega arith))
