-- ===== src/Kernel/Heap/Zeroed.antt =====
-- `kcalloc` and `kmalloc_aligned`, which also write to the memory that they allocate.
use mathlib.Core.Path.{subst}
use Prim.Native.Nat.{bit_and}
use vector_forth_kernel.Base.{ℕ, ◌+◌, ◌-◌, ◌*◌, ◌<◌, ◌≡◌, sym, false, arith, ◌==◌, if◌then◌else◌}
use vector_forth_kernel.Base.Word.{two64, u64, add64, sub64}
use vector_forth_kernel.Base.Memory.{Mem, load8, store64}
use vector_forth_kernel.Utils.Strings.{memset}
use vector_forth_kernel.Utils.Strings.Blocks.{within, load8-memset}
use vector_forth_kernel.Kernel.Heap.{Heap, HeapRun, returned, panicked, wild, kmalloc}
use vector_forth_kernel.Kernel.Heap.Alloc.{IsHeap, Allocated, kmalloc-Allocated}

-- The pointer, the heap and memory.
abbrev pub HeapAndMemory : Type 0
HeapAndMemory = ℕ × Heap × Mem

unfoldable pub kcalloc : (count size : ℕ) → Heap → Mem → HeapRun HeapAndMemory
kcalloc count size h m =
    let total = u64 (count * size) in
    elim (kmalloc total h) [
      | panicked ↦ panicked
      | wild ↦ wild
      | returned (ptr, h') ↦ returned (ptr, h', if ptr == 0 then m else memset m ptr 0 total)
    ]

-- `addr & ~(alignment - 1)`
abbrev pub align_down : (alignment addr : ℕ) → ℕ
align_down alignment addr = bit_and addr (two64 - 1 - sub64 alignment 1)

unfoldable pub kmalloc_aligned : (size alignment : ℕ) → Heap → Mem → HeapRun HeapAndMemory
kmalloc_aligned size alignment h m = elim (kmalloc (u64 (size + alignment + 8)) h) [
  | panicked ↦ panicked
  | wild ↦ wild
  | returned (raw, h') ↦
      if raw == 0
      then returned (0, h', m)
      else (let addr = add64 raw 8 in
          let aligned = align_down alignment (sub64 (add64 addr alignment) 1) in
          returned (aligned, h', store64 m (sub64 aligned 8) raw))
]

-- Memory with zeros in the bytes of a new block and no other change.
abbrev pub Zeroed : (total : ℕ) → Heap → Mem → HeapRun HeapAndMemory → Type 0
Zeroed total h m panicked = Allocated h total panicked
Zeroed total h m wild = Allocated h total wild
Zeroed total h m (returned (ptr, h', m')) =
    Allocated h total (returned (ptr, h'))
    × ((x : ℕ) → load8 m' x ≡ (if within ptr total x then 0 else load8 m x))

module _ (total : ℕ) (h : Heap) (m : Mem) where
  -- The rest of `kcalloc`, given what `kmalloc` returns.
  zeroed : HeapRun (ℕ × Heap) → HeapRun HeapAndMemory
  zeroed panicked = panicked
  zeroed wild = wild
  zeroed (returned (ptr, h')) = returned (ptr, h', if ptr == 0 then m else memset m ptr 0 total)

  zeroed-Zeroed : (r : HeapRun (ℕ × Heap)) → Allocated h total r → Zeroed total h m (zeroed r)
  unfolding zeroed
  zeroed-Zeroed panicked a = a
  zeroed-Zeroed wild a = a
  zeroed-Zeroed (returned (ptr, h')) a =
      let (heap, unit, above, taken) = a in
      let there : (ptr == 0) ≡ false = ground arith in
      (a, λ x. rw there (load8-memset total m ptr 0 x (omega arith)))

fits : (n : ℕ) → n + 15 < two64 → u64 n ≡ n
fits n h = omega arith

-- For a well-formed heap and a product from 1 up to 2 ^ 64 - 16 `kcalloc` allocates like `kmalloc` of
-- the product; the bytes of the new block are then 0, as many as the product, and no other byte of
-- memory has changed.
pub kcalloc-Zeroed :
    (count size : ℕ) (h : Heap) (m : Mem)
    → IsHeap h
    → 0 < count * size
    → count * size + 15 < two64
    → Zeroed (count * size) h m (kcalloc count size h m)
unfolding kcalloc zeroed
kcalloc-Zeroed count size h m v lo hi =
    let whole : u64 (count * size) ≡ count * size = fits (count * size) hi in
    subst (λ n. Zeroed (count * size) h m (zeroed n h m (kmalloc n h))) (sym whole)
      (zeroed-Zeroed (count * size) h m (kmalloc (count * size) h)
        (kmalloc-Allocated (count * size) h v lo hi))
