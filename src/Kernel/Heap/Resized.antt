-- ===== src/Kernel/Heap/Resized.antt =====
-- `krealloc`, which moves the contents of a block to a larger one.
use vector_forth_kernel.Base.{ℕ, none, some, not, ◌==◌, leb, if◌then◌else◌}
use vector_forth_kernel.Base.Word.{sub64}
use vector_forth_kernel.Base.Memory.{Mem}
use vector_forth_kernel.Utils.Strings.{memcpy}
use vector_forth_kernel.Kernel.Heap.{
  Heap, HeapRun, returned, panicked, wild, heap_magic, heap_header_size, block_at, kmalloc, kfree,
}
use vector_forth_kernel.Kernel.Heap.Zeroed.{HeapAndMemory}

-- A pointer and the heap behind a call, with memory as it is.
abbrev with_memory : Mem → HeapRun (ℕ × Heap) → HeapRun HeapAndMemory
with_memory m (returned (ptr, h)) = returned (ptr, h, m)
with_memory m panicked = panicked
with_memory m wild = wild

-- `kfree(ptr)` and then `return result`
abbrev free_and_return : (ptr result : ℕ) → Heap → Mem → HeapRun HeapAndMemory
free_and_return ptr result h m = elim (kfree ptr h) [
  | returned h' ↦ returned (result, h', m)
  | panicked ↦ panicked
  | wild ↦ wild
]

-- What follows the `kmalloc` of `krealloc`.
unfoldable pub move_block : (ptr size : ℕ) → Mem → HeapRun (ℕ × Heap) → HeapRun HeapAndMemory
move_block ptr size m panicked = panicked
move_block ptr size m wild = wild
move_block ptr size m (returned (new_ptr, h)) =
    if new_ptr == 0
    then returned (new_ptr, h, m)
    else free_and_return ptr new_ptr h (memcpy m new_ptr ptr size)

unfoldable pub krealloc : (ptr new_size : ℕ) → Heap → Mem → HeapRun HeapAndMemory
krealloc ptr new_size h m =
    if ptr == 0
    then with_memory m (kmalloc new_size h)
    else if new_size == 0
    then free_and_return ptr 0 h m
    else (elim (block_at h.blocks (sub64 ptr heap_header_size)) [
      | none ↦ wild
      | some block ↦
          if not (block.magic == heap_magic)
          then panicked
          else if leb new_size block.size
          then returned (ptr, h, m)
          else move_block ptr block.size m (kmalloc new_size h)
    ])
