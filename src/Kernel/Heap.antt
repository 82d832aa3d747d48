-- ===== src/Kernel/Heap.antt =====
-- The kernel's heap, kernel/memory/heap.c. The headers, which the code links by `next` pointers, are a
-- list of blocks with their addresses. The contents of the blocks and of memory outside the headers
-- are not modelled here, so a call that reads a header where no block begins is `wild`.
pub mod Blocks
pub mod Alloc
pub mod Free
pub mod Zeroed
pub mod Resized
use vector_forth_kernel.Base.{
  ℕ, zero, suc, ◌+◌, ◌-◌, ◌*◌, ◌/◌, ◌%◌, Bool, true, false, not, ◌&&◌, Option, none, some, List, [],
  ◌∷◌, ◌==◌, ltb, leb, if◌then◌else◌,
}
use vector_forth_kernel.Base.Word.{u64, add64, sub64}

-- `heap_block_t`; the field `next` is the order of the list.
pub record Block : Type 0 where
  pub addr : ℕ
  pub size : ℕ
  pub magic : ℕ
  pub free : Bool

-- `heap_head` with the blocks behind it, `heap_end`, `heap_total` and `heap_used`
pub record Heap : Type 0 where
  pub blocks : List Block
  pub end : ℕ
  pub total : ℕ
  pub used : ℕ

-- How a call ends: normally, in `kernel_panic`, or by a read of what is not modelled.
pub data HeapRun (A : Type 0) : Type 0 where
  returned : A → HeapRun A
  panicked : HeapRun A
  wild : HeapRun A

abbrev pub heap_magic : ℕ
heap_magic = 0xdead_beef_cafe_babe

abbrev pub heap_header_size : ℕ
heap_header_size = 32

abbrev pub heap_min_block : ℕ
heap_min_block = 64

abbrev pub heap_virt_start : ℕ
heap_virt_start = 0xffff_8000_0030_0000

abbrev pub heap_initial_size : ℕ
heap_initial_size = 0x10_0000

unfoldable pub heap_init : Heap
heap_init = record {
  blocks =
      (record {
        addr = heap_virt_start;
        size = heap_initial_size - heap_header_size;
        magic = heap_magic;
        free = true;
      })
      ∷ [];
  end = heap_virt_start + heap_initial_size;
  total = heap_initial_size;
  used = 0;
}

-- `heap_split` of the block at the head of a list
unfoldable pub heap_split : Block → List Block → ℕ → List Block
heap_split block rest size =
    if leb block.size (add64 (add64 size heap_header_size) heap_min_block)
    then block ∷ rest
    else (let new_block : Block = record {
      addr = u64 (block.addr + heap_header_size + size);
      size = sub64 (sub64 block.size size) heap_header_size;
      magic = heap_magic;
      free = true;
    } in
        record block { size = size } ∷ new_block ∷ rest)

-- `block->free = 0; heap_used += block->size;` on the block at the head: the blocks, the header's address
-- and the size that is added.
unfoldable pub take_first : List Block → Option (List Block × ℕ × ℕ)
take_first [] = none
take_first (b ∷ bs) = some (record b { free = false } ∷ bs, b.addr, b.size)

-- The loop of `kmalloc` over the blocks.
unfoldable pub fit_loop : (size : ℕ) → List Block → Option (List Block × ℕ × ℕ)
unfolding take_first heap_split
fit_loop size [] = none
fit_loop size (b ∷ bs) =
    if not (b.magic == heap_magic)
    then none
    else if b.free && leb size b.size
    then take_first (heap_split b bs size)
    else (elim (fit_loop size bs) [
      | none ↦ none
      | some (rest, at, taken) ↦ some (b ∷ rest, at, taken)
    ])

-- `(size + 15) & ~15ULL`
abbrev pub round_up : ℕ → ℕ
round_up size = u64 (size + 15) / 16 * 16

unfoldable pub kmalloc : ℕ → Heap → HeapRun (ℕ × Heap)
kmalloc size h = if size == 0 then returned (0, h) else (elim (fit_loop (round_up size) h.blocks) [
  | none ↦ panicked
  | some (blocks, at, taken) ↦
      returned
        (u64 (at + heap_header_size), record h { blocks = blocks; used = add64 h.used taken })
])

-- The loop of `heap_coalesce` from a block on.
unfoldable pub coalesce_from : Block → List Block → List Block
coalesce_from b [] = b ∷ []
coalesce_from b (c ∷ cs) =
    if b.free && c.free
    then coalesce_from (record b { size = add64 b.size (heap_header_size + c.size) }) cs
    else b ∷ coalesce_from c cs

unfoldable pub heap_coalesce : List Block → List Block
heap_coalesce [] = []
heap_coalesce (b ∷ bs) = coalesce_from b bs

-- The block whose header is at an address, and the list with that block's `free` set.
unfoldable pub block_at : List Block → ℕ → Option Block
block_at [] a = none
block_at (b ∷ bs) a = if b.addr == a then some b else block_at bs a

unfoldable pub set_free : List Block → ℕ → List Block
set_free [] a = []
set_free (b ∷ bs) a = if b.addr == a then record b { free = true } ∷ bs else b ∷ set_free bs a

unfoldable pub kfree : ℕ → Heap → HeapRun Heap
kfree ptr h =
    if ptr == 0 then returned h else (elim (block_at h.blocks (sub64 ptr heap_header_size)) [
      | none ↦ wild
      | some block ↦
          if not (block.magic == heap_magic)
          then panicked
          else if block.free
          then returned h
          else returned (record h {
            blocks = heap_coalesce (set_free h.blocks (sub64 ptr heap_header_size));
            used = sub64 h.used block.size;
          })
    ])

pub heap_get_free : Heap → ℕ
heap_get_free h = sub64 h.total h.used
