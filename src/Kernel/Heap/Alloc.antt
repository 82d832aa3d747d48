-- ===== src/Kernel/Heap/Alloc.antt =====
-- What `kmalloc` and `kfree` of kernel/memory/heap.c promise.
use mathlib.Core.Path.{subst}
use vector_forth_kernel.Base.{
  ℕ, ◌+◌, ◌-◌, ◌%◌, ◌≤◌, ◌<◌, ◌≡◌, inl, inr, refl, sym, Bool, true, false, ◌&&◌, ◌||◌, Option, none,
  some, List, [], ◌∷◌, arith, ◌==◌, leb, if◌then◌else◌, Bool-cases, Option-cases, ne→not-==,
}
use vector_forth_kernel.Base.Word.{two64, u64, add64, sub64}
use vector_forth_kernel.Kernel.Heap.{
  Block, Heap, HeapRun, returned, panicked, wild, heap_magic, heap_header_size, heap_min_block,
  heap_split, take_first, fit_loop, round_up, kmalloc, heap_init, heap_virt_start,
}
use vector_forth_kernel.Kernel.Heap.Blocks.{
  Tiled, allocated, used_bytes, allocated-below, used_bytes-le,
}

-- A block of at least `size` bytes at `at` was taken out of the free ones.
record Took (size lo hi : ℕ) (bs bs' : List Block) (at taken : ℕ) : Type 0 where
  tiled : Tiled lo hi bs'
  above : lo ≤ at
  aligned : lo % 16 ≡ 0 → at % 16 ≡ 0
  below : at + heap_header_size + taken ≤ hi
  enough : size ≤ taken
  fresh : allocated bs at ≡ none
  after : (a : ℕ) → allocated bs' a ≡ (if at == a then some taken else allocated bs a)
  used : used_bytes bs' ≡ used_bytes bs + taken

-- The block is not split.
take_whole :
    (size lo hi : ℕ) (b : Block) (bs : List Block)
    → b.free ≡ true
    → size ≤ b.size
    → Tiled lo hi (b ∷ bs)
    → Took size lo hi (b ∷ bs) (record b { free = false } ∷ bs) b.addr b.size
unfolding allocated used_bytes
take_whole size lo hi b bs f l t =
    let at = t.0 in
    let within = t.3 in
    record {
      tiled = (t.0, t.1, t.2, t.3, t.4);
      above = omega arith;
      aligned = λ m. omega arith;
      below = omega arith;
      enough = l;
      fresh =
          rw (f, allocated-below bs (lo + heap_header_size + b.size) hi b.addr t.4 (omega arith))
            (ground arith);
      after = λ a. rw f (ground arith);
      used = rw f (ground arith);
    }

-- The block is split in two, the second of them free.
take_part :
    (size lo hi : ℕ) (b : Block) (bs : List Block)
    → b.free ≡ true
    → hi < two64
    → size % 16 ≡ 0
    → size + heap_header_size + heap_min_block < b.size
    → Tiled lo hi (b ∷ bs)
    → Took size lo hi
        (b ∷ bs)
        (record b { size = size; free = false }
          ∷ (record {
            addr = u64 (b.addr + heap_header_size + size);
            size = sub64 (sub64 b.size size) heap_header_size;
            magic = heap_magic;
            free = true;
          })
          ∷ bs)
        b.addr
        size
unfolding allocated used_bytes
take_part size lo hi b bs f h units l t =
    let at = t.0 in
    let within = t.3 in
    let unit = t.2 in
    let addr : u64 (b.addr + heap_header_size + size) ≡ lo + heap_header_size + size =
      omega arith in
    let left : sub64 (sub64 b.size size) heap_header_size ≡ b.size - size - heap_header_size =
      omega arith in
    let to : lo + heap_header_size + b.size
        ≡ lo + heap_header_size + size + heap_header_size + (b.size - size - heap_header_size) =
      omega arith in
    rw (addr, left)
      (record {
        tiled = (at, t.1, units, omega arith, (refl, refl, omega arith, omega arith, rw to at t.4));
        above = omega arith;
        aligned = λ m. omega arith;
        below = omega arith;
        enough = omega arith;
        fresh =
            rw (f, allocated-below bs (lo + heap_header_size + b.size) hi b.addr t.4 (omega arith))
              (ground arith);
        after = λ a. rw f (ground arith);
        used = rw f (ground arith);
      })

-- Some free block has room.
abbrev pub any_fit : ℕ → List Block → Bool
any_fit size [] = false
any_fit size (b ∷ bs) = (b.free && leb size b.size) || any_fit size bs

-- What the walk over the blocks answers.
abbrev Fitted : (size lo hi : ℕ) → List Block → Option (List Block × ℕ × ℕ) → Type 0
Fitted size lo hi bs none = any_fit size bs ≡ false
Fitted size lo hi bs (some (bs', at, taken)) = Took size lo hi bs bs' at taken

split-Fitted :
    (size lo hi : ℕ) (b : Block) (bs : List Block)
    → b.free ≡ true
    → size ≤ b.size
    → hi < two64
    → 64 ≤ lo
    → size % 16 ≡ 0
    → Tiled lo hi (b ∷ bs)
    → Fitted size lo hi (b ∷ bs) (take_first (heap_split b bs size))
unfolding take_first heap_split
split-Fitted size lo hi b bs f l h low units t =
    let within = t.3 in
    let sum : add64 (add64 size heap_header_size) heap_min_block
        ≡ size + heap_header_size + heap_min_block =
      omega arith in
    elim (Bool-cases (leb b.size (size + heap_header_size + heap_min_block))) [
      | inl e ↦ rw (sum, e) (take_whole size lo hi b bs f l t)
      | inr e ↦ rw (sum, e) (take_part size lo hi b bs f h units (ground (arith, e)) t)
    ]

-- A block that is passed over stays as it is.
skip_block :
    (size lo hi : ℕ) (b : Block) (bs bs' : List Block) (at taken : ℕ)
    → Tiled lo hi (b ∷ bs)
    → Took size (lo + heap_header_size + b.size) hi bs bs' at taken
    → Took size lo hi (b ∷ bs) (b ∷ bs') at taken
unfolding allocated used_bytes
skip_block size lo hi b bs bs' at taken t x =
    let from = t.0 in
    let above = x.above in
    let unit = t.2 in
    let used = x.used in
    let apart : (b.addr == at) ≡ false = ne→not-== b.addr at (λ e. omega arith) in
    record {
      tiled = (t.0, t.1, t.2, t.3, x.tiled);
      above = omega arith;
      aligned = λ m. x.aligned (omega arith);
      below = x.below;
      enough = x.enough;
      fresh = rw apart x.fresh;
      after = λ a. rw (x.after a) (ground (arith, apart));
      used = omega arith;
    }

fit_loop-Fitted :
    (size lo hi : ℕ) (bs : List Block)
    → hi < two64
    → 64 ≤ lo
    → size % 16 ≡ 0
    → Tiled lo hi bs
    → Fitted size lo hi bs (fit_loop size bs)
unfolding fit_loop
fit_loop-Fitted size lo hi [] h low units t = refl
fit_loop-Fitted size lo hi (b ∷ bs) h low units t =
    let sound : (b.magic == heap_magic) ≡ true = rw t.1 in
    elim (Bool-cases (b.free && leb size b.size)) [
      | inl e ↦
          rw (sound, e)
            (split-Fitted size lo hi b bs (ground (arith, e)) (ground (arith, e)) h low units t)
      | inr e ↦
          let rest =
            fit_loop-Fitted size (lo + heap_header_size + b.size) hi bs h (omega arith) units t.4 in
          elim (Option-cases (fit_loop size bs)) [
            | inl none_fits ↦
                let nowhere : any_fit size bs ≡ false = rw none_fits at rest in
                rw (sound, e, none_fits, nowhere) (ground (arith, e))
            | inr ((bs', at, taken), found) ↦
                let there : Took size (lo + heap_header_size + b.size) hi bs bs' at taken =
                  rw found at rest in
                rw (sound, e, found) (skip_block size lo hi b bs bs' at taken t there)
          ]
    ]

-- The blocks fill the heap, and `heap_used` counts the bytes of the allocated ones.
pub record IsHeap (h : Heap) : Type 0 where
  pub tiled : Tiled heap_virt_start h.end h.blocks
  pub fits : h.end < two64
  pub counted : h.used ≡ used_bytes h.blocks

pub heap_init-IsHeap : IsHeap heap_init
unfolding heap_init used_bytes
heap_init-IsHeap = record {
  tiled = (refl, refl, refl, omega arith, refl);
  fits = omega arith;
  counted = refl;
}

-- What a caller of `kmalloc` may rely on.
abbrev pub Allocated : Heap → ℕ → HeapRun (ℕ × Heap) → Type 0
Allocated h size panicked = any_fit (round_up size) h.blocks ≡ false
Allocated h size wild = ⊥
Allocated h size (returned (ptr, t)) =
    IsHeap t
    × (ptr % 16 ≡ 0)
    × (heap_virt_start < ptr)
    × ((taken : ℕ) × (size ≤ taken)
        × (ptr + taken ≤ t.end)
        × (allocated h.blocks (ptr - heap_header_size) ≡ none)
        × ((a : ℕ)
            → allocated t.blocks a
              ≡ (if ptr - heap_header_size == a then some taken else allocated h.blocks a)))

kmalloc-none :
    (size : ℕ) (h : Heap)
    → 0 < size
    → fit_loop (round_up size) h.blocks ≡ none
    → kmalloc size h ≡ panicked
unfolding kmalloc
kmalloc-none size h pos e =
    let nonzero : (size == 0) ≡ false = ground arith in rw (kmalloc, nonzero, e)

kmalloc-some :
    (size : ℕ) (h : Heap) (bs : List Block) (at taken : ℕ)
    → 0 < size
    → fit_loop (round_up size) h.blocks ≡ some (bs, at, taken)
    → kmalloc size h
      ≡ returned (u64 (at + heap_header_size), record h { blocks = bs; used = add64 h.used taken })
unfolding kmalloc
kmalloc-some size h bs at taken pos e =
    let nonzero : (size == 0) ≡ false = ground arith in rw (kmalloc, nonzero, e)

-- For a well-formed heap and a size from 1 up to 2 ^ 64 - 16, `kmalloc` panics only if no free block
-- has the size rounded up to 16; otherwise it returns a pointer that is a multiple of 16, to at least
-- `size` bytes inside the heap, in a block that was not allocated; that block alone becomes allocated,
-- and the heap is well formed.
pub kmalloc-Allocated :
    (size : ℕ) (h : Heap)
    → IsHeap h
    → 0 < size
    → size + 15 < two64
    → Allocated h size (kmalloc size h)
kmalloc-Allocated size h v pos small =
    let fitted =
      fit_loop-Fitted (round_up size) heap_virt_start h.end h.blocks v.fits (omega arith)
        (omega arith) v.tiled in
    let fits = v.fits in
    let counted = v.counted in
    elim (Option-cases (fit_loop (round_up size) h.blocks)) [
      | inl e ↦ subst (λ r. Allocated h size r) (sym (kmalloc-none size h pos e)) (rw e at fitted)
      | inr ((bs, at, taken), e) ↦
          let took : Took (round_up size) heap_virt_start h.end h.blocks bs at taken =
            rw e at fitted in
          let above = took.above in
          let below = took.below in
          let enough = took.enough in
          let used = took.used in
          let unit = took.aligned refl in
          let most = used_bytes-le bs heap_virt_start h.end took.tiled in
          let ptr : u64 (at + heap_header_size) ≡ at + heap_header_size = omega arith in
          let back : at + heap_header_size - heap_header_size ≡ at = omega arith in
          subst (λ r. Allocated h size r) (sym (kmalloc-some size h bs at taken pos e))
            (rw ptr (
              record { tiled = took.tiled; fits = fits; counted = omega arith },
              omega arith,
              omega arith,
              (taken, omega arith, omega arith, rw back took.fresh, λ a. rw back (took.after a)),
            ))
    ]
