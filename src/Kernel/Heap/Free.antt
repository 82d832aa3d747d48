-- ===== src/Kernel/Heap/Free.antt =====
-- What `kfree` of kernel/memory/heap.c promises.
use vector_forth_kernel.Base.{
  ℕ, ◌+◌, ◌-◌, ◌≤◌, ◌<◌, ◌≡◌, inl, inr, ◌∙◌, true, false, none, some, List, [], ◌∷◌, arith, ◌==◌,
  if◌then◌else◌, Bool-cases, ==→eq,
}
use vector_forth_kernel.Base.Word.{two64, sub64}
use vector_forth_kernel.Kernel.Heap.{
  Block, Heap, returned, heap_magic, heap_header_size, heap_coalesce, block_at, set_free, kfree,
  heap_virt_start,
}
use vector_forth_kernel.Kernel.Heap.Blocks.{
  Tiled, allocated, used_bytes, allocated-below, used_bytes-le, Joined, heap_coalesce-Tiled,
  heap_coalesce-used, heap_coalesce-allocated, heap_coalesce-Joined,
}
use vector_forth_kernel.Kernel.Heap.Alloc.{IsHeap}

-- An allocated block is found at its address.
record Found (bs : List Block) (a size : ℕ) : Type 0 where
  block : Block
  at : block_at bs a ≡ some block
  sound : block.magic ≡ heap_magic
  held : block.free ≡ false
  sized : block.size ≡ size

-- The first block is the allocated one.
head_allocated :
    (b : Block) (bs : List Block) (lo hi a size : ℕ)
    → Tiled lo hi (b ∷ bs)
    → (b.addr == a) ≡ true
    → allocated (b ∷ bs) a ≡ some size
    → (b.free ≡ false) × (b.size ≡ size) × (allocated bs a ≡ none)
unfolding allocated
head_allocated b bs lo hi a size t at e =
    let here : a ≡ lo = ground (arith, at, t.0) in
    let below = allocated-below bs (lo + heap_header_size + b.size) hi a t.4 (omega arith) in
    elim (Bool-cases b.free) [
      | inl f ↦ let nothing : none ≡ some size = rw (at, f, below) at e in absurd cc
      | inr f ↦ let whole : some b.size ≡ some size = rw (at, f) at e in (f, cc, below)
    ]

allocated-Found :
    (bs : List Block) (lo hi a size : ℕ)
    → Tiled lo hi bs
    → allocated bs a ≡ some size
    → Found bs a size
unfolding allocated block_at
allocated-Found [] lo hi a size t e = absurd cc
allocated-Found (b ∷ bs) lo hi a size t e = elim (Bool-cases (b.addr == a)) [
  | inl at ↦
      let (f, sized, below) = head_allocated b bs lo hi a size t at e in
      record { block = b; at = rw at; sound = t.1; held = f; sized = sized }
  | inr away ↦
      let rest = allocated-Found bs (lo + heap_header_size + b.size) hi a size t.4 (rw away at e) in
      record {
        block = rest.block;
        at = rw away rest.at;
        sound = rest.sound;
        held = rest.held;
        sized = rest.sized;
      }
]

-- The block comes to be free.
record Freed (lo hi a size : ℕ) (bs bs' : List Block) : Type 0 where
  tiled : Tiled lo hi bs'
  after : (x : ℕ) → allocated bs' x ≡ (if a == x then none else allocated bs x)
  used : used_bytes bs' + size ≡ used_bytes bs

set_free-Freed :
    (bs : List Block) (lo hi a size : ℕ)
    → Tiled lo hi bs
    → allocated bs a ≡ some size
    → Freed lo hi a size bs (set_free bs a)
unfolding allocated used_bytes set_free
set_free-Freed [] lo hi a size t e = absurd cc
set_free-Freed (b ∷ bs) lo hi a size t e = elim (Bool-cases (b.addr == a)) [
  | inl at ↦
      let (f, sized, below) = head_allocated b bs lo hi a size t at e in
      let is : b.addr ≡ a = ==→eq b.addr a at in
      rw at (record {
        tiled = (t.0, t.1, t.2, t.3, t.4);
        after = λ x. elim (Bool-cases (a == x)) [
          | inl y ↦
              let same : a ≡ x = ==→eq a x y in
              let nothing : allocated bs x ≡ none = rw same at below in
              rw (y, nothing) (ground arith)
          | inr y ↦ let other : (b.addr == x) ≡ false = rw is y in rw (y, other)
        ];
        used = rw f (omega arith);
      })
  | inr away ↦
      let rest = set_free-Freed bs (lo + heap_header_size + b.size) hi a size t.4 (rw away at e) in
      rw away (record {
        tiled = (t.0, t.1, t.2, t.3, rest.tiled);
        after = λ x. rw (rest.after x) (ground (arith, away));
        used = omega (arith, rest.used);
      })
]

free_allocated :
    (ptr size : ℕ) (h : Heap)
    → 0 < ptr
    → Found h.blocks (sub64 ptr heap_header_size) size
    → kfree ptr h
      ≡ returned (record h {
        blocks = heap_coalesce (set_free h.blocks (sub64 ptr heap_header_size));
        used = sub64 h.used size;
      })
unfolding kfree
free_allocated ptr size h pos x =
    let nonzero : (ptr == 0) ≡ false = ground arith in
    let sound : (x.block.magic == heap_magic) ≡ true = rw x.sound in
    rw (kfree, nonzero, x.at, sound, x.held, x.sized)

-- For a well-formed heap and a pointer below 2 ^ 64 to an allocated block, `kfree` returns; that block alone is no
-- longer allocated, its bytes are no longer counted, the heap is well formed and no two
-- neighbouring blocks are both free.
pub kfree-frees :
    (ptr size : ℕ) (h : Heap)
    → IsHeap h
    → heap_header_size ≤ ptr
    → ptr < two64
    → allocated h.blocks (ptr - heap_header_size) ≡ some size
    → (t : Heap) × (kfree ptr h ≡ returned t)
      × IsHeap t
      × Joined t.blocks
      × (t.used + size ≡ h.used)
      × ((a : ℕ)
          → allocated t.blocks a
            ≡ (if ptr - heap_header_size == a then none else allocated h.blocks a))
kfree-frees ptr size h v low high e =
    let header : sub64 ptr heap_header_size ≡ ptr - heap_header_size = omega arith in
    let found : Found h.blocks (sub64 ptr heap_header_size) size =
      rw header
        (allocated-Found h.blocks heap_virt_start h.end (ptr - heap_header_size) size v.tiled e) in
    let freed =
      set_free-Freed h.blocks heap_virt_start h.end (ptr - heap_header_size) size v.tiled e in
    let fits = v.fits in
    let counted = v.counted in
    let most = used_bytes-le h.blocks heap_virt_start h.end v.tiled in
    let used = freed.used in
    let bs = set_free h.blocks (ptr - heap_header_size) in
    let joined = heap_coalesce-used bs in
    let run = free_allocated ptr size h (omega arith) found in
    (
      record h { blocks = heap_coalesce bs; used = sub64 h.used size },
      rw header at run,
      record {
        tiled = heap_coalesce-Tiled bs heap_virt_start h.end (omega arith) freed.tiled;
        fits = fits;
        counted = omega arith;
      },
      heap_coalesce-Joined bs,
      omega arith,
      λ a. heap_coalesce-allocated bs a ∙ freed.after a,
    )
