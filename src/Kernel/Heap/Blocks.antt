-- ===== src/Kernel/Heap/Blocks.antt =====
-- The shape of the heap's block list, and what splitting and joining blocks do to it.
use vector_forth_kernel.Base.{
  ℕ, ◌+◌, ◌%◌, ◌≤◌, ◌<◌, ◌≡◌, inl, inr, refl, Bool, false, not, ◌&&◌, Option, none, some, List, [],
  ◌∷◌, arith, ◌==◌, if◌then◌else◌, Bool-cases, ne→not-==,
}
use vector_forth_kernel.Base.Word.{two64, add64}
use vector_forth_kernel.Kernel.Heap.{
  Block, heap_magic, heap_header_size, coalesce_from, heap_coalesce,
}

-- The blocks lie one behind the other from `lo` to `hi`, with the magic number, in units of 16 bytes.
abbrev pub Tiled : (lo hi : ℕ) → List Block → Type 0
Tiled lo hi [] = lo ≡ hi
Tiled lo hi (b ∷ bs) =
    (b.addr ≡ lo)
    × (b.magic ≡ heap_magic)
    × (b.size % 16 ≡ 0)
    × (lo + heap_header_size + b.size ≤ hi)
    × Tiled (lo + heap_header_size + b.size) hi bs

-- The size of the allocated block whose header is at an address, if there is one.
unfoldable pub allocated : List Block → ℕ → Option ℕ
allocated [] a = none
allocated (b ∷ bs) a = if b.addr == a && not b.free then some b.size else allocated bs a

-- The bytes in allocated blocks.
unfoldable pub used_bytes : List Block → ℕ
used_bytes [] = 0
used_bytes (b ∷ bs) = (if b.free then 0 else b.size) + used_bytes bs

pub allocated-below :
    (bs : List Block) (lo hi a : ℕ) → Tiled lo hi bs → a < lo → allocated bs a ≡ none
unfolding allocated
allocated-below [] lo hi a t l = refl
allocated-below (b ∷ bs) lo hi a t l =
    let at = t.0 in
    let rest = allocated-below bs (lo + heap_header_size + b.size) hi a t.4 (omega arith) in
    rw (ne→not-== b.addr a (λ e. omega arith), rest)

pub used_bytes-le : (bs : List Block) (lo hi : ℕ) → Tiled lo hi bs → lo + used_bytes bs ≤ hi
unfolding used_bytes
used_bytes-le [] lo hi t = omega arith
used_bytes-le (b ∷ bs) lo hi t =
    let rest = used_bytes-le bs (lo + heap_header_size + b.size) hi t.4 in ground (arith, rest)

coalesce_from-Tiled :
    (bs : List Block) (b : Block) (lo hi : ℕ)
    → hi ≤ two64
    → Tiled lo hi (b ∷ bs)
    → Tiled lo hi (coalesce_from b bs)
unfolding coalesce_from
coalesce_from-Tiled [] b lo hi h t = t
coalesce_from-Tiled (c ∷ cs) b lo hi h (at, m, s, l, (at', m', s', l', rest)) =
    elim (Bool-cases (b.free && c.free)) [
      | inl e ↦
          let sum : add64 b.size (heap_header_size + c.size)
              ≡ b.size + (heap_header_size + c.size) =
            omega arith in
          let to : lo + heap_header_size + b.size + heap_header_size + c.size
              ≡ lo + heap_header_size + (b.size + (heap_header_size + c.size)) =
            omega arith in
          rw (e, sum)
            (coalesce_from-Tiled cs (record b { size = b.size + (heap_header_size + c.size) }) lo hi
              h (at, m, omega arith, omega arith, rw to at rest))
      | inr e ↦ rw e (
        at,
        m,
        s,
        l,
        coalesce_from-Tiled cs c (lo + heap_header_size + b.size) hi h (at', m', s', l', rest),
      )
    ]

coalesce_from-used :
    (bs : List Block) (b : Block) → used_bytes (coalesce_from b bs) ≡ used_bytes (b ∷ bs)
unfolding coalesce_from used_bytes
coalesce_from-used [] b = refl
coalesce_from-used (c ∷ cs) b = elim (Bool-cases (b.free && c.free)) [
  | inl e ↦
      let joined =
        coalesce_from-used cs (record b { size = add64 b.size (heap_header_size + c.size) }) in
      rw (e, joined) (ground (arith, e))
  | inr e ↦ rw (e, coalesce_from-used cs c)
]

coalesce_from-allocated :
    (bs : List Block) (b : Block) (a : ℕ) → allocated (coalesce_from b bs) a ≡ allocated (b ∷ bs) a
unfolding coalesce_from allocated
coalesce_from-allocated [] b a = refl
coalesce_from-allocated (c ∷ cs) b a = elim (Bool-cases (b.free && c.free)) [
  | inl e ↦
      let joined =
        coalesce_from-allocated cs (record b { size = add64 b.size (heap_header_size + c.size) })
          a in
      rw (e, joined) (ground (arith, e))
  | inr e ↦ rw (e, coalesce_from-allocated cs c a)
]

pub heap_coalesce-Tiled :
    (bs : List Block) (lo hi : ℕ) → hi ≤ two64 → Tiled lo hi bs → Tiled lo hi (heap_coalesce bs)
unfolding heap_coalesce
heap_coalesce-Tiled [] lo hi h t = t
heap_coalesce-Tiled (b ∷ bs) lo hi h t = coalesce_from-Tiled bs b lo hi h t

pub heap_coalesce-used : (bs : List Block) → used_bytes (heap_coalesce bs) ≡ used_bytes bs
unfolding heap_coalesce
heap_coalesce-used [] = refl
heap_coalesce-used (b ∷ bs) = coalesce_from-used bs b

pub heap_coalesce-allocated :
    (bs : List Block) (a : ℕ) → allocated (heap_coalesce bs) a ≡ allocated bs a
unfolding heap_coalesce
heap_coalesce-allocated [] a = refl
heap_coalesce-allocated (b ∷ bs) a = coalesce_from-allocated bs b a

-- No two neighbours are both free.
abbrev pub Joined : List Block → Type 0
Joined [] = Unit {0}
Joined (b ∷ []) = Unit {0}
Joined (b ∷ c ∷ cs) = ((b.free && c.free) ≡ false) × Joined (c ∷ cs)

-- The first block after joining is free only if the first block was.
first_free : List Block → Bool
first_free [] = false
first_free (b ∷ bs) = b.free

Joined-cons :
    (b : Block) (bs : List Block) → (b.free && first_free bs) ≡ false → Joined bs → Joined (b ∷ bs)
unfolding first_free
Joined-cons b [] h j = tt
Joined-cons b (c ∷ cs) h j = (h, j)

first_coalesced : (bs : List Block) (b : Block) → first_free (coalesce_from b bs) ≡ b.free
unfolding first_free coalesce_from
first_coalesced [] b = refl
first_coalesced (c ∷ cs) b = elim (Bool-cases (b.free && c.free)) [
  | inl e ↦ rw e (first_coalesced cs (record b { size = add64 b.size (heap_header_size + c.size) }))
  | inr e ↦ rw e
]

coalesce_from-Joined : (bs : List Block) (b : Block) → Joined (coalesce_from b bs)
unfolding coalesce_from
coalesce_from-Joined [] b = tt
coalesce_from-Joined (c ∷ cs) b = elim (Bool-cases (b.free && c.free)) [
  | inl e ↦
      rw e (coalesce_from-Joined cs (record b { size = add64 b.size (heap_header_size + c.size) }))
  | inr e ↦ rw e (
      Joined-cons b (coalesce_from c cs) (rw (first_coalesced cs c, e)) (coalesce_from-Joined cs c))
]

pub heap_coalesce-Joined : (bs : List Block) → Joined (heap_coalesce bs)
unfolding heap_coalesce
heap_coalesce-Joined [] = tt
heap_coalesce-Joined (b ∷ bs) = coalesce_from-Joined bs b
