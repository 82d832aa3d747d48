-- ===== src/Kernel/Pmm/Init.antt =====
-- What `pmm_init` leaves free.
use vector_forth_kernel.Base.{
  ℕ, zero, suc, ◌+◌, ◌-◌, ◌*◌, ◌/◌, ◌≤◌, ◌<◌, ◌≡◌, inl, inr, refl, sym, ◌∙◌, Bool, true, false, not,
  ◌&&◌, ◌||◌, List, [], ◌∷◌, arith, ◌==◌, ltb, leb, if◌then◌else◌, Bool-cases, lt→ltb,
}
use vector_forth_kernel.Base.Word.{two64, u64}
use vector_forth_kernel.Base.Memory.{Mem, load8}
use vector_forth_kernel.Base.Bitmap.{bitmap_test, count}
use vector_forth_kernel.Kernel.Pmm.{
  Pmm, Region, page_size, pmm_max_memory, pmm_bitmap_phys, e820_usable, pmm_mark_region_used,
  pmm_mark_region_free, memory_end, fill_bitmap, mark_usable, bitmap_bytes, pmm_init,
}
use vector_forth_kernel.Kernel.Pmm.Search.{byte_full}
use vector_forth_kernel.Kernel.Pmm.Count.{
  Valid, Turns, Turns-none, Turns-then, run_of, use_loop-Turns, free_until-Turns,
}

-- The region ends, with a page to spare, below 2 ^ 64.
abbrev pub Fits : Region → Type 0
Fits r = r.base + r.length + page_size ≤ two64

abbrev pub AllFit : List Region → Type 0
AllFit [] = Unit {0}
AllFit (r ∷ rs) = Fits r × AllFit rs

-- The whole page lies in a usable region.
abbrev pub in_region : Region → ℕ → Bool
in_region r q =
    (r.type == e820_usable)
    && (leb r.base (q * page_size) && leb (q * page_size + page_size) (r.base + r.length))

abbrev pub is_usable : List Region → ℕ → Bool
is_usable [] q = false
is_usable (r ∷ rs) q = in_region r q || is_usable rs q

-- The page is one of the first 512 KB, of the kernel's megabyte from 1 MB on, or of the bitmap.
abbrev pub is_reserved : (pages : ℕ) → ℕ → Bool
is_reserved pages q =
    (ltb q 128 || (leb 256 q && ltb q 512)) || (leb 512 q && ltb q (512 + (pages + 32767) / 32768))

Turns-cong :
    {b : Bool} {r r' : ℕ → Bool} {s t : Pmm}
    → Turns b r s t
    → ((q : ℕ) → r q ≡ r' q)
    → Turns b r' s t
Turns-cong {b} {r} {r'} {s} {t} x h = record {
  total = x.total;
  memory = x.memory;
  valid = x.valid;
  test = λ q. x.test q ∙ rw (h q);
}

whole_pages :
    (b l q : ℕ)
    → b + l + page_size ≤ two64
    → run_of
        (u64 (b + page_size - 1) / page_size)
        (u64 (b + l) / page_size - u64 (b + page_size - 1) / page_size)
        q
      ≡ (leb b (q * page_size) && leb (q * page_size + page_size) (b + l))
whole_pages b l q h =
    let small : u64 (b + page_size - 1) ≡ b + page_size - 1 = omega arith in
    let small' : u64 (b + l) ≡ b + l = omega arith in rw (small, small') (ground arith)

mark_region_free-Turns :
    (r : Region) (s : Pmm)
    → Fits r
    → r.type ≡ e820_usable
    → Turns false (in_region r) s (pmm_mark_region_free r.base r.length s)
unfolding pmm_mark_region_free
mark_region_free-Turns r s h usable =
    let start = u64 (r.base + page_size - 1) / page_size in
    let end = u64 (r.base + r.length) / page_size in
    Turns-cong (free_until-Turns (end - start) start s)
      (λ q. whole_pages r.base r.length q h ∙ rw usable)

mark_region_used-Turns :
    (base length : ℕ) (s : Pmm)
    → base + length + page_size < two64
    → Turns true
        (run_of (base / page_size) ((length + page_size - 1) / page_size))
        s
        (pmm_mark_region_used base length s)
unfolding pmm_mark_region_used
mark_region_used-Turns base length s h =
    let small : u64 (length + page_size - 1) ≡ length + page_size - 1 = omega arith in
    rw small
      (use_loop-Turns ((length + page_size - 1) / page_size) (base / page_size) s (omega arith))

mark_usable-Turns :
    (mmap : List Region) (s : Pmm)
    → AllFit mmap
    → Turns false (is_usable mmap) s (mark_usable mmap s)
unfolding mark_usable
mark_usable-Turns [] s h = Turns-none false (λ q. false) s (λ q l. refl)
mark_usable-Turns (r ∷ rs) s (h, more) = elim (Bool-cases (r.type == e820_usable)) [
  | inl e ↦ rw e (
      Turns-then (mark_region_free-Turns r s h (ground (arith, e)))
        (mark_usable-Turns rs (pmm_mark_region_free r.base r.length s) more) (λ q l. rw e))
  | inr e ↦ rw e (Turns-cong (mark_usable-Turns rs s more) (λ q. rw e))
]

fill_used :
    (pages q : ℕ) (bm : Mem)
    → q < pages
    → bitmap_test (fill_bitmap (bitmap_bytes pages) bm) q ≡ true
unfolding bitmap_bytes fill_bitmap load8
fill_used pages q bm l =
    let inside : ltb (q / 8) (bitmap_bytes pages) ≡ true = ground arith in
    byte_full (fill_bitmap (bitmap_bytes pages) bm) q (rw inside)

count_all : (n : ℕ) (bm : Mem) → ((q : ℕ) → q < n → bitmap_test bm q ≡ true) → count n bm ≡ n
unfolding count
count_all zero bm h = refl
count_all (suc n) bm h = rw (h n (omega arith), count_all n bm (λ q l. h q (omega arith)))

-- The state with the whole bitmap set.
cleared-Valid :
    (pages memory : ℕ) (bm : Mem)
    → pages ≤ 0x10_0000
    → Valid (record {
      bitmap = fill_bitmap (bitmap_bytes pages) bm;
      total_pages = pages;
      used_pages = pages;
      total_memory = memory;
    })
cleared-Valid pages memory bm h = record {
  counted =
      sym (count_all pages (fill_bitmap (bitmap_bytes pages) bm) (λ q l. fill_used pages q bm l));
  small = h;
}

abbrev init_memory : List Region → ℕ
init_memory mmap =
    if ltb pmm_max_memory (memory_end mmap 0) then pmm_max_memory else memory_end mmap 0

-- The end of memory: the highest end of a usable region, at most 4 GB.
abbrev pub init_pages : List Region → ℕ
init_pages mmap =
    (if ltb pmm_max_memory (memory_end mmap 0) then pmm_max_memory else memory_end mmap 0)
    / page_size

bitmap_run :
    (pages q : ℕ)
    → pages ≤ 0x10_0000
    → run_of
        (pmm_bitmap_phys / page_size)
        (((bitmap_bytes pages + page_size - 1) / page_size * page_size + page_size - 1) / page_size)
        q
      ≡ (leb 512 q && ltb q (512 + (pages + 32767) / 32768))
unfolding bitmap_bytes
bitmap_run pages q h = ground arith

bitmap_bytes-le : (pages : ℕ) → pages ≤ 0x10_0000 → bitmap_bytes pages ≤ 0x2_0000
unfolding bitmap_bytes
bitmap_bytes-le pages h = ground arith

init-Turns :
    (pages bytes : ℕ) (s : Pmm)
    → pages ≤ 0x10_0000
    → bytes ≡ bitmap_bytes pages
    → Turns true (is_reserved pages) s (
        pmm_mark_region_used pmm_bitmap_phys
          ((bytes + page_size - 1) / page_size * page_size)
          (pmm_mark_region_used 0x100000 0x100000 (pmm_mark_region_used 0x0 0x80000 s)))
init-Turns pages bytes s h e =
    let few = bitmap_bytes-le pages h in
    let low = mark_region_used-Turns 0x0 0x80000 s (omega arith) in
    let code =
      mark_region_used-Turns 0x100000 0x100000 (pmm_mark_region_used 0x0 0x80000 s) (omega arith) in
    let map =
      mark_region_used-Turns pmm_bitmap_phys ((bytes + page_size - 1) / page_size * page_size)
        (pmm_mark_region_used 0x100000 0x100000 (pmm_mark_region_used 0x0 0x80000 s))
        (omega arith) in
    Turns-then {r = is_reserved pages}
      (Turns-then {r = λ q. ltb q 128 || (leb 256 q && ltb q 512)} low code (λ q l. ground arith))
      map (λ q l. rw (e, bitmap_run pages q h))

-- For a memory map whose regions do not run past 2 ^ 64, `pmm_init` leaves a page count that agrees
-- with the bitmap, and a page below the end of memory is free exactly if it lies whole in a usable
-- region and is not one of the first 512 KB, of the kernel's megabyte or of the bitmap's pages.
pub pmm_init-free :
    (mmap : List Region) (s : Pmm)
    → AllFit mmap
    → ((pmm_init mmap s).total_pages ≡ init_pages mmap)
      × Valid (pmm_init mmap s)
      × ((q : ℕ)
          → q < init_pages mmap
          → bitmap_test (pmm_init mmap s).bitmap q
            ≡ not (is_usable mmap q && not (is_reserved (init_pages mmap) q)))
unfolding pmm_init
pmm_init-free mmap s h =
    let pages = init_pages mmap in
    let few : pages ≤ 0x10_0000 = ground arith in
    let start : Pmm = record {
      bitmap = fill_bitmap (bitmap_bytes pages) s.bitmap;
      total_pages = pages;
      used_pages = pages;
      total_memory = init_memory mmap;
    } in
    let freed = mark_usable-Turns mmap start h in
    let held = init-Turns pages (bitmap_bytes pages) (mark_usable mmap start) few refl in
    (
      held.total ∙ freed.total,
      held.valid (freed.valid (cleared-Valid pages (init_memory mmap) s.bitmap few)),
      λ q l.
          held.test q
          ∙ rw (freed.total, freed.test q, lt→ltb q pages l, fill_used pages q s.bitmap l)
              (ground arith),
    )
