-- ===== src/Kernel/Pmm/Alloc.antt =====
-- What `pmm_alloc_page`, `pmm_free_page`, `pmm_alloc_pages` and `pmm_free_pages` promise.
use mathlib.Core.Path.{subst}
use vector_forth_kernel.Base.{
  ℕ, zero, suc, ◌+◌, ◌*◌, ◌/◌, ◌≤◌, ◌<◌, ◌≡◌, inl, inr, refl, sym, ◌∙◌, Bool, true, false, not,
  Option, none, some, arith, ◌==◌, Bool-cases, Option-cases, ==→eq, ne→not-==,
}
use vector_forth_kernel.Base.Word.{two64, u64}
use vector_forth_kernel.Base.Bitmap.{bitmap_test, count-cong}
use vector_forth_kernel.Kernel.Pmm.{
  Pmm, page_size, take_page, free_one, take_pages, bitmap_find_free, bitmap_find_free_region,
  pmm_alloc_page, pmm_free_page, pmm_alloc_pages,
}
use vector_forth_kernel.Kernel.Pmm.Search.{
  Lowest, FreeRun, FirstRun, bitmap_find_free-Lowest, bitmap_find_free_region-FirstRun,
}
use vector_forth_kernel.Kernel.Pmm.Count.{
  Valid, Turns, Turns-none, Turns-then, take_page-Turns, free_one-Turns, run_of,
}

-- The allocator of single pages as its callers see it: it fails only if the pages that it searches,
-- the whole words of the bitmap, are all used; otherwise it gives the address of the lowest free page
-- and that page alone becomes used.
abbrev pub PageAllocated : Pmm → Option (ℕ × Pmm) → Type 0
PageAllocated s none = Lowest s.bitmap s.total_pages 0 (s.total_pages / 32 * 32) none
PageAllocated s (some (addr, t)) =
    (p : ℕ) × (addr ≡ p * page_size)
    × Lowest s.bitmap s.total_pages 0 (s.total_pages / 32 * 32) (some p)
    × Turns true (λ q. p == q) s t

alloc_none : (s : Pmm) → bitmap_find_free s ≡ none → pmm_alloc_page s ≡ none
unfolding pmm_alloc_page
alloc_none s e = rw (pmm_alloc_page, e)

alloc_some :
    (s : Pmm) (p : ℕ)
    → bitmap_find_free s ≡ some p
    → p * page_size < two64
    → pmm_alloc_page s ≡ some (p * page_size, take_page p s)
unfolding pmm_alloc_page
alloc_some s p e l =
    let at : u64 (p * page_size) ≡ p * page_size = omega arith in rw (pmm_alloc_page, e, at)

-- For a page count that agrees with the bitmap, `pmm_alloc_page` panics only if every page of the
-- whole 32-bit words of the bitmap is used; otherwise it gives the address of the lowest free page,
-- marks that page and no other, and the count agrees with the bitmap again.
pub pmm_alloc_page-PageAllocated : (s : Pmm) → Valid s → PageAllocated s (pmm_alloc_page s)
pmm_alloc_page-PageAllocated s v =
    let found = bitmap_find_free-Lowest s in
    let m = v.small in
    elim (Option-cases (bitmap_find_free s)) [
      | inl e ↦ subst (λ o. PageAllocated s o) (sym (alloc_none s e)) (rw e at found)
      | inr (p, e) ↦
          let lowest : Lowest s.bitmap s.total_pages 0 (s.total_pages / 32 * 32) (some p) =
            rw e at found in
          let in_memory = lowest.2 in
          subst (λ o. PageAllocated s o) (sym (alloc_some s p e (omega arith)))
            (p, refl, lowest, take_page-Turns p s in_memory lowest.3)
    ]

pmm_free_page_of : (page : ℕ) (s : Pmm) → pmm_free_page (page * page_size) s ≡ free_one page s
unfolding pmm_free_page free_one
pmm_free_page_of page s =
    let back : page * page_size / page_size ≡ page = omega arith in rw back (ground arith)

-- A page turned and turned back.
turned_back :
    (p : ℕ) (b : Bool) (s t u : Pmm)
    → bitmap_test s.bitmap p ≡ b
    → Turns (not b) (λ q. p == q) s t
    → Turns b (λ q. p == q) t u
    → (q : ℕ) → bitmap_test u.bitmap q ≡ bitmap_test s.bitmap q
turned_back p b s t u e there back q =
    let gone = there.test q in
    let come = back.test q in
    let same = there.total in
    elim (Bool-cases (p == q)) [
      | inl at ↦
          let is : p ≡ q = ==→eq p q at in
          let before : bitmap_test s.bitmap q ≡ b = rw is at e in
          come ∙ rw (at, same) (ground (arith, gone, at, before))
      | inr at ↦ come ∙ rw at (rw at at gone)
    ]

-- Allocating a page and freeing it again leaves every page as it was, and the count.
pub pmm_free_page-pmm_alloc_page :
    (s t : Pmm) (addr : ℕ)
    → Valid s
    → pmm_alloc_page s ≡ some (addr, t)
    → ((q : ℕ) → bitmap_test (pmm_free_page addr t).bitmap q ≡ bitmap_test s.bitmap q)
      × ((pmm_free_page addr t).used_pages ≡ s.used_pages)
pmm_free_page-pmm_alloc_page s t addr v e =
    let allocated : PageAllocated s (some (addr, t)) =
      subst (λ o. PageAllocated s o) e (pmm_alloc_page-PageAllocated s v) in
    let (p, at, lowest, there) = allocated in
    let u = free_one p t in
    let back = free_one-Turns p t in
    let is_u : pmm_free_page addr t ≡ u = rw at (pmm_free_page_of p t) in
    let same = turned_back p false s t u lowest.3 there back in
    let v_u = back.valid (there.valid v) in
    let total : u.total_pages ≡ s.total_pages = back.total ∙ there.total in
    let counts : u.used_pages ≡ s.used_pages =
      v_u.counted
      ∙ rw total (count-cong s.total_pages u.bitmap s.bitmap (λ q l. same q))
      ∙ sym v.counted in
    rw is_u (same, counts)

take_pages-Turns :
    (n page : ℕ) (s : Pmm)
    → page + n ≤ s.total_pages
    → FreeRun s.bitmap page n
    → Turns true (run_of page n) s (take_pages n page s)
unfolding take_pages
take_pages-Turns zero page s h free = Turns-none true (run_of page 0) s (λ q l. ground arith)
take_pages-Turns (suc n) page s h free =
    let first = take_page-Turns page s (omega arith) (free page (omega arith) (omega arith)) in
    let t = take_page page s in
    let same = first.total in
    let still : FreeRun t.bitmap (page + 1) n = λ q a b.
      first.test q
      ∙ rw (ne→not-== page q (λ e. omega arith)) (free q (omega arith) (omega arith)) in
    Turns-then first (take_pages-Turns n (page + 1) t (omega arith) still) (λ q l. ground arith)

-- The allocator of contiguous pages as its callers see it.
abbrev pub PagesAllocated : Pmm → ℕ → Option (ℕ × Pmm) → Type 0
PagesAllocated s count none = FirstRun s.bitmap count s.total_pages none
PagesAllocated s count (some (addr, t)) =
    (start : ℕ) × (addr ≡ start * page_size)
    × FirstRun s.bitmap count s.total_pages (some start)
    × Turns true (run_of start count) s t

pages_none :
    (s : Pmm) (count : ℕ) → bitmap_find_free_region s count ≡ none → pmm_alloc_pages count s ≡ none
unfolding pmm_alloc_pages
pages_none s count e = rw (pmm_alloc_pages, e)

pages_some :
    (s : Pmm) (count p : ℕ)
    → bitmap_find_free_region s count ≡ some p
    → p * page_size < two64
    → pmm_alloc_pages count s ≡ some (p * page_size, take_pages count p s)
unfolding pmm_alloc_pages
pages_some s count p e l =
    let at : u64 (p * page_size) ≡ p * page_size = omega arith in rw (pmm_alloc_pages, e, at)

-- For a positive number of pages and a page count that agrees with the bitmap, `pmm_alloc_pages`
-- panics only if memory has no run of that many free pages; otherwise it gives the address of the
-- first such run and marks its pages and no others.
pub pmm_alloc_pages-PagesAllocated :
    (s : Pmm) (count : ℕ) → Valid s → 0 < count → PagesAllocated s count (pmm_alloc_pages count s)
pmm_alloc_pages-PagesAllocated s count v h =
    let found = bitmap_find_free_region-FirstRun s count h in
    let m = v.small in
    elim (Option-cases (bitmap_find_free_region s count)) [
      | inl e ↦ subst (λ o. PagesAllocated s count o) (sym (pages_none s count e)) (rw e at found)
      | inr (p, e) ↦
          let first : FirstRun s.bitmap count s.total_pages (some p) = rw e at found in
          let within = first.0 in
          subst (λ o. PagesAllocated s count o) (sym (pages_some s count p e (omega arith)))
            (p, refl, first, take_pages-Turns count p s within first.1)
    ]
