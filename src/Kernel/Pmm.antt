-- ===== src/Kernel/Pmm.antt =====
-- The physical page allocator, kernel/memory/pmm.c. `kernel_panic`, which does not return, is `none`.
-- The output to the serial port is left out.
pub mod Search
pub mod Count
pub mod Alloc
pub mod Init
use vector_forth_kernel.Base.{
  ℕ, zero, suc, ◌+◌, ◌-◌, ◌*◌, ◌/◌, ◌%◌, Bool, true, false, not, ◌&&◌, Option, none, some, List, [],
  ◌∷◌, ◌==◌, ltb, leb, if◌then◌else◌,
}
use vector_forth_kernel.Base.Word.{u64, add64, sub64}
use vector_forth_kernel.Base.Memory.{Mem, load8}
use vector_forth_kernel.Base.Bitmap.{bitmap_set, bitmap_clear, bitmap_test}

abbrev pub page_size : ℕ
page_size = 4096

-- `PMM_MAX_MEMORY` and `PMM_BITMAP_PHYS`
abbrev pub pmm_max_memory : ℕ
pmm_max_memory = 0x1_0000_0000

abbrev pub pmm_bitmap_phys : ℕ
pmm_bitmap_phys = 0x20_0000

abbrev pub e820_usable : ℕ
e820_usable = 1

-- `e820_entry_t`
pub record Region : Type 0 where
  pub base : ℕ
  pub length : ℕ
  pub type : ℕ

-- `pmm_bitmap`, `pmm_total_pages`, `pmm_used_pages` and `pmm_total_memory`
pub record Pmm : Type 0 where
  pub bitmap : Mem
  pub total_pages : ℕ
  pub used_pages : ℕ
  pub total_memory : ℕ

-- `bitmap32[i]`
unfoldable pub dword : Mem → ℕ → ℕ
dword bm i =
    load8 bm (i * 4)
    + 0x100 * load8 bm (i * 4 + 1)
    + 0x1_0000 * load8 bm (i * 4 + 2)
    + 0x100_0000 * load8 bm (i * 4 + 3)

-- The inner loop of `bitmap_find_free`, with `n` bits left from `page` on.
unfoldable pub find_bit : (n : ℕ) → ℕ → Mem → ℕ → Option ℕ
find_bit zero total bm page = none
find_bit (suc n) total bm page =
    if ltb page total && not (bitmap_test bm page)
    then some page
    else find_bit n total bm (page + 1)

-- Its outer loop, with `n` words left from word `i` on.
unfoldable pub find_dword : (n : ℕ) → ℕ → Mem → ℕ → Option ℕ
find_dword zero total bm i = none
find_dword (suc n) total bm i =
    if dword bm i == 0xffff_ffff
    then find_dword n total bm (i + 1)
    else (elim (find_bit 32 total bm (i * 32)) [
      | some page ↦ some page
      | none ↦ find_dword n total bm (i + 1)
    ])

unfoldable pub bitmap_find_free : Pmm → Option ℕ
bitmap_find_free s = find_dword (s.total_pages / 32) s.total_pages s.bitmap 0

-- The loop of `bitmap_find_free_region`, with `n` pages left from page `i` on.
unfoldable pub region_loop : (n : ℕ) → Mem → (count i consecutive start : ℕ) → Option ℕ
region_loop zero bm count i consecutive start = none
region_loop (suc n) bm count i consecutive start =
    if not (bitmap_test bm i)
    then (let from = if consecutive == 0 then i else start in
        if leb count (consecutive + 1)
        then some from
        else region_loop n bm count (i + 1) (consecutive + 1) from)
    else region_loop n bm count (i + 1) 0 start

unfoldable pub bitmap_find_free_region : Pmm → ℕ → Option ℕ
bitmap_find_free_region s count = region_loop s.total_pages s.bitmap count 0 0 0

-- `bitmap_set(page); pmm_used_pages++;` and `bitmap_clear(page); pmm_used_pages--;`
unfoldable pub take_page : ℕ → Pmm → Pmm
take_page page s = record s { bitmap = bitmap_set s.bitmap page; used_pages = add64 s.used_pages 1 }

unfoldable pub give_page : ℕ → Pmm → Pmm
give_page page s = record s {
  bitmap = bitmap_clear s.bitmap page;
  used_pages = sub64 s.used_pages 1;
}

unfoldable pub pmm_alloc_page : Pmm → Option (ℕ × Pmm)
pmm_alloc_page s = elim (bitmap_find_free s) [
  | none ↦ none
  | some page ↦ some (u64 (page * page_size), take_page page s)
]

unfoldable pub pmm_free_page : ℕ → Pmm → Pmm
pmm_free_page phys_addr s =
    let page = phys_addr / page_size in
    if leb s.total_pages page
    then s
    else (if bitmap_test s.bitmap page then give_page page s else s)

-- The loop of `pmm_alloc_pages`, with `n` pages left from `page` on.
unfoldable pub take_pages : (n : ℕ) → ℕ → Pmm → Pmm
take_pages zero page s = s
take_pages (suc n) page s = take_pages n (page + 1) (take_page page s)

unfoldable pub pmm_alloc_pages : ℕ → Pmm → Option (ℕ × Pmm)
pmm_alloc_pages count s = elim (bitmap_find_free_region s count) [
  | none ↦ none
  | some start ↦ some (u64 (start * page_size), take_pages count start s)
]

-- One round of the loops of `pmm_free_pages` and `pmm_mark_region_free`, and of the loop of
-- `pmm_mark_region_used`.
unfoldable pub free_one : ℕ → Pmm → Pmm
free_one page s =
    if ltb page s.total_pages && bitmap_test s.bitmap page then give_page page s else s

unfoldable pub use_one : ℕ → Pmm → Pmm
use_one page s =
    if ltb page s.total_pages && not (bitmap_test s.bitmap page) then take_page page s else s

unfoldable pub free_loop : (n : ℕ) → ℕ → Pmm → Pmm
free_loop zero page s = s
free_loop (suc n) page s = free_loop n (add64 page 1) (free_one page s)

unfoldable pub use_loop : (n : ℕ) → ℕ → Pmm → Pmm
use_loop zero page s = s
use_loop (suc n) page s = use_loop n (add64 page 1) (use_one page s)

unfoldable pub pmm_free_pages : ℕ → ℕ → Pmm → Pmm
pmm_free_pages phys_addr count s = free_loop count (phys_addr / page_size) s

unfoldable pub pmm_mark_region_used : ℕ → ℕ → Pmm → Pmm
pmm_mark_region_used base length s =
    use_loop (u64 (length + page_size - 1) / page_size) (base / page_size) s

-- The loop of `pmm_mark_region_free`, which stops at the end of memory, with `n` pages left.
unfoldable pub free_until : (n : ℕ) → ℕ → Pmm → Pmm
free_until zero page s = s
free_until (suc n) page s =
    if ltb page s.total_pages
    then free_until n (page + 1) (if bitmap_test s.bitmap page then give_page page s else s)
    else s

unfoldable pub pmm_mark_region_free : ℕ → ℕ → Pmm → Pmm
pmm_mark_region_free base length s =
    let start_page = u64 (base + page_size - 1) / page_size in
    let end_page = u64 (base + length) / page_size in
    free_until (end_page - start_page) start_page s

-- The end of the highest usable region.
unfoldable pub memory_end : List Region → ℕ → ℕ
memory_end [] top = top
memory_end (r ∷ rs) top =
    let end = u64 (r.base + r.length) in
    memory_end rs (if ltb top end && r.type == e820_usable then end else top)

-- `memset(pmm_bitmap, 0xFF, bytes)`
unfoldable pub fill_bitmap : ℕ → Mem → Mem
fill_bitmap bytes bm i = if ltb i bytes then 0xff else bm i

unfoldable pub mark_usable : List Region → Pmm → Pmm
mark_usable [] s = s
mark_usable (r ∷ rs) s =
    mark_usable rs (if r.type == e820_usable then pmm_mark_region_free r.base r.length s else s)

unfoldable pub bitmap_bytes : ℕ → ℕ
bitmap_bytes pages = if pages % 8 == 0 then pages / 8 else pages / 8 + 1

unfoldable pub pmm_init : List Region → Pmm → Pmm
pmm_init mmap s =
    let top = memory_end mmap 0 in
    let memory = if ltb pmm_max_memory top then pmm_max_memory else top in
    let pages = memory / page_size in
    let bytes = bitmap_bytes pages in
    let cleared : Pmm = record {
      bitmap = fill_bitmap bytes s.bitmap;
      total_pages = pages;
      used_pages = pages;
      total_memory = memory;
    } in
    let freed = mark_usable mmap cleared in
    let low = pmm_mark_region_used 0x0 0x80000 freed in
    let code = pmm_mark_region_used 0x100000 0x100000 low in
    let bitmap_pages = (bytes + page_size - 1) / page_size in
    pmm_mark_region_used pmm_bitmap_phys (bitmap_pages * page_size) code

pub pmm_get_free_memory : Pmm → ℕ
pmm_get_free_memory s = u64 (sub64 s.total_pages s.used_pages * page_size)

pub pmm_get_used_memory : Pmm → ℕ
pmm_get_used_memory s = u64 (s.used_pages * page_size)
