-- ===== src/Examples/Memory.antt =====
-- The allocators at concrete states.
use vector_forth_kernel.Base.{
  ℕ, ◌+◌, ◌-◌, ◌*◌, ◌<◌, ◌≡◌, refl, true, false, not, ◌&&◌, none, some, List, [], ◌∷◌, arith, ◌==◌,
  if◌then◌else◌,
}
use vector_forth_kernel.Base.Memory.{load8}
use vector_forth_kernel.Base.Bitmap.{bitmap_test, bit_is, count}
use vector_forth_kernel.Kernel.Pmm.{
  Pmm, Region, pmm_init, pmm_alloc_page, pmm_free_page, pmm_alloc_pages, take_page,
  bitmap_find_free, find_dword, find_bit, dword,
}
use vector_forth_kernel.Kernel.Pmm.Count.{Valid}
use vector_forth_kernel.Kernel.Pmm.Alloc.{
  PageAllocated, PagesAllocated, pmm_alloc_page-PageAllocated, pmm_free_page-pmm_alloc_page,
  pmm_alloc_pages-PagesAllocated,
}
use vector_forth_kernel.Kernel.Pmm.Init.{init_pages, is_usable, is_reserved, pmm_init-free}
use vector_forth_kernel.Kernel.Heap.{
  Heap, returned, kmalloc, kfree, heap_init, heap_header_size, heap_magic, heap_virt_start,
}
use vector_forth_kernel.Kernel.Heap.Blocks.{allocated, used_bytes, Joined}
use vector_forth_kernel.Kernel.Heap.Alloc.{IsHeap, Allocated, kmalloc-Allocated, heap_init-IsHeap}
use vector_forth_kernel.Kernel.Heap.Free.{kfree-frees}

-- 64 pages, of which page 0 is used.
abbrev pages : Pmm
pages = record {
  bitmap = λ a. if a == 0 then 1 else 0;
  total_pages = 64;
  used_pages = 1;
  total_memory = 64 * 4096;
}

pages-Valid : Valid pages
unfolding count bitmap_test bit_is load8
pages-Valid = record { counted = refl; small = omega arith }

pmm_alloc_page-PageAllocated_example : PageAllocated pages (pmm_alloc_page pages)
pmm_alloc_page-PageAllocated_example = pmm_alloc_page-PageAllocated pages pages-Valid

-- Page 1 is allocated.
page_one : pmm_alloc_page pages ≡ some (4096, take_page 1 pages)
unfolding pmm_alloc_page bitmap_find_free find_dword find_bit dword bitmap_test bit_is load8
page_one = refl

pmm_free_page-pmm_alloc_page_example :
    ((q : ℕ)
      → bitmap_test (pmm_free_page 4096 (take_page 1 pages)).bitmap q ≡ bitmap_test pages.bitmap q)
    × ((pmm_free_page 4096 (take_page 1 pages)).used_pages ≡ 1)
pmm_free_page-pmm_alloc_page_example =
    pmm_free_page-pmm_alloc_page pages (take_page 1 pages) 4096 pages-Valid page_one

pmm_alloc_pages-PagesAllocated_example : PagesAllocated pages 3 (pmm_alloc_pages 3 pages)
pmm_alloc_pages-PagesAllocated_example =
    pmm_alloc_pages-PagesAllocated pages 3 pages-Valid (omega arith)

-- 639 KB and 127 MB of usable memory.
abbrev regions : List Region
regions =
    (record { base = 0; length = 0x9fc00; type = 1 })
    ∷ (record { base = 0x100000; length = 0x7f00000; type = 1 })
    ∷ (record { base = 0xfffc0000; length = 0x40000; type = 2 })
    ∷ []

pmm_init-free_example :
    ((pmm_init regions pages).total_pages ≡ init_pages regions)
    × Valid (pmm_init regions pages)
    × ((q : ℕ)
        → q < init_pages regions
        → bitmap_test (pmm_init regions pages).bitmap q
          ≡ not (is_usable regions q && not (is_reserved (init_pages regions) q)))
pmm_init-free_example = pmm_init-free regions pages (omega arith, (omega arith, (omega arith, tt)))

kmalloc-Allocated_example : Allocated heap_init 100 (kmalloc 100 heap_init)
kmalloc-Allocated_example =
    kmalloc-Allocated 100 heap_init heap_init-IsHeap (omega arith) (omega arith)

-- A heap of one allocated block and one free block.
abbrev heap : Heap
heap = record {
  blocks =
      (record { addr = heap_virt_start; size = 64; magic = heap_magic; free = false })
      ∷ (record { addr = heap_virt_start + 96; size = 64; magic = heap_magic; free = true })
      ∷ [];
  end = heap_virt_start + 192;
  total = 192;
  used = 64;
}

heap-IsHeap : IsHeap heap
unfolding used_bytes
heap-IsHeap = record {
  tiled = (refl, refl, refl, omega arith, (refl, refl, refl, omega arith, refl));
  fits = omega arith;
  counted = refl;
}

held : allocated heap.blocks (heap_virt_start + 32 - heap_header_size) ≡ some 64
unfolding allocated
held = refl

kfree-frees_example :
    (t : Heap) × (kfree (heap_virt_start + 32) heap ≡ returned t)
    × IsHeap t
    × Joined t.blocks
    × (t.used + 64 ≡ 64)
    × ((a : ℕ)
        → allocated t.blocks a ≡ (
            if heap_virt_start + 32 - heap_header_size == a then none else allocated heap.blocks a))
kfree-frees_example =
    kfree-frees (heap_virt_start + 32) 64 heap heap-IsHeap (omega arith) (omega arith) held
