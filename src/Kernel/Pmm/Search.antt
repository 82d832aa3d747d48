-- ===== src/Kernel/Pmm/Search.antt =====
-- `bitmap_find_free` and `bitmap_find_free_region` of kernel/memory/pmm.c.
use vector_forth_kernel.Base.{
  ℕ, zero, suc, ◌+◌, ◌*◌, ◌/◌, ◌%◌, ◌≤◌, ◌<◌, ◌≡◌, ◌⊎◌, inl, inr, sym, true, false, not, ◌&&◌,
  Option, none, some, arith, ◌==◌, ltb, leb, if◌then◌else◌, Bool-cases, Option-cases, ==→eq, ltb→lt,
  leb→le,
}
use vector_forth_kernel.Base.Memory.{Mem, load8, load8-lt}
use vector_forth_kernel.Base.Bitmap.{bitmap_test, bit_is-full}
use vector_forth_kernel.Kernel.Pmm.{
  Pmm, dword, find_bit, find_dword, bitmap_find_free, region_loop, bitmap_find_free_region,
}

pub byte_full : (bm : Mem) (q : ℕ) → load8 bm (q / 8) ≡ 255 → bitmap_test bm q ≡ true
unfolding bitmap_test
byte_full bm q e = rw e (bit_is-full (q % 8) (omega arith))

quarter :
    (q i : ℕ)
    → q / 32 ≡ i
    → (q / 8 ≡ i * 4) ⊎ ((q / 8 ≡ i * 4 + 1) ⊎ ((q / 8 ≡ i * 4 + 2) ⊎ (q / 8 ≡ i * 4 + 3)))
quarter q i e = ground arith

-- A word of ones: its 32 pages are all used.
dword-full : (bm : Mem) (i q : ℕ) → dword bm i ≡ 0xffff_ffff → q / 32 ≡ i → bitmap_test bm q ≡ true
unfolding dword
dword-full bm i q e at =
    let l0 = load8-lt bm (i * 4) in
    let l1 = load8-lt bm (i * 4 + 1) in
    let l2 = load8-lt bm (i * 4 + 2) in
    let l3 = load8-lt bm (i * 4 + 3) in
    byte_full bm q (elim (quarter q i at) [
      | inl e0 ↦ rw e0 (omega arith)
      | inr (inl e1) ↦ rw e1 (omega arith)
      | inr (inr (inl e2)) ↦ rw e2 (omega arith)
      | inr (inr (inr e3)) ↦ rw e3 (omega arith)
    ])

-- The answer is the lowest free page from `lo` on and below `hi` and the end of memory.
abbrev pub Lowest : Mem → (total lo hi : ℕ) → Option ℕ → Type 0
Lowest bm total lo hi none = (q : ℕ) → lo ≤ q → q < hi → q < total → bitmap_test bm q ≡ true
Lowest bm total lo hi (some p) =
    (lo ≤ p)
    × (p < hi)
    × (p < total)
    × (bitmap_test bm p ≡ false)
    × ((q : ℕ) → lo ≤ q → q < p → bitmap_test bm q ≡ true)

-- All pages from `lo` to below `mid` are used, so the search goes on from `mid`.
Lowest-extend :
    (bm : Mem) (total lo mid hi : ℕ) (o : Option ℕ)
    → lo ≤ mid
    → ((q : ℕ) → lo ≤ q → q < mid → q < total → bitmap_test bm q ≡ true)
    → Lowest bm total mid hi o
    → Lowest bm total lo hi o
Lowest-extend bm total lo mid hi none le used rest = λ q a b c. elim (Bool-cases (ltb q mid)) [
  | inl e ↦ used q a (ltb→lt q mid e) c
  | inr e ↦ rest q (ground arith) b c
]
Lowest-extend bm total lo mid hi (some p) le used (a, b, c, d, all) = (
  omega arith,
  b,
  c,
  d,
  λ q x y. elim (Bool-cases (ltb q mid)) [
    | inl e ↦ used q x (ltb→lt q mid e) (omega arith)
    | inr e ↦ all q (ground arith) y
  ],
)

Lowest-widen :
    (bm : Mem) (total lo mid hi p : ℕ)
    → mid ≤ hi
    → Lowest bm total lo mid (some p)
    → Lowest bm total lo hi (some p)
Lowest-widen bm total lo mid hi p le (a, b, c, d, all) = (a, omega arith, c, d, all)

-- A page that the test of the inner loop passes over is used, if it lies below the end of memory.
passed_over :
    (bm : Mem) (total page q : ℕ)
    → (ltb page total && not (bitmap_test bm page)) ≡ false
    → page ≤ q
    → q < page + 1
    → q < total
    → bitmap_test bm q ≡ true
passed_over bm total page q e a b c =
    let at : page ≡ q = omega arith in
    let here : (ltb q total && not (bitmap_test bm q)) ≡ false = rw at at e in
    ground (arith, here, c)

find_bit-Lowest :
    (n total : ℕ) (bm : Mem) (page : ℕ) → Lowest bm total page (page + n) (find_bit n total bm page)
unfolding find_bit
find_bit-Lowest zero total bm page = λ q a b c. absurd (omega arith)
find_bit-Lowest (suc n) total bm page =
    elim (Bool-cases (ltb page total && not (bitmap_test bm page))) [
      | inl e ↦
          let within : ltb page total ≡ true = ground (arith, e) in
          let free : bitmap_test bm page ≡ false = ground (arith, e) in
          rw e (
            omega arith,
            omega arith,
            ltb→lt page total within,
            free,
            λ q a b. absurd (omega arith),
          )
      | inr e ↦
          let to : page + 1 + n ≡ page + suc n = omega arith in
          let rest : Lowest bm total (page + 1) (page + suc n) (find_bit n total bm (page + 1)) =
            rw (sym to) (find_bit-Lowest n total bm (page + 1)) in
          rw e (
            Lowest-extend bm total page (page + 1) (page + suc n) (find_bit n total bm (page + 1))
              (omega arith) (λ q a b c. passed_over bm total page q e a b c) rest)
    ]

find_dword-Lowest :
    (n total : ℕ) (bm : Mem) (i : ℕ)
    → Lowest bm total (i * 32) (i * 32 + n * 32) (find_dword n total bm i)
unfolding find_dword
find_dword-Lowest zero total bm i = λ q a b c. absurd (omega arith)
find_dword-Lowest (suc n) total bm i =
    let mid : (i + 1) * 32 ≡ i * 32 + 32 = omega arith in
    let to : (i + 1) * 32 + n * 32 ≡ i * 32 + suc n * 32 = omega arith in
    let rest : Lowest bm total (i * 32 + 32) (i * 32 + suc n * 32) (find_dword n total bm (i + 1)) =
      rw (sym to, sym mid) (find_dword-Lowest n total bm (i + 1)) in
    let extend =
      λ (used : (q : ℕ) → i * 32 ≤ q → q < i * 32 + 32 → q < total → bitmap_test bm q ≡ true).
        Lowest-extend bm total (i * 32) (i * 32 + 32) (i * 32 + suc n * 32)
          (find_dword n total bm (i + 1)) (omega arith) used rest in
    elim (Bool-cases (dword bm i == 0xffff_ffff)) [
      | inl e ↦
          rw e
            (extend (λ q a b c. dword-full bm i q (==→eq (dword bm i) 0xffff_ffff e) (omega arith)))
      | inr e ↦
          let here = find_bit-Lowest 32 total bm (i * 32) in
          elim (Option-cases (find_bit 32 total bm (i * 32))) [
            | inl none_here ↦ rw (e, none_here) (extend (rw none_here at here))
            | inr (p, found) ↦
                rw (e, found)
                  (Lowest-widen bm total (i * 32) (i * 32 + 32) (i * 32 + suc n * 32) p
                    (omega arith) (rw found at here))
          ]
    ]

pub bitmap_find_free-Lowest :
    (s : Pmm) → Lowest s.bitmap s.total_pages 0 (s.total_pages / 32 * 32) (bitmap_find_free s)
unfolding bitmap_find_free
bitmap_find_free-Lowest s =
    let pages = s.total_pages / 32 * 32 in
    let from : 0 * 32 ≡ 0 = omega arith in
    let to : 0 + pages ≡ pages = omega arith in
    let found = find_dword-Lowest (s.total_pages / 32) s.total_pages s.bitmap 0 in
    rw (from, to) at found

-- All pages of a run are free.
abbrev pub FreeRun : Mem → (start count : ℕ) → Type 0
FreeRun bm start count = (q : ℕ) → start ≤ q → q < start + count → bitmap_test bm q ≡ false

-- What the search answers: the first run of `count` free pages below `hi`, or none if there is none.
abbrev pub FirstRun : Mem → (count hi : ℕ) → Option ℕ → Type 0
FirstRun bm count hi none = (a : ℕ) → a + count ≤ hi → ¬ FreeRun bm a count
FirstRun bm count hi (some p) =
    (p + count ≤ hi) × FreeRun bm p count × ((a : ℕ) → a < p → ¬ FreeRun bm a count)

-- The state of the loop before page `i`: the last `consecutive` pages, from `start` on, are free, and
-- no run begins before them.
record Tracks (bm : Mem) (count i consecutive start : ℕ) : Type 0 where
  short : consecutive < count
  within : consecutive ≤ i
  begins : 0 < consecutive → start + consecutive ≡ i
  free : (q : ℕ) → i ≤ q + consecutive → q < i → bitmap_test bm q ≡ false
  blocked : (a : ℕ) → a + consecutive < i → ¬ FreeRun bm a count

Tracks-free :
    {bm : Mem} {count i c start : ℕ}
    → Tracks bm count i c start
    → bitmap_test bm i ≡ false
    → c + 1 < count
    → Tracks bm count (i + 1) (c + 1) (if c == 0 then i else start)
Tracks-free {bm} {count} {i} {c} {start} t e l =
    let w = t.within in
    let b = t.begins in
    record {
      short = l;
      within = omega arith;
      begins = λ h. ground (arith, b);
      free = λ q x y. elim (Bool-cases (ltb q i)) [
        | inl at ↦ t.free q (omega arith) (ltb→lt q i at)
        | inr at ↦ let here : i ≡ q = ground arith in rw (sym here) e
      ];
      blocked = λ a x. t.blocked a (omega arith);
    }

Tracks-used :
    {bm : Mem} {count i c start : ℕ}
    → Tracks bm count i c start
    → bitmap_test bm i ≡ true
    → Tracks bm count (i + 1) 0 start
Tracks-used {bm} {count} {i} {c} {start} t e =
    let w = t.within in
    let s = t.short in
    record {
      short = omega arith;
      within = omega arith;
      begins = λ h. absurd (omega arith);
      free = λ q x y. absurd (omega arith);
      blocked = λ a x run. elim (Bool-cases (ltb (a + c) i)) [
        | inl at ↦ t.blocked a (ltb→lt (a + c) i at) run
        | inr at ↦ let here = run i (omega arith) (ground arith) in absurd cc
      ];
    }

Tracks-done :
    {bm : Mem} {count i c start hi : ℕ}
    → Tracks bm count i c start
    → bitmap_test bm i ≡ false
    → count ≤ c + 1
    → i < hi
    → FirstRun bm count hi (some (if c == 0 then i else start))
Tracks-done {bm} {count} {i} {c} {start} {hi} t e l h =
    let w = t.within in
    let s = t.short in
    let b = t.begins in
    let from : (if c == 0 then i else start) + c ≡ i = ground (arith, b) in
    (
      omega arith,
      λ q x y. elim (Bool-cases (ltb q i)) [
        | inl at ↦ t.free q (omega arith) (ltb→lt q i at)
        | inr at ↦ let here : i ≡ q = ground arith in rw (sym here) e
      ],
      λ a x. t.blocked a (omega arith),
    )

region_loop-FirstRun :
    (n : ℕ) (bm : Mem) (count i c start : ℕ)
    → Tracks bm count i c start
    → FirstRun bm count (i + n) (region_loop n bm count i c start)
unfolding region_loop
region_loop-FirstRun zero bm count i c start t = λ a x. let s = t.short in t.blocked a (omega arith)
region_loop-FirstRun (suc n) bm count i c start t =
    let to : i + 1 + n ≡ i + suc n = omega arith in
    elim (Bool-cases (bitmap_test bm i)) [
      | inl used ↦
          rw (used, sym to) (region_loop-FirstRun n bm count (i + 1) 0 start (Tracks-used t used))
      | inr free ↦ elim (Bool-cases (leb count (c + 1))) [
        | inl e ↦ rw (free, e) (Tracks-done t free (leb→le count (c + 1) e) (omega arith))
        | inr e ↦
            rw (free, e, sym to)
              (region_loop-FirstRun n bm count (i + 1) (c + 1) (if c == 0 then i else start)
                (Tracks-free t free (ground arith)))
      ]
    ]

pub bitmap_find_free_region-FirstRun :
    (s : Pmm) (count : ℕ)
    → 0 < count
    → FirstRun s.bitmap count s.total_pages (bitmap_find_free_region s count)
unfolding bitmap_find_free_region
bitmap_find_free_region-FirstRun s count h =
    let to : 0 + s.total_pages ≡ s.total_pages = omega arith in
    let found = region_loop-FirstRun s.total_pages s.bitmap count 0 0 0 (record {
      short = h;
      within = omega arith;
      begins = λ x. absurd (omega arith);
      free = λ q x y. absurd (omega arith);
      blocked = λ a x. absurd (omega arith);
    }) in
    rw to at found
