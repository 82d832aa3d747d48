-- ===== src/Kernel/Pmm/Count.antt =====
-- The count of used pages agrees with the bitmap; the marking loops of kernel/memory/pmm.c.
use vector_forth_kernel.Base.{
  ℕ, zero, suc, ◌+◌, ◌≤◌, ◌<◌, ◌≡◌, inl, inr, refl, ◌∙◌, Bool, true, false, not, ◌&&◌, ◌||◌, arith,
  ◌==◌, ltb, leb, if◌then◌else◌, Bool-cases, ltb→lt,
}
use vector_forth_kernel.Base.Word.{two64, add64}
use vector_forth_kernel.Base.Bitmap.{
  bitmap_test, bitmap_test-set, bitmap_test-clear, count, count-le, count-set, count-clear,
}
use vector_forth_kernel.Kernel.Pmm.{
  Pmm, take_page, give_page, free_one, use_one, free_loop, use_loop, free_until,
}

-- The counter is the number of set bits, of at most 2 ^ 20 pages (4 GB).
pub record Valid (s : Pmm) : Type 0 where
  pub counted : s.used_pages ≡ count s.total_pages s.bitmap
  pub small : s.total_pages ≤ 0x10_0000

-- From `s` to `t` the pages of `r` below the end of memory come to be used (`b` true) or free.
pub record Turns (b : Bool) (r : ℕ → Bool) (s t : Pmm) : Type 0 where
  pub total : t.total_pages ≡ s.total_pages
  pub memory : t.total_memory ≡ s.total_memory
  pub valid : Valid s → Valid t
  pub test :
      (q : ℕ)
      → bitmap_test t.bitmap q ≡ (if r q && ltb q s.total_pages then b else bitmap_test s.bitmap q)

pub Turns-none :
    (b : Bool) (r : ℕ → Bool) (s : Pmm)
    → ((q : ℕ) → q < s.total_pages → r q ≡ false)
    → Turns b r s s
Turns-none b r s h = record {
  total = refl;
  memory = refl;
  valid = λ v. v;
  test = λ q. elim (Bool-cases (ltb q s.total_pages)) [
    | inl e ↦ rw (h q (ltb→lt q s.total_pages e))
    | inr e ↦ rw e (ground arith)
  ];
}

pub Turns-then :
    {b : Bool} {r1 r2 r : ℕ → Bool} {s t u : Pmm}
    → Turns b r1 s t
    → Turns b r2 t u
    → ((q : ℕ) → q < s.total_pages → r q ≡ (r1 q || r2 q))
    → Turns b r s u
Turns-then {b} {r1} {r2} {r} {s} {t} {u} x y h = record {
  total = y.total ∙ x.total;
  memory = y.memory ∙ x.memory;
  valid = λ v. y.valid (x.valid v);
  test = λ q. elim (Bool-cases (ltb q s.total_pages)) [
    | inl e ↦ y.test q ∙ rw (x.total, x.test q, e, h q (ltb→lt q s.total_pages e)) (ground arith)
    | inr e ↦ y.test q ∙ rw (x.total, x.test q, e) (ground arith)
  ];
}

take-Valid :
    (page : ℕ) (s : Pmm)
    → page < s.total_pages
    → bitmap_test s.bitmap page ≡ false
    → Valid s
    → Valid (take_page page s)
unfolding take_page
take-Valid page s l e v =
    let c = v.counted in
    let m = v.small in
    let b = count-le s.total_pages s.bitmap in
    let more = count-set s.total_pages page s.bitmap l e in
    record { counted = rw more (omega arith); small = m }

give-Valid :
    (page : ℕ) (s : Pmm)
    → page < s.total_pages
    → bitmap_test s.bitmap page ≡ true
    → Valid s
    → Valid (give_page page s)
unfolding give_page
give-Valid page s l e v =
    let c = v.counted in
    let m = v.small in
    let b = count-le s.total_pages s.bitmap in
    let fewer = count-clear s.total_pages page s.bitmap l e in
    record { counted = omega arith; small = m }

pub take_page-Turns :
    (page : ℕ) (s : Pmm)
    → page < s.total_pages
    → bitmap_test s.bitmap page ≡ false
    → Turns true (λ q. page == q) s (take_page page s)
unfolding take_page
take_page-Turns page s l e = record {
  total = refl;
  memory = refl;
  valid = λ v. take-Valid page s l e v;
  test = λ q. bitmap_test-set s.bitmap page q ∙ ground (arith, l);
}

pub give_page-Turns :
    (page : ℕ) (s : Pmm)
    → page < s.total_pages
    → bitmap_test s.bitmap page ≡ true
    → Turns false (λ q. page == q) s (give_page page s)
unfolding give_page
give_page-Turns page s l e = record {
  total = refl;
  memory = refl;
  valid = λ v. give-Valid page s l e v;
  test = λ q. bitmap_test-clear s.bitmap page q ∙ ground (arith, l);
}

-- Nothing to do: the page lies outside memory or is as it should be.
stays :
    (b : Bool) (page : ℕ) (s : Pmm)
    → (page < s.total_pages → bitmap_test s.bitmap page ≡ b)
    → Turns b (λ q. page == q) s s
stays b page s h = record {
  total = refl;
  memory = refl;
  valid = λ v. v;
  test = λ q. elim (Bool-cases (page == q && ltb q s.total_pages)) [
    | inl e ↦
        let at : page ≡ q = ground (arith, e) in
        let in_memory : q < s.total_pages = ground (arith, e) in rw e (rw at at h in_memory)
    | inr e ↦ rw e
  ];
}

pub free_one-Turns : (page : ℕ) (s : Pmm) → Turns false (λ q. page == q) s (free_one page s)
unfolding free_one
free_one-Turns page s = elim (Bool-cases (ltb page s.total_pages && bitmap_test s.bitmap page)) [
  | inl e ↦ rw e (give_page-Turns page s (ground (arith, e)) (ground (arith, e)))
  | inr e ↦ rw e (stays false page s (λ l. ground (arith, e, l)))
]

pub use_one-Turns : (page : ℕ) (s : Pmm) → Turns true (λ q. page == q) s (use_one page s)
unfolding use_one
use_one-Turns page s =
    elim (Bool-cases (ltb page s.total_pages && not (bitmap_test s.bitmap page))) [
      | inl e ↦ rw e (take_page-Turns page s (ground (arith, e)) (ground (arith, e)))
      | inr e ↦ rw e (stays true page s (λ l. ground (arith, e, l)))
    ]

-- The pages from `page` on, `n` of them.
abbrev pub run_of : ℕ → ℕ → ℕ → Bool
run_of page n q = leb page q && ltb q (page + n)

pub use_loop-Turns :
    (n page : ℕ) (s : Pmm) → page + n < two64 → Turns true (run_of page n) s (use_loop n page s)
unfolding use_loop
use_loop-Turns zero page s h = Turns-none true (run_of page 0) s (λ q l. ground arith)
use_loop-Turns (suc n) page s h =
    let to : add64 page 1 ≡ page + 1 = omega arith in
    rw to (
      Turns-then (use_one-Turns page s) (use_loop-Turns n (page + 1) (use_one page s) (omega arith))
        (λ q l. ground arith))

pub free_loop-Turns :
    (n page : ℕ) (s : Pmm) → page + n < two64 → Turns false (run_of page n) s (free_loop n page s)
unfolding free_loop
free_loop-Turns zero page s h = Turns-none false (run_of page 0) s (λ q l. ground arith)
free_loop-Turns (suc n) page s h =
    let to : add64 page 1 ≡ page + 1 = omega arith in
    rw to (
      Turns-then (free_one-Turns page s)
        (free_loop-Turns n (page + 1) (free_one page s) (omega arith)) (λ q l. ground arith))

free_until-in :
    (page : ℕ) (s : Pmm)
    → ltb page s.total_pages ≡ true
    → (if bitmap_test s.bitmap page then give_page page s else s) ≡ free_one page s
unfolding free_one
free_until-in page s e = rw e

pub free_until-Turns : (n page : ℕ) (s : Pmm) → Turns false (run_of page n) s (free_until n page s)
unfolding free_until
free_until-Turns zero page s = Turns-none false (run_of page 0) s (λ q l. ground arith)
free_until-Turns (suc n) page s = elim (Bool-cases (ltb page s.total_pages)) [
  | inl e ↦
      rw (e, free_until-in page s e)
        (Turns-then (free_one-Turns page s) (free_until-Turns n (page + 1) (free_one page s))
          (λ q l. ground arith))
  | inr e ↦ rw e (Turns-none false (run_of page (suc n)) s (λ q l. ground (arith, e, l)))
]
