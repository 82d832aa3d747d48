-- ===== src/Fs/Blocks/Get/Evict.antt =====
-- `block_get` on a hit and on a miss.
use mathlib.Core.Path.{subst}
use vector_forth_kernel.Base.{
  ℕ, ◌+◌, ◌<◌, ◌≤◌, ◌≡◌, ◌≢◌, ◌⊎◌, inl, inr, refl, sym, ap, ◌∙◌, true, false, arith, get_or-set_ne,
  some, none,
}
use vector_forth_kernel.Fs.Blocks.{
  Cache, empty_buffer, holds, find_buffer, num_buffers, write_buffer_to_disk, use_buffer,
  load_buffer, block_get, victim,
}
use vector_forth_kernel.Fs.Blocks.Bytes.{max_blocks}
use vector_forth_kernel.Fs.Blocks.Find.{find_buffer-FoundIn, oldest-lt, oldest-OldestIn}
use vector_forth_kernel.Fs.Blocks.View.{at, IsCache, at-set_self, at-set}
use vector_forth_kernel.Fs.Blocks.Get.{
  clean_buffer, write_cases, write_buffer-IsCache, view-write_buffer,
}
use vector_forth_kernel.Fs.Blocks.Get.Load.{Got, use_buffer-Got, load_buffer-Got}

victim-lt : (s : Cache) → IsCache s → victim s < num_buffers
victim-lt s c =
    let whole = c.size in
    let within = oldest-lt s.buffers 0 0 0xffff_ffff_ffff_ffff (omega arith) in omega arith

pub written_holds :
    (m idx i : ℕ) (s : Cache)
    → IsCache s
    → idx < num_buffers
    → holds m (at (write_buffer_to_disk idx s).buffers i) ≡ holds m (at s.buffers i)
written_holds m idx i s c h = elim (write_cases idx s) [
  | inl (e, clean) ↦ ap (λ t. holds m (at t.buffers i)) e
  | inr (e, v, d) ↦
      ap (λ t. holds m (at t.buffers i)) e
      ∙ at-set s.buffers idx (clean_buffer (at s.buffers idx)) c.size h
          (λ x. holds m x ≡ holds m (at s.buffers i)) i (λ x. ap (λ k. holds m (at s.buffers k)) x)
          (λ x. refl)
]

pub written_clean :
    (idx : ℕ) (s : Cache)
    → IsCache s
    → idx < num_buffers
    → (at (write_buffer_to_disk idx s).buffers idx).valid ≡ true
    → (at (write_buffer_to_disk idx s).buffers idx).dirty ≡ false
written_clean idx s c h = elim (write_cases idx s) [
  | inl (e, clean) ↦
      subst (λ t. (at t.buffers idx).valid ≡ true → (at t.buffers idx).dirty ≡ false) (sym e) clean
  | inr (e, v, d) ↦
      subst (λ t. (at t.buffers idx).valid ≡ true → (at t.buffers idx).dirty ≡ false) (sym e)
        (λ v'.
          ap (λ x. x.dirty) (at-set_self s.buffers idx (clean_buffer (at s.buffers idx)) c.size h))
]

miss-Got :
    (now n idx : ℕ) (s : Cache)
    → IsCache s
    → n < max_blocks
    → idx < num_buffers
    → ((i : ℕ) → i < num_buffers → holds n (at s.buffers i) ≡ false)
    → Got n s (load_buffer now n idx (write_buffer_to_disk idx s))
miss-Got now n idx s c hn h absent =
    let out = write_buffer_to_disk idx s in
    let (kept, within, here, shown, others) =
      load_buffer-Got now n idx out (write_buffer-IsCache idx s c h) h hn
        (λ i w. written_holds n idx i s c h ∙ absent i w) (written_clean idx s c h) in
    (
      kept,
      within,
      here,
      shown ∙ view-write_buffer idx n s c h hn,
      λ m hm. others m hm ∙ view-write_buffer idx m s c h hm,
    )

block_get-hit :
    (now n i : ℕ) (s : Cache)
    → find_buffer s.buffers n 0 ≡ some i
    → block_get now n s ≡ use_buffer now i s
unfolding block_get
block_get-hit now n i s e = rw (block_get, e)

block_get-miss :
    (now n : ℕ) (s : Cache)
    → find_buffer s.buffers n 0 ≡ none
    → block_get now n s ≡ load_buffer now n (victim s) (write_buffer_to_disk (victim s) s)
unfolding block_get
block_get-miss now n s e = rw (block_get, e)

-- `block_get` of a block with a 28-bit sector address, on a well-formed cache: the cache stays well
-- formed, the buffer that it returns holds the block and shows what the cache showed of it before, that
-- is the cached block or else the one on the disk, and every block shows what it showed before,
-- whichever was evicted. The CRC in the header is not part of what is shown.
pub block_get-Got :
    (now n : ℕ) (s : Cache) → IsCache s → n < max_blocks → Got n s (block_get now n s)
block_get-Got now n s c hn = elim (find_buffer-FoundIn s.buffers n 0) [
  | inl (j, e, within, h) ↦
      let whole = c.size in
      let there : 0 + j ≡ j = omega arith in
      subst (Got n s) (sym (block_get-hit now n j s (e ∙ ap some there)))
        (use_buffer-Got now n j s c (omega arith) h)
  | inr (e, others) ↦
      let whole = c.size in
      subst (Got n s) (sym (block_get-miss now n s e))
        (miss-Got now n (victim s) s c hn (victim-lt s c) (λ i w. others i (omega arith)))
]

-- What `victim` gives up: a buffer without a block, or else, if all hold one, the one whose block was
-- used longest ago.
abbrev pub LeastUsed : Cache → ℕ → Type 0
LeastUsed s v =
    (v < num_buffers)
    × (((at s.buffers v).valid ≡ false)
        ⊎ ((i : ℕ)
            → i < num_buffers
            → ((at s.buffers i).valid ≡ true)
              × ((at s.buffers v).last_used ≤ (at s.buffers i).last_used)))

victim-LeastUsed :
    (s : Cache)
    → IsCache s
    → ((i : ℕ) → i < num_buffers → (at s.buffers i).last_used ≤ 0xffff_ffff_ffff_ffff)
    → LeastUsed s (victim s)
victim-LeastUsed s c times =
    let whole = c.size in
    (
      victim-lt s c,
      elim (oldest-OldestIn s.buffers 0 0 0xffff_ffff_ffff_ffff) [
        | inl (j, e, within, inv) ↦
            inl
              (ap (λ k. (at s.buffers k).valid) (e ∙ (let z : 0 + j ≡ j = omega arith in z)) ∙ inv)
        | inr (vs, inl (e, all)) ↦ inr (λ i w. (
          vs i (omega arith),
          subst (λ k. (at s.buffers k).last_used ≤ (at s.buffers i).last_used) (sym e)
              (omega (arith, times 0 (omega arith), all i (omega arith))),
        ))
        | inr (vs, inr (j, e, within, lt, all)) ↦ inr (λ i w. (
          vs i (omega arith),
          subst (λ k. (at s.buffers k).last_used ≤ (at s.buffers i).last_used)
              (sym (e ∙ (let z : 0 + j ≡ j = omega arith in z))) (all i (omega arith)),
        ))
      ],
    )

kept_buffers :
    (now n idx i : ℕ) (s : Cache)
    → idx ≢ i
    → at (load_buffer now n idx (write_buffer_to_disk idx s)).buffers i ≡ at s.buffers i
unfolding load_buffer
kept_buffers now n idx i s ne =
    get_or-set_ne (write_buffer_to_disk idx s).buffers idx i _ empty_buffer ne
    ∙ elim (write_cases idx s) [
      | inl (e, clean) ↦ ap (λ t. at t.buffers i) e
      | inr (e, v, d) ↦ ap (λ t. at t.buffers i) e ∙ get_or-set_ne s.buffers idx i _ empty_buffer ne
    ]

miss-LeastUsed :
    (now n : ℕ) (s : Cache)
    → IsCache s
    → ((i : ℕ) → i < num_buffers → (at s.buffers i).last_used ≤ 0xffff_ffff_ffff_ffff)
    → let t = load_buffer now n (victim s) (write_buffer_to_disk (victim s) s) in
      LeastUsed s t.most_recent_buffer
      × (((i : ℕ) → t.most_recent_buffer ≢ i → at t.buffers i ≡ at s.buffers i))
unfolding load_buffer
miss-LeastUsed now n s c times =
    (victim-LeastUsed s c times, λ i ne. kept_buffers now n (victim s) i s ne)

-- When no buffer holds block `n`, the buffer that `block_get` on a well-formed cache with 64-bit times
-- takes is one without a block or else the one that was used longest ago, and no other buffer changes.
pub block_get-LeastUsed :
    (now n : ℕ) (s : Cache)
    → IsCache s
    → ((i : ℕ) → i < num_buffers → (at s.buffers i).last_used ≤ 0xffff_ffff_ffff_ffff)
    → find_buffer s.buffers n 0 ≡ none
    → let t = block_get now n s in
      LeastUsed s t.most_recent_buffer
      × (((i : ℕ) → t.most_recent_buffer ≢ i → at t.buffers i ≡ at s.buffers i))
block_get-LeastUsed now n s c times e =
    subst
      (λ t.
        LeastUsed s t.most_recent_buffer
        × (((i : ℕ) → t.most_recent_buffer ≢ i → at t.buffers i ≡ at s.buffers i)))
      (sym (block_get-miss now n s e)) (miss-LeastUsed now n s c times)
