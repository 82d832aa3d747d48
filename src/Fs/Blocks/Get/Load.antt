-- ===== src/Fs/Blocks/Get/Load.antt =====
-- A hit of `block_get`, and a miss that reads a block into a buffer that is clean.
use vector_forth_kernel.Base.{
  ℕ, ◌<◌, ◌≡◌, ◌≢◌, inl, inr, refl, sym, ap, ◌∙◌, true, false, ◌&&◌, ◌==◌, ==→eq, ==_refl,
  not-==→ne, ne→not-==, Bool-cases, Text,
}
use vector_forth_kernel.Fs.Blocks.{
  Disk, Buffer, Cache, holds, read_block, num_buffers, use_buffer, load_buffer, recent,
}
use vector_forth_kernel.Fs.Blocks.Bytes.{body, max_blocks, length-read_block}
use vector_forth_kernel.Fs.Blocks.View.{
  at, view, IsCache, Sees, view-Sees, Sees-view, held, at-set_self, at-set, none_held, Sees-set,
  set-IsCache,
}

-- A call of `block_get` that is given block `n`: its buffer holds the block, which is what the cache
-- showed, and the cache shows of every block what it showed before.
abbrev pub Got : ℕ → Cache → Cache → Type 0
Got n s t =
    IsCache t
    × (t.most_recent_buffer < num_buffers)
    × (holds n (recent t) ≡ true)
    × (body (recent t).block ≡ view s n)
    × ((m : ℕ) → m < max_blocks → view t m ≡ view s m)

pub use_buffer-Got :
    (now n i : ℕ) (s : Cache)
    → IsCache s
    → i < num_buffers
    → holds n (at s.buffers i) ≡ true
    → Got n s (use_buffer now i s)
unfolding use_buffer
use_buffer-Got now n i s c h e =
    let b = record (at s.buffers i) { last_used = now } in
    let kept =
      set-IsCache s.buffers i b c.size h i s.disk s.log c.once h c.sectors (c.each i h)
        (λ j w ne. c.each j w) (λ j w ne v vj eq. ne (c.once i j h w v vj eq)) in
    let self = at-set_self s.buffers i b c.size h in
    (
      kept,
      h,
      ap (holds n) self ∙ e,
      ap (λ x. body x.block) self ∙ sym (Sees-view s n _ c (inl (i, h, e, refl))),
      λ m hm. Sees-view (use_buffer now i s) m (view s m) kept (
          Sees-set s.buffers i b c.size h s.disk s.disk m (view s m) refl (λ e. refl) (λ o. refl)
            (view-Sees s m c)),
    )

abbrev loaded : ℕ → ℕ → Disk → Buffer
loaded now n d = record {
  block_num = n;
  dirty = false;
  valid = true;
  last_used = now;
  block = read_block d n;
}

-- A block that is in no buffer is read into buffer `idx`, whose old block is on the disk.
module _ (now n idx : ℕ) (s : Cache) (c : IsCache s) (h : idx < num_buffers) (hn : n < max_blocks)
    (absent : (i : ℕ) → i < num_buffers → holds n (at s.buffers i) ≡ false)
    (clean : (at s.buffers idx).valid ≡ true → (at s.buffers idx).dirty ≡ false) where
  loaded-IsCache : IsCache (load_buffer now n idx s)
  unfolding load_buffer
  loaded-IsCache =
      set-IsCache s.buffers idx (loaded now n s.disk) c.size h idx s.disk _ c.once h c.sectors
        (λ v. (length-read_block n s.disk c.sectors, hn, λ d. refl)) (λ j w ne. c.each j w)
        (λ j w ne v vj eq. absurd (
          let clash : true ≡ false =
            sym (
              ap (λ x. x && (at s.buffers j).block_num == n) vj
              ∙ ap (λ k. k == n) (sym eq)
              ∙ ==_refl n)
            ∙ absent j w in
          cc))

  -- The block that was in the buffer is in no other.
  evicted :
      (m i : ℕ)
      → holds m (at s.buffers idx) ≡ true
      → i < num_buffers
      → idx ≢ i
      → holds m (at s.buffers i) ≡ false
  evicted m i e w ne = elim (Bool-cases (holds m (at s.buffers i))) [
    | inr f ↦ f
    | inl t ↦
        let (v, num) = held m (at s.buffers idx) e in
        let (v', num') = held m (at s.buffers i) t in
        absurd (ne (c.once idx i h w v v' (num ∙ sym num')))
  ]

  loaded-Sees :
      (m : ℕ) (v : Text)
      → m < max_blocks
      → Sees s.buffers s.disk m v
      → Sees (load_buffer now n idx s).buffers s.disk m v
  unfolding load_buffer
  loaded-Sees m v hm (inr (others, e)) = elim (Bool-cases (n == m)) [
    | inl at_n ↦
        let self = at-set_self s.buffers idx (loaded now n s.disk) c.size h in
        inl (
          idx,
          h,
          ap (holds m) self ∙ at_n,
          ap (λ x. body x.block) self ∙ ap (λ k. body (read_block s.disk k)) (==→eq n m at_n) ∙ e,
        )
    | inr away ↦
        inr
          (none_held s.buffers idx (loaded now n s.disk) c.size h m away (λ i w ne. others i w), e)
  ]
  loaded-Sees m v hm (inl (i, w, e, eq)) = elim (Bool-cases (idx == i)) [
    | inl here ↦
        let same : idx ≡ i = ==→eq idx i here in
        let e' : holds m (at s.buffers idx) ≡ true = ap (λ k. holds m (at s.buffers k)) same ∙ e in
        let (val, num) = held m (at s.buffers idx) e' in
        let (whole, range, on_disk) = c.each idx h val in
        let away : (n == m) ≡ false = ne→not-== n m (λ x. absurd (
          let clash : true ≡ false =
            sym e' ∙ ap (λ k. holds k (at s.buffers idx)) (sym x) ∙ absent idx h in
          cc)) in
        inr (
          none_held s.buffers idx (loaded now n s.disk) c.size h m away
              (λ j wj ne. evicted m j e' wj ne),
          ap (λ k. body (read_block s.disk k)) (sym num)
              ∙ sym (on_disk (clean val))
              ∙ ap (λ k. body (at s.buffers k).block) same
              ∙ eq,
        )
    | inr ne ↦ inl (
      i,
      w,
      at-set s.buffers idx (loaded now n s.disk) c.size h (λ x. holds m x ≡ true) i
          (λ x. absurd (not-==→ne idx i ne x)) (λ x. e),
      at-set s.buffers idx (loaded now n s.disk) c.size h (λ x. body x.block ≡ v) i
          (λ x. absurd (not-==→ne idx i ne x)) (λ x. eq),
    )
  ]

  pub load_buffer-Got : Got n s (load_buffer now n idx s)
  unfolding load_buffer
  load_buffer-Got =
      let self = at-set_self s.buffers idx (loaded now n s.disk) c.size h in
      (
        loaded-IsCache,
        h,
        ap (holds n) self ∙ ==_refl n,
        ap (λ x. body x.block) self ∙ sym (Sees-view s n _ c (inr (absent, refl))),
        λ m hm.
            Sees-view (load_buffer now n idx s) m (view s m) loaded-IsCache
              (loaded-Sees m (view s m) hm (view-Sees s m c)),
      )
