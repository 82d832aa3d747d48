-- ===== src/Fs/Blocks/Flush.antt =====
-- `block_update` after a store to the block, and `block_flush`.
use mathlib.Core.Path.{subst}
use vector_forth_kernel.Base.{
  ℕ, zero, suc, ◌+◌, ◌<◌, ◌≡◌, ◌≢◌, inl, inr, refl, sym, ap, ◌∙◌, true, false, ◌&&◌, arith, ◌==◌,
  if◌then◌else◌, set, replicate, length, set-set, ==→eq, ==_refl, Bool-cases, Text,
}
use vector_forth_kernel.Fs.Blocks.{
  Buffer, Cache, cold_start, holds, read_block, num_buffers, write_buffer_to_disk, edit_block,
  block_update, recent, flush_loop, block_flush, block_init, empty_buffer,
}
use vector_forth_kernel.Fs.Blocks.Bytes.{body, max_blocks}
use vector_forth_kernel.Fs.Blocks.View.{
  at, view, IsCache, view-Sees, Sees-view, held, at-set_self, at-set, Sees-set, set-IsCache,
}
use vector_forth_kernel.Fs.Blocks.Get.{
  clean_buffer, write_cases, write_buffer-IsCache, view-write_buffer,
}
use vector_forth_kernel.Fs.Blocks.Get.Evict.{written_clean}

abbrev dirty_buffer : (Text → Text) → Buffer → Buffer
dirty_buffer f b = record b { block = f b.block; dirty = true }

abbrev dirtied : (Text → Text) → Cache → Cache
dirtied f s = record s { buffers = set s.buffers s.most_recent_buffer (dirty_buffer f (recent s)) }

-- The store and `block_update` together.
store_dirty :
    (f : Text → Text) (s : Cache)
    → IsCache s
    → (recent s).valid ≡ true
    → block_update (edit_block f s) ≡ dirtied f s
unfolding edit_block block_update
store_dirty f s c v =
    let b : Buffer = record (recent s) { block = f (recent s).block } in
    let self = at-set_self s.buffers s.most_recent_buffer b c.size c.recent_within in
    rw self (
      ap
        (λ valid.
          if valid
          then record s {
            buffers =
                set (set s.buffers s.most_recent_buffer b) s.most_recent_buffer
                  (dirty_buffer f (recent s));
          }
          else record s { buffers = set s.buffers s.most_recent_buffer b })
        v
      ∙ ap (λ bs. record s { buffers = bs })
          (set-set s.buffers s.most_recent_buffer b (dirty_buffer f (recent s))))

-- The block that `block_get` gave has the bytes `b`, other blocks are as they were.
abbrev pub Stored : ℕ → Text → Cache → Cache → Type 0
Stored n b s t =
    IsCache t
    × (view t n ≡ body b)
    × (holds n (recent t) ≡ true)
    × ((recent t).block ≡ b)
    × ((m : ℕ) → m < max_blocks → m ≢ n → view t m ≡ view s m)

dirtied-Stored :
    (f : Text → Text) (n : ℕ) (s : Cache)
    → IsCache s
    → holds n (recent s) ≡ true
    → length (f (recent s).block) ≡ 1024
    → Stored n (f (recent s).block) s (dirtied f s)
dirtied-Stored f n s c h whole =
    let r = s.most_recent_buffer in
    let b = dirty_buffer f (recent s) in
    let (v, num) = held n (recent s) h in
    let (old, range, same) = c.each r c.recent_within v in
    let self = at-set_self s.buffers r b c.size c.recent_within in
    let kept : IsCache (dirtied f s) =
      set-IsCache s.buffers r b c.size c.recent_within r s.disk s.log c.once c.recent_within
        c.sectors (λ v. (whole, range, λ d. let clash : true ≡ false = d in absurd cc))
        (λ j w ne. c.each j w) (λ j w ne v vj eq. ne (c.once r j c.recent_within w v vj eq)) in
    (
      kept,
      Sees-view (dirtied f s) n (body (f (recent s).block)) kept
          (inl (r, c.recent_within, ap (holds n) self ∙ h, ap (λ x. body x.block) self)),
      ap (holds n) self ∙ h,
      ap (λ x. x.block) self,
      λ m hm ne. Sees-view (dirtied f s) m (view s m) kept (
          Sees-set s.buffers r b c.size c.recent_within s.disk s.disk m (view s m) refl
            (λ e. absurd (ne (sym (held m (recent s) e).1 ∙ num))) (λ o. refl) (view-Sees s m c)),
    )

-- On a well-formed cache whose most recent buffer holds block `n`, a store through the pointer that
-- `block_get` gave, of any bytes but keeping the size of a block, and then `block_update` keep the
-- cache well formed; block `n` shows the new bytes, and every other block what it showed before.
pub block_update-Stored :
    (f : Text → Text) (n : ℕ) (s : Cache)
    → IsCache s
    → holds n (recent s) ≡ true
    → length (f (recent s).block) ≡ 1024
    → Stored n (f (recent s).block) s (block_update (edit_block f s))
block_update-Stored f n s c h whole =
    subst (Stored n (f (recent s).block) s) (sym (store_dirty f s c (held n (recent s) h).0))
      (dirtied-Stored f n s c h whole)

abbrev IsClean : Cache → ℕ → Type 0
IsClean s i = (at s.buffers i).valid ≡ true → (at s.buffers i).dirty ≡ false

-- Writing one buffer back leaves the others as clean as they were.
others-IsClean :
    (idx i : ℕ) (s : Cache)
    → IsCache s
    → idx < num_buffers
    → IsClean s i
    → IsClean (write_buffer_to_disk idx s) i
others-IsClean idx i s c h clean = elim (write_cases idx s) [
  | inl (e, _) ↦ subst (λ t. IsClean t i) (sym e) clean
  | inr (e, v, d) ↦
      subst (λ t. IsClean t i) (sym e)
        (at-set s.buffers idx (clean_buffer (at s.buffers idx)) c.size h
          (λ x. x.valid ≡ true → x.dirty ≡ false) i (λ eq v'. refl) (λ ne. clean))
]

abbrev pub Flushed : Cache → Cache → Type 0
Flushed s t =
    IsCache t
    × ((i : ℕ) → i < num_buffers → (at t.buffers i).valid ≡ true → (at t.buffers i).dirty ≡ false)
    × ((m : ℕ) → m < max_blocks → view t m ≡ view s m)

flush_loop-Flushed :
    (k i : ℕ) (s : Cache)
    → IsCache s
    → k + i ≡ num_buffers
    → ((j : ℕ) → j < i → IsClean s j)
    → Flushed s (flush_loop k i s)
unfolding flush_loop
flush_loop-Flushed zero i s c e clean = (c, λ j w. clean j (omega arith), λ m hm. refl)
flush_loop-Flushed (suc k) i s c e clean =
    let next = write_buffer_to_disk i s in
    let kept = write_buffer-IsCache i s c (omega arith) in
    let now : (j : ℕ) → j < i + 1 → IsClean next j = λ j h. elim (Bool-cases (i == j)) [
      | inl at_i ↦ subst (IsClean next) (==→eq i j at_i) (written_clean i s c (omega arith))
      | inr ne ↦ others-IsClean i j s c (omega arith) (clean j (ground (arith, ne)))
    ] in
    let (whole, all, shown) = flush_loop-Flushed k (i + 1) next kept (omega arith) now in
    (whole, all, λ m hm. shown m hm ∙ view-write_buffer i m s c (omega arith) hm)

on_disk :
    (t : Cache) (m : ℕ)
    → IsCache t
    → ((i : ℕ) → i < num_buffers → IsClean t i)
    → body (read_block t.disk m) ≡ view t m
on_disk t m c clean = elim (view-Sees t m c) [
  | inr (none_holds, e) ↦ e
  | inl (i, w, h, e) ↦
      let (v, num) = held m (at t.buffers i) h in
      let (whole, range, same) = c.each i w v in
      ap (λ k. body (read_block t.disk k)) (sym num) ∙ sym (same (clean i w v)) ∙ e
]

-- After `block_flush` of a well-formed cache no buffer is dirty, every block with a 28-bit sector
-- address shows what it showed before, and that is what the disk holds, but for the CRC in the header.
pub block_flush-Flushed :
    (s : Cache)
    → IsCache s
    → Flushed s (block_flush s)
      × ((m : ℕ) → m < max_blocks → body (read_block (block_flush s).disk m) ≡ view s m)
unfolding block_flush
block_flush-Flushed s c =
    let (whole, clean, shown) =
      flush_loop-Flushed num_buffers 0 s c (omega arith) (λ j h. absurd (omega arith)) in
    ((whole, clean, shown), λ m hm. on_disk (flush_loop num_buffers 0 s) m whole clean ∙ shown m hm)

unheld : (n i k : ℕ) → holds n (at (replicate k empty_buffer) i) ≡ false
unheld n i zero = refl
unheld n zero (suc k) = refl
unheld n (suc i) (suc k) = unheld n i k

unheld→invalid : (b : Buffer) → ((n : ℕ) → holds n b ≡ false) → b.valid ≡ false
unheld→invalid b h = elim (Bool-cases b.valid) [
  | inr v ↦ v
  | inl v ↦
      let clash : true ≡ false =
        sym (ap (λ x. x && b.block_num == b.block_num) v ∙ ==_refl b.block_num) ∙ h b.block_num in
      absurd cc
]

-- `block_init` leaves a well-formed cache.
pub block_init-IsCache :
    (s : Cache)
    → s.most_recent_buffer < num_buffers
    → ((x : ℕ) → length (s.disk x) ≡ 512)
    → IsCache (block_init s)
unfolding block_init
block_init-IsCache s recent_ok sectors =
    let invalid : (i : ℕ)
        → (at (replicate num_buffers empty_buffer) i).valid ≡ true
        → true ≡ false =
      λ i v.
        sym v
        ∙ unheld→invalid (at (replicate num_buffers empty_buffer) i)
            (λ n. unheld n i num_buffers) in
    record {
      size = refl;
      recent_within = recent_ok;
      sectors = sectors;
      each = λ i w v. let clash = invalid i v in absurd cc;
      once = λ i j wi wj vi. let clash = invalid i vi in absurd cc;
    }

-- When the machine is started again after a `block_flush` of a well-formed cache, `block_init` leaves a
-- well-formed cache that shows of every block with a 28-bit sector address what the old cache showed.
pub block_init-block_flush :
    (s : Cache)
    → IsCache s
    → IsCache (block_init (cold_start (block_flush s).disk))
      × ((m : ℕ)
          → m < max_blocks
          → view (block_init (cold_start (block_flush s).disk)) m ≡ view s m)
unfolding block_init
block_init-block_flush s c =
    let (flushed, there) = block_flush-Flushed s c in
    let fresh =
      block_init-IsCache (cold_start (block_flush s).disk) (omega arith) flushed.0.sectors in
    (
      fresh,
      λ m hm.
          Sees-view (block_init (cold_start (block_flush s).disk)) m (view s m) fresh
            (inr (λ i w. unheld m i num_buffers, there m hm)),
    )
