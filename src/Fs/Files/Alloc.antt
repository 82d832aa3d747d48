-- ===== src/Fs/Files/Alloc.antt =====
-- `fs_alloc_block` gives out the lowest free block.
use mathlib.Core.Path.{subst}
use vector_forth_kernel.Base.{
  ℕ, ◌+◌, ◌-◌, ◌*◌, ◌/◌, ◌%◌, ◌<◌, ◌≡◌, ◌≢◌, inl, inr, sym, ap, ap₂, ◌∙◌, true, false, ◌||◌, Option,
  none, some, arith, ◌==◌, get_or, set, take, drop, length-drop, length, get_or-set, get_or-drop,
  ==→eq, Bool-cases, Option-cases, Text,
}
use vector_forth_kernel.Base.Bitmap.{bit_is, bit_set, bit_is-bit_set}
use vector_forth_kernel.Fs.Blocks.{
  Cache, holds, block_bytes, block_data_size, block_get, recent, edit_block, block_update,
}
use vector_forth_kernel.Fs.Blocks.Bytes.{max_blocks}
use vector_forth_kernel.Fs.Blocks.View.{view, IsCache, held}
use vector_forth_kernel.Fs.Blocks.Get.Load.{Got}
use vector_forth_kernel.Fs.Blocks.Get.Evict.{block_get-Got}
use vector_forth_kernel.Fs.Blocks.Flush.{block_update-Stored}
use vector_forth_kernel.Fs.Files.{free_byte, mark_used, fs_alloc_block}
use vector_forth_kernel.Fs.Files.Fields.{
  shown_data, bit_at, data-body, header-body, data-mark_used, header-mark_used, length-mark_used,
}
use vector_forth_kernel.Fs.Files.Search.{FirstByte, free_byte-FirstByte}

-- A bit set in a byte of the bitmap.
bit_at-set :
    (bytes : Text) (y k q : ℕ)
    → y < length bytes
    → k < 8
    → get_or bytes y 0 < 256
    → bit_at (set bytes y (bit_set (get_or bytes y 0) k)) q ≡ (y * 8 + k == q || bit_at bytes q)
bit_at-set bytes y k q h lk small =
    let new = bit_set (get_or bytes y 0) k in
    ap (λ b. bit_is b (q % 8)) (get_or-set bytes y (q / 8) new 0 h)
    ∙ elim (Bool-cases (y == q / 8)) [
      | inl e ↦
          let at : y ≡ q / 8 = ==→eq y (q / 8) e in
          let bit : (k == q % 8) ≡ (y * 8 + k == q) = ground (arith, at) in
          rw (e, sym at)
            (bit_is-bit_set (get_or bytes y 0) k (q % 8) small lk (omega arith) ∙ rw bit)
      | inr e ↦ let away : (y * 8 + k == q) ≡ false = ground (arith, e) in rw (e, away)
    ]

-- `none` only for a full bitmap, and otherwise the lowest block that was free, which alone is now in
-- use; no other block shows a change.
abbrev pub BlockAllocated : Cache → Option (ℕ × Cache) → Type 0
BlockAllocated s none = (q : ℕ) → q < block_data_size * 8 → bit_at (shown_data s 2) q ≡ true
BlockAllocated s (some (n, t)) =
    IsCache t
    × (n < block_data_size * 8)
    × (bit_at (shown_data s 2) n ≡ false)
    × ((q : ℕ) → q < n → bit_at (shown_data s 2) q ≡ true)
    × ((q : ℕ) → bit_at (shown_data t 2) q ≡ (n == q || bit_at (shown_data s 2) q))
    × (take 12 (view t 2) ≡ take 12 (view s 2))
    × ((m : ℕ) → m < max_blocks → m ≢ 2 → view t m ≡ view s m)

-- The block that `block_get` returned is whole.
pub whole-recent :
    (n : ℕ) (u : Cache) → IsCache u → holds n (recent u) ≡ true → length (recent u).block ≡ 1024
whole-recent n u c h = (c.each u.most_recent_buffer c.recent_within (held n (recent u) h).0).0

alloc-none :
    (now : ℕ) (s : Cache)
    → free_byte block_data_size 0 (block_bytes (recent (block_get now 2 s)).block) ≡ none
    → fs_alloc_block now s ≡ none
unfolding fs_alloc_block
alloc-none now s e = rw (fs_alloc_block, e)

alloc-some :
    (now y k : ℕ) (s : Cache)
    → free_byte block_data_size 0 (block_bytes (recent (block_get now 2 s)).block) ≡ some (y, k)
    → fs_alloc_block now s
      ≡ some (y * 8 + k, block_update (edit_block (mark_used y k) (block_get now 2 s)))
unfolding fs_alloc_block
alloc-some now y k s e = rw (fs_alloc_block, e)

-- Marking a bit in the block that was got.
marked-BlockAllocated :
    (y k : ℕ) (s u : Cache)
    → Got 2 s u
    → ((i : ℕ) → get_or (shown_data s 2) i 0 < 256)
    → FirstByte block_data_size 0 (shown_data s 2) (some (y, k))
    → BlockAllocated s (some (y * 8 + k, block_update (edit_block (mark_used y k) u)))
marked-BlockAllocated y k s u (c, within, h, seen, others) small (hy, hk, clear, all) =
    let b = (recent u).block in
    let whole = whole-recent 2 u c h in
    let shown : block_bytes b ≡ shown_data s 2 = sym (data-body b whole) ∙ ap (drop 12) seen in
    let size : length (shown_data s 2) ≡ 1008 =
      ap length (sym shown) ∙ length-drop 16 b ∙ ap (λ n. n - 16) whole in
    let kept = length-mark_used y k b ∙ whole in
    let (c', seen', h', block', others') = block_update-Stored (mark_used y k) 2 u c h kept in
    let old : get_or b (16 + y) 0 ≡ get_or (shown_data s 2) y 0 =
      sym (get_or-drop 16 b y 0) ∙ ap (λ x. get_or x y 0) shown in
    let new : shown_data (block_update (edit_block (mark_used y k) u)) 2
        ≡ set (shown_data s 2) y (bit_set (get_or (shown_data s 2) y 0) k) =
      ap (drop 12) seen'
      ∙ data-body (mark_used y k b) kept
      ∙ data-mark_used y k b
      ∙ ap₂ (λ bytes v. set bytes y (bit_set v k)) shown old in
    let low : (y * 8 + k) / 8 ≡ y = omega arith in
    let bit : (y * 8 + k) % 8 ≡ k = omega arith in
    (
      c',
      omega arith,
      ap₂ (λ i j. bit_is (get_or (shown_data s 2) i 0) j) low bit ∙ clear,
      λ q l. all q (omega arith) l,
      λ q.
          ap (λ bytes. bit_at bytes q) new
          ∙ bit_at-set (shown_data s 2) y k q (omega arith) hk (small y),
      ap (take 12) seen'
          ∙ header-body (mark_used y k b) kept
          ∙ header-mark_used y k b
          ∙ sym (header-body b whole)
          ∙ ap (take 12) seen,
      λ m hm ne. others' m hm ne ∙ others m hm,
    )

-- On a well-formed cache whose bitmap block is made of bytes, `fs_alloc_block` panics only if all 8064
-- bits of the bitmap are set. Otherwise it returns the number of the lowest clear bit; as the cache
-- shows them afterwards, that bit is set, the other bits, the header of the bitmap and all other blocks
-- with a 28-bit sector address are as before, and the cache is well formed.
pub fs_alloc_block-BlockAllocated :
    (now : ℕ) (s : Cache)
    → IsCache s
    → ((i : ℕ) → get_or (shown_data s 2) i 0 < 256)
    → BlockAllocated s (fs_alloc_block now s)
fs_alloc_block-BlockAllocated now s c small =
    let u = block_get now 2 s in
    let got = block_get-Got now 2 s c (omega arith) in
    let (c', within, h, seen, others) = got in
    let shown : block_bytes (recent u).block ≡ shown_data s 2 =
      sym (data-body (recent u).block (whole-recent 2 u c' h)) ∙ ap (drop 12) seen in
    let first = free_byte-FirstByte block_data_size 0 (shown_data s 2) in
    elim (Option-cases (free_byte block_data_size 0 (shown_data s 2))) [
      | inl e ↦
          subst (BlockAllocated s)
            (sym (alloc-none now s (ap (free_byte block_data_size 0) shown ∙ e)))
            (λ q h. subst (FirstByte block_data_size 0 (shown_data s 2)) e first q (omega arith) h)
      | inr ((y, k), e) ↦
          subst (BlockAllocated s)
            (sym (alloc-some now y k s (ap (free_byte block_data_size 0) shown ∙ e)))
            (marked-BlockAllocated y k s u got small
              (subst (FirstByte block_data_size 0 (shown_data s 2)) e first))
    ]
