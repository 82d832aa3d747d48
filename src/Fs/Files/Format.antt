-- ===== src/Fs/Files/Format.antt =====
-- `fs_init` and `fs_format`.
use mathlib.Core.Path.{subst}
use vector_forth_kernel.Base.{
  ℕ, ◌<◌, ◌≡◌, ◌≢◌, ◌⊎◌, inl, inr, refl, sym, ap, ◌∙◌, arith, ◌==◌, ltb, drop, length, ==→eq,
  not-==→ne, Bool-cases, Text, codes,
}
use vector_forth_kernel.Base.Bitmap.{same}
use vector_forth_kernel.Fs.Blocks.{
  Cache, get32, header_type, block_get, recent, edit_block, block_update, block_flush, read_block,
}
use vector_forth_kernel.Fs.Blocks.Bytes.{body, max_blocks}
use vector_forth_kernel.Fs.Blocks.View.{view, IsCache}
use vector_forth_kernel.Fs.Blocks.Get.Evict.{block_get-Got}
use vector_forth_kernel.Fs.Blocks.Flush.{block_update-Stored, block_flush-Flushed}
use vector_forth_kernel.Fs.Files.{
  fs_magic, serial_puts, format_superblock, format_bitmap, fs_format, fs_init,
}
use vector_forth_kernel.Fs.Files.Fields.{shown_type, shown_data, bit_at, data-body, type-body}
use vector_forth_kernel.Fs.Files.Alloc.{whole-recent}
use vector_forth_kernel.Fs.Files.Empty.{
  length-format_superblock, length-format_bitmap, type-format_superblock, total-format_superblock,
  bit-format_bitmap,
}

-- Messages do not change the cache.
serial_puts-IsCache : (x : Text) (s : Cache) → IsCache s → IsCache (serial_puts x s)
unfolding serial_puts
serial_puts-IsCache x s c = record {
  size = c.size;
  recent_within = c.recent_within;
  sectors = c.sectors;
  each = c.each;
  once = c.once;
}

view-serial_puts : (x : Text) (s : Cache) (n : ℕ) → view (serial_puts x s) n ≡ view s n
unfolding view serial_puts
view-serial_puts x s n = refl

-- `block_get`, a store through its pointer and `block_update`, as `fs_format` does for each block: the
-- block then shows what `f` makes of some whole block, and the others are as before.
abbrev Rewritten : (Text → Text) → ℕ → Cache → Cache → Type 0
Rewritten f n s t =
    IsCache t
    × ((b : Text) × (length b ≡ 1024) × (view t n ≡ body (f b)))
    × ((m : ℕ) → m < max_blocks → m ≢ n → view t m ≡ view s m)

rewrite-Rewritten :
    (f : Text → Text) (now n : ℕ) (s : Cache)
    → IsCache s
    → n < max_blocks
    → ((b : Text) → length b ≡ 1024 → length (f b) ≡ 1024)
    → Rewritten f n s (block_update (edit_block f (block_get now n s)))
rewrite-Rewritten f now n s c hn keeps =
    let u = block_get now n s in
    let (c', within, h, seen, others) = block_get-Got now n s c hn in
    let whole = whole-recent n u c' h in
    let (c'', seen', h', same, others') =
      block_update-Stored f n u c' h (keeps (recent u).block whole) in
    (c'', ((recent u).block, whole, seen'), λ m hm ne. others' m hm ne ∙ others m hm)

-- The superblock and the bitmap of an empty file system, and no other change; all is on the disk.
abbrev pub Formatted : Cache → Cache → Type 0
Formatted s t =
    IsCache t
    × (shown_type t 1 ≡ fs_magic)
    × (get32 0 (shown_data t 1) ≡ 10000)
    × ((q : ℕ) → bit_at (shown_data t 2) q ≡ ltb q 5)
    × ((m : ℕ) → m < max_blocks → m ≢ 1 → m ≢ 2 → view t m ≡ view s m)
    × ((m : ℕ) → m < max_blocks → body (read_block t.disk m) ≡ view t m)

format-Formatted : (now1 now2 : ℕ) (s : Cache) → IsCache s → Formatted s (fs_format now1 now2 s)
unfolding fs_format
format-Formatted now1 now2 s c =
    let start = serial_puts (codes "FS: Formatting empty disk...\n") s in
    let s1 = block_update (edit_block format_superblock (block_get now1 1 start)) in
    let s2 = block_update (edit_block format_bitmap (block_get now2 2 s1)) in
    let (c1, (b1, w1, e1), o1) =
      rewrite-Rewritten format_superblock now1 1 start (serial_puts-IsCache _ s c) (omega arith)
        length-format_superblock in
    let (c2, (b2, w2, e2), o2) =
      rewrite-Rewritten format_bitmap now2 2 s1 c1 (omega arith) length-format_bitmap in
    let ((c3, clean, shown), there) = block_flush-Flushed s2 c2 in
    let end = block_flush s2 in
    let sb : view end 1 ≡ body (format_superblock b1) =
      shown 1 (omega arith) ∙ o2 1 (omega arith) (λ e. omega arith) ∙ e1 in
    let bm : view end 2 ≡ body (format_bitmap b2) = shown 2 (omega arith) ∙ e2 in
    let done = codes "FS: Format complete.\n" in
    let seen = view-serial_puts done end in
    (
      serial_puts-IsCache done end c3,
      ap (get32 0) (seen 1 ∙ sb)
          ∙ type-body (format_superblock b1) (length-format_superblock b1 w1)
          ∙ type-format_superblock b1 w1,
      ap (λ x. get32 0 (drop 12 x)) (seen 1 ∙ sb)
          ∙ ap (get32 0) (data-body (format_superblock b1) (length-format_superblock b1 w1))
          ∙ total-format_superblock b1 w1,
      λ q.
          ap (λ x. bit_at (drop 12 x) q) (seen 2 ∙ bm)
          ∙ ap (λ x. bit_at x q) (data-body (format_bitmap b2) (length-format_bitmap b2 w2))
          ∙ bit-format_bitmap b2 q w2,
      λ m hm n1 n2. seen m ∙ shown m hm ∙ o2 m hm n2 ∙ o1 m hm n1 ∙ view-serial_puts _ s m,
      λ m hm. unfold serial_puts in there m hm ∙ sym (shown m hm) ∙ sym (seen m),
    )

-- What `fs_init` does to a disk with the type of a superblock in block 1, and to another.
abbrev pub Initialised : Cache → Cache → Type 0
Initialised s t =
    ((shown_type s 1 ≡ fs_magic) × IsCache t × ((m : ℕ) → m < max_blocks → view t m ≡ view s m))
    ⊎ ((shown_type s 1 ≢ fs_magic) × Formatted s t)

-- `fs_init` on a well-formed cache: if block 1 has the type of a superblock, every block with a 28-bit
-- sector address shows what it showed before. Otherwise the disk is formatted: block 1 has the type of a
-- superblock and 10000 in its data, exactly the first five bits of the bitmap are set, the other blocks
-- are as before, and the disk holds what the cache shows. The cache is well formed in both cases.
pub fs_init-Initialised :
    (now now1 now2 : ℕ) (s : Cache) → IsCache s → Initialised s (fs_init now now1 now2 s)
unfolding fs_init
fs_init-Initialised now now1 now2 s c =
    let u = block_get now 1 s in
    let (c', within, h, seen, others) = block_get-Got now 1 s c (omega arith) in
    let type_seen : shown_type s 1 ≡ header_type (recent u).block =
      ap (get32 0) (sym seen) ∙ type-body (recent u).block (whole-recent 1 u c' h) in
    elim (Bool-cases (header_type (recent u).block == fs_magic)) [
      | inl e ↦
          let step : fs_init now now1 now2 s
              ≡ serial_puts (codes "FS: Valid Superblock found.\n") u =
            rw (fs_init, e) in
          subst (Initialised s) (sym step) (
            inl (
              type_seen ∙ ==→eq _ fs_magic e,
              serial_puts-IsCache _ u c',
              λ m hm. view-serial_puts _ u m ∙ others m hm,
            ))
      | inr e ↦
          let step : fs_init now now1 now2 s ≡ fs_format now1 now2 u = rw (fs_init, e) in
          let (a, t, n, bits, kept, disk) = format-Formatted now1 now2 u c' in
          subst (Initialised s) (sym step) (
            inr (
              λ x. not-==→ne _ fs_magic e (sym type_seen ∙ x),
              (a, t, n, bits, λ m hm n1 n2. kept m hm n1 n2 ∙ others m hm, disk),
            ))
    ]
