-- ===== src/Fs/Files/Empty.antt =====
-- The blocks that `fs_format` writes.
use vector_forth_kernel.Base.{
  ℕ, ◌+◌, ◌/◌, ◌%◌, ◌<◌, ◌≡◌, inl, inr, refl, sym, ap, ◌∙◌, true, false, arith, ◌==◌, ltb,
  if◌then◌else◌, get_or, set, take, replicate, length, length-set, length-append, length-take,
  length-replicate, get_or-set, get_or-set_ne, get_or-drop, get_or-replicate, drop-append, ◌++◌,
  Bool-cases, Text,
}
use vector_forth_kernel.Base.Bitmap.{bit_is, same, same→eq}
use vector_forth_kernel.Base.Bytes.{every_below, below_every}
use vector_forth_kernel.Fs.Blocks.{get32, put32, block_bytes, block_data_size}
use vector_forth_kernel.Fs.Blocks.Bytes.{get32-put32, length-put32}
use vector_forth_kernel.Fs.Files.{fs_magic, clear_data, format_superblock, format_bitmap}
use vector_forth_kernel.Fs.Files.Fields.{bit_at}

-- A field is not touched by a store to another one behind it.
get32-put32_behind : (i j v : ℕ) (b : Text) → i + 4 < j + 1 → get32 i (put32 j v b) ≡ get32 i b
unfolding get32 put32
get32-put32_behind i j v b h =
    let away : (k w : ℕ) (x : Text) (p : ℕ) → p < j → get_or (set x (j + k) w) p 0 ≡ get_or x p 0 =
      λ k w x p l. get_or-set_ne x (j + k) p w 0 (λ e. omega arith) in
    let all : (p : ℕ) → p < j → get_or (put32 j v b) p 0 ≡ get_or b p 0 = λ p l.
      away 3 (v / 0x100_0000 % 256) _ p l
      ∙ away 2 (v / 0x1_0000 % 256) _ p l
      ∙ away 1 (v / 0x100 % 256) _ p l
      ∙ get_or-set_ne b j p (v % 256) 0 (λ e. omega arith) in
    omega (
      arith,
      all i (omega arith),
      all (i + 1) (omega arith),
      all (i + 2) (omega arith),
      all (i + 3) (omega arith),
    )

-- The data of a block starts at byte 16.
get32-data : (b : Text) → get32 0 (block_bytes b) ≡ get32 16 b
unfolding get32
get32-data b =
    omega (
      arith,
      get_or-drop 16 b 0 0,
      get_or-drop 16 b 1 0,
      get_or-drop 16 b 2 0,
      get_or-drop 16 b 3 0,
    )

length-clear_data : (b : Text) → length b ≡ 1024 → length (clear_data b) ≡ 1024
unfolding clear_data
length-clear_data b h = omega (
  arith,
  length-append (take 16 b) (replicate block_data_size 0),
  length-take 16 b,
  length-replicate {A = ℕ} block_data_size 0,
)

pub length-format_superblock : (b : Text) → length b ≡ 1024 → length (format_superblock b) ≡ 1024
unfolding format_superblock
length-format_superblock b h =
    length-put32 16 10000 _ ∙ length-put32 0 fs_magic (clear_data b) ∙ length-clear_data b h

pub length-format_bitmap : (b : Text) → length b ≡ 1024 → length (format_bitmap b) ≡ 1024
unfolding format_bitmap
length-format_bitmap b h = length-set (clear_data b) 16 0x1f ∙ length-clear_data b h

pub type-format_superblock : (b : Text) → length b ≡ 1024 → get32 0 (format_superblock b) ≡ fs_magic
unfolding format_superblock
type-format_superblock b h =
    let size = length-clear_data b h in
    get32-put32_behind 0 16 10000 (put32 0 fs_magic (clear_data b)) (omega arith)
    ∙ get32-put32 0 fs_magic (clear_data b) (omega arith)

pub total-format_superblock :
    (b : Text) → length b ≡ 1024 → get32 0 (block_bytes (format_superblock b)) ≡ 10000
unfolding format_superblock
total-format_superblock b h =
    let size = length-put32 0 fs_magic (clear_data b) ∙ length-clear_data b h in
    get32-data (put32 16 10000 (put32 0 fs_magic (clear_data b)))
    ∙ get32-put32 16 10000 (put32 0 fs_magic (clear_data b)) (omega arith)

byte-clear_data : (b : Text) (i : ℕ) → length b ≡ 1024 → get_or (clear_data b) (16 + i) 0 ≡ 0
unfolding clear_data
byte-clear_data b i h =
    sym (get_or-drop 16 (take 16 b ++ replicate block_data_size 0) i 0)
    ∙ ap (λ x. get_or x i 0)
        (drop-append 16 (take 16 b) (replicate block_data_size 0) (omega (arith, length-take 16 b)))
    ∙ get_or-replicate block_data_size i 0

byte-format_bitmap :
    (b : Text) (i : ℕ)
    → length b ≡ 1024
    → get_or (block_bytes (format_bitmap b)) i 0 ≡ (if i == 0 then 0x1f else 0)
unfolding format_bitmap
byte-format_bitmap b i h =
    let size = length-clear_data b h in
    get_or-drop 16 (set (clear_data b) 16 0x1f) i 0
    ∙ get_or-set (clear_data b) 16 (16 + i) 0x1f 0 (omega arith)
    ∙ rw (byte-clear_data b i h) (ground arith)

low_table : every_below 8 (λ k. same (bit_is 0x1f k) (ltb k 5)) ≡ true
unfolding every_below same bit_is
low_table = refl

zero_table : every_below 8 (λ k. same (bit_is 0 k) false) ≡ true
unfolding every_below same bit_is
zero_table = refl

pub bit-format_bitmap :
    (b : Text) (q : ℕ) → length b ≡ 1024 → bit_at (block_bytes (format_bitmap b)) q ≡ ltb q 5
bit-format_bitmap b q h =
    ap (λ x. bit_is x (q % 8)) (byte-format_bitmap b (q / 8) h) ∙ elim (Bool-cases (q / 8 == 0)) [
      | inl e ↦
          let low : q % 8 ≡ q = ground (arith, e) in
          rw (e, low)
            (same→eq _ _
              (below_every 8 (λ k. same (bit_is 0x1f k) (ltb k 5)) q low_table (ground (arith, e))))
      | inr e ↦
          let high : ltb q 5 ≡ false = ground (arith, e) in
          rw (e, high)
            (same→eq _ _
              (below_every 8 (λ k. same (bit_is 0 k) false) (q % 8) zero_table (omega arith)))
    ]
