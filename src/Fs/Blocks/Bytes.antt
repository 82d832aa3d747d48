-- ===== src/Fs/Blocks/Bytes.antt =====
-- The bytes of blocks: the CRC field of the header, and blocks on the disk.
use vector_forth_kernel.Base.{
  ℕ, ◌+◌, ◌/◌, ◌%◌, ◌≤◌, ◌<◌, ◌≡◌, ◌≢◌, ap₂, ◌∙◌, false, ◌++◌, arith, ◌==◌, set, take, drop, length,
  length-set, length-append, length-take, length-drop, take-set, drop-set, take-drop,
  get_or-set_self, get_or-set_ne, ==_refl, ne→not-==, Text, Bool-cases, inl, inr,
}
use vector_forth_kernel.Fs.Blocks.{
  Disk, ata_lba, ata_read_sector, ata_write_sector, get32, put32, block_bytes, crc_mismatch,
  calculate_crc32, seal, read_block, store_block, start_sector, two32,
}

-- The block numbers whose sectors have an address of 28 bits.
abbrev pub max_blocks : ℕ
max_blocks = 0x7ff_fe00

-- A block without the CRC of its header, which the cache sets when it writes the block back.
abbrev pub body : Text → Text
body b = take 12 b ++ drop 16 b

pub length-put32 : (off v : ℕ) (b : Text) → length (put32 off v b) ≡ length b
unfolding put32
length-put32 off v b =
    length-set _ (off + 3) _
    ∙ length-set _ (off + 2) _
    ∙ length-set _ (off + 1) _
    ∙ length-set b off _

pub get32-put32 :
    (off v : ℕ) (b : Text) → off + 4 ≤ length b → get32 off (put32 off v b) ≡ v % two32
unfolding get32 put32
get32-put32 off v b h =
    let b1 = set b off (v % 256) in
    let b2 = set b1 (off + 1) (v / 0x100 % 256) in
    let b3 = set b2 (off + 2) (v / 0x1_0000 % 256) in
    let l1 : length b1 ≡ length b = length-set b off (v % 256) in
    let l2 : length b2 ≡ length b1 = length-set b1 (off + 1) (v / 0x100 % 256) in
    let l3 : length b3 ≡ length b2 = length-set b2 (off + 2) (v / 0x1_0000 % 256) in
    let top = v / 0x100_0000 % 256 in
    rw
      (
        get_or-set_ne b3 (off + 3) off top 0 (λ e. omega arith),
        get_or-set_ne b3 (off + 3) (off + 1) top 0 (λ e. omega arith),
        get_or-set_ne b3 (off + 3) (off + 2) top 0 (λ e. omega arith),
        get_or-set_ne b2 (off + 2) off (v / 0x1_0000 % 256) 0 (λ e. omega arith),
        get_or-set_ne b2 (off + 2) (off + 1) (v / 0x1_0000 % 256) 0 (λ e. omega arith),
        get_or-set_ne b1 (off + 1) off (v / 0x100 % 256) 0 (λ e. omega arith),
        get_or-set_self b3 (off + 3) top 0 (omega (arith, l1, l2, l3)),
        get_or-set_self b2 (off + 2) (v / 0x1_0000 % 256) 0 (omega (arith, l1, l2)),
        get_or-set_self b1 (off + 1) (v / 0x100 % 256) 0 (omega (arith, l1)),
        get_or-set_self b off (v % 256) 0 (omega arith),
      )
      (omega arith)

-- A field below byte 16 does not reach the data.
pub block_bytes-put32 :
    (off v : ℕ) (b : Text) → off ≤ 12 → block_bytes (put32 off v b) ≡ block_bytes b
unfolding put32
block_bytes-put32 off v b h =
    drop-set 16 (off + 3) _ _ (omega arith)
    ∙ drop-set 16 (off + 2) _ _ (omega arith)
    ∙ drop-set 16 (off + 1) _ _ (omega arith)
    ∙ drop-set 16 off b _ (omega arith)

header-put32 : (v : ℕ) (b : Text) → take 12 (put32 12 v b) ≡ take 12 b
unfolding put32
header-put32 v b =
    take-set 12 15 _ _ (omega arith)
    ∙ take-set 12 14 _ _ (omega arith)
    ∙ take-set 12 13 _ _ (omega arith)
    ∙ take-set 12 12 b _ (omega arith)

pub length-seal : (b : Text) → length (seal b) ≡ length b
unfolding seal
length-seal b = length-put32 12 _ b

pub body-seal : (b : Text) → body (seal b) ≡ body b
unfolding seal
body-seal b = ap₂ (λ xs ys. xs ++ ys) (header-put32 _ b) (block_bytes-put32 12 _ b (omega arith))

crc_fits : (bs : Text) → calculate_crc32 bs % two32 ≡ calculate_crc32 bs
unfolding calculate_crc32
crc_fits bs = omega arith

-- A block with the CRC of its data passes the check of `block_get`.
pub crc_mismatch-seal : (b : Text) → length b ≡ 1024 → crc_mismatch (seal b) ≡ false
unfolding seal
crc_mismatch-seal b h =
    let field =
      get32-put32 12 (calculate_crc32 (block_bytes b)) b (omega arith) ∙ crc_fits (block_bytes b) in
    let kept = block_bytes-put32 12 (calculate_crc32 (block_bytes b)) b (omega arith) in
    rw (field, kept) (ground arith)

pub read_block-store_block :
    (n : ℕ) (b : Text) (d : Disk) → n < max_blocks → read_block (store_block n b d) n ≡ b
unfolding read_block store_block ata_write_sector
read_block-store_block n b d h =
    let lo : (ata_lba (start_sector n) == ata_lba ((start_sector n + 1) % two32)) ≡ false =
      ne→not-== _ _ (λ e. omega arith) in
    rw (lo, ==_refl (ata_lba (start_sector n)), ==_refl (ata_lba ((start_sector n + 1) % two32)))
      (take-drop 512 b)

pub read_block-store_block_ne :
    (n m : ℕ) (b : Text) (d : Disk)
    → n < max_blocks
    → m < max_blocks
    → n ≢ m
    → read_block (store_block n b d) m ≡ read_block d m
unfolding read_block store_block ata_write_sector
read_block-store_block_ne n m b d hn hm ne =
    let a : (ata_lba (start_sector m) == ata_lba (start_sector n)) ≡ false =
      ne→not-== _ _ (λ e. ne (omega arith)) in
    let b : (ata_lba (start_sector m) == ata_lba ((start_sector n + 1) % two32)) ≡ false =
      ne→not-== _ _ (λ e. omega arith) in
    let c : (ata_lba ((start_sector m + 1) % two32) == ata_lba (start_sector n)) ≡ false =
      ne→not-== _ _ (λ e. omega arith) in
    let d : (ata_lba ((start_sector m + 1) % two32) == ata_lba ((start_sector n + 1) % two32))
        ≡ false =
      ne→not-== _ _ (λ e. ne (omega arith)) in
    rw (a, b, c, d)

-- The sectors of the disk keep their size.
pub length-store_block :
    (n x : ℕ) (b : Text) (d : Disk)
    → length b ≡ 1024
    → ((y : ℕ) → length (d y) ≡ 512)
    → length (store_block n b d x) ≡ 512
unfolding store_block ata_write_sector
length-store_block n x b d h sectors =
    let lo = length-take 512 b in
    let hi = length-drop 512 b in
    elim (Bool-cases (x == ata_lba ((start_sector n + 1) % two32))) [
      | inl e ↦ rw e (omega arith)
      | inr e ↦ elim (Bool-cases (x == ata_lba (start_sector n))) [
        | inl at ↦ rw (e, at) (omega arith)
        | inr at ↦ rw (e, at) (sectors x)
      ]
    ]

pub length-read_block :
    (n : ℕ) (d : Disk) → ((y : ℕ) → length (d y) ≡ 512) → length (read_block d n) ≡ 1024
unfolding read_block
length-read_block n d sectors =
    length-append (ata_read_sector (start_sector n) d)
      (ata_read_sector ((start_sector n + 1) % two32) d)
    ∙ rw (sectors (ata_lba (start_sector n)), sectors (ata_lba ((start_sector n + 1) % two32)))
