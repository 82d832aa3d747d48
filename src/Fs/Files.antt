-- ===== src/Fs/Files.antt =====
-- The file system of fs/filesystem.c: the superblock, block 1, and the bitmap of the blocks in use,
-- block 2. The values of `kernel_ticks` at the calls of `block_get` are arguments.
pub mod Fields
pub mod Search
pub mod Alloc
pub mod Empty
pub mod Format
use vector_forth_kernel.Base.{
  ℕ, zero, suc, ◌+◌, ◌*◌, Option, none, some, ◌∷◌, [], ◌++◌, ◌==◌, if◌then◌else◌, get_or, set, take,
  replicate, Text, codes,
}
use vector_forth_kernel.Base.Bitmap.{bit_is, bit_set}
use vector_forth_kernel.Fs.Blocks.{
  Cache, put32, block_bytes, block_data_size, header_type, block_get, recent, edit_block,
  block_update, block_flush,
}

abbrev pub fs_magic : ℕ
fs_magic = 0x4854_5246

-- `serial_puts`
unfoldable pub serial_puts : Text → Cache → Cache
serial_puts text s = record s { log = s.log ++ (text ∷ []) }

-- `memset(block->data, 0, BLOCK_DATA_SIZE)`
unfoldable pub clear_data : Text → Text
clear_data b = take 16 b ++ replicate block_data_size 0

-- The stores to the superblock and to the bitmap in `fs_format`.
unfoldable pub format_superblock : Text → Text
format_superblock b = put32 16 10000 (put32 0 fs_magic (clear_data b))

unfoldable pub format_bitmap : Text → Text
format_bitmap b = set (clear_data b) 16 0x1f

unfoldable pub fs_format : (now1 now2 : ℕ) → Cache → Cache
fs_format now1 now2 s =
    let start = serial_puts (codes "FS: Formatting empty disk...\n") s in
    let superblock = block_update (edit_block format_superblock (block_get now1 1 start)) in
    let bitmap = block_update (edit_block format_bitmap (block_get now2 2 superblock)) in
    serial_puts (codes "FS: Format complete.\n") (block_flush bitmap)

unfoldable pub fs_init : (now now1 now2 : ℕ) → Cache → Cache
fs_init now now1 now2 s =
    let sb = block_get now 1 s in
    if header_type (recent sb).block == fs_magic
    then serial_puts (codes "FS: Valid Superblock found.\n") sb
    else fs_format now1 now2 sb

-- The loops of `fs_alloc_block`: over `n` bits of a byte, and over `n` bytes of the bitmap.
unfoldable pub free_bit : (n bit b : ℕ) → Option ℕ
free_bit zero bit b = none
free_bit (suc n) bit b = if bit_is b bit then free_bit n (bit + 1) b else some bit

unfoldable pub free_byte : (n byte : ℕ) → Text → Option (ℕ × ℕ)
free_byte zero byte bytes = none
free_byte (suc n) byte bytes =
    let rest = free_byte n (byte + 1) bytes in
    let b = get_or bytes byte 0 in
    if b == 0xff then rest else elim (free_bit 8 0 b) [ some bit ↦ some (byte, bit) | none ↦ rest ]

-- `bitmap->data[byte] |= (1 << bit)`
unfoldable pub mark_used : (byte bit : ℕ) → Text → Text
mark_used byte bit b = set b (16 + byte) (bit_set (get_or b (16 + byte) 0) bit)

-- `none` is `kernel_panic`.
unfoldable pub fs_alloc_block : ℕ → Cache → Option (ℕ × Cache)
fs_alloc_block now s =
    let t = block_get now 2 s in
    elim (free_byte block_data_size 0 (block_bytes (recent t).block)) [
      | some (byte, bit) ↦ some (byte * 8 + bit, block_update (edit_block (mark_used byte bit) t))
      | none ↦ none
    ]
