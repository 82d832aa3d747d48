-- ===== src/Fs/Blocks.antt =====
-- The block cache of fs/block_device.c: eight buffers in front of the disk, and the CRC of a block's
-- data. A block is its 1024 bytes, header first. The disk is a function from sector numbers to
-- sectors; the ATA functions of kernel/drivers/ata.c reach it with the low 28 bits of the address.
-- `kernel_ticks` is an argument, and the message for the serial port is added to a log.
pub mod Bytes
pub mod Find
pub mod View
pub mod Get
pub mod Flush
use Prim.Native.Nat.{bit_and, bit_xor}
use vector_forth_kernel.Base.{
  ℕ, zero, suc, ◌+◌, ◌-◌, ◌*◌, ◌/◌, ◌%◌, ◌^◌, Bool, true, false, not, ◌&&◌, ◌||◌, Option, none,
  some, List, [], ◌∷◌, ◌++◌, ◌==◌, ltb, if◌then◌else◌, get_or, set, take, drop, length, replicate,
  Text, codes,
}

abbrev pub two32 : ℕ
two32 = 0x1_0000_0000

abbrev pub block_data_size : ℕ
block_data_size = 1008

abbrev pub num_buffers : ℕ
num_buffers = 8

abbrev pub disk_block_offset_sectors : ℕ
disk_block_offset_sectors = 1024

abbrev pub Disk : Type 0
Disk = ℕ → Text

pub record Buffer : Type 0 where
  pub block_num : ℕ
  pub dirty : Bool
  pub valid : Bool
  pub last_used : ℕ
  pub block : Text

-- `buffers`, `most_recent_buffer`, the disk behind them and the messages.
pub record Cache : Type 0 where
  pub buffers : List Buffer
  pub most_recent_buffer : ℕ
  pub disk : Disk
  pub log : List Text

abbrev pub empty_buffer : Buffer
empty_buffer = record {
  block_num = 0;
  dirty = false;
  valid = false;
  last_used = 0;
  block = replicate 1024 0;
}

abbrev pub ata_lba : ℕ → ℕ
ata_lba lba = lba % 0x1000_0000

abbrev pub ata_read_sector : ℕ → Disk → Text
ata_read_sector lba d = d (ata_lba lba)

unfoldable pub ata_write_sector : ℕ → Text → Disk → Disk
ata_write_sector lba buffer d x = if x == ata_lba lba then buffer else d x

-- Little-endian 32-bit fields of a block.
unfoldable pub get32 : ℕ → Text → ℕ
get32 off b =
    get_or b off 0
    + 0x100 * get_or b (off + 1) 0
    + 0x1_0000 * get_or b (off + 2) 0
    + 0x100_0000 * get_or b (off + 3) 0

unfoldable pub put32 : ℕ → ℕ → Text → Text
put32 off v b =
    set (set (set (set b off (v % 256)) (off + 1) (v / 0x100 % 256)) (off + 2) (v / 0x1_0000 % 256))
      (off + 3) (v / 0x100_0000 % 256)

-- `block->data` and the fields of `block->header`.
abbrev pub block_bytes : Text → Text
block_bytes b = drop 16 b

abbrev pub header_type : Text → ℕ
header_type b = get32 0 b

abbrev pub header_crc : Text → ℕ
header_crc b = get32 12 b

-- One bit of the CRC: `(crc >> 1) ^ (0xEDB88320 & -(crc & 1))`.
unfoldable pub crc_bit : ℕ → ℕ
crc_bit crc = bit_xor (crc / 2) (bit_and 0xedb8_8320 ((two32 - crc % 2) % two32))

unfoldable pub crc_bits : ℕ → ℕ → ℕ
crc_bits zero crc = crc
crc_bits (suc j) crc = crc_bits j (crc_bit crc)

unfoldable pub crc_loop : Text → ℕ → ℕ
crc_loop [] crc = crc
crc_loop (b ∷ bs) crc = crc_loop bs (crc_bits 8 (bit_xor crc b))

unfoldable pub calculate_crc32 : Text → ℕ
calculate_crc32 bytes = 0xffff_ffff - crc_loop bytes 0xffff_ffff

-- `buffers` and `most_recent_buffer` as they are when the kernel is started, in front of a disk.
abbrev pub cold_start : Disk → Cache
cold_start d = record {
  buffers = replicate num_buffers empty_buffer;
  most_recent_buffer = 0;
  disk = d;
  log = [];
}

-- The buffers are zeroed: none is valid.
unfoldable pub block_init : Cache → Cache
block_init s = record s {
  buffers = replicate num_buffers empty_buffer;
  log = s.log ++ (codes "FS: Block cache initialized\n" ∷ []);
}

abbrev pub start_sector : ℕ → ℕ
start_sector n = (disk_block_offset_sectors + n * 2 % two32) % two32

-- The two sectors of a block.
unfoldable pub read_block : Disk → ℕ → Text
read_block d n =
    ata_read_sector (start_sector n) d ++ ata_read_sector ((start_sector n + 1) % two32) d

unfoldable pub store_block : ℕ → Text → Disk → Disk
store_block n b d =
    ata_write_sector ((start_sector n + 1) % two32) (drop 512 b)
      (ata_write_sector (start_sector n) (take 512 b) d)

-- The block with the CRC of its data in its header.
unfoldable pub seal : Text → Text
seal b = put32 12 (calculate_crc32 (block_bytes b)) b

unfoldable pub write_buffer_to_disk : ℕ → Cache → Cache
write_buffer_to_disk idx s =
    let b = get_or s.buffers idx empty_buffer in
    if not b.valid || not b.dirty then s else record s {
      buffers = set s.buffers idx (record b { block = seal b.block; dirty = false });
      disk = store_block b.block_num (seal b.block) s.disk;
    }

abbrev pub holds : ℕ → Buffer → Bool
holds n b = b.valid && b.block_num == n

-- The first loop of `block_get`, from index `i` on.
unfoldable pub find_buffer : List Buffer → ℕ → ℕ → Option ℕ
find_buffer [] n i = none
find_buffer (b ∷ bs) n i = if holds n b then some i else find_buffer bs n (i + 1)

-- The second loop of `block_get`.
unfoldable pub oldest : List Buffer → (i oldest_idx oldest_time : ℕ) → ℕ
oldest [] i oldest_idx oldest_time = oldest_idx
oldest (b ∷ bs) i oldest_idx oldest_time =
    if not b.valid
    then i
    else if ltb b.last_used oldest_time
    then oldest bs (i + 1) i b.last_used
    else oldest bs (i + 1) oldest_idx oldest_time

abbrev pub crc_warning : Text
crc_warning = codes "FS WARNING: CRC mismatch on block load!\n"

abbrev pub crc_mismatch : Text → Bool
crc_mismatch b = not (header_crc b == 0) && not (header_crc b == calculate_crc32 (block_bytes b))

-- A hit, and a miss that reads the block into buffer `idx`.
unfoldable pub use_buffer : ℕ → ℕ → Cache → Cache
use_buffer kernel_ticks idx s =
    let b = get_or s.buffers idx empty_buffer in
    record s {
      buffers = set s.buffers idx (record b { last_used = kernel_ticks });
      most_recent_buffer = idx;
    }

unfoldable pub load_buffer : ℕ → ℕ → ℕ → Cache → Cache
load_buffer kernel_ticks n idx s =
    let b = read_block s.disk n in
    let loaded : Buffer = record {
      block_num = n;
      dirty = false;
      valid = true;
      last_used = kernel_ticks;
      block = b;
    } in
    record {
      buffers = set s.buffers idx loaded;
      most_recent_buffer = idx;
      disk = s.disk;
      log = if crc_mismatch b then s.log ++ (crc_warning ∷ []) else s.log;
    }

abbrev pub victim : Cache → ℕ
victim s = oldest s.buffers 0 0 0xffff_ffff_ffff_ffff

-- `block_get`: the pointer that it returns is to the block of `most_recent_buffer`.
unfoldable pub block_get : ℕ → ℕ → Cache → Cache
block_get kernel_ticks n s = elim (find_buffer s.buffers n 0) [
  | some i ↦ use_buffer kernel_ticks i s
  | none ↦ load_buffer kernel_ticks n (victim s) (write_buffer_to_disk (victim s) s)
]

abbrev pub recent : Cache → Buffer
recent s = get_or s.buffers s.most_recent_buffer empty_buffer

-- A store through the pointer that `block_get` returned.
unfoldable pub edit_block : (Text → Text) → Cache → Cache
edit_block f s =
    let b = recent s in
    record s { buffers = set s.buffers s.most_recent_buffer (record b { block = f b.block }) }

unfoldable pub block_update : Cache → Cache
block_update s =
    let b = recent s in
    if b.valid
    then record s { buffers = set s.buffers s.most_recent_buffer (record b { dirty = true }) }
    else s

unfoldable pub flush_loop : ℕ → ℕ → Cache → Cache
flush_loop zero i s = s
flush_loop (suc n) i s = flush_loop n (i + 1) (write_buffer_to_disk i s)

unfoldable pub block_flush : Cache → Cache
block_flush s = flush_loop num_buffers 0 s
