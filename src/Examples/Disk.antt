-- ===== src/Examples/Disk.antt =====
-- The block cache and the file system on a blank disk.
use mathlib.Core.Path.{subst}
use vector_forth_kernel.Base.{
  ℕ, ◌<◌, ◌≤◌, ◌≡◌, ◌≢◌, refl, sym, ◌∙◌, true, false, none, ◌∷◌, [], length, arith, get_or,
  replicate, get_or-replicate, length-replicate, Text,
}
use vector_forth_kernel.Fs.Blocks.{
  Disk, Cache, cold_start, empty_buffer, num_buffers, put32, seal, read_block, block_init,
  find_buffer, block_get, load_buffer, oldest, edit_block, block_update, block_flush,
  write_buffer_to_disk, recent, crc_mismatch, calculate_crc32, crc_loop, crc_bits, crc_bit,
}
use vector_forth_kernel.Fs.Blocks.Bytes.{body, max_blocks, length-put32}
use vector_forth_kernel.Fs.Blocks.View.{at, view, IsCache}
use vector_forth_kernel.Fs.Blocks.Get.{read_block-write_buffer_to_disk}
use vector_forth_kernel.Fs.Blocks.Get.Load.{Got}
use vector_forth_kernel.Fs.Blocks.Get.Evict.{LeastUsed, block_get-Got, block_get-LeastUsed}
use vector_forth_kernel.Fs.Blocks.Flush.{
  Stored, Flushed, block_update-Stored, block_flush-Flushed, block_init-IsCache,
  block_init-block_flush,
}
use vector_forth_kernel.Fs.Files.{fs_init, fs_alloc_block}
use vector_forth_kernel.Fs.Files.Fields.{shown_data}
use vector_forth_kernel.Fs.Files.Alloc.{BlockAllocated, whole-recent, fs_alloc_block-BlockAllocated}
use vector_forth_kernel.Fs.Files.Format.{Initialised, fs_init-Initialised}

-- The CRC of the digits 1 to 9 is the check value of CRC-32.
crc_check : calculate_crc32 (49 ∷ 50 ∷ 51 ∷ 52 ∷ 53 ∷ 54 ∷ 55 ∷ 56 ∷ 57 ∷ []) ≡ 0xcbf4_3926
unfolding calculate_crc32 crc_loop crc_bits crc_bit
crc_check = refl

abbrev blank : Disk
blank = λ x. replicate 512 0

abbrev fresh : Cache
fresh = block_init (cold_start blank)

fresh-IsCache : IsCache fresh
fresh-IsCache =
    block_init-IsCache (cold_start blank) (omega arith) (λ x. length-replicate {A = ℕ} 512 0)

-- Block 5 with a number stored into its data.
abbrev store_seven : Text → Text
store_seven = put32 16 7

abbrev got : Cache
got = block_get 40 5 fresh

got-Got : Got 5 fresh got
got-Got = block_get-Got 40 5 fresh fresh-IsCache (omega arith)

store_seven-whole : length (store_seven (recent got).block) ≡ 1024
store_seven-whole = length-put32 16 7 (recent got).block ∙ whole-recent 5 got got-Got.0 got-Got.2

abbrev stored : Cache
stored = block_update (edit_block store_seven got)

block_get-Got_example : Got 5 fresh (block_get 40 5 fresh)
block_get-Got_example = block_get-Got 40 5 fresh fresh-IsCache (omega arith)

fresh_times : (i : ℕ) → i < num_buffers → (at fresh.buffers i).last_used ≤ 0xffff_ffff_ffff_ffff
unfolding block_init
fresh_times i w =
    subst (λ b. b.last_used ≤ 0xffff_ffff_ffff_ffff)
      (sym (get_or-replicate num_buffers i empty_buffer)) (omega arith)

fresh_misses : find_buffer fresh.buffers 5 0 ≡ none
unfolding block_init find_buffer
fresh_misses = refl

block_get-LeastUsed_example :
    LeastUsed fresh (block_get 40 5 fresh).most_recent_buffer
    × ((i : ℕ)
        → (block_get 40 5 fresh).most_recent_buffer ≢ i
        → at (block_get 40 5 fresh).buffers i ≡ at fresh.buffers i)
block_get-LeastUsed_example = block_get-LeastUsed 40 5 fresh fresh-IsCache fresh_times fresh_misses

block_update-Stored_example : Stored 5 (store_seven (recent got).block) got stored
block_update-Stored_example =
    block_update-Stored store_seven 5 got got-Got.0 got-Got.2 store_seven-whole

stored-IsCache : IsCache stored
stored-IsCache = (block_update-Stored store_seven 5 got got-Got.0 got-Got.2 store_seven-whole).0

block_flush-Flushed_example :
    Flushed stored (block_flush stored)
    × ((m : ℕ) → m < max_blocks → body (read_block (block_flush stored).disk m) ≡ view stored m)
block_flush-Flushed_example = block_flush-Flushed stored stored-IsCache

block_init-block_flush_example :
    IsCache (block_init (cold_start (block_flush stored).disk))
    × ((m : ℕ)
        → m < max_blocks
        → view (block_init (cold_start (block_flush stored).disk)) m ≡ view stored m)
block_init-block_flush_example = block_init-block_flush stored stored-IsCache

stored_valid : (at stored.buffers 0).valid ≡ true
unfolding block_init find_buffer block_get oldest load_buffer write_buffer_to_disk edit_block
    block_update
stored_valid = refl

stored_dirty : (at stored.buffers 0).dirty ≡ true
unfolding block_init find_buffer block_get oldest load_buffer write_buffer_to_disk edit_block
    block_update
stored_dirty = refl

read_block-write_buffer_to_disk_example :
    (read_block (write_buffer_to_disk 0 stored).disk (at stored.buffers 0).block_num
      ≡ seal (at stored.buffers 0).block)
    × (body (read_block (write_buffer_to_disk 0 stored).disk (at stored.buffers 0).block_num)
        ≡ body (at stored.buffers 0).block)
    × (crc_mismatch
          (read_block (write_buffer_to_disk 0 stored).disk (at stored.buffers 0).block_num)
        ≡ false)
read_block-write_buffer_to_disk_example =
    read_block-write_buffer_to_disk 0 stored stored-IsCache (omega arith) stored_valid stored_dirty

blank_bitmap : shown_data fresh 2 ≡ replicate 1008 0
unfolding view find_buffer read_block block_init
blank_bitmap = refl

blank_bytes : (i : ℕ) → get_or (shown_data fresh 2) i 0 < 256
blank_bytes i =
    subst (λ x. get_or x i 0 < 256) (sym blank_bitmap)
      (subst (λ b. b < 256) (sym (get_or-replicate 1008 i 0)) (omega arith))

fs_alloc_block-BlockAllocated_example : BlockAllocated fresh (fs_alloc_block 41 fresh)
fs_alloc_block-BlockAllocated_example =
    fs_alloc_block-BlockAllocated 41 fresh fresh-IsCache blank_bytes

fs_init-Initialised_example : Initialised fresh (fs_init 40 41 42 fresh)
fs_init-Initialised_example = fs_init-Initialised 40 41 42 fresh fresh-IsCache
