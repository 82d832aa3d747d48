-- ===== src/Fs/Blocks/Get.antt =====
-- `write_buffer_to_disk` and `block_get`: the cache is transparent.
pub mod Load
pub mod Evict
use mathlib.Core.Path.{subst}
use vector_forth_kernel.Base.{
  ℕ, ◌+◌, ◌<◌, ◌≡◌, ◌≢◌, ◌⊎◌, inl, inr, refl, sym, ap, ◌∙◌, Bool, true, false, not, ◌&&◌, ◌||◌,
  List, arith, ◌==◌, if◌then◌else◌, get_or, set, length, ==→eq, ==_refl, not-==→ne, ne→not-==,
  Bool-cases, Text,
}
use vector_forth_kernel.Fs.Blocks.{
  Disk, Buffer, Cache, empty_buffer, holds, find_buffer, read_block, store_block, num_buffers, seal,
  write_buffer_to_disk, use_buffer, load_buffer, block_get, victim, recent, crc_mismatch,
  header_crc,
}
use vector_forth_kernel.Fs.Blocks.Bytes.{
  body, max_blocks, body-seal, length-seal, crc_mismatch-seal, read_block-store_block,
  read_block-store_block_ne, length-store_block, length-read_block,
}
use vector_forth_kernel.Fs.Blocks.Find.{find_buffer-FoundIn, oldest-lt}
use vector_forth_kernel.Fs.Blocks.View.{
  at, view, IsBuffer, IsCache, Sees, view-Sees, Sees-view, held, at-set_self, at-set, Sees-set,
  set-IsCache,
}

-- The buffer as `write_buffer_to_disk` leaves it, and the state then.
abbrev pub clean_buffer : Buffer → Buffer
clean_buffer b = record b { block = seal b.block; dirty = false }

abbrev pub written : ℕ → Cache → Cache
written idx s = record s {
  buffers = set s.buffers idx (clean_buffer (at s.buffers idx));
  disk = store_block (at s.buffers idx).block_num (seal (at s.buffers idx).block) s.disk;
}

pub write_cases :
    (idx : ℕ) (s : Cache)
    → ((write_buffer_to_disk idx s ≡ s)
        × ((at s.buffers idx).valid ≡ true → (at s.buffers idx).dirty ≡ false))
      ⊎ ((write_buffer_to_disk idx s ≡ written idx s)
          × ((at s.buffers idx).valid ≡ true)
          × ((at s.buffers idx).dirty ≡ true))
unfolding write_buffer_to_disk
write_cases idx s = elim (Bool-cases (at s.buffers idx).valid) [
  | inr v ↦ inl (rw v, λ v'. let clash : true ≡ false = sym v' ∙ v in absurd cc)
  | inl v ↦ elim (Bool-cases (at s.buffers idx).dirty) [
    | inr d ↦ inl (rw (v, d), λ v'. d)
    | inl d ↦ inr (rw (v, d), v, d)
  ]
]

written-IsCache :
    (idx : ℕ) (s : Cache)
    → IsCache s
    → idx < num_buffers
    → (at s.buffers idx).valid ≡ true
    → IsCache (written idx s)
written-IsCache idx s c h v =
    let b = at s.buffers idx in
    let (whole, range, same) = c.each idx h v in
    let sealed : length (seal b.block) ≡ 1024 = length-seal b.block ∙ whole in
    set-IsCache s.buffers idx (clean_buffer b) c.size h s.most_recent_buffer _ s.log c.once
      c.recent_within (λ x. length-store_block b.block_num x (seal b.block) s.disk sealed c.sectors)
      (λ v'. (
        sealed,
        range,
        λ d. ap body (sym (read_block-store_block b.block_num (seal b.block) s.disk range)),
      ))
      (λ j w ne vj.
        let (whole_j, range_j, same_j) = c.each j w vj in
        let apart : b.block_num ≢ (at s.buffers j).block_num = λ e. ne (c.once idx j h w v vj e) in
        (
          whole_j,
          range_j,
          λ d.
              same_j d
              ∙ ap body (
                  sym (
                    read_block-store_block_ne b.block_num (at s.buffers j).block_num (seal b.block)
                      s.disk range range_j apart)),
        ))
      (λ j w ne v' vj e. ne (c.once idx j h w v vj e))

written-Sees :
    (idx n : ℕ) (s : Cache) (v : Text)
    → IsCache s
    → idx < num_buffers
    → (at s.buffers idx).valid ≡ true
    → n < max_blocks
    → Sees s.buffers s.disk n v
    → Sees (written idx s).buffers (written idx s).disk n v
written-Sees idx n s v c h valid hn sees =
    let b = at s.buffers idx in
    let (whole, range, same) = c.each idx h valid in
    Sees-set s.buffers idx (clean_buffer b) c.size h s.disk _ n v refl (λ e. body-seal b.block)
      (λ others.
        let away : b.block_num ≢ n = λ e.
          absurd
            (let clash : true ≡ false = sym (rw (valid, e) (==_refl n)) ∙ others idx h in cc) in
        ap body (read_block-store_block_ne b.block_num n (seal b.block) s.disk range hn away))
      sees

-- Writing a buffer back keeps the invariant and what every block shows.
pub write_buffer-IsCache :
    (idx : ℕ) (s : Cache) → IsCache s → idx < num_buffers → IsCache (write_buffer_to_disk idx s)
write_buffer-IsCache idx s c h = elim (write_cases idx s) [
  | inl (e, clean) ↦ subst IsCache (sym e) c
  | inr (e, v, d) ↦ subst IsCache (sym e) (written-IsCache idx s c h v)
]

pub view-write_buffer :
    (idx n : ℕ) (s : Cache)
    → IsCache s
    → idx < num_buffers
    → n < max_blocks
    → view (write_buffer_to_disk idx s) n ≡ view s n
view-write_buffer idx n s c h hn = elim (write_cases idx s) [
  | inl (e, clean) ↦ ap (λ t. view t n) e
  | inr (e, v, d) ↦
      ap (λ t. view t n) e
      ∙ Sees-view (written idx s) n (view s n) (written-IsCache idx s c h v)
          (written-Sees idx n s (view s n) c h v hn (view-Sees s n c))
]

-- A valid dirty buffer of a well-formed cache that `write_buffer_to_disk` writes out stands on the disk
-- with the CRC of its data and is otherwise what it was, and `block_get` will not warn of it.
pub read_block-write_buffer_to_disk :
    (idx : ℕ) (s : Cache)
    → IsCache s
    → idx < num_buffers
    → (at s.buffers idx).valid ≡ true
    → (at s.buffers idx).dirty ≡ true
    → let b = at s.buffers idx in
      let d = (write_buffer_to_disk idx s).disk in
      (read_block d b.block_num ≡ seal b.block)
      × (body (read_block d b.block_num) ≡ body b.block)
      × (crc_mismatch (read_block d b.block_num) ≡ false)
unfolding write_buffer_to_disk
read_block-write_buffer_to_disk idx s c h v dirty =
    let b = at s.buffers idx in
    let (whole, range, same) = c.each idx h v in
    let there = read_block-store_block b.block_num (seal b.block) s.disk range in
    rw (v, dirty, there) (refl, body-seal b.block, crc_mismatch-seal b.block whole)
