-- ===== src/Fs/Blocks/View.antt =====
-- What the cache shows of a block, its invariant, and how one changed buffer affects them.
use mathlib.Core.Path.{subst}
use vector_forth_kernel.Base.{
  ℕ, ◌+◌, ◌<◌, ◌≡◌, ◌≢◌, ◌⊎◌, inl, inr, sym, ap, ◌∙◌, true, false, ◌&&◌, none, some, List, arith,
  ◌==◌, get_or, set, length, length-set, get_or-set_self, get_or-set_ne, ==→eq, not-==→ne,
  Bool-cases, Text,
}
use vector_forth_kernel.Fs.Blocks.{
  Disk, Buffer, Cache, empty_buffer, holds, find_buffer, read_block, num_buffers,
}
use vector_forth_kernel.Fs.Blocks.Bytes.{body, max_blocks}
use vector_forth_kernel.Fs.Blocks.Find.{find_buffer-FoundIn}

abbrev pub at : List Buffer → ℕ → Buffer
at bs i = get_or bs i empty_buffer

-- A block as the callers of `block_get` see it: the cached one, or else that on the disk.
unfoldable pub view : Cache → ℕ → Text
view s n = elim (find_buffer s.buffers n 0) [
  | some i ↦ body (at s.buffers i).block
  | none ↦ body (read_block s.disk n)
]

-- A valid buffer holds a whole block, and if it is clean the block that is on the disk.
abbrev pub IsBuffer : Disk → Buffer → Type 0
IsBuffer d b =
    b.valid ≡ true
    → (length b.block ≡ 1024)
      × (b.block_num < max_blocks)
      × (b.dirty ≡ false → body b.block ≡ body (read_block d b.block_num))

pub record IsCache (s : Cache) : Type 0 where
  pub size : length s.buffers ≡ num_buffers
  pub recent_within : s.most_recent_buffer < num_buffers
  pub sectors : (x : ℕ) → length (s.disk x) ≡ 512
  pub each : (i : ℕ) → i < num_buffers → IsBuffer s.disk (at s.buffers i)
  pub once :
      (i j : ℕ)
      → i < num_buffers
      → j < num_buffers
      → (at s.buffers i).valid ≡ true
      → (at s.buffers j).valid ≡ true
      → (at s.buffers i).block_num ≡ (at s.buffers j).block_num
      → i ≡ j

-- `view` as a relation that does not depend on the search.
abbrev pub Sees : List Buffer → Disk → ℕ → Text → Type 0
Sees bs d n b =
    ((i : ℕ) × (i < num_buffers) × (holds n (at bs i) ≡ true) × (body (at bs i).block ≡ b))
    ⊎ (((i : ℕ) → i < num_buffers → holds n (at bs i) ≡ false) × (body (read_block d n) ≡ b))

pub view-Sees : (s : Cache) (n : ℕ) → IsCache s → Sees s.buffers s.disk n (view s n)
unfolding view
view-Sees s n c = elim (find_buffer-FoundIn s.buffers n 0) [
  | inl (j, e, within, h) ↦
      let whole = c.size in
      let here : 0 + j ≡ j = omega arith in inl (j, omega arith, h, rw (view, e, here))
  | inr (e, others) ↦ let whole = c.size in inr (λ i h. others i (omega arith), rw (view, e))
]

pub held : (n : ℕ) (b : Buffer) → holds n b ≡ true → (b.valid ≡ true) × (b.block_num ≡ n)
held n b h = elim (Bool-cases b.valid) [
  | inl v ↦ (v, ==→eq b.block_num n (ap (λ x. x && b.block_num == n) (sym v) ∙ h))
  | inr v ↦ absurd cc
]

pub Sees-view :
    (s : Cache) (n : ℕ) (b : Text) → IsCache s → Sees s.buffers s.disk n b → view s n ≡ b
Sees-view s n b c (inl (i, within, h, e)) = elim (view-Sees s n c) [
  | inl (j, within_j, h', e') ↦
      let (vi, ni) = held n (at s.buffers i) h in
      let (vj, nj) = held n (at s.buffers j) h' in
      let same : i ≡ j = c.once i j within within_j vi vj (ni ∙ sym nj) in
      sym e' ∙ ap (λ k. body (at s.buffers k).block) (sym same) ∙ e
  | inr (others, e') ↦ let clash : true ≡ false = sym h ∙ others i within in absurd cc
]
Sees-view s n b c (inr (others, e)) = elim (view-Sees s n c) [
  | inl (j, within, h, e') ↦ let clash : true ≡ false = sym h ∙ others j within in absurd cc
  | inr (others', e') ↦ sym e' ∙ e
]

-- One buffer is replaced.
module _ (bs : List Buffer) (idx : ℕ) (b : Buffer) (size : length bs ≡ num_buffers)
    (within : idx < num_buffers) where
  pub at-set_self : at (set bs idx b) idx ≡ b
  at-set_self = get_or-set_self bs idx b empty_buffer (omega arith)

  -- What holds of the new buffer and of the others holds of each.
  pub at-set {ℓ} :
      (P : Buffer → Type ℓ) (i : ℕ)
      → (idx ≡ i → P b)
      → (idx ≢ i → P (at bs i))
      → P (at (set bs idx b) i)
  at-set P i new others = elim (Bool-cases (idx == i)) [
    | inl e ↦
        let same = ==→eq idx i e in
        subst (λ k. P (at (set bs idx b) k)) same (subst P (sym at-set_self) (new same))
    | inr e ↦
        let ne = not-==→ne idx i e in
        subst P (sym (get_or-set_ne bs idx i b empty_buffer ne)) (others ne)
  ]

  pub none_held :
      (n : ℕ)
      → holds n b ≡ false
      → ((i : ℕ) → i < num_buffers → idx ≢ i → holds n (at bs i) ≡ false)
      → (i : ℕ) → i < num_buffers
      → holds n (at (set bs idx b) i) ≡ false
  none_held n h others i w = at-set (λ c. holds n c ≡ false) i (λ e. h) (others i w)

  -- The new buffer shows the same of block `n` as the old one.
  pub Sees-set :
      (d d' : Disk) (n : ℕ) (v : Text)
      → holds n b ≡ holds n (at bs idx)
      → (holds n b ≡ true → body b.block ≡ body (at bs idx).block)
      → (((i : ℕ) → i < num_buffers → holds n (at bs i) ≡ false)
          → body (read_block d' n) ≡ body (read_block d n))
      → Sees bs d n v
      → Sees (set bs idx b) d' n v
  Sees-set d d' n v same shown disk (inr (others, e)) =
      inr (none_held n (same ∙ others idx within) (λ i w ne. others i w), disk others ∙ e)
  Sees-set d d' n v same shown disk (inl (i, w, h, e)) =
      let (h', e') =
        at-set (λ c. (holds n c ≡ true) × (body c.block ≡ v)) i
          (λ eq.
            let h' : holds n (at bs idx) ≡ true = ap (λ k. holds n (at bs k)) eq ∙ h in
            (same ∙ h', shown (same ∙ h') ∙ ap (λ k. body (at bs k).block) eq ∙ e))
          (λ ne. (h, e)) in
      inl (i, w, h', e')

  pub set-IsCache :
      (r : ℕ) (d : Disk) (l : List Text)
      → ((i j : ℕ)
          → i < num_buffers
          → j < num_buffers
          → (at bs i).valid ≡ true
          → (at bs j).valid ≡ true
          → (at bs i).block_num ≡ (at bs j).block_num
          → i ≡ j)
      → r < num_buffers
      → ((x : ℕ) → length (d x) ≡ 512)
      → IsBuffer d b
      → ((j : ℕ) → j < num_buffers → idx ≢ j → IsBuffer d (at bs j))
      → ((j : ℕ)
          → j < num_buffers
          → idx ≢ j
          → b.valid ≡ true
          → (at bs j).valid ≡ true
          → b.block_num ≢ (at bs j).block_num)
      → IsCache (record { buffers = set bs idx b; most_recent_buffer = r; disk = d; log = l })
  set-IsCache r d l unique hr sectors new others alone = record {
    size = length-set bs idx b ∙ size;
    recent_within = hr;
    sectors = sectors;
    each = λ i w. at-set (IsBuffer d) i (λ e. new) (others i w);
    once = λ i j wi wj.
        at-set
          (λ x.
            x.valid ≡ true
            → (at (set bs idx b) j).valid ≡ true
            → x.block_num ≡ (at (set bs idx b) j).block_num
            → i ≡ j)
          i
          (λ ei.
            at-set (λ y. b.valid ≡ true → y.valid ≡ true → b.block_num ≡ y.block_num → i ≡ j) j
              (λ ej vi vj e. sym ei ∙ ej) (λ nj vi vj e. absurd (alone j wj nj vi vj e)))
          (λ ni.
            at-set
              (λ y.
                (at bs i).valid ≡ true → y.valid ≡ true → (at bs i).block_num ≡ y.block_num → i ≡ j)
              j (λ ej vi vj e. absurd (alone i wi ni vj vi (sym e)))
              (λ nj vi vj e. unique i j wi wj vi vj e));
  }
