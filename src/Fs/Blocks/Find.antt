-- ===== src/Fs/Blocks/Find.antt =====
-- The two searches of `block_get` over the buffers.
use mathlib.Core.Path.{subst}
use vector_forth_kernel.Base.{
  ℕ, zero, suc, ◌+◌, ◌≤◌, ◌<◌, ◌≡◌, ◌⊎◌, inl, inr, refl, sym, ap, true, false, Option, none, some,
  List, [], ◌∷◌, arith, ltb, get_or, length, Bool-cases, ltb→lt, not-ltb→le,
}
use vector_forth_kernel.Fs.Blocks.{Buffer, empty_buffer, holds, find_buffer, oldest}

-- What the first loop finds: a buffer that holds the block, or that none does.
abbrev pub FoundIn : List Buffer → ℕ → ℕ → Option ℕ → Type 0
FoundIn bs n i r =
    ((j : ℕ) × (r ≡ some (i + j)) × (j < length bs) × (holds n (get_or bs j empty_buffer) ≡ true))
    ⊎ ((r ≡ none) × ((j : ℕ) → j < length bs → holds n (get_or bs j empty_buffer) ≡ false))

none_in :
    (b : Buffer) (bs : List Buffer) (n : ℕ)
    → holds n b ≡ false
    → ((j : ℕ) → j < length bs → holds n (get_or bs j empty_buffer) ≡ false)
    → (j : ℕ) → j < length (b ∷ bs)
    → holds n (get_or (b ∷ bs) j empty_buffer) ≡ false
none_in b bs n e others zero h = e
none_in b bs n e others (suc j) h = others j (omega arith)

pub find_buffer-FoundIn : (bs : List Buffer) (n i : ℕ) → FoundIn bs n i (find_buffer bs n i)
unfolding find_buffer
find_buffer-FoundIn [] n i = inr (refl, λ j h. absurd (omega arith))
find_buffer-FoundIn (b ∷ bs) n i = elim (Bool-cases (holds n b)) [
  | inl e ↦ rw (find_buffer, e) (inl (0, ap some (omega arith), omega arith, e))
  | inr e ↦ elim (find_buffer-FoundIn bs n (i + 1)) [
    | inl (j, at, within, h) ↦
        rw (find_buffer, e, at) (inl (suc j, ap some (omega arith), omega arith, h))
    | inr (at, others) ↦ rw (find_buffer, e, at) (inr (refl, none_in b bs n e others))
  ]
]

-- What the second loop finds, from index `i` on: the first invalid buffer, or, if all are valid, one
-- whose last use is before `time` and not after that of any other, or else the index it had.
abbrev pub OldestIn : List Buffer → (i idx time : ℕ) → ℕ → Type 0
OldestIn bs i idx time r =
    ((j : ℕ) × (r ≡ i + j) × (j < length bs) × ((get_or bs j empty_buffer).valid ≡ false))
    ⊎ (((k : ℕ) → k < length bs → (get_or bs k empty_buffer).valid ≡ true)
        × (((r ≡ idx) × ((k : ℕ) → k < length bs → time ≤ (get_or bs k empty_buffer).last_used))
            ⊎ ((j : ℕ) × (r ≡ i + j)
                × (j < length bs)
                × ((get_or bs j empty_buffer).last_used < time)
                × ((k : ℕ)
                    → k < length bs
                    → (get_or bs j empty_buffer).last_used
                      ≤ (get_or bs k empty_buffer).last_used))))

valid_in :
    (b : Buffer) (bs : List Buffer)
    → b.valid ≡ true
    → ((k : ℕ) → k < length bs → (get_or bs k empty_buffer).valid ≡ true)
    → (k : ℕ) → k < length (b ∷ bs)
    → (get_or (b ∷ bs) k empty_buffer).valid ≡ true
valid_in b bs e others zero h = e
valid_in b bs e others (suc k) h = others k (omega arith)

least_in :
    (b : Buffer) (bs : List Buffer) (t : ℕ)
    → t ≤ b.last_used
    → ((k : ℕ) → k < length bs → t ≤ (get_or bs k empty_buffer).last_used)
    → (k : ℕ) → k < length (b ∷ bs)
    → t ≤ (get_or (b ∷ bs) k empty_buffer).last_used
least_in b bs t e others zero h = e
least_in b bs t e others (suc k) h = others k (omega arith)

-- One more buffer in front that is not older than what `time` stands for.
newer_in :
    (b : Buffer) (bs : List Buffer) (i idx time r : ℕ)
    → b.valid ≡ true
    → time ≤ b.last_used
    → OldestIn bs (i + 1) idx time r
    → OldestIn (b ∷ bs) i idx time r
newer_in b bs i idx time r v le (inl (j, at, within, e)) = inl (suc j, omega arith, omega arith, e)
newer_in b bs i idx time r v le (inr (vs, inl (at, others))) =
    inr (valid_in b bs v vs, inl (at, least_in b bs time le others))
newer_in b bs i idx time r v le (inr (vs, inr (j, at, within, lt, others))) = inr (
  valid_in b bs v vs,
  inr (suc j, omega arith, omega arith, lt, least_in b bs _ (omega arith) others),
)

-- One more buffer in front that is older.
older_in :
    (b : Buffer) (bs : List Buffer) (i idx time r : ℕ)
    → b.valid ≡ true
    → b.last_used < time
    → OldestIn bs (i + 1) i b.last_used r
    → OldestIn (b ∷ bs) i idx time r
older_in b bs i idx time r v lt (inl (j, at, within, e)) = inl (suc j, omega arith, omega arith, e)
older_in b bs i idx time r v lt (inr (vs, inl (at, others))) = inr (
  valid_in b bs v vs,
  inr (0, omega arith, omega arith, lt, least_in b bs b.last_used (omega arith) others),
)
older_in b bs i idx time r v lt (inr (vs, inr (j, at, within, older, others))) = inr (
  valid_in b bs v vs,
  inr (suc j, omega arith, omega arith, omega arith, least_in b bs _ (omega arith) others),
)

pub oldest-OldestIn :
    (bs : List Buffer) (i idx time : ℕ) → OldestIn bs i idx time (oldest bs i idx time)
unfolding oldest
oldest-OldestIn [] i idx time =
    inr (λ k h. absurd (omega arith), inl (refl, λ k h. absurd (omega arith)))
oldest-OldestIn (b ∷ bs) i idx time = elim (Bool-cases b.valid) [
  | inr e ↦
      let at : oldest (b ∷ bs) i idx time ≡ i + 0 = rw (oldest, e) (omega arith) in
      inl (0, at, omega arith, e)
  | inl e ↦ elim (Bool-cases (ltb b.last_used time)) [
    | inl lt ↦
        let next : oldest (b ∷ bs) i idx time ≡ oldest bs (i + 1) i b.last_used =
          rw (oldest, e, lt) in
        subst (OldestIn (b ∷ bs) i idx time) (sym next) (
          older_in b bs i idx time _ e (ltb→lt b.last_used time lt)
            (oldest-OldestIn bs (i + 1) i b.last_used))
    | inr le ↦
        let next : oldest (b ∷ bs) i idx time ≡ oldest bs (i + 1) idx time = rw (oldest, e, le) in
        subst (OldestIn (b ∷ bs) i idx time) (sym next) (
          newer_in b bs i idx time _ e (not-ltb→le b.last_used time le)
            (oldest-OldestIn bs (i + 1) idx time))
  ]
]

-- The second loop stays within the buffers.
pub oldest-lt :
    (bs : List Buffer) (i idx time : ℕ) → idx < i + length bs → oldest bs i idx time < i + length bs
oldest-lt bs i idx time h = elim (oldest-OldestIn bs i idx time) [
  | inl (j, at, within, e) ↦ omega arith
  | inr (vs, inl (at, others)) ↦ omega arith
  | inr (vs, inr (j, at, within, lt, others)) ↦ omega arith
]
