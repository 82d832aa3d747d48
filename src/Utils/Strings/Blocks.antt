-- ===== src/Utils/Strings/Blocks.antt =====
-- The memory block functions of kernel/utils/string.c.
use vector_forth_kernel.Base.{
  ℕ, zero, suc, ◌+◌, ◌-◌, ◌≤◌, ◌<◌, ◌≡◌, ◌≢◌, ◌↔◌, ◌⊎◌, inl, inr, refl, ap, ◌∙◌, Bool, true, false,
  ◌&&◌, arith, ◌==◌, ltb, leb, if◌then◌else◌, Bool-cases, ==→eq, not-==→ne, ne→not-==,
}
use vector_forth_kernel.Base.Int.{pos, sub_ℕ}
use vector_forth_kernel.Base.Memory.{Mem, load8, store8, load8-lt, load8-store8_ne}
use vector_forth_kernel.Utils.Strings.{memset, memcpy, copy_down, memmove, memcmp, strncpy}

abbrev pub within : ℕ → ℕ → ℕ → Bool
within a n x = leb a x && ltb x (a + n)

-- A byte after a store.
load8-store8 :
    (m : Mem) (a v x : ℕ) → v < 256 → load8 (store8 m a v) x ≡ (if x == a then v else load8 m x)
unfolding load8 store8
load8-store8 m a v x h = ground arith

pub load8-memset :
    (n : ℕ) (m : Mem) (s c x : ℕ)
    → c < 256
    → load8 (memset m s c n) x ≡ (if within s n x then c else load8 m x)
unfolding memset
load8-memset zero m s c x h = ground arith
load8-memset (suc n) m s c x h =
    load8-memset n (store8 m s c) (s + 1) c x h ∙ rw (load8-store8 m s c x h) (ground arith)

-- Forward copying reads each source byte before it is overwritten if the target does not begin inside
-- the source.
pub load8-memcpy :
    (n : ℕ) (m : Mem) (dest src x : ℕ)
    → (dest ≤ src) ⊎ (src + n ≤ dest)
    → load8 (memcpy m dest src n) x
      ≡ (if within dest n x then load8 m (src + (x - dest)) else load8 m x)
unfolding memcpy
load8-memcpy zero m dest src x h = ground arith
load8-memcpy (suc n) m dest src x h =
    let m' = store8 m dest (load8 m src) in
    let rest = load8-memcpy n m' (dest + 1) (src + 1) x (omega arith) in
    let byte = load8-lt m src in
    elim (Bool-cases (within (dest + 1) n x)) [
      | inl e ↦
          let later : within dest (suc n) x ≡ true = ground (arith, e) in
          let from : src + 1 + (x - (dest + 1)) ≡ src + (x - dest) = ground (arith, e) in
          let apart : src + (x - dest) ≢ dest = λ q. ground (arith, e, h, q) in
          rest ∙ rw (e, later, from) (load8-store8_ne m dest (load8 m src) (src + (x - dest)) apart)
      | inr e ↦ elim (Bool-cases (x == dest)) [
        | inl at ↦
            let here : within dest (suc n) x ≡ true = ground (arith, at) in
            let from : src + (x - dest) ≡ src = ground (arith, at) in
            rest ∙ rw (e, here, from) (load8-store8 m dest (load8 m src) x byte ∙ rw at)
        | inr at ↦
            let out : within dest (suc n) x ≡ false = ground (arith, at, e) in
            rest ∙ rw (e, out) (load8-store8 m dest (load8 m src) x byte ∙ rw at)
      ]
    ]

load8-copy_down :
    (n : ℕ) (m : Mem) (dest src x : ℕ)
    → src ≤ dest
    → load8 (copy_down m dest src n) x
      ≡ (if within dest n x then load8 m (src + (x - dest)) else load8 m x)
unfolding copy_down
load8-copy_down zero m dest src x h = ground arith
load8-copy_down (suc n) m dest src x h =
    let m' = store8 m (dest + n) (load8 m (src + n)) in
    let rest = load8-copy_down n m' dest src x h in
    let byte = load8-lt m (src + n) in
    elim (Bool-cases (within dest n x)) [
      | inl e ↦
          let later : within dest (suc n) x ≡ true = ground (arith, e) in
          let apart : src + (x - dest) ≢ dest + n = λ q. ground (arith, e, h, q) in
          rest
          ∙ rw (e, later)
              (load8-store8_ne m (dest + n) (load8 m (src + n)) (src + (x - dest)) apart)
      | inr e ↦ elim (Bool-cases (x == dest + n)) [
        | inl at ↦
            let here : within dest (suc n) x ≡ true = ground (arith, at) in
            let from : src + (x - dest) ≡ src + n = ground (arith, at) in
            rest ∙ rw (e, here, from) (load8-store8 m (dest + n) (load8 m (src + n)) x byte ∙ rw at)
        | inr at ↦
            let out : within dest (suc n) x ≡ false = ground (arith, at, e) in
            rest ∙ rw (e, out) (load8-store8 m (dest + n) (load8 m (src + n)) x byte ∙ rw at)
      ]
    ]

-- `memmove` copies, however the two objects overlap: every byte of the target is the byte that the
-- source had before the call, and no other byte changes.
pub load8-memmove :
    (m : Mem) (dest src n x : ℕ)
    → load8 (memmove m dest src n) x
      ≡ (if leb dest x && ltb x (dest + n) then load8 m (src + (x - dest)) else load8 m x)
unfolding memmove
load8-memmove m dest src n x = elim (Bool-cases (ltb dest src)) [
  | inl e ↦ rw e (load8-memcpy n m dest src x (ground (arith, e)))
  | inr e ↦ rw e (load8-copy_down n m dest src x (ground (arith, e)))
]

zero_sub : (a b : ℕ) → (sub_ℕ a b ≡ pos 0) ↔ (a ≡ b)
zero_sub a b = (λ e. ground (arith, e), λ e. ground (arith, e))

memcmp_same :
    (n : ℕ) (m : Mem) (a b : ℕ)
    → ((i : ℕ) → i < n → load8 m (a + i) ≡ load8 m (b + i))
    → memcmp m a b n ≡ pos 0
unfolding memcmp
memcmp_same zero m a b h = refl
memcmp_same (suc n) m a b h =
    let here : load8 m a ≡ load8 m b = ground (arith, h 0) in
    let rest = memcmp_same n m (a + 1) (b + 1) (λ i l.
      let e : a + 1 + i ≡ a + suc i = omega arith in
      let f : b + 1 + i ≡ b + suc i = omega arith in rw (e, f) (h (suc i) (omega arith))) in
    rw here (ground (arith, rest))

same_memcmp :
    (n : ℕ) (m : Mem) (a b : ℕ)
    → memcmp m a b n ≡ pos 0
    → (i : ℕ) → i < n
    → load8 m (a + i) ≡ load8 m (b + i)
unfolding memcmp
same_memcmp zero m a b h i l = absurd (omega arith)
same_memcmp (suc n) m a b h i l = elim (Bool-cases (load8 m a == load8 m b)) [
  | inl e ↦
      let rest = same_memcmp n m (a + 1) (b + 1) (rw e at h) in
      same_step m a b i (==→eq (load8 m a) (load8 m b) e) (λ j x. rest j (omega arith))
  | inr e ↦
      let differs : sub_ℕ (load8 m a) (load8 m b) ≡ pos 0 = rw e at h in
      absurd (not-==→ne (load8 m a) (load8 m b) e ((zero_sub (load8 m a) (load8 m b)).0 differs))
]
  where
    same_step :
        (m : Mem) (a b i : ℕ)
        → load8 m a ≡ load8 m b
        → ((j : ℕ) → suc j ≡ i → load8 m (a + 1 + j) ≡ load8 m (b + 1 + j))
        → load8 m (a + i) ≡ load8 m (b + i)
    same_step m a b zero e h = ground (arith, e)
    same_step m a b (suc j) e h =
        let f : a + 1 + j ≡ a + suc j = omega arith in
        let g : b + 1 + j ≡ b + suc j = omega arith in let there = h j refl in rw (f, g) at there

-- `memcmp` returns 0 exactly if the two objects have the same bytes.
pub memcmp-zero :
    (n : ℕ) (m : Mem) (a b : ℕ)
    → (memcmp m a b n ≡ pos 0) ↔ ((i : ℕ) → i < n → load8 m (a + i) ≡ load8 m (b + i))
memcmp-zero n m a b = (same_memcmp n m a b, memcmp_same n m a b)

-- `strncpy` of a string of `k` characters, less than `n`, to a target that begins at or before the
-- string, or behind its NUL, sets `n + 1` bytes: the characters, and NULs up to and including the
-- byte at `dest + n`, one behind the `n` that it was given. No other byte changes.
pub load8-strncpy :
    (n : ℕ) (m : Mem) (dest src k x : ℕ)
    → k < n
    → (dest ≤ src) ⊎ (src + k < dest)
    → ((i : ℕ) → i < k → load8 m (src + i) ≢ 0)
    → load8 m (src + k) ≡ 0
    → load8 (strncpy m dest src n) x ≡ (
        if within dest k x
        then load8 m (src + (x - dest))
        else if within dest (n + 1) x
        then 0
        else load8 m x)
unfolding strncpy
load8-strncpy zero m dest src k x h apart chars end = absurd (omega arith)
load8-strncpy (suc n) m dest src zero x h apart chars end =
    let end' : load8 m src ≡ 0 = rw (let e : src + 0 ≡ src = omega arith in e) at end in
    rw end' (
      load8-memset (suc n) (store8 m dest 0) (dest + 1) 0 x (omega arith)
      ∙ rw (load8-store8 m dest 0 x (omega arith)) (ground arith))
load8-strncpy (suc n) m dest src (suc k) x h apart chars end =
    let first : (load8 m src == 0) ≡ false = ne→not-== (load8 m src) 0 (
      let at_zero = chars 0 (omega arith) in
      let e : src + 0 ≡ src = omega arith in rw e at at_zero) in
    let m' = store8 m dest (load8 m src) in
    let kept : (i : ℕ) → i ≤ k → load8 m' (src + 1 + i) ≡ load8 m (src + suc i) = λ i le.
      let e : src + 1 + i ≡ src + suc i = omega arith in
      rw e (load8-store8_ne m dest (load8 m src) (src + suc i) (λ q. omega arith)) in
    let byte = load8-lt m src in
    let rest =
      load8-strncpy n m' (dest + 1) (src + 1) k x (omega arith) (omega arith)
        (λ i l. rw (kept i (omega arith)) (chars (suc i) (omega arith)))
        (kept k (omega arith) ∙ end) in
    rw first (
      rest ∙ (elim (Bool-cases (within (dest + 1) k x)) [
        | inl e ↦
            let later : within dest (suc k) x ≡ true = ground (arith, e) in
            let low : dest + 1 ≤ x = ground (arith, e) in
            let high : x < dest + 1 + k = ground (arith, e) in
            let from : src + suc (x - (dest + 1)) ≡ src + (x - dest) = omega arith in
            rw (e, later) (kept (x - (dest + 1)) (omega arith) ∙ ap (load8 m) from)
        | inr e ↦ elim (Bool-cases (x == dest)) [
          | inl at ↦
              let here : within dest (suc k) x ≡ true = ground (arith, at) in
              let before : within (dest + 1) (n + 1) x ≡ false = ground (arith, at) in
              let from : src + (x - dest) ≡ src = ground (arith, at) in
              rw (e, here, before, from) (load8-store8 m dest (load8 m src) x byte ∙ rw at)
          | inr at ↦
              let out : within dest (suc k) x ≡ false = ground (arith, at, e) in
              let tail : within dest (suc n + 1) x ≡ within (dest + 1) (n + 1) x =
                ground (arith, at) in
              rw (e, out, tail, load8-store8 m dest (load8 m src) x byte, at)
        ]
      ]))
