-- ===== src/Utils/Strings/Join.antt =====
-- `strlen`, `strcpy` and `strcat` on C strings in memory.
use mathlib.Core.Path.{subst}
use vector_forth_kernel.Base.{
  ℕ, zero, suc, ◌+◌, ◌≤◌, ◌<◌, ◌≡◌, ◌≢◌, ◌⊎◌, inl, inr, sym, ap, ◌∙◌, false, some, [], ◌∷◌, ◌++◌,
  arith, ◌==◌, length, Text, ne→not-==,
}
use vector_forth_kernel.Base.Memory.{
  Mem, load8, store8, load8-lt, load8-store8_self, load8-store8_ne,
}
use vector_forth_kernel.Utils.Strings.{skip_string, strlen, strcpy, strcat}

-- The C string `s` stands at address `a`.
abbrev pub HoldsString : Mem → ℕ → Text → Type 0
HoldsString m a [] = load8 m a ≡ 0
HoldsString m a (c ∷ s) = (load8 m a ≡ c) × (c ≢ 0) × HoldsString m (a + 1) s

skip_string_lem :
    (fuel : ℕ) (m : Mem) (a : ℕ) (s : Text)
    → length s < fuel
    → HoldsString m a s
    → skip_string fuel m a ≡ some (a + length s)
unfolding skip_string
skip_string_lem zero m a s h holds = absurd (omega arith)
skip_string_lem (suc fuel) m a [] h holds = rw holds (ap some (omega arith))
skip_string_lem (suc fuel) m a (c ∷ s) h (at, ne, rest) =
    let on : (load8 m a == 0) ≡ false = ne→not-== (load8 m a) 0 (λ e. ne (sym at ∙ e)) in
    rw on (skip_string_lem fuel m (a + 1) s (omega arith) rest ∙ ap some (omega arith))

pub strlen_lem :
    (fuel : ℕ) (m : Mem) (a : ℕ) (s : Text)
    → length s < fuel
    → HoldsString m a s
    → strlen fuel m a ≡ some (length s)
unfolding strlen
strlen_lem fuel m a s h holds =
    rw (strlen, skip_string_lem fuel m a s h holds) (ap some (omega arith))

-- A string that no byte of another object is part of.
kept_string :
    (m m' : Mem) (a : ℕ) (s : Text)
    → ((x : ℕ) → a ≤ x → x ≤ a + length s → load8 m' x ≡ load8 m x)
    → HoldsString m a s
    → HoldsString m' a s
kept_string m m' a [] same holds = same a (omega arith) (omega arith) ∙ holds
kept_string m m' a (c ∷ s) same (at, ne, rest) = (
  same a (omega arith) (omega arith) ∙ at,
  ne,
  kept_string m m' (a + 1) s (λ x lo hi. same x (omega arith) (omega arith)) rest,
)

-- The `n + 1` bytes from `a` and from `b` on do not overlap.
abbrev pub Disjoint : (n a b : ℕ) → Type 0
Disjoint n a b = (a + n < b) ⊎ (b + n < a)

-- The string `s` copied to `d`, and no other byte changed.
abbrev pub Copied : Mem → ℕ → Text → Mem → Type 0
Copied m d s m' =
    HoldsString m' d s × ((x : ℕ) → (x < d) ⊎ (d + length s < x) → load8 m' x ≡ load8 m x)

pub strcpy-Copied :
    (fuel : ℕ) (m : Mem) (d a : ℕ) (s : Text)
    → length s < fuel
    → HoldsString m a s
    → Disjoint (length s) d a
    → (m' : Mem) × (strcpy fuel m d a ≡ some m') × Copied m d s m'
unfolding strcpy
strcpy-Copied zero m d a s h holds apart = absurd (omega arith)
strcpy-Copied (suc fuel) m d a [] h holds apart = (
  store8 m d (load8 m a),
  rw holds,
  (
    load8-store8_self m d (load8 m a) ∙ rw holds,
    λ x out.
        load8-store8_ne m d (load8 m a) x
          (elim out [ inl lo ↦ λ e. omega arith | inr hi ↦ λ e. omega arith ]),
  ),
)
strcpy-Copied (suc fuel) m d a (c ∷ s) h (at, ne, rest) apart =
    let m1 = store8 m d (load8 m a) in
    let on : (load8 m a == 0) ≡ false = ne→not-== (load8 m a) 0 (λ e. ne (sym at ∙ e)) in
    let rest1 : HoldsString m1 (a + 1) s =
      kept_string m m1 (a + 1) s
        (λ x lo hi.
          load8-store8_ne m d (load8 m a) x
            (elim apart [ inl l ↦ λ e. omega arith | inr r ↦ λ e. omega arith ]))
        rest in
    let (m', e, (there, out)) =
      strcpy-Copied fuel m1 (d + 1) (a + 1) s (omega arith) rest1
        (elim apart [ inl l ↦ inl (omega arith) | inr r ↦ inr (omega arith) ]) in
    let byte = load8-lt m a in
    let stored : load8 m1 d ≡ load8 m a = load8-store8_self m d (load8 m a) ∙ omega arith in
    (
      m',
      rw on e,
      (
        (out d (inl (omega arith)) ∙ stored ∙ at, ne, there),
        λ x away.
            out x (elim away [ inl l ↦ inl (omega arith) | inr r ↦ inr (omega arith) ])
            ∙ load8-store8_ne m d (load8 m a) x
                (elim away [ inl l ↦ λ e. omega arith | inr r ↦ λ e. omega arith ]),
      ),
    )

-- A string with another written over its NUL.
join :
    (m m' : Mem) (d : ℕ) (s t : Text)
    → HoldsString m d s
    → ((x : ℕ) → x < d + length s → load8 m' x ≡ load8 m x)
    → HoldsString m' (d + length s) t
    → HoldsString m' d (s ++ t)
join m m' d [] t first same second =
    subst (λ a. HoldsString m' a t) (let e : d + 0 ≡ d = omega arith in e) second
join m m' d (c ∷ s) t (at, ne, rest) same second = (
  same d (omega arith) ∙ at,
  ne,
  join m m' (d + 1) s t rest (λ x hi. same x (omega arith))
      (subst (λ a. HoldsString m' a t)
        (let e : d + suc (length s) ≡ d + 1 + length s = omega arith in e) second),
)

-- `strcat` of a string in memory to another that ends where the copy begins, with enough fuel for the
-- loops: the target holds both, one behind the other, and no byte has changed but those of the copy.
pub strcat-HoldsString :
    (fuel : ℕ) (m : Mem) (d a : ℕ) (s t : Text)
    → length s < fuel
    → length t < fuel
    → HoldsString m d s
    → HoldsString m a t
    → Disjoint (length t) (d + length s) a
    → (m' : Mem) × (strcat fuel m d a ≡ some m')
      × HoldsString m' d (s ++ t)
      × ((x : ℕ) → (x < d + length s) ⊎ (d + length s + length t < x) → load8 m' x ≡ load8 m x)
unfolding strcat
strcat-HoldsString fuel m d a s t hs ht first second apart =
    let (m', e, (there, out)) = strcpy-Copied fuel m (d + length s) a t ht second apart in
    (
      m',
      rw (strcat, skip_string_lem fuel m d s hs first) e,
      join m m' d s t first (λ x hi. out x (inl hi)) there,
      out,
    )
