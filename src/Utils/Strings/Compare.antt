-- ===== src/Utils/Strings/Compare.antt =====
-- The comparison and search of C strings in kernel/utils/string.c.
use mathlib.Core.Path.{subst}
use vector_forth_kernel.Base.{
  ℕ, zero, suc, ◌<◌, ◌≡◌, ◌↔◌, inl, inr, refl, sym, ap, ◌∙◌, true, false, arith, ◌==◌, Bool-cases,
  ==→eq, not-==→ne, [], ◌∷◌, ◌++◌, Option, none, some, Text, length, take,
}
use vector_forth_kernel.Base.Int.{ℤ, pos, negsuc, sub_ℕ}
use vector_forth_kernel.Utils.Strings.{strcmp, strncmp, strstr, strstr_loop, is_zero}

-- The characters of a C string: none is the NUL.
abbrev pub IsCString : Text → Type 0
IsCString [] = Unit {0}
IsCString (c ∷ s) = (0 < c) × IsCString s

zero_sub : (a b : ℕ) → sub_ℕ a b ≡ pos 0 → a ≡ b
zero_sub a b e = ground (arith, e)

sub_self : (a : ℕ) → sub_ℕ a a ≡ pos 0
sub_self a = ground arith

head_tail : (c d : ℕ) (s t : Text) → c ∷ s ≡ d ∷ t → (c ≡ d) × (s ≡ t)
head_tail c d s t e = (cc, cc)

-- `strncmp` returns 0 exactly if the strings agree up to their first `n` characters.
pub strncmp-zero :
    (s t : Text) (n : ℕ)
    → IsCString s
    → IsCString t
    → (strncmp s t n ≡ pos 0) ↔ (take n s ≡ take n t)
unfolding strncmp
strncmp-zero s t zero hs ht = (λ e. refl, λ e. refl)
strncmp-zero [] [] (suc n) hs ht = (λ e. refl, λ e. refl)
strncmp-zero [] (d ∷ t) (suc n) (hs) ht =
    (λ e. let z = zero_sub 0 d e in absurd (omega arith), λ e. absurd cc)
strncmp-zero (c ∷ s) [] (suc n) hs ht =
    (λ e. let z = zero_sub c 0 e in absurd (omega arith), λ e. absurd cc)
strncmp-zero (c ∷ s) (d ∷ t) (suc n) hs ht = elim (Bool-cases (c == d)) [
  | inl e ↦
      let same : c ≡ d = ==→eq c d e in
      let rest = strncmp-zero s t n hs.1 ht.1 in
      rw e (λ z. rw (same, rest.0 z), λ z. rest.1 (head_tail c d (take n s) (take n t) z).1)
  | inr e ↦
      let apart = not-==→ne c d e in
      rw e (
        λ z. absurd (apart (zero_sub c d z)),
        λ z. absurd (apart (head_tail c d (take n s) (take n t) z).0),
      )
]

-- `strcmp` returns 0 exactly for equal strings.
pub strcmp-zero : (s t : Text) → IsCString s → IsCString t → (strcmp s t ≡ pos 0) ↔ (s ≡ t)
unfolding strcmp
strcmp-zero [] [] hs ht = (λ e. refl, λ e. refl)
strcmp-zero [] (d ∷ t) hs ht = (λ e. let z = zero_sub 0 d e in absurd (omega arith), λ e. absurd cc)
strcmp-zero (c ∷ s) [] hs ht = (λ e. let z = zero_sub c 0 e in absurd (omega arith), λ e. absurd cc)
strcmp-zero (c ∷ s) (d ∷ t) hs ht = elim (Bool-cases (c == d)) [
  | inl e ↦
      let same : c ≡ d = ==→eq c d e in
      let rest = strcmp-zero s t hs.1 ht.1 in
      rw e (λ z. rw (same, rest.0 z), λ z. rest.1 (head_tail c d s t z).1)
  | inr e ↦
      let apart = not-==→ne c d e in
      rw e (λ z. absurd (apart (zero_sub c d z)), λ z. absurd (apart (head_tail c d s t z).0))
]

is_zero→zero : (z : ℤ) → is_zero z ≡ true → z ≡ pos 0
is_zero→zero (pos n) e = ground (arith, e)
is_zero→zero (negsuc n) e = absurd cc

take_all : (s : Text) → take (length s) s ≡ s
take_all [] = refl
take_all (c ∷ s) = ap (λ x. c ∷ x) (take_all s)

-- The needle stands at the beginning of the string.
abbrev pub StartsWith : Text → Text → Type 0
StartsWith needle s = take (length needle) s ≡ needle

starts_test :
    (s needle : Text)
    → IsCString s
    → IsCString needle
    → is_zero (strncmp s needle (length needle)) ≡ true
    → StartsWith needle s
starts_test s needle hs hn e =
    (strncmp-zero s needle (length needle) hs hn).0
      (is_zero→zero (strncmp s needle (length needle)) e)
    ∙ take_all needle

starts_not :
    (s needle : Text)
    → IsCString s
    → IsCString needle
    → is_zero (strncmp s needle (length needle)) ≡ false
    → ¬ StartsWith needle s
starts_not s needle hs hn e there =
    let z = (strncmp-zero s needle (length needle) hs hn).1 (there ∙ sym (take_all needle)) in
    let yes : is_zero (strncmp s needle (length needle)) ≡ true = rw z in absurd cc

-- What a search answers: the string from the first place of the needle on, or that there is none.
abbrev pub Located : Text → Text → Option Text → Type 0
Located needle s none = (before after : Text) → before ++ after ≡ s → ¬ StartsWith needle after
Located needle s (some rest) =
    ((before : Text) × (before ++ rest ≡ s)
      × ((b a : Text) → b ++ a ≡ s → length b < length before → ¬ StartsWith needle a))
    × StartsWith needle rest

-- A place in `c ∷ s` is the first one or one in `s`.
not_before :
    (c : ℕ) (s needle : Text) (n : ℕ)
    → ¬ StartsWith needle (c ∷ s)
    → ((b a : Text) → b ++ a ≡ s → length b < n → ¬ StartsWith needle a)
    → (b a : Text) → b ++ a ≡ c ∷ s
    → length b < suc n
    → ¬ StartsWith needle a
not_before c s needle n here rest [] a e l there = here (subst (λ x. StartsWith needle x) e there)
not_before c s needle n here rest (x ∷ b) a e l there =
    rest b a (head_tail x c (b ++ a) s e).1 (omega arith) there

not_in_empty : (d : ℕ) (needle b a : Text) → b ++ a ≡ [] → ¬ StartsWith (d ∷ needle) a
not_in_empty d needle [] a e there =
    let empty : take (suc (length needle)) [] ≡ d ∷ needle =
      subst (λ x. StartsWith (d ∷ needle) x) e there in
    absurd cc
not_in_empty d needle (x ∷ b) a e there = absurd cc

-- The needle is not at the first place, so it is located where it is in the rest.
Located-later :
    (c : ℕ) (s needle : Text) (o : Option Text)
    → ¬ StartsWith needle (c ∷ s)
    → Located needle s o
    → Located needle (c ∷ s) o
Located-later c s needle none here rest =
    λ b a e. not_before c s needle (length b) here (λ b' a' e' l. rest b' a' e') b a e (omega arith)
Located-later c s needle (some r) here ((before, joins, earliest), there) = (
  (c ∷ before, ap (λ x. c ∷ x) joins, not_before c s needle (length before) here earliest),
  there,
)

strstr_loop-Located :
    (s needle : Text)
    → 0 < length needle
    → IsCString s
    → IsCString needle
    → Located needle s (strstr_loop s needle)
unfolding strstr_loop
strstr_loop-Located [] [] h hs hn = absurd (omega arith)
strstr_loop-Located [] (d ∷ needle) h hs hn = not_in_empty d needle
strstr_loop-Located (c ∷ s) needle h hs hn =
    elim (Bool-cases (is_zero (strncmp (c ∷ s) needle (length needle)))) [
      | inl e ↦
          rw e (([], refl, λ b a x l. absurd (omega arith)), starts_test (c ∷ s) needle hs hn e)
      | inr e ↦ rw e (
          Located-later c s needle (strstr_loop s needle) (starts_not (c ∷ s) needle hs hn e)
            (strstr_loop-Located s needle h hs.1 hn))
    ]

-- `strstr` with a needle that is not empty gives the string from the first place on at which the needle
-- stands, or NULL if it stands nowhere.
pub strstr-Located :
    (s needle : Text)
    → 0 < length needle
    → IsCString s
    → IsCString needle
    → Located needle s (strstr s needle)
unfolding strstr
strstr-Located s [] h hs hn = absurd (omega arith)
strstr-Located s (d ∷ needle) h hs hn = strstr_loop-Located s (d ∷ needle) h hs hn
