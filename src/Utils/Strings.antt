-- ===== src/Utils/Strings.antt =====
-- kernel/utils/string.c. The functions on memory blocks run over byte memory; an object does not wrap
-- around the end of the address space. The functions that only read C strings take each as its
-- characters (bytes) up to the NUL; `stricmp`, which subtracts signed characters, is for ASCII.
pub mod Blocks
pub mod Compare
pub mod Join
use vector_forth_kernel.Base.{
  ℕ, zero, suc, ◌+◌, ◌-◌, Bool, true, false, not, ◌&&◌, ◌||◌, Option, none, some, List, [], ◌∷◌,
  ◌==◌, ltb, leb, if◌then◌else◌, Text, length,
}
use vector_forth_kernel.Base.Int.{ℤ, pos, sub_ℕ}
use vector_forth_kernel.Base.Memory.{Mem, load8, store8}

-- `rep stosb`, `rep movsb` and the loops from the lowest address up
unfoldable pub memset : Mem → (s c n : ℕ) → Mem
memset m s c zero = m
memset m s c (suc n) = memset (store8 m s c) (s + 1) c n

unfoldable pub memcpy : Mem → (dest src n : ℕ) → Mem
memcpy m dest src zero = m
memcpy m dest src (suc n) = memcpy (store8 m dest (load8 m src)) (dest + 1) (src + 1) n

-- The loop of `memmove` from the highest address down
unfoldable pub copy_down : Mem → (dest src n : ℕ) → Mem
copy_down m dest src zero = m
copy_down m dest src (suc n) = copy_down (store8 m (dest + n) (load8 m (src + n))) dest src n

unfoldable pub memmove : Mem → (dest src n : ℕ) → Mem
memmove m dest src n = if ltb dest src then memcpy m dest src n else copy_down m dest src n

unfoldable pub memcmp : Mem → (s1 s2 n : ℕ) → ℤ
memcmp m s1 s2 zero = pos 0
memcmp m s1 s2 (suc n) =
    if not (load8 m s1 == load8 m s2)
    then sub_ℕ (load8 m s1) (load8 m s2)
    else memcmp m (s1 + 1) (s2 + 1) n

-- `while (n && (*d++ = *src++)) n--;` with the `while (n--) *d++ = '\0';` behind it
unfoldable pub strncpy : Mem → (dest src n : ℕ) → Mem
unfolding memset
strncpy m dest src zero = m
strncpy m dest src (suc n) =
    let m' = store8 m dest (load8 m src) in
    if load8 m src == 0 then memset m' (dest + 1) 0 (suc n) else strncpy m' (dest + 1) (src + 1) n

-- The first character, or the NUL
abbrev pub first : Text → ℕ
first [] = 0
first (c ∷ s) = c

unfoldable pub strcmp : Text → Text → ℤ
strcmp [] t = sub_ℕ 0 (first t)
strcmp (c ∷ s) [] = sub_ℕ c 0
strcmp (c ∷ s) (d ∷ t) = if c == d then strcmp s t else sub_ℕ c d

unfoldable pub strncmp : Text → Text → ℕ → ℤ
strncmp s t zero = pos 0
strncmp [] t (suc n) = sub_ℕ 0 (first t)
strncmp (c ∷ s) [] (suc n) = sub_ℕ c 0
strncmp (c ∷ s) (d ∷ t) (suc n) = if c == d then strncmp s t n else sub_ℕ c d

abbrev pub is_zero : ℤ → Bool
is_zero (pos n) = n == 0
is_zero (ℤ.negsuc n) = false

-- `strchr` and `strstr`: the characters from the place found on
unfoldable pub strchr : Text → ℕ → Option Text
strchr [] c = if c == 0 then some [] else none
strchr (d ∷ s) c = if d == c then some (d ∷ s) else strchr s c

unfoldable pub strstr_loop : Text → Text → Option Text
strstr_loop [] needle = none
strstr_loop (c ∷ s) needle =
    if is_zero (strncmp (c ∷ s) needle (length needle)) then some (c ∷ s) else strstr_loop s needle

unfoldable pub strstr : Text → Text → Option Text
strstr haystack [] = some haystack
strstr haystack (c ∷ needle) = strstr_loop haystack (c ∷ needle)

abbrev pub fold_case : ℕ → ℕ
fold_case c = if leb 97 c && leb c 122 then c - 32 else c

unfoldable pub stricmp : Text → Text → ℤ
stricmp [] t = sub_ℕ 0 (first t)
stricmp (c ∷ s) [] = sub_ℕ c 0
stricmp (c ∷ s) (d ∷ t) =
    if not (fold_case c == fold_case d) then sub_ℕ (fold_case c) (fold_case d) else stricmp s t

-- The loop `while (*p) p++;` over memory; it ends where the fuel does only if no NUL has come.
unfoldable pub skip_string : (fuel : ℕ) → Mem → ℕ → Option ℕ
skip_string zero m p = none
skip_string (suc fuel) m p =
    let rest = skip_string fuel m (p + 1) in if load8 m p == 0 then some p else rest

unfoldable pub strlen : (fuel : ℕ) → Mem → ℕ → Option ℕ
strlen fuel m s = elim (skip_string fuel m s) [ none ↦ none | some p ↦ some (p - s) ]

unfoldable pub strcpy : (fuel : ℕ) → Mem → (dest src : ℕ) → Option Mem
strcpy zero m dest src = none
strcpy (suc fuel) m dest src =
    let m' = store8 m dest (load8 m src) in
    let rest = strcpy fuel m' (dest + 1) (src + 1) in if load8 m src == 0 then some m' else rest

unfoldable pub strcat : (fuel : ℕ) → Mem → (dest src : ℕ) → Option Mem
strcat fuel m dest src = elim (skip_string fuel m dest) [
  | none ↦ none
  | some d ↦ strcpy fuel m d src
]
