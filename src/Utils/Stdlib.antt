-- ===== src/Utils/Stdlib.antt =====
-- kernel/utils/stdlib.c. A C string is the list of its characters up to the NUL; `long` and
-- `unsigned long` are 64-bit patterns, `int` and `unsigned int` 32-bit ones. Signed overflow, which
-- C leaves undefined, wraps.
pub mod Reverse
pub mod Digits
pub mod Roundtrip
use Prim.Native.Nat.{compare, Ordering}
use vector_forth_kernel.Base.{
  ℕ, zero, suc, ◌+◌, ◌-◌, ◌*◌, ◌/◌, ◌%◌, Bool, true, false, ◌&&◌, ◌||◌, Option, none, some, List,
  [], ◌∷◌, ◌++◌, ◌==◌, ltb, leb, if◌then◌else◌, length, get_or, set, Text,
}
use vector_forth_kernel.Base.Word.{two64, two63}

abbrev pub isdigit : ℕ → Bool
isdigit c = leb b'0' c && leb c b'9'

abbrev pub isalpha : ℕ → Bool
isalpha c = leb b'a' c && leb c b'z' || leb b'A' c && leb c b'Z'

abbrev pub isspace : ℕ → Bool
isspace c = c == 32 || (c == 9 || (c == 10 || (c == 13 || (c == 12 || c == 11))))

abbrev pub isupper : ℕ → Bool
isupper c = leb b'A' c && leb c b'Z'

abbrev pub islower : ℕ → Bool
islower c = leb b'a' c && leb c b'z'

abbrev pub toupper_c : ℕ → ℕ
toupper_c c = if islower c then c - 32 else c

abbrev pub tolower_c : ℕ → ℕ
tolower_c c = if isupper c then c + 32 else c

-- `(digit < 10) ? ('0' + digit) : ('a' + digit - 10)`
abbrev pub digit_char : ℕ → ℕ
digit_char d = if ltb d 10 then b'0' + d else b'a' + d - 10

-- The `do … while (value)` loop: the digits in the order in which they are written, the lowest
-- first. The fuel counts the rounds; a 64-bit value takes at most 64.
unfoldable pub digits_loop : ℕ → ℕ → ℕ → Text
digits_loop zero base value = []
digits_loop (suc f) base value =
    let rest = digits_loop f base (value / base) in
    digit_char (value % base) ∷ (if value / base == 0 then [] else rest)

abbrev pub max_digits : ℕ
max_digits = 64

-- The loop that reverses `str` in place between `p1` and `p`.
unfoldable pub reverse_loop : ℕ → Text → ℕ → ℕ → Text
reverse_loop zero str p1 p = str
reverse_loop (suc f) str p1 p =
    let rest =
      reverse_loop f (set (set str p1 (get_or str p 0)) p (get_or str p1 0)) (p1 + 1) (p - 1) in
    if ltb p1 p then rest else str

-- The digits behind `sign`, reversed in place. A round of the reversal takes two characters, so
-- their number is fuel enough.
unfoldable pub turn_round : Text → Text → Text
unfolding reverse_loop
turn_round sign ds =
    let str = sign ++ ds in reverse_loop (length str) str (length sign) (length str - 1)

-- What is written from the sign on. The digit loop stays shut, for its fuel is large.
unfoldable pub write_digits : Text → ℕ → ℕ → Text
write_digits sign base value = turn_round sign (digits_loop max_digits base value)

abbrev pub bad_base : ℕ → Bool
bad_base base = ltb base 2 || ltb 36 base

unfoldable pub ultoa : ℕ → ℕ → Text
unfolding write_digits
ultoa value base = if bad_base base then [] else write_digits [] base value

unfoldable pub ltoa : ℕ → ℕ → Text
unfolding write_digits
ltoa value base =
    if bad_base base
    then []
    else if leb two63 value && base == 10
    then write_digits (b'-' ∷ []) base ((two64 - value) % two64)
    else write_digits [] base value

-- `utoa` and `itoa`, on 32-bit patterns
unfoldable pub utoa : ℕ → ℕ → Text
unfolding write_digits
utoa value base = if bad_base base then [] else write_digits [] base value

unfoldable pub itoa : ℕ → ℕ → Text
unfolding write_digits
itoa value base =
    if bad_base base
    then []
    else if leb 0x8000_0000 value && base == 10
    then write_digits (b'-' ∷ []) base ((0x1_0000_0000 - value) % 0x1_0000_0000)
    else write_digits [] base value

-- The digit of a character, if it is one in any base.
abbrev pub char_digit : ℕ → Option ℕ
char_digit c =
    if leb b'0' c && leb c b'9'
    then some (c - b'0')
    else if leb b'a' c && leb c b'z'
    then some (c - b'a' + 10)
    else if leb b'A' c && leb c b'Z'
    then some (c - b'A' + 10)
    else none

-- The digit, if it is below the base.
unfoldable pub base_digit : ℕ → ℕ → Option ℕ
base_digit base c = elim (char_digit c) [
  | none ↦ none
  | some d ↦ if leb base d then none else some d
]

-- The loop of `strtol` and `strtoul`: the value modulo 2 ^ 64, and the characters from `str` on.
unfoldable pub strtol_loop : ℕ → Text → ℕ → ℕ × Text
unfolding base_digit
strtol_loop base [] result = (result, [])
strtol_loop base (c ∷ cs) result = elim (base_digit base c) [
  | none ↦ (result, c ∷ cs)
  | some d ↦ strtol_loop base cs ((result * base + d) % two64)
]

abbrev pub skip_spaces : Text → Text
skip_spaces [] = []
skip_spaces (c ∷ cs) = if isspace c then skip_spaces cs else c ∷ cs

-- A base and the text behind its prefix, for `base == 0`.
abbrev pub detect_base : Text → ℕ × Text
detect_base [] = (10, [])
detect_base (c ∷ []) = if c == b'0' then (8, []) else (10, c ∷ [])
detect_base (c ∷ (d ∷ cs)) =
    if c == b'0'
    then (if d == b'x' || d == b'X' then (16, cs) else (8, d ∷ cs))
    else (10, c ∷ (d ∷ cs))

abbrev pub base_and_text : ℕ → Text → ℕ × Text
base_and_text base str = if base == 0 then detect_base str else (base, str)

-- The digits behind the sign.
abbrev pub strtol_digits : Text → ℕ → ℕ × Text
strtol_digits str base = let (b, cs) = base_and_text base str in strtol_loop b cs 0

-- `result * sign`, with the rest of the text.
abbrev pub negated : ℕ × Text → ℕ × Text
negated (n, rest) = ((two64 - n) % two64, rest)

abbrev pub strtol_signed : Text → ℕ → ℕ × Text
strtol_signed [] base = strtol_digits [] base
strtol_signed (c ∷ cs) base =
    if c == b'-'
    then negated (strtol_digits cs base)
    else if c == b'+'
    then strtol_digits cs base
    else strtol_digits (c ∷ cs) base

-- The value as a 64-bit pattern, and the text at `*endptr`.
unfoldable pub strtol : Text → ℕ → ℕ × Text
unfolding strtol_loop
strtol str base = strtol_signed (skip_spaces str) base

abbrev pub skip_plus : Text → Text
skip_plus [] = []
skip_plus (c ∷ cs) = if c == b'+' then cs else c ∷ cs

unfoldable pub strtoul : Text → ℕ → ℕ × Text
unfolding strtol_loop
strtoul str base = strtol_digits (skip_plus (skip_spaces str)) base

-- `(int)strtol(str, NULL, 10)`, as a 32-bit pattern
unfoldable pub atoi : Text → ℕ
unfolding strtol
atoi str = (strtol str 10).0 % 0x1_0000_0000
