-- ===== src/Vm/Parse.antt =====
-- The parser of vm/core/forth.c: `parse_word`, `parse_until` and `try_parse_number`.
pub mod Tokens
use vector_forth_kernel.Base.{
  ℕ, zero, suc, ◌+◌, ◌-◌, Bool, not, ◌&&◌, ◌||◌, Option, none, some, List, [], ◌∷◌, ◌==◌,
  if◌then◌else◌, length, Text,
}
use vector_forth_kernel.Utils.Stdlib.{isspace, skip_spaces, strtol}
use vector_forth_kernel.Vm.State.{Vm, Cmd, pure}

-- The copying loop of `parse_word` with room for so many characters: the word, and what follows.
unfoldable pub take_word : ℕ → Text → Text × Text
take_word zero cs = ([], cs)
take_word (suc n) [] = ([], [])
take_word (suc n) (c ∷ cs) =
    let (w, rest) = take_word n cs in if isspace c then ([], c ∷ cs) else (c ∷ w, rest)

-- The word that is parsed; an empty one is the result 0.
unfoldable pub parse_word : ℕ → Cmd Text
unfolding take_word
parse_word max_len m =
    let (w, rest) = take_word (max_len - 1) (skip_spaces m.parse) in
    pure w (record m { parse = rest })

-- The copying loop of `parse_until`.
unfoldable pub take_until : ℕ → ℕ → Text → Text × Text
take_until delim zero cs = ([], cs)
take_until delim (suc n) [] = ([], [])
take_until delim (suc n) (c ∷ cs) =
    let (w, rest) = take_until delim n cs in if c == delim then ([], c ∷ cs) else (c ∷ w, rest)

-- `if (*parse_ptr == c) parse_ptr++`
abbrev pub skip_char : ℕ → Text → Text
skip_char c [] = []
skip_char c (d ∷ cs) = if d == c then cs else d ∷ cs

unfoldable pub parse_until : ℕ → ℕ → Cmd Text
unfolding take_until
parse_until delim max_len m =
    let (w, rest) = take_until delim (max_len - 1) (skip_char 32 m.parse) in
    pure w (record m { parse = skip_char delim rest })

-- The base and the digits of a number, by its prefix.
abbrev pub number_prefix : ℕ → Text → ℕ × Text
number_prefix base [] = (base, [])
number_prefix base (c ∷ []) =
    if c == b'$'
    then (16, [])
    else if c == b'#'
    then (10, [])
    else if c == b'%'
    then (2, [])
    else (base, c ∷ [])
number_prefix base (c ∷ (d ∷ cs)) =
    if c == b'0' && (d == b'x' || d == b'X')
    then (16, cs)
    else if c == b'$'
    then (16, d ∷ cs)
    else if c == b'#'
    then (10, d ∷ cs)
    else if c == b'%'
    then (2, d ∷ cs)
    else (base, c ∷ (d ∷ cs))

-- The number that a word denotes in a base, if it is read to its end and is not empty.
unfoldable pub try_parse_number : ℕ → Text → Option ℕ
unfolding strtol
try_parse_number forth_base word =
    let (base, digits) = number_prefix forth_base word in
    let (val, end) = strtol digits base in
    if length end == 0 && not (length end == length digits) then some val else none
