-- ===== src/Examples/Texts.antt =====
-- The numbers and strings of kernel/utils at concrete inputs.
use vector_forth_kernel.Base.{
  ℕ, ◌+◌, ◌-◌, ◌≤◌, ◌<◌, ◌≡◌, ◌≢◌, refl, [], ◌&&◌, arith, length, leb, ltb, if◌then◌else◌, Text,
  codes,
}
use vector_forth_kernel.Base.Memory.{Mem, load8}
use vector_forth_kernel.Utils.Stdlib.{ultoa, ltoa, strtol}
use vector_forth_kernel.Utils.Stdlib.Digits.{ltoa_fits}
use vector_forth_kernel.Utils.Stdlib.Roundtrip.{strtol-ltoa}
use vector_forth_kernel.Utils.Strings.{memmove, strncpy, strstr}
use vector_forth_kernel.Utils.Strings.Blocks.{load8-memmove, load8-strncpy, within}
use vector_forth_kernel.Utils.Strings.Compare.{IsCString, Located, strstr-Located}

strtol-ltoa_example : strtol (ltoa 0x8000_0000_0000_0000 10) 10 ≡ (0x8000_0000_0000_0000, [])
strtol-ltoa_example = strtol-ltoa 0x8000_0000_0000_0000 10 (omega arith) (omega arith) (omega arith)

ltoa_fits_example :
    (length (ltoa 0x8000_0000_0000_0000 10) ≤ 20)
    × (length (ltoa 0x8000_0000_0000_0000 16) ≤ 16)
    × (length (ultoa 0x8000_0000_0000_0000 16) ≤ 16)
    × (length (ultoa 0x8000_0000_0000_0000 10) ≤ 20)
ltoa_fits_example = ltoa_fits 0x8000_0000_0000_0000 (omega arith)

abbrev ramp : Mem
ramp = λ a. a

load8-memmove_example :
    load8 (memmove ramp 12 10 5) 14
    ≡ (if leb 12 14 && ltb 14 (12 + 5) then load8 ramp (10 + (14 - 12)) else load8 ramp 14)
load8-memmove_example = load8-memmove ramp 12 10 5 14

-- A string of two characters at 100, copied into a buffer of 4 bytes at 20.
abbrev two_letters : Mem
two_letters = λ a. if ltb a 102 then 65 else 0

two_letters-characters : (i : ℕ) → i < 2 → load8 two_letters (100 + i) ≢ 0
unfolding load8
two_letters-characters i l = ground arith

two_letters-end : load8 two_letters (100 + 2) ≡ 0
unfolding load8
two_letters-end = refl

load8-strncpy_example : load8 (strncpy two_letters 20 100 4) 24 ≡ (
    if within 20 2 24
    then load8 two_letters (100 + (24 - 20))
    else if within 20 (4 + 1) 24
    then 0
    else load8 two_letters 24)
load8-strncpy_example =
    load8-strncpy 4 two_letters 20 100 2 24 (omega arith) (omega arith) two_letters-characters
      two_letters-end

abbrev word : Text
word = codes "ok"

word-IsCString : IsCString word
word-IsCString = (omega arith, (omega arith, tt))

strstr-Located_example : Located word word (strstr word word)
strstr-Located_example = strstr-Located word word (omega arith) word-IsCString word-IsCString
