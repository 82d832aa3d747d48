-- ===== src/Fs/Files/Fields.antt =====
-- The type and the data of a block as the cache shows it, and the bits of the bitmap.
use vector_forth_kernel.Base.{
  ℕ, ◌+◌, ◌/◌, ◌%◌, ◌<◌, ◌≡◌, ◌∙◌, Bool, arith, get_or, set, take, drop, length, length-take,
  length-set, drop-append, take-append, get_or-append, get_or-take, drop-set_shift, take-set, Text,
}
use vector_forth_kernel.Base.Bitmap.{bit_is, bit_set}
use vector_forth_kernel.Fs.Blocks.{Cache, get32, block_bytes}
use vector_forth_kernel.Fs.Blocks.Bytes.{body}
use vector_forth_kernel.Fs.Blocks.View.{view}
use vector_forth_kernel.Fs.Files.{mark_used}

abbrev pub shown_type : Cache → ℕ → ℕ
shown_type s n = get32 0 (view s n)

abbrev pub shown_data : Cache → ℕ → Text
shown_data s n = drop 12 (view s n)

-- Bit `q` of the bitmap.
abbrev pub bit_at : Text → ℕ → Bool
bit_at bytes q = bit_is (get_or bytes (q / 8) 0) (q % 8)

header_length : (b : Text) → length b ≡ 1024 → length (take 12 b) ≡ 12
header_length b h = omega (arith, length-take 12 b)

pub data-body : (b : Text) → length b ≡ 1024 → drop 12 (body b) ≡ block_bytes b
data-body b h = drop-append 12 (take 12 b) (drop 16 b) (header_length b h)

pub header-body : (b : Text) → length b ≡ 1024 → take 12 (body b) ≡ take 12 b
header-body b h = take-append 12 (take 12 b) (drop 16 b) (header_length b h)

byte-body : (b : Text) (i : ℕ) → length b ≡ 1024 → i < 12 → get_or (body b) i 0 ≡ get_or b i 0
byte-body b i h l =
    get_or-append (take 12 b) (drop 16 b) i 0 (omega (arith, header_length b h))
    ∙ get_or-take 12 b i 0 l

pub type-body : (b : Text) → length b ≡ 1024 → get32 0 (body b) ≡ get32 0 b
unfolding get32
type-body b h = omega (
  arith,
  byte-body b 0 h (omega arith),
  byte-body b 1 h (omega arith),
  byte-body b 2 h (omega arith),
  byte-body b 3 h (omega arith),
)

pub data-mark_used :
    (byte bit : ℕ) (b : Text)
    → block_bytes (mark_used byte bit b)
      ≡ set (block_bytes b) byte (bit_set (get_or b (16 + byte) 0) bit)
unfolding mark_used
data-mark_used byte bit b = drop-set_shift 16 byte b _

pub header-mark_used : (byte bit : ℕ) (b : Text) → take 12 (mark_used byte bit b) ≡ take 12 b
unfolding mark_used
header-mark_used byte bit b = take-set 12 (16 + byte) b _ (omega arith)

pub length-mark_used : (byte bit : ℕ) (b : Text) → length (mark_used byte bit b) ≡ length b
unfolding mark_used
length-mark_used byte bit b = length-set b (16 + byte) _
