-- ===== src/Vm/Dict.antt =====
-- The functions of vm/dictionary/dictionary.c over the memory of the machine. A header is
--   link (8 bytes), flags and length (1 byte), the name, padding to 8 bytes,
-- and the code field and the parameter field follow. A name is the list of its characters.
pub mod Chain
pub mod Create
pub mod Lookup
pub mod Listing
use Prim.Native.Nat.{bit_and, bit_or}
use vector_forth_kernel.Base.{
  ℕ, zero, suc, ◌+◌, ◌-◌, ◌*◌, ◌/◌, ◌%◌, Bool, true, false, not, ◌&&◌, Option, none, some, List, [],
  ◌∷◌, ◌==◌, ltb, leb, if◌then◌else◌, length, take, Text,
}
use vector_forth_kernel.Base.Word.{two64, add64}
use vector_forth_kernel.Base.Memory.{Mem, load8, load64, store8, store64, store_bytes}
use vector_forth_kernel.Vm.State.{Vm, Cmd, Act, pure, done, out_of_fuel, ◌>>=◌, ◌>>◌, modify, read}

abbrev pub f_immediate : ℕ
f_immediate = 0x80

abbrev pub f_hidden : ℕ
f_hidden = 0x40

abbrev pub f_lenmask : ℕ
f_lenmask = 0x1f

abbrev pub dict_virt_base : ℕ
dict_virt_base = 0xffff_8000_1000_0000

abbrev pub dict_size : ℕ
dict_size = 1024 * 1024

-- `(addr + 7) & ~7ULL`
unfoldable pub align8 : ℕ → ℕ
align8 a = (a + 7) % two64 / 8 * 8

unfoldable pub dict_align : Act
unfolding align8
dict_align = modify λ m. record m { here = align8 m.here }

-- `*(cell_t *)dict_here = v; dict_here += 8`
unfoldable pub put_cell : ℕ → Act
put_cell v = modify λ m. record m { mem = store64 m.mem m.here v; here = add64 m.here 8 }

unfoldable pub dict_comma : ℕ → Act
unfolding dict_align put_cell
dict_comma v = do dict_align; put_cell v

unfoldable pub dict_c_comma : ℕ → Act
dict_c_comma v = modify λ m. record m { mem = store8 m.mem m.here v; here = add64 m.here 1 }

-- The length that a header records: `(u8)strlen(name)`, at most 31.
abbrev pub name_len : Text → ℕ
name_len name = let n = length name % 256 in if ltb 31 n then 31 else n

-- The flags byte of a new header.
abbrev pub flags_byte : ℕ → ℕ → ℕ
flags_byte flags len = bit_or (bit_and flags 0xe0) (bit_and len f_lenmask)

-- `memcpy(dict_here, name, n); dict_here += n`
unfoldable pub put_name : Text → ℕ → Act
put_name name n =
    modify λ m. record m { mem = store_bytes m.mem m.here (take n name); here = add64 m.here n }

unfoldable pub dict_create : Text → ℕ → Act
unfolding dict_align put_cell dict_c_comma put_name
dict_create name flags = do
  let len = name_len name
  dict_align
  entry_start ← read (λ m. m.here)
  latest ← read (λ m. m.latest)
  put_cell latest
  dict_c_comma (flags_byte flags len)
  put_name name len
  dict_align
  modify λ m. record m { latest = entry_start }

unfoldable pub dict_set_code : ℕ → Act
unfolding put_cell
dict_set_code code = put_cell code

unfoldable pub dict_add_primitive : Text → ℕ → ℕ → Act
unfolding dict_create dict_set_code
dict_add_primitive name code flags = do dict_create name flags; dict_set_code code

unfoldable pub dict_get_link : Mem → ℕ → ℕ
dict_get_link m entry = load64 m entry

unfoldable pub dict_get_flags_len : Mem → ℕ → ℕ
dict_get_flags_len m entry = load8 m (entry + 8)

unfoldable pub dict_get_name_len : Mem → ℕ → ℕ
dict_get_name_len m entry = bit_and (load8 m (entry + 8)) f_lenmask

unfoldable pub dict_get_flags : Mem → ℕ → ℕ
dict_get_flags m entry = bit_and (load8 m (entry + 8)) 0xe0

-- The address of the name.
unfoldable pub dict_get_name : ℕ → ℕ
dict_get_name entry = entry + 9

unfoldable pub dict_get_code_field : Mem → ℕ → ℕ
unfolding dict_get_name_len align8
dict_get_code_field m entry = align8 (entry + 8 + 1 + dict_get_name_len m entry)

unfoldable pub dict_get_param_field : Mem → ℕ → ℕ
unfolding dict_get_code_field
dict_get_param_field m entry = dict_get_code_field m entry + 8

-- `if (c >= 'a' && c <= 'z') c -= 32`
abbrev pub upcase : ℕ → ℕ
upcase c = if leb b'a' c && leb c b'z' then c - 32 else c

-- The comparison loop of `dict_find`: the characters at `a` against a name.
unfoldable pub name_matches : Mem → ℕ → Text → Bool
name_matches m a [] = true
name_matches m a (c ∷ cs) = upcase (load8 m a) == upcase c && name_matches m (a + 1) cs

-- What makes `dict_find` return an entry.
unfoldable pub entry_matches : Mem → Text → ℕ → Bool
unfolding dict_get_flags_len dict_get_name name_matches
entry_matches m name entry =
    let flags_len = dict_get_flags_len m entry in
    bit_and flags_len f_hidden == 0
    && (bit_and flags_len f_lenmask == length name && name_matches m (dict_get_name entry) name)

-- The walk of `dict_find` down the links, with the number of headers that it may visit; 0 is NULL.
unfoldable pub find_loop : ℕ → Mem → Text → ℕ → Option ℕ
unfolding entry_matches dict_get_link
find_loop zero m name entry = none
find_loop (suc f) m name entry =
    let rest = find_loop f m name (dict_get_link m entry) in
    if entry == 0 then some 0 else if entry_matches m name entry then some entry else rest

-- A header takes at least 16 bytes with its code field, so the region holds fewer than these.
abbrev pub max_entries : ℕ
max_entries = 65537

-- `find_loop` stays shut, for its fuel is large.
unfoldable pub dict_find : Text → Cmd ℕ
dict_find name m = elim (find_loop max_entries m.mem name m.latest) [
  | none ↦ out_of_fuel
  | some entry ↦ pure entry m
]
