-- ===== src/Vm/Dict/Chain.antt =====
-- The dictionary as a list of words, newest first, and `dict_find` as the lookup in that list.
use Prim.Native.Nat.{bit_and}
use vector_forth_kernel.Base.{
  ℕ, zero, suc, ◌+◌, ◌*◌, ◌/◌, ◌%◌, ◌≤◌, ◌<◌, ◌≡◌, refl, ◌∙◌, Bool, true, false, ◌&&◌, some, List,
  [], ◌∷◌, arith, ◌==◌, if◌then◌else◌, length, Text, ==_of_eq, ne→not-==,
}
use vector_forth_kernel.Base.Bytes.{low_five, bit_six}
use vector_forth_kernel.Base.Memory.{Mem, load8, load64, load8-lt}
use vector_forth_kernel.Vm.State.{Vm, ok}
use vector_forth_kernel.Vm.Dict.{
  upcase, name_matches, entry_matches, find_loop, dict_find, max_entries,
}

-- A word of the dictionary: where its header stands, its flags and its name.
pub record Word : Type 0 where
  pub entry : ℕ
  pub flags : ℕ
  pub name : Text

-- The characters of a name, from an address on.
abbrev pub NameAt : Mem → ℕ → Text → Type 0
NameAt m a [] = Unit {0}
NameAt m a (c ∷ cs) = (load8 m a ≡ c) × NameAt m (a + 1) cs

-- Memory holds the header of a word, but for its link.
pub record IsHeader (m : Mem) (w : Word) : Type 0 where
  pub not_null : 0 < w.entry
  pub short : length w.name ≤ 31
  pub flags_low : w.flags % 32 ≡ 0
  pub flags_at : load8 m (w.entry + 8) ≡ w.flags + length w.name
  pub name_at : NameAt m (w.entry + 9) w.name

-- From the header at `e` the links lead through the words `ws` to NULL.
abbrev pub Chain : Mem → ℕ → List Word → Type 0
Chain m e [] = e ≡ 0
Chain m e (w ∷ ws) = (e ≡ w.entry) × IsHeader m w × Chain m (load64 m w.entry) ws

-- The same name but for the case of its letters.
abbrev pub same_name : Text → Text → Bool
same_name [] [] = true
same_name [] (d ∷ ds) = false
same_name (c ∷ cs) [] = false
same_name (c ∷ cs) (d ∷ ds) = upcase c == upcase d && same_name cs ds

-- Bit 6 of the flags, F_HIDDEN, is not set.
abbrev pub visible : Word → Bool
visible w = w.flags / 64 % 2 == 0

-- What `dict_find` is to return: the newest visible word of that name, and 0 if there is none.
abbrev pub find : Text → List Word → ℕ
find name [] = 0
find name (w ∷ ws) = if visible w && same_name w.name name then w.entry else find name ws

name_matches-same_name :
    (m : Mem) (a : ℕ) (xs ys : Text)
    → NameAt m a xs
    → (length xs == length ys && name_matches m a ys) ≡ same_name xs ys
unfolding name_matches
name_matches-same_name m a [] [] h = refl
name_matches-same_name m a [] (y ∷ ys) h = ground arith
name_matches-same_name m a (x ∷ xs) [] h = ground arith
name_matches-same_name m a (x ∷ xs) (y ∷ ys) (e, h) =
    ground (arith, name_matches-same_name m (a + 1) xs ys h)

entry_matches-visible :
    {m : Mem} (w : Word) (name : Text)
    → IsHeader m w
    → entry_matches m name w.entry ≡ (visible w && same_name w.name name)
unfolding entry_matches
entry_matches-visible {m} w name h =
    let at = h.flags_at in
    let lt = load8-lt m (w.entry + 8) in
    let low : bit_and (load8 m (w.entry + 8)) 0x1f ≡ length w.name =
      low_five (load8 m (w.entry + 8)) lt ∙ omega arith in
    let six : bit_and (load8 m (w.entry + 8)) 0x40 ≡ w.flags / 64 % 2 * 64 =
      bit_six (load8 m (w.entry + 8)) lt ∙ omega arith in
    rw (low, six) (ground (arith, name_matches-same_name m (w.entry + 9) w.name name h.name_at))

find_loop-find :
    (f : ℕ) (m : Mem) (name : Text) (e : ℕ) (ws : List Word)
    → Chain m e ws
    → length ws < f
    → find_loop f m name e ≡ some (find name ws)
unfolding find_loop
find_loop-find zero m name e ws h fuel = absurd (omega arith)
find_loop-find (suc f) m name e [] h fuel = rw (==_of_eq e 0 h)
find_loop-find (suc f) m name e (w ∷ ws) (at, h, t) fuel =
    rw (at, ne→not-== w.entry 0 (omega (arith, h.not_null)), entry_matches-visible w name h)
      (ground (arith, find_loop-find f m name (load64 m w.entry) ws t))

-- `dict_find` returns the header of the newest visible word with that name, whatever the case of
-- its letters, and NULL if there is none. It changes nothing.
pub dict_find-find :
    (name : Text) (m : Vm) (ws : List Word)
    → Chain m.mem m.latest ws
    → length ws < max_entries
    → dict_find name m ≡ ok (find name ws) m
unfolding dict_find
dict_find-find name m ws h few =
    rw (find_loop-find max_entries m.mem name m.latest ws h few, dict_find)
