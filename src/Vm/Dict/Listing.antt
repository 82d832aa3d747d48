-- ===== src/Vm/Dict/Listing.antt =====
-- `dict_list_words` prints the names of the visible words.
use Prim.Native.Nat.{bit_and}
use vector_forth_kernel.Base.{
  ℕ, zero, suc, ◌+◌, ◌*◌, ◌/◌, ◌%◌, ◌<◌, ◌≡◌, inl, inr, refl, ap, ap₂, ◌∙◌, true, false, Option,
  none, some, List, [], ◌∷◌, ◌++◌, arith, ◌==◌, if◌then◌else◌, length, Text, codes, ==_of_eq,
  ne→not-==, Bool-cases,
}
use vector_forth_kernel.Base.Bytes.{low_five, bit_six}
use vector_forth_kernel.Base.Memory.{Mem, load8, load64, load8-lt}
use vector_forth_kernel.Utils.Stdlib.{itoa}
use vector_forth_kernel.Vm.State.{Vm, Act, out_of_fuel, puts}
use vector_forth_kernel.Vm.Dict.{
  f_hidden, f_lenmask, max_entries, dict_get_flags_len, dict_get_name, dict_get_link,
}
use vector_forth_kernel.Vm.Dict.Chain.{Word, NameAt, IsHeader, Chain, visible}
use vector_forth_kernel.Vm.Dict.Create.{IsDict, Spaced-length}

-- The loop over the characters of a name.
unfoldable pub name_chars : Mem → ℕ → ℕ → Text
name_chars m a zero = []
name_chars m a (suc n) = load8 m a ∷ name_chars m (a + 1) n

-- A name with the blank behind it, and the line feed behind each tenth; `count` words stand before it.
abbrev pub name_text : (count : ℕ) → Text → Text
name_text count name = name ++ (codes " " ++ (if (count + 1) % 10 == 0 then codes "\n" else []))

unfoldable pub add_text : Text → Option (Text × ℕ) → Option (Text × ℕ)
add_text before none = none
add_text before (some (text, n)) = some (before ++ text, n)

-- What the loop prints, and the count at its end.
unfoldable pub list_loop : (fuel : ℕ) → Mem → (count entry : ℕ) → Option (Text × ℕ)
list_loop zero m count entry = none
list_loop (suc fuel) m count entry =
    let flags_len = dict_get_flags_len m entry in
    let hidden = list_loop fuel m count (dict_get_link m entry) in
    let shown = list_loop fuel m (count + 1) (dict_get_link m entry) in
    let name = name_chars m (dict_get_name entry) (bit_and flags_len f_lenmask) in
    if entry == 0
    then some ([], count)
    else if bit_and flags_len f_hidden == 0
    then add_text (name_text count name) shown
    else hidden

unfoldable pub dict_list_words : Act
dict_list_words m = elim (list_loop max_entries m.mem 0 m.latest) [
  | none ↦ out_of_fuel
  | some (text, count) ↦ puts (text ++ (codes "\n" ++ (itoa count 10 ++ codes " words total\n"))) m
]

-- The listing of a list of words, and how many of them are visible.
abbrev pub listing : ℕ → List Word → Text
listing count [] = []
listing count (w ∷ ws) =
    if visible w then name_text count w.name ++ listing (count + 1) ws else listing count ws

abbrev pub count_visible : ℕ → List Word → ℕ
count_visible count [] = count
count_visible count (w ∷ ws) = count_visible (if visible w then count + 1 else count) ws

name_chars-NameAt : (m : Mem) (a : ℕ) (cs : Text) → NameAt m a cs → name_chars m a (length cs) ≡ cs
unfolding name_chars
name_chars-NameAt m a [] h = refl
name_chars-NameAt m a (c ∷ cs) (e, h) = rw (e, name_chars-NameAt m (a + 1) cs h)

header_bits :
    {m : Mem} (w : Word)
    → IsHeader m w
    → (bit_and (load8 m (w.entry + 8)) f_lenmask ≡ length w.name)
      × ((bit_and (load8 m (w.entry + 8)) f_hidden == 0) ≡ visible w)
header_bits {m} w h =
    let at = h.flags_at in
    let short = h.short in
    let low = h.flags_low in
    let lt = load8-lt m (w.entry + 8) in
    let six : bit_and (load8 m (w.entry + 8)) 0x40 ≡ w.flags / 64 % 2 * 64 =
      bit_six (load8 m (w.entry + 8)) lt ∙ omega arith in
    (low_five (load8 m (w.entry + 8)) lt ∙ omega arith, rw six (ground arith))

listed :
    (f : ℕ) (m : Mem) (count e : ℕ)
    → (e == 0) ≡ false
    → (bit_and (load8 m (e + 8)) f_hidden == 0) ≡ true
    → list_loop (suc f) m count e
      ≡ add_text
          (name_text count (name_chars m (e + 9) (bit_and (load8 m (e + 8)) f_lenmask)))
          (list_loop f m (count + 1) (load64 m e))
unfolding list_loop dict_get_flags_len dict_get_name dict_get_link
listed f m count e null v = rw (null, v)

skipped :
    (f : ℕ) (m : Mem) (count e : ℕ)
    → (e == 0) ≡ false
    → (bit_and (load8 m (e + 8)) f_hidden == 0) ≡ false
    → list_loop (suc f) m count e ≡ list_loop f m count (load64 m e)
unfolding list_loop dict_get_flags_len dict_get_link
skipped f m count e null v = rw (null, v)

list_loop-listing :
    (f : ℕ) (m : Mem) (count e : ℕ) (ws : List Word)
    → Chain m e ws
    → length ws < f
    → list_loop f m count e ≡ some (listing count ws, count_visible count ws)
unfolding list_loop add_text
list_loop-listing zero m count e ws h fuel = absurd (omega arith)
list_loop-listing (suc f) m count e [] h fuel = rw (==_of_eq e 0 h)
list_loop-listing (suc f) m count e (w ∷ ws) (at, h, t) fuel =
    let (low, six) = header_bits w h in
    let name : name_chars m (w.entry + 9) (length w.name) ≡ w.name =
      name_chars-NameAt m (w.entry + 9) w.name h.name_at in
    let null : (w.entry == 0) ≡ false = ne→not-== w.entry 0 (omega (arith, h.not_null)) in
    ap (list_loop (suc f) m count) at ∙ elim (Bool-cases (visible w)) [
      | inl v ↦
          listed f m count w.entry null (six ∙ v)
          ∙ ap₂ (λ x r. add_text (name_text count x) r) (ap (name_chars m (w.entry + 9)) low ∙ name)
              (list_loop-listing f m (count + 1) (load64 m w.entry) ws t (omega arith))
          ∙ rw v
      | inr v ↦
          skipped f m count w.entry null (six ∙ v)
          ∙ list_loop-listing f m count (load64 m w.entry) ws t (omega arith)
          ∙ rw v
    ]

-- On a well-formed dictionary `dict_list_words` ends; it prints the names of the visible words, the
-- newest first and each followed by a blank, with a line feed behind every tenth, and then their
-- number, and changes nothing else.
pub dict_list_words-listing :
    (ws : List Word) {m : Vm}
    → IsDict m ws
    → dict_list_words m
      ≡ puts
          (listing 0 ws ++ (codes "\n" ++ (itoa (count_visible 0 ws) 10 ++ codes " words total\n")))
          m
unfolding dict_list_words
dict_list_words-listing ws {m} d =
    let few = Spaced-length m.here ws d.spaced in
    let top = d.in_region in
    rw (list_loop-listing max_entries m.mem 0 m.latest ws d.chain (omega arith), dict_list_words)
