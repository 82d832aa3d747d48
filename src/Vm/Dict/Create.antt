-- ===== src/Vm/Dict/Create.antt =====
-- `dict_create` puts a new word in front of the dictionary and leaves the others alone.
use vector_forth_kernel.Base.{
  ℕ, zero, suc, ◌+◌, ◌*◌, ◌/◌, ◌%◌, ◌≤◌, ◌<◌, ◌≡◌, ◌⊎◌, refl, ◌∙◌, List, [], ◌∷◌, arith, length,
  take, length-take, Text,
}
use vector_forth_kernel.Base.Bytes.{low_five, high_three, join_bits}
use vector_forth_kernel.Base.Memory.{
  Mem, load8, load64, store8, store64, store_bytes, load8-store8_self, load8-store8_ne,
  load8-store64_out, load64-store64_self, load8-store_bytes_out, load64_ext,
}
use vector_forth_kernel.Base.Word.{two64}
use vector_forth_kernel.Vm.State.{Vm, ok}
use vector_forth_kernel.Vm.Dict.{
  align8, name_len, flags_byte, dict_create, dict_find, dict_virt_base, dict_size,
}
use vector_forth_kernel.Vm.Dict.Chain.{Word, NameAt, Chain, find, dict_find-find}

-- The headers stand one below the other, under `h` and inside the region.
abbrev pub Spaced : ℕ → List Word → Type 0
Spaced h [] = dict_virt_base ≤ h
Spaced h (w ∷ ws) = (w.entry + 16 ≤ h) × (w.entry + 9 + length w.name ≤ h) × Spaced w.entry ws

-- The dictionary of the state is the list of words `ws`.
pub record IsDict (m : Vm) (ws : List Word) : Type 0 where
  pub chain : Chain m.mem m.latest ws
  pub spaced : Spaced m.here ws
  pub in_region : m.here ≤ dict_virt_base + dict_size
  pub latest_word : m.latest < two64

abbrev pub IsText : Text → Type 0
IsText [] = Unit {0}
IsText (c ∷ cs) = (c < 256) × IsText cs

pub Spaced-length : (h : ℕ) (ws : List Word) → Spaced h ws → dict_virt_base + 16 * length ws ≤ h
Spaced-length h [] s = omega arith
Spaced-length h (w ∷ ws) s = omega (arith, Spaced-length w.entry ws s.2)

pub Spaced-mono : (h k : ℕ) (ws : List Word) → h ≤ k → Spaced h ws → Spaced k ws
Spaced-mono h k [] le s = omega arith
Spaced-mono h k (w ∷ ws) le s = (omega arith, omega arith, s.2)

-- On a well-formed dictionary `dict_find` ends; it returns the header of the newest visible word with
-- that name, whatever the case of its letters, or NULL if there is none, and changes nothing.
pub dict_find-IsDict :
    (name : Text) (ws : List Word) {m : Vm} → IsDict m ws → dict_find name m ≡ ok (find name ws) m
dict_find-IsDict name ws {m} d =
    dict_find-find name m ws d.chain
      (let few = Spaced-length m.here ws d.spaced in let top = d.in_region in omega arith)

NameAt-frame :
    (m g : Mem) (a : ℕ) (cs : Text)
    → ((x : ℕ) → x < a + length cs → load8 g x ≡ load8 m x)
    → NameAt m a cs
    → NameAt g a cs
NameAt-frame m g a [] same h = tt
NameAt-frame m g a (c ∷ cs) same (e, h) =
    (same a (omega arith) ∙ e, NameAt-frame m g (a + 1) cs (λ x lt. same x (omega arith)) h)

-- The words below `h` do not change when memory changes only from `h` on.
pub Chain-frame :
    (m g : Mem) (h e : ℕ) (ws : List Word)
    → ((x : ℕ) → x < h → load8 g x ≡ load8 m x)
    → Spaced h ws
    → Chain m e ws
    → Chain g e ws
Chain-frame m g h e [] same s c = c
Chain-frame m g h e (w ∷ ws) same s (at, hd, c) = (
  at,
  record {
    not_null = hd.not_null;
    short = hd.short;
    flags_low = hd.flags_low;
    flags_at = same (w.entry + 8) (omega arith) ∙ hd.flags_at;
    name_at = NameAt-frame m g (w.entry + 9) w.name (λ x lt. same x (omega arith)) hd.name_at;
  },
  rw (load64_ext g m w.entry (λ i lt. same (w.entry + i) (omega arith)))
      (Chain-frame m g w.entry (load64 m w.entry) ws (λ x lt. same x (omega arith)) s.2 c),
)

NameAt-store_bytes : (m : Mem) (a : ℕ) (cs : Text) → IsText cs → NameAt (store_bytes m a cs) a cs
unfolding store_bytes
NameAt-store_bytes m a [] t = tt
NameAt-store_bytes m a (c ∷ cs) t = (
  load8-store_bytes_out (store8 m a c) (a + 1) cs a (omega arith)
      ∙ load8-store8_self m a c
      ∙ omega arith,
  NameAt-store_bytes (store8 m a c) (a + 1) cs t.1,
)

IsText-take : (n : ℕ) (cs : Text) → IsText cs → IsText (take n cs)
IsText-take zero cs t = tt
IsText-take (suc n) [] t = tt
IsText-take (suc n) (c ∷ cs) t = (t.0, IsText-take n cs t.1)

-- The bytes of a header at `a`.
abbrev header : Mem → ℕ → ℕ → ℕ → Text → Mem
header m a link flags name = store_bytes (store8 (store64 m a link) (a + 8) flags) (a + 9) name

pub header_below :
    (m : Mem) (a link flags : ℕ) (name : Text) (x : ℕ)
    → (x < a) ⊎ (a + 9 + length name ≤ x)
    → load8 (header m a link flags name) x ≡ load8 m x
header_below m a link flags name x h =
    load8-store_bytes_out (store8 (store64 m a link) (a + 8) flags) (a + 9) name x (omega arith)
    ∙ load8-store8_ne (store64 m a link) (a + 8) flags x (omega arith)
    ∙ load8-store64_out m a link x (omega arith)

header_link :
    (m : Mem) (a link flags : ℕ) (name : Text)
    → link < two64
    → load64 (header m a link flags name) a ≡ link
header_link m a link flags name h =
    load64_ext (header m a link flags name) (store64 m a link) a (λ i lt.
      load8-store_bytes_out (store8 (store64 m a link) (a + 8) flags) (a + 9) name (a + i)
        (omega arith)
      ∙ load8-store8_ne (store64 m a link) (a + 8) flags (a + i) (omega arith))
    ∙ load64-store64_self m a link h

header_flags :
    (m : Mem) (a link flags : ℕ) (name : Text)
    → load8 (header m a link flags name) (a + 8) ≡ flags % 256
header_flags m a link flags name =
    load8-store_bytes_out (store8 (store64 m a link) (a + 8) flags) (a + 9) name (a + 8)
      (omega arith)
    ∙ load8-store8_self (store64 m a link) (a + 8) flags

-- The word that `dict_create` makes at `here`: the name is cut off behind 31 characters.
abbrev pub new_word : ℕ → Text → ℕ → Word
new_word here name flags = record {
  entry = align8 here;
  flags = flags / 32 * 32;
  name = take (name_len name) name;
}

pub length-new_word : (name : Text) → length (take (name_len name) name) ≡ name_len name
length-new_word name = ground (arith, length-take (name_len name) name)

flags_byte_lem :
    (flags n : ℕ) → flags < 256 → n ≤ 31 → flags_byte flags n % 256 ≡ flags / 32 * 32 + n
flags_byte_lem flags n hf hn =
    rw
      (
        high_three flags hf,
        low_five n (omega arith),
        join_bits (flags / 32 * 32) (n % 32) (omega arith) (omega arith) (omega arith),
      )
      (omega arith)

pub name_len-le : (name : Text) → name_len name ≤ 31
name_len-le name = ground arith

-- `dict_align` moves up to the next multiple of eight.
pub align8_bounds :
    (a : ℕ) → a + 8 ≤ two64 → (a ≤ align8 a) × (align8 a ≤ a + 7) × (align8 a % 8 ≡ 0)
unfolding align8
align8_bounds a h = omega arith

abbrev pub created : Vm → Text → ℕ → Vm
created m name flags = record m {
  mem =
      header m.mem (align8 m.here) m.latest (flags_byte flags (name_len name))
        (take (name_len name) name);
  here = align8 (align8 m.here + 9 + name_len name);
  latest = align8 m.here;
}

pub dict_create-created :
    (name : Text) (flags : ℕ) (m : Vm)
    → m.here + 64 ≤ dict_virt_base + dict_size
    → dict_create name flags m ≡ ok tt (created m name flags)
unfolding dict_create
dict_create-created name flags m room =
    let short = name_len-le name in
    let (lo, hi, _) = align8_bounds m.here (omega arith) in
    let e : (align8 m.here + 8) % two64 ≡ align8 m.here + 8 = omega arith in
    let f : (align8 m.here + 8 + 1) % two64 ≡ align8 m.here + 9 = omega arith in
    let g : (align8 m.here + 9 + name_len name) % two64 ≡ align8 m.here + 9 + name_len name =
      omega arith in
    rw (e, f, g)

-- The new header is well formed and stands in front of the old ones.
pub created-IsDict :
    (name : Text) (flags : ℕ) (m : Vm) (ws : List Word)
    → IsDict m ws
    → m.here + 64 ≤ dict_virt_base + dict_size
    → flags < 256
    → IsText name
    → IsDict (created m name flags) (new_word m.here name flags ∷ ws)
created-IsDict name flags m ws d room hf text =
    let short = name_len-le name in
    let len = length-new_word name in
    let (lo, hi, m8) = align8_bounds m.here (omega arith) in
    let (lo', hi', m8') = align8_bounds (align8 m.here + 9 + name_len name) (omega arith) in
    let base = Spaced-length m.here ws d.spaced in
    record {
      chain = (
        refl,
        record {
          not_null = omega arith;
          short = omega arith;
          flags_low = omega arith;
          flags_at =
              header_flags _ _ _ _ _ ∙ flags_byte_lem flags (name_len name) hf short ∙ omega arith;
          name_at = NameAt-store_bytes _ _ _ (IsText-take (name_len name) name text);
        },
        rw
            (header_link m.mem (align8 m.here) m.latest (flags_byte flags (name_len name))
              (take (name_len name) name) d.latest_word)
            (Chain-frame m.mem (created m name flags).mem m.here m.latest ws
              (λ x lt.
                header_below m.mem (align8 m.here) m.latest (flags_byte flags (name_len name))
                  (take (name_len name) name) x (omega arith))
              d.spaced d.chain),
      );
      spaced = (omega arith, omega arith, Spaced-mono m.here (align8 m.here) ws lo d.spaced);
      in_region = omega arith;
      latest_word = omega arith;
    }

-- All of the state but the dictionary.
abbrev pub other_than_dict : Vm → Vm
other_than_dict m = record m { mem = λ a. 0; here = 0; latest = 0 }

-- On a well-formed dictionary with 64 bytes of room `dict_create` returns; the new word, its name cut
-- off behind 31 characters, stands in front of the old ones in a well-formed dictionary, no byte below
-- the old HERE has changed, and nothing of the state but the dictionary.
pub dict_create-IsDict :
    (name : Text) (flags : ℕ) (m : Vm) (ws : List Word)
    → IsDict m ws
    → m.here + 64 ≤ dict_virt_base + dict_size
    → flags < 256
    → IsText name
    → (g : Vm) × (dict_create name flags m ≡ ok tt g)
      × IsDict g (new_word m.here name flags ∷ ws)
      × ((x : ℕ) → x < m.here → load8 g.mem x ≡ load8 m.mem x)
      × (other_than_dict g ≡ other_than_dict m)
dict_create-IsDict name flags m ws d room hf text =
    let (lo, hi, m8) = align8_bounds m.here (omega arith) in
    (
      created m name flags,
      dict_create-created name flags m room,
      created-IsDict name flags m ws d room hf text,
      λ x lt.
          header_below m.mem (align8 m.here) m.latest (flags_byte flags (name_len name))
            (take (name_len name) name) x (omega arith),
      refl,
    )
