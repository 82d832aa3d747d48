-- ===== src/Vm/Primitives/Register.antt =====
-- The list of primitives that `register_primitives` of vm/core/forth.c adds, and one step of adding
-- them.
use vector_forth_kernel.Base.{
  ℕ, ◌+◌, ◌/◌, ◌%◌, ◌≤◌, ◌<◌, ◌≡◌, refl, ap, List, [], ◌∷◌, arith, length, take, Text, map, Bool,
  true, not, ◌&&◌, ltb, leb, ◌==◌, ltb→lt,
}
use vector_forth_kernel.Base.Word.{add64}
use vector_forth_kernel.Base.Memory.{store64, load8-store64_out}
use vector_forth_kernel.Vm.State.{Vm, ok, then_run}
use vector_forth_kernel.Vm.Dict.{
  align8, name_len, dict_set_code, dict_add_primitive, dict_virt_base, dict_size, put_cell,
}
use vector_forth_kernel.Vm.Dict.Chain.{Word, same_name}
use vector_forth_kernel.Vm.Dict.Create.{
  IsDict, IsText, created, dict_create-created, Chain-frame, Spaced-mono, name_len-le,
  align8_bounds,
}
use vector_forth_kernel.Vm.Native.{Native}
use vector_forth_kernel.Vm.Primitives.{Primitive, primitives}

-- The state behind `dict_add_primitive`.
abbrev pub with_code : Vm → ℕ → Vm
with_code m code = record m { mem = store64 m.mem m.here code; here = add64 m.here 8 }

pub add_created :
    (name : Text) (code flags : ℕ) (m : Vm)
    → m.here + 64 ≤ dict_virt_base + dict_size
    → dict_add_primitive name code flags m ≡ ok tt (with_code (created m name flags) code)
unfolding dict_add_primitive dict_set_code put_cell
add_created name code flags m room =
    ap (λ r. then_run r (λ _. dict_set_code code)) (dict_create-created name flags m room)

-- A cell at HERE leaves the words alone.
pub with_code-IsDict :
    (m : Vm) (code : ℕ) (ws : List Word)
    → IsDict m ws
    → m.here + 8 ≤ dict_virt_base + dict_size
    → IsDict (with_code m code) ws
with_code-IsDict m code ws d room =
    let next : add64 m.here 8 ≡ m.here + 8 = omega arith in
    rw next (record {
      chain =
          Chain-frame m.mem (store64 m.mem m.here code) m.here m.latest ws
            (λ x lt. load8-store64_out m.mem m.here code x (omega arith)) d.spaced d.chain;
      spaced = Spaced-mono m.here (m.here + 8) ws (omega arith) d.spaced;
      in_region = room;
      latest_word = d.latest_word;
    })

-- The new HERE is at most 64 bytes on.
pub here_bound :
    (m : Vm) (name : Text) (flags : ℕ)
    → m.here + 64 ≤ dict_virt_base + dict_size
    → (created m name flags).here + 8 ≤ m.here + 64
here_bound m name flags room =
    let few = name_len-le name in
    let (lo, hi, _) = align8_bounds m.here (omega arith) in
    let (lo', hi', _) = align8_bounds (align8 m.here + 9 + name_len name) (omega arith) in
    omega arith

-- The names of primitives as headers hold them, the last one first, in front of other names.
abbrev pub names_onto : List Primitive → List Text → List Text
names_onto [] ns = ns
names_onto ((name, fn, flags) ∷ ps) ns = names_onto ps (take (name_len name) name ∷ ns)

abbrev pub names : List Word → List Text
names = map (λ w. w.name)

-- No primitive of the list has that name, whatever the case of its letters.
abbrev pub unnamed : Text → List Primitive → Bool
unnamed name [] = true
unnamed name ((other, fn, flags) ∷ ps) = not (same_name other name) && unnamed name ps

abbrev text_test : Text → Bool
text_test [] = true
text_test (c ∷ cs) = ltb c 256 && text_test cs

-- Flags that a header keeps, without F_HIDDEN.
abbrev flags_test : ℕ → Bool
flags_test flags = ltb flags 256 && (flags % 32 == 0 && flags / 64 % 2 == 0)

-- A name that a header keeps whole and that no primitive of the list has, and such flags.
abbrev plain : Primitive → List Primitive → Bool
plain (name, fn, flags) ps =
    text_test name && (leb (length name) 31 && (flags_test flags && unnamed name ps))

abbrev pub all_plain : List Primitive → Bool
all_plain [] = true
all_plain (p ∷ ps) = plain p ps && all_plain ps

pub primitives-all_plain : all_plain primitives ≡ true
primitives-all_plain = refl

text_test-IsText : (cs : Text) → text_test cs ≡ true → IsText cs
text_test-IsText [] e = tt
text_test-IsText (c ∷ cs) e =
    (ltb→lt c 256 (ground (arith, e)), text_test-IsText cs (ground (arith, e)))

-- What the test gives for one primitive.
pub record Plain (name : Text) (flags : ℕ) (ps : List Primitive) : Type 0 where
  pub text : IsText name
  pub short : length name ≤ 31
  pub byte : flags < 256
  pub high : flags % 32 ≡ 0
  pub shown : flags / 64 % 2 ≡ 0
  pub once : unnamed name ps ≡ true

pub plain-Plain :
    (name : Text) (fn : Native) (flags : ℕ) (ps : List Primitive)
    → plain (name, fn, flags) ps ≡ true
    → Plain name flags ps
plain-Plain name fn flags ps e = record {
  text = text_test-IsText name (ground (arith, e));
  short = ground (arith, e);
  byte = ground (arith, e);
  high = ground (arith, e);
  shown = ground (arith, e);
  once = ground (arith, e);
}
