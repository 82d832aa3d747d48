-- ===== src/Vm/Primitives/Lookup.antt =====
-- What `dict_find` gives of the names that `register_primitives` of vm/core/forth.c puts into the
-- dictionary.
use vector_forth_kernel.Base.{
  ℕ, suc, ◌+◌, ◌*◌, ◌/◌, ◌%◌, ◌≤◌, ◌<◌, ◌≡◌, refl, ap, ◌∙◌, List, [], ◌∷◌, arith, length, take,
  Text, true, false,
}
use vector_forth_kernel.Base.Bytes.{low_five, high_three}
use vector_forth_kernel.Base.Memory.{
  Mem, load8, load64, load8-lt, load8-store64_out, load64-store64_self, load64_ext,
}
use vector_forth_kernel.Base.Word.{two64}
use vector_forth_kernel.Vm.State.{Vm, ok}
use vector_forth_kernel.Vm.Dict.{
  align8, name_len, dict_find, dict_get_code_field, dict_get_flags, dict_get_name_len,
  dict_virt_base, dict_size,
}
use vector_forth_kernel.Vm.Dict.Chain.{Word, same_name, visible, find}
use vector_forth_kernel.Vm.Dict.Create.{
  IsDict, created, new_word, created-IsDict, other_than_dict, header_below, align8_bounds,
  name_len-le, length-new_word, dict_find-IsDict, Spaced-length,
}
use vector_forth_kernel.Vm.Dict.Lookup.{same_name_refl, take_all}
use vector_forth_kernel.Vm.Native.{Native, Image}
use vector_forth_kernel.Vm.Primitives.{Primitive, primitives, add_primitives, register_primitives}
use vector_forth_kernel.Vm.Primitives.Register.{
  with_code, add_created, with_code-IsDict, here_bound, names, names_onto, unnamed, all_plain,
  Plain, plain-Plain, primitives-all_plain,
}

-- The header at `e` has the code and the flags.
abbrev pub HasCode : Mem → (e code flags : ℕ) → Type 0
HasCode m e code flags = (load64 m (dict_get_code_field m e) ≡ code) × (dict_get_flags m e ≡ flags)

-- The flags and the length in the byte behind the link.
header_fields :
    (m : Mem) (e n flags : ℕ)
    → n ≤ 31
    → flags % 32 ≡ 0
    → load8 m (e + 8) ≡ flags + n
    → (dict_get_name_len m e ≡ n) × (dict_get_flags m e ≡ flags)
unfolding dict_get_name_len dict_get_flags
header_fields m e n flags short high at =
    let lt = load8-lt m (e + 8) in
    (low_five (load8 m (e + 8)) lt ∙ omega arith, high_three (load8 m (e + 8)) lt ∙ omega arith)

code_field_at :
    (m : Mem) (e n : ℕ) → dict_get_name_len m e ≡ n → dict_get_code_field m e ≡ align8 (e + 9 + n)
unfolding dict_get_code_field
code_field_at m e n same = rw same (let f : e + 8 + 1 + n ≡ e + 9 + n = omega arith in rw f)

-- A primitive that has just been added keeps its code and its flags while memory changes only
-- behind it.
added-HasCode :
    (name : Text) (code flags : ℕ) (m : Vm) (ws : List Word) (g : Mem)
    → IsDict m ws
    → Plain name flags []
    → m.here + 64 ≤ dict_virt_base + dict_size
    → code < two64
    → ((x : ℕ)
        → x < (with_code (created m name flags) code).here
        → load8 g x ≡ load8 (with_code (created m name flags) code).mem x)
    → HasCode g (align8 m.here) code flags
added-HasCode name code flags m ws g d p room word same =
    let c = created m name flags in
    let made = created-IsDict name flags m ws d room p.byte p.text in
    let bound = here_bound m name flags room in
    let few = name_len-le name in
    let (lo, hi, _) = align8_bounds m.here (omega arith) in
    let (lo', hi', _) = align8_bounds (align8 m.here + 9 + name_len name) (omega arith) in
    let next : (with_code c code).here ≡ c.here + 8 = omega arith in
    let whole : length (take (name_len name) name) ≡ name_len name = length-new_word name in
    let byte : load8 g (align8 m.here + 8) ≡ flags + name_len name =
      same (align8 m.here + 8) (omega arith)
      ∙ load8-store64_out c.mem c.here code (align8 m.here + 8) (omega arith)
      ∙ made.chain.1.flags_at
      ∙ omega (arith, p.high) in
    let (len, kept) = header_fields g (align8 m.here) (name_len name) flags few p.high byte in
    (
      ap (load64 g) (code_field_at g (align8 m.here) (name_len name) len)
          ∙ load64_ext g (with_code c code).mem c.here (λ i lt. same (c.here + i) (omega arith))
          ∙ load64-store64_self c.mem c.here code word,
      kept,
    )

-- A word whose name differs leaves the lookup as it was.
find_apart :
    (name other : Text) (h flags : ℕ) (ws : List Word)
    → length other ≤ 31
    → same_name other name ≡ false
    → find name (new_word h other flags ∷ ws) ≡ find name ws
find_apart name other h flags ws short apart =
    let whole : take (name_len other) other ≡ other =
      take_all (name_len other) other (ground arith) in
    rw (whole, apart) (ground arith)

-- The newest word is found by its name.
find_newest :
    (name : Text) (h flags : ℕ) (ws : List Word)
    → length name ≤ 31
    → flags / 64 % 2 ≡ 0
    → find name (new_word h name flags ∷ ws) ≡ align8 h
find_newest name h flags ws short shown =
    let whole : take (name_len name) name ≡ name = take_all (name_len name) name (ground arith) in
    let seen : visible (new_word h name flags) ≡ true = ground arith in
    rw (seen, whole, same_name_refl name)

module _ (img : Image) where
  -- For each primitive of the list `find` gives a header, with the address of the primitive's function in its
  -- code field and with its flags.
  abbrev AllCoded : Mem → List Word → List Primitive → Type 0
  AllCoded m vs [] = Unit {0}
  AllCoded m vs ((name, fn, flags) ∷ ps) =
      (0 < find name vs) × HasCode m (find name vs) (img.addr fn) flags × AllCoded m vs ps

  -- What adding the primitives `ps` to the dictionary `ws` of `m` leaves in `g`.
  record Registered (ps : List Primitive) (m g : Vm) (ws vs : List Word) : Type 0 where
    runs : add_primitives img ps m ≡ ok tt g
    dict : IsDict g vs
    listed : names vs ≡ names_onto ps (names ws)
    below : (x : ℕ) → x < m.here → load8 g.mem x ≡ load8 m.mem x
    others : other_than_dict g ≡ other_than_dict m
    found_before : (name : Text) → unnamed name ps ≡ true → find name vs ≡ find name ws
    coded : AllCoded g.mem vs ps

  addr-two64 : (fn : Native) → img.addr fn < two64
  addr-two64 fn = omega (arith, img.addr_below fn)

  -- One more primitive in front of the list.
  one_more :
      (name : Text) (fn : Native) (flags : ℕ) (ps : List Primitive) (m g : Vm) (ws vs : List Word)
      → IsDict m ws
      → Plain name flags ps
      → m.here + 64 ≤ dict_virt_base + dict_size
      → Registered ps
          (with_code (created m name flags) (img.addr fn))
          g
          (new_word m.here name flags ∷ ws)
          vs
      → Registered ((name, fn, flags) ∷ ps) m g ws vs
  unfolding add_primitives
  one_more name fn flags ps m g ws vs d p room r =
      let c = created m name flags in
      let bound = here_bound m name flags room in
      let few = name_len-le name in
      let (lo, hi, _) = align8_bounds m.here (omega arith) in
      let (lo', hi', _) = align8_bounds (align8 m.here + 9 + name_len name) (omega arith) in
      let next : (with_code c (img.addr fn)).here ≡ c.here + 8 = omega arith in
      let base = Spaced-length m.here ws d.spaced in
      let at : find name vs ≡ align8 m.here =
        r.found_before name p.once ∙ find_newest name m.here flags ws p.short p.shown in
      let alone : Plain name flags [] = record {
        text = p.text;
        short = p.short;
        byte = p.byte;
        high = p.high;
        shown = p.shown;
        once = refl;
      } in
      record {
        runs = rw (add_created name (img.addr fn) flags m room) r.runs;
        dict = r.dict;
        listed = r.listed;
        below = λ x lt.
            r.below x (omega arith)
            ∙ load8-store64_out c.mem c.here (img.addr fn) x (omega arith)
            ∙ header_below _ _ _ _ _ x (omega arith);
        others = r.others;
        found_before = λ other e.
            r.found_before other (ground (arith, e))
            ∙ find_apart other name m.here flags ws p.short (ground (arith, e));
        coded = (
          rw at (omega arith),
          rw at (
              added-HasCode name (img.addr fn) flags m ws g.mem d alone room (addr-two64 fn)
                r.below),
          r.coded,
        );
      }

  add_primitives-Registered :
      (ps : List Primitive) (m : Vm) (ws : List Word)
      → IsDict m ws
      → all_plain ps ≡ true
      → m.here + 64 * suc (length ps) ≤ dict_virt_base + dict_size
      → (g : Vm) × (vs : List Word) × Registered ps m g ws vs
  unfolding add_primitives
  add_primitives-Registered [] m ws d plain room = (
    m,
    ws,
    record {
      runs = refl;
      dict = d;
      listed = refl;
      below = λ x lt. refl;
      others = refl;
      found_before = λ name e. refl;
      coded = tt;
    },
  )
  add_primitives-Registered ((name, fn, flags) ∷ ps) m ws d plain room =
      let c = created m name flags in
      let p = plain-Plain name fn flags ps (ground (arith, plain)) in
      let bound = here_bound m name flags (omega arith) in
      let made = created-IsDict name flags m ws d (omega arith) p.byte p.text in
      let coded =
        with_code-IsDict c (img.addr fn) (new_word m.here name flags ∷ ws) made (omega arith) in
      let (g, vs, r) =
        add_primitives-Registered ps (with_code c (img.addr fn)) (new_word m.here name flags ∷ ws)
          coded (ground (arith, plain)) (omega arith) in
      (g, vs, one_more name fn flags ps m g ws vs d p (omega arith) r)

  -- `dict_find` gives for each primitive of the list a header, with the address of the primitive's
  -- function in its code field and with its flags.
  abbrev pub AllFound : Vm → List Primitive → Type 0
  AllFound g [] = Unit {0}
  AllFound g ((name, fn, flags) ∷ ps) =
      ((e : ℕ) × (dict_find name g ≡ ok e g) × (0 < e) × HasCode g.mem e (img.addr fn) flags)
      × AllFound g ps

  AllCoded-AllFound :
      (ps : List Primitive) (g : Vm) (vs : List Word)
      → IsDict g vs
      → AllCoded g.mem vs ps
      → AllFound g ps
  AllCoded-AllFound [] g vs d h = tt
  AllCoded-AllFound ((name, fn, flags) ∷ ps) g vs d (above, coded, rest) =
      ((find name vs, dict_find-IsDict name vs d, above, coded), AllCoded-AllFound ps g vs d rest)

  -- From the dictionary that `dict_init` leaves, without words and with HERE at its start,
  -- `register_primitives` returns; the dictionary is well formed and holds the names of all the
  -- primitives, the last one first. For each primitive `dict_find` then returns a header, whose code
  -- field holds the address of that primitive's C function and which has its flags. No byte below the
  -- dictionary has changed, and nothing of the state but the dictionary.
  pub register_primitives-AllFound :
      (m : Vm)
      → IsDict m []
      → m.here ≡ dict_virt_base
      → (g : Vm) × (vs : List Word) × (register_primitives img m ≡ ok tt g)
        × IsDict g vs
        × (names vs ≡ names_onto primitives [])
        × AllFound g primitives
        × ((x : ℕ) → x < dict_virt_base → load8 g.mem x ≡ load8 m.mem x)
        × (other_than_dict g ≡ other_than_dict m)
  unfolding register_primitives
  register_primitives-AllFound m d at =
      let (g, vs, r) =
        add_primitives-Registered primitives m [] d primitives-all_plain (omega (arith, at)) in
      (
        g,
        vs,
        r.runs,
        r.dict,
        r.listed,
        AllCoded-AllFound primitives g vs r.dict r.coded,
        λ x lt. r.below x (omega arith),
        r.others,
      )
