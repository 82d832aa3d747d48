-- ===== src/Examples/Machine.antt =====
-- The virtual machine at concrete states.
use vector_forth_kernel.Base.{
  ℕ, zero, suc, ◌⊎◌, ◌+◌, ◌-◌, false, ◌≤◌, ◌<◌, ◌≡◌, refl, List, [], ◌∷◌, ◌++◌, arith, replicate,
  length, Text, codes,
}
use vector_forth_kernel.Base.Memory.{Mem, load8, load64, store64}
use vector_forth_kernel.Vm.State.{Vm, ok, done, pure, puts}
use vector_forth_kernel.Vm.Effect.{Holds, Effect}
use vector_forth_kernel.Vm.Dict.{
  dict_virt_base, dict_get_code_field, dict_get_param_field, align8, dict_create, dict_find,
}
use vector_forth_kernel.Vm.Dict.Chain.{Word, same_name, find}
use vector_forth_kernel.Vm.Dict.Create.{
  IsDict, IsText, new_word, created, created-IsDict, other_than_dict, dict_create-IsDict,
  dict_find-IsDict,
}
use vector_forth_kernel.Vm.Dict.Lookup.{dict_find-dict_create, dict_find-long}
use vector_forth_kernel.Vm.Native.{Native}
use vector_forth_kernel.Vm.Words.StackWord.{StackWord, run_stack_word}
use vector_forth_kernel.Vm.Words.Effects.{Spec, run_stack_word-Spec}
use vector_forth_kernel.Vm.Words.Compile.{sentinel_exit}
use vector_forth_kernel.Vm.Parse.{parse_word}
use vector_forth_kernel.Vm.Parse.Tokens.{AllSpace, leading, NoSpace, EndsWord, parse_word_lem}
use vector_forth_kernel.Vm.Primitives.{primitives, register_primitives}
use vector_forth_kernel.Vm.Primitives.Register.{names, names_onto}
use vector_forth_kernel.Vm.Primitives.Lookup.{AllFound, register_primitives-AllFound}
use vector_forth_kernel.Vm.Forth.{Devices, forth_inner, forth_execute}
use vector_forth_kernel.Vm.Forth.Code.{
  Code, exit, lit, call, nest, IsEntry, CodeAt, Does, stops, pushes, calls, nests, fuel_for,
}
use vector_forth_kernel.Vm.Forth.Threaded.{quiet, advance, forth_execute-Does}
use vector_forth_kernel.Vm.Forth.Control.{forth_inner-function}
use vector_forth_kernel.Examples.Link.{image, addr_of}
use vector_forth_kernel.Examples.Link.Position.{position}

abbrev devices : Devices
devices = record { call = λ w. done; block_data = λ n. pure [] }

-- Headers of DUP, *, SQ and MAIN from the start of the dictionary on, with
-- `: SQ DUP * ;` and `: MAIN 7 SQ ;`.
abbrev cells : List (ℕ × ℕ)
cells =
    (dict_virt_base + 8, 3)
    ∷ (dict_virt_base + 16, addr_of (Native.stack StackWord.dup))
    ∷ (dict_virt_base + 32, 1)
    ∷ (dict_virt_base + 40, addr_of (Native.stack StackWord.mul))
    ∷ (dict_virt_base + 56, 2)
    ∷ (dict_virt_base + 64, addr_of Native.do_colon)
    ∷ (dict_virt_base + 72, dict_virt_base)
    ∷ (dict_virt_base + 80, dict_virt_base + 24)
    ∷ (dict_virt_base + 88, sentinel_exit)
    ∷ (dict_virt_base + 104, 4)
    ∷ (dict_virt_base + 112, addr_of Native.do_colon)
    ∷ (dict_virt_base + 120, addr_of Native.do_literal)
    ∷ (dict_virt_base + 128, 7)
    ∷ (dict_virt_base + 136, dict_virt_base + 48)
    ∷ (dict_virt_base + 144, sentinel_exit)
    ∷ []

abbrev write_cells : List (ℕ × ℕ) → Mem → Mem
write_cells [] m = m
write_cells ((a, v) ∷ cs) m = write_cells cs (store64 m a v)

abbrev compiled : Mem
compiled = write_cells cells (λ a. 0)

abbrev machine : Vm
machine = record {
  ds = replicate 256 0;
  dsp = 0;
  rs = replicate 256 0;
  rsp_idx = 0;
  ip = 0;
  mem = compiled;
  here = dict_virt_base + 152;
  latest = 0;
  state = 0;
  base = 10;
  parse = codes "  7 SQ .";
  screen = [];
}

abbrev main : Code
main = lit 7 (
    nest (dict_virt_base + 48)
      (call dict_virt_base StackWord.dup (call (dict_virt_base + 24) StackWord.mul exit)) exit)

machine-Holds : Holds machine [] []
machine-Holds = record {
  on_data = record { stack = record { size = refl; within = omega arith }; holds = refl };
  on_returns = record { stack = record { size = refl; within = omega arith }; holds = refl };
}

main-Does : Does 1 main [] (49 ∷ [])
main-Does = pushes (omega arith) (
    nests (omega arith)
      (calls Spec.dup (omega arith) (omega arith, tt)
        (calls Spec.mul (omega arith) (omega arith, (omega arith, tt)) stops))
      stops)

main-IsEntry : IsEntry compiled (dict_virt_base + 96) (addr_of Native.do_colon)
unfolding load64 load8 store64 dict_get_code_field addr_of position
main-IsEntry = record { above = omega arith; below = omega arith; code_at = refl }

main-CodeAt : CodeAt image compiled (dict_get_param_field compiled (dict_virt_base + 96)) main
unfolding load64 load8 store64 dict_get_code_field dict_get_param_field addr_of position
main-CodeAt = (
  omega arith,
  refl,
  refl,
  (
    omega arith,
    refl,
    record { above = omega arith; below = omega arith; code_at = refl },
    (
      omega arith,
      refl,
      record { above = omega arith; below = omega arith; code_at = refl },
      (
        omega arith,
        refl,
        record { above = omega arith; below = omega arith; code_at = refl },
        (omega arith, refl),
      ),
    ),
    (omega arith, refl),
  ),
)

forth_execute-Does_example :
    (g : Vm) × Holds g (49 ∷ []) []
    × (g.ip ≡ 0)
    × (quiet g ≡ quiet machine)
    × (forth_execute image devices (suc (fuel_for main 1)) (dict_virt_base + 96) machine ≡ ok tt g)
forth_execute-Does_example =
    forth_execute-Does image devices 0 (dict_virt_base + 96) [] machine (omega arith) main-Does refl
      machine-Holds main-IsEntry main-CodeAt

-- MIN of -1 and 5.
run_stack_word-Spec_example :
    Effect
      (run_stack_word StackWord.min)
      (5 ∷ 0xffff_ffff_ffff_ffff ∷ [])
      (3 ∷ [])
      (0xffff_ffff_ffff_ffff ∷ [])
      (3 ∷ [])
run_stack_word-Spec_example =
    run_stack_word-Spec (3 ∷ []) Spec.min (omega arith) (omega arith, (omega arith, tt))

-- `rt_0branch` compiled by IF.
abbrev at_branch : Vm
at_branch = record machine { mem = store64 (λ a. 0) 0 (addr_of Native.rt_0branch) }

branch_cell : load64 at_branch.mem 0 ≡ addr_of Native.rt_0branch
unfolding load64 load8 store64 addr_of position
branch_cell = refl

forth_inner-function_example :
    forth_inner image devices 5 at_branch
    ≡ puts (codes " Invalid word address!\n") (advance at_branch)
forth_inner-function_example =
    forth_inner-function image devices 4 Native.rt_0branch at_branch (λ e. cc) branch_cell

-- An empty dictionary, and one with the word SQ.
abbrev empty : Vm
empty = record machine { mem = λ a. 0; here = dict_virt_base }

empty-IsDict : IsDict empty []
empty-IsDict = record {
  chain = refl;
  spaced = omega arith;
  in_region = omega arith;
  latest_word = omega arith;
}

dict_create-IsDict_example :
    (g : Vm) × (dict_create (codes "SQ") 0 empty ≡ ok tt g)
    × IsDict g (new_word dict_virt_base (codes "SQ") 0 ∷ [])
    × ((x : ℕ) → x < dict_virt_base → load8 g.mem x ≡ 0)
    × (other_than_dict g ≡ other_than_dict empty)
unfolding load8
dict_create-IsDict_example =
    dict_create-IsDict (codes "SQ") 0 empty [] empty-IsDict (omega arith) (omega arith)
      (omega arith, (omega arith, tt))

-- The dictionary with the word SQ alone, which is also found in small letters.
abbrev square : Vm
square = created empty (codes "SQ") 0

square-IsDict : IsDict square (new_word dict_virt_base (codes "SQ") 0 ∷ [])
square-IsDict =
    created-IsDict (codes "SQ") 0 empty [] empty-IsDict (omega arith) (omega arith)
      (omega arith, (omega arith, tt))

dict_find-IsDict_example : dict_find (codes "sq") square ≡ ok (align8 dict_virt_base) square
dict_find-IsDict_example =
    dict_find-IsDict (codes "sq") (new_word dict_virt_base (codes "SQ") 0 ∷ []) square-IsDict

dict_find-dict_create_example :
    (g : Vm) × (dict_create (codes "SQ") 0 empty ≡ ok tt g)
    × (dict_find (codes "SQ") g ≡ ok (align8 dict_virt_base) g)
    × (same_name (codes "SQ") (codes "DUP") ≡ false
        → dict_find (codes "DUP") g ≡ ok (find (codes "DUP") []) g)
dict_find-dict_create_example =
    dict_find-dict_create (codes "SQ") (codes "DUP") 0 empty []
      (record {
        dict = empty-IsDict;
        room = omega arith;
        flags_byte = omega arith;
        text = (omega arith, (omega arith, tt));
      })
      (omega arith) refl

IsText-replicate : (n c : ℕ) → c < 256 → IsText (replicate n c)
IsText-replicate zero c h = tt
IsText-replicate (suc n) c h = (h, IsText-replicate n c h)

abbrev long_name : Text
long_name = replicate 32 65

dict_find-long_example :
    (g : Vm) × (dict_create long_name 0 empty ≡ ok tt g)
    × (dict_find long_name g ≡ ok (find long_name []) g)
dict_find-long_example =
    dict_find-long long_name 0 empty []
      (record {
        dict = empty-IsDict;
        room = omega arith;
        flags_byte = omega arith;
        text = IsText-replicate 32 65 (omega arith);
      })
      (omega arith)

parse_word_lem_example :
    (word : Text) × (rest : Text) × (parse_word 64 machine
      ≡ ok word (record machine { parse = rest }))
    × AllSpace (leading machine.parse)
    × (leading machine.parse ++ (word ++ rest) ≡ machine.parse)
    × NoSpace word
    × (length word ≤ 64 - 1)
    × ((length word ≡ 64 - 1) ⊎ EndsWord rest)
parse_word_lem_example = parse_word_lem 64 machine

register_primitives-AllFound_example :
    (g : Vm) × (vs : List Word) × (register_primitives image empty ≡ ok tt g)
    × IsDict g vs
    × (names vs ≡ names_onto primitives [])
    × AllFound image g primitives
    × ((x : ℕ) → x < dict_virt_base → load8 g.mem x ≡ load8 empty.mem x)
    × (other_than_dict g ≡ other_than_dict empty)
register_primitives-AllFound_example = register_primitives-AllFound image empty empty-IsDict refl
