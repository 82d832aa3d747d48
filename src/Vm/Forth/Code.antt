-- ===== src/Vm/Forth/Code.antt =====
-- Threaded code as the compiler of vm/core/forth.c lays it out, and what it is to do.
use vector_forth_kernel.Base.{ℕ, suc, ◌+◌, ◌≤◌, ◌<◌, ◌≡◌, List, ◌∷◌, length}
use vector_forth_kernel.Base.Word.{two64}
use vector_forth_kernel.Base.Memory.{Mem, load64}
use vector_forth_kernel.Vm.Dict.{
  dict_get_code_field, dict_get_param_field, dict_virt_base, dict_size,
}
use vector_forth_kernel.Vm.Native.{Native, Image}
use vector_forth_kernel.Vm.Words.StackWord.{StackWord}
use vector_forth_kernel.Vm.Words.Effects.{Spec, IsWords}
use vector_forth_kernel.Vm.Words.Compile.{sentinel_exit}

-- The body of a colon definition: literals, primitives and other colon definitions (with the entry
-- of their headers), up to the exit.
pub data Code : Type 0 where
  exit : Code
  lit : ℕ → Code → Code
  call : ℕ → StackWord → Code → Code
  nest : ℕ → Code → Code → Code

-- The header at `entry` lies in the dictionary and has this code field.
pub record IsEntry (mem : Mem) (entry code : ℕ) : Type 0 where
  pub above : dict_virt_base ≤ entry
  pub below : entry < dict_virt_base + dict_size
  pub code_at : load64 mem (dict_get_code_field mem entry) ≡ code

module _ (img : Image) where
  -- Memory holds the code from address `a` on.
  abbrev pub CodeAt : Mem → ℕ → Code → Type 0
  CodeAt mem a exit = (a + 16 < two64) × (load64 mem a ≡ sentinel_exit)
  CodeAt mem a (lit v rest) =
      (a + 16 < two64)
      × (load64 mem a ≡ img.addr Native.do_literal)
      × (load64 mem (a + 8) ≡ v)
      × CodeAt mem (a + 8 + 8) rest
  CodeAt mem a (call entry w rest) =
      (a + 16 < two64)
      × (load64 mem a ≡ entry)
      × IsEntry mem entry (img.addr (Native.stack w))
      × CodeAt mem (a + 8) rest
  CodeAt mem a (nest entry body rest) =
      (a + 16 < two64)
      × (load64 mem a ≡ entry)
      × IsEntry mem entry (img.addr Native.do_colon)
      × CodeAt mem (dict_get_param_field mem entry) body
      × CodeAt mem (a + 8) rest

-- What code does to the data stack, with the depth of the return stack inside it: the effects of its
-- words one behind the other, with room on both stacks.
pub data Does : ℕ → Code → List ℕ → List ℕ → Type 0 where
  stops : {d : ℕ} {xs : List ℕ} → Does d exit xs xs
  pushes :
      {d v : ℕ} {rest : Code} {xs ys : List ℕ}
      → length xs < 256
      → Does d rest (v ∷ xs) ys
      → Does d (lit v rest) xs ys
  calls :
      {d entry : ℕ} {w : StackWord} {rest : Code} {xs zs ys : List ℕ}
      → Spec w xs zs
      → length zs ≤ 256
      → IsWords xs
      → Does d rest zs ys
      → Does d (call entry w rest) xs ys
  nests :
      {d entry : ℕ} {body rest : Code} {xs zs ys : List ℕ}
      → d < 256
      → Does (suc d) body xs zs
      → Does d rest zs ys
      → Does d (nest entry body rest) xs ys

-- The fuel that the code takes, over `k` that is left.
abbrev pub fuel_for : Code → ℕ → ℕ
fuel_for exit k = suc k
fuel_for (lit v rest) k = suc (fuel_for rest k)
fuel_for (call entry w rest) k = suc (fuel_for rest k)
fuel_for (nest entry body rest) k = suc (fuel_for body (fuel_for rest k))
