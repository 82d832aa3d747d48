-- ===== src/Vm/Dict/Lookup.antt =====
-- `dict_find` behind `dict_create`.
use vector_forth_kernel.Base.{
  ℕ, zero, suc, ◌+◌, ◌/◌, ◌%◌, ◌≤◌, ◌<◌, ◌≡◌, inl, inr, refl, ap, ◌∙◌, true, false, List, [], ◌∷◌,
  arith, length, take, Text, Bool-cases, ==_refl,
}
use vector_forth_kernel.Vm.State.{Vm, Run, ok}
use vector_forth_kernel.Vm.Dict.{
  align8, name_len, upcase, dict_create, dict_find, dict_virt_base, dict_size,
}
use vector_forth_kernel.Vm.Dict.Chain.{Word, same_name, visible, find}
use vector_forth_kernel.Vm.Dict.Create.{
  IsDict, IsText, created, new_word, dict_create-created, created-IsDict, dict_find-IsDict,
  length-new_word, name_len-le,
}

pub same_name_refl : (name : Text) → same_name name name ≡ true
same_name_refl [] = refl
same_name_refl (c ∷ cs) = rw (==_refl (upcase c), same_name_refl cs)

same_name-length : (xs ys : Text) → same_name xs ys ≡ true → length xs ≡ length ys
same_name-length [] [] h = refl
same_name-length [] (y ∷ ys) h = absurd cc
same_name-length (x ∷ xs) [] h = absurd cc
same_name-length (x ∷ xs) (y ∷ ys) h = ap suc (same_name-length xs ys (ground (arith, h)))

pub take_all : (n : ℕ) (name : Text) → length name ≤ n → take n name ≡ name
take_all zero [] h = refl
take_all zero (c ∷ cs) h = absurd (omega arith)
take_all (suc n) [] h = refl
take_all (suc n) (c ∷ cs) h = ap (λ x. c ∷ x) (take_all n cs (omega arith))

-- What the dictionary is to hold for a new word to be added: its words, with room behind them.
pub record HasRoom (m : Vm) (ws : List Word) (name : Text) (flags : ℕ) : Type 0 where
  pub dict : IsDict m ws
  pub room : m.here + 64 ≤ dict_virt_base + dict_size
  pub flags_byte : flags < 256
  pub text : IsText name

-- A word that `dict_create` made with a name of at most 31 characters and without F_HIDDEN is what
-- `dict_find` finds by its name; any other name is found as before.
pub dict_find-dict_create :
    (name other : Text) (flags : ℕ) (m : Vm) (ws : List Word)
    → HasRoom m ws name flags
    → length name ≤ 31
    → flags / 64 % 2 ≡ 0
    → (g : Vm) × (dict_create name flags m ≡ ok tt g)
      × (dict_find name g ≡ ok (align8 m.here) g)
      × (same_name name other ≡ false → dict_find other g ≡ ok (find other ws) g)
dict_find-dict_create name other flags m ws h short shown =
    let g = created m name flags in
    let d = created-IsDict name flags m ws h.dict h.room h.flags_byte h.text in
    let whole : take (name_len name) name ≡ name = take_all (name_len name) name (ground arith) in
    let seen : visible (new_word m.here name flags) ≡ true = ground arith in
    (
      g,
      dict_create-created name flags m h.room,
      dict_find-IsDict name (new_word m.here name flags ∷ ws) d
          ∙ ap (λ e. let r : Run ℕ = ok e g in r) (rw (seen, whole, same_name_refl name)),
      λ apart.
          dict_find-IsDict other (new_word m.here name flags ∷ ws) d
          ∙ ap (λ e. let r : Run ℕ = ok e g in r) (rw (seen, whole, apart)),
    )

-- A word that `dict_create` made with a name of more than 31 characters is not found by that name:
-- `dict_find` returns what it returned before.
pub dict_find-long :
    (name : Text) (flags : ℕ) (m : Vm) (ws : List Word)
    → HasRoom m ws name flags
    → 31 < length name
    → (g : Vm) × (dict_create name flags m ≡ ok tt g) × (dict_find name g ≡ ok (find name ws) g)
dict_find-long name flags m ws h long =
    let g = created m name flags in
    let d = created-IsDict name flags m ws h.dict h.room h.flags_byte h.text in
    let few = name_len-le name in
    let size = length-new_word name in
    let other : same_name (take (name_len name) name) name ≡ false =
      elim (Bool-cases (same_name (take (name_len name) name) name)) [
        | inl e ↦
            let same = same_name-length (take (name_len name) name) name e in absurd (omega arith)
        | inr e ↦ e
      ] in
    (
      g,
      dict_create-created name flags m h.room,
      dict_find-IsDict name (new_word m.here name flags ∷ ws) d
          ∙ ap (λ e. let r : Run ℕ = ok e g in r) (rw other (ground arith)),
    )
