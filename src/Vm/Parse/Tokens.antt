-- ===== src/Vm/Parse/Tokens.antt =====
-- How `parse_word` of vm/core/forth.c splits a line.
use vector_forth_kernel.Base.{
  ℕ, zero, suc, ◌-◌, ◌≤◌, ◌≡◌, ◌⊎◌, inl, inr, refl, ap, ◌∙◌, true, false, arith, [], ◌∷◌, ◌++◌,
  if◌then◌else◌, Bool-cases, length, Text,
}
use vector_forth_kernel.Utils.Stdlib.{isspace, skip_spaces}
use vector_forth_kernel.Vm.State.{Vm, ok}
use vector_forth_kernel.Vm.Parse.{take_word, parse_word}

-- No character is white space.
abbrev pub NoSpace : Text → Type 0
NoSpace [] = Unit {0}
NoSpace (c ∷ cs) = (isspace c ≡ false) × NoSpace cs

-- A text is empty or begins with white space.
abbrev pub EndsWord : Text → Type 0
EndsWord [] = Unit {0}
EndsWord (c ∷ cs) = isspace c ≡ true

-- A word is cut off the front of a text: as many characters without white space as there are, or `n`.
record Cut (n : ℕ) (cs w rest : Text) : Type 0 where
  joins : w ++ rest ≡ cs
  short : length w ≤ n
  solid : NoSpace w
  whole : (length w ≡ n) ⊎ EndsWord rest

take_word-Cut : (n : ℕ) (cs : Text) → Cut n cs (take_word n cs).0 (take_word n cs).1
unfolding take_word
take_word-Cut zero cs = record { joins = refl; short = omega arith; solid = tt; whole = inl refl }
take_word-Cut (suc n) [] = record { joins = refl; short = omega arith; solid = tt; whole = inr tt }
take_word-Cut (suc n) (c ∷ cs) =
    let more = take_word-Cut n cs in
    elim (Bool-cases (isspace c)) [
      | inl e ↦ rw e (record { joins = refl; short = omega arith; solid = tt; whole = inr e })
      | inr e ↦ rw e (record {
        joins = ap (λ x. c ∷ x) more.joins;
        short = omega (arith, more.short);
        solid = (e, more.solid);
        whole = elim more.whole [ inl l ↦ inl (ap suc l) | inr r ↦ inr r ];
      })
    ]

-- Every character is white space.
abbrev pub AllSpace : Text → Type 0
AllSpace [] = Unit {0}
AllSpace (c ∷ cs) = (isspace c ≡ true) × AllSpace cs

-- The white space at the front of a text.
abbrev pub leading : Text → Text
leading [] = []
leading (c ∷ cs) = if isspace c then c ∷ leading cs else []

skip_spaces-joins : (cs : Text) → AllSpace (leading cs) × (leading cs ++ skip_spaces cs ≡ cs)
skip_spaces-joins [] = (tt, refl)
skip_spaces-joins (c ∷ cs) =
    let more = skip_spaces-joins cs in
    elim (Bool-cases (isspace c)) [
      | inl e ↦ rw e ((e, more.0), ap (λ x. c ∷ x) more.1)
      | inr e ↦ rw e (tt, refl)
    ]

-- `parse_word` splits the line into white space, a word without white space of at most `max_len - 1`
-- characters, and the rest, from which parsing goes on; the word ends at white space, at the end of the
-- line or at its greatest length. Nothing else of the state changes.
pub parse_word_lem :
    (max_len : ℕ) (m : Vm)
    → (word : Text) × (rest : Text) × (parse_word max_len m ≡ ok word (record m { parse = rest }))
      × AllSpace (leading m.parse)
      × (leading m.parse ++ (word ++ rest) ≡ m.parse)
      × NoSpace word
      × (length word ≤ max_len - 1)
      × ((length word ≡ max_len - 1) ⊎ EndsWord rest)
unfolding parse_word
parse_word_lem max_len m =
    let cut = take_word-Cut (max_len - 1) (skip_spaces m.parse) in
    let spaces = skip_spaces-joins m.parse in
    (
      (take_word (max_len - 1) (skip_spaces m.parse)).0,
      (take_word (max_len - 1) (skip_spaces m.parse)).1,
      refl,
      spaces.0,
      ap (λ x. leading m.parse ++ x) cut.joins ∙ spaces.1,
      cut.solid,
      cut.short,
      cut.whole,
    )
