-- ===== src/Utils/Stdlib/Reverse.antt =====
-- The reversal in place is the reversal of the list.
use vector_forth_kernel.Base.{
  ℕ, zero, suc, ◌+◌, ◌-◌, ◌≤◌, ◌≡◌, ◌⊎◌, inl, inr, refl, ap, ◌∙◌, List, [], ◌∷◌, ◌++◌, arith,
  length, get_or, set, length-append, append_assoc, append-nil, reverse, Text, lt→ltb, le→not-ltb,
}
use mathlib.Core.List.{reverse-append}
use vector_forth_kernel.Utils.Stdlib.{reverse_loop, turn_round}

module _ {ℓ} {A : Type ℓ} where
  pub get_or-append :
      (xs : List A) (y : A) (zs : List A) (d : A) → get_or (xs ++ y ∷ zs) (length xs) d ≡ y
  get_or-append [] y zs d = refl
  get_or-append (x ∷ xs) y zs d = get_or-append xs y zs d

  pub set-append :
      (xs : List A) (y : A) (zs : List A) (v : A) → set (xs ++ y ∷ zs) (length xs) v ≡ xs ++ v ∷ zs
  set-append [] y zs v = refl
  set-append (x ∷ xs) y zs v = ap (λ t. x ∷ t) (set-append xs y zs v)

  -- A list is empty or has a last element.
  pub last-cases : (xs : List A) → (xs ≡ []) ⊎ ((ys : List A) × (y : A) × (xs ≡ ys ++ y ∷ []))
  last-cases [] = inl refl
  last-cases (x ∷ xs) = elim (last-cases xs) [
    | inl e ↦ inr ([], x, ap (λ t. x ∷ t) e)
    | inr (ys, y, e) ↦ inr (x ∷ ys, y, ap (λ t. x ∷ t) e)
  ]

get_or_far :
    (pre mid post : Text) (x y : ℕ)
    → get_or (pre ++ x ∷ (mid ++ y ∷ post)) (length pre + length mid + 1) 0 ≡ y
get_or_far [] mid post x y =
    let e : 0 + length mid + 1 ≡ suc (length mid) = omega arith in rw e (get_or-append mid y post 0)
get_or_far (z ∷ pre) mid post x y =
    let e : suc (length pre) + length mid + 1 ≡ suc (length pre + length mid + 1) = omega arith in
    rw e (get_or_far pre mid post x y)

set_far :
    (pre mid post : Text) (x y v : ℕ)
    → set (pre ++ x ∷ (mid ++ y ∷ post)) (length pre + length mid + 1) v
      ≡ pre ++ x ∷ (mid ++ v ∷ post)
set_far [] mid post x y v =
    let e : 0 + length mid + 1 ≡ suc (length mid) = omega arith in
    rw e (ap (λ t. x ∷ t) (set-append mid y post v))
set_far (z ∷ pre) mid post x y v =
    let e : suc (length pre) + length mid + 1 ≡ suc (length pre + length mid + 1) = omega arith in
    rw e (ap (λ t. z ∷ t) (set_far pre mid post x y v))

-- One round on a text whose ends are `x` and `y`.
swap_ends :
    (pre mid post : Text) (x y : ℕ)
    → let str = pre ++ x ∷ (mid ++ y ∷ post) in
      let p = length pre + length mid + 1 in
      set (set str (length pre) (get_or str p 0)) p (get_or str (length pre) 0)
      ≡ pre ++ y ∷ (mid ++ x ∷ post)
swap_ends pre mid post x y =
    rw
      (
        get_or_far pre mid post x y,
        get_or-append pre x (mid ++ y ∷ post) 0,
        set-append pre x (mid ++ y ∷ post) y,
      )
      (set_far pre mid post y y x)

pub reverse-ends : (x y : ℕ) (ys : Text) → reverse (x ∷ (ys ++ y ∷ [])) ≡ y ∷ (reverse ys ++ x ∷ [])
reverse-ends x y ys =
    reverse-append (x ∷ []) (ys ++ y ∷ []) ∙ ap (λ t. t ++ x ∷ []) (reverse-append ys (y ∷ []))

-- The loop from two ends inwards, given what it does to the part between them.
round :
    (f : ℕ) (pre ys post : Text) (x y : ℕ)
    → reverse_loop f
        ((pre ++ y ∷ []) ++ (ys ++ x ∷ post))
        (length (pre ++ y ∷ []))
        (length (pre ++ y ∷ []) + length ys - 1)
      ≡ (pre ++ y ∷ []) ++ (reverse ys ++ x ∷ post)
    → reverse_loop (suc f) (pre ++ x ∷ (ys ++ y ∷ post)) (length pre) (length pre + length ys + 1)
      ≡ pre ++ y ∷ (reverse ys ++ x ∷ post)
unfolding reverse_loop
round f pre ys post x y ih =
    let a = append_assoc pre (y ∷ []) (ys ++ x ∷ post) in
    let b = append_assoc pre (y ∷ []) (reverse ys ++ x ∷ post) in
    let n : length (pre ++ y ∷ []) ≡ length pre + 1 = length-append pre (y ∷ []) in
    let p : length pre + length ys + 1 - 1 ≡ length pre + 1 + length ys - 1 = omega arith in
    rw
      (lt→ltb (length pre) (length pre + length ys + 1) (omega arith), swap_ends pre ys post x y, p)
      (rw (a, b, n) at ih)

reverse_loop-reverse :
    (f : ℕ) (pre mid post : Text)
    → length mid ≤ f
    → reverse_loop f (pre ++ (mid ++ post)) (length pre) (length pre + length mid - 1)
      ≡ pre ++ (reverse mid ++ post)
reverse_loop-reverse zero pre [] post fuel = unfold reverse_loop in refl
reverse_loop-reverse zero pre (x ∷ mid) post fuel = absurd (omega arith)
reverse_loop-reverse (suc f) pre [] post fuel =
    unfold reverse_loop in rw (le→not-ltb (length pre) (length pre + 0 - 1) (omega arith))
reverse_loop-reverse (suc f) pre (x ∷ mid) post fuel = elim (last-cases mid) [
  | inl e ↦
      unfold reverse_loop in rw (e, le→not-ltb (length pre) (length pre + 1 - 1) (omega arith))
  | inr (ys, y, e) ↦
      let n : length mid ≡ length ys + 1 = ap length e ∙ length-append ys (y ∷ []) in
      let p : length pre + suc (length mid) - 1 ≡ length pre + length ys + 1 = omega arith in
      let a : mid ++ post ≡ ys ++ y ∷ post =
        ap (λ t. t ++ post) e ∙ append_assoc ys (y ∷ []) post in
      let r : reverse (x ∷ mid) ++ post ≡ y ∷ (reverse ys ++ x ∷ post) =
        ap (λ t. reverse (x ∷ t) ++ post) e
        ∙ ap (λ t. t ++ post) (reverse-ends x y ys)
        ∙ ap (λ t. y ∷ t) (append_assoc (reverse ys) (x ∷ []) post) in
      rw (p, a, r)
        (round f pre ys post x y
          (reverse_loop-reverse f (pre ++ y ∷ []) ys (x ∷ post) (omega arith)))
]

-- The loop of `ltoa` over the digits behind a sign turns them round.
pub reverse_digits : (sign ds : Text) → turn_round sign ds ≡ sign ++ reverse ds
reverse_digits sign ds =
    let n = length-append sign ds in
    let r = reverse_loop-reverse (length (sign ++ ds)) sign ds [] (omega arith) in
    let k : length sign + length ds - 1 ≡ length (sign ++ ds) - 1 = omega arith in
    unfold turn_round in rw (append-nil ds, append-nil (reverse ds), k) at r
