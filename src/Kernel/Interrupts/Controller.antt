-- ===== src/Kernel/Interrupts/Controller.antt =====
-- What the interrupt controllers are told.
use Prim.Native.Nat.{bit_and}
use mathlib.Core.Path.{subst}
use vector_forth_kernel.Base.{
  ℕ, ◌+◌, ◌%◌, ◌<◌, ◌≡◌, inl, inr, refl, sym, ap, ◌∙◌, Bool, true, false, not, ◌&&◌, ◌||◌, List, [],
  ◌∷◌, ◌++◌, arith, ◌==◌, leb, if◌then◌else◌, Bool-cases, ==→eq, append_assoc,
}
use vector_forth_kernel.Base.Word.{add64, sub64}
use vector_forth_kernel.Base.Bitmap.{bit_is, bit_set, bit_is-bit_set}
use vector_forth_kernel.Kernel.Keyboard.{keyboard_handler_c}
use vector_forth_kernel.Kernel.Interrupts.{
  Interrupts, outb, pic1_command, pic2_command, pic_eoi, mask_port, mask_bit, pic_set_mask,
  pic_send_eoi, timer_handler_c, irq_handler_c, irq_base,
}

-- The byte that is written to the mask of line `irq` of 16.
pub pic_mask_lem :
    (mask irq : ℕ) (s : Interrupts)
    → mask < 256
    → irq < 16
    → (w : ℕ) × (pic_set_mask mask irq s ≡ outb (mask_port irq) w s)
      × ((j : ℕ) → j < 8 → bit_is w j ≡ (mask_bit irq == j || bit_is mask j))
unfolding pic_set_mask
pic_mask_lem mask irq s hm hi = (
  bit_set mask (mask_bit irq),
  refl,
  λ j hj. bit_is-bit_set mask (mask_bit irq) j hm (ground arith) hj,
)

-- A line that is masked, and whether the interrupt on a line is spurious.
abbrev pub spurious : (irq in_service : ℕ) → Bool
spurious irq in_service = (irq == 7 || irq == 15) && bit_and in_service 0x80 == 0

-- The bytes that are written for an interrupt on line `irq`.
abbrev pub answer : (irq in_service : ℕ) → List (ℕ × ℕ)
answer irq in_service =
    (if irq == 7
      then (pic1_command, 0x0b) ∷ []
      else if irq == 15
      then (pic2_command, 0x0b) ∷ []
      else [])
    ++ ((if leb 8 irq && not (spurious irq in_service) then (pic2_command, pic_eoi) ∷ [] else [])
        ++ (if irq == 7 && spurious irq in_service then [] else (pic1_command, pic_eoi) ∷ []))

-- The effect of an interrupt: the ticks on line 0, the keyboard on line 1, and what is answered.
abbrev pub Answered : (irq scancode in_service : ℕ) → Interrupts → Interrupts → Type 0
Answered irq scancode in_service s t =
    (t.ports ≡ s.ports ++ answer irq in_service)
    × (t.kernel_ticks ≡ (if irq == 0 then add64 s.kernel_ticks 1 else s.kernel_ticks))
    × (t.keyboard ≡ (if irq == 1 then keyboard_handler_c scancode s.keyboard else s.keyboard))
    × (t.idt ≡ s.idt)

eoi-ports :
    (irq : ℕ) (s : Interrupts)
    → (pic_send_eoi irq s).ports
      ≡ s.ports
        ++ ((if leb 8 irq then (pic2_command, pic_eoi) ∷ [] else [])
            ++ ((pic1_command, pic_eoi) ∷ []))
unfolding pic_send_eoi outb
eoi-ports irq s = elim (Bool-cases (leb 8 irq)) [
  | inl e ↦
      rw e (append_assoc s.ports ((pic2_command, pic_eoi) ∷ []) ((pic1_command, pic_eoi) ∷ []))
  | inr e ↦ rw e
]

eoi_keeps :
    (irq : ℕ) (s : Interrupts)
    → ((pic_send_eoi irq s).kernel_ticks ≡ s.kernel_ticks)
      × ((pic_send_eoi irq s).keyboard ≡ s.keyboard)
      × ((pic_send_eoi irq s).idt ≡ s.idt)
unfolding pic_send_eoi outb
eoi_keeps irq s = elim (Bool-cases (leb 8 irq)) [
  | inl e ↦ (rw e, rw e, rw e)
  | inr e ↦ (rw e, rw e, rw e)
]

and_true : (b : Bool) → b ≡ (b && true)
and_true true = refl
and_true false = refl

-- The lines without a case of their own.
plain_line :
    (irq scancode in_service : ℕ) (s : Interrupts)
    → irq < 16
    → (irq == 0) ≡ false
    → (irq == 1) ≡ false
    → (irq == 7) ≡ false
    → (irq == 15) ≡ false
    → Answered irq scancode in_service s (irq_handler_c (irq_base + irq) scancode in_service s)
unfolding irq_handler_c
plain_line irq scancode in_service s h n0 n1 n7 n15 =
    let line : sub64 (irq_base + irq) irq_base ≡ irq = omega arith in
    let byte : irq % 256 ≡ irq = omega arith in
    rw (line, n0, n1, n7, n15, byte)
      (
        eoi-ports irq s
            ∙ ap
                (λ b.
                  s.ports
                  ++ ((if b then (pic2_command, pic_eoi) ∷ [] else [])
                      ++ ((pic1_command, pic_eoi) ∷ [])))
                (and_true (leb 8 irq)),
        (eoi_keeps irq s).0,
        (eoi_keeps irq s).1,
        (eoi_keeps irq s).2,
      )

-- Lines 7 and 15, on which an interrupt may be spurious.
line_seven :
    (scancode in_service : ℕ) (s : Interrupts)
    → Answered 7 scancode in_service s (irq_handler_c (irq_base + 7) scancode in_service s)
unfolding irq_handler_c pic_send_eoi outb
line_seven scancode in_service s = elim (Bool-cases (bit_and in_service 0x80 == 0)) [
  | inl e ↦ rw e (refl, refl, refl, refl)
  | inr e ↦ rw e (
    append_assoc s.ports ((pic1_command, 0x0b) ∷ []) ((pic1_command, pic_eoi) ∷ []),
    refl,
    refl,
    refl,
  )
]

line_fifteen :
    (scancode in_service : ℕ) (s : Interrupts)
    → Answered 15 scancode in_service s (irq_handler_c (irq_base + 15) scancode in_service s)
unfolding irq_handler_c pic_send_eoi outb
line_fifteen scancode in_service s = elim (Bool-cases (bit_and in_service 0x80 == 0)) [
  | inl e ↦ rw e (
    append_assoc s.ports ((pic2_command, 0x0b) ∷ []) ((pic1_command, pic_eoi) ∷ []),
    refl,
    refl,
    refl,
  )
  | inr e ↦ rw e (
    append_assoc (s.ports ++ ((pic2_command, 0x0b) ∷ [])) ((pic2_command, pic_eoi) ∷ [])
          ((pic1_command, pic_eoi) ∷ [])
        ∙ append_assoc s.ports ((pic2_command, 0x0b) ∷ [])
            ((pic2_command, pic_eoi) ∷ (pic1_command, pic_eoi) ∷ []),
    refl,
    refl,
    refl,
  )
]

line_zero :
    (scancode in_service : ℕ) (s : Interrupts)
    → Answered 0 scancode in_service s (irq_handler_c (irq_base + 0) scancode in_service s)
unfolding irq_handler_c pic_send_eoi outb timer_handler_c
line_zero scancode in_service s = (refl, refl, refl, refl)

line_one :
    (scancode in_service : ℕ) (s : Interrupts)
    → Answered 1 scancode in_service s (irq_handler_c (irq_base + 1) scancode in_service s)
unfolding irq_handler_c pic_send_eoi outb
line_one scancode in_service s = (refl, refl, refl, refl)

-- `irq_handler_c` for the vector of one of the 16 lines counts a tick on line 0 alone, gives the scan
-- code to the keyboard's handler on line 1 alone, leaves the descriptor table as it is, and tells the
-- controllers that the interrupt is over: the first one, and for lines from 8 on the second one before
-- it. For lines 7 and 15 it first asks that controller whether the line is in service; if not, it
-- tells nothing to the controller that made the interrupt up, that is the first for line 7 and the
-- second for line 15.
pub irq_handler_c-Answered :
    (irq scancode in_service : ℕ) (s : Interrupts)
    → irq < 16
    → Answered irq scancode in_service s (irq_handler_c (irq_base + irq) scancode in_service s)
irq_handler_c-Answered irq scancode in_service s h =
    let P : ℕ → Type 0 =
      λ i. Answered i scancode in_service s (irq_handler_c (irq_base + i) scancode in_service s) in
    elim (Bool-cases (irq == 0)) [
      | inl e ↦ subst P (sym (==→eq irq 0 e)) (line_zero scancode in_service s)
      | inr n0 ↦ elim (Bool-cases (irq == 1)) [
        | inl e ↦ subst P (sym (==→eq irq 1 e)) (line_one scancode in_service s)
        | inr n1 ↦ elim (Bool-cases (irq == 7)) [
          | inl e ↦ subst P (sym (==→eq irq 7 e)) (line_seven scancode in_service s)
          | inr n7 ↦ elim (Bool-cases (irq == 15)) [
            | inl e ↦ subst P (sym (==→eq irq 15 e)) (line_fifteen scancode in_service s)
            | inr n15 ↦ plain_line irq scancode in_service s h n0 n1 n7 n15
          ]
        ]
      ]
    ]
