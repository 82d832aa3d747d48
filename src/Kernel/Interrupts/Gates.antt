-- ===== src/Kernel/Interrupts/Gates.antt =====
-- The descriptor table that `idt_init` builds.
use mathlib.Core.Path.{subst}
use vector_forth_kernel.Base.{
  ℕ, zero, suc, ◌+◌, ◌-◌, ◌*◌, ◌≤◌, ◌<◌, ◌≡◌, ◌≢◌, ◌⊎◌, inl, inr, refl, sym, ap, ◌∙◌, arith, ◌==◌,
  ltb, if◌then◌else◌, get_or, replicate, length, length-set, length-replicate, get_or-set_self,
  get_or-set_ne, get_or-replicate, Bool-cases, ==→eq,
}
use vector_forth_kernel.Base.Word.{two64}
use vector_forth_kernel.Kernel.Interrupts.{
  Gate, Interrupts, zero_gate, idt_entries, idt_flags_interrupt, outb, idt_set_gate, pic_init,
  gate_calls, set_gates, idt_init,
}

abbrev pub gate_at : Interrupts → ℕ → Gate
gate_at s v = get_or s.idt v zero_gate

-- The address that the processor puts together from a gate.
abbrev pub handler_of : Gate → ℕ
handler_of g = g.offset_low + 0x1_0000 * g.offset_mid + 0x1_0000_0000 * g.offset_high

-- An interrupt gate of ring 0 to a handler, on the stack in use.
abbrev pub LeadsTo : Gate → ℕ → Type 0
LeadsTo g handler =
    (handler_of g ≡ handler)
    × (g.selector ≡ 0x08)
    × (g.flags ≡ idt_flags_interrupt)
    × (g.ist ≡ 0)
    × (g.reserved ≡ 0)

set_gate-LeadsTo :
    (v handler : ℕ) (s : Interrupts)
    → handler < two64
    → v < length s.idt
    → LeadsTo (gate_at (idt_set_gate v handler 0x08 idt_flags_interrupt 0 s) v) handler
unfolding idt_set_gate
set_gate-LeadsTo v handler s h lt =
    let self = get_or-set_self s.idt v _ zero_gate lt in
    subst (λ g. LeadsTo g handler) (sym self) (omega arith, refl, refl, omega arith, refl)

other_gate :
    (v w handler : ℕ) (s : Interrupts)
    → v ≢ w
    → gate_at (idt_set_gate v handler 0x08 idt_flags_interrupt 0 s) w ≡ gate_at s w
unfolding idt_set_gate
other_gate v w handler s ne = get_or-set_ne s.idt v w _ zero_gate ne

length-set_gate :
    (v handler : ℕ) (s : Interrupts)
    → length (idt_set_gate v handler 0x08 idt_flags_interrupt 0 s).idt ≡ length s.idt
unfolding idt_set_gate
length-set_gate v handler s = length-set s.idt v _

-- The stub of a vector below 48.
abbrev pub stub_of : (isr irq : ℕ → ℕ) → ℕ → ℕ
stub_of isr irq v = if ltb v 32 then isr v else irq (v - 32)

-- Gates to stubs for `n` vectors from `vector` on.
gates_from : (stub : ℕ → ℕ) → (n vector : ℕ) → Interrupts → Interrupts
gates_from stub zero vector s = s
gates_from stub (suc n) vector s =
    gates_from stub n (vector + 1) (idt_set_gate vector (stub vector) 0x08 idt_flags_interrupt 0 s)

-- The calls of `idt_init` are those for the vectors 0 to 47 in turn.
set_gates-gates_from :
    (isr irq : ℕ → ℕ) (s : Interrupts)
    → set_gates (gate_calls isr irq) s ≡ gates_from (stub_of isr irq) 48 0 s
unfolding set_gates gates_from
set_gates-gates_from isr irq s = refl

kept_gate :
    (stub : ℕ → ℕ) (n v w : ℕ) (s : Interrupts)
    → (w < v) ⊎ (v + n ≤ w)
    → gate_at (gates_from stub n v s) w ≡ gate_at s w
unfolding gates_from
kept_gate stub zero v w s out = refl
kept_gate stub (suc n) v w s out =
    kept_gate stub n (v + 1) w (idt_set_gate v (stub v) 0x08 idt_flags_interrupt 0 s)
      (elim out [ inl lo ↦ inl (omega arith) | inr hi ↦ inr (omega arith) ])
    ∙ other_gate v w (stub v) s (elim out [ inl lo ↦ λ e. omega arith | inr hi ↦ λ e. omega arith ])

gates_from-LeadsTo :
    (stub : ℕ → ℕ) (n v w : ℕ) (s : Interrupts)
    → ((k : ℕ) → stub k < two64)
    → v + n ≤ length s.idt
    → v ≤ w
    → w < v + n
    → LeadsTo (gate_at (gates_from stub n v s) w) (stub w)
unfolding gates_from
gates_from-LeadsTo stub zero v w s words room lo hi = absurd (omega arith)
gates_from-LeadsTo stub (suc n) v w s words room lo hi =
    let t = idt_set_gate v (stub v) 0x08 idt_flags_interrupt 0 s in
    let size = length-set_gate v (stub v) s in
    elim (Bool-cases (v == w)) [
      | inl e ↦
          let same : v ≡ w = ==→eq v w e in
          subst (λ k. LeadsTo (gate_at (gates_from stub n (v + 1) t) k) (stub k)) same
            (subst (λ g. LeadsTo g (stub v))
              (sym (kept_gate stub n (v + 1) v t (inl (omega arith))))
              (set_gate-LeadsTo v (stub v) s (words v) (omega arith)))
      | inr e ↦
          gates_from-LeadsTo stub n (v + 1) w t words (omega (arith, size)) (ground (arith, e))
            (omega arith)
    ]

pic_init-idt : (s : Interrupts) → (pic_init s).idt ≡ s.idt
unfolding pic_init outb
pic_init-idt s = refl

-- After `idt_init` the processor finds for each of the vectors 0 to 47 an interrupt gate of ring 0 in
-- segment 8 that leads to its stub, isr0 to isr31 for the first 32 and irq0 to irq15 for the others, all
-- 64 bits of whose address are in the gate, and for the vectors from 48 on a gate that is not present.
pub idt_init-LeadsTo :
    (isr irq : ℕ → ℕ) (idt_address : ℕ) (s : Interrupts)
    → ((k : ℕ) → isr k < two64)
    → ((k : ℕ) → irq k < two64)
    → ((v : ℕ)
        → v < 48
        → LeadsTo
            (gate_at (idt_init isr irq idt_address s) v)
            (if ltb v 32 then isr v else irq (v - 32)))
      × ((v : ℕ) → 48 ≤ v → gate_at (idt_init isr irq idt_address s) v ≡ zero_gate)
unfolding idt_init
idt_init-LeadsTo isr irq idt_address s exceptions lines =
    let stub = stub_of isr irq in
    let words : (k : ℕ) → stub k < two64 = λ k. elim (Bool-cases (ltb k 32)) [
      | inl e ↦ rw e (exceptions k)
      | inr e ↦ rw e (lines (k - 32))
    ] in
    let cleared : Interrupts = record s { idt = replicate idt_entries zero_gate } in
    let start = pic_init cleared in
    let calls = set_gates-gates_from isr irq start in
    let same = pic_init-idt cleared in
    let size : length start.idt ≡ idt_entries =
      ap length same ∙ length-replicate idt_entries zero_gate in
    (
      λ v h.
          subst (λ t. LeadsTo (gate_at t v) (stub v)) (sym calls)
            (gates_from-LeadsTo stub 48 0 v start words (omega (arith, size)) (omega arith)
              (omega arith)),
      λ v h.
          ap (λ t. gate_at t v) calls
          ∙ kept_gate stub 48 0 v start (inr (omega arith))
          ∙ ap (λ x. get_or x v zero_gate) same
          ∙ get_or-replicate idt_entries v zero_gate,
    )
