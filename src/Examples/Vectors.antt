-- ===== src/Examples/Vectors.antt =====
-- Interrupts on an idle machine.
use vector_forth_kernel.Base.{ℕ, ◌+◌, ◌-◌, ◌*◌, ◌%◌, ◌≤◌, ◌<◌, ◌≡◌, [], arith, ltb, if◌then◌else◌}
use vector_forth_kernel.Kernel.Interrupts.{Interrupts, zero_gate, idt_init, irq_handler_c}
use vector_forth_kernel.Kernel.Interrupts.Gates.{gate_at, LeadsTo, idt_init-LeadsTo}
use vector_forth_kernel.Kernel.Interrupts.Controller.{Answered, irq_handler_c-Answered}
use vector_forth_kernel.Examples.Keys.{keyboard}

abbrev idle : Interrupts
idle = record {
  idt = [];
  idtr_limit = 0;
  idtr_base = 0;
  kernel_ticks = 0;
  keyboard = keyboard;
  ports = [];
}

-- The stubs one behind the other.
abbrev isr : ℕ → ℕ
isr k = 0xffff_8000_0010_2000 + 16 * (k % 32)

abbrev irq : ℕ → ℕ
irq k = 0xffff_8000_0010_2200 + 16 * (k % 16)

idt_init-LeadsTo_example :
    ((v : ℕ)
      → v < 48
      → LeadsTo
          (gate_at (idt_init isr irq 0x9000 idle) v)
          (if ltb v 32 then isr v else irq (v - 32)))
    × ((v : ℕ) → 48 ≤ v → gate_at (idt_init isr irq 0x9000 idle) v ≡ zero_gate)
idt_init-LeadsTo_example =
    idt_init-LeadsTo isr irq 0x9000 idle (λ k. omega arith) (λ k. omega arith)

-- A spurious interrupt of the second controller.
irq_handler_c-Answered_example : Answered 15 0 0 idle (irq_handler_c 47 0 0 idle)
irq_handler_c-Answered_example = irq_handler_c-Answered 15 0 0 idle (omega arith)
