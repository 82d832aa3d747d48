-- ===== src/Kernel/Interrupts.antt =====
-- Interrupts: the descriptor table and the interrupt controllers of kernel/interrupts/idt.c, and the
-- handler of kernel/interrupts/irq.c with the timer's of kernel/drivers/timer.c. The addresses of the
-- assembly stubs isr0 to isr31 and irq0 to irq15 are parameters, functions of the number. Bytes that
-- `outb` writes are added to a list, and those that `inb` reads are arguments.
pub mod Gates
pub mod Controller
use Prim.Native.Nat.{bit_and}
use vector_forth_kernel.Base.{
  ℕ, zero, suc, ◌+◌, ◌-◌, ◌*◌, ◌/◌, ◌%◌, Bool, true, false, List, [], ◌∷◌, ◌++◌, ◌==◌, ltb, leb,
  if◌then◌else◌, set, replicate,
}
use vector_forth_kernel.Base.Word.{add64, sub64}
use vector_forth_kernel.Base.Bitmap.{bit_set, bit_clear}
use vector_forth_kernel.Kernel.Keyboard.{Keyboard, keyboard_handler_c}

-- `idt_entry_t`
pub record Gate : Type 0 where
  pub offset_low : ℕ
  pub selector : ℕ
  pub ist : ℕ
  pub flags : ℕ
  pub offset_mid : ℕ
  pub offset_high : ℕ
  pub reserved : ℕ

-- `idt`, `idtr`, `kernel_ticks`, the state of the keyboard and the writes to ports
pub record Interrupts : Type 0 where
  pub idt : List Gate
  pub idtr_limit : ℕ
  pub idtr_base : ℕ
  pub kernel_ticks : ℕ
  pub keyboard : Keyboard
  pub ports : List (ℕ × ℕ)

abbrev pub idt_entries : ℕ
idt_entries = 256

-- `IDT_FLAGS_INTERRUPT`
abbrev pub idt_flags_interrupt : ℕ
idt_flags_interrupt = 0x8e

abbrev pub irq_base : ℕ
irq_base = 0x20

abbrev pub pic1_command : ℕ
pic1_command = 0x20

abbrev pub pic1_data : ℕ
pic1_data = 0x21

abbrev pub pic2_command : ℕ
pic2_command = 0xa0

abbrev pub pic2_data : ℕ
pic2_data = 0xa1

abbrev pub pic_eoi : ℕ
pic_eoi = 0x20

abbrev pub zero_gate : Gate
zero_gate = record {
  offset_low = 0;
  selector = 0;
  ist = 0;
  flags = 0;
  offset_mid = 0;
  offset_high = 0;
  reserved = 0;
}

unfoldable pub outb : ℕ → ℕ → Interrupts → Interrupts
outb port value s = record s { ports = s.ports ++ ((port, value) ∷ []) }

unfoldable pub idt_set_gate : (vector handler selector flags ist : ℕ) → Interrupts → Interrupts
idt_set_gate vector handler selector flags ist s =
    let gate : Gate = record {
      offset_low = handler % 0x1_0000;
      selector = selector;
      ist = ist % 8;
      flags = flags;
      offset_mid = handler / 0x1_0000 % 0x1_0000;
      offset_high = handler / 0x1_0000_0000 % 0x1_0000_0000;
      reserved = 0;
    } in
    record s { idt = set s.idt vector gate }

-- The command words and the masks. `io_wait`, which only passes time, is left out.
unfoldable pub pic_init : Interrupts → Interrupts
pic_init s = outb pic2_data 0xff (
    outb pic1_data 0xfc (
      outb pic2_data 0x01 (
        outb pic1_data 0x01 (
          outb pic2_data 0x02 (
            outb pic1_data 0x04 (
              outb pic2_data (irq_base + 8)
                (outb pic1_data irq_base (outb pic2_command 0x11 (outb pic1_command 0x11 s)))))))))

unfoldable pub pic_send_eoi : ℕ → Interrupts → Interrupts
pic_send_eoi irq s =
    let t = if leb 8 irq then outb pic2_command pic_eoi s else s in outb pic1_command pic_eoi t

-- The port of a line's mask and the line's bit in it.
abbrev pub mask_port : ℕ → ℕ
mask_port irq = if ltb irq 8 then pic1_data else pic2_data

abbrev pub mask_bit : ℕ → ℕ
mask_bit irq = if ltb irq 8 then irq else irq - 8

-- `mask` is what `inb` reads from the port.
unfoldable pub pic_set_mask : (mask irq : ℕ) → Interrupts → Interrupts
pic_set_mask mask irq s = outb (mask_port irq) (bit_set mask (mask_bit irq)) s

unfoldable pub pic_clear_mask : (mask irq : ℕ) → Interrupts → Interrupts
pic_clear_mask mask irq s = outb (mask_port irq) (bit_clear mask (mask_bit irq)) s

-- The vector and the handler of each call of `idt_set_gate` in `idt_init`, in their order.
abbrev pub gate_calls : (isr irq : ℕ → ℕ) → List (ℕ × ℕ)
gate_calls isr irq =
    (0, isr 0)
    ∷ (1, isr 1)
    ∷ (2, isr 2)
    ∷ (3, isr 3)
    ∷ (4, isr 4)
    ∷ (5, isr 5)
    ∷ (6, isr 6)
    ∷ (7, isr 7)
    ∷ (8, isr 8)
    ∷ (9, isr 9)
    ∷ (10, isr 10)
    ∷ (11, isr 11)
    ∷ (12, isr 12)
    ∷ (13, isr 13)
    ∷ (14, isr 14)
    ∷ (15, isr 15)
    ∷ (16, isr 16)
    ∷ (17, isr 17)
    ∷ (18, isr 18)
    ∷ (19, isr 19)
    ∷ (20, isr 20)
    ∷ (21, isr 21)
    ∷ (22, isr 22)
    ∷ (23, isr 23)
    ∷ (24, isr 24)
    ∷ (25, isr 25)
    ∷ (26, isr 26)
    ∷ (27, isr 27)
    ∷ (28, isr 28)
    ∷ (29, isr 29)
    ∷ (30, isr 30)
    ∷ (31, isr 31)
    ∷ (32, irq 0)
    ∷ (33, irq 1)
    ∷ (34, irq 2)
    ∷ (35, irq 3)
    ∷ (36, irq 4)
    ∷ (37, irq 5)
    ∷ (38, irq 6)
    ∷ (39, irq 7)
    ∷ (40, irq 8)
    ∷ (41, irq 9)
    ∷ (42, irq 10)
    ∷ (43, irq 11)
    ∷ (44, irq 12)
    ∷ (45, irq 13)
    ∷ (46, irq 14)
    ∷ (47, irq 15)
    ∷ []

-- Those calls, which have the other arguments in common.
unfoldable pub set_gates : List (ℕ × ℕ) → Interrupts → Interrupts
set_gates [] s = s
set_gates ((vector, handler) ∷ calls) s =
    set_gates calls (idt_set_gate vector handler 0x08 idt_flags_interrupt 0 s)

-- `idt_init`, with the addresses of the stubs and of `idt`.
unfoldable pub idt_init : (isr irq : ℕ → ℕ) → (idt_address : ℕ) → Interrupts → Interrupts
idt_init isr irq idt_address s =
    let cleared : Interrupts = record s { idt = replicate idt_entries zero_gate } in
    let t = set_gates (gate_calls isr irq) (pic_init cleared) in
    record t { idtr_limit = idt_entries * 16 - 1; idtr_base = idt_address }

unfoldable pub timer_handler_c : Interrupts → Interrupts
timer_handler_c s = record s { kernel_ticks = add64 s.kernel_ticks 1 }

-- `irq_handler_c`: the vector of the frame, the scan code that the keyboard has, and the in-service
-- register that `inb` reads for the lines 7 and 15.
unfoldable pub irq_handler_c : (int_no scancode in_service : ℕ) → Interrupts → Interrupts
irq_handler_c int_no scancode in_service s =
    let irq = sub64 int_no irq_base in
    let spurious = bit_and in_service 0x80 == 0 in
    if irq == 0
    then pic_send_eoi irq (timer_handler_c s)
    else if irq == 1
    then pic_send_eoi irq (record s { keyboard = keyboard_handler_c scancode s.keyboard })
    else if irq == 7
    then (let t = outb pic1_command 0x0b s in if spurious then t else pic_send_eoi irq t)
    else if irq == 15
    then (let t = outb pic2_command 0x0b s in
        if spurious then outb pic1_command pic_eoi t else pic_send_eoi irq t)
    else pic_send_eoi (irq % 256) s
