-- ===== src/Kernel/Tasks/Start.antt =====
-- A new task starts at its entry.
use mathlib.Core.Path.{subst}
use vector_forth_kernel.Base.{
  ℕ, ◌+◌, ◌-◌, ◌*◌, ◌≤◌, ◌<◌, ◌≡◌, refl, sym, ap, ◌∙◌, arith, get_or, length, get_or-last,
}
use vector_forth_kernel.Base.Word.{two64, u64}
use vector_forth_kernel.Base.Memory.{Mem, load64}
use vector_forth_kernel.Kernel.Heap.{Heap, returned, kmalloc}
use vector_forth_kernel.Kernel.Tasks.{
  Registers, Scheduler, task_at, no_task, push_list, save_context, load_context, switch_context,
  first_frame, task_stack_size, task_size, task_create, with_task,
}
use vector_forth_kernel.Kernel.Heap.Alloc.{IsHeap, Allocated, kmalloc-Allocated}
use vector_forth_kernel.Kernel.Tasks.Create.{task_create-returned, add_task-returned}
use vector_forth_kernel.Kernel.Tasks.Switch.{
  IsContext, SameCells, Clear, pushed-sub, load64-push_list, loaded_context, same-save_context,
}

-- The registers with which a new task starts, and the address of `task_exit` on its stack.
abbrev pub started : (entry top : ℕ) → Registers
started entry top = record {
  rflags = 0x202;
  rbp = 0;
  rbx = 0;
  r12 = 0;
  r13 = 0;
  r14 = 0;
  r15 = 0;
  rsp = top - 8;
  rip = entry;
}

-- The stack of a new task is loaded for the first time.
load-first_frame :
    (exit entry top : ℕ) (m m' : Mem)
    → 72 ≤ top
    → top < two64
    → exit < two64
    → entry < two64
    → SameCells 9 (top - 72) (push_list (first_frame exit entry) top m).1 m'
    → (load_context (top - 72) m' ≡ started entry top) × (load64 m' (top - 8) ≡ exit)
load-first_frame exit entry top m m' room h word_x word_e same =
    let cell : (i j : ℕ)
        → i + j ≡ 8
        → get_or (first_frame exit entry) j 0 < two64
        → load64 m' (top - 72 + 8 * i) ≡ get_or (first_frame exit entry) j 0 =
      λ i j e w.
        let at : top - 72 + 8 * i ≡ top - 8 * (j + 1) = omega arith in
        same i (omega arith)
        ∙ ap (load64 (push_list (first_frame exit entry) top m).1) at
        ∙ load64-push_list (first_frame exit entry) top m j room h (omega arith) w in
    let z : top - 72 ≡ top - 72 + 8 * 0 = omega arith in
    let last : top - 8 ≡ top - 72 + 8 * 8 = omega arith in
    (
      loaded_context (top - 72) m' (started entry top) (omega arith)
          (ap (load64 m') z ∙ cell 0 8 refl (omega arith)) (cell 1 7 refl (omega arith))
          (cell 2 6 refl (omega arith)) (cell 3 5 refl (omega arith)) (cell 4 4 refl (omega arith))
          (cell 5 3 refl (omega arith)) (cell 6 2 refl (omega arith)) (cell 7 1 refl word_e)
          (omega arith),
      ap (load64 m') last ∙ cell 8 0 refl word_x,
    )

-- The stack that `task_create` gets from a well-formed heap.
stack_fits :
    (a base : ℕ) (g h h' : Heap)
    → IsHeap g
    → kmalloc task_size g ≡ returned (a, h)
    → kmalloc task_stack_size h ≡ returned (base, h')
    → (0 < base) × (base + task_stack_size < two64)
stack_fits a base g h h' c first second =
    let (c', unit1, above1, taken1) =
      subst (Allocated g task_size) first
        (kmalloc-Allocated task_size g c (omega arith) (omega arith)) in
    let (c'', unit, above, (taken, enough, below, new, others)) =
      subst (Allocated h task_stack_size) second
        (kmalloc-Allocated task_stack_size h c' (omega arith) (omega arith)) in
    let fits = c''.fits in (omega arith, omega arith)

created_rsp :
    (exit entry base : ℕ) (h : Heap) (s : Scheduler)
    → base + task_stack_size < two64
    → ((task_at (with_task exit entry base h s).tasks (length s.tasks)).rsp
        ≡ base + task_stack_size - 72)
      × ((task_at (with_task exit entry base h s).tasks (length s.tasks)).stack_base ≡ base)
      × ((with_task exit entry base h s).memory
          ≡ (push_list (first_frame exit entry) (base + task_stack_size) s.memory).1)
unfolding with_task
created_rsp exit entry base h s fits =
    let top : u64 (base + task_stack_size) ≡ base + task_stack_size = omega arith in
    (
      ap (λ x. x.rsp) (get_or-last s.tasks _ no_task)
          ∙ ap (λ a. (push_list (first_frame exit entry) a s.memory).0) top
          ∙ pushed-sub (first_frame exit entry) (base + task_stack_size) s.memory (omega arith)
              fits,
      ap (λ x. x.stack_base) (get_or-last s.tasks _ no_task),
      ap (λ a. (push_list (first_frame exit entry) a s.memory).1) top,
    )

-- A switch to the stack pointer `rsp` of a new task.
started_from :
    (exit entry base ra rsp : ℕ) (cpu : Registers) (g m m' : Mem)
    → base + task_stack_size < two64
    → exit < two64
    → entry < two64
    → rsp ≡ base + task_stack_size - 72
    → g ≡ (push_list (first_frame exit entry) (base + task_stack_size) m).1
    → IsContext cpu
    → SameCells 9 rsp g m'
    → Clear 72 cpu.rsp rsp
    → (load_context rsp (save_context ra cpu m').1 ≡ started entry (base + task_stack_size))
      × (load64 (save_context ra cpu m').1 (base + task_stack_size - 8) ≡ exit)
started_from exit entry base ra rsp cpu g m m' fits word_x word_e at mem c same apart =
    let kept = same-save_context 9 ra rsp cpu g m' c apart same in
    let (regs, ret) =
      load-first_frame exit entry (base + task_stack_size) m (save_context ra cpu m').1
        (omega arith) fits word_x word_e
        (subst
          (λ x.
            SameCells 9 x (push_list (first_frame exit entry) (base + task_stack_size) m).1
              (save_context ra cpu m').1)
          at (subst (λ x. SameCells 9 rsp x (save_context ra cpu m').1) mem kept)) in
    (ap (λ x. load_context x (save_context ra cpu m').1) at ∙ regs, ret)

-- The first switch to a task that `task_create` made on a well-formed heap: if the nine cells on the new
-- task's stack still hold what `task_create` put there, and the stack of the task that switches is
-- apart from them, the processor is at the entry with interrupts on (flags 0x202), RBP, RBX and R12 to
-- R15 are 0, and the top of the stack is the address of `task_exit`, to which the entry returns.
pub task_create-started :
    (exit entry i ra other : ℕ) (s t v : Scheduler)
    → IsHeap s.heap
    → exit < two64
    → entry < two64
    → task_create exit entry s ≡ returned (i, t)
    → IsContext v.cpu
    → let task = task_at t.tasks i in
      let u = switch_context ra other task.rsp v in
      SameCells 9 task.rsp t.memory v.memory
      → Clear 72 v.cpu.rsp task.rsp
      → (u.cpu ≡ started entry (task.stack_base + task_stack_size))
        × (load64 u.memory (task.stack_base + task_stack_size - 8) ≡ exit)
unfolding switch_context
task_create-started exit entry i ra other s t v c word_x word_e e cv same apart =
    let (a, h, base, h', first, second, last) = task_create-returned exit entry i s t e in
    let (some_task, at, whole) = add_task-returned exit entry base i h' s t last in
    let (pos, fits) = stack_fits a base s.heap h h' c first second in
    let (rsp, stack, mem) = created_rsp exit entry base h' s fits in
    let here : task_at t.tasks i ≡ task_at (with_task exit entry base h' s).tasks (length s.tasks) =
      ap (λ x. task_at x.tasks i) whole ∙ ap (task_at (with_task exit entry base h' s).tasks) at in
    let (regs, ret) =
      started_from exit entry base ra (task_at t.tasks i).rsp v.cpu t.memory s.memory v.memory fits
        word_x word_e (ap (λ x. x.rsp) here ∙ rsp) (ap (λ x. x.memory) whole ∙ mem) cv same apart in
    let bottom : (task_at t.tasks i).stack_base ≡ base = ap (λ x. x.stack_base) here ∙ stack in
    (
      regs ∙ ap (λ b. started entry (b + task_stack_size)) (sym bottom),
      ap (λ b. load64 (save_context ra v.cpu v.memory).1 (b + task_stack_size - 8)) bottom ∙ ret,
    )
