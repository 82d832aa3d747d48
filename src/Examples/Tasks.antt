-- ===== src/Examples/Tasks.antt =====
-- The scheduler with three tasks, of which the first runs.
use mathlib.Core.Path.{subst}
use vector_forth_kernel.Base.{
  ℕ, zero, suc, ◌+◌, ◌-◌, ◌≤◌, ◌<◌, inl, ◌≡◌, ◌≢◌, refl, some, false, [], ◌∷◌, arith, sym,
}
use vector_forth_kernel.Base.Memory.{load64}
use vector_forth_kernel.Kernel.Heap.{
  HeapRun, returned, panicked, wild, heap_init, kmalloc, fit_loop, take_first, heap_split,
}
use vector_forth_kernel.Kernel.Heap.Alloc.{heap_init-IsHeap}
use vector_forth_kernel.Kernel.Tasks.{
  Task, TaskState, Registers, Scheduler, task_at, is_running, yield, task_create, switch_context,
  and_then, with_task, add_task, save_context, push_list,
}
use vector_forth_kernel.Kernel.Tasks.Handover.{IsSchedule, Yielded}
use vector_forth_kernel.Kernel.Tasks.Pick.{yield-Yielded}
use vector_forth_kernel.Kernel.Tasks.Steps.{Run, stop, gives_up, yields, Run-IsSchedule}
use vector_forth_kernel.Kernel.Tasks.Waiting.{Reaches, Run-Reaches}
use vector_forth_kernel.Kernel.Tasks.Switch.{IsContext, switch_context-resumes}
use vector_forth_kernel.Kernel.Tasks.Start.{started, task_create-started}

abbrev task : ℕ → TaskState → Task
task pid state = record { rsp = 0x7000; stack_base = 0x6000; pid = pid; state = state }

abbrev registers : ℕ → Registers
registers rsp = record {
  rflags = 0x202;
  rbp = 1;
  rbx = 2;
  r12 = 3;
  r13 = 4;
  r14 = 5;
  r15 = 6;
  rsp = rsp;
  rip = 7;
}

registers-IsContext : (rsp : ℕ) → 64 ≤ rsp → rsp < 0x1_0000 → IsContext (registers rsp)
registers-IsContext rsp lo hi = record {
  rflags_word = omega arith;
  rbp_word = omega arith;
  rbx_word = omega arith;
  r12_word = omega arith;
  r13_word = omega arith;
  r14_word = omega arith;
  r15_word = omega arith;
  rsp_word = omega arith;
  room = lo;
}

abbrev three : Scheduler
three = record {
  tasks = task 0 TaskState.running ∷ task 1 TaskState.dead ∷ task 2 TaskState.ready ∷ [];
  current_task = some 0;
  next_pid = 3;
  heap = heap_init;
  cpu = registers 0x9000;
  memory = λ a. 0;
}

three_alone : (i : ℕ) → i < 3 → i ≢ 0 → is_running (task_at three.tasks i).state ≡ false
three_alone zero h ne = absurd (ne refl)
three_alone (suc zero) h ne = refl
three_alone (suc (suc zero)) h ne = refl
three_alone (suc (suc (suc i))) h ne = absurd (omega arith)

three-IsSchedule : IsSchedule three 0
three-IsSchedule = record { current = refl; within = omega arith; alone = three_alone }

yield-Yielded_example : (t : Scheduler) × (yield 0x100 three ≡ some t) × Yielded three 0 t
yield-Yielded_example = yield-Yielded 0x100 0 three three-IsSchedule

abbrev second : Scheduler
second = (yield-Yielded 0x100 0 three three-IsSchedule).0

second-IsSchedule : (d : ℕ) × IsSchedule second d
second-IsSchedule =
    Run-IsSchedule 0 three-IsSchedule
      (gives_up (yields 0x100 (yield-Yielded 0x100 0 three three-IsSchedule).1) stop)

abbrev two_turns :
    Run 2 0 three (yield-Yielded 0x100 second-IsSchedule.0 second second-IsSchedule.1).0
two_turns = gives_up (yields 0x100 (yield-Yielded 0x100 0 three three-IsSchedule).1) (
    gives_up (yields 0x100 (yield-Yielded 0x100 second-IsSchedule.0 second second-IsSchedule.1).1)
      stop)

Run-IsSchedule_example :
    (d : ℕ) × IsSchedule (yield-Yielded 0x100 second-IsSchedule.0 second second-IsSchedule.1).0 d
Run-IsSchedule_example = Run-IsSchedule 0 three-IsSchedule two_turns

-- The third task waits two places behind the first.
Run-Reaches_example : Reaches 2 two_turns
Run-Reaches_example = Run-Reaches 0 2 two_turns three-IsSchedule (omega arith) refl (omega arith)

abbrev back : Scheduler
back = record (switch_context 0x100 0 0x7000 three) { cpu = registers 0x5000 }

-- The first task is switched to again from a stack below its own.
switch_context-resumes_example :
    (switch_context 0x200 2 (task_at (switch_context 0x100 0 0x7000 three).tasks 0).rsp back).cpu
    ≡ record (registers 0x9000) { rip = 0x100 }
unfolding switch_context save_context push_list
switch_context-resumes_example =
    switch_context-resumes 0x100 0x200 0 0x7000 2 three back
      (registers-IsContext 0x9000 (omega arith) (omega arith))
      (registers-IsContext 0x5000 (omega arith) (omega arith)) (omega arith) (omega arith)
      (λ i h. refl) (inl (omega arith))

abbrev outcome : HeapRun (ℕ × Scheduler) → ℕ × Scheduler
outcome (returned p) = p
outcome panicked = (0, three)
outcome wild = (0, three)

abbrev created : ℕ × Scheduler
created = outcome (task_create 0x300 0x400 three)

three_creates : task_create 0x300 0x400 three ≡ returned created
unfolding task_create kmalloc fit_loop take_first heap_split heap_init and_then add_task
three_creates = refl

created_cpu : created.1.cpu ≡ registers 0x9000
unfolding task_create kmalloc fit_loop take_first heap_split heap_init and_then add_task with_task
created_cpu = refl

created_rsp : (task_at created.1.tasks created.0).rsp ≡ 0xffff_8000_0030_2018
unfolding task_create kmalloc fit_loop take_first heap_split heap_init and_then add_task with_task
    push_list
created_rsp = refl

task_create-started_example :
    ((switch_context 0x100 0 (task_at created.1.tasks created.0).rsp created.1).cpu
      ≡ started 0x400 ((task_at created.1.tasks created.0).stack_base + 8192))
    × (load64
          (switch_context 0x100 0 (task_at created.1.tasks created.0).rsp created.1).memory
          ((task_at created.1.tasks created.0).stack_base + 8192 - 8)
        ≡ 0x300)
task_create-started_example =
    task_create-started 0x300 0x400 created.0 0x100 0 three created.1 created.1 heap_init-IsHeap
      (omega arith) (omega arith) three_creates
      (subst IsContext (sym created_cpu) (registers-IsContext 0x9000 (omega arith) (omega arith)))
      (λ i h. refl)
      (inl (
        subst (λ c. c.rsp ≤ (task_at created.1.tasks created.0).rsp) (sym created_cpu)
          (subst (λ n. 0x9000 ≤ n) (sym created_rsp) (omega arith))))
