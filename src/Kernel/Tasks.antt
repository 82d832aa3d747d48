-- ===== src/Kernel/Tasks.antt =====
-- Tasks, kernel/scheduler/task.c, and the context switch of kernel/scheduler/switch.asm. The ring that
-- `next` links is the list of its tasks from `task_list` on, and a pointer to a task is its index: new
-- tasks go to the end, none is ever taken out. Stacks are in byte memory. A store or load through
-- NULL is `wild` or `none`. A call of `yield` is given the address behind its call of
-- `switch_context`.
pub mod Ring
pub mod Handover
pub mod Pick
pub mod Create
pub mod Steps
pub mod Waiting
pub mod Switch
pub mod Start
use vector_forth_kernel.Base.{
  ℕ, zero, suc, ◌+◌, ◌%◌, Bool, true, false, not, ◌&&◌, ◌||◌, Option, none, some, List, [], ◌∷◌,
  ◌++◌, ◌==◌, if◌then◌else◌, get_or, set, length,
}
use vector_forth_kernel.Base.Word.{u64, add64, sub64}
use vector_forth_kernel.Base.Memory.{Mem, load64, store64}
use vector_forth_kernel.Kernel.Heap.{Heap, HeapRun, returned, panicked, wild, kmalloc}

abbrev pub task_stack_size : ℕ
task_stack_size = 8192

-- `sizeof(task_t)`
abbrev pub task_size : ℕ
task_size = 32

pub data TaskState : Type 0 where
  running ready dead : TaskState

pub record Task : Type 0 where
  pub rsp : ℕ
  pub stack_base : ℕ
  pub pid : ℕ
  pub state : TaskState

-- The registers that a context switch keeps, and the instruction pointer.
pub record Registers : Type 0 where
  pub rflags : ℕ
  pub rbp : ℕ
  pub rbx : ℕ
  pub r12 : ℕ
  pub r13 : ℕ
  pub r14 : ℕ
  pub r15 : ℕ
  pub rsp : ℕ
  pub rip : ℕ

-- `task_list` with the tasks behind it, `current_task` (none is NULL), `next_pid`, and what the
-- functions use: the heap, the registers and memory.
pub record Scheduler : Type 0 where
  pub tasks : List Task
  pub current_task : Option ℕ
  pub next_pid : ℕ
  pub heap : Heap
  pub cpu : Registers
  pub memory : Mem

abbrev pub no_task : Task
no_task = record { rsp = 0; stack_base = 0; pid = 0; state = TaskState.dead }

abbrev pub task_at : List Task → ℕ → Task
task_at ts i = get_or ts i no_task

abbrev pub is_running : TaskState → Bool
is_running TaskState.running = true
is_running TaskState.ready = false
is_running TaskState.dead = false

abbrev pub is_ready : TaskState → Bool
is_ready TaskState.running = false
is_ready TaskState.ready = true
is_ready TaskState.dead = false

-- `push`, and `*(--stack) = v`
unfoldable pub push_list : List ℕ → ℕ → Mem → ℕ × Mem
push_list [] rsp m = (rsp, m)
push_list (v ∷ vs) rsp m = push_list vs (sub64 rsp 8) (store64 m (sub64 rsp 8) v)

-- The pushes of `switch_context`, its call's return address first: the stack pointer that it saves.
unfoldable pub save_context : ℕ → Registers → Mem → ℕ × Mem
save_context return_address cpu m =
    push_list
      (return_address ∷ cpu.rflags ∷ cpu.rbp ∷ cpu.rbx ∷ cpu.r12 ∷ cpu.r13 ∷ cpu.r14 ∷ cpu.r15 ∷ [])
      cpu.rsp m

-- The pops of `switch_context` from the new stack pointer on, and `ret`.
unfoldable pub load_context : ℕ → Mem → Registers
load_context new_rsp m = record {
  r15 = load64 m new_rsp;
  r14 = load64 m (add64 new_rsp 8);
  r13 = load64 m (add64 new_rsp 16);
  r12 = load64 m (add64 new_rsp 24);
  rbx = load64 m (add64 new_rsp 32);
  rbp = load64 m (add64 new_rsp 40);
  rflags = load64 m (add64 new_rsp 48);
  rip = load64 m (add64 new_rsp 56);
  rsp = add64 new_rsp 64;
}

-- `switch_context(&old->rsp, new_rsp)`, where `old` is the task with that index.
unfoldable pub switch_context : (return_address old new_rsp : ℕ) → Scheduler → Scheduler
switch_context return_address old new_rsp s =
    let (saved, m) = save_context return_address s.cpu s.memory in
    record s {
      tasks = set s.tasks old (record (task_at s.tasks old) { rsp = saved });
      cpu = load_context new_rsp m;
      memory = m;
    }

-- A call after another that returns.
unfoldable pub and_then : {A B : Type 0} → HeapRun A → (A → HeapRun B) → HeapRun B
and_then (returned a) f = f a
and_then panicked f = panicked
and_then wild f = wild

-- The main task gets what its memory held for `rsp` and `stack_base`.
unfoldable pub scheduler_init : (rsp stack_base : ℕ) → Scheduler → HeapRun Scheduler
scheduler_init rsp stack_base s =
    let main_task : Task = record {
      rsp = rsp;
      stack_base = stack_base;
      pid = 0;
      state = TaskState.running;
    } in
    and_then (kmalloc task_size s.heap)
      (λ (p, h). returned (record s { tasks = main_task ∷ []; current_task = some 0; heap = h }))

-- The index of the task that `next` of task `i` points to.
abbrev pub next_of : List Task → ℕ → ℕ
next_of ts i = if i + 1 == length ts then 0 else i + 1

-- The loop of `yield` from task `next` on.
unfoldable pub next_loop : (fuel : ℕ) → List Task → (current next : ℕ) → Option ℕ
next_loop zero ts current next = none
next_loop (suc fuel) ts current next =
    let rest = next_loop fuel ts current (next_of ts next) in
    if not (is_ready (task_at ts next).state) && not (next == current)
    then (if is_running (task_at ts next).state then some next else rest)
    else some next

-- The states and `current_task` that `yield` sets before the switch.
unfoldable pub hand_over : (old next : ℕ) → Scheduler → Scheduler
hand_over old next s =
    let o = task_at s.tasks old in
    let ts =
      if is_running o.state
      then set s.tasks old (record o { state = TaskState.ready })
      else s.tasks in
    record s {
      tasks = set ts next (record (task_at ts next) { state = TaskState.running });
      current_task = some next;
    }

-- `yield` of the current task `old`; `none` is a loop without an end.
unfoldable pub yield_from : (return_address old : ℕ) → Scheduler → Option Scheduler
yield_from return_address old s =
    elim (next_loop (length s.tasks) s.tasks old (next_of s.tasks old)) [
      | none ↦ none
      | some next ↦
          if next == old
          then some s
          else (let t = hand_over old next s in
              some (switch_context return_address old (task_at t.tasks next).rsp t))
    ]

unfoldable pub yield : ℕ → Scheduler → Option Scheduler
yield return_address s = elim s.current_task [
  | none ↦ some s
  | some old ↦ yield_from return_address old s
]

-- `task_exit` of task `i` up to its `yield`.
unfoldable pub set_dead : ℕ → Scheduler → Scheduler
set_dead i s = record s {
  tasks = set s.tasks i (record (task_at s.tasks i) { state = TaskState.dead });
}

-- `task_exit`; the endless loop behind its `yield` does nothing but wait.
unfoldable pub task_exit : ℕ → Scheduler → Option Scheduler
task_exit return_address s = elim s.current_task [
  | none ↦ none
  | some i ↦ yield return_address (set_dead i s)
]

-- The words that `task_create` puts on the stack of the new task.
abbrev pub first_frame : (task_exit entry : ℕ) → List ℕ
first_frame task_exit entry = task_exit ∷ entry ∷ 0x202 ∷ 0 ∷ 0 ∷ 0 ∷ 0 ∷ 0 ∷ 0 ∷ []

-- The new task at the end of the ring, with its stack at `base`.
unfoldable pub with_task : (task_exit entry base : ℕ) → Heap → Scheduler → Scheduler
with_task task_exit entry base h s =
    let (rsp, m) =
      push_list (first_frame task_exit entry) (u64 (base + task_stack_size)) s.memory in
    let task : Task = record {
      rsp = rsp;
      stack_base = base;
      pid = s.next_pid;
      state = TaskState.ready;
    } in
    record s {
      tasks = s.tasks ++ (task ∷ []);
      next_pid = (s.next_pid + 1) % 0x1_0000_0000;
      heap = h;
      memory = m;
    }

-- `task_create` from the stack at `base` on; without a ring it follows NULL.
unfoldable pub add_task : (task_exit entry base : ℕ) → Heap → Scheduler → HeapRun (ℕ × Scheduler)
add_task task_exit entry base h s =
    if length s.tasks == 0
    then wild
    else returned (length s.tasks, with_task task_exit entry base h s)

-- `task_create` with the addresses of `task_exit` and of the entry, and the index of the new task.
unfoldable pub task_create : (task_exit entry : ℕ) → Scheduler → HeapRun (ℕ × Scheduler)
task_create task_exit entry s = and_then (kmalloc task_size s.heap) (λ (t, h).
    and_then (kmalloc task_stack_size h) (λ (base, h'). add_task task_exit entry base h' s))
