-- ===== src/Kernel/Tasks/Create.antt =====
-- `task_create` and `scheduler_init`: the ring afterwards.
use mathlib.Core.Path.{subst}
use vector_forth_kernel.Base.{
  ℕ, ◌+◌, ◌<◌, ◌≡◌, inl, inr, refl, sym, ap, ◌∙◌, [], ◌∷◌, ◌++◌, arith, ◌==◌, length, length-append,
  get_or-append, get_or-last, ==→eq, Bool-cases,
}
use vector_forth_kernel.Base.Word.{u64}
use vector_forth_kernel.Kernel.Heap.{Heap, HeapRun, returned, panicked, wild, kmalloc}
use vector_forth_kernel.Kernel.Tasks.{
  Task, TaskState, Scheduler, task_at, no_task, is_running, task_create, add_task, and_then,
  scheduler_init, with_task, task_size, push_list, first_frame, task_stack_size,
}
use vector_forth_kernel.Kernel.Tasks.Handover.{IsSchedule, state_of}

and_then-returned :
    {A B : Type 0} (r : HeapRun A) (f : A → HeapRun B) (b : B)
    → and_then r f ≡ returned b
    → (a : A) × (r ≡ returned a) × (f a ≡ returned b)
unfolding and_then
and_then-returned (returned a) f b e = (a, refl, e)
and_then-returned panicked f b e = absurd cc
and_then-returned wild f b e = absurd cc

-- One more task at the end of the ring, which is ready.
abbrev pub Created : Scheduler → Scheduler → Type 0
Created s t =
    (task : Task) × (0 < length s.tasks)
    × (t.tasks ≡ s.tasks ++ (task ∷ []))
    × (t.current_task ≡ s.current_task)
    × (task.state ≡ TaskState.ready)

result : ℕ × Scheduler → HeapRun (ℕ × Scheduler) → ℕ × Scheduler
result p (returned q) = q
result p panicked = p
result p wild = p

-- What a call of `add_task` that returns gives.
pub add_task-returned :
    (exit entry base i : ℕ) (h : Heap) (s t : Scheduler)
    → add_task exit entry base h s ≡ returned (i, t)
    → (0 < length s.tasks) × (i ≡ length s.tasks) × (t ≡ with_task exit entry base h s)
unfolding add_task result
add_task-returned exit entry base i h s t e = elim (Bool-cases (length s.tasks == 0)) [
  | inl z ↦
      let fails : add_task exit entry base h s ≡ wild = rw (add_task, z) in
      let clash = sym fails ∙ e in absurd cc
  | inr z ↦
      let gives : add_task exit entry base h s
          ≡ returned (length s.tasks, with_task exit entry base h s) =
        rw (add_task, z) in
      let same = ap (result (i, t)) (sym e ∙ gives) in
      (ground (arith, z), ap (λ p. p.0) same, ap (λ p. p.1) same)
]

-- The calls of `kmalloc` in a call of `task_create` that returns.
pub task_create-returned :
    (exit entry i : ℕ) (s t : Scheduler)
    → task_create exit entry s ≡ returned (i, t)
    → (a : ℕ) × (h : Heap) × (base : ℕ) × (h' : Heap) × (kmalloc task_size s.heap ≡ returned (a, h))
      × (kmalloc task_stack_size h ≡ returned (base, h'))
      × (add_task exit entry base h' s ≡ returned (i, t))
unfolding task_create
task_create-returned exit entry i s t e =
    let ((a, h), first, next) = and_then-returned (kmalloc task_size s.heap) _ (i, t) e in
    let ((base, h'), second, last) = and_then-returned (kmalloc task_stack_size h) _ (i, t) next in
    (a, h, base, h', first, second, last)

with_task-Created :
    (exit entry base : ℕ) (h : Heap) (s t : Scheduler)
    → 0 < length s.tasks
    → t ≡ with_task exit entry base h s
    → Created s t
unfolding with_task
with_task-Created exit entry base h s t some_task same =
    let (rsp, m) = push_list (first_frame exit entry) (u64 (base + task_stack_size)) s.memory in
    let task : Task = record {
      rsp = rsp;
      stack_base = base;
      pid = s.next_pid;
      state = TaskState.ready;
    } in
    (task, some_task, ap (λ x. x.tasks) same, ap (λ x. x.current_task) same, refl)

pub task_create-Created :
    (exit entry i : ℕ) (s t : Scheduler) → task_create exit entry s ≡ returned (i, t) → Created s t
task_create-Created exit entry i s t e =
    let (a, h, base, h', first, second, last) = task_create-returned exit entry i s t e in
    let (some_task, at, same) = add_task-returned exit entry base i h' s t last in
    with_task-Created exit entry base h' s t some_task same

-- The states of the tasks after a creation.
pub Created-state :
    (s t : Scheduler) (i : ℕ)
    → Created s t
    → (length t.tasks ≡ length s.tasks + 1)
      × (i < length s.tasks → state_of t i ≡ state_of s i)
      × (i ≡ length s.tasks → state_of t i ≡ TaskState.ready)
Created-state s t i (task, some_task, ts, cur, rdy) = (
  ap length ts ∙ length-append s.tasks (task ∷ []),
  λ h.
      ap (λ x. (task_at x i).state) ts
      ∙ ap (λ x. x.state) (get_or-append s.tasks (task ∷ []) i no_task h),
  λ e.
      ap (λ x. (task_at x i).state) ts
      ∙ ap (λ k. (task_at (s.tasks ++ (task ∷ [])) k).state) e
      ∙ ap (λ x. x.state) (get_or-last s.tasks task no_task)
      ∙ rdy,
)

pub created-IsSchedule : (s t : Scheduler) (c : ℕ) → IsSchedule s c → Created s t → IsSchedule t c
created-IsSchedule s t c sch made = record {
  current = made.3 ∙ sch.current;
  within = omega (arith, (Created-state s t 0 made).0, sch.within);
  alone = λ i h ne.
      let (more, old, new) = Created-state s t i made in
      elim (Bool-cases (i == length s.tasks)) [
        | inl e ↦ ap is_running (new (==→eq i (length s.tasks) e))
        | inr e ↦
            let lo : i < length s.tasks = ground (arith, e) in
            ap is_running (old lo) ∙ sch.alone i lo ne
      ];
}

scheduled : (s : Scheduler) (r : HeapRun Scheduler) → Scheduler
scheduled s (returned t) = t
scheduled s panicked = s
scheduled s wild = s

-- When `scheduler_init` returns, `current_task` is the main task, and no other is marked as running.
pub scheduler_init-IsSchedule :
    (rsp stack_base : ℕ) (s t : Scheduler)
    → scheduler_init rsp stack_base s ≡ returned t
    → IsSchedule t 0
unfolding scheduler_init scheduled
scheduler_init-IsSchedule rsp stack_base s t e =
    let ((p, h), got, last) = and_then-returned (kmalloc task_size s.heap) _ t e in
    subst (λ x. IsSchedule x 0) (ap (scheduled s) last)
      (record { current = refl; within = omega arith; alone = λ i h ne. absurd (ne (omega arith)) })
