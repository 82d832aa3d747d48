-- ===== src/Kernel/Tasks/Handover.antt =====
-- The states of the tasks when the processor is handed over.
use vector_forth_kernel.Base.{
  ℕ, ◌<◌, ◌≡◌, ◌≢◌, ◌⊎◌, inl, inr, refl, ap, ◌∙◌, Bool, true, false, ◌&&◌, none, some, List, arith,
  ◌==◌, if◌then◌else◌, set, length, length-set, get_or-set, ==→eq, ne→not-==, not-==→ne, Bool-cases,
}
use vector_forth_kernel.Kernel.Tasks.{
  Task, TaskState, Scheduler, task_at, no_task, is_running, is_ready, next_of, next_loop, hand_over,
  switch_context, yield, yield_from,
}
use vector_forth_kernel.Kernel.Tasks.Ring.{place}

-- `current_task` is task `c`, and no other task is marked as running.
pub record IsSchedule (s : Scheduler) (c : ℕ) : Type 0 where
  pub current : s.current_task ≡ some c
  pub within : c < length s.tasks
  pub alone : (i : ℕ) → i < length s.tasks → i ≢ c → is_running (task_at s.tasks i).state ≡ false

abbrev pub state_of : Scheduler → ℕ → TaskState
state_of s i = (task_at s.tasks i).state

-- Task `d`, `k` places behind task `c`, takes over: no task between them is ready, and the task that
-- ran is ready from now on.
abbrev pub TakesOver : Scheduler → (c k d : ℕ) → Scheduler → Type 0
TakesOver s c k d t =
    (0 < k)
    × (k < length s.tasks)
    × (d ≡ place (length s.tasks) c k)
    × (is_ready (state_of s d) ≡ true)
    × ((j : ℕ) → 0 < j → j < k → is_ready (state_of s (place (length s.tasks) c j)) ≡ false)
    × IsSchedule t d
    × (length t.tasks ≡ length s.tasks)
    × ((i : ℕ)
        → i < length s.tasks
        → state_of t i ≡ (
            if i == d
            then TaskState.running
            else if i == c && is_running (state_of s c)
            then TaskState.ready
            else state_of s i))

-- What `yield` does: nothing if no other task is ready, and otherwise the next one takes over.
abbrev pub Yielded : Scheduler → ℕ → Scheduler → Type 0
Yielded s c t =
    ((t ≡ s) × ((i : ℕ) → i < length s.tasks → i ≢ c → is_ready (state_of s i) ≡ false))
    ⊎ ((k : ℕ) × (d : ℕ) × TakesOver s c k d t)

pub state-set :
    (ts : List Task) (i j : ℕ) (t : Task)
    → i < length ts
    → (task_at (set ts i t) j).state ≡ (if j == i then t.state else (task_at ts j).state)
state-set ts i j t h =
    ap (λ x. x.state) (get_or-set ts i j t no_task h) ∙ elim (Bool-cases (i == j)) [
      | inl e ↦ let e' : (j == i) ≡ true = ground (arith, e) in rw (e, e')
      | inr e ↦ let e' : (j == i) ≡ false = ground (arith, e) in rw (e, e')
    ]

length-hand_over : (c d : ℕ) (s : Scheduler) → length (hand_over c d s).tasks ≡ length s.tasks
unfolding hand_over
length-hand_over c d s =
    length-set _ d _ ∙ elim (Bool-cases (is_running (task_at s.tasks c).state)) [
      | inl e ↦ rw e (length-set s.tasks c _)
      | inr e ↦ rw e
    ]

if_and_true : (b : Bool) (x y : TaskState) → (if b then x else y) ≡ (if b && true then x else y)
if_and_true true x y = refl
if_and_true false x y = refl

if_and_false : (b : Bool) (x y : TaskState) → y ≡ (if b && false then x else y)
if_and_false true x y = refl
if_and_false false x y = refl

state-hand_over :
    (c d i : ℕ) (s : Scheduler)
    → c < length s.tasks
    → d < length s.tasks
    → state_of (hand_over c d s) i ≡ (
        if i == d
        then TaskState.running
        else if i == c && is_running (state_of s c)
        then TaskState.ready
        else state_of s i)
unfolding hand_over
state-hand_over c d i s hc hd = elim (Bool-cases (is_running (task_at s.tasks c).state)) [
  | inl e ↦
      let o : Task = record (task_at s.tasks c) { state = TaskState.ready } in
      rw e (
        state-set (set s.tasks c o) d i _ (omega (arith, length-set s.tasks c o))
        ∙ ap (λ x. if i == d then TaskState.running else x)
            (state-set s.tasks c i o hc ∙ if_and_true (i == c) TaskState.ready (state_of s i)))
  | inr e ↦ rw e (
      state-set s.tasks d i _ hd
      ∙ ap (λ x. if i == d then TaskState.running else x)
          (if_and_false (i == c) TaskState.ready (state_of s i)))
]

-- A switch changes no state.
state-switch_context :
    (ra c rsp i : ℕ) (s : Scheduler)
    → c < length s.tasks
    → state_of (switch_context ra c rsp s) i ≡ state_of s i
unfolding switch_context
state-switch_context ra c rsp i s hc = state-set s.tasks c i _ hc ∙ elim (Bool-cases (i == c)) [
  | inl e ↦ let at_c : i ≡ c = ==→eq i c e in rw (e, at_c)
  | inr e ↦ rw e
]

length-switch_context :
    (ra c rsp : ℕ) (s : Scheduler) → length (switch_context ra c rsp s).tasks ≡ length s.tasks
unfolding switch_context
length-switch_context ra c rsp s = length-set s.tasks c _

abbrev pub switched : (ra c d : ℕ) → Scheduler → Scheduler
switched ra c d s = switch_context ra c (task_at (hand_over c d s).tasks d).rsp (hand_over c d s)

pub yield-current :
    (ra c : ℕ) (s : Scheduler) → s.current_task ≡ some c → yield ra s ≡ yield_from ra c s
unfolding yield
yield-current ra c s e = ap (λ o. elim o [ none ↦ some s | some old ↦ yield_from ra old s ]) e

pub from-stays :
    (ra c d : ℕ) (s : Scheduler)
    → next_loop (length s.tasks) s.tasks c (next_of s.tasks c) ≡ some d
    → d ≡ c
    → yield_from ra c s ≡ some s
unfolding yield_from
from-stays ra c d s e same =
    let home : (d == c) ≡ true = ground (arith, same) in rw (yield_from, e, home)

pub from-switches :
    (ra c d : ℕ) (s : Scheduler)
    → next_loop (length s.tasks) s.tasks c (next_of s.tasks c) ≡ some d
    → d ≢ c
    → yield_from ra c s ≡ some (switched ra c d s)
unfolding yield_from
from-switches ra c d s e ne =
    let away : (d == c) ≡ false = ne→not-== d c ne in rw (yield_from, e, away)

pub state-switched :
    (ra c d i : ℕ) (s : Scheduler)
    → c < length s.tasks
    → d < length s.tasks
    → state_of (switched ra c d s) i ≡ (
        if i == d
        then TaskState.running
        else if i == c && is_running (state_of s c)
        then TaskState.ready
        else state_of s i)
state-switched ra c d i s hc hd =
    state-switch_context ra c _ i (hand_over c d s) (omega (arith, length-hand_over c d s))
    ∙ state-hand_over c d i s hc hd

pub length-switched :
    (ra c d : ℕ) (s : Scheduler) → length (switched ra c d s).tasks ≡ length s.tasks
length-switched ra c d s = length-switch_context ra c _ (hand_over c d s) ∙ length-hand_over c d s

current-switched : (ra c d : ℕ) (s : Scheduler) → (switched ra c d s).current_task ≡ some d
unfolding switch_context hand_over
current-switched ra c d s = refl

-- A task that gives up the processor does not run.
given_up : (x : TaskState) → is_running (if is_running x then TaskState.ready else x) ≡ false
given_up TaskState.running = refl
given_up TaskState.ready = refl
given_up TaskState.dead = refl

pub switched-IsSchedule :
    (ra c d : ℕ) (s : Scheduler)
    → IsSchedule s c
    → d < length s.tasks
    → IsSchedule (switched ra c d s) d
switched-IsSchedule ra c d s sch hd = record {
  current = current-switched ra c d s;
  within = omega (arith, length-switched ra c d s);
  alone = λ i h ne.
      let away : (i == d) ≡ false = ne→not-== i d ne in
      ap is_running (state-switched ra c d i s sch.within hd)
      ∙ rw away (elim (Bool-cases (i == c)) [
        | inl e ↦ let at_c : i ≡ c = ==→eq i c e in rw (e, at_c) (given_up (state_of s c))
        | inr e ↦ rw e (sch.alone i (omega (arith, length-switched ra c d s)) (not-==→ne i c e))
      ]);
}
