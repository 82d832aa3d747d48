-- ===== src/Kernel/Tasks/Steps.antt =====
-- Sequences of calls of the scheduler, between which the tasks do as they like with the registers,
-- memory and the heap.
use mathlib.Core.Path.{subst}
use vector_forth_kernel.Base.{
  ℕ, suc, ◌<◌, ◌≡◌, ◌≢◌, inl, inr, refl, sym, ap, ◌∙◌, false, Option, none, some, arith, ◌==◌,
  if◌then◌else◌, length, length-set, ne→not-==,
}
use vector_forth_kernel.Base.Memory.{Mem}
use vector_forth_kernel.Kernel.Heap.{Heap, returned}
use vector_forth_kernel.Kernel.Tasks.{
  TaskState, Registers, Scheduler, task_at, is_running, yield, set_dead, task_exit, task_create,
}
use vector_forth_kernel.Kernel.Tasks.Handover.{IsSchedule, state_of, Yielded, state-set}
use vector_forth_kernel.Kernel.Tasks.Pick.{yield-Yielded}
use vector_forth_kernel.Kernel.Tasks.Create.{task_create-Created, created-IsSchedule}

-- The current task gives the processor away.
pub data GivesUp : Scheduler → Scheduler → Type 0 where
  yields : {s t : Scheduler} → (ra : ℕ) → yield ra s ≡ some t → GivesUp s t
  exits : {s t : Scheduler} → (ra : ℕ) → task_exit ra s ≡ some t → GivesUp s t

-- A sequence of steps with the number of turns that end in it and of tasks that are created.
pub data Run : ℕ → ℕ → Scheduler → Scheduler → Type 0 where
  stop : {s : Scheduler} → Run 0 0 s s
  works :
      {turns created : ℕ} {s u : Scheduler}
      → (h : Heap) (cpu : Registers) (m : Mem)
      → Run turns created (record s { heap = h; cpu = cpu; memory = m }) u
      → Run turns created s u
  gives_up :
      {turns created : ℕ} {s t u : Scheduler}
      → GivesUp s t
      → Run turns created t u
      → Run (suc turns) created s u
  creates :
      {turns created : ℕ} {s t u : Scheduler}
      → (exit entry i : ℕ) → task_create exit entry s ≡ returned (i, t)
      → Run turns created t u
      → Run turns (suc created) s u

state-set_dead :
    (c i : ℕ) (s : Scheduler)
    → c < length s.tasks
    → state_of (set_dead c s) i ≡ (if i == c then TaskState.dead else state_of s i)
unfolding set_dead
state-set_dead c i s h = state-set s.tasks c i _ h

set_dead-IsSchedule : (c : ℕ) (s : Scheduler) → IsSchedule s c → IsSchedule (set_dead c s) c
unfolding set_dead
set_dead-IsSchedule c s sch =
    let size = length-set s.tasks c (record (task_at s.tasks c) { state = TaskState.dead }) in
    record {
      current = sch.current;
      within = omega (arith, size, sch.within);
      alone = λ i h ne.
          let away : (i == c) ≡ false = ne→not-== i c ne in
          ap is_running (state-set s.tasks c i _ sch.within ∙ rw away)
          ∙ sch.alone i (omega (arith, size)) ne;
    }

from_some : Scheduler → Option Scheduler → Scheduler
from_some s none = s
from_some s (some t) = t

yields-Yielded : (ra c : ℕ) (s t : Scheduler) → IsSchedule s c → yield ra s ≡ some t → Yielded s c t
unfolding from_some
yields-Yielded ra c s t sch e =
    let (t', e', done) = yield-Yielded ra c s sch in
    subst (Yielded s c) (ap (from_some s) (sym e' ∙ e)) done

exit-current :
    (ra c : ℕ) (s : Scheduler) → s.current_task ≡ some c → task_exit ra s ≡ yield ra (set_dead c s)
unfolding task_exit
exit-current ra c s e = ap (λ o. elim o [ none ↦ none | some i ↦ yield ra (set_dead i s) ]) e

-- Giving up is a `yield` of a scheduler whose other tasks are in the same states.
abbrev pub GaveUp : Scheduler → ℕ → Scheduler → Type 0
GaveUp s c t =
    (b : Scheduler) × IsSchedule b c
    × (length b.tasks ≡ length s.tasks)
    × ((i : ℕ) → i ≢ c → state_of b i ≡ state_of s i)
    × Yielded b c t

pub gave_up : (c : ℕ) (s t : Scheduler) → IsSchedule s c → GivesUp s t → GaveUp s c t
gave_up c s t sch (yields ra e) = (s, sch, refl, λ i ne. refl, yields-Yielded ra c s t sch e)
gave_up c s t sch (exits ra e) =
    let dead_c = set_dead-IsSchedule c s sch in
    (
      set_dead c s,
      dead_c,
      unfold set_dead in length-set s.tasks c _,
      λ i ne.
          let away : (i == c) ≡ false = ne→not-== i c ne in
          state-set_dead c i s sch.within ∙ rw away,
      yields-Yielded ra c (set_dead c s) t dead_c (sym (exit-current ra c s sch.current) ∙ e),
    )

gave_up-IsSchedule :
    (c : ℕ) (s t : Scheduler) → IsSchedule s c → GaveUp s c t → (d : ℕ) × IsSchedule t d
gave_up-IsSchedule c s t sch (b, sch_b, size, others, inl (e, idle)) =
    (c, subst (λ x. IsSchedule x c) (sym e) sch_b)
gave_up-IsSchedule c s t sch (b, sch_b, size, others, inr (k, d, over)) = (d, over.5)

pub works-IsSchedule :
    (c : ℕ) (s : Scheduler) (h : Heap) (cpu : Registers) (m : Mem)
    → IsSchedule s c
    → IsSchedule (record s { heap = h; cpu = cpu; memory = m }) c
works-IsSchedule c s h cpu m sch = record {
  current = sch.current;
  within = sch.within;
  alone = sch.alone;
}

-- Whatever the tasks do between the calls, after any sequence of `yield`, `task_exit` and `task_create`
-- from a scheduler where `current_task` is a task of the ring and no other task is marked as running,
-- that is so again.
pub Run-IsSchedule :
    {turns created : ℕ} {s u : Scheduler} (c : ℕ)
    → IsSchedule s c
    → Run turns created s u
    → (d : ℕ) × IsSchedule u d
Run-IsSchedule c sch stop = (c, sch)
Run-IsSchedule {s = s} c sch (works h cpu m r) =
    Run-IsSchedule c (works-IsSchedule c s h cpu m sch) r
Run-IsSchedule {s = s} c sch (gives_up {t = t} g r) =
    let (d, next) = gave_up-IsSchedule c s t sch (gave_up c s t sch g) in Run-IsSchedule d next r
Run-IsSchedule {s = s} c sch (creates {t = t} exit entry i e r) =
    Run-IsSchedule c (created-IsSchedule s t c sch (task_create-Created exit entry i s t e)) r
