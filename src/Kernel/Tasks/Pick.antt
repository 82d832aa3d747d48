-- ===== src/Kernel/Tasks/Pick.antt =====
-- Which task `yield` hands the processor to.
use vector_forth_kernel.Base.{
  ℕ, ◌<◌, ◌≡◌, ◌≢◌, inl, inr, refl, sym, ap, ◌∙◌, false, some, arith, ◌==◌, length, ne→not-==,
  Bool-cases,
}
use vector_forth_kernel.Kernel.Tasks.{Scheduler, is_ready, next_of, next_loop, yield}
use vector_forth_kernel.Kernel.Tasks.Ring.{place, distance, place-distance, stops, loop-Stopped}
use vector_forth_kernel.Kernel.Tasks.Handover.{
  IsSchedule, state_of, Yielded, switched, yield-current, from-stays, from-switches, state-switched,
  length-switched, switched-IsSchedule,
}

-- The loop ends at another task only if that is ready.
stops_ready :
    (s : Scheduler) (c i : ℕ)
    → IsSchedule s c
    → i < length s.tasks
    → i ≢ c
    → stops s.tasks c i ≡ is_ready (state_of s i)
stops_ready s c i sch h ne =
    let away : (i == c) ≡ false = ne→not-== i c ne in
    let idle = sch.alone i h ne in rw (away, idle) (ground arith)

-- A place short of a whole round is another task.
other_place : (n c j : ℕ) → c < n → 0 < j → j < n → (place n c j < n) × (place n c j ≢ c)
other_place n c j hc lo hi = (ground arith, λ e. ground arith)

stops→ready :
    (s : Scheduler) (c k : ℕ)
    → IsSchedule s c
    → 0 < k
    → k < length s.tasks
    → stops s.tasks c (place (length s.tasks) c k)
      ≡ is_ready (state_of s (place (length s.tasks) c k))
stops→ready s c k sch lo hi =
    let (h, ne) = other_place (length s.tasks) c k sch.within lo hi in
    stops_ready s c (place (length s.tasks) c k) sch h ne

-- If the loop stops at no other place of the ring, no other task is ready.
quiet :
    (s : Scheduler) (c i : ℕ)
    → IsSchedule s c
    → i < length s.tasks
    → i ≢ c
    → ((j : ℕ) → 0 < j → j < length s.tasks → stops s.tasks c (place (length s.tasks) c j) ≡ false)
    → is_ready (state_of s i) ≡ false
quiet s c i sch h ne none_stops =
    let hc = sch.within in
    let j = distance (length s.tasks) c i in
    let lo : 0 < j = ground arith in
    let hi : j < length s.tasks = ground arith in
    let there : place (length s.tasks) c j ≡ i = place-distance (length s.tasks) c i hc h in
    sym (stops_ready s c i sch h ne) ∙ ap (stops s.tasks c) (sym there) ∙ none_stops j lo hi

-- `yield` in a scheduler where `current_task` is task `c` and no other task is marked as running
-- returns: if no other task is ready nothing changes, and otherwise the ready task that comes next in
-- the ring takes over, the one that ran becomes ready, or stays dead, and the state of no other task
-- changes; afterwards `current_task` is the task that took over, and no other is marked as running.
pub yield-Yielded :
    (ra c : ℕ) (s : Scheduler)
    → IsSchedule s c
    → (t : Scheduler) × (yield ra s ≡ some t) × Yielded s c t
yield-Yielded ra c s sch =
    let hc = sch.within in
    let n = length s.tasks in
    let start : place n c 1 ≡ next_of s.tasks c = ground arith in
    let (k, lo, hi, found, stop, others) =
      loop-Stopped n s.tasks c 1 hc (omega arith) (omega arith) in
    let d = place n c k in
    let found' : next_loop n s.tasks c (next_of s.tasks c) ≡ some d =
      ap (next_loop n s.tasks c) (sym start) ∙ found in
    elim (Bool-cases (k == n)) [
      | inl e ↦
          let home : d ≡ c = ground (arith, e) in
          (
            s,
            yield-current ra c s sch.current ∙ from-stays ra c d s found' home,
            inl (refl, λ i h ne. quiet s c i sch h ne (λ j l h'. others j l (ground (arith, e)))),
          )
      | inr e ↦
          let within : k < n = ground (arith, e) in
          let (hd, ne) = other_place n c k hc lo within in
          (
            switched ra c d s,
            yield-current ra c s sch.current ∙ from-switches ra c d s found' ne,
            inr (
              k,
              d,
              (
                lo,
                within,
                refl,
                sym (stops→ready s c k sch lo within) ∙ stop,
                λ j l h. sym (stops→ready s c j sch l (omega arith)) ∙ others j l h,
                switched-IsSchedule ra c d s sch hd,
                length-switched ra c d s,
                λ i h. state-switched ra c d i s hc hd,
              ),
            ),
          )
    ]
