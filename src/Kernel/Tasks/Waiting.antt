-- ===== src/Kernel/Tasks/Waiting.antt =====
-- How long a ready task waits.
use mathlib.Core.Path.{subst}
use vector_forth_kernel.Base.{
  ℕ, ◌+◌, ◌≤◌, ◌<◌, ◌≡◌, ◌≢◌, ◌⊎◌, inl, inr, sym, ap, ◌∙◌, true, false, some, arith, ◌==◌, leb,
  length, ==→eq, ne→not-==, not-==→ne, Bool-cases,
}
use vector_forth_kernel.Kernel.Tasks.{TaskState, Scheduler, is_ready}
use vector_forth_kernel.Kernel.Tasks.Ring.{distance, place, place-distance}
use vector_forth_kernel.Kernel.Tasks.Handover.{IsSchedule, state_of, TakesOver}
use vector_forth_kernel.Kernel.Tasks.Create.{task_create-Created, created-IsSchedule, Created-state}
use vector_forth_kernel.Kernel.Tasks.Steps.{
  Run, stop, works, gives_up, creates, GaveUp, gave_up, works-IsSchedule,
}

-- Task `j` is the current one at some point of the sequence.
unfoldable pub Reaches : {turns created : ℕ} {s u : Scheduler} → ℕ → Run turns created s u → Type 0
Reaches {s = s} j stop = s.current_task ≡ some j
Reaches {s = s} j (works h cpu m r) = (s.current_task ≡ some j) ⊎ Reaches j r
Reaches {s = s} j (gives_up g r) = (s.current_task ≡ some j) ⊎ Reaches j r
Reaches {s = s} j (creates exit entry i e r) = (s.current_task ≡ some j) ⊎ Reaches j r

-- A ready task that waits: when another gives the processor up, the task takes over, or is ready still
-- and nearer to its turn.
Nearer : (n c j : ℕ) → Scheduler → Type 0
Nearer n c j t =
    (d : ℕ) × IsSchedule t d
    × (length t.tasks ≡ n)
    × ((d ≡ j) ⊎ ((d ≢ j) × (state_of t j ≡ TaskState.ready) × (distance n d j < distance n c j)))

nearer :
    (n c j k : ℕ)
    → c < n
    → j < n
    → j ≢ c
    → 0 < k
    → k < distance n c j
    → distance n (place n c k) j < distance n c j
nearer n c j k hc hj ne lo hi = ground arith

-- A turn does not go past a task that is ready.
not_past :
    (n c j k : ℕ) (s : Scheduler)
    → c < n
    → j < n
    → j ≢ c
    → state_of s j ≡ TaskState.ready
    → place n c k ≢ j
    → ((i : ℕ) → 0 < i → i < k → is_ready (state_of s (place n c i)) ≡ false)
    → k < distance n c j
not_past n c j k s hc hj ne rdy away before =
    let there : place n c (distance n c j) ≡ j = place-distance n c j hc hj in
    elim (Bool-cases (leb k (distance n c j))) [
      | inl e ↦ elim (Bool-cases (k == distance n c j)) [
        | inl at_j ↦ absurd (away (ap (place n c) (==→eq k (distance n c j) at_j) ∙ there))
        | inr ne_j ↦ ground (arith, e, ne_j)
      ]
      | inr e ↦
          let past : distance n c j < k = ground (arith, e) in
          let ahead : 0 < distance n c j = ground arith in
          let clash : true ≡ false =
            sym (ap is_ready (ap (state_of s) there ∙ rdy)) ∙ before (distance n c j) ahead past in
          absurd cc
    ]

taken_over-Nearer :
    (c j k d : ℕ) (s t : Scheduler)
    → IsSchedule s c
    → j < length s.tasks
    → j ≢ c
    → state_of s j ≡ TaskState.ready
    → TakesOver s c k d t
    → Nearer (length s.tasks) c j t
unfolding Nearer
taken_over-Nearer c j k d s t sch hj ne rdy (lo, hi, at_d, rdy_d, before, sch_t, size, states) =
    let hc = sch.within in
    elim (Bool-cases (d == j)) [
      | inl e ↦ (d, sch_t, size, inl (==→eq d j e))
      | inr e ↦
          let away = not-==→ne d j e in
          (
            d,
            sch_t,
            size,
            inr (
              away,
              states j hj
                  ∙ (let j_d : (j == d) ≡ false = ground (arith, e) in
                      let j_c : (j == c) ≡ false = ne→not-== j c ne in rw (j_d, j_c) rdy),
              subst (λ x. distance (length s.tasks) x j < distance (length s.tasks) c j) (sym at_d)
                  (nearer (length s.tasks) c j k hc hj ne lo
                    (not_past (length s.tasks) c j k s hc hj ne rdy (λ x. away (at_d ∙ x)) before)),
            ),
          )
    ]

GaveUp-Nearer :
    (c j : ℕ) (s t : Scheduler)
    → j < length s.tasks
    → j ≢ c
    → state_of s j ≡ TaskState.ready
    → GaveUp s c t
    → Nearer (length s.tasks) c j t
GaveUp-Nearer c j s t hj ne rdy (b, sch, size, others, inl (e, idle)) =
    let clash : true ≡ false =
      sym (ap is_ready (others j ne ∙ rdy)) ∙ idle j (omega (arith, size)) ne in
    absurd cc
GaveUp-Nearer c j s t hj ne rdy (b, sch, size, others, inr (k, d, over)) =
    subst (λ n. Nearer n c j t) size
      (taken_over-Nearer c j k d b t sch (omega (arith, size)) ne (others j ne ∙ rdy) over)

-- A sequence that starts where task `j` is the current one.
starts_there :
    {turns created : ℕ} {s u : Scheduler} (j : ℕ) (r : Run turns created s u)
    → s.current_task ≡ some j
    → Reaches j r
unfolding Reaches
starts_there j stop e = e
starts_there j (works h cpu m r) e = inl e
starts_there j (gives_up g r) e = inl e
starts_there j (creates exit entry i made r) e = inl e

-- One more task in the ring.
farther : (n c j : ℕ) → c < n → j < n → distance (n + 1) c j ≤ distance n c j + 1
farther n c j hc hj = ground arith

waits :
    {turns created : ℕ} {s u : Scheduler} (c j : ℕ) (r : Run turns created s u)
    → IsSchedule s c
    → j < length s.tasks
    → j ≢ c
    → state_of s j ≡ TaskState.ready
    → distance (length s.tasks) c j + created ≤ turns
    → Reaches j r
unfolding Reaches Nearer
waits {s = s} c j stop sch hj ne rdy le =
    let hc = sch.within in
    let ahead : 0 < distance (length s.tasks) c j = ground arith in absurd (omega arith)
waits {s = s} c j (works h cpu m r) sch hj ne rdy le =
    inr (waits c j r (works-IsSchedule c s h cpu m sch) hj ne rdy le)
waits {s = s} c j (creates {t = t} exit entry i e r) sch hj ne rdy le =
    let made = task_create-Created exit entry i s t e in
    let (more, old, new) = Created-state s t j made in
    let size : length s.tasks + 1 ≡ length t.tasks = sym more in
    let far : distance (length t.tasks) c j ≤ distance (length s.tasks) c j + 1 =
      subst (λ n. distance n c j ≤ distance (length s.tasks) c j + 1) size
        (farther (length s.tasks) c j sch.within hj) in
    inr (
      waits c j r (created-IsSchedule s t c sch made) (omega arith) ne (old hj ∙ rdy) (omega arith))
waits {s = s} c j (gives_up {t = t} g r) sch hj ne rdy le =
    let (d, sch_t, size, next) = GaveUp-Nearer c j s t hj ne rdy (gave_up c s t sch g) in
    elim next [
      | inl e ↦ inr (starts_there j r (sch_t.current ∙ ap some e))
      | inr (away, rdy', less) ↦
          let less' : distance (length t.tasks) d j < distance (length s.tasks) c j =
            subst (λ n. distance n d j < distance (length s.tasks) c j) (sym size) less in
          inr (waits d j r sch_t (omega arith) (λ e. away (sym e)) rdy' (omega arith))
    ]

-- A ready task does not starve: in a scheduler where `current_task` is task `c` and no other is marked as
-- running, a task that is ready becomes the current one in every sequence in which `yield` or
-- `task_exit` is called at least as often as the task is places behind `c` in the ring, plus once for
-- each call of `task_create` in the sequence, whatever the tasks do between the calls.
pub Run-Reaches :
    {turns created : ℕ} {s u : Scheduler} (c j : ℕ) (r : Run turns created s u)
    → IsSchedule s c
    → j < length s.tasks
    → state_of s j ≡ TaskState.ready
    → distance (length s.tasks) c j + created ≤ turns
    → Reaches j r
Run-Reaches {s = s} c j r sch hj rdy le = elim (Bool-cases (j == c)) [
  | inl e ↦ starts_there j r (sch.current ∙ ap some (sym (==→eq j c e)))
  | inr e ↦ waits c j r sch hj (not-==→ne j c e) rdy le
]
