-- ===== src/Kernel/Tasks/Ring.antt =====
-- The ring of tasks: places counted from the current task, and the loop of `yield` over them.
use mathlib.Core.Path.{subst}
use vector_forth_kernel.Base.{
  ℕ, zero, suc, ◌+◌, ◌-◌, ◌≤◌, ◌<◌, ◌≡◌, inl, inr, sym, ◌∙◌, Bool, true, false, ◌||◌, Option, some,
  List, arith, ◌==◌, leb, if◌then◌else◌, length, ==→eq, Bool-cases,
}
use vector_forth_kernel.Kernel.Tasks.{Task, task_at, is_running, is_ready, next_of, next_loop}

-- The task `k` places behind task `c` in a ring of `n`, for `k` up to `n`.
abbrev pub place : (n c k : ℕ) → ℕ
place n c k = if leb n (c + k) then c + k - n else c + k

-- Where the loop stops.
abbrev pub stops : List Task → (c i : ℕ) → Bool
stops ts c i = is_ready (task_at ts i).state || is_running (task_at ts i).state || i == c

loop_step :
    (fuel : ℕ) (ts : List Task) (c i : ℕ)
    → next_loop (suc fuel) ts c i
      ≡ (if stops ts c i then some i else next_loop fuel ts c (next_of ts i))
unfolding next_loop
loop_step fuel ts c i = ground arith

next_place :
    (ts : List Task) (c d : ℕ)
    → c < length ts
    → d < length ts
    → next_of ts (place (length ts) c d) ≡ place (length ts) c (d + 1)
next_place ts c d hc hd = ground arith

-- From `d` places behind the current task the loop ends at the first place where it stops.
abbrev pub Stopped : List Task → (c d : ℕ) → Option ℕ → Type 0
Stopped ts c d r =
    (k : ℕ) × (d ≤ k)
    × (k ≤ length ts)
    × (r ≡ some (place (length ts) c k))
    × (stops ts c (place (length ts) c k) ≡ true)
    × ((j : ℕ) → d ≤ j → j < k → stops ts c (place (length ts) c j) ≡ false)

from_here :
    (ts : List Task) (c d j : ℕ)
    → stops ts c (place (length ts) c d) ≡ false
    → (d + 1 ≤ j → stops ts c (place (length ts) c j) ≡ false)
    → d ≤ j
    → stops ts c (place (length ts) c j) ≡ false
from_here ts c d j here behind h = elim (Bool-cases (d == j)) [
  | inl e ↦ subst (λ j. stops ts c (place (length ts) c j) ≡ false) (==→eq d j e) here
  | inr e ↦ behind (ground (arith, e))
]

stops_self : (ts : List Task) (c i : ℕ) → i ≡ c → stops ts c i ≡ true
stops_self ts c i e = let same : (i == c) ≡ true = ground (arith, e) in rw same (ground arith)

-- Once round the ring the loop stops at the current task.
not_round :
    (ts : List Task) (c d : ℕ)
    → c < length ts
    → d ≤ length ts
    → stops ts c (place (length ts) c d) ≡ false
    → d < length ts
not_round ts c d hc hd on = elim (Bool-cases (d == length ts)) [
  | inr e ↦ ground (arith, e)
  | inl e ↦
      let home : place (length ts) c d ≡ c = ground (arith, e) in
      let clash : true ≡ false = sym (stops_self ts c (place (length ts) c d) home) ∙ on in
      absurd cc
]

pub loop-Stopped :
    (fuel : ℕ) (ts : List Task) (c d : ℕ)
    → c < length ts
    → d ≤ length ts
    → d + fuel ≡ length ts + 1
    → Stopped ts c d (next_loop fuel ts c (place (length ts) c d))
loop-Stopped zero ts c d hc hd e = absurd (omega arith)
loop-Stopped (suc fuel) ts c d hc hd e =
    let step = loop_step fuel ts c (place (length ts) c d) in
    elim (Bool-cases (stops ts c (place (length ts) c d))) [
      | inl stop ↦ (d, omega arith, hd, step ∙ rw stop, stop, λ j lo hi. absurd (omega arith))
      | inr on ↦
          let within : d < length ts = not_round ts c d hc hd on in
          let (k, lo, hi, r, stop, others) =
            loop-Stopped fuel ts c (d + 1) hc (omega arith) (omega arith) in
          (
            k,
            omega arith,
            hi,
            step ∙ rw (on, next_place ts c d hc within) r,
            stop,
            λ j l h. from_here ts c d j on (λ l'. others j l' h) l,
          )
    ]

-- Each task but the current one is some places behind it.
abbrev pub distance : (n c j : ℕ) → ℕ
distance n c j = if leb j c then j + n - c else j - c

pub place-distance : (n c j : ℕ) → c < n → j < n → place n c (distance n c j) ≡ j
place-distance n c j hc hj = ground arith
