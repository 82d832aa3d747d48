-- ===== src/Kernel/Tasks/Switch.antt =====
-- The context switch: a task goes on where it stopped, and a new one starts at its entry.
use mathlib.Core.Path.{subst}
use vector_forth_kernel.Base.{
  ℕ, zero, suc, ◌+◌, ◌-◌, ◌*◌, ◌≤◌, ◌<◌, ◌≡◌, ◌⊎◌, inl, inr, refl, ap, ◌∙◌, List, [], ◌∷◌, arith,
  get_or, length, get_or-set_self,
}
use vector_forth_kernel.Base.Word.{two64, add64, sub64}
use vector_forth_kernel.Base.Memory.{Mem, load64, store64, load64-store64_self, load64-store64_out}
use vector_forth_kernel.Kernel.Tasks.{
  Registers, Scheduler, task_at, no_task, push_list, save_context, load_context, switch_context,
}

push_step :
    (v : ℕ) (vs : List ℕ) (rsp : ℕ) (m : Mem)
    → 8 ≤ rsp
    → rsp < two64
    → push_list (v ∷ vs) rsp m ≡ push_list vs (rsp - 8) (store64 m (rsp - 8) v)
unfolding push_list
push_step v vs rsp m room h =
    let down : sub64 rsp 8 ≡ rsp - 8 = omega arith in ap (λ a. push_list vs a (store64 m a v)) down

-- The stack pointer after pushes.
pub pushed-sub :
    (vs : List ℕ) (rsp : ℕ) (m : Mem)
    → 8 * length vs ≤ rsp
    → rsp < two64
    → (push_list vs rsp m).0 ≡ rsp - 8 * length vs
unfolding push_list
pushed-sub [] rsp m room h = omega arith
pushed-sub (v ∷ vs) rsp m room h =
    ap (λ p. p.0) (push_step v vs rsp m (omega arith) h)
    ∙ pushed-sub vs (rsp - 8) (store64 m (rsp - 8) v) (omega arith) (omega arith)
    ∙ omega arith

-- Pushes change no cell above the stack pointer or below the last one pushed.
pub load64-push_list_out :
    (vs : List ℕ) (rsp : ℕ) (m : Mem) (x : ℕ)
    → 8 * length vs ≤ rsp
    → rsp < two64
    → (x + 8 ≤ rsp - 8 * length vs) ⊎ (rsp ≤ x)
    → load64 (push_list vs rsp m).1 x ≡ load64 m x
unfolding push_list
load64-push_list_out [] rsp m x room h out = refl
load64-push_list_out (v ∷ vs) rsp m x room h out =
    ap (λ p. load64 p.1 x) (push_step v vs rsp m (omega arith) h)
    ∙ (load64-push_list_out vs (rsp - 8) (store64 m (rsp - 8) v) x (omega arith) (omega arith)
          (elim out [ inl lo ↦ inl (omega arith) | inr hi ↦ inr (omega arith) ])
        ∙ load64-store64_out m (rsp - 8) v x
            (elim out [ inl lo ↦ inl (omega arith) | inr hi ↦ inr (omega arith) ]))

-- The cells that were pushed.
pub load64-push_list :
    (vs : List ℕ) (rsp : ℕ) (m : Mem) (i : ℕ)
    → 8 * length vs ≤ rsp
    → rsp < two64
    → i < length vs
    → get_or vs i 0 < two64
    → load64 (push_list vs rsp m).1 (rsp - 8 * (i + 1)) ≡ get_or vs i 0
unfolding push_list
load64-push_list [] rsp m i room h hi word = absurd (omega arith)
load64-push_list (v ∷ vs) rsp m zero room h hi word =
    ap (λ p. load64 p.1 (rsp - 8 * (0 + 1))) (push_step v vs rsp m (omega arith) h)
    ∙ (load64-push_list_out vs (rsp - 8) (store64 m (rsp - 8) v) (rsp - 8 * (0 + 1)) (omega arith)
          (omega arith) (inr (omega arith))
        ∙ (let here : rsp - 8 * (0 + 1) ≡ rsp - 8 = omega arith in
            ap (load64 (store64 m (rsp - 8) v)) here ∙ load64-store64_self m (rsp - 8) v word))
load64-push_list (v ∷ vs) rsp m (suc i) room h hi word =
    let at : rsp - 8 * (suc i + 1) ≡ rsp - 8 - 8 * (i + 1) = omega arith in
    ap (λ p. load64 p.1 (rsp - 8 * (suc i + 1))) (push_step v vs rsp m (omega arith) h)
    ∙ ap (load64 (push_list vs (rsp - 8) (store64 m (rsp - 8) v)).1) at
    ∙ (load64-push_list vs (rsp - 8) (store64 m (rsp - 8) v) i (omega arith) (omega arith)
        (omega arith) word)

-- Registers that hold 64-bit words, with room for a saved context below the stack pointer.
pub record IsContext (cpu : Registers) : Type 0 where
  pub rflags_word : cpu.rflags < two64
  pub rbp_word : cpu.rbp < two64
  pub rbx_word : cpu.rbx < two64
  pub r12_word : cpu.r12 < two64
  pub r13_word : cpu.r13 < two64
  pub r14_word : cpu.r14 < two64
  pub r15_word : cpu.r15 < two64
  pub rsp_word : cpu.rsp < two64
  pub room : 64 ≤ cpu.rsp

-- What `load_context` reads.
pub loaded_context :
    (base : ℕ) (m : Mem) (cpu : Registers)
    → base + 64 < two64
    → load64 m base ≡ cpu.r15
    → load64 m (base + 8) ≡ cpu.r14
    → load64 m (base + 16) ≡ cpu.r13
    → load64 m (base + 24) ≡ cpu.r12
    → load64 m (base + 32) ≡ cpu.rbx
    → load64 m (base + 40) ≡ cpu.rbp
    → load64 m (base + 48) ≡ cpu.rflags
    → load64 m (base + 56) ≡ cpu.rip
    → base + 64 ≡ cpu.rsp
    → load_context base m ≡ cpu
unfolding load_context
loaded_context base m cpu h e0 e1 e2 e3 e4 e5 e6 e7 e8 =
    let a1 : add64 base 8 ≡ base + 8 = omega arith in
    let a2 : add64 base 16 ≡ base + 16 = omega arith in
    let a3 : add64 base 24 ≡ base + 24 = omega arith in
    let a4 : add64 base 32 ≡ base + 32 = omega arith in
    let a5 : add64 base 40 ≡ base + 40 = omega arith in
    let a6 : add64 base 48 ≡ base + 48 = omega arith in
    let a7 : add64 base 56 ≡ base + 56 = omega arith in
    let a8 : add64 base 64 ≡ base + 64 = omega arith in
    λ i. record {
      rflags = (ap (load64 m) a6 ∙ e6) i;
      rbp = (ap (load64 m) a5 ∙ e5) i;
      rbx = (ap (load64 m) a4 ∙ e4) i;
      r12 = (ap (load64 m) a3 ∙ e3) i;
      r13 = (ap (load64 m) a2 ∙ e2) i;
      r14 = (ap (load64 m) a1 ∙ e1) i;
      r15 = e0 i;
      rsp = (a8 ∙ e8) i;
      rip = (ap (load64 m) a7 ∙ e7) i;
    }

abbrev frame : ℕ → Registers → List ℕ
frame return_address cpu =
    return_address ∷ cpu.rflags ∷ cpu.rbp ∷ cpu.rbx ∷ cpu.r12 ∷ cpu.r13 ∷ cpu.r14 ∷ cpu.r15 ∷ []

-- Memory that still holds eight cells from an address on.
abbrev pub SameCells : ℕ → ℕ → Mem → Mem → Type 0
SameCells n base m m' = (i : ℕ) → i < n → load64 m' (base + 8 * i) ≡ load64 m (base + 8 * i)

-- A saved context is loaded again.
load-save_context :
    (ra : ℕ) (cpu : Registers) (m m' : Mem)
    → IsContext cpu
    → ra < two64
    → SameCells 8 (cpu.rsp - 64) (save_context ra cpu m).1 m'
    → load_context (cpu.rsp - 64) m' ≡ record cpu { rip = ra }
unfolding save_context
load-save_context ra cpu m m' c word same =
    let h = c.rsp_word in
    let room = c.room in
    let cell : (i j : ℕ)
        → i + j ≡ 7
        → get_or (frame ra cpu) j 0 < two64
        → load64 m' (cpu.rsp - 64 + 8 * i) ≡ get_or (frame ra cpu) j 0 =
      λ i j e w.
        let at : cpu.rsp - 64 + 8 * i ≡ cpu.rsp - 8 * (j + 1) = omega arith in
        same i (omega arith)
        ∙ ap (load64 (push_list (frame ra cpu) cpu.rsp m).1) at
        ∙ load64-push_list (frame ra cpu) cpu.rsp m j room h (omega arith) w in
    let z : cpu.rsp - 64 ≡ cpu.rsp - 64 + 8 * 0 = omega arith in
    loaded_context (cpu.rsp - 64) m' (record cpu { rip = ra }) (omega arith)
      (ap (load64 m') z ∙ cell 0 7 refl c.r15_word) (cell 1 6 refl c.r14_word)
      (cell 2 5 refl c.r13_word) (cell 3 4 refl c.r12_word) (cell 4 3 refl c.rbx_word)
      (cell 5 2 refl c.rbp_word) (cell 6 1 refl c.rflags_word) (cell 7 0 refl word) (omega arith)

-- The stack pointer that the switch saves.
saved_rsp :
    (ra old new : ℕ) (s : Scheduler)
    → IsContext s.cpu
    → old < length s.tasks
    → (task_at (switch_context ra old new s).tasks old).rsp ≡ s.cpu.rsp - 64
unfolding switch_context save_context
saved_rsp ra old new s c h =
    ap (λ x. x.rsp) (get_or-set_self s.tasks old _ no_task h)
    ∙ pushed-sub (frame ra s.cpu) s.cpu.rsp s.memory c.room c.rsp_word

-- The 64 bytes below the stack pointer `rsp` do not overlap the `n` bytes from `saved` on.
abbrev pub Clear : (n rsp saved : ℕ) → Type 0
Clear n rsp saved = (rsp ≤ saved) ⊎ (saved + n ≤ rsp - 64)

-- Saving one context leaves the cells of another stack alone.
pub same-save_context :
    (n ra saved : ℕ) (cpu : Registers) (m m' : Mem)
    → IsContext cpu
    → Clear (8 * n) cpu.rsp saved
    → SameCells n saved m m'
    → SameCells n saved m (save_context ra cpu m').1
unfolding save_context
same-save_context n ra saved cpu m m' c apart same i h =
    load64-push_list_out (frame ra cpu) cpu.rsp m' (saved + 8 * i) c.room c.rsp_word
      (elim apart [ inl lo ↦ inr (omega arith) | inr hi ↦ inl (omega arith) ])
    ∙ same i h

resumed :
    (ra ra' saved : ℕ) (cpu cpu' : Registers) (m m' : Mem)
    → IsContext cpu
    → IsContext cpu'
    → ra < two64
    → saved ≡ cpu.rsp - 64
    → SameCells 8 saved (save_context ra cpu m).1 m'
    → Clear 64 cpu'.rsp saved
    → load_context saved (save_context ra' cpu' m').1 ≡ record cpu { rip = ra }
resumed ra ra' saved cpu cpu' m m' c c' word e same apart =
    let kept = same-save_context 8 ra' saved cpu' (save_context ra cpu m).1 m' c' apart same in
    ap (λ x. load_context x (save_context ra' cpu' m').1) e
    ∙ load-save_context ra cpu m (save_context ra' cpu' m').1 c word
        (subst (λ x. SameCells 8 x (save_context ra cpu m).1 (save_context ra' cpu' m').1) e kept)

-- A task that `switch_context` took the processor from, with 64-bit words in its registers and 64 bytes
-- of room on its stack, goes on when another task switches to the stack pointer that was saved for it:
-- if the cells of its saved context still hold what the switch left there, and the other task's stack is
-- apart from them, the flags, RBP, RBX, R12 to R15 and the stack pointer are as they were at its own
-- call, and the processor is at that call's return address.
pub switch_context-resumes :
    (ra ra' old new other : ℕ) (s v : Scheduler)
    → IsContext s.cpu
    → IsContext v.cpu
    → ra < two64
    → old < length s.tasks
    → let t = switch_context ra old new s in
      let saved = (task_at t.tasks old).rsp in
      SameCells 8 saved t.memory v.memory
      → Clear 64 v.cpu.rsp saved
      → (switch_context ra' other saved v).cpu ≡ record s.cpu { rip = ra }
unfolding switch_context
switch_context-resumes ra ra' old new other s v c cv word h =
    resumed ra ra' (task_at (switch_context ra old new s).tasks old).rsp s.cpu v.cpu s.memory
      v.memory c cv word (saved_rsp ra old new s c h)
