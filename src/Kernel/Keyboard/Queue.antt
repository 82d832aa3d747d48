-- ===== src/Kernel/Keyboard/Queue.antt =====
-- The ring buffer of kernel/drivers/keyboard.c as a bounded queue, and the handler's effect on it.
use vector_forth_kernel.Base.{
  ℕ, zero, suc, ◌+◌, ◌-◌, ◌%◌, ◌<◌, ◌≡◌, inl, inr, refl, ap, ◌∙◌, true, false, Option, none, some,
  [], ◌∷◌, ◌++◌, arith, ◌==◌, ltb, if◌then◌else◌, Bool-cases, get_or, set, length, length-set,
  get_or-set_self, get_or-set_ne, Text,
}
use vector_forth_kernel.Kernel.Keyboard.{
  Keyboard, kbd_buffer_size, kbd_buffer_put, keyboard_getchar,
}

pub record IsQueue (k : Keyboard) : Type 0 where
  pub size : length k.buffer ≡ kbd_buffer_size
  pub head_within : k.head < kbd_buffer_size
  pub tail_within : k.tail < kbd_buffer_size

-- The `n` characters from index `i` on, around the end of the buffer.
unfoldable pub collect : (n : ℕ) → Text → ℕ → Text
collect zero buf i = []
collect (suc n) buf i = get_or buf i 0 ∷ collect n buf ((i + 1) % kbd_buffer_size)

abbrev pub pending : ℕ → ℕ → ℕ
pending head tail = (head + kbd_buffer_size - tail) % kbd_buffer_size

-- The characters that wait to be read, oldest first.
abbrev pub contents : Keyboard → Text
contents k = collect (pending k.head k.tail) k.buffer k.tail

pub length-collect : (n : ℕ) (buf : Text) (i : ℕ) → length (collect n buf i) ≡ n
unfolding collect
length-collect zero buf i = refl
length-collect (suc n) buf i = ap suc (length-collect n buf ((i + 1) % kbd_buffer_size))

-- A write at the index behind the last character adds the character.
collect-set :
    (n : ℕ) (buf : Text) (i j c : ℕ)
    → length buf ≡ kbd_buffer_size
    → i < kbd_buffer_size
    → n < kbd_buffer_size
    → j ≡ (i + n) % kbd_buffer_size
    → collect (suc n) (set buf j c) i ≡ collect n buf i ++ (c ∷ [])
unfolding collect
collect-set zero buf i j c size hi hn at =
    let here : j ≡ i = omega arith in rw (here, get_or-set_self buf i c 0 (omega arith))
collect-set (suc n) buf i j c size hi hn at =
    let next : j ≡ ((i + 1) % kbd_buffer_size + n) % kbd_buffer_size = omega arith in
    rw (
      get_or-set_ne buf j i c 0 (λ e. omega arith),
      collect-set n buf ((i + 1) % kbd_buffer_size) j c size (omega arith) (omega arith) next,
    )

-- The queue with a character put into it.
abbrev pub Added : Keyboard → ℕ → Keyboard → Type 0
Added k c t =
    IsQueue t
    × (contents t ≡ (
        if ltb (length (contents k)) (kbd_buffer_size - 1)
        then contents k ++ (c ∷ [])
        else contents k))

-- Putting a character keeps the ring buffer well formed and adds the character at the end of those that
-- wait, unless 255 wait already: then it is dropped.
pub kbd_buffer_put-Added : (c : ℕ) (k : Keyboard) → IsQueue k → Added k c (kbd_buffer_put c k)
unfolding kbd_buffer_put
kbd_buffer_put-Added c k q =
    let h = q.head_within in
    let t = q.tail_within in
    let waiting = length-collect (pending k.head k.tail) k.buffer k.tail in
    elim (Bool-cases ((k.head + 1) % kbd_buffer_size == k.tail)) [
      | inl e ↦
          let full : ltb (pending k.head k.tail) 255 ≡ false = ground (arith, e) in
          rw e (q, rw (waiting, full))
      | inr e ↦
          let room : ltb (pending k.head k.tail) 255 ≡ true = ground (arith, e) in
          let more : pending ((k.head + 1) % kbd_buffer_size) k.tail ≡ suc (pending k.head k.tail) =
            ground (arith, e) in
          rw e (
            record {
              size = length-set k.buffer k.head c ∙ q.size;
              head_within = omega arith;
              tail_within = t;
            },
            rw (waiting, room, more)
                (collect-set (pending k.head k.tail) k.buffer k.tail k.head c q.size t (omega arith)
                  (omega arith)),
          )
    ]

-- Reading: nothing while the queue is empty, otherwise its first character.
abbrev pub Taken : Text → Option (ℕ × Keyboard) → Type 0
Taken [] r = r ≡ none
Taken (c ∷ cs) r = (t : Keyboard) × (r ≡ some (c, t)) × IsQueue t × (contents t ≡ cs)

taken :
    (n : ℕ) (k : Keyboard)
    → IsQueue k
    → pending k.head k.tail ≡ n
    → Taken (collect n k.buffer k.tail) (keyboard_getchar k)
unfolding collect keyboard_getchar
taken zero k q e =
    let h = q.head_within in
    let t = q.tail_within in let empty : (k.head == k.tail) ≡ true = ground (arith, e) in rw empty
taken (suc n) k q e =
    let h = q.head_within in
    let t = q.tail_within in
    let waits : (k.head == k.tail) ≡ false = ground (arith, e) in
    let fewer : pending k.head ((k.tail + 1) % kbd_buffer_size) ≡ n = omega (arith, e) in
    rw waits (
      record k { tail = (k.tail + 1) % kbd_buffer_size },
      refl,
      record { size = q.size; head_within = h; tail_within = omega arith },
      rw fewer,
    )

-- On a well-formed ring buffer `keyboard_getchar` waits exactly while no character does, and else
-- takes the first character that waits and leaves the others, in a well-formed buffer.
pub keyboard_getchar-Taken : (k : Keyboard) → IsQueue k → Taken (contents k) (keyboard_getchar k)
keyboard_getchar-Taken k q = taken (pending k.head k.tail) k q refl
