-- ===== src/Kernel/Keyboard/Keys.antt =====
-- The interrupt handler of kernel/drivers/keyboard.c: the modifier keys and the typed characters.
use Prim.Native.Nat.{bit_and}
use vector_forth_kernel.Base.{
  ℕ, ◌+◌, ◌%◌, ◌<◌, ◌≡◌, ◌⊎◌, inl, inr, refl, ◌∙◌, Bool, true, false, not, ◌||◌, arith, ◌==◌, ltb,
  leb, if◌then◌else◌, Bool-cases, get_or, length, [], ap,
}
use vector_forth_kernel.Base.Bytes.{bit_seven, low_seven}
use vector_forth_kernel.Kernel.Keyboard.{
  Keyboard, kbd_buffer_size, kbd_buffer_put, keyboard_handler_c, key_pressed, key_released,
  type_key, is_shift, apply_caps, apply_ctrl, scancode_to_ascii, scancode_to_ascii_shift,
}
use vector_forth_kernel.Kernel.Keyboard.Queue.{IsQueue, contents, Added, kbd_buffer_put-Added}

-- What a key does to a modifier that is held while the key with the code `p` (or `p'`) is down.
abbrev pub held : (p p' scancode : ℕ) → Bool → Bool
held p p' scancode before =
    if scancode == p || scancode == p'
    then true
    else if scancode == p + 128 || scancode == p' + 128
    then false
    else before

-- The modifiers after a key.
pub record Modifiers (scancode : ℕ) (k t : Keyboard) : Type 0 where
  pub shift : t.shift_pressed ≡ held 0x2a 0x36 scancode k.shift_pressed
  pub ctrl : t.ctrl_pressed ≡ held 0x1d 0x1d scancode k.ctrl_pressed
  pub alt : t.alt_pressed ≡ held 0x38 0x38 scancode k.alt_pressed
  pub caps : t.caps_lock ≡ (if scancode == 0x3a then not k.caps_lock else k.caps_lock)

-- What a key types: nothing, or one character at the end of those that wait.
abbrev pub Types : Keyboard → Keyboard → Type 0
Types k t = (IsQueue t × (contents t ≡ contents k)) ⊎ ((c : ℕ) × Added k c t)

-- All but the ring buffer.
abbrev modifiers : Keyboard → Keyboard
modifiers k = record k { buffer = []; head = 0 }

kbd_buffer_put-modifiers : (c : ℕ) (k : Keyboard) → modifiers (kbd_buffer_put c k) ≡ modifiers k
unfolding kbd_buffer_put
kbd_buffer_put-modifiers c k = elim (Bool-cases ((k.head + 1) % kbd_buffer_size == k.tail)) [
  | inl e ↦ rw e
  | inr e ↦ rw e
]

type_key-modifiers : (scancode : ℕ) (k : Keyboard) → modifiers (type_key scancode k) ≡ modifiers k
unfolding type_key
type_key-modifiers scancode k =
    let table = if k.shift_pressed then scancode_to_ascii_shift else scancode_to_ascii in
    let c = apply_caps k (get_or table scancode 0) in
    elim (Bool-cases (c == 0)) [
      | inl e ↦ rw e
      | inr e ↦ rw e (kbd_buffer_put-modifiers (apply_ctrl k c) k)
    ]

type_key-Types : (scancode : ℕ) (k : Keyboard) → IsQueue k → Types k (type_key scancode k)
unfolding type_key
type_key-Types scancode k q =
    let table = if k.shift_pressed then scancode_to_ascii_shift else scancode_to_ascii in
    let c = apply_caps k (get_or table scancode 0) in
    elim (Bool-cases (c == 0)) [
      | inl e ↦ rw e (inl (q, refl))
      | inr e ↦ rw e (inr (apply_ctrl k c, kbd_buffer_put-Added (apply_ctrl k c) k q))
    ]

abbrev pub Reacts : ℕ → Keyboard → Keyboard → Type 0
Reacts scancode k t = Modifiers scancode k t × Types k t

-- The key is none of the modifiers, and leaves them as they are.
no_modifier :
    (scancode : ℕ) (k t : Keyboard)
    → modifiers t ≡ modifiers k
    → scancode < 128
    → is_shift scancode ≡ false
    → (scancode == 0x1d) ≡ false
    → (scancode == 0x38) ≡ false
    → (scancode == 0x3a) ≡ false
    → Modifiers scancode k t
no_modifier scancode k t same h a b c d = record {
  shift = ap (λ x. x.shift_pressed) same ∙ ground (arith, a);
  ctrl = ap (λ x. x.ctrl_pressed) same ∙ ground (arith, b);
  alt = ap (λ x. x.alt_pressed) same ∙ ground (arith, c);
  caps = ap (λ x. x.caps_lock) same ∙ rw d;
}

retype :
    {k : Keyboard}
    → IsQueue k
    → {t : Keyboard} → t.buffer ≡ k.buffer
    → t.head ≡ k.head
    → t.tail ≡ k.tail
    → Types k t
retype q b h t = inl (
  record { size = rw b q.size; head_within = rw h q.head_within; tail_within = rw t q.tail_within },
  rw (b, h, t),
)

key_pressed-Reacts :
    (scancode : ℕ) (k : Keyboard)
    → IsQueue k
    → scancode < 128
    → Reacts scancode k (key_pressed scancode k)
unfolding key_pressed
key_pressed-Reacts scancode k q h = elim (Bool-cases (is_shift scancode)) [
  | inl a ↦ rw a (
    record {
      shift = ground (arith, a);
      ctrl = ground (arith, a);
      alt = ground (arith, a);
      caps = ground (arith, a);
    },
    retype q refl refl refl,
  )
  | inr a ↦ elim (Bool-cases (scancode == 0x1d)) [
    | inl b ↦
        rw (a, b)
          (
            record {
              shift = ground (arith, b);
              ctrl = ground (arith, b);
              alt = ground (arith, b);
              caps = ground (arith, b);
            },
            retype q refl refl refl,
          )
    | inr b ↦ elim (Bool-cases (scancode == 0x38)) [
      | inl c ↦
          rw (a, b, c)
            (
              record {
                shift = ground (arith, c);
                ctrl = ground (arith, c);
                alt = ground (arith, c);
                caps = ground (arith, c);
              },
              retype q refl refl refl,
            )
      | inr c ↦ elim (Bool-cases (scancode == 0x3a)) [
        | inl d ↦
            rw (a, b, c, d)
              (
                record {
                  shift = ground (arith, d);
                  ctrl = ground (arith, d);
                  alt = ground (arith, d);
                  caps = ground (arith, d);
                },
                retype q refl refl refl,
              )
        | inr d ↦ elim (Bool-cases (leb (length scancode_to_ascii) scancode)) [
          | inl e ↦
              rw (a, b, c, d, e) (no_modifier scancode k k refl h a b c d, retype q refl refl refl)
          | inr e ↦
              rw (a, b, c, d, e)
                (
                  no_modifier scancode k (type_key scancode k) (type_key-modifiers scancode k) h a b
                      c d,
                  type_key-Types scancode k q,
                )
        ]
      ]
    ]
  ]
]

key_released-Reacts :
    (released : ℕ) (k : Keyboard)
    → IsQueue k
    → released < 128
    → Reacts (released + 128) k (key_released released k)
unfolding key_released
key_released-Reacts released k q h = elim (Bool-cases (is_shift released)) [
  | inl a ↦ rw a (
    record {
      shift = ground (arith, a);
      ctrl = ground (arith, a);
      alt = ground (arith, a);
      caps = ground (arith, a);
    },
    retype q refl refl refl,
  )
  | inr a ↦ elim (Bool-cases (released == 0x1d)) [
    | inl b ↦
        rw (a, b)
          (
            record {
              shift = ground (arith, b);
              ctrl = ground (arith, b);
              alt = ground (arith, b);
              caps = ground (arith, b);
            },
            retype q refl refl refl,
          )
    | inr b ↦ elim (Bool-cases (released == 0x38)) [
      | inl c ↦
          rw (a, b, c)
            (
              record {
                shift = ground (arith, c);
                ctrl = ground (arith, c);
                alt = ground (arith, c);
                caps = ground (arith, c);
              },
              retype q refl refl refl,
            )
      | inr c ↦
          rw (a, b, c)
            (
              record {
                shift = ground (arith, a);
                ctrl = ground (arith, b);
                alt = ground (arith, c);
                caps = ground (arith, h);
              },
              retype q refl refl refl,
            )
    ]
  ]
]

-- For every scan code on a well-formed ring buffer, the handler sets a modifier at the press of its
-- key, resets it at the release (the code with bit 7 set) and leaves it otherwise, toggles caps lock at
-- each press of its key, and leaves the ring buffer as it is or puts one character into it.
pub keyboard_handler_c-Reacts :
    (scancode : ℕ) (k : Keyboard)
    → scancode < 256
    → IsQueue k
    → Reacts scancode k (keyboard_handler_c scancode k)
unfolding keyboard_handler_c
keyboard_handler_c-Reacts scancode k h q =
    let high = bit_seven scancode h in
    let low = low_seven scancode h in
    elim (Bool-cases (ltb scancode 128)) [
      | inl e ↦
          let press : (bit_and scancode 0x80 == 0) ≡ true = rw high (ground (arith, e)) in
          rw press (key_pressed-Reacts scancode k q (ground (arith, e)))
      | inr e ↦
          let release : (bit_and scancode 0x80 == 0) ≡ false = rw high (ground (arith, e)) in
          let back : scancode % 128 + 128 ≡ scancode = ground (arith, e) in
          let reacts = key_released-Reacts (scancode % 128) k q (omega arith) in
          rw (release, low) (rw back at reacts)
    ]
