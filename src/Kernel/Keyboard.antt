-- ===== src/Kernel/Keyboard.antt =====
-- The keyboard driver, kernel/drivers/keyboard.c: the handler of interrupt 1 and the ring buffer. The
-- scan code that `inb` reads from the port is an argument of the handler.
pub mod Queue
pub mod Keys
use Prim.Native.Nat.{bit_and}
use vector_forth_kernel.Base.{
  ℕ, zero, suc, ◌+◌, ◌-◌, ◌%◌, Bool, true, false, not, ◌&&◌, ◌||◌, Option, none, some, List, [],
  ◌∷◌, ◌++◌, ◌==◌, ltb, leb, if◌then◌else◌, get_or, set, length, Text, codes, replicate,
}

abbrev pub kbd_buffer_size : ℕ
kbd_buffer_size = 256

-- `kbd_buffer`, `kbd_head`, `kbd_tail` and the modifiers
pub record Keyboard : Type 0 where
  pub buffer : Text
  pub head : ℕ
  pub tail : ℕ
  pub shift_pressed : Bool
  pub ctrl_pressed : Bool
  pub alt_pressed : Bool
  pub caps_lock : Bool

-- A row of the table of control keys: codes without a character.
abbrev blank : ℕ → Text
blank n = replicate n 0

unfoldable pub scancode_to_ascii : Text
scancode_to_ascii =
    (0 ∷ 27 ∷ [])
    ++ codes "1234567890-="
    ++ (8 ∷ 9 ∷ [])
    ++ codes "qwertyuiop[]\n"
    ++ blank 1
    ++ codes "asdfghjkl;'`"
    ++ blank 1
    ++ codes "\\zxcvbnm,./"
    ++ blank 1
    ++ codes "*"
    ++ blank 1
    ++ codes " "
    ++ blank 13
    ++ codes "789-456+1230."

unfoldable pub scancode_to_ascii_shift : Text
scancode_to_ascii_shift =
    blank 2
    ++ codes "!@#$%^&*()_+"
    ++ (8 ∷ 9 ∷ [])
    ++ codes "QWERTYUIOP{}\n"
    ++ blank 1
    ++ codes "ASDFGHJKL:\"~"
    ++ blank 1
    ++ codes "|ZXCVBNM<>?"
    ++ blank 1
    ++ codes "*"
    ++ blank 1
    ++ codes " "
    ++ blank 13
    ++ codes "789-456+1230."

unfoldable pub kbd_buffer_put : ℕ → Keyboard → Keyboard
kbd_buffer_put c k =
    let next = (k.head + 1) % kbd_buffer_size in
    if next == k.tail then k else record k { buffer = set k.buffer k.head c; head = next }

-- `keyboard_getchar`; `none` is the wait for the next interrupt.
unfoldable pub keyboard_getchar : Keyboard → Option (ℕ × Keyboard)
keyboard_getchar k =
    if k.head == k.tail
    then none
    else some (get_or k.buffer k.tail 0, record k { tail = (k.tail + 1) % kbd_buffer_size })

unfoldable pub keyboard_available : Keyboard → Bool
keyboard_available k = not (k.head == k.tail)

abbrev pub is_shift : ℕ → Bool
is_shift code = code == 0x2a || code == 0x36

unfoldable pub key_released : ℕ → Keyboard → Keyboard
key_released released k =
    if is_shift released
    then record k { shift_pressed = false }
    else if released == 0x1d
    then record k { ctrl_pressed = false }
    else if released == 0x38
    then record k { alt_pressed = false }
    else k

abbrev pub is_lower : ℕ → Bool
is_lower c = leb 97 c && leb c 122

abbrev pub is_upper : ℕ → Bool
is_upper c = leb 65 c && leb c 90

-- The character of a key with caps lock applied, and then with Ctrl applied.
unfoldable pub apply_caps : Keyboard → ℕ → ℕ
apply_caps k c =
    if k.caps_lock && is_lower c
    then c - 32
    else if k.caps_lock && is_upper c && not k.shift_pressed
    then c + 32
    else c

unfoldable pub apply_ctrl : Keyboard → ℕ → ℕ
apply_ctrl k c =
    if k.ctrl_pressed then (if is_lower c then c - 96 else if is_upper c then c - 64 else c) else c

unfoldable pub type_key : ℕ → Keyboard → Keyboard
type_key scancode k =
    let table = if k.shift_pressed then scancode_to_ascii_shift else scancode_to_ascii in
    let c = apply_caps k (get_or table scancode 0) in
    if c == 0 then k else kbd_buffer_put (apply_ctrl k c) k

unfoldable pub key_pressed : ℕ → Keyboard → Keyboard
key_pressed scancode k =
    if is_shift scancode
    then record k { shift_pressed = true }
    else if scancode == 0x1d
    then record k { ctrl_pressed = true }
    else if scancode == 0x38
    then record k { alt_pressed = true }
    else if scancode == 0x3a
    then record k { caps_lock = not k.caps_lock }
    else if leb (length scancode_to_ascii) scancode
    then k
    else type_key scancode k

unfoldable pub keyboard_handler_c : ℕ → Keyboard → Keyboard
keyboard_handler_c scancode k =
    if not (bit_and scancode 0x80 == 0)
    then key_released (bit_and scancode 0x7f) k
    else key_pressed scancode k
