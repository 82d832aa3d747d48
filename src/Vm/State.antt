-- ===== src/Vm/State.antt =====
-- The state of the virtual machine: the static variables of vm/stack/stack.c,
-- vm/dictionary/dictionary.c and vm/core/forth.c, and the commands that change it.
use vector_forth_kernel.Base.{ℕ, Text, List, [], ◌∷◌, ◌++◌, map}
use vector_forth_kernel.Base.Memory.{Mem}

-- What a word does to the screen: a character to `vga_putchar`, or `vga_clear`.
pub data Event : Type 0 where
  put : ℕ → Event
  clear : Event

pub record Vm : Type 0 where
  -- stack.c: `ds`, `dsp`, `rs`, `rsp_idx` and `ip`
  pub ds : List ℕ
  pub dsp : ℕ
  pub rs : List ℕ
  pub rsp_idx : ℕ
  pub ip : ℕ
  -- dictionary.c: the memory, `dict_here` and `dict_latest`
  pub mem : Mem
  pub here : ℕ
  pub latest : ℕ
  -- forth.c: `forth_state`, `forth_base` and the characters from `parse_ptr` up to the NUL
  pub state : ℕ
  pub base : ℕ
  pub parse : Text
  -- the screen, oldest event first
  pub screen : List Event

-- How a call ends: normally, in a halted processor (`BYE`, a panic), in a processor exception or a
-- jump to something that is no code, or with the fuel used up.
pub data Run (A : Type 0) : Type 0 where
  ok : A → Vm → Run A
  halted : Vm → Run A
  trapped : Run A
  out_of_fuel : Run A

abbrev pub Cmd : Type 0 → Type 0
Cmd A = Vm → Run A

abbrev pub Act : Type 0
Act = Cmd (Unit {0})

abbrev pub pure : {A : Type 0} → A → Cmd A
pure = ok

abbrev pub done : Act
done = ok tt

module _ {A B : Type 0} where
  abbrev pub then_run : Run A → (A → Cmd B) → Run B
  then_run (ok a m) k = k a m
  then_run (halted m) k = halted m
  then_run trapped k = trapped
  then_run out_of_fuel k = out_of_fuel

  infixl 5 ◌>>=◌ ◌>>◌
  abbrev pub ◌>>=◌ : Cmd A → (A → Cmd B) → Cmd B
  c >>= k = λ m. then_run (c m) k

  abbrev pub ◌>>◌ : Cmd A → Cmd B → Cmd B
  c >> d = c >>= λ _. d

-- An update of the state, and a value read from it.
abbrev pub modify : (Vm → Vm) → Act
modify f m = ok tt (f m)

abbrev pub read : {A : Type 0} → (Vm → A) → Cmd A
read f m = ok (f m) m

-- `vga_putchar` and `vga_puts`
abbrev pub putchar : ℕ → Act
putchar c = modify λ m. record m { screen = m.screen ++ (put c ∷ []) }

abbrev pub puts : Text → Act
puts s = modify λ m. record m { screen = m.screen ++ map put s }
