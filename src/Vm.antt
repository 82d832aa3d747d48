-- ===== src/Vm.antt =====
-- The Forth virtual machine, vm/: its state, the stacks of vm/stack/stack.c, the dictionary of
-- vm/dictionary/dictionary.c and the interpreter of vm/core/forth.c.
pub mod State
pub mod Stack
pub mod Effect
pub mod Dict
pub mod Words
pub mod Parse
pub mod Native
pub mod Forth
pub mod Primitives
