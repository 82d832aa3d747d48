-- ===== src/Vm/Words.antt =====
-- The primitives of vm/core/forth.c, one definition for each C function, by what they work on, and
-- their stack effects.
pub mod Shuffle
pub mod Arith
pub mod Logic
pub mod Access
pub mod Output
pub mod Compile
pub mod StackWord
pub mod Patterns
pub mod Effects
