-- ===== src/Kernel.antt =====
-- The kernel's own parts (kernel/).
pub mod Pmm
pub mod Heap
pub mod Keyboard
pub mod Tasks
pub mod Screen
pub mod Interrupts
