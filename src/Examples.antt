-- ===== src/Examples.antt =====
-- The theorems at concrete inputs.
mod Link
mod Machine
mod Texts
mod Memory
mod Keys
mod Disk
mod Tasks
mod Display
mod Vectors
