-- ===== src/Lib.antt =====
-- Vector Forth kernel: a model of the kernel's own logic and the theorems about it.
--
-- The program is a small x86-64 kernel whose user interface is a Forth system. vm/core/forth.c reads a
-- line (`forth_eval`), looks each word up in the dictionary of vm/dictionary/dictionary.c, and runs it
-- or compiles it; compiled words are threaded code that `forth_inner` runs. The words work on the two
-- stacks of vm/stack/stack.c, print through kernel/utils/stdlib.c and ask the kernel for memory
-- (kernel/memory/pmm.c, kernel/memory/heap.c) and keys (kernel/drivers/keyboard.c). The kernel has tasks
-- that hand the processor over to each other (kernel/scheduler), a text screen (kernel/drivers/vga.c), and
-- a file system of numbered blocks (fs/filesystem.c) over a cache of disk blocks (fs/block_device.c).
--
-- - Base: the shared names; Boolean tests, arrays as lists, 64-bit words, byte memory with
--   little-endian cells (Base/Memory), bitmaps (Base/Bitmap).
-- - Utils/Stdlib: kernel/utils/stdlib.c. `digits_loop` runs on fuel `max_digits` = 64, one for each
--   bit of a value. Utils/Strings: kernel/utils/string.c, on byte memory where it writes.
-- - Vm/State, Vm/Stack: the state of the machine and vm/stack/stack.c. A command is a function from
--   the state to a `Run`: a value and a state, a halted processor, a trap, or fuel used up.
-- - Vm/Dict: vm/dictionary/dictionary.c over byte memory. `dict_find` runs on fuel `max_entries`, which
--   is enough, as no more headers fit the megabyte of the dictionary (Vm/Dict/Create).
-- - Vm/Words: the C functions of the words; Vm/Parse: the parser; Vm/Native: the C functions whose
--   addresses the dictionary holds, with the linker's choice of addresses as a parameter `Image`.
-- - Vm/Forth: `forth_execute`, `forth_inner` and `forth_eval`, which call each other, on one fuel for
--   calls and rounds; what other parts of the kernel do for the words is the parameter `Devices`.
--   Vm/Forth/Code describes threaded code with the fuel that it takes, Vm/Forth/Threaded runs it.
-- - Vm/Primitives: `register_primitives`, the dictionary's first words, and what is found of them.
-- - Kernel/Pmm: kernel/memory/pmm.c with its bitmap in byte memory. `kernel_panic` is `none`.
-- - Kernel/Heap: kernel/memory/heap.c; the blocks that `next` links are a list with their
--   addresses; the functions that write into blocks are in Kernel/Heap/Zeroed and Kernel/Heap/Resized.
-- - Kernel/Keyboard: kernel/drivers/keyboard.c.
-- - Kernel/Tasks: kernel/scheduler/task.c and the context switch of kernel/scheduler/switch.asm, with
--   stacks in byte memory and new tasks from Kernel/Heap. The loop of `yield` runs on as much fuel as the
--   ring has tasks, which is enough (Kernel/Tasks/Pick).
-- - Kernel/Interrupts: kernel/interrupts/idt.c, the handler of the interrupt lines in
--   kernel/interrupts/irq.c and the timer's in kernel/drivers/timer.c.
-- - Kernel/Screen: kernel/drivers/vga.c over the memory of the screen.
-- - Fs/Blocks: fs/block_device.c; the disk is a function from sectors to bytes, which
--   `ata_read_sector` and `ata_write_sector` of kernel/drivers/ata.c reach by 28-bit addresses.
-- - Fs/Files: fs/filesystem.c over Fs/Blocks.
-- - Examples: the theorems at concrete inputs, with a concrete `Image`.
--
-- Not modelled: assembly but for the context switch, exceptions, the protocols of devices, the
-- page tables, output to the serial port, `dict_init`, and the words SEE, STATUS, DUMP, FORK,
-- YIELD, EDIT and those of blocks, which are calls to `Devices`; a word that prints appends to a
-- list of events. Memory is total: page faults and an access over the top of the address space
-- are not modelled. Signed overflow wraps.
pub mod Base
pub mod Examples
pub mod Fs
pub mod Utils
pub mod Kernel
pub mod Vm
