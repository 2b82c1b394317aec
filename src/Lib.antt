-- ===== src/Lib.antt =====
-- Rotary, a hobby operating system for x86 in C: a model of its core and the theorems that make it
-- correct.
--
-- The program boots through kernel_main (kernel/main.c), which reads the memory map
-- (kernel/multiboot.c), sets up the physical memory manager (kernel/pmm.c), page tables and the
-- kernel heap, and then the scheduler, which takes task stacks from the heap.
--
-- - Base: Boolean tests, the wrapping arithmetic of uint32 (include/rotary/types.h), bits of a
-- number, arrays as functions.
-- - Pmm: kernel/pmm.c. The globals are the record Pmm; the functions keep their names less the
-- prefix pmm_. The bitmap is a function from the word index; pmm_memory_bitmap has 4096 words, for
-- up to 131072 frames (512 MiB). The field overrun, which the program does not have, holds once a
-- word behind these was written.
-- - Heap: kernel/kheap.c over a memory of 32-bit words at byte addresses. Block headers and
-- trailers are words of that memory, so their corruption shows. The accesses of the code are taken
-- as aligned. The walks over the free list and over the blocks take fuel; a result none means that
-- the fuel ended, and the theorems give the number of rounds that is enough.
--
-- - Paging: arch/x86/kernel/paging.c, the mapping functions of kernel/vmm.c and cpuid_check_pse
-- (arch/x86/kernel/cpuid.c) over the same memory; Paging.Map is paging_map, with the processor's
-- walk of the tables as its specification. What paging_map reads and writes is memory at physical
-- addresses; the parameter translate says where a pointer of the code leads, or that it faults.
-- Vmm: vmm_init (kernel/vmm.c). A bit field of an entry (include/rotary/paging.h) is its bits of
-- the word; the cycles over 1024 and 256 entries are recursion on their number.
-- - Task: kernel/task.c with the lock of kernel/sync.c, which is in Task.Table with the globals.
-- These are the record System, which holds the heap and the frames too, since task_create takes
-- its stack and its page directory from these. tasks is a function from the index, so an access
-- past TASK_MAX reads a further task; the field overrun, which the program does not have, holds
-- once one was written there. Task.Inside has the calls that write inside the array. Waiting for
-- the lock, the search for the next task and the walk of kfree take fuel. The models end where the
-- assembly swaps the stacks.
-- - Multiboot: kernel/multiboot.c. The loop of udivmod64 is recursion on the number of bits left;
-- that of uint64_to_str takes 64 rounds, which are enough for 64 bits; of multiboot_parse the walk
-- over the memory map is modelled, on fuel that must exceed the number of regions.
-- - Gdt: arch/x86/kernel/gdt.c. An entry is the record of its fields; the instructions that load
-- the table are left out.
-- - Strings: kernel/string.c, over a function from addresses to bytes; Strings.Format is sprintf,
-- whose arguments are a list. The digits of int_to_str take ten rounds, which are enough for 32
-- bits; atoi takes fuel, and eleven rounds are enough for what int_to_str writes.
-- - Ports: io_port_out and io_port_in (arch/x86/kernel/io_port.c). The writes are a list; what a
-- device answers to the n-th read is a parameter. Pic, Timer and Serial: pic8259.c and timer.c of
-- arch/x86/kernel, and kernel/serial.c, over these ports. The wait of the serial line takes fuel.
-- - Interrupts: arch/x86/kernel/interrupts.c. The handlers are called through a parameter that
-- gives the code at an address; what is printed of an exception is a list of messages.
-- - Keyboard: kernel/keyboard.c, whose interrupt calls the handlers of its table.
-- - Screen: arch/x86/kernel/vga.c. The buffer is a function from the index of a cell to its 16
-- bits.
-- - Shell: kernel/shell.c. The keyboard handler works on the input buffer in memory and on the
-- screen; Shell.Commands is what the commands do to the tasks and to the task state segment, with
-- the interrupt of int $32 and the page fault of the command die as parameters, Shell.Dispatch
-- which of them a line names. Panic: kernel/panic.c. HeapTest: tests/heap.c.
-- - Logging: printk (kernel/logging.c) over the screen, the serial ports and the buffers of the
-- code in memory. Cpuid and Tss: cpuid.c and tss.c of arch/x86/kernel.
-- - Kernel: kernel_main (kernel/main.c), as a list of calls with their tests over a record of all
-- globals. Its parts are the models of the other components; addresses, the texts, the devices and
-- the processor are the record Platform. Kernel.State has the globals, Kernel.Runs is a run of
-- such a list, Kernel.Passes a list that never gives 0, Kernel.Loaded the machine that the
-- function starts from; Kernel.Ready and Kernel.Boot follow the calls to the last loop,
-- Kernel.FirstTick is the first interrupt of the timer behind it, and Kernel.Errors says where the
-- function returns.
--
-- Not modelled: in the other parts the calls of printk, which change only the screen, the ports
-- and buffers of their own; the assembly files and the instructions that load a table or a
-- register; the stub of the disk driver; of the Multiboot information all that is only printed; an
-- interrupt that arrives while kernel_main still sets up the kernel.
pub mod Base
pub mod Cpuid
pub mod Gdt
pub mod Heap
pub mod HeapTest
pub mod Interrupts
pub mod Kernel
pub mod Keyboard
pub mod Logging
pub mod Multiboot
pub mod Paging
pub mod Panic
pub mod Pic
pub mod Pmm
pub mod Ports
pub mod Screen
pub mod Serial
pub mod Shell
pub mod Strings
pub mod Task
pub mod Timer
pub mod Tss
pub mod Vmm
