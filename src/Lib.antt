-- ===== src/Lib.antt =====
-- A model of the Python code of the repository and of the kernel's processes and signals, with the
-- theorems that make them correct.
--
-- The repository is a RISC-V teaching kernel with POSIX signals, its user programs, and the Python
-- scripts that build, link and debug it. The scripts, the processes and the signals are modelled, each part
-- in a file of its own:
--
--   Sv39       scripts/sv39.py: the rules for an Sv39 virtual address, its page numbers, and the fields
--              of a page table entry. `validate_sv39_address`, `calculate_vpn_and_offset`,
--              `decode_sv39_pte` and the two actions of the script have their names; the answers that
--              the user types are arguments, and what is printed is a list of lines.
--   LinkApp    scripts/pack.py: the assembly file with the table of the user programs. The directory
--              is a record of its names and sizes; `write_table` is the text that is written. Assembly
--              has the statements that the text is made of.
--   KernelLd   scripts/kernelld.py: the linker script, of the names in a directory.
--   Gef        scripts/gef.py, the debugger script that the GDB session of the kernel loads:
--     Pack         p8 … p64 and u8 … u64, at any width
--     Permission   the flags of a mapping and the texts they are read from
--     Address      the alignments and the texts of addresses
--     Section      `Section`, `Address`, and the look-up in the memory map
--     Elf          `Elf`, `Phdr` and `Shdr`: Enums has the enumerations, Reader the reads of the open
--                  file, Phdr, Shdr and Header the constructors. The position in the file is the list
--                  of the bytes behind it, and a failed read is an error
--     Heap         `GlibcChunk`, `GlibcFastChunk`, `GlibcArena`, `GlibcHeapInfo`, and the arithmetic of
--                  `GefHeapManager`. The target is the record `Heap` of what they read
--     HeapAnalysis the breakpoints of `heap-analysis-helper`, whose handlers `stop` change the lists of
--                  the session; what they answer is a value, without the text of a warning
--     Settings     `GefSetting` and `GefSettingsManager`
--     Arch         the architectures: X86, Riscv, Arm, Aarch64, PowerPc, Sparc and Mips, with the tests
--                  of instructions, of branches and of return addresses, and the assembly of mprotect.
--                  Instruction is `class Instruction`, Attributes the class attributes and the flags
--                  tables, Target the answers of GDB, and Comparison what the flags of a processor say
--                  after the comparison of two words, against which the branch tests are held
--
--   Signal     os/signal of the kernel:
--     Set          the operations on `sigset_t` of os/signal/signal.h
--     Memory       `copy_to_user` and `copy_from_user` of os/uaccess.c, byte by byte. `walkaddr` is a
--                  function of the memory, and fails for a page that is not there
--     State        `struct sigaction`, `struct ksignal`, `struct trapframe` and `struct proc`
--     Frame        `struct ucontext` and `siginfo_t` as words and bytes
--     Deliver      `do_signal`: `handle` is the body of its loop, and `act`, `set_up`, `copy_frame` and
--                  `enter_handler` are its parts
--     Syscalls     `siginit`, `siginit_fork`, `siginit_exec`, `sys_sigaction`, `sys_sigreturn`,
--                  `sys_sigprocmask`, `sys_sigpending`, and the end of `syscall` in os/syscall.c
--     Send         `sys_sigkill`, with `findByPid` of os/proc.c
--     Return       the call of sigreturn behind a handler
--
--   Kernel     the processes of the kernel:
--     Queue        os/queue.c: the ring of tasks
--     System       the globals of os/proc.c and os/sched.c: the process table, the queue of tasks, the
--                  process of each processor, the next pid and init; `add_task`. Consistent has the
--                  invariant, and Keeps the changes that keep it
--     Process      `allocproc`, `freeproc`, `sleep` and `wakeup` of os/proc.c, `scheduler`, `sched` and
--                  `yield` of os/sched.c, and the stop of `usertrapret` in os/trap.c
--     Family       `fork`, `exit`, `wait` and `kill` of os/proc.c
--     Boot         `proc_init`, and `load_init_app` of os/loader.c
--     Kalloc       the object allocator of os/kalloc.c: `allocator_init`, `kalloc`, `kfree`, over the words
--                  in memory, and `memset` of os/string.c, that fills an object
--     Pages        the page allocator of os/kalloc.c: `kpgmgrinit`, `kallocpage`, `kfreepage`
--     Reach        the runs: the steps of the processors, in any order
--
-- A pointer to a process is its index in the process table. An operation of the kernel is a function from
-- a system to a system, or to `none` where the code panics or reads through NULL. The locks: every lock
-- of a process that an operation takes it gives back, so the locks are not part of the system, and what
-- an operation does with a lock held is one step. The one place where a lock that is held is taken again,
-- `findByPid` under `kill`, has the held process as an argument. `sched` is one step with what the
-- scheduler does behind the switch, since the lock of the process is held across both, and a fetch of a
-- task is one step with the start of the process: in between, the process is RUNNABLE, stands in no
-- queue, and no code adds a RUNNABLE process to it. In Reach the loops of `exit` and `wakeup` are
-- steps of one process each, and the round of `wait` is one step.
--
-- The parts meet as the code does: an architecture reads registers through Target and prints a
-- Permission, the look-up of Section asks Address whether an address is of the kernel, the heap tests
-- addresses against the sections, and Elf decodes its integers with those of Pack. Prelude has what all
-- parts share: Python's integers, texts and exceptions. An exception is the `err` of Result, told by
-- its class. A child module beside a part holds its theorems and is named for them (RoundTrip, Bounds,
-- Lookup, Conditions, Walks, Shape), and Tests has concrete inputs for them.
--
-- GDB is not in the repository. Its answers are fields of Target and Heap, and no law is assumed of
-- them: a theorem names what one of them returns where it needs that.
--
-- Fuel: a numeral has as many steps as the number, which is more than its digits. The walks over the
-- chunks, the arenas and the heaps follow pointers in the memory of the program under debug and have
-- their fuel as an argument. For the chunks the bytes up to the end of the highest section are enough
-- steps. The list of the arenas and the one of the heaps may be a cycle in a corrupted program, where
-- the code does not return, so no fuel is enough for them, and running out is a result of its own.
--
-- Not modelled: the commands, the other breakpoints, sessions and the output of scripts/gef.py, which
-- are calls of GDB and text for the terminal; of the kernel the page tables, traps and
-- interrupts, the loader of ELF files and the devices; and the user programs, which are C. What a process
-- does to its own memory, registers and signals in system calls that the model does not have is the step
-- `works` of Reach, which keeps the state and the parent of the process. The memory of a child (`mm_create`
-- and `mm_copy`, with the panic of `mm_create`) and of init (`load_user_elf`) is an argument. The signals take and give back their locks
-- in one step, so the lock is not part of their state.
mod Prelude
pub mod Sv39
pub mod LinkApp
pub mod KernelLd
pub mod Gef
pub mod Kernel
pub mod Signal
