-- ===== src/Lib.antt =====
-- ZeOS, a teaching kernel for the i386, with its C library and the builder of its disk image.
--
-- The program's parts, the files that model them, and the sources:
-- - LinkedList: list.c and include/list.h. `Links` holds the pointers of every `struct list_head`.
--   LinkedList/Ring says what a list in memory is, Ops has one theorem for each operation, Traverse
--   the loops, Move two lists at a time.
-- - Memory: a byte for each address, words as little endian loads and stores.
-- - Utils: utils.c. The copies between address spaces (Utils/Copy), `access_ok`, `do_div` and
--   `get_ticks` (Utils/Access).
-- - Io and Devices: io.c and devices.c. `Console` is the cursor, the memory with the screen at
--   0xb8000, and what the debug port received. Io/Print has the invariant of the cursor, Io/Screen the
--   terminal that a console stands for.
-- - Itoa: `itoa` of libc.c, `__itoa` of io.c (`kernel_itoa`) and `itox` of utils.c.
-- - Mm: mm.c. Mm/Frames is the byte map of physical frames, Mm/Paging the directories and page tables
--   with `get_DIR`, `get_PT` and `allocate_DIR` of sched.c, Mm/Segments the descriptor table and the
--   TSS.
-- - Sched: the task array of include/sched.h, `current` and `cpu_idle` of sched.c and `sys_getpid` of
--   sys.c.
-- - Clock and Keyboard: clock.c and keyboard.c.
-- - Interrupt: interrupt.c, the gates and the page fault message.
-- - Sys: sys.c, the system calls. `sys_write` uses `access_ok`, `copy_from_user` and
--   `sys_write_console`.
-- - Syscall: the way from a wrapper of libc_sys.S through `syscall_handler` of entry.S and
--   sys_call_table.S to a system call, and back with `errno`.
-- - Entry: the rest of entry.S, on registers and the kernel's stack: what the entry points save and
--   restore, and the ends of the interrupt handlers. Entry/Wrapper has libc_sys.S once more, with the
--   registers and the stack of the process; Entry/Wrapped follows a call, Entry/Write and
--   Entry/Gettime the two wrappers.
-- - Errno: include/errno.h, and the messages of libc.c.
-- - Libc: the printing functions of libc.c, on top of the wrapper of `write`. Libc/Output says what a
--   call prints and keeps, Libc/Numbers and Libc/Failures have the numbers and `perror`.
-- - UserProgram: user.c, on top of Libc.
-- - Hardware: hardware.c, with `writeMsr` of entry.S and `set_seg_regs` of system.c.
-- - Boot: system.c. `main` calls the initialisations of the other parts in turn, copies the user
--   program and enters it. Boot/Moved and Boot/Run follow it step by step, Boot/Pages has an address
--   space that serves, Boot/Load starts from the image that Build makes.
-- - Kernel: the events at run time, interrupts, system calls and stores of the program, in any order.
--   Kernel/Runs has the effect of each, Kernel/Invariant that of a whole run. Kernel/Machine has the
--   same with registers and stacks, through Entry; Kernel/Simulation relates the two.
-- - Whole: Bootsect, Boot and UserProgram one after the other; Whole/Runtime goes on with the runs of
--   Kernel/Machine.
-- - Build: build.c, which puts boot sector, system and user program into one image. Build itself is the
--   image as a function of the three files; Build/Program is the program, with its arguments, messages
--   and error exits, on a file system of which any call may fail.
-- - Bootsect: bootsect.S, from the BIOS's jump to the kernel's door. Bootsect/Track has one call of the
--   BIOS, Rounds the loop `rp_read`, Entered the machine at the end, and Start the whole way from the
--   files of Build over the floppy to the user program of Boot.
-- - MmAddress: the constants of include/mm_address.h.
-- - Common has the shared tests, lists, words and integers; Tests runs the theorems on concrete values.
--
-- Functions keep their names in lower case with underscores: `setGdt` is `set_gdt`, `get_PT` is
-- `get_pt`, `__list_add` is `list_add_between`. An `int` is an integer or, where it is stored, its 32-bit
-- pattern; pointers are addresses; a store of a width writes its bytes. State that the C code keeps in
-- globals is an argument and a result.
--
-- Bounds and fuel. `alloc_loop` has 385 rounds, one more than there are even frames from 256 on. A copy
-- has one round of fuel for each byte, and `sys_write` one more than its buffer has bytes, with `none` for
-- a loop that does not end. A number
-- has 32 rounds of each loop, more than its digits. `printk`, `strlen` and the list traversals take
-- their fuel as an argument, give `none` when it runs out, and their theorems say how much is enough.
-- The addresses of `task`, `dir_pages` and `pagusr_table`, which the linker chooses, are a `Layout`,
-- aligned and apart (`IsLinked`); the address of a local array is an argument.
--
-- The user program has one fuel for all of its strings; `main` of the kernel needs more than the length
-- of its messages. What the C compiler leaves in eax, ecx and edx is a function of the state that a
-- routine ends with. The kernel's stack in Entry is the list of its words, apart from the memory.
--
-- The boot sector's loop takes its rounds as an argument; the image has at most 8 segments, and a round
-- reads at least one of the 128 sectors of a segment, so 1024 rounds are enough. What the BIOS does for
-- a read within a track and a segment is `ReadsDisk`.
--
-- A page fault is `none`: `translate` is the processor's walk, which Mm/Paging has for the addresses that
-- `init_mm` and `set_user_pages` map, and `sys_write` and the copy of `main` end with `none` where a page is
-- missing. The copies of Utils themselves work on plain memory.
--
-- Not modelled: of bootsect.S the messages, the floppy's motor, the waits for the keyboard controller and
-- for A20, and the set-up of the interrupt controllers but for their last mask; the end of user.c, an
-- endless loop; the words that CHECK_ERROR and `set_errno` push below the stack of the process after a
-- refused call; `inb`, whose value is an argument; the status flags; the libraries libzeos.a and
-- libauxjp.a, which have no source here: `set_handlers`, `monoprocess_init_addr_space`,
-- `page_fault_routine` and `zeos_show_clock` are parameters. The screen is taken as memory, without what
-- a card shows of it.
pub mod Boot
pub mod Bootsect
pub mod Build
pub mod Clock
pub mod Common
pub mod Devices
pub mod Entry
pub mod Errno
pub mod Hardware
pub mod Interrupt
pub mod Io
pub mod Itoa
pub mod Kernel
pub mod Keyboard
pub mod Libc
pub mod LinkedList
pub mod Memory
pub mod Mm
pub mod MmAddress
pub mod Sched
pub mod Sys
pub mod Syscall
pub mod Tests
pub mod UserProgram
pub mod Utils
pub mod Whole
