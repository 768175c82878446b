-- ===== src/Whole.antt =====
-- From the floppy with an image of `build` to the last loop of the user program: bootsect.S, system.c
-- and user.c one after the other.
pub mod Runtime
use zeos.Common.{
  ℕ, ◌+◌, ◌-◌, ◌<◌, ◌≤◌, ◌≡◌, ◌⊎◌, ◌≢◌, ap, ◌∙◌, arith, List, ◌++◌, length, get_or, Option, some,
  chars, String, true, ℤ, pos, none, Bool, ◌==◌, ◌&&◌, if◌then◌else◌,
}
use zeos.Memory.{Memory, IsString}
use zeos.Memory.Laws.{IsString-ext}
use zeos.Io.Print.{IsValid}
use zeos.Interrupt.{Idt}
use zeos.Mm.Paging.{Paging, init_mm}
use zeos.Errno.{errno_message}
use zeos.Syscall.{User}
use zeos.Libc.Print.{KernelBuffer}
use zeos.Build.{File}
use zeos.Boot.{Machine, Image, is_mapped, main}
use zeos.Boot.Run.{Started}
use zeos.Bootsect.{Bios, bootsect}
use zeos.Bootsect.Track.{ReadsDisk}
use zeos.Bootsect.Start.{IsPacked, HasLiterals, bootsect-main}
use zeos.UserProgram.{Literals, user_main, hello_text, alive_text}
use zeos.UserProgram.Messages.{Holds, Stack}
use zeos.UserProgram.Run.{Loaded, transcript, user_main_lem}

-- The program as it is linked for: its first byte is at 0x100000.
abbrev pub user_linked : File → Memory
user_linked user a = get_or user.bytes (a - 0x100000) 0

-- A literal in the program's file, away from the stack [lo, hi).
pub record InFile (lo hi fuel : ℕ) (user : File) (p : ℕ) (text : String) : Type 0 where
  pub string : IsString (user_linked user) p (chars text)
  pub low : 0x100000 ≤ p
  pub high : p + length (chars text) < 0x100000 + user.st_size
  pub away : (p + length (chars text) < lo) ⊎ (hi ≤ p)
  pub short : length (chars text) < fuel

-- The literals that the program reads.
pub record InProgram (lo hi fuel : ℕ) (lits : Literals) (user : File) : Type 0 where
  pub hello : InFile lo hi fuel user lits.hello hello_text
  pub alive : InFile lo hi fuel user lits.alive alive_text
  pub open_bracket : InFile lo hi fuel user lits.open_bracket " ("
  pub bytes_text : InFile lo hi fuel user lits.bytes_text " bytes)"
  pub bad_file : InFile lo hi fuel user (lits.message_at 9) (errno_message 9)
  pub invalid : InFile lo hi fuel user (lits.message_at 22) (errno_message 22)

module _ (lo hi fuel : ℕ) (user : File) (u : User) (small : user.st_size ≤ 0x1c000)
    (stack_low : lo ≤ 0x113ffc) (stack_high : 0x114000 ≤ hi)
    (program : (i : ℕ)
      → i < user.st_size
      → (i < 0x13ffc) ⊎ (0x14000 ≤ i)
      → u.console.mem (0x100000 + i) ≡ get_or user.bytes i 0) where
  in_memory :
      (a : ℕ)
      → 0x100000 ≤ a
      → a < 0x100000 + user.st_size
      → (a < lo) ⊎ (hi ≤ a)
      → u.console.mem a ≡ user_linked user a
  in_memory a low high away =
      ap u.console.mem {y = 0x100000 + (a - 0x100000)} (omega arith)
      ∙ program (a - 0x100000) (omega arith) (omega arith)

  InFile-Holds : (p : ℕ) (text : String) → InFile lo hi fuel user p text → Holds lo hi fuel u p text
  InFile-Holds p text f =
      let low = f.low in
      let high = f.high in
      let away = f.away in
      record {
        string =
            IsString-ext (user_linked user) u.console.mem p (chars text)
              (λ a l h. in_memory a (omega arith) (omega arith) (omega arith)) f.string;
        inside = (low, omega arith);
        away = away;
        ends = f.short;
      }

  InProgram-Loaded : (lits : Literals) → InProgram lo hi fuel lits user → Loaded lo hi fuel lits u
  InProgram-Loaded lits p = record {
    hello = InFile-Holds lits.hello hello_text p.hello;
    alive = InFile-Holds lits.alive alive_text p.alive;
    open_bracket = InFile-Holds lits.open_bracket " (" p.open_bracket;
    bytes_text = InFile-Holds lits.bytes_text " bytes)" p.bytes_text;
    bad_file = InFile-Holds (lits.message_at 9) (errno_message 9) p.bad_file;
    invalid = InFile-Holds (lits.message_at 22) (errno_message 22) p.invalid;
  }

-- Whether the program can run: the processor stands at its first instruction in user mode with the
-- user's stack, with interrupts on, clock and keyboard unmasked, paging on, and `sysenter`, the
-- descriptor tables and the task register set to the kernel's.
abbrev runs_user : Image → Machine → Bool
runs_user at t =
    let c = t.cpu in
    c.cs == 0x23
    && c.eip == 0x114000
    && c.ss == 0x2b
    && c.ds == 0x2b
    && c.es == 0x2b
    && c.esp == 0x113ff0
    && c.e_flags == 0x202
    && c.pic_mask == 0xfc
    && c.idtr.base == at.handlers.idt
    && c.idtr.limit == 2047
    && c.gdtr.base == 0x901b3
    && c.gdtr.limit == 2048
    && c.tr == 0x30
    && c.msr 0x174 == 0x10
    && c.msr 0x175 == at.layout.task + 8192
    && c.msr 0x176 == at.syscall_handler

-- The program on a machine: `none` also if the machine is not at its start.
abbrev pub run_user :
    (at : Image) (buff ticks fuel : ℕ) (lits : Literals) (itoa_buff slot : ℕ) (errno : ℤ)
    → Machine
    → Option User
run_user at buff ticks fuel lits itoa_buff slot errno t =
    if runs_user at t
    then user_main buff ticks fuel lits itoa_buff slot
        (record { console = t.console; errno = errno })
    else none

Started-runs_user :
    (at : Image) (set_handlers : Idt → Idt) (init_addr_space : Paging → Paging) (sys usr : ℕ)
    (s t : Machine)
    → Started at set_handlers init_addr_space sys usr s t
    → runs_user at t ≡ true
Started-runs_user at set_handlers init_addr_space sys usr s t h =
    let u = h.user_mode in let e = h.entries in ground (arith, u, e)

module _ (at : Image) (set_handlers : Idt → Idt) (init_addr_space : Paging → Paging) (bios : Bios)
    (rounds fuel : ℕ) (bootfile : Option File) (system user : File) (rest boot image : List ℕ)
    (disk : ℕ → ℕ) (reads : ReadsDisk bios disk)
    (packed : IsPacked bootfile system user rest boot image disk) (s : Machine)
    (v : IsValid s.console) (first : (i : ℕ) → i < 512 → s.console.mem (0x7c00 + i) ≡ disk i)
    (more : 1024 < rounds) (literals : HasLiterals at system) (enough : 30 < fuel)
    (mapped : (a : ℕ)
      → 0x1000 ≤ a
      → a < 0x11c000
      → is_mapped (init_addr_space (init_mm at.layout (record s.paging { cr0 = 1 }))) a
        ≡ true) where
  -- Let `build` have made the image of an accepted boot sector without setup sectors, a system of at
  -- least 12 bytes and a user program of at most 0x1c000 bytes, both files whole and together at most
  -- 0x7fff0 bytes; let the disk begin with this image, the BIOS read it as documented and have put its
  -- first sector to 0x7c00; let the literals of `main` be in the system behind its header, and those of
  -- the program in its file, away from the process's stack, which lies in user memory, holds the
  -- library's local array and character, and contains the top word of the last data page,
  -- and shorter than the fuel, which is above 30; let there be more than 1024 rounds for the disk, a
  -- valid console, an address space that has pages from 0x1000 to 0x11c000, 32-bit addresses of "alo"
  -- and "alo2", that of "alo2" not null, and the kernel's local array in kernel memory off the screen.
  -- Then `bootsect`, `main` and `user_main` end one after the other: `main` leaves the machine as
  -- `Started` says, which is one that can run the program, with the processor at its first instruction
  -- in user mode, interrupts on and the entries of the kernel set; the debug port has got the two
  -- messages of the kernel, the two of the program with their lengths and those of its three failing
  -- calls, and nothing else; `errno` is 22, and the console is valid.
  pub bootsect-user_main :
      (buff ticks : ℕ) (lits : Literals) (lo hi itoa_buff slot : ℕ) (errno : ℤ)
      → KernelBuffer buff
      → Stack lo hi itoa_buff slot
      → lo ≤ 0x113ffc
      → 0x114000 ≤ hi
      → InProgram lo hi fuel lits user
      → lits.alo < 4294967296
      → lits.alo2 < 4294967296
      → lits.alo2 ≢ 0
      → (k t : Machine) × (after : User) × (bootsect bios rounds s ≡ some k)
        × (main at set_handlers init_addr_space fuel k ≡ some t)
        × Started at set_handlers init_addr_space system.st_size user.st_size k t
        × (run_user at buff ticks fuel lits itoa_buff slot errno t ≡ some after)
        × (after.console.port_e9
            ≡ s.console.port_e9
              ++ chars "Kernel Loaded!    \nEntering user mode...\n"
              ++ chars transcript)
        × (after.errno ≡ pos 22)
        × IsValid after.console
  bootsect-user_main buff ticks lits lo hi itoa_buff slot errno kb stack low high inside ha ha2 nz =
      let (k, t, runs, port, ends, started, program) =
        bootsect-main at set_handlers init_addr_space bios rounds fuel bootfile system user rest
          boot image disk reads packed s v first more literals enough mapped in
      let u : User = record { console = t.console; errno = errno } in
      let (after, prints, said, error, valid) =
        user_main_lem buff ticks fuel lits lo hi itoa_buff slot kb stack (omega arith) u
          started.valid
          (InProgram-Loaded lo hi fuel user u packed.user_small low high program lits inside) ha ha2
          nz in
      (
        k,
        t,
        after,
        runs,
        ends,
        started,
        rw
            (Started-runs_user at set_handlers init_addr_space system.st_size user.st_size k t
              started)
            prints,
        said
            ∙ ap (λ o. o ++ chars transcript)
                (started.port
                  ∙ ap (λ o. o ++ chars "Kernel Loaded!    \nEntering user mode...\n") port),
        error,
        valid,
      )
