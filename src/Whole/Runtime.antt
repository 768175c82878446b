-- ===== src/Whole/Runtime.antt =====
-- From the floppy into the run time: what holds in every run of the machine after the boot.
use zeos.Common.{
  ℕ, ◌+◌, ◌%◌, ◌<◌, ◌≤◌, ◌≡◌, ◌⊎◌, sym, subst, ap, ◌∙◌, arith, List, [], get_or, Option, some, true,
  ℤ,
}
use zeos.Io.{Console}
use zeos.Io.Print.{IsValid}
use zeos.Interrupt.{Idt}
use zeos.Mm.Paging.{Paging, init_mm}
use zeos.Libc.Print.{KernelBuffer}
use zeos.Build.{File}
use zeos.Boot.{Machine, Image, is_mapped, main}
use zeos.Bootsect.{Bios, bootsect}
use zeos.Bootsect.Track.{ReadsDisk}
use zeos.Bootsect.Start.{IsPacked, HasLiterals, bootsect-main}
use zeos.Entry.{Registers}
use zeos.Kernel.{Event}
use zeos.Kernel.Runs.{ShowsClock}
use zeos.Kernel.Invariant.{clocks, all_stored, all_stored-at}
use zeos.Kernel.Machine.{State, Running, console_of, ticks_of, Steps}
use zeos.Kernel.Simulation.{Steps-kept}
use zeos.Whole.{user_linked}

-- The process as `return_gate` enters it, with the general registers and `errno` as they happen to be.
abbrev pub entered : Machine → (general : Registers) → (errno : ℤ) → Running
entered t general errno = record {
  program = record {
    regs = record general { ds = t.cpu.ds; es = t.cpu.es; fs = t.cpu.fs; gs = t.cpu.gs };
    context = record {
      eip = t.cpu.eip;
      cs = t.cpu.cs;
      e_flags = t.cpu.e_flags;
      oldesp = t.cpu.esp;
      oldss = t.cpu.ss;
    };
    commands = [];
    state = (t.zeos_ticks, t.console);
  };
  errno = errno;
}

some-injective : {A : Type 0} {a b : A} → some a ≡ some b → a ≡ b
some-injective e = cc

module _ (at : Image) (set_handlers : Idt → Idt) (init_addr_space : Paging → Paging) (bios : Bios)
    (rounds fuel : ℕ) (bootfile : Option File) (system user : File) (rest boot image : List ℕ)
    (disk : ℕ → ℕ) (reads : ReadsDisk bios disk)
    (packed : IsPacked bootfile system user rest boot image disk) (s : Machine)
    (v : IsValid s.console) (first : (i : ℕ) → i < 512 → s.console.mem (0x7c00 + i) ≡ disk i)
    (more : 1024 < rounds) (literals : HasLiterals at system) (enough : 30 < fuel)
    (mapped : (a : ℕ)
      → 0x1000 ≤ a
      → a < 0x11c000
      → is_mapped (init_addr_space (init_mm at.layout (record s.paging { cr0 = 1 }))) a
        ≡ true) where
  -- What the boot leaves.
  booted :
      (k t : Machine)
      → bootsect bios rounds s ≡ some k
      → main at set_handlers init_addr_space fuel k ≡ some t
      → IsValid t.console
        × (t.zeos_ticks ≡ 0)
        × ((i : ℕ)
            → i < user.st_size
            → (i < 0x13ffc) ⊎ (0x14000 ≤ i)
            → t.console.mem (0x100000 + i) ≡ get_or user.bytes i 0)
  booted k t boots runs =
      let (k', t', boots', _, runs', started, program) =
        bootsect-main at set_handlers init_addr_space bios rounds fuel bootfile system user rest
          boot image disk reads packed s v first more literals enough mapped in
      let same_k : k' ≡ k = some-injective (sym boots' ∙ boots) in
      let same_t : t' ≡ t =
        some-injective (sym runs' ∙ ap (main at set_handlers init_addr_space fuel) same_k ∙ runs) in
      subst
        (λ (m : Machine).
          IsValid m.console
          × (m.zeos_ticks ≡ 0)
          × ((i : ℕ)
              → i < user.st_size
              → (i < 0x13ffc) ⊎ (0x14000 ≤ i)
              → m.console.mem (0x100000 + i) ≡ get_or user.bytes i 0))
        same_t (started.valid, started.no_ticks, program)

  -- Let `build` have made the image of an accepted boot sector without setup sectors, a system of at
  -- least 12 bytes and a user program of at most 0x1c000 bytes, both files whole and together at most
  -- 0x7fff0 bytes; let the disk begin with this image, the BIOS read it as documented and have put its
  -- first sector to 0x7c00, and the system contain the two literals of `main` behind its header; let
  -- there be a valid console, more than 1024 rounds for the disk, fuel above 30, an address space that
  -- has pages from 0x1000 to 0x11c000, the kernel's local array in kernel memory off the screen, labels
  -- of 32 bits in the wrappers, and a display of the clock that keeps a valid console valid and user
  -- memory as it is. In every run of the machine that begins where `bootsect` and then `main` end, with
  -- any general registers and `errno`, through interrupts, calls of the wrappers, stores and
  -- computations of the program, the console stays valid, the counter is the number of clock
  -- interrupts since the boot modulo 2 ^ 32, and where the program's file was loaded, but for the top
  -- word of the user's stack, user memory is that file with the program's own stores, the pushes of its
  -- calls among them.
  pub bootsect-Steps :
      (show : ℕ → Console → Console) (scratch : State → ℕ × ℕ × ℕ) (buff : ℕ) (labels : ℕ × ℕ)
      → KernelBuffer buff
      → ShowsClock show
      → (labels.0 < 4294967296) × (labels.1 < 4294967296)
      → (k t : Machine) (general : Registers) (errno : ℤ) (es : List Event) (u : Running)
      → bootsect bios rounds s ≡ some k
      → main at set_handlers init_addr_space fuel k ≡ some t
      → Steps show scratch buff labels (entered t general errno) es u
      → IsValid (console_of u)
        × (ticks_of u ≡ clocks es % 4294967296)
        × ((i : ℕ)
            → i < user.st_size
            → (i < 0x13ffc) ⊎ (0x14000 ≤ i)
            → (console_of u).mem (0x100000 + i) ≡ all_stored es (user_linked user) (0x100000 + i))
  bootsect-Steps show scratch buff labels kb shows words k t general errno es u boots runs steps =
      let (valid, none_yet, program) = booted k t boots runs in
      let (valid', count, mem) =
        Steps-kept show scratch buff labels kb shows words (entered t general errno) u es valid
          (omega (arith, none_yet)) steps in
      (
        valid',
        count ∙ omega (arith, none_yet),
        λ i lt off.
            mem (0x100000 + i) (omega arith)
            ∙ all_stored-at es t.console.mem (user_linked user) (0x100000 + i)
                (program i lt off ∙ ap (λ j. get_or user.bytes j 0) {x = i} (omega arith)),
      )
