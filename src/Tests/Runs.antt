-- ===== src/Tests/Runs.antt =====
-- Runs through interrupts, system calls and stores, and the entry points.
use mathlib.Core.Option
use zeos.Common.{
  ℕ, ℤ, ◌+◌, ◌%◌, ◌<◌, ◌≤◌, ◌⊎◌, none, ◌≡◌, refl, arith, inl, inr, List, [], ◌∷◌, ◌++◌, ltb,
  if◌then◌else◌, pos, negsuc, some, to_int,
}
use zeos.Io.{Console}
use zeos.Io.Print.{IsValid}
use zeos.Sys.{sys_write}
use zeos.Sys.Kept.{Kept, sys_write-Kept}
use zeos.Syscall.{syscall_handler}
use zeos.Kernel.{World, Event, clock, key, write, gettime, store, handle, Run}
use zeos.Kernel.Runs.{ShowsClock}
use zeos.Kernel.Invariant.{
  AllFit, AllHavePages, all_stored, clocks, Run-all_stored, Run-gettime, Run-exists,
}
use zeos.Entry.{Program, keyboard_handler, clock_handler, syscall_entry}
use zeos.Entry.Return.{handlers-transparent, returned, call_from, syscall_entry_lem}
use zeos.Tests.Machine.{registers, console, console-IsValid, stack-KernelBuffer, user}

sys_write-Kept_example :
    ((r : ℤ × Console) × (sys_write 0x9000 (pos 1) 0x11bfff (pos 2) console ≡ some r)
      × Kept console r.1)
    ⊎ ((sys_write 0x9000 (pos 1) 0x11bfff (pos 2) console ≡ none)
        × (0x11c000 < 0x11bfff + 2)
        × (0x11bfff + 2 < 0x11d000))
sys_write-Kept_example =
    sys_write-Kept 0x9000 (inl (omega arith)) (omega arith) console console-IsValid (pos 1) 0x11bfff
      (pos 2) (omega arith) (omega arith)

-- A library that leaves the console alone.
abbrev pub no_show : ℕ → Console → Console
no_show n c = c

pub no_show-ShowsClock : ShowsClock no_show
no_show-ShowsClock n c v = record { valid = v; user = λ a h. refl }

abbrev world : World
world = record { user = user; zeos_ticks = 0; answer = pos 0 }

abbrev events : List Event
events =
    clock
    ∷ key 30
    ∷ store 0x100000 72
    ∷ write (pos 1) 0x100000 (pos 2)
    ∷ key 158
    ∷ clock
    ∷ gettime
    ∷ []

events-AllFit : AllFit events
events-AllFit = (
  tt,
  (
    inl (omega arith),
    (
      (refl, omega arith),
      ((omega arith, omega arith), (inr (omega arith, omega arith), (tt, (tt, tt)))),
    ),
  ),
)

events-AllHavePages : AllHavePages events
events-AllHavePages = (tt, (tt, (tt, (inl (omega arith), (tt, (tt, (tt, tt)))))))

Run-exists_example : (t : World) × Run no_show 0x9000 world events t × IsValid t.user.console
Run-exists_example =
    Run-exists no_show 0x9000 stack-KernelBuffer no_show-ShowsClock world events console-IsValid
      events-AllFit events-AllHavePages

runs : (t : World) × Run no_show 0x9000 world events t × IsValid t.user.console
runs =
    Run-exists no_show 0x9000 stack-KernelBuffer no_show-ShowsClock world events console-IsValid
      events-AllFit events-AllHavePages

Run-all_stored_example :
    IsValid runs.0.user.console
    × ((a : ℕ) → 0x100000 ≤ a → runs.0.user.console.mem a ≡ all_stored events console.mem a)
Run-all_stored_example =
    Run-all_stored no_show 0x9000 stack-KernelBuffer no_show-ShowsClock world events runs.0
      console-IsValid events-AllFit runs.1

Run-gettime_example :
    (u : World) × (handle no_show 0x9000 gettime runs.0 ≡ some u)
    × (u.answer ≡ (
        if ltb (clocks events % 4294967296) 2147483648
        then pos (clocks events % 4294967296)
        else negsuc 0))
Run-gettime_example =
    Run-gettime no_show 0x9000 stack-KernelBuffer no_show-ShowsClock world events runs.0 refl
      console-IsValid events-AllFit runs.1

abbrev program : Program Console
program = record {
  regs = registers;
  context = record { eip = 0x114010; cs = 0x23; e_flags = 0x202; oldesp = 0x113fe0; oldss = 0x2b };
  commands = [];
  state = console;
}

handlers-transparent_example :
    (keyboard_handler (λ c. (1, 2, 3)) (no_show 0) program
      ≡ some (record program { commands = [] ++ 0x20 ∷ []; state = no_show 0 console }))
    × (clock_handler (λ c. (1, 2, 3)) (no_show 0) program
        ≡ some (record program { commands = [] ++ 0x20 ∷ []; state = no_show 0 console }))
handlers-transparent_example = handlers-transparent (λ c. (1, 2, 3)) (no_show 0) program

syscall_entry_lem_example :
    syscall_entry 0x9000 7 program
    ≡ Option.map
        (returned 0x9000 7 program)
        (syscall_handler (to_int 4) (call_from 0x9000 7 registers) console)
syscall_entry_lem_example = syscall_entry_lem 0x9000 7 program
