-- ===== src/Kernel/Machine.antt =====
-- The run time once more, with registers and stacks: interrupts go through the handlers of entry.S and
-- system calls through the wrappers of libc_sys.S. The program computes what it likes in its own
-- registers. `labels` are the addresses of the two `sys_ret`.
use zeos.Common.{ℕ, ◌+◌, ◌<◌, ◌≤◌, ◌≡◌, ◌/◌, ◌%◌, List, [], ◌∷◌, ◌++◌, some, ℤ, to_int}
use zeos.Memory.{load32, store8}
use zeos.Io.{Console}
use zeos.Clock.{clock_routine}
use zeos.Keyboard.{keyboard_routine}
use zeos.Entry.{Registers, Program, keyboard_handler, clock_handler}
use zeos.Entry.Wrapper.{Process, write_wrapper, gettime_wrapper, esp, regs_of, memory}
use zeos.Kernel.{Event, clock, key, write, gettime, store}
use zeos.Kernel.Runs.{Fits}

-- The kernel's state under a program: the counter and the console.
abbrev pub State : Type 0
State = ℕ × Console

pub record Running : Type 0 where
  pub program : Program State
  pub errno : ℤ

abbrev pub ticks_of : Running → ℕ
ticks_of s = s.program.state.0

abbrev pub console_of : Running → Console
console_of s = s.program.state.1

abbrev pub with_console : Console → Running → Running
with_console c s = record s { program = record s.program { state = (ticks_of s, c) } }

-- The machine as the wrappers see it, and back.
abbrev pub process_of : Running → Process
process_of s = record {
  program = record {
    regs = s.program.regs;
    context = s.program.context;
    commands = s.program.commands;
    state = console_of s;
  };
  errno = s.errno;
}

abbrev pub running_of : (ticks : ℕ) → Process → Running
running_of ticks q = record {
  program = record {
    regs = q.program.regs;
    context = q.program.context;
    commands = q.program.commands;
    state = (ticks, q.program.state);
  };
  errno = q.errno;
}

-- The four bytes of a word that is stored.
abbrev pub word_stores : (addr value : ℕ) → List Event
word_stores addr value =
    store addr (value % 256)
    ∷ store (addr + 1) (value / 256 % 256)
    ∷ store (addr + 2) (value / 65536 % 256)
    ∷ store (addr + 3) (value / 16777216 % 256)
    ∷ []

-- What the wrapper of `write` pushes, and its call; the stack pointer is 16 above `B`.
abbrev pub write_events : (B label : ℕ) → Process → List Event
write_events B label q =
    word_stores (B + 12) (regs_of q).ebp
    ++ word_stores (B + 8) (regs_of q).ebx
    ++ word_stores (B + 4) label
    ++ word_stores B (B + 12)
    ++ write (to_int (load32 (B + 20) (memory q))) (load32 (B + 24) (memory q))
        (to_int (load32 (B + 28) (memory q)))
      ∷ []

abbrev pub gettime_events : (B label : ℕ) → Process → List Event
gettime_events B label q =
    word_stores (B + 8) (regs_of q).ebp
    ++ word_stores (B + 4) label
    ++ word_stores B (B + 8)
    ++ gettime ∷ []

-- 32-bit registers, as far as the wrappers push them.
abbrev pub AreWords : Registers → Type 0
AreWords r = (r.ebp < 4294967296) × (r.ebx < 4294967296)

abbrev pub clock_on : (zeos_show_clock : ℕ → Console → Console) → State → State
clock_on zeos_show_clock (ticks, c) = clock_routine zeos_show_clock ticks c

module _ (zeos_show_clock : ℕ → Console → Console) (scratch : State → ℕ × ℕ × ℕ) (buff : ℕ)
    (labels : ℕ × ℕ) where
  -- A step of the machine, with the events that it is for the kernel.
  pub data Step : Running → List Event → Running → Type 0 where
    clock_interrupt :
        {s : Running} {p : Program State}
        → clock_handler scratch (clock_on zeos_show_clock) s.program ≡ some p
        → Step s (clock ∷ []) (record s { program = p })
    keyboard_interrupt :
        {s : Running} {p : Program State} {event : ℕ} {c : Console}
        → Fits (key event)
        → keyboard_routine event (console_of s) ≡ some c
        → keyboard_handler scratch (λ (ticks, _). (ticks, c)) s.program ≡ some p
        → Step s (key event ∷ []) (record s { program = p })
    calls_write :
        {s : Running} {q : Process} {B : ℕ}
        → esp (process_of s) ≡ B + 16
        → 0x100000 ≤ B
        → B + 32 ≤ 0x114000
        → AreWords s.program.regs
        → write_wrapper buff (ticks_of s) labels.0 (process_of s) ≡ some q
        → Step s (write_events B labels.0 (process_of s)) (running_of (ticks_of s) q)
    calls_gettime :
        {s : Running} {q : Process} {B : ℕ}
        → esp (process_of s) ≡ B + 12
        → 0x100000 ≤ B
        → B + 16 ≤ 0x114000
        → AreWords s.program.regs
        → gettime_wrapper buff (ticks_of s) labels.1 (process_of s) ≡ some q
        → Step s (gettime_events B labels.1 (process_of s)) (running_of (ticks_of s) q)
    stores :
        {s : Running} {addr value : ℕ}
        → Fits (store addr value)
        → Step s
            (store addr value ∷ [])
            (with_console (record (console_of s) { mem = store8 addr value (console_of s).mem }) s)
    computes :
        {s : Running} (regs : Registers) (esp eip : ℕ)
        → Step s [] (record s {
          program = record s.program {
            regs = regs;
            context = record s.program.context { oldesp = esp; eip = eip };
          };
        })

  pub data Steps : Running → List Event → Running → Type 0 where
    stop : {s : Running} → Steps s [] s
    next :
        {s t u : Running} {es fs : List Event} → Step s es t → Steps t fs u → Steps s (es ++ fs) u
