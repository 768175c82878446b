-- ===== src/Tests/Wrapper.antt =====
-- A call of `write` from the stack of a process.
use zeos.Common.{ℤ, List, [], ◌∷◌, ◌++◌, refl, ◌≡◌, arith, some, ℕ, pos}
use zeos.Clock.{clock_routine}
use zeos.Kernel.{Event, clock, Run}
use zeos.Kernel.Invariant.{AllFit}
use zeos.Kernel.Machine.{
  State, Running, running_of, process_of, clock_on, write_events, Steps, stop, next,
  clock_interrupt, calls_write,
}
use zeos.Kernel.Simulation.{world_of, Steps-Run}
use zeos.Entry.Return.{handlers-transparent}
use zeos.Tests.Runs.{no_show, no_show-ShowsClock}
use zeos.Memory.{load32}
use zeos.Io.Print.{IsValid}
use zeos.Entry.Wrapper.{Process, write_wrapper}
use zeos.Entry.Write.{Returned, write_wrapper_lem}
use zeos.Tests.Machine.{text, text-IsBytes, stack-KernelBuffer, registers}
use zeos.Tests.Literals.{placed, placed-IsBytes}

-- The return address 0x114020, and the parameters of `write(1, 0x100000, 2)`.
abbrev stack_bytes : List ℕ
stack_bytes = 0x20 ∷ 0x40 ∷ 0x11 ∷ 0 ∷ 1 ∷ 0 ∷ 0 ∷ 0 ∷ 0 ∷ 0 ∷ 0x10 ∷ 0 ∷ 2 ∷ 0 ∷ 0 ∷ 0 ∷ []

abbrev process : Process
process = record {
  program = record {
    regs = registers;
    context = record {
      eip = 0x114100;
      cs = 0x23;
      e_flags = 0x202;
      oldesp = 0x113f10;
      oldss = 0x2b;
    };
    commands = [];
    state = record { x = 0; y = 3; mem = placed 0x113f10 stack_bytes 16 text; port_e9 = [] };
  };
  errno = pos 0;
}

process-IsValid : IsValid process.program.state
process-IsValid = record {
  column = omega arith;
  row = omega arith;
  bytes = placed-IsBytes 0x113f10 stack_bytes 16 text refl text-IsBytes;
}

-- The same process in a machine: a clock interrupt, the call, a release of a key.
abbrev scratch : State → ℕ × ℕ × ℕ
scratch s = (1, 2, 3)

abbrev labels : ℕ × ℕ
labels = (0x114111, 0x114222)

abbrev machine : Running
machine = running_of 6 process

abbrev ticked : Running
ticked = record machine {
  program = record machine.program {
    commands = machine.program.commands ++ 0x20 ∷ [];
    state = clock_on no_show machine.program.state;
  };
}

wrapped :
    (after : Process) × (write_wrapper 0x9000 7 0x114111 (process_of ticked) ≡ some after)
    × Returned 0x9000 7 0x113f00 0x114111 (process_of ticked) after
unfolding clock_routine load32
wrapped =
    write_wrapper_lem 0x9000 7 stack-KernelBuffer 0x113f00 0x114111 (process_of ticked)
      process-IsValid (omega arith) (omega arith) refl (omega arith) (omega arith) (omega arith)
      (omega arith)

abbrev events : List Event
events = (clock ∷ []) ++ (write_events 0x113f00 0x114111 (process_of ticked) ++ [])

steps : Steps no_show scratch 0x9000 labels machine events (running_of 7 wrapped.0)
unfolding clock_routine
steps = next (clock_interrupt (handlers-transparent scratch (clock_on no_show) machine.program).1) (
    next
      (calls_write {B = 0x113f00} refl (omega arith) (omega arith) (omega arith, omega arith)
        wrapped.1)
      stop)

Steps-Run_example :
    AllFit events
    × ((a' : ℤ) × Run no_show 0x9000
          (world_of machine (pos 0))
          events
          (world_of (running_of 7 wrapped.0) a'))
Steps-Run_example =
    Steps-Run no_show scratch 0x9000 labels stack-KernelBuffer no_show-ShowsClock
      (omega arith, omega arith) machine (running_of 7 wrapped.0) events process-IsValid
      (omega arith) steps (pos 0)
