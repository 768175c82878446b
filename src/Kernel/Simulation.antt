-- ===== src/Kernel/Simulation.antt =====
-- The machine with registers and stacks runs as the kernel's events say.
use zeos.Common.{
  ℕ, ◌+◌, ◌<◌, ◌≤◌, ◌≡◌, refl, sym, subst, ◌∙◌, arith, List, [], ◌∷◌, ◌++◌, some, ℤ, pos, to_int,
  ◌%◌,
}
use zeos.Memory.{Memory, store32, load32}
use zeos.Memory.Laws.{load32-lt}
use zeos.Io.{Console}
use zeos.Io.Print.{IsValid}
use zeos.Libc.Print.{KernelBuffer}
use zeos.Entry.Return.{handlers-transparent}
use zeos.Entry.Wrapper.{Process, write_wrapper, gettime_wrapper, esp}
use zeos.Entry.Write.{write_wrapper-Returned, to_int-IsInt}
use zeos.Entry.Gettime.{gettime_wrapper_lem}
use zeos.Kernel.{World, Event, clock, key, write, gettime, handle, Run, stop, next}
use zeos.Kernel.Runs.{ShowsClock}
use zeos.Kernel.Invariant.{AllFit, Run-all_stored, Run-clocks, clocks, all_stored}
use zeos.Kernel.Machine.{
  State, Running, ticks_of, console_of, process_of, running_of, clock_on, word_stores, write_events,
  gettime_events, AreWords, Step, clock_interrupt, keyboard_interrupt, calls_write, calls_gettime,
  stores, computes, Steps, stop, next,
}
use zeos.Kernel.Pushes.{append-AllFit, append-Run, pushed-AllFit, pushed-Run}

-- What the events of the kernel see of the machine, with the answer of its last system call.
abbrev pub world_of : Running → (answer : ℤ) → World
world_of s answer = record {
  user = record { console = console_of s; errno = s.errno };
  zeos_ticks = ticks_of s;
  answer = answer;
}

some-injective : {A : Type 0} {a b : A} → some a ≡ some b → a ≡ b
some-injective e = cc

module _ (show : ℕ → Console → Console) (scratch : State → ℕ × ℕ × ℕ) (buff : ℕ) (labels : ℕ × ℕ)
    (k : KernelBuffer buff) (shows : ShowsClock show)
    (words : (labels.0 < 4294967296) × (labels.1 < 4294967296)) where
  -- The events of a step lead from what it starts with to what it ends with.
  record Simulated (s : Running) (es : List Event) (t : Running) : Type 0 where
    fit : AllFit es
    run : (a : ℤ) → (a' : ℤ) × Run show buff (world_of s a) es (world_of t a')

  module _ (s : Running) (B : ℕ) (q : Process) (v : IsValid (console_of s)) (lo : 0x100000 ≤ B)
      (are : AreWords s.program.regs) where
    abbrev m₁ : (frame : ℕ) → Memory
    m₁ frame = store32 (B + frame) s.program.regs.ebp (console_of s).mem

    calls_write-Simulated :
        esp (process_of s) ≡ B + 16
        → B + 32 ≤ 0x114000
        → write_wrapper buff (ticks_of s) labels.0 (process_of s) ≡ some q
        → Simulated s (write_events B labels.0 (process_of s)) (running_of (ticks_of s) q)
    unfolding handle
    calls_write-Simulated e hi h =
        let p = process_of s in
        let mem = (console_of s).mem in
        let m₂ = store32 (B + 8) s.program.regs.ebx (m₁ 12) in
        let m₃ = store32 (B + 4) labels.0 m₂ in
        let r =
          write_wrapper-Returned buff (ticks_of s) k B labels.0 p v lo (omega arith) e words.0 are.0
            are.1 q h in
        let given =
          write (to_int (load32 (B + 20) mem)) (load32 (B + 24) mem)
            (to_int (load32 (B + 28) mem)) in
        let fits : AllFit (given ∷ []) = (
          (
            load32-lt (B + 24) mem v.bytes,
            to_int-IsInt (load32 (B + 28) mem) (load32-lt (B + 28) mem v.bytes),
          ),
          tt,
        ) in
        let f₁ = word_stores B (B + 12) ++ given ∷ [] in
        let f₂ = word_stores (B + 4) labels.0 ++ f₁ in
        let f₃ = word_stores (B + 8) s.program.regs.ebx ++ f₂ in
        record {
          fit = pushed-AllFit (B + 12) s.program.regs.ebp f₃ (omega arith) (omega arith) (
              pushed-AllFit (B + 8) s.program.regs.ebx f₂ (omega arith) (omega arith) (
                pushed-AllFit (B + 4) labels.0 f₁ (omega arith) (omega arith)
                  (pushed-AllFit B (B + 12) (given ∷ []) (omega arith) (omega arith) fits)));
          run = λ a.
              let w = world_of s a in
              (
                r.answer,
                pushed-Run show buff (B + 12) s.program.regs.ebp mem w _ _ (omega arith)
                    (omega arith)
                    (pushed-Run show buff (B + 8) s.program.regs.ebx (m₁ 12) w _ _ (omega arith)
                      (omega arith)
                      (pushed-Run show buff (B + 4) labels.0 m₂ w _ _ (omega arith) (omega arith) (
                        pushed-Run show buff B (B + 12) m₃ w _ (given ∷ []) (omega arith)
                          (omega arith) (next (rw (r.served, handle) refl) stop)))),
              );
        }

    calls_gettime-Simulated :
        ticks_of s < 4294967296
        → esp (process_of s) ≡ B + 12
        → B + 16 ≤ 0x114000
        → gettime_wrapper buff (ticks_of s) labels.1 (process_of s) ≡ some q
        → Simulated s (gettime_events B labels.1 (process_of s)) (running_of (ticks_of s) q)
    unfolding handle
    calls_gettime-Simulated small e hi h =
        let p = process_of s in
        let mem = (console_of s).mem in
        let m₂ = store32 (B + 4) labels.1 (m₁ 8) in
        let (after, answer, ends, _, served, _, _, _, _) =
          gettime_wrapper_lem buff (ticks_of s) small B labels.1 p lo (omega arith) e words.1
            are.0 in
        let same : after ≡ q = some-injective (sym ends ∙ h) in
        let f₁ = word_stores B (B + 8) ++ gettime ∷ [] in
        let f₂ = word_stores (B + 4) labels.1 ++ f₁ in
        record {
          fit = pushed-AllFit (B + 8) s.program.regs.ebp f₂ (omega arith) (omega arith) (
              pushed-AllFit (B + 4) labels.1 f₁ (omega arith) (omega arith)
                (pushed-AllFit B (B + 8) (gettime ∷ []) (omega arith) (omega arith) (tt, tt)));
          run = λ a.
              let w = world_of s a in
              (
                answer,
                subst
                    (λ t.
                      Run show buff w (gettime_events B labels.1 p)
                        (world_of (running_of (ticks_of s) t) answer))
                    same
                    (pushed-Run show buff (B + 8) s.program.regs.ebp mem w _ _ (omega arith)
                      (omega arith)
                      (pushed-Run show buff (B + 4) labels.1 (m₁ 8) w _ _ (omega arith)
                        (omega arith)
                        (pushed-Run show buff B (B + 8) m₂ w _ (gettime ∷ []) (omega arith)
                          (omega arith) (next (rw (served, handle) refl) stop)))),
              );
        }

  -- An interrupt's handler returns with the routine's effect.
  Step-Simulated :
      (s t : Running) (es : List Event)
      → IsValid (console_of s)
      → ticks_of s < 4294967296
      → Step show scratch buff labels s es t
      → Simulated s es t
  unfolding handle
  Step-Simulated s t es v small (clock_interrupt {p = p} h) =
      subst (λ r. Simulated s (clock ∷ []) (record s { program = r }))
        (some-injective (sym (handlers-transparent scratch (clock_on show) s.program).1 ∙ h))
        (record { fit = (tt, tt); run = λ a. (a, next refl stop) })
  Step-Simulated s t es v small (keyboard_interrupt {p = p} {event = event} {c = c} f e h) =
      subst (λ r. Simulated s (key event ∷ []) (record s { program = r }))
        (some-injective
          (sym (handlers-transparent scratch (λ (x : State). (x.0, c)) s.program).0 ∙ h))
        (record { fit = (f, tt); run = λ a. (a, next (rw (e, handle) refl) stop) })
  Step-Simulated s t es v small (calls_write {q = q} {B = B} e lo hi are h) =
      calls_write-Simulated s B q v lo are e hi h
  Step-Simulated s t es v small (calls_gettime {q = q} {B = B} e lo hi are h) =
      calls_gettime-Simulated s B q v lo are small e hi h
  Step-Simulated s t es v small (stores {addr = addr} {value = value} f) = record {
    fit = (f, tt);
    run = λ a. (a, next (rw f.0 refl) stop);
  }
  Step-Simulated s t es v small (computes regs esp eip) = record { fit = tt; run = λ a. (a, stop) }

  -- With the kernel's local array in kernel memory off the screen, a display of the clock that keeps a
  -- valid console valid and user memory as it is, and labels of 32 bits: every run of the machine from
  -- a valid console and a counter of 32 bits, through interrupts, calls of the wrappers with their
  -- stack in the data pages, stores and computations of the program, in any order and whatever the C
  -- code leaves in eax, ecx and edx, is a run of the kernel through events that fit, where a call is
  -- the stores of its pushes and the system call with the parameters on the stack.
  pub Steps-Run :
      (s t : Running) (es : List Event)
      → IsValid (console_of s)
      → ticks_of s < 4294967296
      → Steps show scratch buff labels s es t
      → (a : ℤ) → AllFit es × ((a' : ℤ) × Run show buff (world_of s a) es (world_of t a'))
  Steps-Run s t es v small stop a = (tt, (a, stop))
  Steps-Run s t es v small (next {t = u} {es = fs} {fs = gs} step rest) a =
      let sim = Step-Simulated s u fs v small step in
      let (a₁, first) = sim.run a in
      let valid =
        (Run-all_stored show buff k shows (world_of s a) fs (world_of u a₁) v sim.fit first).0 in
      let count =
        Run-clocks show buff k shows (world_of s a) fs (world_of u a₁) small v sim.fit first in
      let (fits, (a₂, then)) = Steps-Run u t gs valid (omega (arith, count)) rest a₁ in
      (
        append-AllFit fs gs sim.fit fits,
        (a₂, append-Run show buff (world_of s a) (world_of u a₁) (world_of t a₂) fs gs first then),
      )

  -- What a run of the machine keeps.
  pub Steps-kept :
      (s t : Running) (es : List Event)
      → IsValid (console_of s)
      → ticks_of s < 4294967296
      → Steps show scratch buff labels s es t
      → IsValid (console_of t)
        × (ticks_of t ≡ (ticks_of s + clocks es) % 4294967296)
        × ((a : ℕ) → 0x100000 ≤ a → (console_of t).mem a ≡ all_stored es (console_of s).mem a)
  Steps-kept s t es v small steps =
      let (fits, (a', run)) = Steps-Run s t es v small steps (pos 0) in
      let (valid, mem) =
        Run-all_stored show buff k shows (world_of s (pos 0)) es (world_of t a') v fits run in
      (
        valid,
        Run-clocks show buff k shows (world_of s (pos 0)) es (world_of t a') small v fits run,
        mem,
      )
