-- ===== src/Kernel/Invariant.antt =====
-- Runs of the kernel: what every run keeps, and which runs there are.
use zeos.Common.{
  ℕ, suc, ◌+◌, ◌%◌, ◌<◌, ◌≤◌, ◌≡◌, refl, sym, subst, ap, ◌∙◌, arith, List, [], ◌∷◌, some, ℤ, pos,
  negsuc, is_neg, ltb, if◌then◌else◌,
}
use zeos.Memory.{Memory, store8}
use zeos.Io.{Console}
use zeos.Io.Print.{IsValid}
use zeos.Libc.Print.{KernelBuffer}
use zeos.Sys.{sys_gettime}
use zeos.Clock.{get_clock_ticks}
use zeos.Kernel.{World, Event, clock, key, write, gettime, store, handle, answered, Run, stop, next}
use zeos.Kernel.Runs.{
  Fits, stored, ticked, ShowsClock, handle-Handled, handle-some, HasPages, after_gettime,
  gettime_handled,
}

abbrev pub AllFit : List Event → Type 0
AllFit [] = Unit {0}
AllFit (e ∷ es) = Fits e × AllFit es

abbrev pub AllHavePages : List Event → Type 0
AllHavePages [] = Unit {0}
AllHavePages (e ∷ es) = HasPages e × AllHavePages es

-- The program's own stores, in their order.
abbrev pub all_stored : List Event → Memory → Memory
all_stored [] m = m
all_stored (e ∷ es) m = all_stored es (stored e m)

-- The number of clock interrupts.
abbrev pub clocks : List Event → ℕ
clocks [] = 0
clocks (clock ∷ es) = suc (clocks es)
clocks (key event ∷ es) = clocks es
clocks (write fd buffer size ∷ es) = clocks es
clocks (gettime ∷ es) = clocks es
clocks (store addr value ∷ es) = clocks es

-- A byte after the stores depends on that byte before them.
stored-at : (e : Event) (m m' : Memory) (a : ℕ) → m a ≡ m' a → stored e m a ≡ stored e m' a
stored-at clock m m' a h = h
stored-at (key event) m m' a h = h
stored-at (write fd buffer size) m m' a h = h
stored-at gettime m m' a h = h
stored-at (store addr value) m m' a h = unfold store8 in ground (arith, h)

pub all_stored-at :
    (es : List Event) (m m' : Memory) (a : ℕ) → m a ≡ m' a → all_stored es m a ≡ all_stored es m' a
all_stored-at [] m m' a h = h
all_stored-at (e ∷ es) m m' a h =
    all_stored-at es (stored e m) (stored e m') a (stored-at e m m' a h)

clocks-ticked :
    (e : Event) (es : List Event) (n : ℕ)
    → (ticked e n + clocks es) % 4294967296 ≡ (n + clocks (e ∷ es)) % 4294967296
clocks-ticked clock es n = ground arith
clocks-ticked (key event) es n = refl
clocks-ticked (write fd buffer size) es n = refl
clocks-ticked gettime es n = refl
clocks-ticked (store addr value) es n = refl

ticked-lt : (e : Event) (n : ℕ) → n < 4294967296 → ticked e n < 4294967296
ticked-lt clock n h = omega arith
ticked-lt (key event) n h = h
ticked-lt (write fd buffer size) n h = h
ticked-lt gettime n h = h
ticked-lt (store addr value) n h = h

-- What `gettime` answers when the counter is `n`.
abbrev answer_at : ℕ → ℤ
answer_at n = let r = sys_gettime n in if is_neg r then negsuc 0 else r

answer_at_lem :
    (n : ℕ) → n < 4294967296 → answer_at n ≡ (if ltb n 2147483648 then pos n else negsuc 0)
unfolding sys_gettime get_clock_ticks
answer_at_lem n h = ground arith

module _ (show : ℕ → Console → Console) (buff : ℕ) (k : KernelBuffer buff)
    (shows : ShowsClock show) where
  -- With the kernel's local array in kernel memory off the screen, and a display of the clock that
  -- keeps a valid console valid and user memory as it is, in every run from a valid console through
  -- events that fit, whatever the order of interrupts, system calls and stores, the console stays
  -- valid, and the memory from 0x100000 on is what the program itself has stored there: no
  -- interrupt and no system call, refused or not, changes the program's memory.
  pub Run-all_stored :
      (s : World) (es : List Event) (t : World)
      → IsValid s.user.console
      → AllFit es
      → Run show buff s es t
      → IsValid t.user.console
        × ((a : ℕ) → 0x100000 ≤ a → t.user.console.mem a ≡ all_stored es s.user.console.mem a)
  Run-all_stored s [] t v f stop = (v, λ a h. refl)
  Run-all_stored s (e ∷ es) t v f (next {t = u} h r) =
      let d = handle-Handled show buff k shows s v e u f.0 h in
      let (valid, mem) = Run-all_stored u es t d.valid f.1 r in
      (
        valid,
        λ a hi.
            mem a hi
            ∙ all_stored-at es u.user.console.mem (stored e s.user.console.mem) a (d.user_mem a hi),
      )

  -- In every run from a valid console through events that fit, the counter is what it was plus the
  -- number of clock interrupts, modulo 2 ^ 32.
  pub Run-clocks :
      (s : World) (es : List Event) (t : World)
      → s.zeos_ticks < 4294967296
      → IsValid s.user.console
      → AllFit es
      → Run show buff s es t
      → t.zeos_ticks ≡ (s.zeos_ticks + clocks es) % 4294967296
  Run-clocks s [] t lt v f stop = omega arith
  Run-clocks s (e ∷ es) t lt v f (next {t = u} h r) =
      let d = handle-Handled show buff k shows s v e u f.0 h in
      Run-clocks u es t (subst (λ n. n < 4294967296) (sym d.ticks) (ticked-lt e s.zeos_ticks lt))
        d.valid f.1 r
      ∙ ap (λ n. (n + clocks es) % 4294967296) d.ticks
      ∙ clocks-ticked e es s.zeos_ticks

  -- With the kernel's local array in kernel memory off the screen, and a display of the clock that
  -- keeps a valid console valid and user memory as it is, after every run through events that fit
  -- that began on a valid console with the counter at 0, `gettime` returns the number of clock
  -- interrupts modulo 2 ^ 32 if that is below 2 ^ 31, and -1 otherwise, as the wrapper takes the
  -- negative `int` for an error.
  pub Run-gettime :
      (s : World) (es : List Event) (t : World)
      → s.zeos_ticks ≡ 0
      → IsValid s.user.console
      → AllFit es
      → Run show buff s es t
      → (u : World) × (handle show buff gettime t ≡ some u)
        × (u.answer ≡ (
            if ltb (clocks es % 4294967296) 2147483648
            then pos (clocks es % 4294967296)
            else negsuc 0))
  Run-gettime s es t z v f r =
      let count : t.zeos_ticks ≡ clocks es % 4294967296 =
        Run-clocks s es t (omega arith) v f r ∙ omega arith in
      (
        answered (after_gettime t) t,
        gettime_handled show buff t,
        ap answer_at count ∙ answer_at_lem (clocks es % 4294967296) (omega arith),
      )

  -- With the kernel's local array in kernel memory off the screen, and a display of the clock that
  -- keeps a valid console valid and user memory as it is, there is a run from every valid console
  -- through any list of events that fit, if no call of `write` has a block that ends in the page from
  -- 0x11c000 on: keys of the map and releases, calls of `write` with any other `int`s and 32-bit
  -- address, `gettime`, clock interrupts, and stores to the data pages. No loop of the kernel fails to
  -- end and no copy faults, and the console it ends with is valid.
  pub Run-exists :
      (s : World) (es : List Event)
      → IsValid s.user.console
      → AllFit es
      → AllHavePages es
      → (t : World) × Run show buff s es t × IsValid t.user.console
  Run-exists s [] v f p = (s, stop, v)
  Run-exists s (e ∷ es) v f p =
      let (u, h, d) = handle-some show buff k shows s v e f.0 p.0 in
      let (t, r, valid) = Run-exists u es d.valid f.1 p.1 in (t, next h r, valid)
