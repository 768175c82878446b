-- ===== src/Kernel.antt =====
-- The kernel at run time: the interrupts of clock.c and keyboard.c and the system calls of entry.S, in
-- the order in which they come. System calls and interrupts run with interrupts off, so they do not
-- meet. The user program is what it asks for and what it stores. What `zeos_show_clock` of libzeos.a
-- does with the console is a parameter.
pub mod Runs
pub mod Invariant
pub mod Machine
pub mod Pushes
pub mod Simulation
use zeos.Common.{
  ℕ, zero, suc, ◌+◌, ◌<◌, ◌≤◌, ◌≡◌, ◌⊎◌, Bool, leb, ltb, ◌&&◌, if◌then◌else◌, List, [], ◌∷◌, Option,
  none, some, ℤ, pos, u32,
}
use zeos.Memory.{store8}
use zeos.Io.{Console}
use zeos.Clock.{clock_routine}
use zeos.Keyboard.{keyboard_routine}
use zeos.Syscall.{User, user_write, user_gettime}

-- `user` is what the program sees, `answer` what its last call returned.
pub record World : Type 0 where
  pub user : User
  pub zeos_ticks : ℕ
  pub answer : ℤ

pub data Event : Type 0 where
  clock : Event
  -- the byte at the keyboard's port
  key : (event : ℕ) → Event
  write : (fd : ℤ) (buffer : ℕ) (size : ℤ) → Event
  gettime : Event
  -- a byte that the program stores
  store : (addr value : ℕ) → Event

abbrev pub with_console : Console → World → World
with_console c w = record w { user = record w.user { console = c } }

abbrev pub answered : ℤ × User → World → World
answered (answer, u) w = record w { user = u; answer = answer }

-- The data pages of the process.
abbrev pub in_data : ℕ → Bool
in_data addr = leb 0x100000 addr && ltb addr 0x114000

module _ (zeos_show_clock : ℕ → Console → Console) (buff : ℕ) where
  -- `none` is what the components' functions leave open, or a store or a copy that faults.
  unfoldable pub handle : Event → World → Option World
  handle clock w =
      let (ticks, c) = clock_routine zeos_show_clock w.zeos_ticks w.user.console in
      some (record (with_console c w) { zeos_ticks = ticks })
  handle (key event) w = elim (keyboard_routine event w.user.console) [
    | none ↦ none
    | some c ↦ some (with_console c w)
  ]
  handle (write fd buffer size) w = elim (user_write buff w.zeos_ticks fd buffer size w.user) [
    | none ↦ none
    | some r ↦ some (answered r w)
  ]
  handle gettime w = elim (user_gettime buff w.zeos_ticks w.user) [
    | none ↦ none
    | some r ↦ some (answered r w)
  ]
  handle (store addr value) w =
      let c = w.user.console in
      if in_data addr
      then some (with_console (record c { mem = store8 addr value c.mem }) w)
      else none

  -- A run of the machine through the given events.
  pub data Run : World → List Event → World → Type 0 where
    stop : {w : World} → Run w [] w
    next :
        {s t u : World} {e : Event} {es : List Event}
        → handle e s ≡ some t
        → Run t es u
        → Run s (e ∷ es) u
