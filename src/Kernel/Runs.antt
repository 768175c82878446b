-- ===== src/Kernel/Runs.antt =====
-- One event of the kernel's run.
use zeos.Common.{
  ℕ, ◌+◌, ◌<◌, ◌≤◌, ◌≡◌, ◌⊎◌, refl, sym, subst, ◌∙◌, none, arith, inl, inr, true, if◌then◌else◌,
  some, ℤ, negsuc, is_neg, pos_part, u32,
}
use zeos.Memory.{Memory, store8}
use zeos.Memory.Laws.{store8-IsBytes}
use zeos.Io.{Console}
use zeos.Io.Print.{IsValid}
use zeos.Libc.Print.{KernelBuffer}
use zeos.Clock.{clock_routine}
use zeos.Keyboard.Routine.{keyboard_routine-press, keyboard_routine-release}
use zeos.Sys.{sys_gettime}
use zeos.Sys.Errors.{IsInt}
use zeos.Sys.Kept.{Kept, sys_write-Kept, some-injective, none-ne-some}
use zeos.Syscall.{User, negate}
use zeos.Syscall.Dispatch.{user_write-sys_write, user_write-none, user_gettime-sys_gettime}
use zeos.Kernel.{
  World, Event, clock, key, write, gettime, store, handle, in_data, with_console, answered,
}

-- A byte of the keyboard's that has an entry in the map, an address and an `int` as they fit into
-- registers, and a byte stored to the data pages.
abbrev pub Fits : Event → Type 0
Fits clock = Unit {0}
Fits (key event) = (event < 98) ⊎ ((128 ≤ event) × (event < 256))
Fits (write fd buffer size) = (buffer < 4294967296) × IsInt size
Fits gettime = Unit {0}
Fits (store addr value) = (in_data addr ≡ true) × (value < 256)

-- A call of `write` whose block does not end in the page from 0x11c000 on, which `access_ok` accepts
-- although the process does not have it.
abbrev pub HasPages : Event → Type 0
HasPages clock = Unit {0}
HasPages (key event) = Unit {0}
HasPages (write fd buffer size) =
    (buffer + pos_part size ≤ 0x11c000) ⊎ (0x11d000 ≤ buffer + pos_part size)
HasPages gettime = Unit {0}
HasPages (store addr value) = Unit {0}

-- The user's memory after the event, if it was `m`.
abbrev pub stored : Event → Memory → Memory
stored clock m = m
stored (key event) m = m
stored (write fd buffer size) m = m
stored gettime m = m
stored (store addr value) m = store8 addr value m

abbrev pub ticked : Event → ℕ → ℕ
ticked clock n = u32 (n + 1)
ticked (key event) n = n
ticked (write fd buffer size) n = n
ticked gettime n = n
ticked (store addr value) n = n

-- What an event does to the world.
pub record Handled (e : Event) (s t : World) : Type 0 where
  pub valid : IsValid t.user.console
  pub user_mem : (a : ℕ) → 0x100000 ≤ a → t.user.console.mem a ≡ stored e s.user.console.mem a
  pub ticks : t.zeos_ticks ≡ ticked e s.zeos_ticks

-- What the library's display of the clock does: it writes to the console and not to user memory.
abbrev pub ShowsClock : (ℕ → Console → Console) → Type 0
ShowsClock show = (n : ℕ) (c : Console) → IsValid c → Kept c (show n c)

-- What `gettime` returns to the program.
abbrev pub after_gettime : World → ℤ × User
after_gettime s =
    let r = sys_gettime s.zeos_ticks in
    (
      if is_neg r then negsuc 0 else r,
      record s.user { errno = if is_neg r then negate r else s.user.errno },
    )

pub gettime_handled :
    (show : ℕ → Console → Console) (buff : ℕ) (s : World)
    → handle show buff gettime s ≡ some (answered (after_gettime s) s)
unfolding handle
gettime_handled show buff s = rw (user_gettime-sys_gettime buff s.zeos_ticks s.user, handle) refl

module _ (show : ℕ → Console → Console) (buff : ℕ) (k : KernelBuffer buff) (shows : ShowsClock show)
    (s : World) (v : IsValid s.user.console) where
  -- The event is handled, or the kernel does not get to an end with it.
  abbrev Result : Event → Type 0
  Result e =
      ((t : World) × (handle show buff e s ≡ some t) × Handled e s t)
      ⊎ ((handle show buff e s ≡ none) × ¬ HasPages e)

  clock-Handled : Result clock
  unfolding handle clock_routine
  clock-Handled =
      let kept = shows (u32 (s.zeos_ticks + 1)) s.user.console v in
      inl (_, refl, record { valid = kept.valid; user_mem = kept.user; ticks = refl })

  key-Handled : (event : ℕ) → Fits (key event) → Result (key event)
  unfolding handle
  key-Handled event (inl press) =
      let (c, after, e, is, lo, hi, valid, x, y, off) =
        keyboard_routine-press event s.user.console press v in
      inl (
        with_console after s,
        rw (e, handle) refl,
        record { valid = valid; user_mem = λ a h. off a (omega arith); ticks = refl },
      )
  key-Handled event (inr (lo, hi)) = inl (
    s,
    rw (keyboard_routine-release event s.user.console hi lo, handle) refl,
    record { valid = v; user_mem = λ a h. refl; ticks = refl },
  )

  abbrev after_write : ℤ × Console → ℤ × User
  after_write r = (
    if is_neg r.0 then negsuc 0 else r.0,
    record { console = r.1; errno = if is_neg r.0 then negate r.0 else s.user.errno },
  )

  write-Handled :
      (fd : ℤ) (buffer : ℕ) (size : ℤ) → Fits (write fd buffer size) → Result (write fd buffer size)
  unfolding handle
  write-Handled fd buffer size (hb, hs) =
      elim (sys_write-Kept buff k.off k.below s.user.console v fd buffer size hb hs) [
        | inl (r, e, kept) ↦ inl (
          answered (after_write r) s,
          rw (user_write-sys_write buff s.zeos_ticks fd buffer size s.user r e, handle) refl,
          record { valid = kept.valid; user_mem = kept.user; ticks = refl },
        )
        | inr (e, lo, hi) ↦ inr (
          rw (user_write-none buff s.zeos_ticks fd buffer size s.user e, handle) refl,
          λ pages. omega arith,
        )
      ]

  gettime-Handled : Result gettime
  gettime-Handled = inl (
    answered (after_gettime s) s,
    gettime_handled show buff s,
    record { valid = v; user_mem = λ a h. refl; ticks = refl },
  )

  store-Handled : (addr value : ℕ) → Fits (store addr value) → Result (store addr value)
  unfolding handle
  store-Handled addr value (inside, byte) = inl (
    with_console (record s.user.console { mem = store8 addr value s.user.console.mem }) s,
    rw inside refl,
    record {
      valid = record {
        column = v.column;
        row = v.row;
        bytes = store8-IsBytes addr value s.user.console.mem v.bytes;
      };
      user_mem = λ a h. refl;
      ticks = refl;
    },
  )

  event-Result : (e : Event) → Fits e → Result e
  event-Result clock f = clock-Handled
  event-Result (key event) f = key-Handled event f
  event-Result (write fd buffer size) f = write-Handled fd buffer size f
  event-Result gettime f = gettime-Handled
  event-Result (store addr value) f = store-Handled addr value f

  -- On a valid console, every event that fits has the one effect, if it is handled.
  pub handle-Handled :
      (e : Event) (t : World) → Fits e → handle show buff e s ≡ some t → Handled e s t
  handle-Handled e t f h = elim (event-Result e f) [
    | inl (t', h', d) ↦ subst (Handled e s) (some-injective (sym h' ∙ h)) d
    | inr (lost, _) ↦ absurd (none-ne-some (sym lost ∙ h))
  ]

  pub handle-some :
      (e : Event)
      → Fits e
      → HasPages e
      → (t : World) × (handle show buff e s ≡ some t) × Handled e s t
  handle-some e f p = elim (event-Result e f) [
    | inl handled ↦ handled
    | inr (_, faults) ↦ absurd (faults p)
  ]
