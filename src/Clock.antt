-- ===== src/Clock.antt =====
-- clock.c: the tick counter, an `int`, as its bit pattern.
pub mod Ticks
use zeos.Common.{ℕ, zero, suc, ◌+◌, ◌%◌, ◌<◌, ◌≡◌, ◌∙◌, refl, arith, u32, ℤ, pos, to_int}

unfoldable pub reset_clock_ticks : ℕ → ℕ
reset_clock_ticks zeos_ticks = 0

unfoldable pub get_clock_ticks : ℕ → ℤ
get_clock_ticks zeos_ticks = to_int zeos_ticks

-- `zeos_show_clock` stands in libzeos.a: what it does with the console is a parameter.
unfoldable pub clock_routine : {S : Type 0} → (zeos_show_clock : ℕ → S → S) → ℕ → S → ℕ × S
clock_routine zeos_show_clock zeos_ticks s =
    let zeos_ticks = u32 (zeos_ticks + 1) in (zeos_ticks, zeos_show_clock zeos_ticks s)

-- The counter after `n` clock interrupts.
unfoldable pub ticking : {S : Type 0} → (ℕ → S → S) → (n : ℕ) → ℕ → S → ℕ × S
ticking show zero t s = (t, s)
ticking show (suc n) t s = let r = ticking show n t s in clock_routine show r.0 r.1
