-- ===== src/Clock/Ticks.antt =====
-- What the clock counts, and what a process reads of it.
use zeos.Common.{ℕ, zero, suc, ◌%◌, ◌<◌, ◌≡◌, refl, arith, pos}
use zeos.Clock.{reset_clock_ticks, get_clock_ticks, clock_routine, ticking}
use zeos.Sys.{sys_gettime}

ticking-mod :
    {S : Type 0} (show : ℕ → S → S) (n t : ℕ) (s : S)
    → (ticking show n (reset_clock_ticks t) s).0 ≡ n % 4294967296
unfolding ticking reset_clock_ticks clock_routine
ticking-mod show zero t s = refl
ticking-mod show (suc n) t s = omega (arith, ticking-mod show n t s)

-- After a reset and fewer than 2 ^ 31 clock interrupts, `sys_gettime` is their number, whatever the
-- clock shows on the screen.
sys_gettime-ticking :
    {S : Type 0} (show : ℕ → S → S) (n t : ℕ) (s : S)
    → n < 2147483648
    → sys_gettime (ticking show n (reset_clock_ticks t) s).0 ≡ pos n
unfolding sys_gettime get_clock_ticks
sys_gettime-ticking show n t s h = ground (arith, ticking-mod show n t s)
