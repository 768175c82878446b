-- ===== src/Devices/Laws.antt =====
-- `sys_write_console` prints the bytes of the buffer.
use zeos.Common.{ℕ, zero, suc, ◌+◌, ◌≤◌, ◌≡◌, ◌⊎◌, refl, ap, ◌∙◌, arith, ℤ, pos_part}
use zeos.Memory.{bytes_at}
use zeos.Memory.Laws.{bytes_at_ext}
use zeos.Io.{Console, printc, print_all, screen}
use zeos.Io.Print.{IsValid, printc-IsValid, printc-off}
use zeos.Devices.{write_loop, sys_write_console}

-- The block `[p, p + n)` does not meet the screen.
abbrev pub BlockOff : (p n : ℕ) → Type 0
BlockOff p n = (p + n ≤ screen) ⊎ (screen + 4000 ≤ p)

write_loop-print_all :
    (n p : ℕ) (s : Console)
    → IsValid s
    → BlockOff p n
    → write_loop n p s ≡ print_all (bytes_at s.mem p n) s
unfolding write_loop print_all bytes_at
write_loop-print_all zero p s v off = refl
write_loop-print_all (suc n) p s v off =
    write_loop-print_all n (p + 1) (printc (s.mem p) s) (printc-IsValid (s.mem p) s v) (omega arith)
    ∙ ap (λ cs. print_all cs (printc (s.mem p) s))
        (bytes_at_ext (printc (s.mem p) s).mem s.mem (p + 1) (p + 1) n
          (λ i lt. printc-off (s.mem p) s (p + 1 + i) v (omega arith)))

-- `sys_write_console` returns the size and prints the buffer's bytes as they stood before, if the
-- buffer does not meet the screen.
pub sys_write_console_lem :
    (buffer : ℕ) (size : ℤ) (s : Console)
    → IsValid s
    → BlockOff buffer (pos_part size)
    → sys_write_console buffer size s ≡ (size, print_all (bytes_at s.mem buffer (pos_part size)) s)
unfolding sys_write_console
sys_write_console_lem buffer size s v off =
    ap (λ (t : Console). (size, t)) (write_loop-print_all (pos_part size) buffer s v off)
