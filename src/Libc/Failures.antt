-- ===== src/Libc/Failures.antt =====
-- Calls of `write` that fail, and `perror`.
use zeos.Common.{
  ℕ, suc, ◌+◌, ◌<◌, ◌≤◌, ◌≡◌, refl, ap, ◌∙◌, sym, arith, List, [], ◌∷◌, ◌++◌, append-nil, length, ℤ,
  pos, negsuc, some, pos_part,
}
use zeos.Memory.{IsString}
use zeos.Io.Print.{IsValid}
use zeos.Sys.Errors.{Refused, wrong_fd, null_buffer, negative, outside, IsInt, sys_write-Refused}
use zeos.Syscall.{User, negate, user_write}
use zeos.Syscall.Dispatch.{user_write-sys_write}
use zeos.Libc.{println, perror}
use zeos.Libc.Print.{KernelBuffer, InUser}
use zeos.Errno.{message_count}
use zeos.Libc.Output.{Output, println-Says}

-- The codes are small, so that their negations fit.
abbrev Small : ℤ → Type 0
Small (pos n) = n < 256
Small (negsuc n) = n < 256

Refused-Small : (fd : ℤ) (buffer : ℕ) (size code : ℤ) → Refused fd buffer size code → Small code
Refused-Small fd buffer size code (wrong_fd ne) = omega arith
Refused-Small fd buffer size code (null_buffer e z) = omega arith
Refused-Small fd buffer size code (negative e nz neg) = omega arith
Refused-Small fd buffer size code (outside e nz nn out) = omega arith

-- A refused `write` returns -1, prints nothing and leaves the error's number in `errno`.
pub write-Refused :
    (buff ticks lo hi : ℕ) (fd : ℤ) (buffer : ℕ) (size : ℤ) (code : ℕ) (u : User)
    → IsValid u.console
    → buffer < 4294967296
    → IsInt size
    → Refused fd buffer size (negsuc code)
    → (after : User) × (user_write buff ticks fd buffer size u ≡ some (negsuc 0, after))
      × Output lo hi u [] (pos (suc code)) after
write-Refused buff ticks lo hi fd buffer size code u v hb hs r =
    let e = sys_write-Refused buff fd buffer size u.console hb hs r in
    let small : negate (negsuc code) ≡ pos (suc code) =
      ground (arith, Refused-Small fd buffer size (negsuc code) r) in
    (
      record { console = u.console; errno = pos (suc code) },
      user_write-sys_write buff ticks fd buffer size u (negsuc code, u.console) e
          ∙ (ap (λ n. some (negsuc 0, record { console = u.console; errno = n })) small),
      record { port = sym (append-nil _); errno = refl; kept = λ a h off. refl; valid = v },
    )

module _ (buff ticks fuel lo hi : ℕ) (k : KernelBuffer buff) (low : 0x100000 ≤ lo)
    (high : hi ≤ 0x11c000) (slot : ℕ) (slot_low : lo ≤ slot) (slot_high : slot < hi) where
  -- On a valid console, with the kernel's local array in kernel memory off the screen, the
  -- character's slot on the process's stack, a number in `errno` that is in the table, and its
  -- message a string in user space that is shorter than the fuel, `perror` prints that message and
  -- a newline, keeps `errno` and, outside of that stack, the user's memory, and leaves the console
  -- valid.
  pub perror-Output :
      (message_at : ℕ → ℕ) (n : ℕ) (cs : List ℕ) (u : User)
      → IsValid u.console
      → u.errno ≡ pos n
      → n < message_count
      → IsString u.console.mem (message_at n) cs
      → InUser (message_at n) (length cs)
      → length cs < fuel
      → (after : User) × (perror buff ticks fuel message_at slot u ≡ some after)
        × Output lo hi u (cs ++ 10 ∷ []) (pos n) after
  unfolding perror
  perror-Output message_at n cs u v errno lt s i h =
      let (after, e, o) =
        println-Says buff ticks fuel lo hi k low high slot slot_low slot_high (message_at n) cs u v
          s i h in
      let called : println buff ticks fuel (message_at (pos_part u.errno)) slot u
          ≡ some (pos (length cs + 1), after) =
        ap (λ t. println buff ticks fuel (message_at (pos_part t)) slot u) errno ∙ e in
      (
        after,
        ground (arith, errno, called),
        record { port = o.port; errno = o.errno ∙ errno; kept = o.kept; valid = o.valid },
      )
