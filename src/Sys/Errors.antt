-- ===== src/Sys/Errors.antt =====
-- The refusals of `sys_write`: the order of its checks, the code of each, and that nothing is done.
use zeos.Common.{
  ℕ, ◌+◌, ◌<◌, ◌≤◌, ◌≡◌, ◌≢◌, arith, ℤ, pos, negsuc, is_neg, true, false, of_int, some, ◌↔◌,
  ==_of_ne, ==_of_eq,
}
use zeos.Io.{Console}
use zeos.Utils.{access_ok}
use zeos.Sys.{sys_write, check_fd, ebadf, einval, efault, escriptura, lectura, eq_int}

-- The block from `buffer` on, of an `int` size that is not negative, lies in user space as `access_ok`
-- sees it.
abbrev InUserSpace : (buffer : ℕ) → (size : ℤ) → Type 0
InUserSpace buffer (pos n) = (0x100000 ≤ buffer) × (buffer + n < 0x11d000)
InUserSpace buffer (negsuc n) = ⊥

-- A request with the code of the check that refuses it, in the order of the checks.
pub data Refused : (fd : ℤ) (buffer : ℕ) (size : ℤ) → ℤ → Type 0 where
  wrong_fd : {fd : ℤ} {buffer : ℕ} {size : ℤ} → fd ≢ pos 1 → Refused fd buffer size ebadf
  null_buffer :
      {fd : ℤ} {buffer : ℕ} {size : ℤ} → fd ≡ pos 1 → buffer ≡ 0 → Refused fd buffer size einval
  negative :
      {fd : ℤ} {buffer : ℕ} {size : ℤ}
      → fd ≡ pos 1
      → buffer ≢ 0
      → is_neg size ≡ true
      → Refused fd buffer size einval
  outside :
      {fd : ℤ} {buffer : ℕ} {size : ℤ}
      → fd ≡ pos 1
      → buffer ≢ 0
      → is_neg size ≡ false
      → ¬ InUserSpace buffer size
      → Refused fd buffer size efault

pub eq_int_iff : (a b : ℤ) → (eq_int a b ≡ true) ↔ (a ≡ b)
eq_int_iff (pos a) (pos b) = ground arith
eq_int_iff (pos a) (negsuc b) = ground arith
eq_int_iff (negsuc a) (pos b) = ground arith
eq_int_iff (negsuc a) (negsuc b) = ground arith

check_fd_refuses : (fd : ℤ) → fd ≢ pos 1 → check_fd fd escriptura ≡ ebadf
unfolding check_fd
check_fd_refuses fd ne = ground (arith, eq_int_iff fd (pos 1))

access_refuses :
    (buffer n : ℕ)
    → buffer < 4294967296
    → n < 2147483648
    → ¬ InUserSpace buffer (pos n)
    → eq_int (access_ok lectura buffer (of_int (pos n))) (pos 0) ≡ true
unfolding access_ok
access_refuses buffer n hb hn out = ground arith

check_fd_passes : (fd : ℤ) → fd ≡ pos 1 → check_fd fd escriptura ≡ pos 0
unfolding check_fd
check_fd_passes fd e = rw e

abbrev pub IsInt : ℤ → Type 0
IsInt (pos n) = n < 2147483648
IsInt (negsuc n) = n < 2147483648

-- A request with another descriptor than 1, a null buffer, a negative size or a block outside of
-- what `access_ok` accepts returns the code of the first check that refuses it, and leaves the
-- console and memory alone, for a 32-bit address and an `int` size.
pub sys_write-Refused :
    (buff : ℕ) (fd : ℤ) (buffer : ℕ) (size : ℤ) (c : Console) {code : ℤ}
    → buffer < 4294967296
    → IsInt size
    → Refused fd buffer size code
    → sys_write buff fd buffer size c ≡ some (code, c)
unfolding sys_write
sys_write-Refused buff fd buffer size c hb hs (wrong_fd ne) = rw (check_fd_refuses fd ne)
sys_write-Refused buff fd buffer size c hb hs (null_buffer e z) =
    rw (check_fd_passes fd e, ==_of_eq buffer 0 z)
sys_write-Refused buff fd buffer size c hb hs (negative e nz neg) =
    rw (check_fd_passes fd e, ==_of_ne buffer 0 nz, neg)
sys_write-Refused buff fd buffer (pos n) c hb hs (outside e nz nn out) =
    rw (check_fd_passes fd e, ==_of_ne buffer 0 nz, access_refuses buffer n hb hs out)
sys_write-Refused buff fd buffer (negsuc n) c hb hs (outside e nz nn out) = cc
