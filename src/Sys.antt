-- ===== src/Sys.antt =====
-- sys.c: the system calls. `buff`, the local array of `sys_write`, lies at an address of the kernel
-- stack, which is a parameter.
pub mod Chunk
pub mod Write
pub mod Errors
pub mod Kept
use zeos.Common.{
  ℕ, zero, suc, ◌+◌, ◌-◌, Bool, true, false, ltb, ◌==◌, ◌&&◌, not, if◌then◌else◌, leb, holds_from,
  Option, none, some, ℤ, pos, negsuc, is_neg, pos_part, of_int,
}
use zeos.Memory.{Memory}
use zeos.Io.{Console}
use zeos.Utils.{access_ok, copy_from_user}
use zeos.Devices.{sys_write_console}
use zeos.Clock.{get_clock_ticks}

abbrev pub ebadf : ℤ
ebadf = negsuc 8

abbrev eacces : ℤ
eacces = negsuc 12

abbrev pub efault : ℤ
efault = negsuc 13

abbrev pub einval : ℤ
einval = negsuc 21

abbrev enosys : ℤ
enosys = negsuc 37

abbrev pub eq_int : ℤ → ℤ → Bool
eq_int (pos a) (pos b) = a == b
eq_int (negsuc a) (negsuc b) = a == b
eq_int _ _ = false

-- LECTURA and ESCRIPTURA
abbrev pub lectura : ℤ
lectura = pos 0

abbrev pub escriptura : ℤ
escriptura = pos 1

unfoldable pub check_fd : (fd permissions : ℤ) → ℤ
check_fd fd permissions =
    if not (eq_int fd (pos 1))
    then ebadf
    else if not (eq_int permissions escriptura)
    then eacces
    else pos 0

unfoldable pub sys_ni_syscall : ℤ
sys_ni_syscall = enosys

unfoldable sys_fork : ℤ
sys_fork = negsuc 0

unfoldable pub sys_gettime : (zeos_ticks : ℕ) → ℤ
unfolding get_clock_ticks
sys_gettime zeos_ticks = get_clock_ticks zeos_ticks

-- The pages of the kernel and of the process: `init_mm` and `set_user_pages` map these addresses.
abbrev pub has_page : ℕ → Bool
has_page a = leb 0x1000 a && ltb a 0x11c000

-- The variables of `sys_write`: `left` and `current`, `written_chars`, and the machine.
pub record Writing : Type 0 where
  pub left : ℕ
  pub current : ℕ
  pub written_chars : ℕ
  pub console : Console

module _ (buff buffer : ℕ) where
  -- `copy_from_user(&buffer[current], buff, n); written_chars += sys_write_console(buff, n);`, where
  -- `none` is a page fault of the copy.
  unfoldable pub write_chunk : (n : ℕ) → Writing → Option Writing
  write_chunk n w =
      let c = w.console in
      let (_, m) = copy_from_user (buffer + w.current) buff (pos n) c.mem in
      let (printed, c) = sys_write_console buff (pos n) (record c { mem = m }) in
      if holds_from (buffer + w.current) n has_page
      then some (record w { written_chars = w.written_chars + pos_part printed; console = c })
      else none

  -- `while (left > 128)`; `none` is also a loop that has not ended.
  unfoldable pub write_chunks : (fuel : ℕ) → Writing → Option Writing
  write_chunks zero w = none
  write_chunks (suc fuel) w =
      let rest : Option Writing = elim (write_chunk 128 w) [
        | none ↦ none
        | some next ↦
            write_chunks fuel (record next { current = w.current + 128; left = w.left - 128 })
      ] in
      if ltb 128 w.left then rest else some w

-- `none` is a page fault in the copy: the handler prints its message and does not return.
unfoldable pub sys_write :
    (buff : ℕ) → (fd : ℤ) → (buffer : ℕ) → (size : ℤ) → Console → Option (ℤ × Console)
sys_write buff fd buffer size c =
    let check = check_fd fd escriptura in
    if is_neg check
    then some (check, c)
    else if buffer == 0
    then some (einval, c)
    else if is_neg size
    then some (einval, c)
    else if eq_int (access_ok lectura buffer (of_int size)) (pos 0)
    then some (efault, c)
    else elim (write_chunks buff buffer (suc (pos_part size))
        (record { left = pos_part size; current = 0; written_chars = 0; console = c })) [
          | none ↦ none
          | some w ↦ elim (write_chunk buff buffer w.left w) [
            | none ↦ none
            | some w ↦ some (pos w.written_chars, w.console)
          ]
        ]
