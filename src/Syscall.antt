-- ===== src/Syscall.antt =====
-- entry.S, sys_call_table.S and libc_sys.S: from the C library's wrappers to the system calls. The
-- registers that carry the parameters are arguments; the return to user mode is the result.
pub mod Dispatch
use zeos.Common.{
  ℕ, zero, suc, Bool, true, false, ltb, leb, ◌==◌, if◌then◌else◌, ℤ, pos, negsuc, is_neg, pos_part,
  Option, none, some, List, [], ◌∷◌, length, get_or,
}
use zeos.Io.{Console}
use zeos.Sys.{sys_write, sys_gettime, sys_ni_syscall}

-- The entries of `sys_call_table`.
pub data Service : Type 0 where
  ni_syscall : Service
  write : Service
  gettime : Service

abbrev sys_call_table : List Service
sys_call_table =
    ni_syscall ∷ ni_syscall ∷ ni_syscall ∷ ni_syscall ∷ write ∷ ni_syscall ∷ ni_syscall ∷ ni_syscall
    ∷ ni_syscall ∷ ni_syscall ∷ gettime ∷ []

-- `MAX_SYSCALL = (. - sys_call_table)/4`
abbrev max_syscall : ℕ
max_syscall = length sys_call_table

-- The words behind the table are not known: `none` is a call through one of them.
unfoldable service_at : ℕ → Option Service
service_at n =
    if ltb n (length sys_call_table) then some (get_or sys_call_table n ni_syscall) else none

-- What a service is given: the address of `sys_write`'s local buffer, the clock's ticks, and the
-- registers `edx`, `ecx` and `ebx`.
pub record Call : Type 0 where
  pub buff : ℕ
  pub zeos_ticks : ℕ
  pub edx : ℤ
  pub ecx : ℕ
  pub ebx : ℤ

-- `none` is a page fault in the service.
unfoldable serve : Service → Call → Console → Option (ℤ × Console)
serve ni_syscall k c = some (sys_ni_syscall, c)
serve write k c = sys_write k.buff k.edx k.ecx k.ebx c
serve gettime k c = some (sys_gettime k.zeos_ticks, c)

-- `syscall_handler`, and `system_call_handler` for `int`: `jl err` below 0, `jg err` above MAX_SYSCALL,
-- else the call through the table.
unfoldable pub syscall_handler : (eax : ℤ) → Call → Console → Option (ℤ × Console)
unfolding service_at serve
syscall_handler eax k c =
    if is_neg eax
    then some (negsuc 37, c)
    else if ltb max_syscall (pos_part eax)
    then some (negsuc 37, c)
    else elim (service_at (pos_part eax)) [ none ↦ none | some s ↦ serve s k c ]

-- A user process sees the console through the kernel, and has its `errno`.
pub record User : Type 0 where
  pub console : Console
  pub errno : ℤ

-- `-value` of an `int`: the least one is its own negation.
abbrev pub negate : ℤ → ℤ
negate (pos zero) = pos 0
negate (pos (suc n)) = negsuc n
negate (negsuc n) = if n == 2147483647 then negsuc n else pos (suc n)

-- `set_errno` of libc.c
unfoldable set_errno : (value : ℤ) → User → User
set_errno value u = record u { errno = negate value }

-- CHECK_ERROR: a negative result goes to `errno`, and the wrapper returns -1.
unfoldable pub check_error : (eax : ℤ) → User → ℤ × User
unfolding set_errno
check_error eax u = if is_neg eax then (negsuc 0, set_errno eax u) else (eax, u)

-- The wrapper `SYSCALL(sysid)`.
unfoldable pub syscall : (sysid : ℤ) → Call → User → Option (ℤ × User)
syscall sysid k u = elim (syscall_handler sysid k u.console) [
  | none ↦ none
  | some (eax, c) ↦ some (check_error eax (record u { console = c }))
]

-- `write` and `gettime` of libc_sys.S. The handler's stack and the clock are arguments.
unfoldable pub user_write :
    (buff zeos_ticks : ℕ) → (fd : ℤ) → (buffer : ℕ) → (size : ℤ) → User → Option (ℤ × User)
user_write buff zeos_ticks fd buffer size u =
    syscall (pos 4)
      (record { buff = buff; zeos_ticks = zeos_ticks; edx = fd; ecx = buffer; ebx = size }) u

unfoldable pub user_gettime : (buff zeos_ticks : ℕ) → User → Option (ℤ × User)
user_gettime buff zeos_ticks u =
    syscall (pos 10)
      (record { buff = buff; zeos_ticks = zeos_ticks; edx = pos 0; ecx = 0; ebx = pos 0 }) u
