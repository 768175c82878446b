-- ===== src/Syscall/Dispatch.antt =====
-- The dispatch of system calls.
use zeos.Common.{
  ℕ, zero, suc, ◌≡◌, ◌≢◌, ◌↔◌, ◌⊎◌, refl, ap, arith, ℤ, pos, negsuc, ◌∙◌, Option, none, some,
  if◌then◌else◌, is_neg,
}
use zeos.Io.{Console}
use zeos.Sys.{sys_write, sys_gettime, sys_ni_syscall}
use zeos.Syscall.{
  Call, User, syscall_handler, syscall, user_write, user_gettime, check_error, negate,
}

-- The handler does not return for the number 11, as it calls through a word behind the table, and for
-- 4 with a block that makes `sys_write` fault, and returns in every other case.
pub syscall_handler-none :
    (eax : ℤ) (k : Call) (c : Console)
    → (syscall_handler eax k c ≡ none)
      ↔ ((eax ≡ pos 11) ⊎ ((eax ≡ pos 4) × (sys_write k.buff k.edx k.ecx k.ebx c ≡ none)))
unfolding syscall_handler
syscall_handler-none (pos n) k c = ground arith
syscall_handler-none (negsuc n) k c = ground arith

-- Every number other than 4, 10 and 11 is answered by -ENOSYS and changes nothing.
syscall_handler-enosys :
    (eax : ℤ) (k : Call) (c : Console)
    → eax ≢ pos 4
    → eax ≢ pos 10
    → eax ≢ pos 11
    → syscall_handler eax k c ≡ some (negsuc 37, c)
unfolding syscall_handler sys_ni_syscall
syscall_handler-enosys (negsuc n) k c n4 n10 n11 = refl
syscall_handler-enosys (pos zero) k c n4 n10 n11 = refl
syscall_handler-enosys (pos (suc zero)) k c n4 n10 n11 = refl
syscall_handler-enosys (pos (suc (suc zero))) k c n4 n10 n11 = refl
syscall_handler-enosys (pos (suc (suc (suc zero)))) k c n4 n10 n11 = refl
syscall_handler-enosys (pos (suc (suc (suc (suc zero))))) k c n4 n10 n11 = absurd (n4 refl)
syscall_handler-enosys (pos (suc (suc (suc (suc (suc zero)))))) k c n4 n10 n11 = refl
syscall_handler-enosys (pos (suc (suc (suc (suc (suc (suc zero))))))) k c n4 n10 n11 = refl
syscall_handler-enosys (pos (suc (suc (suc (suc (suc (suc (suc zero)))))))) k c n4 n10 n11 = refl
syscall_handler-enosys (pos (suc (suc (suc (suc (suc (suc (suc (suc zero))))))))) k c n4 n10 n11 =
    refl
syscall_handler-enosys (pos (suc (suc (suc (suc (suc (suc (suc (suc (suc zero)))))))))) k c n4 n10
      n11 =
    refl
syscall_handler-enosys (pos (suc (suc (suc (suc (suc (suc (suc (suc (suc (suc zero))))))))))) k c n4
      n10 n11 =
    absurd (n10 refl)
syscall_handler-enosys (pos (suc (suc (suc (suc (suc (suc (suc (suc (suc (suc (suc zero))))))))))))
      k c n4 n10 n11 =
    absurd (n11 refl)
syscall_handler-enosys
      (pos (suc (suc (suc (suc (suc (suc (suc (suc (suc (suc (suc (suc n))))))))))))) k c n4 n10
      n11 =
    ground arith

pub check_error_lem :
    (eax : ℤ) (u : User)
    → check_error eax u ≡ (
      if is_neg eax then negsuc 0 else eax,
      record u { errno = if is_neg eax then negate eax else u.errno },
    )
unfolding check_error
check_error_lem (pos n) u = refl
check_error_lem (negsuc n) u = refl

-- What the wrapper makes of the handler's result.
abbrev to_user : User → Option (ℤ × Console) → Option (ℤ × User)
to_user u none = none
to_user u (some (eax, c)) = some (check_error eax (record u { console = c }))

-- The wrapper of `write` hands the kernel's result on if it is not negative, and otherwise returns -1
-- and leaves the error's number in `errno`; the console is the kernel's.
pub user_write-sys_write :
    (buff ticks : ℕ) (fd : ℤ) (buffer : ℕ) (size : ℤ) (u : User) (r : ℤ × Console)
    → sys_write buff fd buffer size u.console ≡ some r
    → user_write buff ticks fd buffer size u
      ≡ some (
        if is_neg r.0 then negsuc 0 else r.0,
        record { console = r.1; errno = if is_neg r.0 then negate r.0 else u.errno },
      )
unfolding user_write syscall syscall_handler
user_write-sys_write buff ticks fd buffer size u r e =
    ap (to_user u) e ∙ ap some (check_error_lem r.0 (record u { console = r.1 }))

pub user_write-none :
    (buff ticks : ℕ) (fd : ℤ) (buffer : ℕ) (size : ℤ) (u : User)
    → sys_write buff fd buffer size u.console ≡ none
    → user_write buff ticks fd buffer size u ≡ none
unfolding user_write syscall syscall_handler
user_write-none buff ticks fd buffer size u e = ap (to_user u) e

pub user_gettime-sys_gettime :
    (buff ticks : ℕ) (u : User)
    → let r = sys_gettime ticks in
      user_gettime buff ticks u
      ≡ some (
        if is_neg r then negsuc 0 else r,
        record u { errno = if is_neg r then negate r else u.errno },
      )
unfolding user_gettime syscall syscall_handler
user_gettime-sys_gettime buff ticks u = ap some (check_error_lem (sys_gettime ticks) u)
