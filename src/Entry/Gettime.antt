-- ===== src/Entry/Gettime.antt =====
-- The wrapper of `gettime` as a function of the C language.
use zeos.Common.{
  ℕ, ◌+◌, ◌<◌, ◌≤◌, ◌≡◌, refl, sym, ap, ◌∙◌, arith, if◌then◌else◌, u32, ℤ, negsuc, is_neg, of_int,
  Option, none, some,
}
use zeos.Memory.{Memory, load32, store32}
use zeos.Memory.Laws.{load32-store32}
use zeos.Io.{Console}
use zeos.Clock.{get_clock_ticks}
use zeos.Sys.{sys_gettime}
use zeos.Sys.Errors.{IsInt}
use zeos.Syscall.{User, check_error, user_gettime, syscall_handler}
use zeos.Syscall.Dispatch.{check_error_lem, user_gettime-sys_gettime}
use zeos.Entry.Wrapper.{
  Process, regs_of, esp, memory, with_regs, with_esp, with_memory, drop_word, check, syscall_at,
  gettime_wrapper, leave_wrapper,
}
use zeos.Entry.Wrapped.{load32-store32_off, to_int-of_int, push_lem, returns, syscall_at_lem}

gettime-IsInt : (ticks : ℕ) → ticks < 4294967296 → IsInt (sys_gettime ticks)
unfolding sys_gettime get_clock_ticks
gettime-IsInt ticks h = ground arith

module _ (buff ticks : ℕ) (small : ticks < 4294967296) (B sys_ret : ℕ) (q : Process)
    (user : 0x100000 ≤ B) (fits : B + 16 < 4294967296) (e : esp q ≡ B + 12)
    (hr : sys_ret < 4294967296) (hb : (regs_of q).ebp < 4294967296) where
  abbrev framed : Process
  framed =
      with_regs (record (regs_of q) { ebp = B + 8 })
        (with_memory (store32 (B + 8) (regs_of q).ebp (memory q)) (with_esp (B + 8) q))

  abbrev ended : Option Process → Option Process
  ended none = none
  ended (some p) = some (leave_wrapper buff ticks p)

  to_frame : gettime_wrapper buff ticks sys_ret q ≡ ended (syscall_at buff ticks 10 sys_ret framed)
  unfolding gettime_wrapper
  to_frame =
      ap
        (λ p.
          ended
            (syscall_at buff ticks 10 sys_ret (with_regs (record (regs_of p) { ebp = esp p }) p)))
        (push_lem (regs_of q).ebp (B + 8) q (omega arith) (omega arith))

  abbrev called : Memory
  called = store32 B (B + 8) (store32 (B + 4) sys_ret (store32 (B + 8) (regs_of q).ebp (memory q)))

  abbrev reply : ℤ × Console
  reply = (sys_gettime ticks, record q.program.state { mem = called })

  abbrev back_again : Process
  back_again = returns buff ticks B 10 sys_ret reply framed

  calls : syscall_at buff ticks 10 sys_ret framed ≡ some (check back_again)
  unfolding syscall_handler
  calls =
      syscall_at_lem buff ticks B 10 sys_ret framed reply user (omega arith) refl hr (omega arith)
        refl (λ a h. refl)

  ebp_kept : load32 (B + 8) called ≡ (regs_of q).ebp
  ebp_kept =
      let m = store32 (B + 8) (regs_of q).ebp (memory q) in
      load32-store32_off (B + 8) B (B + 8) (store32 (B + 4) sys_ret m) (omega arith)
      ∙ load32-store32_off (B + 8) (B + 4) sys_ret m (omega arith)
      ∙ load32-store32 (B + 8) (regs_of q).ebp (memory q) hb

  place_kept : load32 (u32 (B + 8 + 4)) called ≡ load32 (esp q) (memory q)
  place_kept =
      let m = store32 (B + 8) (regs_of q).ebp (memory q) in
      ap (λ a. load32 a called) {x = u32 (B + 8 + 4)} {y = B + 12} (omega arith)
      ∙ load32-store32_off (B + 12) B (B + 8) (store32 (B + 4) sys_ret m) (omega arith)
      ∙ load32-store32_off (B + 12) (B + 4) sys_ret m (omega arith)
      ∙ load32-store32_off (B + 12) (B + 8) (regs_of q).ebp (memory q) (omega arith)
      ∙ ap (λ a. load32 a (memory q)) (sym e)

  -- With a counter of 32 bits and the stack in user memory, the wrapper of `gettime` returns to its
  -- caller with the result of `user_gettime` in eax, takes the return address off the stack, and keeps
  -- ebx and ebp.
  pub gettime_wrapper_lem :
      (after : Process) × (answer : ℤ) × (gettime_wrapper buff ticks sys_ret q ≡ some after)
      × ((regs_of after).eax ≡ of_int answer)
      × (user_gettime buff ticks (record { console = reply.1; errno = q.errno })
          ≡ some (answer, record { console = after.program.state; errno = after.errno }))
      × (after.program.context.eip ≡ load32 (esp q) (memory q))
      × (esp after ≡ esp q + 4)
      × ((regs_of after).ebx ≡ (regs_of q).ebx)
      × ((regs_of after).ebp ≡ (regs_of q).ebp)
  unfolding drop_word
  gettime_wrapper_lem =
      let replied : User = record { console = reply.1; errno = q.errno } in
      let checked =
        ap (λ n. check_error n replied) (to_int-of_int reply.0 (gettime-IsInt ticks small))
        ∙ check_error_lem reply.0 replied in
      (
        leave_wrapper buff ticks (check back_again),
        if is_neg reply.0 then negsuc 0 else reply.0,
        to_frame ∙ ap ended calls,
        ap (λ (t : ℤ × User). of_int t.0) checked,
        user_gettime-sys_gettime buff ticks replied
            ∙ ap
                (λ (n : ℤ).
                  some (if is_neg reply.0 then negsuc 0 else reply.0, record replied { errno = n }))
                (sym (ap (λ (t : ℤ × User). t.1.errno) checked)),
        place_kept,
        omega arith,
        refl,
        ebp_kept,
      )
