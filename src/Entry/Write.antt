-- ===== src/Entry/Write.antt =====
-- The wrapper of `write` as a function of the C language: what it returns, and what it keeps.
use zeos.Common.{
  ℕ, ◌+◌, ◌<◌, ◌≤◌, ◌≡◌, refl, sym, ap, ◌∙◌, arith, if◌then◌else◌, u32, ℤ, negsuc, is_neg, to_int,
  of_int, some, none, Option, inl, inr, subst, pos_part,
}
use zeos.Memory.{Memory, load32, store32}
use zeos.Memory.Laws.{load32-ext, load32-store32, load32-lt, store32-IsBytes}
use zeos.Io.{Console}
use zeos.Io.Print.{IsValid}
use zeos.Libc.Print.{KernelBuffer}
use zeos.Sys.{sys_write}
use zeos.Sys.Errors.{IsInt}
use zeos.Sys.Kept.{Served, Outcome, sys_write-Served, Outcome-Served, some-injective, none-ne-some}
use zeos.Syscall.{User, check_error, negate, user_write, syscall_handler}
use zeos.Syscall.Dispatch.{check_error_lem, user_write-sys_write}
use zeos.Entry.Wrapper.{
  Process, regs_of, esp, memory, with_regs, with_esp, with_memory, push, drop_word, check,
  syscall_at, write_body, write_wrapper, load_parameters, parameters, restore, restored,
}
use zeos.Entry.Wrapped.{
  load32-store32_off, to_int-of_int, push_lem, returns, syscall_at_lem, syscall_at-none,
}

pub to_int-IsInt : (w : ℕ) → w < 4294967296 → IsInt (to_int w)
to_int-IsInt w h = ground arith

-- The caller's stack with the wrapper's words on it, `B` below which they end.
abbrev saved : (B : ℕ) → Process → Memory
saved B q = store32 (B + 8) (regs_of q).ebx (store32 (B + 12) (regs_of q).ebp (memory q))

abbrev called : (B sys_ret : ℕ) → Process → Memory
called B sys_ret q = store32 B (B + 12) (store32 (B + 4) sys_ret (saved B q))

-- `write(fd, buffer, size)` has returned to `after`: to the caller's place, with the parameters still on
-- the stack, ebx, esi, edi and ebp as they were, and console, `errno` and result as the system
-- call has them.
pub record Returned (buff ticks B sys_ret : ℕ) (q after : Process) : Type 0 where
  pub answer : ℤ
  pub served :
      user_write buff ticks
        (to_int (load32 (B + 20) (memory q)))
        (load32 (B + 24) (memory q))
        (to_int (load32 (B + 28) (memory q)))
        (record { console = record q.program.state { mem = called B sys_ret q }; errno = q.errno })
      ≡ some (answer, record { console = after.program.state; errno = after.errno })
  pub result : (regs_of after).eax ≡ of_int answer
  pub place : after.program.context.eip ≡ load32 (esp q) (memory q)
  pub stack : esp after ≡ esp q + 4
  pub ebx : (regs_of after).ebx ≡ (regs_of q).ebx
  pub esi : (regs_of after).esi ≡ (regs_of q).esi
  pub edi : (regs_of after).edi ≡ (regs_of q).edi
  pub ebp : (regs_of after).ebp ≡ (regs_of q).ebp

module _ (buff ticks : ℕ) (k : KernelBuffer buff) (B sys_ret : ℕ) (q : Process)
    (v : IsValid q.program.state) (user : 0x100000 ≤ B) (fits : B + 32 < 4294967296)
    (e : esp q ≡ B + 16) (hr : sys_ret < 4294967296) (hb : (regs_of q).ebp < 4294967296)
    (hx : (regs_of q).ebx < 4294967296) where
  -- Below the saved registers.
  abbrev body : Process
  body =
      with_memory (saved B q) (with_esp (B + 8) (with_regs (record (regs_of q) { ebp = B + 12 }) q))

  abbrev framed : Process
  framed =
      with_regs (record (regs_of q) { ebp = B + 12 })
        (with_memory (store32 (B + 12) (regs_of q).ebp (memory q)) (with_esp (B + 12) q))

  to_body : write_wrapper buff ticks sys_ret q ≡ write_body buff ticks sys_ret body
  unfolding write_wrapper
  to_body =
      ap
        (λ p.
          write_body buff ticks sys_ret
            (push (regs_of p).ebx (with_regs (record (regs_of p) { ebp = esp p }) p)))
        (push_lem (regs_of q).ebp (B + 12) q (omega arith) (omega arith))
      ∙ ap (write_body buff ticks sys_ret)
          (push_lem (regs_of q).ebx (B + 8) framed (omega arith) (omega arith))

  -- The parameters are the caller's.
  parameter :
      (n p : ℕ)
      → B + 12 + n ≡ p
      → B + 16 ≤ p
      → p + 4 ≤ B + 32
      → load32 (u32 (B + 12 + n)) (saved B q) ≡ load32 p (memory q)
  parameter n p eq lo hi =
      ap (λ a. load32 a (saved B q)) {x = u32 (B + 12 + n)} {y = p} (omega arith)
      ∙ load32-store32_off p (B + 8) (regs_of q).ebx (store32 (B + 12) (regs_of q).ebp (memory q))
          (omega arith)
      ∙ load32-store32_off p (B + 12) (regs_of q).ebp (memory q) (omega arith)

  abbrev given : ℕ × ℕ × ℕ
  given = (load32 (B + 20) (memory q), load32 (B + 24) (memory q), load32 (B + 28) (memory q))

  are_given : parameters buff ticks body ≡ given
  are_given =
      ap (λ (a : ℕ). (a, (parameters buff ticks body).1, (parameters buff ticks body).2))
        (parameter 8 (B + 20) (omega arith) (omega arith) (omega arith))
      ∙ ap (λ (a : ℕ). (given.0, a, (parameters buff ticks body).2))
          (parameter 12 (B + 24) (omega arith) (omega arith) (omega arith))
      ∙ ap (λ (a : ℕ). (given.0, given.1, a))
          (parameter 16 (B + 28) (omega arith) (omega arith) (omega arith))

  -- The system call.
  abbrev console : Console
  console = record q.program.state { mem = called B sys_ret q }

  abbrev asked : Option (ℤ × Console)
  asked = sys_write buff (to_int given.0) given.1 (to_int given.2) console

  console-IsValid : IsValid console
  console-IsValid = record {
    column = v.column;
    row = v.row;
    bytes = store32-IsBytes B (B + 12) (store32 (B + 4) sys_ret (saved B q)) (
        store32-IsBytes (B + 4) sys_ret (saved B q) (
          store32-IsBytes (B + 8) (regs_of q).ebx (store32 (B + 12) (regs_of q).ebp (memory q))
            (store32-IsBytes (B + 12) (regs_of q).ebp (memory q) v.bytes)));
  }

  asked-Outcome : Outcome console given.1 (to_int given.2) asked
  asked-Outcome =
      sys_write-Served buff k.off k.below console console-IsValid (to_int given.0) given.1
        (to_int given.2) (load32-lt (B + 24) (memory q) v.bytes)
        (to_int-IsInt given.2 (load32-lt (B + 28) (memory q) v.bytes))

  -- A call with a block that faults does not return.
  lost : asked ≡ none → write_wrapper buff ticks sys_ret q ≡ none
  unfolding write_body syscall_handler
  lost h =
      to_body
      ∙ ap
          (λ t.
            restored buff ticks
              (syscall_at buff ticks 4 sys_ret (load_parameters buff ticks t body)))
          are_given
      ∙ ap (restored buff ticks) (
          syscall_at-none buff ticks B 4 sys_ret (load_parameters buff ticks given body)
            (omega arith) refl h)

  module _ (reply : ℤ × Console) (served : asked ≡ some reply) where
    reply-Served : Served console reply
    reply-Served = Outcome-Served console given.1 (to_int given.2) asked reply asked-Outcome served

    abbrev back_again : Process
    back_again = returns buff ticks B 4 sys_ret reply (load_parameters buff ticks given body)

    calls :
        syscall_at buff ticks 4 sys_ret (load_parameters buff ticks given body)
        ≡ some (check back_again)
    unfolding syscall_handler
    calls =
        syscall_at_lem buff ticks B 4 sys_ret (load_parameters buff ticks given body) reply user
          (omega arith) refl hr (omega arith) served (λ a h. reply-Served.kept.user a h)

    runs : write_wrapper buff ticks sys_ret q ≡ some (restore buff ticks (check back_again))
    unfolding write_body
    runs =
        to_body
        ∙ ap
            (λ t.
              restored buff ticks
                (syscall_at buff ticks 4 sys_ret (load_parameters buff ticks t body)))
            are_given
        ∙ ap (restored buff ticks) calls

    kept_at : (p : ℕ) → 0x100000 ≤ p → load32 p reply.1.mem ≡ load32 p (called B sys_ret q)
    kept_at p h =
        load32-ext (called B sys_ret q) reply.1.mem p
          (λ a lo hi. reply-Served.kept.user a (omega arith))

    -- Above the two words of the system call.
    above : (p : ℕ) → B + 8 ≤ p → load32 p (called B sys_ret q) ≡ load32 p (saved B q)
    above p h =
        load32-store32_off p B (B + 12) (store32 (B + 4) sys_ret (saved B q)) (omega arith)
        ∙ load32-store32_off p (B + 4) sys_ret (saved B q) (omega arith)

    ebx_kept : load32 (B + 8) reply.1.mem ≡ (regs_of q).ebx
    ebx_kept =
        kept_at (B + 8) (omega arith)
        ∙ above (B + 8) (omega arith)
        ∙ load32-store32 (B + 8) (regs_of q).ebx (store32 (B + 12) (regs_of q).ebp (memory q)) hx

    ebp_kept : load32 (u32 (B + 8 + 4)) reply.1.mem ≡ (regs_of q).ebp
    ebp_kept =
        ap (λ a. load32 a reply.1.mem) {x = u32 (B + 8 + 4)} {y = B + 12} (omega arith)
        ∙ kept_at (B + 12) (omega arith)
        ∙ above (B + 12) (omega arith)
        ∙ load32-store32_off (B + 12) (B + 8) (regs_of q).ebx
            (store32 (B + 12) (regs_of q).ebp (memory q)) (omega arith)
        ∙ load32-store32 (B + 12) (regs_of q).ebp (memory q) hb

    place_kept : load32 (u32 (u32 (B + 8 + 4) + 4)) reply.1.mem ≡ load32 (esp q) (memory q)
    place_kept =
        ap (λ a. load32 a reply.1.mem) {x = u32 (u32 (B + 8 + 4) + 4)} {y = B + 16} (omega arith)
        ∙ kept_at (B + 16) (omega arith)
        ∙ above (B + 16) (omega arith)
        ∙ load32-store32_off (B + 16) (B + 8) (regs_of q).ebx
            (store32 (B + 12) (regs_of q).ebp (memory q)) (omega arith)
        ∙ load32-store32_off (B + 16) (B + 12) (regs_of q).ebp (memory q) (omega arith)
        ∙ ap (λ a. load32 a (memory q)) (sym e)

    abbrev replied : User
    replied = record { console = reply.1; errno = q.errno }

    checked : check_error (to_int (of_int reply.0)) replied ≡ (
      if is_neg reply.0 then negsuc 0 else reply.0,
      record replied { errno = if is_neg reply.0 then negate reply.0 else q.errno },
    )
    checked =
        ap (λ n. check_error n replied) (to_int-of_int reply.0 reply-Served.result)
        ∙ check_error_lem reply.0 replied

    -- The wrapper ends, back at its caller.
    returns_to :
        (after : Process) × (write_wrapper buff ticks sys_ret q ≡ some after)
        × Returned buff ticks B sys_ret q after
    unfolding drop_word
    returns_to = (
      restore buff ticks (check back_again),
      runs,
      record {
        answer = if is_neg reply.0 then negsuc 0 else reply.0;
        served =
            user_write-sys_write buff ticks (to_int given.0) given.1 (to_int given.2)
              (record { console = console; errno = q.errno }) reply served
            ∙ ap
                (λ (n : ℤ).
                  some (if is_neg reply.0 then negsuc 0 else reply.0, record replied { errno = n }))
                (sym (ap (λ (t : ℤ × User). t.1.errno) checked));
        result = ap (λ (t : ℤ × User). of_int t.0) checked;
        place = place_kept;
        stack = omega arith;
        ebx = ebx_kept;
        esi = refl;
        edi = refl;
        ebp = ebp_kept;
      },
    )

  -- Let the process be about to execute the wrapper of `write`, with the return address, the
  -- descriptor, the address and the size on its stack, 16 bytes of user memory below them, ebx, ebp
  -- and the label of 32 bits and a valid console, and the kernel's local array in kernel memory off
  -- the screen. If the wrapper ends, then with its four words on the stack it has done what
  -- `user_write` does: result, console and `errno` are the same; it has returned to its caller, taken
  -- the return address off the stack, and kept ebx, esi, edi and ebp.
  pub write_wrapper-Returned :
      (after : Process)
      → write_wrapper buff ticks sys_ret q ≡ some after
      → Returned buff ticks B sys_ret q after
  write_wrapper-Returned after ends = elim asked-Outcome [
    | inr (h, _, _) ↦ absurd (none-ne-some (sym (lost h) ∙ ends))
    | inl (reply, h, _) ↦
        let (after', ends', returned) = returns_to reply h in
        subst (Returned buff ticks B sys_ret q) (some-injective (sym ends' ∙ ends)) returned
  ]

  -- It ends if the block does not reach behind the process's pages.
  pub write_wrapper_lem :
      load32 (B + 24) (memory q) + pos_part (to_int (load32 (B + 28) (memory q))) ≤ 0x11c000
      → (after : Process) × (write_wrapper buff ticks sys_ret q ≡ some after)
        × Returned buff ticks B sys_ret q after
  write_wrapper_lem inside = elim asked-Outcome [
    | inr (h, out, _) ↦ absurd (omega arith)
    | inl (reply, h, _) ↦ returns_to reply h
  ]
