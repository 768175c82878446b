-- ===== src/Entry/Wrapped.antt =====
-- What the wrapper of `write` leaves to its caller.
use mathlib.Core.Option
use zeos.Common.{
  ℕ, ◌+◌, ◌<◌, ◌≤◌, ◌≡◌, ◌⊎◌, refl, ap, ap₂, ◌∙◌, arith, ==_of_eq, u32, ℤ, pos, negsuc, to_int,
  of_int, some, none,
}
use zeos.Memory.{Memory, load32, store32}
use zeos.Memory.Laws.{load32-ext, store32-off, load32-store32}
use zeos.Io.{Console}
use zeos.Sys.Errors.{IsInt}
use zeos.Syscall.{syscall_handler}
use zeos.Entry.{syscall_entry}
use zeos.Entry.Return.{returned, call_from, syscall_entry_lem}
use zeos.Entry.Wrapper.{
  Process, regs_of, esp, memory, with_regs, with_esp, with_memory, push, drop_word, check, resume,
  enter, syscall_at,
}

pub load32-store32_off :
    (p a v : ℕ) (m : Memory) → (p + 4 ≤ a) ⊎ (a + 4 ≤ p) → load32 p (store32 a v m) ≡ load32 p m
load32-store32_off p a v m off =
    load32-ext m (store32 a v m) p (λ b lo hi. store32-off a v m b (omega arith))

pub to_int-of_int : (v : ℤ) → IsInt v → to_int (of_int v) ≡ v
to_int-of_int (pos n) h = ground arith
to_int-of_int (negsuc n) h = ground arith

pub push_lem :
    (v S : ℕ) (q : Process)
    → S + 4 < 4294967296
    → esp q ≡ S + 4
    → push v q ≡ with_memory (store32 S v (memory q)) (with_esp S q)
unfolding push
push_lem v S q lt e =
    ap (λ a. with_memory (store32 a v (memory q)) (with_esp a q)) {x = u32 (esp q + 4294967292)}
      {y = S} (omega arith)

drop_word_lem :
    (S : ℕ) (q : Process) → S + 4 < 4294967296 → esp q ≡ S → drop_word q ≡ with_esp (S + 4) q
unfolding drop_word
drop_word_lem S q lt e = ap (λ a. with_esp a q) {x = u32 (esp q + 4)} {y = S + 4} (omega arith)

module _ (buff ticks : ℕ) where
  -- The process at `sys_ret` again, with the result `v`.
  abbrev back : ℤ × Console → Process → Process
  back r q = record q { program = returned buff ticks q.program r }

  -- Down to the kernel and back to `sys_ret`.
  enter_lem :
      (sys_ret : ℕ) (q : Process) (r : ℤ × Console)
      → load32 (u32 (esp q + 4)) (memory q) ≡ sys_ret
      → syscall_handler (to_int (regs_of q).eax) (call_from buff ticks (regs_of q)) q.program.state
        ≡ some r
      → enter buff ticks sys_ret q
        ≡ some (resume buff ticks (back r (with_regs (record (regs_of q) { ebp = esp q }) q)))
  unfolding enter
  enter_lem sys_ret q r ret h =
      let p = (with_regs (record (regs_of q) { ebp = esp q }) q).program in
      let served : syscall_entry buff ticks p ≡ some (returned buff ticks p r) =
        syscall_entry_lem buff ticks p ∙ ap (Option.map (returned buff ticks p)) h in
      rw (served, enter) (rw (==_of_eq (load32 (u32 (esp q + 4)) (memory q)) sys_ret ret) refl)

  enter-none :
      (sys_ret : ℕ) (q : Process)
      → syscall_handler (to_int (regs_of q).eax) (call_from buff ticks (regs_of q)) q.program.state
        ≡ none
      → enter buff ticks sys_ret q ≡ none
  unfolding enter
  enter-none sys_ret q h =
      let p = (with_regs (record (regs_of q) { ebp = esp q }) q).program in
      let lost : syscall_entry buff ticks p ≡ none =
        syscall_entry_lem buff ticks p ∙ ap (Option.map (returned buff ticks p)) h in
      rw (lost, enter) refl

  -- Behind the label, `ebp` and the stack are those of the wrapper.
  resume_lem :
      (S base : ℕ) (q : Process)
      → S + 8 < 4294967296
      → esp q ≡ S
      → load32 S (memory q) ≡ base
      → resume buff ticks q
        ≡ check (with_esp (S + 8) (with_regs (record (regs_of q) { ebp = base }) q))
  unfolding drop_word
  resume_lem S base q lt e saved =
      ap₂ (λ a b. check (with_esp a (with_regs (record (regs_of q) { ebp = b }) q)))
        {x = u32 (u32 (esp q + 4) + 4)} {y = S + 8} (omega arith)
        (ap (λ a. load32 a (memory q)) e ∙ saved)

  -- The memory at the kernel's door: the label and `ebp` on the process's stack.
  abbrev at_door : (S sys_ret base : ℕ) → Memory → Memory
  at_door S sys_ret base m = store32 S base (store32 (S + 4) sys_ret m)

  -- The process at the door.
  abbrev door : (S sysid sys_ret : ℕ) → Process → Process
  door S sysid sys_ret q =
      with_memory (at_door S sys_ret (regs_of q).ebp (memory q))
        (with_esp S (with_regs (record (regs_of q) { eax = sysid }) q))

  -- The process after the return, before it looks for an error.
  abbrev pub returns : (S sysid sys_ret : ℕ) → ℤ × Console → Process → Process
  returns S sysid sys_ret r q =
      let d = door S sysid sys_ret q in
      let b = back r (with_regs (record (regs_of d) { ebp = S }) d) in
      with_esp (S + 8) (with_regs (record (regs_of b) { ebp = (regs_of q).ebp }) b)

  module _ (S sysid sys_ret : ℕ) (q : Process) (fits : S + 8 < 4294967296) (e : esp q ≡ S + 8) where
    to_door :
        syscall_at buff ticks sysid sys_ret q ≡ enter buff ticks sys_ret (door S sysid sys_ret q)
    unfolding syscall_at
    to_door =
        let q1 = with_regs (record (regs_of q) { eax = sysid }) q in
        ap (enter buff ticks sys_ret) (
          ap (push (regs_of q).ebp) (push_lem sys_ret (S + 4) q1 (omega arith) (omega arith))
          ∙ push_lem (regs_of q).ebp S _ (omega arith) refl)

    -- A call that is lost in the kernel.
    pub syscall_at-none :
        syscall_handler
            (to_int sysid)
            (call_from buff ticks (regs_of q))
            (door S sysid sys_ret q).program.state
          ≡ none
        → syscall_at buff ticks sysid sys_ret q ≡ none
    syscall_at-none h = to_door ∙ enter-none sys_ret (door S sysid sys_ret q) h

  module _ (S sysid sys_ret : ℕ) (q : Process) (r : ℤ × Console) (user : 0x100000 ≤ S)
      (fits : S + 8 < 4294967296) (e : esp q ≡ S + 8) (hr : sys_ret < 4294967296)
      (hb : (regs_of q).ebp < 4294967296)
      (h : syscall_handler
          (to_int sysid)
          (call_from buff ticks (regs_of q))
          (door S sysid sys_ret q).program.state
        ≡ some r)
      (same : (a : ℕ)
        → 0x100000 ≤ a
        → r.1.mem a ≡ at_door S sys_ret (regs_of q).ebp (memory q) a) where
    label : load32 (u32 (S + 4)) (at_door S sys_ret (regs_of q).ebp (memory q)) ≡ sys_ret
    label =
        let m = store32 (S + 4) sys_ret (memory q) in
        ap (λ a. load32 a (store32 S (regs_of q).ebp m)) {x = u32 (S + 4)} {y = S + 4} (omega arith)
        ∙ load32-store32_off (S + 4) S (regs_of q).ebp m (omega arith)
        ∙ load32-store32 (S + 4) sys_ret (memory q) hr

    base_kept : load32 S r.1.mem ≡ (regs_of q).ebp
    base_kept =
        load32-ext (at_door S sys_ret (regs_of q).ebp (memory q)) r.1.mem S
          (λ a lo hi. same a (omega arith))
        ∙ load32-store32 S (regs_of q).ebp (store32 (S + 4) sys_ret (memory q)) hb

    pub syscall_at_lem :
        syscall_at buff ticks sysid sys_ret q ≡ some (check (returns S sysid sys_ret r q))
    syscall_at_lem =
        let d = door S sysid sys_ret q in
        to_door S sysid sys_ret q fits e
        ∙ enter_lem sys_ret d r label h
        ∙ ap some (
            resume_lem S (regs_of q).ebp (back r (with_regs (record (regs_of d) { ebp = S }) d))
              fits refl base_kept)
