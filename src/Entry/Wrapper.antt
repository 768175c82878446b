-- ===== src/Entry/Wrapper.antt =====
-- libc_sys.S: the wrappers of `write` and `gettime`, with the stack of the process that calls them.
-- The process's stack pointer is that of its context, its stack is the machine's memory. The words
-- that CHECK_ERROR leaves below the stack after a refused call, the error and what the call of
-- `set_errno` pushes, are left out.
use zeos.Common.{ℕ, ◌+◌, ◌==◌, if◌then◌else◌, u32, ℤ, to_int, of_int, Option, none, some}
use zeos.Memory.{Memory, load32, store32}
use zeos.Io.{Console}
use zeos.Syscall.{check_error}
use zeos.Entry.{Registers, Program, syscall_entry}

-- A process in user mode, with its variable `errno`.
pub record Process : Type 0 where
  pub program : Program Console
  pub errno : ℤ

abbrev pub regs_of : Process → Registers
regs_of q = q.program.regs

abbrev pub esp : Process → ℕ
esp q = q.program.context.oldesp

abbrev pub memory : Process → Memory
memory q = q.program.state.mem

abbrev pub with_regs : Registers → Process → Process
with_regs r q = record q { program = record q.program { regs = r } }

abbrev pub with_esp : ℕ → Process → Process
with_esp a q = record q {
  program = record q.program { context = record q.program.context { oldesp = a } };
}

abbrev pub with_memory : Memory → Process → Process
with_memory m q = record q {
  program = record q.program { state = record q.program.state { mem = m } };
}

unfoldable pub push : (value : ℕ) → Process → Process
push value q =
    let a = u32 (esp q + 4294967292) in with_memory (store32 a value (memory q)) (with_esp a q)

-- The stack pointer behind a `pop`, or behind `addl $4, %esp`.
unfoldable pub drop_word : Process → Process
drop_word q = with_esp (u32 (esp q + 4)) q

abbrev pub top : Process → ℕ
top q = load32 (esp q) (memory q)

-- CHECK_ERROR
abbrev pub check : Process → Process
check q =
    let (eax, u) =
      check_error (to_int (regs_of q).eax)
        (record { console = q.program.state; errno = q.errno }) in
    record (with_regs (record (regs_of q) { eax = of_int eax }) q) { errno = u.errno }

module _ (buff zeos_ticks : ℕ) where
  -- What follows the label `sys_ret`.
  abbrev pub resume : Process → Process
  unfolding drop_word
  resume q =
      let q = drop_word (with_regs (record (regs_of q) { ebp = top q }) q) in check (drop_word q)

  -- From `movl %esp, %ebp` on; `none` is a call that is lost, or a return to another address.
  unfoldable pub enter : (sys_ret : ℕ) → Process → Option Process
  enter sys_ret q =
      let q = with_regs (record (regs_of q) { ebp = esp q }) q in
      elim (syscall_entry buff zeos_ticks q.program) [
        | none ↦ none
        | some p ↦
            if p.context.eip == sys_ret then some (resume (record q { program = p })) else none
      ]

  -- SYSCALL, with the address of its label.
  unfoldable pub syscall_at : (sysid sys_ret : ℕ) → Process → Option Process
  unfolding push enter
  syscall_at sysid sys_ret q =
      let q = with_regs (record (regs_of q) { eax = sysid }) q in
      let q = push sys_ret q in let q = push (regs_of q).ebp q in enter sys_ret q

  -- The end of a wrapper: `popl %ebp`, `ret`.
  abbrev pub leave_wrapper : Process → Process
  unfolding drop_word
  leave_wrapper q =
      let q = drop_word (with_regs (record (regs_of q) { ebp = top q }) q) in
      let eip = top q in
      let q = drop_word q in
      record q { program = record q.program { context = record q.program.context { eip = eip } } }

  unfoldable pub gettime_wrapper : (sys_ret : ℕ) → Process → Option Process
  unfolding push
  gettime_wrapper sys_ret q =
      let q = push (regs_of q).ebp q in
      let q = with_regs (record (regs_of q) { ebp = esp q }) q in
      elim (syscall_at 10 sys_ret q) [ none ↦ none | some q ↦ some (leave_wrapper q) ]

  -- 8(%ebp), 12(%ebp) and 16(%ebp)
  abbrev pub parameters : Process → ℕ × ℕ × ℕ
  parameters q =
      let r = regs_of q in
      (
        load32 (u32 (r.ebp + 8)) (memory q),
        load32 (u32 (r.ebp + 12)) (memory q),
        load32 (u32 (r.ebp + 16)) (memory q),
      )

  abbrev pub load_parameters : ℕ × ℕ × ℕ → Process → Process
  load_parameters (fd, buffer, size) q =
      with_regs (record (regs_of q) { edx = fd; ecx = buffer; ebx = size }) q

  abbrev pub restore : Process → Process
  unfolding drop_word
  restore q = leave_wrapper (drop_word (with_regs (record (regs_of q) { ebx = top q }) q))

  abbrev pub restored : Option Process → Option Process
  restored none = none
  restored (some q) = some (restore q)

  -- What follows `pushl %ebx`.
  unfoldable pub write_body : (sys_ret : ℕ) → Process → Option Process
  write_body sys_ret q = restored (syscall_at 4 sys_ret (load_parameters (parameters q) q))

  unfoldable pub write_wrapper : (sys_ret : ℕ) → Process → Option Process
  unfolding push write_body
  write_wrapper sys_ret q =
      let q = push (regs_of q).ebp q in
      let q = with_regs (record (regs_of q) { ebp = esp q }) q in
      let q = push (regs_of q).ebx q in write_body sys_ret q
