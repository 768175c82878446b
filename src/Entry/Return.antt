-- ===== src/Entry/Return.antt =====
-- What a program finds when the kernel returns to it.
use zeos.Common.{
  ℕ, ◌+◌, ◌-◌, ◌*◌, ◌/◌, ◌%◌, ◌≡◌, refl, u32, [], ◌∷◌, ◌++◌, Option, none, some, to_int, of_int,
  bit_or, ℤ,
}
use mathlib.Core.Option
use zeos.Memory.{load32}
use zeos.Io.{Console}
use zeos.Syscall.{Call, syscall_handler}
use zeos.Mm.Segments.{user_ds, user_cs}
use zeos.Entry.{
  Registers, Program, keyboard_handler, clock_handler, page_fault_handler2, syscall_entry,
  restore_all,
}

module _ {S : Type 0} (scratch : S → ℕ × ℕ × ℕ) where
  -- Whatever the C routine does to the kernel's state and leaves in eax, ecx and edx, the
  -- keyboard's and the clock's interrupt return to the program where it was, with all of its
  -- registers; the routine has had its effect, and the controller has got one end of interrupt.
  pub handlers-transparent :
      (routine : S → S) (p : Program S)
      → (keyboard_handler scratch routine p
          ≡ some (record p { commands = p.commands ++ 0x20 ∷ []; state = routine p.state }))
        × (clock_handler scratch routine p
            ≡ some (record p { commands = p.commands ++ 0x20 ∷ []; state = routine p.state }))
  unfolding keyboard_handler clock_handler restore_all
  handlers-transparent routine p = (refl, refl)

  -- Should the library's routine for a page fault return, the parameter that is left on the stack
  -- would shift all of the registers: eip goes to edx, and the program goes on at the address in gs.
  page_fault_handler2-shifted :
      (print : ℕ → S → S) (routine : S → S) (code : ℕ) (p : Program S)
      → (q : Program S) × (page_fault_handler2 scratch print routine code p ≡ some q)
        × (q.state ≡ routine (print p.context.eip p.state))
        × (q.regs.edx ≡ p.context.eip)
        × (q.context.eip ≡ p.regs.gs)
  unfolding page_fault_handler2 restore_all
  page_fault_handler2-shifted print routine code p = (_, refl, refl, refl, refl)

module _ (buff ticks : ℕ) where
  -- The program as `syscall_entry` leaves it, with the result `v` and the console `c`.
  abbrev pub returned : Program Console → ℤ × Console → Program Console
  returned p (v, c) =
      let return = load32 (u32 (p.regs.ebp + 4)) p.state.mem in
      let masked = p.context.e_flags - p.context.e_flags / 512 % 2 * 512 in
      record p {
        regs = record p.regs { eax = of_int v; edx = return; ecx = p.regs.ebp };
        context = record {
          eip = return;
          cs = user_cs;
          e_flags = bit_or masked 0x200;
          oldesp = p.regs.ebp;
          oldss = user_ds;
        };
        state = c;
      }

  abbrev pub call_from : Registers → Call
  call_from r = record {
    buff = buff;
    zeos_ticks = ticks;
    edx = to_int r.edx;
    ecx = r.ecx;
    ebx = to_int r.ebx;
  }

  -- The entry by `sysenter` serves the call that the registers ask for and returns to the address at
  -- 4(ebp) of the user's stack with the result in eax, the stack at ebp, and all other registers but
  -- ecx and edx as they were; where the call is lost behind the table, so is the program.
  pub syscall_entry_lem :
      (p : Program Console)
      → syscall_entry buff ticks p
        ≡ Option.map (returned p) (syscall_handler (to_int p.regs.eax) (call_from p.regs) p.state)
  unfolding syscall_entry restore_all
  syscall_entry_lem p = from (syscall_handler (to_int p.regs.eax) (call_from p.regs) p.state) refl
    where
      from :
          (r : Option (ℤ × Console))
          → syscall_handler (to_int p.regs.eax) (call_from p.regs) p.state ≡ r
          → syscall_entry buff ticks p ≡ Option.map (returned p) r
      from none e = rw (e, syscall_entry) refl
      from (some (v, c)) e = rw (e, syscall_entry) refl
