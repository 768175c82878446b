-- ===== src/Entry.antt =====
-- entry.S: what the entry points of the kernel do with registers and stack. The kernel's stack is the
-- list of its words, the top first; `none` is a pop from behind its bottom. A C function keeps ebx,
-- esi, edi, ebp and the segment registers, and leaves in eax, ecx and edx what it likes: `scratch`.
pub mod Return
pub mod Wrapper
pub mod Wrapped
pub mod Write
pub mod Gettime
use zeos.Common.{
  ℕ, zero, suc, ◌+◌, ◌-◌, ◌*◌, ◌/◌, ◌%◌, u32, bit_or, List, [], ◌∷◌, ◌++◌, Option, none, some,
  to_int, of_int,
}
use zeos.Memory.{load32}
use zeos.Io.{Console}
use zeos.Syscall.{Call, syscall_handler}
use zeos.Mm.Segments.{kernel_ds, user_ds, user_cs}

pub record Registers : Type 0 where
  pub edx : ℕ
  pub ecx : ℕ
  pub ebx : ℕ
  pub esi : ℕ
  pub edi : ℕ
  pub ebp : ℕ
  pub eax : ℕ
  pub ds : ℕ
  pub es : ℕ
  pub fs : ℕ
  pub gs : ℕ

-- Where a program stands, as the processor saves it.
pub record Context : Type 0 where
  pub eip : ℕ
  pub cs : ℕ
  pub e_flags : ℕ
  pub oldesp : ℕ
  pub oldss : ℕ

pub record Frame : Type 0 where
  pub regs : Registers
  pub stack : List ℕ

-- SAVE_ALL
unfoldable save_all : Frame → Frame
save_all f =
    let r = f.regs in
    record {
      regs = record r { edx = kernel_ds; ds = kernel_ds; es = kernel_ds };
      stack =
          r.edx ∷ r.ecx ∷ r.ebx ∷ r.esi ∷ r.edi ∷ r.ebp ∷ r.eax ∷ r.ds ∷ r.es ∷ r.fs ∷ r.gs
          ∷ f.stack;
    }

abbrev popped : List ℕ → Option Frame
popped (edx ∷ ecx ∷ ebx ∷ esi ∷ edi ∷ ebp ∷ eax ∷ ds ∷ es ∷ fs ∷ gs ∷ stack) = some (record {
  regs = record {
    edx = edx;
    ecx = ecx;
    ebx = ebx;
    esi = esi;
    edi = edi;
    ebp = ebp;
    eax = eax;
    ds = ds;
    es = es;
    fs = fs;
    gs = gs;
  };
  stack = stack;
})
popped _ = none

-- RESTORE_ALL
unfoldable pub restore_all : Frame → Option Frame
restore_all f = popped f.stack

-- What the processor pushes on its way to the handler of an interrupt, and `iret`.
abbrev push_context : Context → List ℕ → List ℕ
push_context c stack = c.eip ∷ c.cs ∷ c.e_flags ∷ c.oldesp ∷ c.oldss ∷ stack

abbrev pop_context : List ℕ → Option Context
pop_context (eip ∷ cs ∷ e_flags ∷ oldesp ∷ oldss ∷ stack) =
    some (record { eip = eip; cs = cs; e_flags = e_flags; oldesp = oldesp; oldss = oldss })
pop_context _ = none

-- A program's registers and place, with the state of the kernel and the commands that the interrupt
-- controller got on port 0x20.
pub record Program (S : Type 0) : Type 0 where
  pub regs : Registers
  pub context : Context
  pub commands : List ℕ
  pub state : S

-- EOI: al is the command.
unfoldable eoi : Registers × List ℕ → Registers × List ℕ
eoi (r, commands) = (record r { eax = r.eax - r.eax % 256 + 0x20 }, commands ++ 0x20 ∷ [])

-- RESTORE_ALL and `iret`
abbrev return_to : {S : Type 0} → Frame → List ℕ → S → Option (Program S)
return_to f commands state = elim (restore_all f) [
  | none ↦ none
  | some f ↦ elim (pop_context f.stack) [
    | none ↦ none
    | some c ↦ some (record { regs = f.regs; context = c; commands = commands; state = state })
  ]
]

module _ {S : Type 0} (scratch : S → ℕ × ℕ × ℕ) where
  -- The registers after a C function that ends in the given state.
  abbrev after_call : S → Registers → Registers
  after_call state r =
      let (eax, ecx, edx) = scratch state in record r { eax = eax; ecx = ecx; edx = edx }

  unfoldable pub keyboard_handler : (keyboard_routine : S → S) → Program S → Option (Program S)
  unfolding eoi save_all
  keyboard_handler keyboard_routine p =
      let f = save_all (record { regs = p.regs; stack = push_context p.context [] }) in
      let state = keyboard_routine p.state in
      let (regs, commands) = eoi (after_call state f.regs, p.commands) in
      return_to (record f { regs = regs }) commands state

  unfoldable pub clock_handler : (clock_routine : S → S) → Program S → Option (Program S)
  unfolding eoi save_all
  clock_handler clock_routine p =
      let f = save_all (record { regs = p.regs; stack = push_context p.context [] }) in
      let (regs, commands) = eoi (f.regs, p.commands) in
      let state = clock_routine p.state in
      return_to (record f { regs = after_call state regs }) commands state

  -- The processor has pushed an error code on the context. `pushl 0x30(%esp)` pushes eip, which
  -- nothing takes off the stack again.
  unfoldable pub page_fault_handler2 :
      (print_page_fault : ℕ → S → S)
      → (page_fault_routine : S → S) → (error_code : ℕ) → Program S
      → Option (Program S)
  unfolding eoi save_all
  page_fault_handler2 print_page_fault page_fault_routine error_code p =
      let f = save_all (record { regs = p.regs; stack = error_code ∷ push_context p.context [] }) in
      let f = record f { stack = p.context.eip ∷ f.stack } in
      let state = print_page_fault p.context.eip p.state in
      let regs = after_call state f.regs in
      let state = page_fault_routine state in
      let (regs, commands) = eoi (after_call state regs, p.commands) in
      return_to (record f { regs = regs }) commands state

-- `movl %EAX, 0x18(%esp)`
abbrev set_saved_eax : ℕ → List ℕ → List ℕ
set_saved_eax eax (edx ∷ ecx ∷ ebx ∷ esi ∷ edi ∷ ebp ∷ old ∷ stack) =
    edx ∷ ecx ∷ ebx ∷ esi ∷ edi ∷ ebp ∷ eax ∷ stack
set_saved_eax eax stack = stack

-- A service finds its parameters on the stack.
abbrev call_of : (buff ticks : ℕ) → List ℕ → Call
call_of buff ticks (edx ∷ ecx ∷ ebx ∷ stack) = record {
  buff = buff;
  zeos_ticks = ticks;
  edx = to_int edx;
  ecx = ecx;
  ebx = to_int ebx;
}
call_of buff ticks stack = record {
  buff = buff;
  zeos_ticks = ticks;
  edx = to_int 0;
  ecx = 0;
  ebx = to_int 0;
}

module _ (buff ticks : ℕ) where
  -- From the comparisons on: the frame with the result in the saved eax, and the console.
  abbrev dispatch : Frame → Console → Option (Frame × Console)
  dispatch f c = elim (syscall_handler (to_int f.regs.eax) (call_of buff ticks f.stack) c) [
    | none ↦ none
    | some (eax, c) ↦ some (record f { stack = set_saved_eax (of_int eax) f.stack }, c)
  ]

  unfoldable pub system_call_handler : Program Console → Option (Program Console)
  unfolding save_all
  system_call_handler p =
      let f = save_all (record { regs = p.regs; stack = push_context p.context [] }) in
      elim (dispatch f p.state) [ none ↦ none | some (f, c) ↦ return_to f p.commands c ]

  -- `sysexit`: the program goes on at edx, with ecx as its stack. The status flags are left out.
  abbrev sysexit : Frame → (e_flags : ℕ) → List ℕ → Console → Program Console
  sysexit f e_flags commands c = record {
    regs = f.regs;
    context = record {
      eip = f.regs.edx;
      cs = user_cs;
      e_flags = bit_or e_flags 0x200;
      oldesp = f.regs.ecx;
      oldss = user_ds;
    };
    commands = commands;
    state = c;
  }

  abbrev set_return : List ℕ → Registers → Option Registers
  set_return (eip ∷ cs ∷ e_flags ∷ oldesp ∷ stack) r = some (record r { edx = eip; ecx = oldesp })
  set_return _ r = none

  abbrev leave : (e_flags : ℕ) → List ℕ → Console → Frame → Option (Program Console)
  leave e_flags commands c f = elim (set_return f.stack f.regs) [
    | none ↦ none
    | some r ↦ some (sysexit (record f { regs = r }) e_flags commands c)
  ]

  -- `sysenter` clears the interrupt flag; ebp is the user's stack.
  unfoldable pub syscall_entry : Program Console → Option (Program Console)
  unfolding save_all
  syscall_entry p =
      let r = p.regs in
      let e_flags = p.context.e_flags - p.context.e_flags / 512 % 2 * 512 in
      let return = load32 (u32 (r.ebp + 4)) p.state.mem in
      let f =
        save_all (record { regs = r; stack = return ∷ user_cs ∷ e_flags ∷ r.ebp ∷ user_ds ∷ [] }) in
      elim (dispatch f p.state) [
        | none ↦ none
        | some (f, c) ↦ elim (restore_all f) [ none ↦ none | some f ↦ leave e_flags p.commands c f ]
      ]
