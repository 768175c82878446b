-- ===== src/Interrupt.antt =====
-- interrupt.c: the interrupt descriptor table and the page fault message. Handlers are the addresses
-- of their code. `set_handlers` stands in libzeos.a: what it does to the table is a parameter.
pub mod Gates
pub mod PageFault
use zeos.Common.{
  ℕ, zero, suc, ◌+◌, ◌-◌, ◌*◌, ◌/◌, ◌%◌, Bool, ◌==◌, if◌then◌else◌, bit_or, u16, ◌<<<◌, Option,
  none, some, to_int,
}
use zeos.Common.{high_word, low_word}
use zeos.Memory.{Memory, store8}
use zeos.Io.{Console, printk}
use zeos.Itoa.{itox}

pub record Gate : Type 0 where
  pub low_offset : ℕ
  pub segment_selector : ℕ
  pub flags : ℕ
  pub high_offset : ℕ

abbrev pub Idt : Type 0
Idt = ℕ → Gate

abbrev kernel_cs : ℕ
kernel_cs = 0x10

unfoldable pub set_interrupt_handler : (vector handler max_accessible_from_pl : ℕ) → Idt → Idt
set_interrupt_handler vector handler max_accessible_from_pl idt v =
    let flags = bit_or (u16 (max_accessible_from_pl <<< 13)) 0x8e00 in
    if v == vector
    then record {
      low_offset = low_word handler;
      segment_selector = kernel_cs;
      flags = flags;
      high_offset = high_word handler;
    }
    else idt v

-- The trap gates were changed to interrupt gates: the two functions do the same.
unfoldable pub set_trap_handler : (vector handler max_accessible_from_pl : ℕ) → Idt → Idt
set_trap_handler vector handler max_accessible_from_pl idt v =
    let flags = bit_or (u16 (max_accessible_from_pl <<< 13)) 0x8e00 in
    if v == vector
    then record {
      low_offset = low_word handler;
      segment_selector = kernel_cs;
      flags = flags;
      high_offset = high_word handler;
    }
    else idt v

-- The addresses of the table and of the handlers that `setIdt` installs.
pub record Handlers : Type 0 where
  pub idt : ℕ
  pub page_fault_handler2 : ℕ
  pub keyboard_handler : ℕ
  pub clock_handler : ℕ

-- The table and the register that `lidt` loads.
pub record Interrupts : Type 0 where
  pub gates : Idt
  pub idtr_base : ℕ
  pub idtr_limit : ℕ

unfoldable pub set_idt : (set_handlers : Idt → Idt) → Handlers → Interrupts → Interrupts
unfolding set_interrupt_handler
set_idt set_handlers at s =
    let base = at.idt in
    let limit = 256 * 8 - 1 in
    let gates = set_handlers s.gates in
    let gates = set_interrupt_handler 14 at.page_fault_handler2 0 gates in
    let gates = set_interrupt_handler 33 at.keyboard_handler 0 gates in
    let gates = set_interrupt_handler 32 at.clock_handler 0 gates in
    record { gates = gates; idtr_base = base; idtr_limit = limit }

-- `print_page_fault`, with the address of the message and that of the local array `buff`; `eip` is the
-- bit pattern of the argument. `none` is a loop that does not end.
unfoldable pub print_page_fault : (message buff fuel : ℕ) → (eip : ℕ) → Console → Option Console
print_page_fault message buff fuel eip s = elim (printk fuel message s) [
  | none ↦ none
  | some s ↦ elim (itox (to_int eip) buff s.mem) [
    | none ↦ none
    | some m ↦ printk fuel buff (record s { mem = store8 (buff + 8) 10 m })
  ]
]
