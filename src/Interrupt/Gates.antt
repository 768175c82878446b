-- ===== src/Interrupt/Gates.antt =====
-- The gates that the processor reads back.
use zeos.Common.{
  ℕ, zero, suc, ◌+◌, ◌*◌, ◌/◌, ◌%◌, ◌<◌, ◌≡◌, ◌≢◌, refl, arith, bit_or, u16, u32, ◌<<<◌, subst,
}
use zeos.Interrupt.{
  Idt, Gate, Handlers, Interrupts, set_interrupt_handler, set_trap_handler, set_idt,
}

-- The parts of a gate as the processor takes them: the handler's address, and from the flags the
-- present bit, the privilege level that may call it and the type, 14 for a 32-bit interrupt gate.
abbrev pub offset : Gate → ℕ
offset g = g.high_offset * 65536 + g.low_offset

abbrev is_present : Gate → ℕ
is_present g = g.flags / 32768

abbrev privilege : Gate → ℕ
privilege g = g.flags / 8192 % 4

abbrev gate_type : Gate → ℕ
gate_type g = g.flags / 256 % 32

-- An interrupt gate of the kernel's code segment for a handler and a level.
pub record IsGate (handler level : ℕ) (g : Gate) : Type 0 where
  pub calls : offset g ≡ handler
  in_kernel : g.segment_selector ≡ 0x10
  installed : is_present g ≡ 1
  level_is : privilege g ≡ level
  interrupts_off : gate_type g ≡ 14

flags_of : (pl : ℕ) → pl < 4 → (bit_or (u16 (pl <<< 13)) 0x8e00 ≡ pl * 8192 + 0x8e00)
flags_of zero h = refl
flags_of (suc zero) h = refl
flags_of (suc (suc zero)) h = refl
flags_of (suc (suc (suc zero))) h = refl
flags_of (suc (suc (suc (suc n)))) h = absurd (omega arith)

-- What a gate holds of any word.
set_interrupt_handler-calls :
    (vector handler pl : ℕ) (idt : Idt)
    → pl < 4
    → let after = set_interrupt_handler vector handler pl idt in
      IsGate (u32 handler) pl (after vector) × ((v : ℕ) → v ≢ vector → after v ≡ idt v)
unfolding set_interrupt_handler
set_interrupt_handler-calls vector handler pl idt hp = (
  record {
    calls = ground arith;
    in_kernel = ground arith;
    installed = ground (arith, flags_of pl hp);
    level_is = ground (arith, flags_of pl hp);
    interrupts_off = ground (arith, flags_of pl hp);
  },
  λ v ne. ground arith,
)

-- `setInterruptHandler` installs the handler at its vector for the given privilege level, and leaves
-- the other vectors alone.
set_interrupt_handler-IsGate :
    (vector handler pl : ℕ) (idt : Idt)
    → handler < 4294967296
    → pl < 4
    → let after = set_interrupt_handler vector handler pl idt in
      IsGate handler pl (after vector) × ((v : ℕ) → v ≢ vector → after v ≡ idt v)
set_interrupt_handler-IsGate vector handler pl idt h hp =
    let (gate, others) = set_interrupt_handler-calls vector handler pl idt hp in
    (
      subst (λ a. IsGate a pl (set_interrupt_handler vector handler pl idt vector)) (omega arith)
          gate,
      others,
    )

-- `setTrapHandler` installs the same interrupt gate.
set_trap_handler-eq :
    (vector handler pl : ℕ) (idt : Idt)
    → set_trap_handler vector handler pl idt ≡ set_interrupt_handler vector handler pl idt
unfolding set_interrupt_handler set_trap_handler
set_trap_handler-eq vector handler pl idt = refl

-- After `setIdt` with handlers at 32-bit addresses the vectors of page fault, clock and keyboard
-- call their handlers, from the kernel only; every other vector is what `set_handlers` made it, and
-- the register spans 256 gates.
pub set_idt_lem :
    (set_handlers : Idt → Idt) (at : Handlers) (s : Interrupts)
    → at.page_fault_handler2 < 4294967296
    → at.keyboard_handler < 4294967296
    → at.clock_handler < 4294967296
    → let after = set_idt set_handlers at s in
      IsGate at.page_fault_handler2 0 (after.gates 14)
      × IsGate at.clock_handler 0 (after.gates 32)
      × IsGate at.keyboard_handler 0 (after.gates 33)
      × ((v : ℕ) → v ≢ 14 → v ≢ 32 → v ≢ 33 → after.gates v ≡ set_handlers s.gates v)
      × (after.idtr_limit + 1 ≡ 256 * 8)
unfolding set_idt
set_idt_lem set_handlers at s hp hk hc = (
  (set_interrupt_handler-IsGate 14 at.page_fault_handler2 0 (set_handlers s.gates) hp
      (omega arith)).0,
  (set_interrupt_handler-IsGate 32 at.clock_handler 0 (set_handlers s.gates) hc (omega arith)).0,
  (set_interrupt_handler-IsGate 33 at.keyboard_handler 0 (set_handlers s.gates) hk (omega arith)).0,
  (λ v n1 n2 n3. ground arith),
  refl,
)

-- The same, of handlers at any words.
pub set_idt-calls :
    (set_handlers : Idt → Idt) (at : Handlers) (s : Interrupts)
    → let after = set_idt set_handlers at s in
      IsGate (u32 at.page_fault_handler2) 0 (after.gates 14)
      × IsGate (u32 at.clock_handler) 0 (after.gates 32)
      × IsGate (u32 at.keyboard_handler) 0 (after.gates 33)
      × ((v : ℕ) → v ≢ 14 → v ≢ 32 → v ≢ 33 → after.gates v ≡ set_handlers s.gates v)
unfolding set_idt
set_idt-calls set_handlers at s = (
  (set_interrupt_handler-calls 14 at.page_fault_handler2 0 (set_handlers s.gates) (omega arith)).0,
  (set_interrupt_handler-calls 32 at.clock_handler 0 (set_handlers s.gates) (omega arith)).0,
  (set_interrupt_handler-calls 33 at.keyboard_handler 0 (set_handlers s.gates) (omega arith)).0,
  λ v n1 n2 n3. ground arith,
)
