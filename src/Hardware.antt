-- ===== src/Hardware.antt =====
-- hardware.c, `writeMsr` of entry.S and `set_seg_regs` of system.c: the processor's registers that the
-- kernel loads by inline assembly, and the mask of the interrupt controller. The general registers
-- that these functions use as scratch are left out, and what a return to an outer level does to fs
-- and gs.
use zeos.Common.{ℕ, ◌+◌, ◌-◌, ◌*◌, ◌==◌, if◌then◌else◌, bit_or, u32}
use zeos.Memory.{Memory, store32}
use zeos.Mm.Segments.{Register}

pub record Cpu : Type 0 where
  pub e_flags : ℕ
  pub cs : ℕ
  pub ds : ℕ
  pub es : ℕ
  pub fs : ℕ
  pub gs : ℕ
  pub ss : ℕ
  pub esp : ℕ
  pub eip : ℕ
  pub idtr : Register
  pub gdtr : Register
  pub ldtr : ℕ
  pub tr : ℕ
  -- the model specific registers
  pub msr : ℕ → ℕ
  -- port 0x21
  pub pic_mask : ℕ

unfoldable get_eflags : Cpu → ℕ
get_eflags c = c.e_flags

-- `popfl` of 0: bit 1 is always set.
unfoldable pub set_eflags : Cpu → Cpu
set_eflags c = record c { e_flags = 2 }

unfoldable pub set_idt_reg : (idt : Register) → Cpu → Cpu
set_idt_reg idt c = record c { idtr = idt }

unfoldable pub set_gdt_reg : (gdt : Register) → Cpu → Cpu
set_gdt_reg gdt c = record c { gdtr = gdt }

unfoldable set_ldt_reg : (ldt : ℕ) → Cpu → Cpu
set_ldt_reg ldt c = record c { ldtr = ldt }

unfoldable pub set_task_reg : (tr : ℕ) → Cpu → Cpu
set_task_reg tr c = record c { tr = tr }

-- `writeMsr`: the upper half of the register becomes 0.
unfoldable pub write_msr : (number value : ℕ) → Cpu → Cpu
write_msr number value c = record c { msr = λ i. if i == number then value else c.msr i }

unfoldable pub set_seg_regs : (data_sel stack_sel esp : ℕ) → Cpu → Cpu
set_seg_regs data_sel stack_sel esp c = record c {
  ds = data_sel;
  es = data_sel;
  fs = data_sel;
  gs = data_sel;
  ss = stack_sel;
  esp = u32 (esp + 4294967296 - 5 * 4);
}

-- The mask leaves keyboard and clock; `sti` sets bit 9. `delay` is a jump to the next instruction.
unfoldable pub enable_int : Cpu → Cpu
enable_int c = record c { pic_mask = 0xfc; e_flags = bit_or c.e_flags 0x200 }

-- What `lret` takes from the kernel's stack are the four words pushed before it. `rdtr` is the word at
-- `p_rdtr`, which goes to the user's stack.
unfoldable pub return_gate : (ds ss esp cs eip rdtr : ℕ) → Cpu → Memory → Cpu × Memory
return_gate ds ss esp cs eip rdtr c m = (
  record c { es = ds; ds = ds; ss = ss; esp = esp; cs = cs; eip = eip },
  store32 (u32 (esp + 12)) rdtr m,
)
