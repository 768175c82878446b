-- ===== src/Boot.antt =====
-- system.c: `main` of the kernel, from the boot loader's jump to the first instruction of the user
-- program. `monoprocess_init_addr_space` and `set_handlers` stand in libzeos.a and are parameters.
-- `init_sched`, `init_idle` and `init_task1` are empty functions.
pub mod Moved
pub mod Run
pub mod Pages
pub mod Load
use zeos.Common.{
  ℕ, ◌+◌, ◌-◌, ◌*◌, Bool, true, false, ltb, ◌&&◌, if◌then◌else◌, holds_from, to_int, of_int, u32,
  Option, none, some, String,
}
use zeos.Memory.{Memory, load32}
use zeos.MmAddress.{user_esp, l_user_start, pag_log_init_code}
use zeos.Io.{Console, printk}
use zeos.Utils.{copy_data}
use zeos.Clock.{reset_clock_ticks}
use zeos.Interrupt.{Idt, Handlers, Interrupts, set_idt}
use zeos.Mm.Paging.{Layout, Paging, init_mm}
use zeos.Mm.Paging.Init.{translate}
use zeos.Mm.Segments.{
  Segments, Register, set_gdt, set_tss, kernel_ds, user_ds, user_cs, initial_esp,
}
use zeos.Hardware.{
  Cpu, set_eflags, set_seg_regs, set_gdt_reg, set_idt_reg, set_task_reg, write_msr, enable_int,
  return_gate,
}

-- The kernel's variables and the machine.
pub record Machine : Type 0 where
  pub cpu : Cpu
  pub console : Console
  pub segments : Segments
  pub interrupts : Interrupts
  pub paging : Paging
  pub zeos_ticks : ℕ

-- What the linker places: the layout of the tables, the TSS, the handlers, and the two literals.
pub record Image : Type 0 where
  pub layout : Layout
  pub tss : ℕ
  pub handlers : Handlers
  pub syscall_handler : ℕ
  pub loaded : ℕ
  pub entering : ℕ

abbrev pub loaded_text : String
loaded_text = "Kernel Loaded!    \n"

abbrev pub entering_text : String
entering_text = "Entering user mode...\n"

abbrev pub kernel_start : ℕ
kernel_start = 0x10000

-- The words at `p_sys_size`, `p_usr_size` and `p_rdtr`.
abbrev pub sys_size : Memory → ℕ
sys_size m = load32 kernel_start m

abbrev pub usr_size : Memory → ℕ
usr_size m = load32 (kernel_start + 4) m

abbrev pub rdtr : Memory → ℕ
rdtr m = load32 (kernel_start + 8) m

abbrev usr_main : ℕ
usr_main = pag_log_init_code * 4096

-- Whether the processor's walk finds a page for the address.
abbrev pub is_mapped : Paging → ℕ → Bool
is_mapped s addr = elim (translate s addr) [ none ↦ false | some _ ↦ true ]

abbrev pub with_memory : Memory → Machine → Machine
with_memory m s = record s { console = record s.console { mem = m } }

-- `copy_data((void *) KERNEL_START + *p_sys_size, (void*)L_USER_START, *p_usr_size)`; `none` is a
-- page fault, as an address of the one block or the other has no page.
unfoldable pub move_user : Machine → Option Machine
move_user s =
    let m = s.console.mem in
    let start = u32 (kernel_start + sys_size m) in
    if holds_from start (usr_size m) (is_mapped s.paging)
      && holds_from l_user_start (usr_size m) (is_mapped s.paging)
    then some (with_memory (copy_data start l_user_start (to_int (usr_size m)) m) s)
    else none

-- `return_gate(__USER_DS, __USER_DS, USER_ESP, __USER_CS, (DWord) usr_main)`
unfoldable pub enter_user : Machine → Machine
enter_user s =
    let (cpu, m) =
      return_gate user_ds user_ds user_esp user_cs usr_main (rdtr s.console.mem) s.cpu
        s.console.mem in
    with_memory m (record s { cpu = cpu })

module _ (at : Image) (set_handlers : Idt → Idt) (monoprocess_init_addr_space : Paging → Paging)
    (fuel : ℕ) where
  -- From `setGdt` to `init_task1`.
  unfoldable pub init : Machine → Machine
  unfolding set_gdt set_idt set_tss
  init s =
      let s = record s { segments = set_gdt at.tss s.segments } in
      let s = record s { cpu = set_gdt_reg s.segments.gdt_r s.cpu } in
      let s = record s { interrupts = set_idt set_handlers at.handlers s.interrupts } in
      let s = record s {
        cpu =
            set_idt_reg (record { limit = s.interrupts.idtr_limit; base = s.interrupts.idtr_base })
              s.cpu;
      } in
      let s = record s { segments = set_tss at.layout.task s.segments } in
      let s = record s { cpu = set_task_reg s.segments.task_reg s.cpu } in
      let s = record s { cpu = write_msr 0x174 0x10 s.cpu } in
      let s = record s { cpu = write_msr 0x175 (initial_esp at.layout.task) s.cpu } in
      let s = record s { cpu = write_msr 0x176 at.syscall_handler s.cpu } in
      let s = record s { paging = init_mm at.layout s.paging } in
      record s { paging = monoprocess_init_addr_space s.paging }

  -- From `reset_clock_ticks` on; `none` is a `printk` that does not end.
  unfoldable pub start_user : Machine → Option Machine
  unfolding enter_user
  start_user s =
      let s = record s { zeos_ticks = reset_clock_ticks s.zeos_ticks } in
      elim (printk fuel at.entering s.console) [
        | none ↦ none
        | some c ↦
            let s = record s { console = c } in
            let s = record s { cpu = enable_int s.cpu } in some (enter_user s)
      ]

  unfoldable pub main : Machine → Option Machine
  main s =
      let s = record s { cpu = set_eflags s.cpu } in
      let s = record s {
        cpu = set_seg_regs kernel_ds kernel_ds (at.layout.task + 4096 * 4) s.cpu;
      } in
      elim (printk fuel at.loaded s.console) [
        | none ↦ none
        | some c ↦ elim (move_user (init (record s { console = c }))) [
          | none ↦ none
          | some s ↦ start_user s
        ]
      ]
