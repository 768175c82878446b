-- ===== src/Boot/Run.antt =====
-- The boot sequence as a whole.
use zeos.Common.{
  ℕ, ◌+◌, ◌*◌, ◌/◌, ◌%◌, ◌<◌, ◌≤◌, ◌≡◌, ◌⊎◌, refl, ap, ◌∙◌, arith, true, ◌++◌, append_assoc, some,
  chars, u32, ◌≢◌,
}
use zeos.Memory.{load32, store32}
use zeos.Memory.Laws.{
  copied, load32-ext, copied-IsBytes, store32-IsBytes, load32-store32, load32-lt, store32-off,
}
use zeos.Io.{Console, printk, print_all}
use zeos.Io.Print.{IsValid, printk_lem, print_all-IsValid, print_all-off, print_all-port}
use zeos.Interrupt.{Idt, set_idt}
use zeos.Mm.Segments.{set_gdt, set_tss}
use zeos.Interrupt.Gates.{IsGate, set_idt-calls}
use zeos.Mm.Segments.Stacks.{HasTss, set_tss-HasTss}
use zeos.Mm.Paging.{Paging, init_mm}
use zeos.Mm.Paging.Init.{paging_bit, init_mm-paging_bit, init_mm-cr3}
use zeos.Hardware.{
  Cpu, set_eflags, set_seg_regs, enable_int, return_gate, write_msr, set_gdt_reg, set_idt_reg,
  set_task_reg,
}
use zeos.Clock.{reset_clock_ticks}
use zeos.Boot.{
  Machine, Image, loaded_text, entering_text, rdtr, is_mapped, init, move_user, start_user,
  enter_user, main, with_memory,
}
use zeos.Boot.Moved.{IsLoaded, Same, IsLoaded-ext, move_user_lem}

-- The process is about to execute its first instruction, with interrupts on.
pub record InUserMode (c : Cpu) : Type 0 where
  pub code : c.cs ≡ 0x23
  pub first_instruction : c.eip ≡ 0x114000
  pub stack : c.esp ≡ 0x113ff0
  pub stack_segment : c.ss ≡ 0x2b
  pub data_segments : (c.ds ≡ 0x2b) × (c.es ≡ 0x2b)
  -- interrupts are on, and no other flag is set
  pub interrupts_on : (c.e_flags / 512 % 2 ≡ 1) × (c.e_flags ≡ 0x202)
  pub mask : c.pic_mask ≡ 0xfc

-- What the processor takes from its registers when the process calls the kernel or is interrupted: the
-- descriptor tables with all 256 entries, the TSS, and the segment, the stack and the entry that
-- `sysenter` loads.
pub record HasEntries (at : Image) (before after : Cpu) : Type 0 where
  pub idt : (after.idtr.base ≡ at.handlers.idt) × (after.idtr.limit ≡ 2047)
  pub gdt : (after.gdtr.base ≡ 0x901b3) × (after.gdtr.limit ≡ 2048)
  pub task : after.tr ≡ 0x30
  pub sysenter :
      (after.msr 0x174 ≡ 0x10)
      × (after.msr 0x175 ≡ at.layout.task + 8192)
      × (after.msr 0x176 ≡ at.syscall_handler)
  other_registers : (i : ℕ) → i ≢ 0x174 → i ≢ 0x175 → i ≢ 0x176 → after.msr i ≡ before.msr i

-- The machine `t` as `main` leaves it, from the machine `s` of the boot loader.
pub record Started (at : Image) (set_handlers : Idt → Idt) (init_addr_space : Paging → Paging)
    (sys usr : ℕ) (s t : Machine) : Type 0 where
  pub user_mode : InUserMode t.cpu
  pub entries : HasEntries at s.cpu t.cpu
  -- the user program, but for the top of the user's stack, which gets the word at `p_rdtr`
  pub program :
      (i : ℕ)
      → i < usr
      → (i < 0x13ffc) ⊎ (0x14000 ≤ i)
      → t.console.mem (0x100000 + i) ≡ s.console.mem (0x10000 + sys + i)
  pub argument : load32 0x113ffc t.console.mem ≡ rdtr s.console.mem
  pub port :
      t.console.port_e9 ≡ s.console.port_e9 ++ chars "Kernel Loaded!    \nEntering user mode...\n"
  -- page fault, clock and keyboard
  pub gates :
      IsGate (u32 at.handlers.page_fault_handler2) 0 (t.interrupts.gates 14)
      × IsGate (u32 at.handlers.clock_handler) 0 (t.interrupts.gates 32)
      × IsGate (u32 at.handlers.keyboard_handler) 0 (t.interrupts.gates 33)
  other_gates :
      (v : ℕ) → v ≢ 14 → v ≢ 32 → v ≢ 33 → t.interrupts.gates v ≡ set_handlers s.interrupts.gates v
  pub segments : HasTss at.layout.task at.tss s.segments t.segments
  -- the library's function has got the tables of `init_mm`, with paging on
  pub paging :
      (t.paging ≡ init_addr_space (init_mm at.layout s.paging))
      × (paging_bit (init_mm at.layout s.paging).cr0 ≡ 1)
      × ((init_mm at.layout s.paging).cr3 ≡ at.layout.dir_pages)
  pub no_ticks : t.zeos_ticks ≡ 0
  pub valid : IsValid t.console

module _ (at : Image) (set_handlers : Idt → Idt) (init_addr_space : Paging → Paging)
    (fuel sys usr : ℕ) (s : Machine) (v : IsValid s.console) (l : IsLoaded at sys usr s.console.mem)
    (le : usr ≤ 0x1c000) (enough : 30 < fuel) where
  -- After the first message.
  abbrev first : Console
  first = print_all (chars loaded_text) s.console

  first-IsValid : IsValid first
  first-IsValid = print_all-IsValid (chars loaded_text) s.console v

  first-Same : Same s.console.mem first.mem
  first-Same a h = print_all-off (chars loaded_text) s.console a v (omega arith)

  prints_first : printk fuel at.loaded s.console ≡ some first
  prints_first =
      let b = l.loaded_below in
      printk_lem fuel at.loaded (chars loaded_text) s.console v l.loaded (omega arith) (omega arith)

  -- After the copy, and the second message.
  abbrev moved : Console
  moved = record first { mem = copied first.mem (0x10000 + sys) 0x100000 usr }

  moved-IsValid : IsValid moved
  moved-IsValid = record {
    column = first-IsValid.column;
    row = first-IsValid.row;
    bytes = copied-IsBytes first.mem (0x10000 + sys) 0x100000 usr first-IsValid.bytes;
  }

  moved-Same : Same s.console.mem moved.mem
  moved-Same a h = ground (arith, first-Same a)

  moved-IsLoaded : IsLoaded at sys usr moved.mem
  moved-IsLoaded = IsLoaded-ext at sys usr s.console.mem moved.mem moved-Same l

  abbrev second : Console
  second = print_all (chars entering_text) moved

  second-IsValid : IsValid second
  second-IsValid = print_all-IsValid (chars entering_text) moved moved-IsValid

  second-off : (a : ℕ) → (a < 0xb8000) ⊎ (0x100000 ≤ a) → second.mem a ≡ moved.mem a
  second-off a off = print_all-off (chars entering_text) moved a moved-IsValid (omega arith)

  prints_second : printk fuel at.entering moved ≡ some second
  prints_second =
      let b = l.entering_below in
      printk_lem fuel at.entering (chars entering_text) moved moved-IsValid moved-IsLoaded.entering
        (omega arith) (omega arith)

  program_moved : (i : ℕ) → i < usr → second.mem (0x100000 + i) ≡ s.console.mem (0x10000 + sys + i)
  program_moved i lt =
      let b = l.below in
      second-off (0x100000 + i) (omega arith)
      ∙ inside i lt
      ∙ first-Same (0x10000 + sys + i) (omega arith)
    where
      inside : (j : ℕ) → j < usr → moved.mem (0x100000 + j) ≡ first.mem (0x10000 + sys + j)
      inside j lt = ground arith

  same_rdtr : rdtr second.mem ≡ rdtr s.console.mem
  same_rdtr =
      load32-ext s.console.mem second.mem 0x10008
        (λ a lo hi. second-off a (omega arith) ∙ moved-Same a (omega arith))

  second-port : second.port_e9 ≡ s.console.port_e9 ++ (chars loaded_text ++ chars entering_text)
  second-port =
      print_all-port (chars entering_text) moved
      ∙ ap (λ t. t ++ chars entering_text) (print_all-port (chars loaded_text) s.console)
      ∙ append_assoc s.console.port_e9 (chars loaded_text) (chars entering_text)

  abbrev initialised : Machine
  initialised = init at set_handlers init_addr_space fuel (record s {
    cpu = set_seg_regs 0x18 0x18 (at.layout.task + 4096 * 4) (set_eflags s.cpu);
    console = first;
  })

  abbrev started : Machine
  started =
      enter_user
        (record initialised { cpu = enable_int initialised.cpu; console = second; zeos_ticks = 0 })

  module _
      (mapped : (a : ℕ)
        → 0x1000 ≤ a
        → a < 0x11c000
        → is_mapped (init_addr_space (init_mm at.layout s.paging)) a ≡ true) where
    moves : move_user initialised ≡ some (with_memory moved.mem initialised)
    unfolding init
    moves =
        move_user_lem at sys usr initialised first-IsValid
          (IsLoaded-ext at sys usr s.console.mem first.mem first-Same l) le mapped

    starts :
        start_user at set_handlers init_addr_space fuel (with_memory moved.mem initialised)
        ≡ some started
    unfolding start_user init reset_clock_ticks
    starts = rw (prints_second, start_user) refl

    main-started : main at set_handlers init_addr_space fuel s ≡ some started
    unfolding main
    main-started = rw (prints_first, main) (rw moves starts)

    started-Started : Started at set_handlers init_addr_space sys usr s started
    unfolding enter_user init set_gdt set_idt set_tss set_seg_regs set_eflags enable_int return_gate
        write_msr set_gdt_reg set_idt_reg set_task_reg
    started-Started = record {
      user_mode = record {
        code = refl;
        first_instruction = refl;
        stack = refl;
        stack_segment = refl;
        data_segments = (refl, refl);
        interrupts_on = (refl, refl);
        mask = refl;
      };
      entries = record {
        idt = (refl, refl);
        gdt = (refl, refl);
        task = refl;
        sysenter = (refl, omega arith, refl);
        other_registers = λ i n1 n2 n3. ground arith;
      };
      program = λ i lt off. off_argument (0x100000 + i) (omega arith) ∙ program_moved i lt;
      argument =
          load32-store32 0x113ffc (rdtr second.mem) second.mem
            (load32-lt 0x10008 second.mem second-IsValid.bytes)
          ∙ same_rdtr;
      port = second-port;
      gates = (
        (set_idt-calls set_handlers at.handlers s.interrupts).0,
        (set_idt-calls set_handlers at.handlers s.interrupts).1,
        (set_idt-calls set_handlers at.handlers s.interrupts).2,
      );
      other_gates = (set_idt-calls set_handlers at.handlers s.interrupts).3;
      segments = set_tss-HasTss at.layout.task at.tss s.segments;
      paging = (refl, init_mm-paging_bit at.layout s.paging, init_mm-cr3 at.layout s.paging);
      no_ticks = refl;
      valid = record {
        column = second-IsValid.column;
        row = second-IsValid.row;
        bytes = store32-IsBytes 0x113ffc (rdtr second.mem) second.mem second-IsValid.bytes;
      };
    }
      where
        off_argument :
            (a : ℕ)
            → (a < 0x113ffc) ⊎ (0x114000 ≤ a)
            → store32 0x113ffc (rdtr second.mem) second.mem a ≡ second.mem a
        off_argument a off = store32-off 0x113ffc (rdtr second.mem) second.mem a (omega arith)

    -- Let the boot loader have put header, kernel and user program below the screen, and the
    -- library's address space have pages for every address from the kernel's to the end of user
    -- space. On a valid console, with fuel for the messages, `main` ends: it has printed its two
    -- messages, set up gates, segments and paging, and copied the user program to the user space;
    -- interrupts are on, and the processor is at the program's first instruction in user mode.
    pub main_lem :
        (t : Machine) × (main at set_handlers init_addr_space fuel s ≡ some t)
        × Started at set_handlers init_addr_space sys usr s t
    main_lem = (started, main-started, started-Started)
