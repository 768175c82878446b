-- ===== src/Mm/Segments.antt =====
-- Segmentation and the TSS: `setGdt` and `setTSS`, with the structures of types.h and the selectors of
-- segment.h. What `lgdt` and `ltr` load is kept in fields of their own.
pub mod Stacks
use zeos.Common.{ℕ, ◌+◌, ◌-◌, ◌*◌, ◌/◌, ◌%◌, Bool, ◌==◌, if◌then◌else◌, u16}
use zeos.Common.{low_word, mid_byte, high_byte}
use zeos.MmAddress.{user_esp}

pub record Descriptor : Type 0 where
  pub limit : ℕ
  pub low_base : ℕ
  pub mid_base : ℕ
  pub flags1 : ℕ
  pub flags2 : ℕ
  pub high_base : ℕ

-- typedef struct { Word limit; DWord base; } Register
pub record Register : Type 0 where
  pub limit : ℕ
  pub base : ℕ

-- The fields that no code names, `none1` to `none11`, are left out.
pub record Tss : Type 0 where
  pub previous_task_link : ℕ
  pub esp0 : ℕ
  pub ss0 : ℕ
  pub esp1 : ℕ
  pub ss1 : ℕ
  pub esp2 : ℕ
  pub ss2 : ℕ
  pub cr3 : ℕ
  pub eip : ℕ
  pub e_flags : ℕ
  pub eax : ℕ
  pub ecx : ℕ
  pub edx : ℕ
  pub ebx : ℕ
  pub esp : ℕ
  pub ebp : ℕ
  pub esi : ℕ
  pub edi : ℕ
  pub es : ℕ
  pub cs : ℕ
  pub ss : ℕ
  pub ds : ℕ
  pub fs : ℕ
  pub gs : ℕ
  pub ldt_segment_selector : ℕ
  pub debug_trap : ℕ
  pub io_map_base_address : ℕ

pub record Segments : Type 0 where
  pub gdt : ℕ → Descriptor
  pub gdt_r : Register
  pub tss : Tss
  -- the task register, which `set_task_reg` loads
  pub task_reg : ℕ

abbrev pub kernel_ds : ℕ
kernel_ds = 0x18

abbrev pub user_cs : ℕ
user_cs = 0x23

abbrev pub user_ds : ℕ
user_ds = 0x2b

abbrev kernel_tss : ℕ
kernel_tss = 0x30

abbrev gdt_start : ℕ
gdt_start = 0x901b3

abbrev initial_eflags : ℕ
initial_eflags = 0x200

-- KERNEL_ESP(&task[1])
abbrev pub initial_esp : (task : ℕ) → ℕ
initial_esp task = task + 4096 * 1 + 4 * 1024

-- `tss` is the address of the TSS.
unfoldable pub set_gdt : (tss : ℕ) → Segments → Segments
set_gdt tss s =
    let entry = s.gdt (kernel_tss / 8) in
    let d = record entry {
      low_base = low_word tss;
      mid_base = mid_byte tss;
      high_base = high_byte tss;
    } in
    record s {
      gdt = λ i. if i == kernel_tss / 8 then d else s.gdt i;
      gdt_r = record { limit = u16 (256 * 8); base = gdt_start };
    }

unfoldable pub set_tss : (task : ℕ) → Segments → Segments
set_tss task s = record s {
  tss = record {
    previous_task_link = 0;
    esp0 = initial_esp task;
    ss0 = kernel_ds;
    esp1 = 0;
    ss1 = 0;
    esp2 = 0;
    ss2 = 0;
    cr3 = 0;
    eip = 0;
    e_flags = initial_eflags;
    eax = 0;
    ecx = 0;
    edx = 0;
    ebx = 0;
    esp = user_esp;
    ebp = user_esp;
    esi = 0;
    edi = 0;
    es = user_ds;
    cs = user_cs;
    ss = user_ds;
    ds = user_ds;
    fs = 0;
    gs = 0;
    ldt_segment_selector = kernel_tss;
    debug_trap = 0;
    io_map_base_address = 0;
  };
  task_reg = kernel_tss;
}
