-- ===== src/Mm/Segments/Stacks.antt =====
-- Where the processor finds the TSS and the kernel stack.
use zeos.Common.{ℕ, ◌+◌, ◌-◌, ◌*◌, ◌/◌, ◌<◌, ◌≤◌, ◌≡◌, ◌≢◌, refl, arith, u32}
use zeos.Sched.{current, task_at}
use zeos.Mm.Paging.{Layout}
use zeos.Mm.Paging.Tables.{IsLinked}
use zeos.Mm.Segments.{Descriptor, Segments, Tss, set_gdt, set_tss}

-- The base address of a descriptor, as the processor puts it together.
abbrev base_of : Descriptor → ℕ
base_of d = d.high_base * 16777216 + d.mid_base * 65536 + d.low_base

-- For a TSS at a 32-bit address, `setGdt` makes the selector that `setTSS` loads into the task
-- register stand for the TSS, keeps that descriptor's limit and flags, and keeps every other
-- descriptor.
set_gdt-base_of :
    (tss task : ℕ) (s : Segments)
    → tss < 4294967296
    → let after = set_tss task (set_gdt tss s) in
      let d = after.gdt (after.task_reg / 8) in
      (base_of d ≡ tss)
      × (d.limit ≡ (s.gdt 6).limit)
      × (d.flags1 ≡ (s.gdt 6).flags1)
      × (d.flags2 ≡ (s.gdt 6).flags2)
      × ((i : ℕ) → i ≢ 6 → after.gdt i ≡ s.gdt i)
unfolding set_gdt set_tss
set_gdt-base_of tss task s h = (omega arith, refl, refl, refl, λ i ne. ground arith)

-- The stack that `setTSS` names for entering the kernel is that of task 1: with up to 4096 bytes
-- pushed, and the tasks linked at a page's start, `current` is that task. The user's stack pointer
-- lies in the last data page, and the kernel's stack segment is the kernel's data.
set_tss-current :
    (at : Layout) (pushed : ℕ) (s : Segments)
    → IsLinked at
    → 0 < pushed
    → pushed ≤ 4096
    → let after = set_tss at.task s in
      (current (after.tss.esp0 - pushed) ≡ task_at at.task 1)
      × (after.tss.esp / 4096 ≡ 0x100 + 19)
      × (after.tss.ss0 ≡ 0x18)
unfolding set_tss current
set_tss-current at pushed s is h le =
    let p = is.task_page in let f = is.task_fits in (omega arith, omega arith, refl)

-- The TSS of the machine: the kernel's stack is the end of task 1's page, the user's registers are
-- those of the user program's segments and stack, and the rest is 0.
record IsTss (task : ℕ) (t : Tss) : Type 0 where
  kernel_stack : (t.ss0 ≡ 0x18) × (t.esp0 ≡ task + 8192)
  other_stacks : (t.ss1 ≡ 0) × (t.esp1 ≡ 0) × (t.ss2 ≡ 0) × (t.esp2 ≡ 0)
  user_segments : (t.cs ≡ 0x23) × (t.ss ≡ 0x2b) × (t.ds ≡ 0x2b) × (t.es ≡ 0x2b)
  user_stack : (t.esp ≡ 0x113ff0) × (t.ebp ≡ 0x113ff0)
  flags : t.e_flags ≡ 0x200
  no_segments : (t.fs ≡ 0) × (t.gs ≡ 0)
  general : (t.eax ≡ 0) × (t.ecx ≡ 0) × (t.edx ≡ 0) × (t.ebx ≡ 0) × (t.esi ≡ 0) × (t.edi ≡ 0)
  place : (t.eip ≡ 0) × (t.cr3 ≡ 0)
  others :
      (t.previous_task_link ≡ 0)
      × (t.ldt_segment_selector ≡ 0x30)
      × (t.debug_trap ≡ 0)
      × (t.io_map_base_address ≡ 0)

-- `setGdt` and `setTSS`: the selector in the task register stands for the TSS, whose descriptor keeps
-- its limit and flags, every other descriptor is kept, and the TSS is filled.
pub record HasTss (task tss : ℕ) (before after : Segments) : Type 0 where
  base : base_of (after.gdt 6) ≡ u32 tss
  limit : (after.gdt 6).limit ≡ (before.gdt 6).limit
  flags :
      ((after.gdt 6).flags1 ≡ (before.gdt 6).flags1)
      × ((after.gdt 6).flags2 ≡ (before.gdt 6).flags2)
  others : (i : ℕ) → i ≢ 6 → after.gdt i ≡ before.gdt i
  filled : IsTss task after.tss

pub set_tss-HasTss :
    (task tss : ℕ) (s : Segments) → HasTss task tss s (set_tss task (set_gdt tss s))
unfolding set_gdt set_tss
set_tss-HasTss task tss s = record {
  base = omega arith;
  limit = refl;
  flags = (refl, refl);
  others = λ i ne. ground arith;
  filled = record {
    kernel_stack = (refl, omega arith);
    other_stacks = (refl, refl, refl, refl);
    user_segments = (refl, refl, refl, refl);
    user_stack = (refl, refl);
    flags = refl;
    no_segments = (refl, refl);
    general = (refl, refl, refl, refl, refl, refl);
    place = (refl, refl);
    others = (refl, refl, refl, refl);
  };
}
