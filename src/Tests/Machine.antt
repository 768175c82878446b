-- ===== src/Tests/Machine.antt =====
-- A machine to run on: a console below the boot messages, a text in user memory, and addresses such
-- as a linker gives.
use zeos.Common.{ℕ, ◌==◌, if◌then◌else◌, List, [], ◌∷◌, arith, refl, pos}
use zeos.Memory.{Memory, IsBytes, IsString}
use zeos.Io.{Console}
use zeos.Io.Print.{IsValid}
use zeos.Libc.Print.{KernelBuffer}
use zeos.Syscall.{User, Call}
use zeos.Mm.Paging.{Layout, Paging}
use zeos.Mm.Paging.Tables.{IsLinked}
use zeos.Entry.{Registers}
use zeos.Mm.Segments.{Segments, Descriptor, Tss}

-- "hi" at the start of the user space and at 0x5000
abbrev pub text : Memory
text a =
    if a == 0x100000
    then 104
    else if a == 0x100001
    then 105
    else if a == 0x5000
    then 104
    else if a == 0x5001
    then 105
    else 0

abbrev pub hi : List ℕ
hi = 104 ∷ 105 ∷ []

abbrev pub console : Console
console = record { x = 78; y = 24; mem = text; port_e9 = [] }

pub text-IsBytes : IsBytes text
text-IsBytes a = ground arith

pub console-IsValid : IsValid console
console-IsValid = record { column = omega arith; row = omega arith; bytes = text-IsBytes }

pub low-IsString : IsString text 0x5000 hi
low-IsString = (refl, ground arith, (refl, ground arith, refl))

pub stack-KernelBuffer : KernelBuffer 0x9000
stack-KernelBuffer = record { off = omega arith; below = omega arith }

abbrev pub user : User
user = record { console = console; errno = pos 0 }

abbrev pub call : Call
call = record { buff = 0x9000; zeos_ticks = 7; edx = pos 1; ecx = 0x100000; ebx = pos 2 }

abbrev pub at : Layout
at = record { task = 0x20000; dir_pages = 0x30000; pagusr_table = 0x40000 }

pub at-IsLinked : IsLinked at
at-IsLinked = record {
  task_page = omega arith;
  dir_page = omega arith;
  table_page = omega arith;
  task_fits = omega arith;
  dir_fits = omega arith;
  table_fits = omega arith;
  apart = omega arith;
}

abbrev pub paging : Paging
paging = record {
  phys_mem = λ _. 0;
  entry = λ _. 0;
  dir_pages_base_addr = λ _. 0;
  cr3 = 0;
  cr0 = 1;
}

abbrev pub descriptor : Descriptor
descriptor = record {
  limit = 0x67;
  low_base = 0;
  mid_base = 0;
  flags1 = 0x89;
  flags2 = 0;
  high_base = 0;
}

abbrev no_tss : Tss
no_tss = record {
  previous_task_link = 0;
  esp0 = 0;
  ss0 = 0;
  esp1 = 0;
  ss1 = 0;
  esp2 = 0;
  ss2 = 0;
  cr3 = 0;
  eip = 0;
  e_flags = 0;
  eax = 0;
  ecx = 0;
  edx = 0;
  ebx = 0;
  esp = 0;
  ebp = 0;
  esi = 0;
  edi = 0;
  es = 0;
  cs = 0;
  ss = 0;
  ds = 0;
  fs = 0;
  gs = 0;
  ldt_segment_selector = 0;
  debug_trap = 0;
  io_map_base_address = 0;
}

abbrev pub segments : Segments
segments = record {
  gdt = λ _. descriptor;
  gdt_r = record { limit = 0; base = 0 };
  tss = no_tss;
  task_reg = 0;
}

abbrev pub registers : Registers
registers = record {
  edx = 1;
  ecx = 0x100000;
  ebx = 2;
  esi = 3;
  edi = 4;
  ebp = 0x113fe0;
  eax = 4;
  ds = 0x2b;
  es = 0x2b;
  fs = 0x2b;
  gs = 0x2b;
}
