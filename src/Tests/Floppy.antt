-- ===== src/Tests/Floppy.antt =====
-- From the floppy with an image of `build` to the user program: a BIOS that reads the disk.
use zeos.Common.{
  ℕ, ◌+◌, ◌-◌, ◌*◌, ◌/◌, ◌<◌, ◌≤◌, ◌≡◌, ◌⊎◌, ◌&&◌, ltb, leb, if◌then◌else◌, refl, arith, List, [],
  ◌∷◌, ◌++◌, ◌∙◌, get_or, true, some, chars,
}
use zeos.UserProgram.{hello_text, alive_text}
use zeos.Memory.{Memory, IsBytes}
use zeos.Io.Print.{IsValid}
use zeos.Build.{File, ok, minix_open, boot_sector, copy_loop, copy_file, patch, build}
use zeos.Mm.Paging.{init_mm, set_user_pages}
use zeos.Boot.{Machine, Image, loaded_text, entering_text, is_mapped, main}
use zeos.Boot.Run.{Started}
use zeos.Boot.Pages.{set_user_pages-is_mapped}
use zeos.Bootsect.{Bios, bootsect}
use zeos.Bootsect.Track.{ReadsDisk}
use zeos.Bootsect.Entered.{Entered, bootsect-Entered}
use zeos.Bootsect.Start.{HasLiterals, IsPacked, linked, bootsect-main}
use zeos.Tests.Machine.{at, at-IsLinked, paging, segments}
use zeos.Tests.Sector.{zeros, sector, boot_file, opened, accepted}
use zeos.Hardware.{Cpu}
use zeos.Interrupt.{Gate}
use zeos.Tests.Literals.{is_string-IsString, get_or-byte}

abbrev texts : List ℕ
texts = chars loaded_text ++ 0 ∷ chars entering_text ++ 0 ∷ []

abbrev pub system : File
system = record { st_size = 55; bytes = zeros 12 ++ texts }

-- The strings of the program, at the start of its data.
abbrev user_texts : List ℕ
user_texts =
    chars hello_text
    ++ 0 ∷ chars alive_text
    ++ 0 ∷ chars " ("
    ++ 0 ∷ chars " bytes)"
    ++ 0 ∷ chars "Bad file number"
    ++ 0 ∷ chars "Invalid argument"
    ++ 0 ∷ chars "alo"
    ++ 0 ∷ chars "alo2"

abbrev pub user : File
user = record { st_size = 112; bytes = user_texts }

abbrev behind : List ℕ
behind = 55 ∷ 0 ∷ 0 ∷ 0 ∷ 112 ∷ 0 ∷ 0 ∷ 0 ∷ 0x6a ∷ 0x7e ∷ 0 ∷ 0 ∷ texts ++ user_texts

abbrev pub image : List ℕ
image = zeros 500 ++ 11 ∷ 0 ∷ zeros 8 ++ 0x55 ∷ 0xaa ∷ behind

built : build (some boot_file) (some system) (some user) ≡ ok image
unfolding build minix_open boot_sector copy_file copy_loop patch
built = refl

abbrev pub disk : ℕ → ℕ
disk i = get_or image i 0

disk-byte : (i : ℕ) → disk i < 256
disk-byte i = get_or-byte image i refl

abbrev pub bios : Bios
bios al ch cl dh es bx m a =
    if leb (16 * es + bx) a && ltb a (16 * es + bx + 512 * al)
    then disk (512 * ((2 * ch + dh) * 18 + cl - 1) + (a - (16 * es + bx)))
    else m a

pub bios-ReadsDisk : ReadsDisk bios disk
bios-ReadsDisk = record {
  loaded = λ al ch cl dh es bx m h₁ h₂ h₃ h₄ h₅ h₆ i lt. ground arith;
  kept = λ al ch cl dh es bx m h₁ h₂ h₃ h₄ h₅ h₆ a lo off. ground arith;
  bytes = λ al ch cl dh es bx m w a.
      ground (arith, w a, disk-byte (512 * ((2 * ch + dh) * 18 + cl - 1) + (a - (16 * es + bx))));
}

pub packed : IsPacked (some boot_file) system user sector sector image disk
packed = record {
  opened = opened;
  accepted = accepted;
  no_setup = refl;
  system_whole = omega arith;
  user_whole = omega arith;
  small = omega arith;
  header = omega arith;
  user_small = omega arith;
  built = built;
  written = λ i lt. refl;
}

-- The first sector at 0x7c00, nothing else.
abbrev sector_of : (ℕ → ℕ) → Memory
sector_of d a = if leb 0x7c00 a && ltb a 0x7e00 then d (a - 0x7c00) else 0

sector_of-at : (d : ℕ → ℕ) (i : ℕ) → i < 512 → sector_of d (0x7c00 + i) ≡ d i
sector_of-at d i lt = ground arith

abbrev memory : Memory
memory = sector_of disk

memory-IsBytes : IsBytes memory
memory-IsBytes a = ground (arith, disk-byte (a - 0x7c00))

abbrev cpu : Cpu
cpu = record {
  e_flags = 0x202;
  cs = 0x10;
  ds = 0;
  es = 0;
  fs = 0;
  gs = 0;
  ss = 0;
  esp = 0;
  eip = 0x1000c;
  idtr = record { limit = 0; base = 0 };
  gdtr = record { limit = 0; base = 0 };
  ldtr = 0;
  tr = 0;
  msr = λ i. 0;
  pic_mask = 0xff;
}

abbrev no_gate : Gate
no_gate = record { low_offset = 0; segment_selector = 0; flags = 0; high_offset = 0 }

abbrev pub on : Machine
on = record {
  cpu = cpu;
  console = record { x = 0; y = 0; mem = memory; port_e9 = [] };
  segments = segments;
  interrupts = record { gates = λ v. no_gate; idtr_base = 0; idtr_limit = 0 };
  paging = paging;
  zeos_ticks = 77;
}

pub on-IsValid : IsValid on.console
on-IsValid = record { column = omega arith; row = omega arith; bytes = memory-IsBytes }

pub first : (i : ℕ) → i < 512 → memory (0x7c00 + i) ≡ disk i
first = sector_of-at disk

abbrev pub image_at : Image
image_at = record {
  layout = at;
  tss = 0x60000;
  handlers = record {
    idt = 0x50000;
    page_fault_handler2 = 0x12345;
    keyboard_handler = 0x23456;
    clock_handler = 0x34567;
  };
  syscall_handler = 0x45678;
  loaded = 0x1000c;
  entering = 0x1000c + 20;
}

pub mapped :
    (a : ℕ)
    → 0x1000 ≤ a
    → a < 0x11c000
    → is_mapped (set_user_pages 0x20000 (init_mm at (record paging { cr0 = 1 }))) a ≡ true
mapped a lo hi =
    set_user_pages-is_mapped at (record paging { cr0 = 1 }) at-IsLinked a (omega arith)
    ∙ ground arith

pub has : HasLiterals image_at system
has = record {
  loaded = is_string-IsString (linked system) 0x1000c (chars loaded_text) refl;
  loaded_low = omega arith;
  loaded_high = omega arith;
  entering = is_string-IsString (linked system) (0x1000c + 20) (chars entering_text) refl;
  entering_low = omega arith;
  entering_high = omega arith;
}

bootsect-Entered_example :
    (t : Machine) × (bootsect bios 129 on ≡ some t) × Entered disk (128 * (11 / 4096 + 1)) on t
bootsect-Entered_example =
    bootsect-Entered bios disk bios-ReadsDisk 129 11 on on-IsValid first refl refl (omega arith)
      (omega arith)

bootsect-main_example :
    (k t : Machine) × (bootsect bios 1025 on ≡ some k)
    × (k.console.port_e9 ≡ [])
    × (main image_at (λ g. g) (set_user_pages 0x20000) 31 k ≡ some t)
    × Started image_at (λ g. g) (set_user_pages 0x20000) 55 112 k t
    × ((i : ℕ)
        → i < 112
        → (i < 0x13ffc) ⊎ (0x14000 ≤ i)
        → t.console.mem (0x100000 + i) ≡ get_or user.bytes i 0)
bootsect-main_example =
    bootsect-main image_at (λ g. g) (set_user_pages 0x20000) bios 1025 31 (some boot_file) system
      user sector sector image disk bios-ReadsDisk packed on on-IsValid first (omega arith) has
      (omega arith) mapped
