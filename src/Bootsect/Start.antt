-- ===== src/Bootsect/Start.antt =====
-- From the files that `build` packs, over a boot from the floppy, to the user program in its place.
use zeos.Common.{
  ℕ, ◌+◌, ◌-◌, ◌*◌, ◌/◌, ◌<◌, ◌≤◌, ◌≡◌, ◌⊎◌, sym, subst, ap, ◌∙◌, arith, List, ◌++◌, length, take,
  get_or, Option, some, chars, String, true,
}
use zeos.Memory.{Memory, IsString}
use zeos.Memory.Laws.{IsString-ext}
use zeos.Io.Print.{IsValid}
use zeos.Interrupt.{Idt}
use zeos.Mm.Paging.{Paging, init_mm}
use zeos.Build.{File, ok, minix_open, boot_sector, build}
use zeos.Build.Image.{IsImage}
use zeos.Boot.{Machine, Image, loaded_text, entering_text, is_mapped, main}
use zeos.Boot.Run.{Started}
use zeos.Build.Sector.{boot_sector-length}
use zeos.Boot.Load.{Loads, system-contents, sector-contents, built-IsImage, build-main}
use zeos.Bootsect.{Bios, bootsect}
use zeos.Bootsect.Track.{ReadsDisk}
use zeos.Bootsect.Entered.{Entered, bootsect-Entered}

-- The system as the kernel is linked for: its first byte is at 0x10000.
abbrev pub linked : File → Memory
linked system a = get_or system.bytes (a - 0x10000) 0

-- What the files, the image and the disk have to be.
pub record IsPacked (bootfile : Option File) (system user : File) (rest boot image : List ℕ)
    (disk : ℕ → ℕ) : Type 0 where
  pub opened : minix_open bootfile ≡ ok rest
  pub accepted : boot_sector rest ≡ ok boot
  pub no_setup : get_or boot 497 0 ≡ 0
  pub system_whole : system.st_size ≤ length system.bytes
  pub user_whole : user.st_size ≤ length user.bytes
  pub small : system.st_size + user.st_size ≤ 0x7fff0
  pub header : 12 ≤ system.st_size
  pub user_small : user.st_size ≤ 0x1c000
  pub built : build bootfile (some system) (some user) ≡ ok image
  pub written : (i : ℕ) → i < 512 + (system.st_size + user.st_size) → disk i ≡ get_or image i 0

-- The literals of `main` are in the system, behind the words of the header.
pub record HasLiterals (at : Image) (system : File) : Type 0 where
  pub loaded : IsString (linked system) at.loaded (chars loaded_text)
  pub loaded_low : 0x1000c ≤ at.loaded
  pub loaded_high : at.loaded + 20 ≤ 0x10000 + system.st_size
  pub entering : IsString (linked system) at.entering (chars entering_text)
  pub entering_low : 0x1000c ≤ at.entering
  pub entering_high : at.entering + 23 ≤ 0x10000 + system.st_size

module _ (at : Image) (set_handlers : Idt → Idt) (init_addr_space : Paging → Paging) (bios : Bios)
    (rounds fuel : ℕ) (bootfile : Option File) (system user : File) (rest boot image : List ℕ)
    (disk : ℕ → ℕ) (reads : ReadsDisk bios disk)
    (packed : IsPacked bootfile system user rest boot image disk) (s : Machine)
    (v : IsValid s.console) (first : (i : ℕ) → i < 512 → s.console.mem (0x7c00 + i) ≡ disk i)
    (more : 1024 < rounds) where
  abbrev sum : ℕ
  sum = system.st_size + user.st_size

  abbrev contents : List ℕ
  contents = (boot ++ take system.st_size system.bytes) ++ take user.st_size user.bytes

  packed-IsImage : IsImage contents system.st_size user.st_size image
  packed-IsImage =
      let p = packed in
      let small = p.small in
      built-IsImage bootfile system user rest boot image p.opened p.accepted p.system_whole
        p.user_whole (omega arith) p.built

  -- A byte of the disk behind the header and the boot sector.
  disk-system : (i : ℕ) → 12 ≤ i → i < system.st_size → disk (512 + i) ≡ get_or system.bytes i 0
  disk-system i lo hi =
      packed.written (512 + i) (omega arith)
      ∙ packed-IsImage.others (512 + i) (omega arith)
      ∙ system-contents boot system user (boot_sector-length rest boot packed.accepted)
          packed.system_whole i hi

  no_setup_sectors : disk 497 ≡ 0
  no_setup_sectors =
      packed.written 497 (omega arith)
      ∙ packed-IsImage.others 497 (omega arith)
      ∙ sector-contents boot system user (boot_sector-length rest boot packed.accepted)
          packed.system_whole 497 (omega arith)
      ∙ packed.no_setup

  abbrev paragraphs : ℕ
  paragraphs = (sum + 15) / 16

  length-disk : disk 500 + 256 * disk 501 ≡ paragraphs
  length-disk =
      let small = packed.small in
      omega (
        arith,
        packed.written 500 (omega arith),
        packed.written 501 (omega arith),
        packed-IsImage.length_field,
      )

  booted :
      (t : Machine) × (bootsect bios rounds s ≡ some t)
      × Entered disk (128 * (paragraphs / 4096 + 1)) s t
  booted =
      let small = packed.small in
      bootsect-Entered bios disk reads rounds paragraphs s v first no_setup_sectors length-disk
        (omega arith) (omega arith)

  module _ (m : Memory)
      (loaded : (i : ℕ)
        → i < 512 * (128 * (paragraphs / 4096 + 1))
        → m (0x10000 + i) ≡ disk (512 + i)) where
    image-Loads : Loads image sum m
    image-Loads i lt = loaded i (omega arith) ∙ packed.written (512 + i) (omega arith)

    memory-linked : (a : ℕ) → 0x1000c ≤ a → a < 0x10000 + system.st_size → m a ≡ linked system a
    memory-linked a lo hi =
        ap m {y = 0x10000 + (a - 0x10000)} (omega arith)
        ∙ loaded (a - 0x10000) (omega arith)
        ∙ disk-system (a - 0x10000) (omega arith) (omega arith)

    literal-IsString :
        (p : ℕ) (text : String)
        → 0x1000c ≤ p
        → p + length (chars text) < 0x10000 + system.st_size
        → IsString (linked system) p (chars text)
        → IsString m p (chars text)
    literal-IsString p text lo hi str =
        IsString-ext (linked system) m p (chars text)
          (λ a l h. memory-linked a (omega arith) (omega arith)) str

  -- Let `build` have made the image of an accepted boot sector without setup sectors, a system of at
  -- least 12 bytes and a user program of at most 0x1c000 bytes, both files holding what `fstat` says
  -- and together at most 0x7fff0 bytes; let the disk begin with this image, the BIOS read the disk as
  -- documented and have put its first sector to 0x7c00, and the system contain the two literals of
  -- `main`, behind its first 12 bytes, where the linker says. On a valid console, with more than 1024
  -- rounds of the loop that reads the disk, fuel above 30 for `main`, and an address space that has
  -- pages from 0x1000 to 0x11c000, `bootsect` ends, has sent nothing to the debug port, and hands over a
  -- machine on which `main` ends: the
  -- kernel is set up as `Started` says, the processor is at the program's first instruction in user
  -- mode, and the bytes of the program's file stand from 0x100000 on, but for the top word of the
  -- user's stack.
  pub bootsect-main :
      HasLiterals at system
      → 30 < fuel
      → ((a : ℕ)
          → 0x1000 ≤ a
          → a < 0x11c000
          → is_mapped (init_addr_space (init_mm at.layout (record s.paging { cr0 = 1 }))) a ≡ true)
      → (k t : Machine) × (bootsect bios rounds s ≡ some k)
        × (k.console.port_e9 ≡ s.console.port_e9)
        × (main at set_handlers init_addr_space fuel k ≡ some t)
        × Started at set_handlers init_addr_space system.st_size user.st_size k t
        × ((i : ℕ)
            → i < user.st_size
            → (i < 0x13ffc) ⊎ (0x14000 ≤ i)
            → t.console.mem (0x100000 + i) ≡ get_or user.bytes i 0)
  bootsect-main l enough mapped =
      let p = packed in
      let small = p.small in
      let (k, runs, e) = booted in
      let (t, ends, started, program) =
        build-main at set_handlers init_addr_space fuel bootfile system user rest boot image k
          p.opened p.accepted p.system_whole p.user_whole (omega arith) p.user_small p.header
          p.built (image-Loads k.console.mem e.loaded)
          (literal-IsString k.console.mem e.loaded at.loaded loaded_text l.loaded_low
            (let h = l.loaded_high in omega arith) l.loaded)
          (let h = l.loaded_high in omega arith)
          (literal-IsString k.console.mem e.loaded at.entering entering_text l.entering_low
            (let h = l.entering_high in omega arith) l.entering)
          (let h = l.entering_high in omega arith) e.valid enough
          (subst
            (λ q.
              (a : ℕ)
              → 0x1000 ≤ a
              → a < 0x11c000
              → is_mapped (init_addr_space (init_mm at.layout q)) a ≡ true)
            (sym e.protected_mode) mapped) in
      (k, t, runs, e.port, ends, started, program)
