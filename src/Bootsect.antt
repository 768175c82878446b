-- ===== src/Bootsect.antt =====
-- bootsect.S: from the BIOS's jump to the boot sector to the jump into the kernel. Registers are 16 bits
-- wide; an address is 16 times its segment plus its offset. The BIOS call that reads sectors is a
-- parameter. Left out: the messages, the floppy's motor, the wait for the keyboard controller and for
-- A20, whose test cell gets its value back, and the interrupt controllers but for their last mask. The
-- stack and the words `sread`, `head` and `track` of the moved sector are kept apart from the memory.
pub mod Track
pub mod Rounds
pub mod Entered
pub mod Start
use zeos.Common.{
  ℕ, zero, suc, ◌+◌, ◌-◌, ◌*◌, ◌/◌, ◌%◌, Bool, ltb, leb, ◌==◌, not, ◌&&◌, if◌then◌else◌, u8, u16,
  Option, none, some,
}
use zeos.Memory.{Memory, store16}
use zeos.Hardware.{Cpu}
use zeos.Boot.{Machine, with_memory}

-- INITSEG and SYSSEG
abbrev pub initseg : ℕ
initseg = 0x9000

abbrev pub sysseg : ℕ
sysseg = 0x1000

-- `sectors`, of a track
abbrev pub sectors : ℕ
sectors = 18

-- `setup_sects` and `syssize`, behind the descriptor table and `idt_48`
abbrev pub setup_sects : Memory → ℕ
setup_sects m = m (initseg * 16 + 497)

abbrev pub syssize : Memory → ℕ
syssize m = m (initseg * 16 + 500) + 256 * m (initseg * 16 + 501)

-- `rep movsw`, with `cx` words to go
unfoldable pub move_words : (cx si di : ℕ) → Memory → Memory
move_words zero si di m = m
move_words (suc cx) si di m =
    move_words cx (si + 2) (di + 2) (store16 di (m si + 256 * m (si + 1)) m)

-- The registers and variables of `read_it`.
pub record Reading : Type 0 where
  pub es : ℕ
  pub bx : ℕ
  pub sread : ℕ
  pub head : ℕ
  pub track : ℕ
  pub mem : Memory

-- `int 0x13` with ah = 2, by al, ch, cl, dh, es and bx
abbrev pub Bios : Type 0
Bios = (al ch cl dh es bx : ℕ) → Memory → Memory

-- How many sectors the next call reads, in `ax` at `ok2_read`: the rest of the track, or what the
-- segment has room for.
unfoldable pub how_many : Reading → ℕ
how_many r =
    let ax = u16 (sectors + 65536 - r.sread) in
    let sum = u16 (ax * 512) + r.bx in
    if leb 65536 sum && not (u16 sum == 0) then u16 (65536 - r.bx) / 512 else ax

-- From `call read_track` to `ok3_read`: the place of the next sector.
unfoldable pub next_sector : (ax : ℕ) → Reading → Reading
next_sector ax r =
    let ax = u16 (ax + r.sread) in
    let other = u16 (1 + 65536 - r.head) in
    if ax == sectors
    then record r {
      sread = 0;
      head = other;
      track = if other == 0 then u16 (r.track + 1) else r.track;
    }
    else record r { sread = ax }

-- From `ok3_read` on: the place in memory.
unfoldable pub next_place : (cx : ℕ) → Reading → Reading
next_place cx r =
    let sum = r.bx + u16 (cx * 512) in
    if leb 65536 sum
    then record r { bx = 0; es = u8 (r.es / 256 + 16) * 256 + r.es % 256 }
    else record r { bx = sum }

-- From the return of `read_it` up to the first instruction at 0x10010, in protected mode.
abbrev pub enter_kernel : Reading → Machine → Machine
enter_kernel r s = with_memory r.mem (record s {
  cpu = record s.cpu {
    e_flags = s.cpu.e_flags - s.cpu.e_flags / 512 % 2 * 512;
    cs = 0x10;
    eip = 0x10010;
    ds = initseg;
    ss = initseg;
    esp = s.cpu.esp / 65536 * 65536 + (0x4000 - 12);
    es = r.es;
    gs = 0xffff;
    idtr = record { limit = 0; base = 0 };
    gdtr = record { limit = 0x8000; base = initseg * 16 + 435 };
    pic_mask = 0xfb;
  };
  paging = record s.paging { cr0 = 1 };
})

module _ (bios : Bios) where
  unfoldable pub read_track : (ax : ℕ) → Reading → Reading
  read_track ax r = record r {
    mem = bios (u8 ax) (u8 r.track) (u8 (r.sread + 1)) (r.head % 2) r.es r.bx r.mem;
  }

  -- From `ok1_read` to the jump back to `rp_read`.
  unfoldable pub round : Reading → Reading
  unfolding read_track next_sector next_place
  round r = let ax = how_many r in next_place ax (next_sector ax (read_track ax r))

  -- The loop `rp_read`; `none` is a loop that does not end in `fuel` rounds.
  unfoldable pub rp_read : (fuel : ℕ) → Reading → Option Reading
  rp_read zero r = none
  rp_read (suc fuel) r =
      let rest = rp_read fuel (round r) in
      if leb (u16 (r.es + 65536 - sysseg)) (syssize r.mem) then rest else some r

  -- The variables are 0 as the boot sector is loaded; `none` at once is the endless loop `die`.
  unfoldable pub read_it : (fuel es : ℕ) → Memory → Option Reading
  unfolding rp_read
  read_it fuel es m =
      if es % 4096 == 0
      then rp_read fuel
          (record { es = es; bx = 0; sread = u8 (setup_sects m + 1); head = 0; track = 0; mem = m })
      else none

  -- The whole of it.
  unfoldable pub bootsect : (fuel : ℕ) → Machine → Option Machine
  unfolding read_it
  bootsect fuel s =
      let m = move_words 256 0x7c00 (initseg * 16) s.console.mem in
      elim (read_it fuel sysseg m) [ none ↦ none | some r ↦ some (enter_kernel r s) ]
