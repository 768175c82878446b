-- ===== src/Bootsect/Entered.antt =====
-- What bootsect.S leaves to the kernel.
use zeos.Common.{
  ℕ, zero, suc, ◌+◌, ◌*◌, ◌/◌, ◌%◌, ◌<◌, ◌≤◌, ◌≡◌, refl, sym, subst, ◌∙◌, arith, u8, some,
}
use zeos.Memory.{Memory, IsBytes, store16}
use zeos.Memory.Laws.{copied, copied-IsBytes}
use zeos.Io.Print.{IsValid}
use zeos.Boot.{Machine}
use zeos.Bootsect.{Bios, Reading, move_words, read_it, bootsect, enter_kernel, syssize, setup_sects}
use zeos.Bootsect.Track.{ReadsDisk, At}
use zeos.Bootsect.Rounds.{Holds, rp_read_lem}

-- `rep movsw` to a place behind the source copies it.
move_words-copied :
    (n si di : ℕ) (m : Memory) (a : ℕ)
    → IsBytes m
    → si + 2 * n ≤ di
    → move_words n si di m a ≡ copied m si di (2 * n) a
unfolding move_words
move_words-copied zero si di m a w h = ground arith
move_words-copied (suc n) si di m a w h =
    let m' = store16 di (m si + 256 * m (si + 1)) m in
    move_words-copied n (si + 2) (di + 2) m' a (λ x. unfold store16 in ground (arith, w x))
      (omega arith)
    ∙ step
  where
    step :
        copied (store16 di (m si + 256 * m (si + 1)) m) (si + 2) (di + 2) (2 * n) a
        ≡ copied m si di (2 * suc n) a
    step = unfold store16 in ground (arith, w si, w (si + 1))

-- The machine at the kernel's door, with `n` sectors of the disk in memory from 0x10000 on.
pub record Entered (disk : ℕ → ℕ) (n : ℕ) (s t : Machine) : Type 0 where
  pub loaded : (i : ℕ) → i < 512 * n → t.console.mem (0x10000 + i) ≡ disk (512 + i)
  -- the descriptor table and what stands behind it
  pub moved : (i : ℕ) → 435 ≤ i → i < 512 → t.console.mem (0x90000 + i) ≡ disk i
  pub valid : IsValid t.console
  pub place : (t.cpu.cs ≡ 0x10) × (t.cpu.eip ≡ 0x10010)
  pub protected_mode : t.paging ≡ record s.paging { cr0 = 1 }
  pub interrupts_off : t.cpu.e_flags / 512 % 2 ≡ 0
  -- the descriptor table, at GDT_START
  pub gdt : t.cpu.gdtr.base ≡ 0x90000 + 435
  pub port : t.console.port_e9 ≡ s.console.port_e9
  pub segments : t.segments ≡ s.segments

module _ (bios : Bios) (disk : ℕ → ℕ) (reads : ReadsDisk bios disk) (fuel n : ℕ) (s : Machine)
    (v : IsValid s.console) (first : (i : ℕ) → i < 512 → s.console.mem (0x7c00 + i) ≡ disk i)
    (no_setup : disk 497 ≡ 0) (size : disk 500 + 256 * disk 501 ≡ n) (small : n < 32768)
    (enough : 128 * (n / 4096 + 1) < fuel) where
  abbrev start : Memory
  start = move_words 256 0x7c00 0x90000 s.console.mem

  start-copied : (a : ℕ) → start a ≡ copied s.console.mem 0x7c00 0x90000 512 a
  start-copied a = move_words-copied 256 0x7c00 0x90000 s.console.mem a v.bytes (omega arith)

  sector_at : (i : ℕ) → i < 512 → start (0x90000 + i) ≡ disk i
  sector_at i lt = start-copied (0x90000 + i) ∙ inside i lt ∙ first i lt
    where
      inside :
          (k : ℕ)
          → k < 512
          → copied s.console.mem 0x7c00 0x90000 512 (0x90000 + k) ≡ s.console.mem (0x7c00 + k)
      inside k h = ground arith

  start-IsBytes : IsBytes start
  start-IsBytes a =
      subst (λ b. b < 256) (sym (start-copied a))
        (copied-IsBytes s.console.mem 0x7c00 0x90000 512 v.bytes a)

  start-size : syssize start ≡ n
  start-size = omega (arith, size, sector_at 500 (omega arith), sector_at 501 (omega arith))

  abbrev began : Reading
  began = record {
    es = 0x1000;
    bx = 0;
    sread = u8 (setup_sects start + 1);
    head = 0;
    track = 0;
    mem = start;
  }

  began-At : At 0 0 began
  began-At =
      let setup : start (0x9000 * 16 + 497) ≡ 0 = sector_at 497 (omega arith) ∙ no_setup in
      record {
        segment = refl;
        offset = refl;
        room = omega arith;
        sector = omega arith;
        side = omega arith;
        place = omega arith;
      }

  began-Holds : Holds disk start 0 start
  began-Holds = record {
    loaded = λ i lt. absurd (omega arith);
    kept = λ a h. refl;
    bytes = start-IsBytes;
  }

  -- Let the BIOS read the disk as documented and have put its first sector to 0x7c00; let that
  -- sector have no setup sectors and a size of `n` paragraphs, below 2 ^ 15. With fuel for the
  -- sectors of `n / 4096 + 1` segments, `bootsect` ends: these sectors are in memory from 0x10000 on,
  -- and the machine is at 0x10010 in protected mode with interrupts off, and the boot sector's
  -- descriptor table, which is as on the disk, in use.
  pub bootsect-Entered :
      (t : Machine) × (bootsect bios fuel s ≡ some t) × Entered disk (128 * (n / 4096 + 1)) s t
  unfolding bootsect read_it
  bootsect-Entered =
      let (r, e, h) =
        rp_read_lem bios disk reads start n fuel 0 0 began start-size small began-At began-Holds
          (omega arith) (omega arith) in
      (
        enter_kernel r s,
        rw (e, bootsect) refl,
        record {
          loaded = h.loaded;
          moved = λ i lo lt. h.kept (0x90000 + i) (omega arith) ∙ sector_at i lt;
          valid = record { column = v.column; row = v.row; bytes = h.bytes };
          place = (refl, refl);
          protected_mode = refl;
          interrupts_off = ground arith;
          gdt = refl;
          port = refl;
          segments = refl;
        },
      )
