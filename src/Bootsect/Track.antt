-- ===== src/Bootsect/Track.antt =====
-- One call of the BIOS: what it may be relied on for, and that `read_it` calls it within its limits.
use zeos.Common.{ℕ, ◌+◌, ◌-◌, ◌*◌, ◌<◌, ◌≤◌, ◌≡◌, ◌⊎◌, arith, leb, if◌then◌else◌}
use zeos.Memory.{Memory, IsBytes}
use zeos.Bootsect.{Bios, Reading, how_many}

-- `int 0x13`, on a floppy of 80 tracks with two heads and 18 sectors of 512 bytes, reads sectors of one
-- track and one segment to es:bx, and leaves what lies from 0x10000 on elsewhere.
pub record ReadsDisk (bios : Bios) (disk : ℕ → ℕ) : Type 0 where
  pub loaded :
      (al ch cl dh es bx : ℕ) (m : Memory)
      → 0 < al
      → 0 < cl
      → cl + al ≤ 19
      → ch < 80
      → dh < 2
      → bx + 512 * al ≤ 65536
      → (i : ℕ) → i < 512 * al
      → bios al ch cl dh es bx m (16 * es + bx + i) ≡ disk (512 * ((2 * ch + dh) * 18 + cl - 1) + i)
  pub kept :
      (al ch cl dh es bx : ℕ) (m : Memory)
      → 0 < al
      → 0 < cl
      → cl + al ≤ 19
      → ch < 80
      → dh < 2
      → bx + 512 * al ≤ 65536
      → (a : ℕ) → 0x10000 ≤ a
      → (a < 16 * es + bx) ⊎ (16 * es + bx + 512 * al ≤ a)
      → bios al ch cl dh es bx m a ≡ m a
  pub bytes : (al ch cl dh es bx : ℕ) (m : Memory) → IsBytes m → IsBytes (bios al ch cl dh es bx m)

-- `j` segments are full and `b` sectors of the next; the next sector to read is behind these and the
-- boot sector.
pub record At (j b : ℕ) (r : Reading) : Type 0 where
  pub segment : r.es ≡ 4096 * (j + 1)
  pub offset : r.bx ≡ 512 * b
  pub room : b < 128
  pub sector : r.sread < 18
  pub side : r.head < 2
  pub place : 128 * j + b + 1 ≡ (2 * r.track + r.head) * 18 + r.sread

-- The sectors of a round.
abbrev pub count : (b : ℕ) → Reading → ℕ
count b r = if leb (18 - r.sread) (128 - b) then 18 - r.sread else 128 - b

module _ (j b : ℕ) (r : Reading) (a : At j b r) (few : j < 8) where
  pub how_many-count : how_many r ≡ count b r
  unfolding how_many
  how_many-count = let o = a.offset in let s = a.sector in let k = a.room in ground arith

  pub count-bounds : (0 < count b r) × (r.sread + count b r ≤ 18) × (b + count b r ≤ 128)
  count-bounds = let s = a.sector in let k = a.room in (ground arith, ground arith, ground arith)
