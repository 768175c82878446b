-- ===== src/Bootsect/Rounds.antt =====
-- The loop of `read_it`: a round of it, and that it reads whole segments.
use zeos.Common.{
  ℕ, zero, suc, ◌+◌, ◌-◌, ◌*◌, ◌/◌, ◌%◌, ◌<◌, ◌≤◌, ◌≡◌, ◌⊎◌, inl, inr, refl, sym, subst, ap, ◌∙◌,
  arith, u8, u16, leb, ltb, ◌==◌, if◌then◌else◌, Bool-cases, some,
}
use zeos.Memory.{Memory, IsBytes}
use zeos.Bootsect.{Bios, Reading, read_track, next_sector, next_place, round, rp_read, syssize}
use zeos.Bootsect.Track.{ReadsDisk, At, count, how_many-count, count-bounds}

abbrev next_j : (j b c : ℕ) → ℕ
next_j j b c = if b + c == 128 then j + 1 else j

abbrev next_b : (b c : ℕ) → ℕ
next_b b c = if b + c == 128 then 0 else b + c

module _ (j b c : ℕ) (r : Reading) (a : At j b r) (few : j < 8) (more : 0 < c)
    (track : r.sread + c ≤ 18) (segment : b + c ≤ 128) where
  -- The next sector is `c` sectors on.
  moved :
      ((next_sector c r).sread < 18)
      × ((next_sector c r).head < 2)
      × (128 * j + b + c + 1
          ≡ (2 * (next_sector c r).track + (next_sector c r).head) * 18 + (next_sector c r).sread)
      × ((next_sector c r).es ≡ r.es)
      × ((next_sector c r).bx ≡ r.bx)
      × ((next_sector c r).mem ≡ r.mem)
  unfolding next_sector
  moved =
      let s = a.side in
      let p = a.place in
      (ground arith, ground arith, ground arith, ground arith, ground arith, ground arith)

  abbrev after : Reading
  after = next_place c (next_sector c r)

  placed :
      (after.es ≡ 4096 * (next_j j b c + 1))
      × (after.bx ≡ 512 * next_b b c)
      × (after.sread ≡ (next_sector c r).sread)
      × (after.head ≡ (next_sector c r).head)
      × (after.track ≡ (next_sector c r).track)
      × (after.mem ≡ (next_sector c r).mem)
  unfolding next_place
  placed =
      let (s, h, p, es, bx, mem) = moved in
      let e : (next_sector c r).es ≡ 4096 * (j + 1) = es ∙ a.segment in
      let o : (next_sector c r).bx ≡ 512 * b = bx ∙ a.offset in
      (ground arith, ground arith, ground arith, ground arith, ground arith, ground arith)

  after-At : At (next_j j b c) (next_b b c) after
  after-At =
      let (s, h, p, es, bx, mem) = moved in
      let (e, o, is, ih, it, im) = placed in
      record {
        segment = e;
        offset = o;
        room = ground arith;
        sector = ground arith;
        side = ground arith;
        place = ground arith;
      }

  after-mem : after.mem ≡ r.mem
  after-mem = placed.5 ∙ moved.5

-- The first `n` sectors behind the boot sector are in memory from 0x10000 on, and what lies behind
-- them there is as in `m`.
pub record Holds (disk : ℕ → ℕ) (m : Memory) (n : ℕ) (m' : Memory) : Type 0 where
  pub loaded : (i : ℕ) → i < 512 * n → m' (0x10000 + i) ≡ disk (512 + i)
  pub kept : (a : ℕ) → 0x10000 + 512 * n ≤ a → m' a ≡ m a
  pub bytes : IsBytes m'

module _ (bios : Bios) (disk : ℕ → ℕ) (reads : ReadsDisk bios disk) (m : Memory) where
  module _ (j b c : ℕ) (r : Reading) (a : At j b r) (few : j < 8) (more : 0 < c)
      (track : r.sread + c ≤ 18) (segment : b + c ≤ 128)
      (h : Holds disk m (128 * j + b) r.mem) where
    same_before :
        (x : ℕ)
        → 0x10000 ≤ x
        → (x < 0x10000 + 512 * (128 * j + b)) ⊎ (0x10000 + 512 * (128 * j + b + c) ≤ x)
        → (read_track bios c r).mem x ≡ r.mem x
    unfolding read_track
    same_before x lo off =
        let e = a.segment in
        let o = a.offset in
        let p = a.place in
        let s = a.side in
        reads.kept (u8 c) (u8 r.track) (u8 (r.sread + 1)) (r.head % 2) r.es r.bx r.mem (omega arith)
          (omega arith) (omega arith) (omega arith) (omega arith) (omega arith) x lo (omega arith)

    fresh :
        (k : ℕ)
        → k < 512 * c
        → (read_track bios c r).mem (0x10000 + (512 * (128 * j + b) + k))
          ≡ disk (512 + (512 * (128 * j + b) + k))
    unfolding read_track
    fresh k lt =
        let e = a.segment in
        let o = a.offset in
        let p = a.place in
        let s = a.side in
        let d : u8 (r.sread + 1) ≡ r.sread + 1 = omega arith in
        let t : u8 r.track ≡ r.track = omega arith in
        let q : r.head % 2 ≡ r.head = omega arith in
        ap (read_track bios c r).mem {y = 16 * r.es + r.bx + k} (omega arith)
        ∙ reads.loaded (u8 c) (u8 r.track) (u8 (r.sread + 1)) (r.head % 2) r.es r.bx r.mem
            (omega arith) (omega arith) (omega arith) (omega arith) (omega arith) (omega arith) k
            (omega arith)
        ∙ ap disk (omega arith)

    read-IsBytes : IsBytes (read_track bios c r).mem
    unfolding read_track
    read-IsBytes =
        reads.bytes (u8 c) (u8 r.track) (u8 (r.sread + 1)) (r.head % 2) r.es r.bx r.mem h.bytes

    read-Holds : Holds disk m (128 * j + b + c) (read_track bios c r).mem
    read-Holds = record {
      loaded = λ i lt. elim (Bool-cases (ltb i (512 * (128 * j + b)))) [
        | inl old ↦
            same_before (0x10000 + i) (omega arith) (ground arith) ∙ h.loaded i (ground arith)
        | inr new ↦
            let k = i - 512 * (128 * j + b) in
            let e : 512 * (128 * j + b) + k ≡ i = ground arith in
            ap (read_track bios c r).mem {y = 0x10000 + (512 * (128 * j + b) + k)} (omega arith)
            ∙ fresh k (omega arith)
            ∙ ap disk (omega arith)
      ];
      kept = λ x lo. same_before x (omega arith) (omega arith) ∙ h.kept x (omega arith);
      bytes = read-IsBytes;
    }

    read-At : At j b (read_track bios c r)
    unfolding read_track
    read-At = record {
      segment = a.segment;
      offset = a.offset;
      room = a.room;
      sector = a.sector;
      side = a.side;
      place = a.place;
    }

  -- A round reads `count` sectors behind those that are there.
  round_lem :
      (j b : ℕ) (r : Reading)
      → At j b r
      → j < 8
      → Holds disk m (128 * j + b) r.mem
      → At (next_j j b (count b r)) (next_b b (count b r)) (round bios r)
        × Holds disk m (128 * j + b + count b r) (round bios r).mem
  unfolding round
  round_lem j b r a few h =
      let c = count b r in
      let (more, track, segment) = count-bounds j b r a few in
      let q = read_track bios c r in
      let qa = read-At j b c r a few more track segment h in
      let t : q.sread + c ≤ 18 = unfold read_track in track in
      let step = after-At j b c q qa few more t segment in
      let held = read-Holds j b c r a few more track segment h in
      rw (how_many-count j b r a few, round)
        (
          step,
          subst (Holds disk m (128 * j + b + c)) (sym (after-mem j b c q qa few more t segment))
              held,
        )

  pub rp_read_lem :
      (n fuel j b : ℕ) (r : Reading)
      → syssize m ≡ n
      → n < 32768
      → At j b r
      → Holds disk m (128 * j + b) r.mem
      → 128 * j + b ≤ 128 * (n / 4096 + 1)
      → 128 * (n / 4096 + 1) < 128 * j + b + fuel
      → (r' : Reading) × (rp_read bios fuel r ≡ some r')
        × Holds disk m (128 * (n / 4096 + 1)) r'.mem
  unfolding rp_read
  rp_read_lem n zero j b r e small a h le enough = absurd (omega arith)
  rp_read_lem n (suc fuel) j b r e small a h le enough =
      let size : syssize r.mem ≡ n = omega (
        arith,
        e,
        h.kept (0x9000 * 16 + 500) (omega arith),
        h.kept (0x9000 * 16 + 501) (omega arith),
      ) in
      let seg = a.segment in
      let room = a.room in
      elim (Bool-cases (leb (u16 (r.es + 65536 - 0x1000)) n)) [
        | inl more ↦
            let few : j < 8 = ground arith in
            let (more_than_none, track, segment) = count-bounds j b r a few in
            let c = count b r in
            let (step, held) = round_lem j b r a few h in
            let place : 128 * j + b + c ≡ 128 * next_j j b c + next_b b c = ground arith in
            rw (size, more)
              (rp_read_lem n fuel (next_j j b c) (next_b b c) (round bios r) e small step
                (subst (λ k. Holds disk m k (round bios r).mem) place held) (ground arith)
                (omega arith))
        | inr done ↦
            rw (size, done)
              (
                r,
                refl,
                subst (λ k. Holds disk m k r.mem) {y = 128 * (n / 4096 + 1)} (ground arith) h,
              )
      ]
