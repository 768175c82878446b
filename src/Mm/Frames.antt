-- ===== src/Mm/Frames.antt =====
-- The byte map of physical frames, `phys_mem`, and its operations.
pub mod Alloc
pub mod Free
use zeos.Common.{
  ℕ, zero, suc, ◌+◌, Bool, true, false, ltb, ◌==◌, ◌&&◌, if◌then◌else◌, ℤ, pos, negsuc, List, [],
  ◌∷◌,
}
use zeos.MmAddress.{total_pages, num_pag_kernel}

-- Byte phys_mem[TOTAL_PAGES]
abbrev pub PhysMem : Type 0
PhysMem = ℕ → ℕ

abbrev free_frame_mark : ℕ
free_frame_mark = 0

abbrev used_frame_mark : ℕ
used_frame_mark = 1

-- `phys_mem[i] = v`
unfoldable pub set_frame : ℕ → ℕ → PhysMem → PhysMem
set_frame i v m j = if j == i then v else m j

-- `phys_mem[i] = v` for `left` frames from `i` on.
unfoldable pub mark_frames : (left i v : ℕ) → PhysMem → PhysMem
unfolding set_frame
mark_frames zero i v m = m
mark_frames (suc left) i v m = mark_frames left (i + 1) v (set_frame i v m)

unfoldable pub init_frames : PhysMem → PhysMem
init_frames m =
    mark_frames num_pag_kernel 0 used_frame_mark (mark_frames total_pages 0 free_frame_mark m)

-- The loop of `alloc_frame` from frame `i` on, and the -1 behind it; `alloc_rounds` is fuel enough for
-- the loop to end by its test.
unfoldable pub alloc_loop : (fuel i : ℕ) → PhysMem → ℤ × PhysMem
unfolding set_frame
alloc_loop zero i m = (negsuc 0, m)
alloc_loop (suc fuel) i m =
    let rest = alloc_loop fuel (i + 2) m in
    if ltb i total_pages
    then if m i == free_frame_mark then (pos i, set_frame i used_frame_mark m) else rest
    else (negsuc 0, m)

-- 384 even frames, and the last test.
abbrev alloc_rounds : ℕ
alloc_rounds = 385

unfoldable pub alloc_frame : PhysMem → ℤ × PhysMem
alloc_frame m = alloc_loop alloc_rounds num_pag_kernel m

unfoldable pub free_frame : (frame : ℕ) → PhysMem → PhysMem
unfolding set_frame
free_frame frame m =
    if ltb num_pag_kernel frame && ltb frame total_pages
    then set_frame frame free_frame_mark m
    else m

-- A program's calls of the two, in order.
pub data FrameOp : Type 0 where
  alloc : FrameOp
  free : ℕ → FrameOp

unfoldable pub run : List FrameOp → PhysMem → PhysMem
run [] m = m
run (alloc ∷ ops) m = run ops (alloc_frame m).1
run (free f ∷ ops) m = run ops (free_frame f m)

-- The map after `n` calls of `alloc_frame`.
unfoldable pub alloc_many : ℕ → PhysMem → PhysMem
alloc_many zero m = m
alloc_many (suc n) m = alloc_many n (alloc_frame m).1
