-- ===== src/Mm/Frames/Free.antt =====
-- `free_frame`, and what no sequence of allocations and releases changes.
use zeos.Common.{ℕ, ◌<◌, ◌≤◌, ◌≡◌, ◌≢◌, ap, arith, ℤ, pos, List, [], ◌∷◌}
use zeos.Mm.Frames.{PhysMem, FrameOp, alloc, free, run, alloc_frame, free_frame}
use zeos.Mm.Frames.Alloc.{Candidate, Allocated, found, full, alloc_frame-Allocated}

free_frame_lem :
    (f : ℕ) (m : PhysMem)
    → 256 < f
    → f < 1024
    → (free_frame f m f ≡ 0) × ((g : ℕ) → g ≢ f → free_frame f m g ≡ m g)
unfolding free_frame
free_frame_lem f m lo hi = (ground arith, λ g ne. ground arith)

free_frame-used : (f g : ℕ) (m : PhysMem) → g ≤ 256 → m g ≢ 0 → free_frame f m g ≢ 0
unfolding free_frame
free_frame-used f g m le used = ground arith

realloc :
    (f : ℕ) (m : PhysMem) {r : ℤ × PhysMem}
    → Candidate f
    → m f ≡ 0
    → ((g : ℕ) → Candidate g → g < f → m g ≢ 0)
    → Allocated m r
    → r.0 ≡ pos f
realloc f m c z low (full used) = absurd (used f c z)
realloc f m c z low (found h after d free' least mark others) =
    ap pos (ground (arith, low h d, least f c))

-- An even frame above 256 that is released is the next to be allocated, if the even frames from 256
-- to below it are in use.
pub free_frame-alloc_frame :
    (f : ℕ) (m : PhysMem)
    → Candidate f
    → 256 < f
    → ((g : ℕ) → Candidate g → g < f → m g ≢ 0)
    → (alloc_frame (free_frame f m)).0 ≡ pos f
free_frame-alloc_frame f m c lo used =
    let e = free_frame_lem f m lo c.1 in
    realloc f (free_frame f m) c e.0 (λ g d lt. ground (arith, e.1 g, used g d))
      (alloc_frame-Allocated (free_frame f m))

alloc-used :
    (g : ℕ) (m : PhysMem) {r : ℤ × PhysMem}
    → g ≤ 256
    → m g ≢ 0
    → Allocated m r
    → (r.1 g ≢ 0) × (r.0 ≢ pos g)
alloc-used g m le used (full all) = (used, λ e. cc)
alloc-used g m le used (found f after c free' low mark others) =
    (ground (arith, others g), λ e. ground arith)

-- A frame up to 256 that is in use stays in use whatever is allocated and released, so it is not
-- allocated again: the kernel's frames, and frame 256, which `free_frame` does not release.
pub run-used :
    (ops : List FrameOp) (g : ℕ) (m : PhysMem)
    → g ≤ 256
    → m g ≢ 0
    → (run ops m g ≢ 0) × ((alloc_frame (run ops m)).0 ≢ pos g)
unfolding run
run-used [] g m le used = (used, (alloc-used g m le used (alloc_frame-Allocated m)).1)
run-used (alloc ∷ ops) g m le used =
    run-used ops g (alloc_frame m).1 le (alloc-used g m le used (alloc_frame-Allocated m)).0
run-used (free f ∷ ops) g m le used =
    run-used ops g (free_frame f m) le (free_frame-used f g m le used)
