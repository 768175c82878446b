-- ===== src/Tests/Paging.antt =====
-- Runs of the frames, of the page tables, of the tasks and of the segments.
use zeos.Common.{
  ℕ, ◌+◌, ◌*◌, ◌%◌, ◌<◌, ◌≤◌, ◌⊎◌, ◌≡◌, ◌≢◌, arith, pos, negsuc, some, none, if◌then◌else◌, ltb,
  leb, ◌&&◌, [], ◌∷◌,
}
use zeos.Mm.Frames.{PhysMem, alloc_frame, free_frame, init_frames, alloc_many, run, alloc, free}
use zeos.Mm.Frames.Alloc.{Candidate, alloc_many-init_frames, init_frames-Handed}
use zeos.Mm.Frames.Free.{run-used, free_frame-alloc_frame}
use zeos.Mm.Paging.{Paging, init_mm, get_pt, set_user_pages, free_user_pages}
use zeos.Mm.Paging.Init.{translate, init_mm-translate}
use zeos.Mm.Paging.Release.{Freed, free_user_pages-Freed}
use zeos.Mm.Paging.Process.{place, set_user_pages-translate}
use zeos.Mm.Paging.Full.{set_user_pages-NoneFree}
use zeos.Mm.Paging.User.{UserMapped, set_user_pages-UserMapped}
use zeos.Boot.{is_mapped}
use zeos.Boot.Pages.{set_user_pages-is_mapped}
use zeos.Tests.Machine.{at, at-IsLinked, paging}

init_mm-translate_example :
    translate (init_mm at paging) 0xb8000
    ≡ (if leb 4096 0xb8000 && ltb 0xb8000 1048576 then some 0xb8000 else none)
init_mm-translate_example = init_mm-translate at paging at-IsLinked 0xb8000 (omega arith)

abbrev fresh : Paging
fresh = record paging { phys_mem = init_frames (λ _. 0) }

set_user_pages-UserMapped_example :
    UserMapped 0 (get_pt 0x20000 fresh) fresh (set_user_pages 0x20000 fresh)
set_user_pages-UserMapped_example =
    set_user_pages-UserMapped 0x20000 0 fresh (init_frames-Handed (λ _. 0)) (omega arith)

abbrev one_used : PhysMem
one_used f = if ltb f 257 then 1 else 0

alloc_many-init_frames_example :
    (alloc_frame (alloc_many 384 (init_frames (λ _. 0)))).0
    ≡ (if ltb 384 384 then pos (256 + 2 * 384) else negsuc 0)
alloc_many-init_frames_example = alloc_many-init_frames 384 (λ _. 0) (omega arith)

run-used_example :
    (run (alloc ∷ free 256 ∷ alloc ∷ []) one_used 256 ≢ 0)
    × ((alloc_frame (run (alloc ∷ free 256 ∷ alloc ∷ []) one_used)).0 ≢ pos 256)
run-used_example = run-used (alloc ∷ free 256 ∷ alloc ∷ []) 256 one_used (omega arith) (omega arith)

abbrev three_used : PhysMem
three_used f = if ltb f 261 then 1 else 0

three_used-below : (g : ℕ) → Candidate g → g < 258 → three_used g ≢ 0
three_used-below g c lt = ground arith

free_frame-alloc_frame_example : (alloc_frame (free_frame 258 three_used)).0 ≡ pos 258
free_frame-alloc_frame_example =
    free_frame-alloc_frame 258 three_used (omega arith) (omega arith) three_used-below

free_user_pages-Freed_example :
    let before = set_user_pages 0x20000 fresh in
    let after = free_user_pages 0x20000 before in
    Freed 256 20 (get_pt 0x20000 before) before.phys_mem before.entry after.phys_mem after.entry
free_user_pages-Freed_example = free_user_pages-Freed 0x20000 (set_user_pages 0x20000 fresh)

set_user_pages-translate_example :
    translate (set_user_pages 0x20000 (init_mm at paging)) 0x114abc
    ≡ some ((256 + 2 * place 0x114abc) * 4096 + 0x114abc % 4096)
set_user_pages-translate_example =
    set_user_pages-translate at paging at-IsLinked 0x114abc (omega arith) (omega arith)

abbrev all_used : Paging
all_used = record paging { phys_mem = λ f. 1 }

set_user_pages-NoneFree_example :
    let after = set_user_pages 0x20000 all_used in
    (after.phys_mem ≡ all_used.phys_mem)
    × ((q : ℕ) → q < 8 → after.entry (get_pt 0x20000 all_used + 4 * (0x114 + q)) ≡ 0xfffff005)
    × ((q : ℕ) → q < 20 → after.entry (get_pt 0x20000 all_used + 4 * (0x100 + q)) ≡ 0xfffff007)
    × ((a : ℕ)
        → (a < get_pt 0x20000 all_used + 4 * 0x100) ⊎ (get_pt 0x20000 all_used + 4 * 0x11c ≤ a)
        → after.entry a ≡ 0)
set_user_pages-NoneFree_example = set_user_pages-NoneFree 0x20000 all_used (λ g c. omega arith)

set_user_pages-is_mapped_example :
    is_mapped (set_user_pages 0x20000 (init_mm at paging)) 0x11c000
    ≡ (leb 0x1000 0x11c000 && ltb 0x11c000 0x11c000)
set_user_pages-is_mapped_example =
    set_user_pages-is_mapped at paging at-IsLinked 0x11c000 (omega arith)
