-- ===== src/Mm/Paging/Full.antt =====
-- `set_user_pages` when there is no frame left.
use zeos.Common.{
  ℕ, zero, suc, ◌+◌, ◌-◌, ◌*◌, ◌<◌, ◌≤◌, ◌≡◌, ◌≢◌, ◌⊎◌, inl, inr, refl, sym, ap, subst, ◌∙◌, arith,
  ◌==◌, Bool-cases, ℤ, negsuc,
}
use zeos.Mm.Frames.{PhysMem, alloc_frame}
use zeos.Mm.Frames.Alloc.{Candidate, Allocated, found, full, alloc_frame-Allocated}
use zeos.Mm.Paging.{Entries, Paging, set_entry, get_pt, code_loop, data_loop, set_user_pages}

-- Every frame that `alloc_frame` looks at is in use.
abbrev NoneFree : PhysMem → Type 0
NoneFree p = (g : ℕ) → Candidate g → p g ≢ 0

Allocated-NoneFree :
    (p : PhysMem) (r : ℤ × PhysMem) → Allocated p r → NoneFree p → r ≡ (negsuc 0, p)
Allocated-NoneFree p r (found f after c free below marked others) none_free =
    absurd (none_free f c free)
Allocated-NoneFree p r (full used) none_free = refl

fails : (p : PhysMem) → NoneFree p → alloc_frame p ≡ (negsuc 0, p)
fails p h = Allocated-NoneFree p (alloc_frame p) (alloc_frame-Allocated p) h

-- `n` entries from `first` on are `v`, and all else is as it was.
record Repeated (v first n PT : ℕ) (m m' : Entries) : Type 0 where
  inside : (q : ℕ) → q < n → m' (PT + 4 * (first + q)) ≡ v
  outside : (a : ℕ) → (a < PT + 4 * first) ⊎ (PT + 4 * (first + n) ≤ a) → m' a ≡ m a

Repeated-cons :
    (v first next n PT : ℕ) (m m' : Entries)
    → next ≡ first + 1
    → Repeated v next n PT (set_entry PT first v m) m'
    → Repeated v first (suc n) PT m m'
unfolding set_entry
Repeated-cons v first next n PT m m' en d = record {
  inside = λ q lt. elim (Bool-cases (q == 0)) [
    | inl z ↦ d.outside (PT + 4 * (first + q)) (ground arith) ∙ ground arith
    | inr nz ↦
        ap m' {y = PT + 4 * (next + (q - 1))} (ground arith) ∙ d.inside (q - 1) (ground arith)
  ];
  outside = λ a off. d.outside a (omega arith) ∙ ground arith;
}

module _ (PT : ℕ) (p : PhysMem) (none_free : NoneFree p) where
  code_loop-Repeated :
      (n pag : ℕ) (m : Entries)
      → ((code_loop n pag PT (p, m)).0 ≡ p)
        × Repeated 0xfffff005 (276 + pag) n PT m (code_loop n pag PT (p, m)).1
  unfolding code_loop
  code_loop-Repeated zero pag m =
      (refl, record { inside = λ q lt. absurd (omega arith); outside = λ a off. refl })
  code_loop-Repeated (suc n) pag m =
      let d = code_loop-Repeated n (pag + 1) (set_entry PT (276 + pag) 0xfffff005 m) in
      rw (fails p none_free, code_loop)
        (d.0, Repeated-cons 0xfffff005 (276 + pag) (276 + (pag + 1)) n PT m _ (omega arith) d.1)

  data_loop-Repeated :
      (n pag : ℕ) (m : Entries)
      → ((data_loop n pag PT (p, m)).0 ≡ p)
        × Repeated 0xfffff007 (256 + pag) n PT m (data_loop n pag PT (p, m)).1
  unfolding data_loop
  data_loop-Repeated zero pag m =
      (refl, record { inside = λ q lt. absurd (omega arith); outside = λ a off. refl })
  data_loop-Repeated (suc n) pag m =
      let d = data_loop-Repeated n (pag + 1) (set_entry PT (256 + pag) 0xfffff007 m) in
      rw (fails p none_free, data_loop)
        (d.0, Repeated-cons 0xfffff007 (256 + pag) (256 + (pag + 1)) n PT m _ (omega arith) d.1)

-- Without a free frame `set_user_pages` does not notice: every code page and every data page of the
-- process is present and stands for the last frame below 4 GB, the lower 20 bits of -1, with its
-- rights; nothing else changes.
pub set_user_pages-NoneFree :
    (t : ℕ) (s : Paging)
    → NoneFree s.phys_mem
    → ((set_user_pages t s).phys_mem ≡ s.phys_mem)
      × ((q : ℕ) → q < 8 → (set_user_pages t s).entry (get_pt t s + 4 * (0x114 + q)) ≡ 0xfffff005)
      × ((q : ℕ) → q < 20 → (set_user_pages t s).entry (get_pt t s + 4 * (0x100 + q)) ≡ 0xfffff007)
      × ((a : ℕ)
          → (a < get_pt t s + 4 * 0x100) ⊎ (get_pt t s + 4 * 0x11c ≤ a)
          → (set_user_pages t s).entry a ≡ s.entry a)
unfolding set_user_pages
set_user_pages-NoneFree t s h =
    let PT = get_pt t s in
    let c = code_loop 8 0 PT (s.phys_mem, s.entry) in
    let (same, code) = code_loop-Repeated PT s.phys_mem h 8 0 s.entry in
    let none_free : NoneFree c.0 = subst NoneFree (sym same) h in
    let (kept, written) = data_loop-Repeated PT c.0 none_free 20 0 c.1 in
    (
      kept ∙ same,
      λ q lt. written.outside (PT + 4 * (0x114 + q)) (omega arith) ∙ code.inside q lt,
      λ q lt. written.inside q lt,
      λ a off. written.outside a (omega arith) ∙ code.outside a (omega arith),
    )
