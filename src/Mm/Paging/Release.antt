-- ===== src/Mm/Paging/Release.antt =====
-- What `free_user_pages` gives back.
use zeos.Common.{
  ℕ, zero, suc, ◌+◌, ◌-◌, ◌*◌, ◌<◌, ◌≤◌, ◌≡◌, ◌≢◌, ◌⊎◌, inl, inr, refl, sym, subst, ap, ◌∙◌, arith,
  ◌==◌, Bool-cases,
}
use zeos.Mm.Frames.{PhysMem, free_frame}
use zeos.Mm.Paging.{Entries, Paging, pbase_addr, set_entry, get_pt, free_loop, free_user_pages}

-- The frame of the data page `q` behind page `first` of a table.
abbrev pub frame_at : (PT first q : ℕ) → Entries → ℕ
frame_at PT first q m = pbase_addr (m (PT + 4 * (first + q)))

-- From the frames `p` and the entries `m` to `after_p` and `after_m`, the `n` pages from `first` on
-- have been given back.
pub record Freed (first n PT : ℕ) (p : PhysMem) (m : Entries) (after_p : PhysMem)
    (after_m : Entries) : Type 0 where
  pub cleared : (q : ℕ) → q < n → after_m (PT + 4 * (first + q)) ≡ 0
  pub others : (a : ℕ) → (a < PT + 4 * first) ⊎ (PT + 4 * (first + n) ≤ a) → after_m a ≡ m a
  -- the frames above 256 are free, as those are that were free before
  pub released :
      (q : ℕ)
      → q < n
      → 256 < frame_at PT first q m
      → frame_at PT first q m < 1024
      → after_p (frame_at PT first q m) ≡ 0
  pub still_free : (f : ℕ) → p f ≡ 0 → after_p f ≡ 0
  -- a frame that none of the pages has is as it was
  pub kept : (f : ℕ) → ((q : ℕ) → q < n → frame_at PT first q m ≢ f) → after_p f ≡ p f

free_frame-kept : (g f : ℕ) (p : PhysMem) → g ≢ f → free_frame g p f ≡ p f
unfolding free_frame
free_frame-kept g f p ne = ground arith

free_frame-free : (g f : ℕ) (p : PhysMem) → p f ≡ 0 → free_frame g p f ≡ 0
unfolding free_frame
free_frame-free g f p z = ground arith

free_frame-released : (g : ℕ) (p : PhysMem) → 256 < g → g < 1024 → free_frame g p g ≡ 0
unfolding free_frame
free_frame-released g p lo hi = ground arith

module _ (first next n PT : ℕ) (p : PhysMem) (m : Entries) (after_p : PhysMem) (after_m : Entries)
    (en : next ≡ first + 1) where
  -- The entries of the later pages are not written.
  same_frame : (q : ℕ) → frame_at PT next q (set_entry PT first 0 m) ≡ frame_at PT first (suc q) m
  unfolding set_entry
  same_frame q =
      ap pbase_addr {x = set_entry PT first 0 m (PT + 4 * (next + q))}
        {y = m (PT + 4 * (first + suc q))}
        (ground arith ∙ ap m {x = PT + 4 * (next + q)} (omega arith))

  released_at :
      Freed next n PT
        (free_frame (frame_at PT first 0 m) p)
        (set_entry PT first 0 m)
        after_p
        after_m
      → (q : ℕ) → q < suc n
      → 256 < frame_at PT first q m
      → frame_at PT first q m < 1024
      → after_p (frame_at PT first q m) ≡ 0
  released_at d zero lt lo hi =
      d.still_free (frame_at PT first 0 m) (free_frame-released (frame_at PT first 0 m) p lo hi)
  released_at d (suc q) lt lo hi =
      let e = same_frame q in
      sym (ap after_p e) ∙ d.released q (omega arith) (omega (arith, e)) (omega (arith, e))

  Freed-cons :
      Freed next n PT
        (free_frame (frame_at PT first 0 m) p)
        (set_entry PT first 0 m)
        after_p
        after_m
      → Freed first (suc n) PT p m after_p after_m
  unfolding set_entry
  Freed-cons d = record {
    cleared = λ q lt. elim (Bool-cases (q == 0)) [
      | inl z ↦ d.others (PT + 4 * (first + q)) (ground arith) ∙ ground arith
      | inr nz ↦
          ap after_m {y = PT + 4 * (next + (q - 1))} (ground arith)
          ∙ d.cleared (q - 1) (ground arith)
    ];
    others = λ a off. d.others a (omega arith) ∙ ground arith;
    released = λ q lt lo hi. released_at d q lt lo hi;
    still_free = λ f z. d.still_free f (free_frame-free (frame_at PT first 0 m) f p z);
    kept = λ f ne.
        d.kept f (λ q lt e. ne (suc q) (omega arith) (sym (same_frame q) ∙ e))
        ∙ free_frame-kept (frame_at PT first 0 m) f p (ne 0 (omega arith));
  }

free_loop-Freed :
    (n pag PT : ℕ) (p : PhysMem) (m : Entries)
    → let r = free_loop n pag PT (p, m) in Freed (256 + pag) n PT p m r.0 r.1
unfolding free_loop
free_loop-Freed zero pag PT p m = record {
  cleared = λ q lt. absurd (omega arith);
  others = λ a off. refl;
  released = λ q lt lo hi. absurd (omega arith);
  still_free = λ f z. z;
  kept = λ f ne. refl;
}
free_loop-Freed (suc n) pag PT p m =
    let first = pbase_addr (m (PT + 4 * (256 + pag))) in
    let e = set_entry PT (256 + pag) 0 m in
    let r = free_loop n (pag + 1) PT (free_frame first p, e) in
    Freed-cons (256 + pag) (256 + (pag + 1)) n PT p m r.0 r.1 (omega arith) (
      subst (λ g. Freed (256 + (pag + 1)) n PT (free_frame g p) e r.0 r.1)
        (ap (λ a. pbase_addr (m (PT + 4 * a))) (omega arith))
        (free_loop-Freed n (pag + 1) PT (free_frame first p) e))

-- `free_user_pages` clears the entries of the process's twenty data pages and no other. Their
-- frames above 256 and below 1024 are free afterwards, and so are those that were free before; a
-- frame that none of these pages has is as it was.
pub free_user_pages-Freed :
    (t : ℕ) (s : Paging)
    → let after = free_user_pages t s in
      Freed 256 20 (get_pt t s) s.phys_mem s.entry after.phys_mem after.entry
unfolding free_user_pages
free_user_pages-Freed t s = free_loop-Freed 20 0 (get_pt t s) s.phys_mem s.entry
