-- ===== src/Mm/Paging/User.antt =====
-- `set_user_pages`: fresh frames for the code and data pages of a process.
use zeos.Common.{
  ℕ, zero, suc, ◌+◌, ◌-◌, ◌*◌, ◌<◌, ◌≤◌, ◌≡◌, ◌⊎◌, inl, inr, refl, ap, subst, ◌∙◌, arith, ◌==◌,
  Bool-cases, ℤ, of_int,
}
use zeos.Mm.Frames.{PhysMem, alloc_frame}
use zeos.Mm.Frames.Alloc.{Handed, Allocated-Handed, alloc_frame-Allocated}
use zeos.Mm.Paging.{
  Entries, Paging, set_entry, get_pt, code_loop, data_loop, set_user_pages, set_present, set_rw,
  set_user, set_pbase_addr,
}

-- `n` pages from `first` on hold the frames of the allocations from number `k` on, with these flags in
-- the low bits of their entries; the rest of memory is as it was.
record Filled (flags first n k PT : ℕ) (m : Entries) (r : PhysMem × Entries) : Type 0 where
  handed : Handed (k + n) r.0
  pub inside : (q : ℕ) → q < n → r.1 (PT + 4 * (first + q)) ≡ (256 + 2 * (k + q)) * 4096 + flags
  pub outside : (a : ℕ) → (a < PT + 4 * first) ⊎ (PT + 4 * (first + n) ≤ a) → r.1 a ≡ m a

Filled-nil :
    (flags first k PT : ℕ) (p : PhysMem) (m : Entries)
    → Handed k p
    → Filled flags first 0 k PT m (p, m)
Filled-nil flags first k PT p m h = record {
  handed = subst (λ t. Handed t p) {x = k} (omega arith) h;
  inside = λ q lt. absurd (omega arith);
  outside = λ a off. refl;
}

Filled-cons :
    (flags first next n k PT v : ℕ) (m : Entries) (r : PhysMem × Entries)
    → next ≡ first + 1
    → v ≡ (256 + 2 * k) * 4096 + flags
    → Filled flags next n (suc k) PT (set_entry PT first v m) r
    → Filled flags first (suc n) k PT m r
unfolding set_entry
Filled-cons flags first next n k PT v m r en ev d = record {
  handed = subst (λ t. Handed t r.0) {x = suc k + n} (omega arith) d.handed;
  inside = λ q lt. elim (Bool-cases (q == 0)) [
    | inl z ↦ d.outside (PT + 4 * (first + q)) (ground arith) ∙ ground arith
    | inr nz ↦
        ap r.1 {y = PT + 4 * (next + (q - 1))} (ground arith)
        ∙ d.inside (q - 1) (ground arith)
        ∙ ground arith
  ];
  outside = λ a off. d.outside a (omega arith) ∙ ground arith;
}

module _ (PT : ℕ) where
  abbrev code_entry : ℤ → ℕ
  code_entry f = set_present 1 (set_user 1 (set_pbase_addr (of_int f) 0))

  abbrev data_entry : ℤ → ℕ
  data_entry f = set_present 1 (set_rw 1 (set_user 1 (set_pbase_addr (of_int f) 0)))

  code_loop-Filled :
      (n pag k : ℕ) (p : PhysMem) (m : Entries)
      → Handed k p
      → k + n ≤ 384
      → Filled 5 (276 + pag) n k PT m (code_loop n pag PT (p, m))
  unfolding code_loop
  code_loop-Filled zero pag k p m h le = Filled-nil 5 (276 + pag) k PT p m h
  code_loop-Filled (suc n) pag k p m h le =
      let a = Allocated-Handed k p h (omega arith) (alloc_frame-Allocated p) in
      Filled-cons 5 (276 + pag) (276 + (pag + 1)) n k PT (code_entry (alloc_frame p).0) m
        (code_loop (suc n) pag PT (p, m)) (omega arith) (ap code_entry a.0 ∙ omega arith)
        (code_loop-Filled n (pag + 1) (suc k) (alloc_frame p).1 _ a.1 (omega arith))

  data_loop-Filled :
      (n pag k : ℕ) (p : PhysMem) (m : Entries)
      → Handed k p
      → k + n ≤ 384
      → Filled 7 (256 + pag) n k PT m (data_loop n pag PT (p, m))
  unfolding data_loop
  data_loop-Filled zero pag k p m h le = Filled-nil 7 (256 + pag) k PT p m h
  data_loop-Filled (suc n) pag k p m h le =
      let a = Allocated-Handed k p h (omega arith) (alloc_frame-Allocated p) in
      Filled-cons 7 (256 + pag) (256 + (pag + 1)) n k PT (data_entry (alloc_frame p).0) m
        (data_loop (suc n) pag PT (p, m)) (omega arith) (ap data_entry a.0 ∙ omega arith)
        (data_loop-Filled n (pag + 1) (suc k) (alloc_frame p).1 _ a.1 (omega arith))

-- The user pages of a process after `k` earlier allocations.
pub record UserMapped (k PT : ℕ) (before after : Paging) : Type 0 where
  -- the code pages, present and open to the user, but not writable
  pub code : (q : ℕ) → q < 8 → after.entry (PT + 4 * (0x114 + q)) ≡ (256 + 2 * (k + q)) * 4096 + 5
  -- the data pages, which are writable too
  pub written :
      (q : ℕ) → q < 20 → after.entry (PT + 4 * (0x100 + q)) ≡ (256 + 2 * (k + 8 + q)) * 4096 + 7
  pub others :
      (a : ℕ) → (a < PT + 4 * 0x100) ⊎ (PT + 4 * 0x11c ≤ a) → after.entry a ≡ before.entry a
  handed : Handed (k + 28) after.phys_mem

-- If the even frames from 256 on are used below 256 + 2k and free from there on, with at least 28
-- left, `set_user_pages` gives every user page of the process a frame of its own, with the rights
-- of code and data, keeps every other entry, and leaves the next 28 even frames used.
pub set_user_pages-UserMapped :
    (t k : ℕ) (s : Paging)
    → Handed k s.phys_mem
    → k ≤ 356
    → UserMapped k (get_pt t s) s (set_user_pages t s)
unfolding set_user_pages
set_user_pages-UserMapped t k s h le =
    let PT = get_pt t s in
    let c = code_loop-Filled PT 8 0 k s.phys_mem s.entry h (omega arith) in
    let r = code_loop 8 0 PT (s.phys_mem, s.entry) in
    let d = data_loop-Filled PT 20 0 (k + 8) r.0 r.1 c.handed (omega arith) in
    record {
      code = λ q lt. d.outside (PT + 4 * (0x114 + q)) (omega arith) ∙ c.inside q lt;
      written = λ q lt. d.inside q lt;
      others = λ a off. d.outside a (omega arith) ∙ c.outside a (omega arith);
      handed =
          subst (λ n. Handed n (data_loop 20 0 PT r).0) {x = k + 8 + 20} (omega arith) d.handed;
    }
