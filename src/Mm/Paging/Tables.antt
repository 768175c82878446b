-- ===== src/Mm/Paging/Tables.antt =====
-- What the loops of `init_table_pages` and `init_dir_pages` leave in memory.
use zeos.Common.{
  ℕ, zero, suc, ◌+◌, ◌*◌, ◌%◌, ◌<◌, ◌≤◌, ◌≡◌, ◌⊎◌, inl, inr, refl, ap, ◌∙◌, arith, ltb, leb, ◌==◌,
  ◌&&◌, if◌then◌else◌, Bool-cases,
}
use zeos.Mm.Paging.{
  Entries, Layout, set_entry, reset_loop, kernel_loop, init_table_loop, init_table_pages,
  init_dir_loop, init_dir_pages, set_present, set_rw, set_pbase_addr,
}

-- What the linker script provides: each array starts at a page, has a page for each task, and lies
-- below 4 GB; the two arrays of tables do not overlap.
pub record IsLinked (at : Layout) : Type 0 where
  pub task_page : at.task % 4096 ≡ 0
  pub dir_page : at.dir_pages % 4096 ≡ 0
  pub table_page : at.pagusr_table % 4096 ≡ 0
  pub task_fits : at.task + 40960 ≤ 4294967296
  pub dir_fits : at.dir_pages + 40960 ≤ 4294967296
  pub table_fits : at.pagusr_table + 40960 ≤ 4294967296
  pub apart : (at.dir_pages + 40960 ≤ at.pagusr_table) ⊎ (at.pagusr_table + 40960 ≤ at.dir_pages)

-- The entry of logical page `k` in a fresh table: the kernel's pages but page 0 stand for themselves.
abbrev pub fresh_entry : ℕ → ℕ
fresh_entry k = if leb 1 k && ltb k 256 then k * 4096 + 3 else 0

reset_loop_lem :
    (n PT i k : ℕ) (m : Entries)
    → reset_loop n PT i m (PT + 4 * k) ≡ (if leb i k && ltb k (i + n) then 0 else m (PT + 4 * k))
unfolding reset_loop
reset_loop_lem zero PT i k m = ground arith
reset_loop_lem (suc n) PT i k m =
    reset_loop_lem n PT (i + 1) k (set_entry PT i 0 m) ∙ unfold set_entry in ground arith

reset_loop-off :
    (n PT i a : ℕ) (m : Entries)
    → (a < PT + 4 * i) ⊎ (PT + 4 * (i + n) ≤ a)
    → reset_loop n PT i m a ≡ m a
unfolding reset_loop
reset_loop-off zero PT i a m off = refl
reset_loop-off (suc n) PT i a m off =
    reset_loop-off n PT (i + 1) a (set_entry PT i 0 m) (omega arith)
    ∙ unfold set_entry in ground arith

abbrev kernel_entry : ℕ → ℕ → ℕ
kernel_entry k e = set_present 1 (set_rw 1 (set_pbase_addr k e))

kernel_loop_lem :
    (n PT i k : ℕ) (m : Entries)
    → kernel_loop n PT i m (PT + 4 * k)
      ≡ (if leb i k && ltb k (i + n) then kernel_entry k (m (PT + 4 * k)) else m (PT + 4 * k))
unfolding kernel_loop
kernel_loop_lem zero PT i k m = ground arith
kernel_loop_lem (suc n) PT i k m =
    kernel_loop_lem n PT (i + 1) k (set_entry PT i (kernel_entry i (m (PT + 4 * i))) m)
    ∙ unfold set_entry in ground arith

kernel_loop-off :
    (n PT i a : ℕ) (m : Entries)
    → (a < PT + 4 * i) ⊎ (PT + 4 * (i + n) ≤ a)
    → kernel_loop n PT i m a ≡ m a
unfolding kernel_loop
kernel_loop-off zero PT i a m off = refl
kernel_loop-off (suc n) PT i a m off =
    kernel_loop-off n PT (i + 1) a (set_entry PT i (kernel_entry i (m (PT + 4 * i))) m)
      (omega arith)
    ∙ unfold set_entry in ground arith

one_table :
    (PT k : ℕ) (m : Entries)
    → k < 1024
    → kernel_loop 255 PT 1 (reset_loop 1024 PT 0 m) (PT + 4 * k) ≡ fresh_entry k
one_table PT k m h =
    ground
      (arith, kernel_loop_lem 255 PT 1 k (reset_loop 1024 PT 0 m), reset_loop_lem 1024 PT 0 k m)

one_table_at :
    (PT k a : ℕ) (m : Entries)
    → k < 1024
    → a ≡ PT + 4 * k
    → kernel_loop 255 PT 1 (reset_loop 1024 PT 0 m) a ≡ fresh_entry k
one_table_at PT k a m h e =
    ap (kernel_loop 255 PT 1 (reset_loop 1024 PT 0 m)) e ∙ one_table PT k m h

one_table-off :
    (PT a : ℕ) (m : Entries)
    → (a < PT) ⊎ (PT + 4096 ≤ a)
    → kernel_loop 255 PT 1 (reset_loop 1024 PT 0 m) a ≡ m a
one_table-off PT a m off =
    kernel_loop-off 255 PT 1 a (reset_loop 1024 PT 0 m) (omega arith)
    ∙ reset_loop-off 1024 PT 0 a m (omega arith)

module _ (at : Layout) where
  table_loop-off :
      (n j a : ℕ) (m : Entries)
      → (a < at.pagusr_table + 4096 * j) ⊎ (at.pagusr_table + 4096 * (j + n) ≤ a)
      → init_table_loop at n j m a ≡ m a
  unfolding init_table_loop
  table_loop-off zero j a m off = refl
  table_loop-off (suc n) j a m off =
      table_loop-off n (j + 1) a _ (omega arith)
      ∙ one_table-off (at.pagusr_table + 4096 * j) a m (omega arith)

  table_loop_lem :
      (n j t k : ℕ) (m : Entries)
      → j ≤ t
      → t < j + n
      → k < 1024
      → init_table_loop at n j m (at.pagusr_table + 4096 * t + 4 * k) ≡ fresh_entry k
  unfolding init_table_loop
  table_loop_lem zero j t k m lo hi h = absurd (omega arith)
  table_loop_lem (suc n) j t k m lo hi h = elim (Bool-cases (t == j)) [
    | inl e ↦
        let tj : t ≡ j = ground arith in
        table_loop-off n (j + 1) (at.pagusr_table + 4096 * t + 4 * k) _ (omega arith)
        ∙ one_table_at (at.pagusr_table + 4096 * j) k (at.pagusr_table + 4096 * t + 4 * k) m h
            (omega arith)
    | inr ne ↦ table_loop_lem n (j + 1) t k _ (ground arith) (omega arith) h
  ]

  pub init_table_pages_lem :
      (t k : ℕ) (m : Entries)
      → t < 10
      → k < 1024
      → init_table_pages at m (at.pagusr_table + 4096 * t + 4 * k) ≡ fresh_entry k
  unfolding init_table_pages
  init_table_pages_lem t k m ht hk = table_loop_lem 10 0 t k m (omega arith) (omega arith) hk

  dir_loop-off :
      (n i a : ℕ) (m : Entries)
      → (a < at.dir_pages + 4096 * i) ⊎ (at.dir_pages + 4096 * (i + n) ≤ a)
      → init_dir_loop at n i m a ≡ m a
  unfolding init_dir_loop
  dir_loop-off zero i a m off = refl
  dir_loop-off (suc n) i a m off =
      dir_loop-off n (i + 1) a _ (omega arith) ∙ unfold set_entry in ground arith

  dir_loop_lem :
      (n i t : ℕ) (m : Entries)
      → at.pagusr_table % 4096 ≡ 0
      → at.pagusr_table + 4096 * t + 4096 ≤ 4294967296
      → i ≤ t
      → t < i + n
      → init_dir_loop at n i m (at.dir_pages + 4096 * t) ≡ at.pagusr_table + 4096 * t + 7
  unfolding init_dir_loop
  dir_loop_lem zero i t m al fit lo hi = absurd (omega arith)
  dir_loop_lem (suc n) i t m al fit lo hi = elim (Bool-cases (t == i)) [
    | inl e ↦
        let ti : t ≡ i = ground arith in
        dir_loop-off n (i + 1) (at.dir_pages + 4096 * t) _ (omega arith)
        ∙ unfold set_entry in ground arith
    | inr ne ↦ dir_loop_lem n (i + 1) t _ al fit (ground arith) (omega arith)
  ]

  pub init_dir_pages_lem :
      (t : ℕ) (m : Entries)
      → IsLinked at
      → t < 10
      → init_dir_pages at m (at.dir_pages + 4096 * t) ≡ at.pagusr_table + 4096 * t + 7
  unfolding init_dir_pages
  init_dir_pages_lem t m is h =
      dir_loop_lem 10 0 t m is.table_page (let f = is.table_fits in omega arith) (omega arith)
        (omega arith)

  pub init_dir_pages-off :
      (a : ℕ) (m : Entries)
      → (a < at.dir_pages) ⊎ (at.dir_pages + 40960 ≤ a)
      → init_dir_pages at m a ≡ m a
  unfolding init_dir_pages
  init_dir_pages-off a m off = dir_loop-off 10 0 a m (omega arith)
