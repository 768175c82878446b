-- ===== src/Mm/Paging/Process.antt =====
-- The address space of the initial process: `init_mm` and then `set_user_pages`.
use zeos.Common.{
  ℕ, ◌+◌, ◌-◌, ◌*◌, ◌/◌, ◌%◌, ◌<◌, ◌≤◌, ◌≡◌, ◌⊎◌, inl, inr, refl, sym, ap, subst, ◌∙◌, arith, ltb,
  if◌then◌else◌, Bool-cases, some,
}
use zeos.Mm.Frames.Alloc.{Handed, init_frames-Handed}
use zeos.Mm.Paging.{Layout, Paging, init_mm, set_user_pages, allocate_dir}
use zeos.Mm.Paging.Tables.{IsLinked}
use zeos.Mm.Paging.Init.{
  paging_bit, translate, translate_of, walked, init_mm-cr3, init_mm-paging_bit, init_mm-pde,
  init_mm-get_pt,
}
use zeos.Mm.Paging.User.{UserMapped, set_user_pages-UserMapped}

-- The place of a page among the frames, in the order in which they are taken: first the eight code
-- pages, then the twenty data pages.
abbrev pub place : (addr : ℕ) → ℕ
place addr = if ltb addr 0x114000 then 8 + (addr - 0x100000) / 4096 else (addr - 0x114000) / 4096

mapped :
    (table k flags addr : ℕ)
    → table % 4096 ≡ 0
    → k < 384
    → (flags ≡ 5) ⊎ (flags ≡ 7)
    → walked (table + 7) ((256 + 2 * k) * 4096 + flags) addr
      ≡ some ((256 + 2 * k) * 4096 + addr % 4096)
mapped table k flags addr p h f = ground arith

module _ (at : Layout) (s : Paging) (is : IsLinked at) where
  abbrev process : Paging
  process = set_user_pages at.task (init_mm at s)

  init_mm-Handed : Handed 0 (init_mm at s).phys_mem
  unfolding init_mm allocate_dir
  init_mm-Handed = init_frames-Handed s.phys_mem

  process-UserMapped : UserMapped 0 at.pagusr_table (init_mm at s) process
  process-UserMapped =
      subst (λ t. UserMapped 0 t (init_mm at s) process) (init_mm-get_pt at s is)
        (set_user_pages-UserMapped at.task 0 (init_mm at s) init_mm-Handed (omega arith))

  process-cr3 : process.cr3 ≡ at.dir_pages
  unfolding set_user_pages
  process-cr3 = init_mm-cr3 at s

  process-paging_bit : paging_bit process.cr0 ≡ 1
  unfolding set_user_pages
  process-paging_bit = init_mm-paging_bit at s

  -- The walk of an address whose page has this entry.
  walk_of :
      (addr k flags : ℕ)
      → addr < 4194304
      → k < 384
      → (flags ≡ 5) ⊎ (flags ≡ 7)
      → process.entry (at.pagusr_table + 4 * (addr / 4096)) ≡ (256 + 2 * k) * 4096 + flags
      → translate process addr ≡ some ((256 + 2 * k) * 4096 + addr % 4096)
  walk_of addr k flags h hk f e =
      translate_of process addr (at.pagusr_table + 7) ((256 + 2 * k) * 4096 + flags)
        process-paging_bit
        (ap process.entry {y = at.dir_pages} (omega (arith, process-cr3))
          ∙ process-UserMapped.others at.dir_pages (let a = is.apart in omega arith)
          ∙ init_mm-pde at s is)
        (ap process.entry (let p = is.table_page in let t = is.table_fits in omega arith) ∙ e)
      ∙ mapped at.pagusr_table k flags addr is.table_page hk f

  -- With the tables linked on pages of their own, after `init_mm` and `set_user_pages` of the first
  -- task the processor's walk maps each user address to the frame 256 + 2n at the same offset,
  -- where n is the place of its page: 0 to 7 for the code pages, 8 to 27 for the data pages.
  pub set_user_pages-translate :
      (addr : ℕ)
      → 0x100000 ≤ addr
      → addr < 0x11c000
      → translate (set_user_pages at.task (init_mm at s)) addr
        ≡ some ((256 + 2 * place addr) * 4096 + addr % 4096)
  set_user_pages-translate addr lo hi = elim (Bool-cases (ltb addr 0x114000)) [
    | inl data_page ↦ rw data_page (
        walk_of addr (8 + (addr - 0x100000) / 4096) 7 (omega arith) (ground arith) (inr refl) (
          ap process.entry {y = at.pagusr_table + 4 * (0x100 + (addr - 0x100000) / 4096)}
            (omega arith)
          ∙ process-UserMapped.written ((addr - 0x100000) / 4096) (ground arith)))
    | inr code_page ↦ rw code_page (
        walk_of addr ((addr - 0x114000) / 4096) 5 (omega arith) (omega arith) (inl refl) (
          ap process.entry {y = at.pagusr_table + 4 * (0x114 + (addr - 0x114000) / 4096)}
            (ground arith)
          ∙ process-UserMapped.code ((addr - 0x114000) / 4096) (omega arith)
          ∙ omega arith))
  ]

  -- Outside of the user pages the address space is as `init_mm` left it.
  pub set_user_pages-keeps :
      (addr : ℕ)
      → addr < 4194304
      → (addr < 0x100000) ⊎ (0x11c000 ≤ addr)
      → translate (set_user_pages at.task (init_mm at s)) addr ≡ translate (init_mm at s) addr
  set_user_pages-keeps addr h off =
      translate_of process addr (at.pagusr_table + 7)
        ((init_mm at s).entry (at.pagusr_table + 4 * (addr / 4096))) process-paging_bit
        (ap process.entry {y = at.dir_pages} (omega (arith, process-cr3))
          ∙ process-UserMapped.others at.dir_pages (let a = is.apart in omega arith)
          ∙ init_mm-pde at s is)
        (ap process.entry (let p = is.table_page in let t = is.table_fits in omega arith)
          ∙ process-UserMapped.others (at.pagusr_table + 4 * (addr / 4096)) (omega arith))
      ∙ sym (
          translate_of (init_mm at s) addr (at.pagusr_table + 7)
            ((init_mm at s).entry (at.pagusr_table + 4 * (addr / 4096))) (init_mm-paging_bit at s)
            (ap (init_mm at s).entry {y = at.dir_pages} (omega (arith, init_mm-cr3 at s))
              ∙ init_mm-pde at s is)
            (ap (init_mm at s).entry
              (let p = is.table_page in let t = is.table_fits in omega arith)))
