-- ===== src/Mm/Paging/Init.antt =====
-- The address space that `init_mm` sets up, as the processor walks it.
use zeos.Common.{
  ℕ, ◌+◌, ◌*◌, ◌/◌, ◌%◌, ◌<◌, ◌≡◌, ap, ap₂, ◌∙◌, arith, ltb, leb, ◌==◌, ◌&&◌, if◌then◌else◌, Option,
  none, some, u32, bit_or-31,
}
use zeos.Mm.Paging.{
  Layout, Paging, init_mm, init_dir_pages, init_table_pages, allocate_dir, get_pt, present,
  pbase_addr,
}
use zeos.Mm.Paging.Tables.{
  IsLinked, fresh_entry, init_table_pages_lem, init_dir_pages_lem, init_dir_pages-off,
}

-- Bit 31 of CR0, PG
abbrev pub paging_bit : ℕ → ℕ
paging_bit cr0 = cr0 / 2147483648 % 2

-- The i386 with an address: without paging it is the physical address; with paging, the directory at CR3
-- is indexed by the address's upper ten bits, the table that it names by the next ten. `none` is a
-- page fault.
abbrev pub translate : Paging → ℕ → Option ℕ
translate s addr =
    let pde = s.entry (s.cr3 + 4 * (addr / 4194304)) in
    let pte = s.entry (pbase_addr pde * 4096 + 4 * (addr / 4096 % 1024)) in
    if paging_bit s.cr0 == 0
    then some addr
    else if present pde == 0
    then none
    else if present pte == 0
    then none
    else some (pbase_addr pte * 4096 + addr % 4096)

abbrev pub walked : (pde pte addr : ℕ) → Option ℕ
walked pde pte addr =
    if present pde == 0
    then none
    else if present pte == 0
    then none
    else some (pbase_addr pte * 4096 + addr % 4096)

pub translate_of :
    (s : Paging) (addr pde pte : ℕ)
    → paging_bit s.cr0 ≡ 1
    → s.entry (s.cr3 + 4 * (addr / 4194304)) ≡ pde
    → s.entry (pbase_addr pde * 4096 + 4 * (addr / 4096 % 1024)) ≡ pte
    → translate s addr ≡ walked pde pte addr
translate_of s addr pde pte on ed et =
    let e2 : s.entry
          (pbase_addr (s.entry (s.cr3 + 4 * (addr / 4194304))) * 4096 + 4 * (addr / 4096 % 1024))
        ≡ pte =
      ap (λ d. s.entry (pbase_addr d * 4096 + 4 * (addr / 4096 % 1024))) ed ∙ et in
    rw on (ap₂ (λ d e. walked d e addr) ed e2)

walk_fresh :
    (table addr : ℕ)
    → table % 4096 ≡ 0
    → addr < 4194304
    → walked (table + 7) (fresh_entry (addr / 4096)) addr
      ≡ (if leb 4096 addr && ltb addr 1048576 then some addr else none)
walk_fresh table addr p h = ground arith

-- Paging is on, whatever CR0 was.
pub init_mm-paging_bit : (at : Layout) (s : Paging) → paging_bit (init_mm at s).cr0 ≡ 1
unfolding init_mm allocate_dir
init_mm-paging_bit at s = bit_or-31 s.cr0

pub init_mm-cr3 : (at : Layout) (s : Paging) → (init_mm at s).cr3 ≡ at.dir_pages
unfolding init_mm allocate_dir
init_mm-cr3 at s = ground arith

module _ (at : Layout) (s : Paging) (is : IsLinked at) where
  abbrev booted : Paging
  booted = init_mm at s

  init_mm-base : booted.dir_pages_base_addr at.task ≡ at.dir_pages
  unfolding init_mm allocate_dir
  init_mm-base = ground arith

  pub init_mm-pde : booted.entry at.dir_pages ≡ at.pagusr_table + 7
  unfolding init_mm allocate_dir
  init_mm-pde =
      ap (init_dir_pages at (init_table_pages at s.entry)) (omega arith)
      ∙ init_dir_pages_lem at 0 (init_table_pages at s.entry) is (omega arith)
      ∙ omega arith

  init_mm-entry :
      (t k : ℕ)
      → t < 10
      → k < 1024
      → booted.entry (at.pagusr_table + 4096 * t + 4 * k) ≡ fresh_entry k
  unfolding init_mm allocate_dir
  init_mm-entry t k ht hk =
      init_dir_pages-off at (at.pagusr_table + 4096 * t + 4 * k) (init_table_pages at s.entry)
        (let a = is.apart in omega arith)
      ∙ init_table_pages_lem at t k s.entry ht hk

  -- The page table of task 0 is the first of the tables.
  pub init_mm-get_pt : get_pt at.task booted ≡ at.pagusr_table
  unfolding get_pt
  init_mm-get_pt =
      ap (λ e. u32 (pbase_addr e * 4096)) (ap booted.entry init_mm-base ∙ init_mm-pde)
      ∙ (let f = is.table_fits in let p = is.table_page in omega arith)

  -- With the tables linked on pages of their own, after `init_mm` an address of the first 4 MB is
  -- valid exactly if it lies in the kernel's pages behind page 0, and stands for itself; a null
  -- pointer and user addresses fault.
  pub init_mm-translate :
      (addr : ℕ)
      → addr < 4194304
      → translate booted addr ≡ (if leb 4096 addr && ltb addr 1048576 then some addr else none)
  init_mm-translate addr h =
      translate_of booted addr (at.pagusr_table + 7) (fresh_entry (addr / 4096))
        (init_mm-paging_bit at s)
        (ap booted.entry (ap (λ c. c + 4 * (addr / 4194304)) (init_mm-cr3 at s) ∙ first_entry)
          ∙ init_mm-pde)
        (ap booted.entry table_of ∙ init_mm-entry 0 (addr / 4096) (omega arith) (omega arith))
      ∙ walk_fresh at.pagusr_table addr is.table_page h
    where
      first_entry : at.dir_pages + 4 * (addr / 4194304) ≡ at.dir_pages
      first_entry = omega arith

      table_of :
          pbase_addr (at.pagusr_table + 7) * 4096 + 4 * (addr / 4096 % 1024)
          ≡ at.pagusr_table + 4096 * 0 + 4 * (addr / 4096)
      table_of = let f = is.table_fits in let p = is.table_page in omega arith
