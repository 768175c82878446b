-- ===== src/Mm/Paging.antt =====
-- Page tables. A `page_table_entry` is its 32-bit word; `entry` holds the word at each address where an
-- entry stands. Where the linker puts the arrays is a parameter.
pub mod Fields
pub mod Tables
pub mod Init
pub mod User
pub mod Full
pub mod Release
pub mod Process
use zeos.Common.{
  ℕ, zero, suc, ◌+◌, ◌-◌, ◌*◌, ◌/◌, ◌%◌, ◌≤◌, ◌<◌, ◌≡◌, ◌⊎◌, Bool, ltb, ◌==◌, if◌then◌else◌, ℤ,
  of_int, u32, ◌>>>◌, ◌<<<◌, bit_or, Option, none, some,
}
use zeos.MmAddress.{
  total_pages, num_pag_kernel, num_pag_code, num_pag_data, pag_log_init_data, pag_log_init_code,
}
use zeos.Mm.Frames.{PhysMem, init_frames, alloc_frame, free_frame}

-- The bit fields of `page_table_entry`: bit 0, 1, 2, and bits 12 to 31.
abbrev pub present : ℕ → ℕ
present e = e % 2

abbrev pub rw_bit : ℕ → ℕ
rw_bit e = e / 2 % 2

abbrev pub user : ℕ → ℕ
user e = e / 4 % 2

abbrev pub pbase_addr : ℕ → ℕ
pbase_addr e = e / 4096 % 1048576

abbrev pub set_present : ℕ → ℕ → ℕ
set_present v e = e / 2 * 2 + v % 2

abbrev pub set_rw : ℕ → ℕ → ℕ
set_rw v e = e / 4 * 4 + v % 2 * 2 + e % 2

abbrev pub set_user : ℕ → ℕ → ℕ
set_user v e = e / 8 * 8 + v % 2 * 4 + e % 4

abbrev pub set_pbase_addr : ℕ → ℕ → ℕ
set_pbase_addr v e = v % 1048576 * 4096 + e % 4096

abbrev pub Entries : Type 0
Entries = ℕ → ℕ

-- `PT[page]` for a change of that entry
unfoldable pub set_entry : (PT page v : ℕ) → Entries → Entries
set_entry PT page v m a = if a == PT + 4 * page then v else m a

abbrev nr_tasks : ℕ
nr_tasks = 10

-- Where the arrays `task`, `dir_pages` and `pagusr_table` of the section `.data.task` stand.
pub record Layout : Type 0 where
  pub task : ℕ
  pub dir_pages : ℕ
  pub pagusr_table : ℕ

pub record Paging : Type 0 where
  pub phys_mem : PhysMem
  pub entry : Entries
  -- the field `dir_pages_baseAddr` of the `task_struct` at each address
  pub dir_pages_base_addr : ℕ → ℕ
  pub cr3 : ℕ
  pub cr0 : ℕ

abbrev pub get_dir : (t : ℕ) → Paging → ℕ
get_dir t s = s.dir_pages_base_addr t

unfoldable pub get_pt : (t : ℕ) → Paging → ℕ
get_pt t s = u32 (pbase_addr (s.entry (s.dir_pages_base_addr t)) <<< 12)

unfoldable pub set_ss_pag : (PT page frame : ℕ) → Entries → Entries
unfolding set_entry
set_ss_pag PT page frame m =
    set_entry PT page (set_present 1 (set_rw 1 (set_user 1 (set_pbase_addr frame 0)))) m

unfoldable pub del_ss_pag : (PT logical_page : ℕ) → Entries → Entries
unfolding set_entry
del_ss_pag PT logical_page m = set_entry PT logical_page 0 m

unfoldable pub get_frame : (PT logical_page : ℕ) → Entries → ℕ
get_frame PT logical_page m = pbase_addr (m (PT + 4 * logical_page))

-- `pagusr_table[j][i].entry = 0` from `i` on
unfoldable pub reset_loop : (left PT i : ℕ) → Entries → Entries
unfolding set_entry
reset_loop zero PT i m = m
reset_loop (suc left) PT i m = reset_loop left PT (i + 1) (set_entry PT i 0 m)

-- The kernel pages from `i` on.
unfoldable pub kernel_loop : (left PT i : ℕ) → Entries → Entries
unfolding set_entry
kernel_loop zero PT i m = m
kernel_loop (suc left) PT i m =
    kernel_loop left PT (i + 1)
      (set_entry PT i (set_present 1 (set_rw 1 (set_pbase_addr i (m (PT + 4 * i))))) m)

abbrev set_cr3 : (dir : ℕ) → Paging → Paging
set_cr3 dir s = record s { cr3 = dir }

-- Bit 31 of CR0, by `read_cr0` and `write_cr0`
abbrev set_pe_flag : Paging → Paging
set_pe_flag s = let cr0 = s.cr0 in let cr0 = bit_or cr0 0x80000000 in record s { cr0 = cr0 }

module _ (at : Layout) where
  -- The rounds of `init_dir_pages` from task `i` on.
  unfoldable pub init_dir_loop : (left i : ℕ) → Entries → Entries
  unfolding set_entry
  init_dir_loop zero i m = m
  init_dir_loop (suc left) i m =
      let table = u32 (at.pagusr_table + 4096 * i) >>> 12 in
      init_dir_loop left (i + 1) (
        set_entry (at.dir_pages + 4096 * i) 0
          (set_present 1 (set_rw 1 (set_user 1 (set_pbase_addr table 0)))) m)

  unfoldable pub init_dir_pages : Entries → Entries
  unfolding init_dir_loop
  init_dir_pages m = init_dir_loop nr_tasks 0 m

  unfoldable pub init_table_loop : (left j : ℕ) → Entries → Entries
  unfolding reset_loop kernel_loop
  init_table_loop zero j m = m
  init_table_loop (suc left) j m =
      let PT = at.pagusr_table + 4096 * j in
      init_table_loop left (j + 1)
        (kernel_loop (num_pag_kernel - 1) PT 1 (reset_loop total_pages PT 0 m))

  unfoldable pub init_table_pages : Entries → Entries
  unfolding init_table_loop
  init_table_pages m = init_table_loop nr_tasks 0 m

  -- `((int)t-(int)task)/sizeof(union task_union)`: the size is unsigned, and so is the division.
  unfoldable pub allocate_dir : (t : ℕ) → Paging → Paging
  allocate_dir t s =
      let pos = u32 (t + 4294967296 - at.task) / 4096 in
      record s {
        dir_pages_base_addr =
            λ u. if u == t then at.dir_pages + 4096 * pos else s.dir_pages_base_addr u;
      }

  unfoldable pub init_mm : Paging → Paging
  init_mm s =
      let s = record s { entry = init_table_pages s.entry } in
      let s = record s { phys_mem = init_frames s.phys_mem } in
      let s = record s { entry = init_dir_pages s.entry } in
      let s = allocate_dir at.task s in let s = set_cr3 (get_dir at.task s) s in set_pe_flag s

-- The code pages of `set_user_pages` from page `pag` on.
unfoldable pub code_loop : (left pag PT : ℕ) → PhysMem × Entries → PhysMem × Entries
code_loop zero pag PT s = s
code_loop (suc left) pag PT (p, m) =
    let (new_ph_pag, p) = alloc_frame p in
    code_loop left (pag + 1) PT (
      p,
      set_entry PT (pag_log_init_code + pag)
          (set_present 1 (set_user 1 (set_pbase_addr (of_int new_ph_pag) 0))) m,
    )

-- The data pages, which may be written too.
unfoldable pub data_loop : (left pag PT : ℕ) → PhysMem × Entries → PhysMem × Entries
data_loop zero pag PT s = s
data_loop (suc left) pag PT (p, m) =
    let (new_ph_pag, p) = alloc_frame p in
    data_loop left (pag + 1) PT (
      p,
      set_entry PT (pag_log_init_data + pag)
          (set_present 1 (set_rw 1 (set_user 1 (set_pbase_addr (of_int new_ph_pag) 0)))) m,
    )

unfoldable pub set_user_pages : (t : ℕ) → Paging → Paging
set_user_pages t s =
    let process_PT = get_pt t s in
    let (p, m) =
      data_loop num_pag_data 0 process_PT
        (code_loop num_pag_code 0 process_PT (s.phys_mem, s.entry)) in
    record s { phys_mem = p; entry = m }

-- The loop of `free_user_pages`, which gives back the data pages.
unfoldable pub free_loop : (left pag PT : ℕ) → PhysMem × Entries → PhysMem × Entries
free_loop zero pag PT s = s
free_loop (suc left) pag PT (p, m) = free_loop left (pag + 1) PT (
  free_frame (pbase_addr (m (PT + 4 * (pag_log_init_data + pag)))) p,
  set_entry PT (pag_log_init_data + pag) 0 m,
)

unfoldable pub free_user_pages : (t : ℕ) → Paging → Paging
free_user_pages t s =
    let process_PT = get_pt t s in
    let (p, m) = free_loop num_pag_data 0 process_PT (s.phys_mem, s.entry) in
    record s { phys_mem = p; entry = m }
