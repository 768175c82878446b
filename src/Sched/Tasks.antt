-- ===== src/Sched/Tasks.antt =====
-- A task finds its own structure, page directory and page table.
use zeos.Common.{ℕ, ◌+◌, ◌*◌, ◌/◌, ◌<◌, ◌≤◌, ◌≡◌, ap, ◌∙◌, arith, u32}
use zeos.Sched.{current, task_at, kernel_esp, sys_getpid}
use zeos.Mm.Paging.{Layout, Paging, allocate_dir, get_dir, get_pt, init_dir_pages, pbase_addr}
use zeos.Mm.Paging.Tables.{IsLinked, init_dir_pages_lem}

-- With the stack pointer in the page of one of the ten tasks, and the tasks linked at a page's
-- start, `current` is that task and `sys_getpid` its PID.
current-task_at :
    (at : Layout) (i esp : ℕ) (pid : ℕ → ℕ)
    → IsLinked at
    → i < 10
    → task_at at.task i ≤ esp
    → esp < kernel_esp (task_at at.task i)
    → (current esp ≡ task_at at.task i) × (sys_getpid esp pid ≡ pid (task_at at.task i))
unfolding current sys_getpid
current-task_at at i esp pid is h lo hi =
    let e : u32 esp / 4096 * 4096 ≡ task_at at.task i =
      let p = is.task_page in let f = is.task_fits in omega arith in
    (e, ap pid e)

-- With the tables linked on pages of their own, `allocate_DIR` gives each of the ten tasks `i` the
-- directory `i`, and through the entry that `init_dir_pages` made its page table is table `i`.
allocate_dir-get_pt :
    (at : Layout) (i : ℕ) (s : Paging)
    → IsLinked at
    → i < 10
    → let t = task_at at.task i in
      let after = allocate_dir at t (record s { entry = init_dir_pages at s.entry }) in
      (get_dir t after ≡ at.dir_pages + 4096 * i) × (get_pt t after ≡ at.pagusr_table + 4096 * i)
unfolding allocate_dir get_pt
allocate_dir-get_pt at i s is h =
    let t = task_at at.task i in
    let dir : get_dir t (allocate_dir at t (record s { entry = init_dir_pages at s.entry }))
        ≡ at.dir_pages + 4096 * i =
      let f = is.task_fits in ground arith in
    (
      dir,
      ap (λ a. u32 (pbase_addr (init_dir_pages at s.entry a) * 4096)) dir
          ∙ ap (λ e. u32 (pbase_addr e * 4096)) (init_dir_pages_lem at i s.entry is h)
          ∙ (let f = is.table_fits in let p = is.table_page in omega arith),
    )
