-- ===== src/Mm/Paging/Fields.antt =====
-- Associating logical pages with frames in a page table.
use zeos.Common.{ℕ, ◌+◌, ◌*◌, ◌<◌, ◌≡◌, ◌≢◌, arith}
use zeos.Mm.Paging.{Entries, present, rw_bit, user, set_ss_pag, del_ss_pag, get_frame}

-- After `set_ss_pag` of a frame below 2 ^ 20 the page is present, writable and open to the user,
-- `get_frame` gives its frame, and every other page is as it was.
get_frame-set_ss_pag :
    (PT page frame : ℕ) (m : Entries)
    → frame < 1048576
    → let after = set_ss_pag PT page frame m in
      let e = after (PT + 4 * page) in
      (get_frame PT page after ≡ frame)
      × (present e ≡ 1)
      × (rw_bit e ≡ 1)
      × (user e ≡ 1)
      × ((other : ℕ) → other ≢ page → after (PT + 4 * other) ≡ m (PT + 4 * other))
unfolding set_ss_pag get_frame
get_frame-set_ss_pag PT page frame m h =
    (ground arith, ground arith, ground arith, ground arith, λ other ne. ground arith)

-- `del_ss_pag` undoes `set_ss_pag` on a page that was not mapped.
del_ss_pag-set_ss_pag :
    (PT page frame : ℕ) (m : Entries) (a : ℕ)
    → m (PT + 4 * page) ≡ 0
    → del_ss_pag PT page (set_ss_pag PT page frame m) a ≡ m a
unfolding set_ss_pag del_ss_pag
del_ss_pag-set_ss_pag PT page frame m a z = ground arith
