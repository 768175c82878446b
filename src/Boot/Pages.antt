-- ===== src/Boot/Pages.antt =====
-- An address space that serves the boot sequence: the pages of `set_user_pages`.
use zeos.Common.{
  ℕ, ◌<◌, ◌≡◌, ap, ◌∙◌, arith, Bool, true, false, none, inl, inr, Bool-cases, ltb, leb, ◌&&◌,
  if◌then◌else◌, some,
}
use zeos.Mm.Paging.{Layout, Paging, init_mm, set_user_pages}
use zeos.Mm.Paging.Tables.{IsLinked}
use zeos.Mm.Paging.Init.{translate, init_mm-translate}
use zeos.Mm.Paging.Process.{set_user_pages-translate, set_user_pages-keeps}
use zeos.Boot.{is_mapped}

is_mapped-some :
    (s : Paging) (addr frame : ℕ) → translate s addr ≡ some frame → is_mapped s addr ≡ true
is_mapped-some s addr frame e = ap (λ r. elim r as (λ _. Bool) [ none ↦ false | some _ ↦ true ]) e

is_mapped-none : (s : Paging) (addr : ℕ) → translate s addr ≡ none → is_mapped s addr ≡ false
is_mapped-none s addr e = ap (λ r. elim r as (λ _. Bool) [ none ↦ false | some _ ↦ true ]) e

-- With the tables linked on pages of their own, after `init_mm` and `set_user_pages` of the first
-- task the processor finds a page for an address of the first 4 MB exactly if it lies behind page 0 and
-- below 0x11c000: in the kernel's pages, or in the 20 data and 8 code pages of the process.
pub set_user_pages-is_mapped :
    (at : Layout) (s : Paging)
    → IsLinked at
    → (addr : ℕ) → addr < 4194304
    → is_mapped (set_user_pages at.task (init_mm at s)) addr
      ≡ (leb 0x1000 addr && ltb addr 0x11c000)
set_user_pages-is_mapped at s is addr h =
    elim (Bool-cases (leb 0x100000 addr && ltb addr 0x11c000)) [
      | inl user ↦
          is_mapped-some (set_user_pages at.task (init_mm at s)) addr _
            (set_user_pages-translate at s is addr (ground arith) (ground arith))
          ∙ ground arith
      | inr other ↦
          let walk : translate (set_user_pages at.task (init_mm at s)) addr
              ≡ (if leb 4096 addr && ltb addr 1048576 then some addr else none) =
            set_user_pages-keeps at s is addr h (ground arith) ∙ init_mm-translate at s is addr h in
          elim (Bool-cases (leb 4096 addr && ltb addr 1048576)) [
            | inl kernel ↦
                is_mapped-some (set_user_pages at.task (init_mm at s)) addr addr
                  (walk ∙ ground arith)
                ∙ ground arith
            | inr faults ↦
                is_mapped-none (set_user_pages at.task (init_mm at s)) addr (walk ∙ ground arith)
                ∙ ground arith
          ]
    ]
