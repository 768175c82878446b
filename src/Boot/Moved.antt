-- ===== src/Boot/Moved.antt =====
-- What the boot loader leaves in memory, and the move of the user program.
use zeos.Common.{
  ℕ, ◌+◌, ◌<◌, ◌≤◌, ◌≡◌, inl, ap, ap₂, ◌∙◌, arith, true, holds_from-all, holds_from, some, pos,
  to_int, u32, chars,
}
use zeos.Memory.{Memory, IsString}
use zeos.Memory.Laws.{copied, IsString-ext, load32-ext}
use zeos.Io.Print.{IsValid}
use zeos.Utils.{copy_data}
use zeos.Utils.Copy.{copy_data-copied}
use zeos.Boot.{
  Machine, Image, loaded_text, entering_text, kernel_start, sys_size, usr_size, is_mapped,
  move_user, with_memory,
}

-- The boot loader's work: behind the header at KERNEL_START lie the kernel, of `sys` bytes with the
-- header and the two literals, and the user program, of `usr` bytes, all below the screen.
pub record IsLoaded (at : Image) (sys usr : ℕ) (m : Memory) : Type 0 where
  pub sys_is : sys_size m ≡ sys
  pub usr_is : usr_size m ≡ usr
  pub below : 0x10000 + sys + usr ≤ 0xb8000
  pub header : 12 ≤ sys + usr
  pub loaded : IsString m at.loaded (chars loaded_text)
  pub loaded_below : at.loaded + 20 ≤ 0xb8000
  pub entering : IsString m at.entering (chars entering_text)
  pub entering_below : at.entering + 23 ≤ 0xb8000

abbrev pub Same : Memory → Memory → Type 0
Same m m' = (a : ℕ) → a < 0xb8000 → m' a ≡ m a

module _ (at : Image) (sys usr : ℕ) where
  -- What the boot loader left stays below the screen.
  pub IsLoaded-ext : (m m' : Memory) → Same m m' → IsLoaded at sys usr m → IsLoaded at sys usr m'
  IsLoaded-ext m m' h l = record {
    sys_is = load32-ext m m' 0x10000 (λ a lo hi. h a (omega arith)) ∙ l.sys_is;
    usr_is = load32-ext m m' 0x10004 (λ a lo hi. h a (omega arith)) ∙ l.usr_is;
    below = l.below;
    header = l.header;
    loaded =
        IsString-ext m m' at.loaded (chars loaded_text)
          (λ a lo hi. h a (let b = l.loaded_below in omega arith)) l.loaded;
    loaded_below = l.loaded_below;
    entering =
        IsString-ext m m' at.entering (chars entering_text)
          (λ a lo hi. h a (let b = l.entering_below in omega arith)) l.entering;
    entering_below = l.entering_below;
  }

  pub move_user_lem :
      (s : Machine)
      → IsValid s.console
      → IsLoaded at sys usr s.console.mem
      → usr ≤ 0x1c000
      → ((a : ℕ) → 0x1000 ≤ a → a < 0x11c000 → is_mapped s.paging a ≡ true)
      → move_user s ≡ some (with_memory (copied s.console.mem (0x10000 + sys) 0x100000 usr) s)
  unfolding move_user
  move_user_lem s v l le mapped =
      let m = s.console.mem in
      let b = l.below in
      let start : u32 (kernel_start + sys_size m) ≡ 0x10000 + sys =
        ap (λ n. u32 (kernel_start + n)) l.sys_is ∙ omega arith in
      let size : to_int (usr_size m) ≡ pos usr = ap to_int l.usr_is ∙ ground arith in
      let from : holds_from (u32 (kernel_start + sys_size m)) (usr_size m) (is_mapped s.paging)
          ≡ true =
        ap₂ (λ p n. holds_from p n (is_mapped s.paging)) start l.usr_is
        ∙ holds_from-all (0x10000 + sys) usr (is_mapped s.paging)
            (λ a lo hi. mapped a (omega arith) (omega arith)) in
      let to : holds_from 0x100000 (usr_size m) (is_mapped s.paging) ≡ true =
        ap (λ n. holds_from 0x100000 n (is_mapped s.paging)) l.usr_is
        ∙ holds_from-all 0x100000 usr (is_mapped s.paging)
            (λ a lo hi. mapped a (omega arith) (omega arith)) in
      let copy : copy_data (u32 (kernel_start + sys_size m)) 0x100000 (to_int (usr_size m)) m
          ≡ copied m (0x10000 + sys) 0x100000 usr =
        ap₂ (λ p n. copy_data p 0x100000 n m) start size
        ∙ copy_data-copied (0x10000 + sys) 0x100000 (pos usr) m v.bytes (inl (omega arith)) in
      rw from (rw to (ap (λ t. some (with_memory t s)) copy))
