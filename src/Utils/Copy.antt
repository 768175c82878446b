-- ===== src/Utils/Copy.antt =====
-- The copy loops move the block, four bytes at a time and then byte by byte.
use zeos.Common.{
  ℕ, zero, suc, ◌+◌, ◌-◌, ◌<◌, ◌≤◌, ◌≡◌, ◌⊎◌, inl, inr, refl, ℤ, pos, arith, ltb, Bool-cases,
}
use zeos.Common.{fun_ext, ◌∙◌, pos_part}
use zeos.Memory.{Memory, IsBytes, store8, load32, store32}
use zeos.Memory.Laws.{copied, store8-IsBytes, store32-IsBytes, store32-load32}
use zeos.Utils.{Copying, copy_dwords, copy_bytes, copy_data, copy_from_user, copy_to_user}

-- The source is not overwritten before it is read: it ends before the destination, or starts at or
-- behind it.
abbrev Readable : (p q n : ℕ) → Type 0
Readable p q n = (p + n ≤ q) ⊎ (q ≤ p)

copy_bytes-copied :
    (n p q : ℕ) (m : Memory) (a : ℕ)
    → IsBytes m
    → Readable p q n
    → copy_bytes n p q m a ≡ copied m p q n a
unfolding copy_bytes
copy_bytes-copied zero p q m a w r = ground arith
copy_bytes-copied (suc n) p q m a w r =
    copy_bytes-copied n (p + 1) (q + 1) (store8 q (m p) m) a (store8-IsBytes q (m p) m w)
      (omega arith)
    ∙ unfold store8 in ground (arith, w p)

dword_step :
    (n p q : ℕ) (m : Memory) (a : ℕ)
    → IsBytes m
    → Readable p q n
    → 4 < n
    → copied (store32 q (load32 p m) m) (p + 4) (q + 4) (n - 4) a ≡ copied m p q n a
dword_step n p q m a w r h =
    ground (arith, store32-load32 p q m a w, store32-load32 p q m (p + 4 + (a - (q + 4))) w)

copy_loops-copied :
    (fuel n p q : ℕ) (m : Memory) (a : ℕ)
    → IsBytes m
    → Readable p q n
    → let c = copy_dwords fuel (record { p = p; q = q; left = n; mem = m }) in
      copy_bytes c.left c.p c.q c.mem a ≡ copied m p q n a
unfolding copy_dwords
copy_loops-copied zero n p q m a w r = copy_bytes-copied n p q m a w r
copy_loops-copied (suc fuel) n p q m a w r = elim (Bool-cases (ltb 4 n)) [
  | inl more ↦ rw more (
      copy_loops-copied fuel (n - 4) (p + 4) (q + 4) (store32 q (load32 p m) m) a
        (store32-IsBytes q (load32 p m) m w) (ground arith)
      ∙ dword_step n p q m a w r (ground arith))
  | inr done ↦ rw done (copy_bytes-copied n p q m a w r)
]

-- The loop over double words ends by its own test.
copy_dwords-ends : (fuel : ℕ) (c : Copying) → c.left ≤ fuel → (copy_dwords fuel c).left ≤ 4
unfolding copy_dwords
copy_dwords-ends zero c h = omega arith
copy_dwords-ends (suc fuel) c h = elim (Bool-cases (ltb 4 c.left)) [
  | inl more ↦ rw more (copy_dwords-ends fuel _ (ground arith))
  | inr done ↦ rw done (ground arith)
]

-- In a memory of bytes, with a destination that does not begin inside the source behind its start,
-- `copy_data` moves the block and changes nothing else; it copies nothing for a negative size.
pub copy_data-copied :
    (start dest : ℕ) (size : ℤ) (m : Memory)
    → IsBytes m
    → Readable start dest (pos_part size)
    → copy_data start dest size m ≡ copied m start dest (pos_part size)
unfolding copy_data
copy_data-copied start dest size m w r =
    fun_ext (λ a. copy_loops-copied (pos_part size) (pos_part size) start dest m a w r)

-- `copy_from_user` and `copy_to_user` do the same and always return 0.
pub copy_from_user-eq-copy_data :
    (start dest : ℕ) (size : ℤ) (m : Memory)
    → copy_from_user start dest size m ≡ (pos 0, copy_data start dest size m)
unfolding copy_from_user copy_data
copy_from_user-eq-copy_data start dest size m = refl

copy_to_user-eq-copy_data :
    (start dest : ℕ) (size : ℤ) (m : Memory)
    → copy_to_user start dest size m ≡ (pos 0, copy_data start dest size m)
unfolding copy_to_user copy_data
copy_to_user-eq-copy_data start dest size m = refl
