-- ===== src/Utils.antt =====
-- utils.c: copying between address spaces, the check of user pointers, and the tick counter.
-- A pointer is an address; `int` sizes are integers; `unsigned long` has 32 bits.
pub mod Copy
pub mod Access
use zeos.Common.{
  ℕ, zero, suc, ◌+◌, ◌-◌, ◌*◌, ◌/◌, ◌%◌, Bool, true, false, ltb, leb, ◌==◌, ◌&&◌, if◌then◌else◌, ℤ,
  pos, negsuc, pos_part, u32, ◌>>>◌,
}
use zeos.MmAddress.{user_first_page, num_pag_code, num_pag_data}
use zeos.Memory.{Memory, store8, load32, store32}

-- The variables of a copy loop: the two pointers, the bytes left, and the memory.
pub record Copying : Type 0 where
  pub p : ℕ
  pub q : ℕ
  pub left : ℕ
  pub mem : Memory

-- `while(size > 4) { *q++ = *p++; size -= 4; }`
unfoldable pub copy_dwords : (fuel : ℕ) → Copying → Copying
copy_dwords zero c = c
copy_dwords (suc fuel) c =
    let rest = copy_dwords fuel (record {
      p = c.p + 4;
      q = c.q + 4;
      left = c.left - 4;
      mem = store32 c.q (load32 c.p c.mem) c.mem;
    }) in
    if ltb 4 c.left then rest else c

-- `while(size > 0) { *q1++ = *p1++; size --; }`
unfoldable pub copy_bytes : (left p q : ℕ) → Memory → Memory
copy_bytes zero p q m = m
copy_bytes (suc left) p q m = copy_bytes left (p + 1) (q + 1) (store8 q (m p) m)

-- A negative size fails both tests at once, as 0 does.
unfoldable pub copy_data : (start dest : ℕ) → (size : ℤ) → Memory → Memory
unfolding copy_dwords copy_bytes
copy_data start dest size m =
    let n = pos_part size in
    let c = copy_dwords n (record { p = start; q = dest; left = n; mem = m }) in
    copy_bytes c.left c.p c.q c.mem

-- The same two loops, and 0 for success.
unfoldable pub copy_from_user : (start dest : ℕ) → (size : ℤ) → Memory → ℤ × Memory
unfolding copy_dwords copy_bytes
copy_from_user start dest size m =
    let n = pos_part size in
    let c = copy_dwords n (record { p = start; q = dest; left = n; mem = m }) in
    (pos 0, copy_bytes c.left c.p c.q c.mem)

unfoldable pub copy_to_user : (start dest : ℕ) → (size : ℤ) → Memory → ℤ × Memory
unfolding copy_dwords copy_bytes
copy_to_user start dest size m =
    let n = pos_part size in
    let c = copy_dwords n (record { p = start; q = dest; left = n; mem = m }) in
    (pos 0, copy_bytes c.left c.p c.q c.mem)

abbrev verify_read : ℤ
verify_read = pos 0

abbrev pub verify_write : ℤ
verify_write = pos 1

abbrev is_verify_write : ℤ → Bool
is_verify_write (pos n) = n == 1
is_verify_write (negsuc n) = false

-- The `default` case, which the case of VERIFY_WRITE falls into.
access_default : (addr_ini addr_fin : ℕ) → ℤ
access_default addr_ini addr_fin =
    if leb user_first_page addr_ini && leb addr_fin (user_first_page + num_pag_code + num_pag_data)
    then pos 1
    else pos 0

unfoldable pub access_ok : (type : ℤ) → (addr size : ℕ) → ℤ
unfolding access_default
access_ok type addr size =
    let addr_ini = addr >>> 12 in
    let addr_fin = u32 (addr + size) >>> 12 in
    if ltb addr_fin addr_ini
    then pos 0
    else if is_verify_write type
    then if leb user_first_page addr_ini && leb addr_fin (user_first_page + num_pag_data)
      then pos 1
      else access_default addr_ini addr_fin
    else access_default addr_ini addr_fin

-- `do_div(n, base)` on the two halves of `n`: the high half is divided first when it is not 0, then
-- `divl` divides the rest with the low half. The quotient's halves, and the remainder.
unfoldable pub do_div : (low high base : ℕ) → ℕ × ℕ × ℕ
do_div low high base =
    let upper = if high == 0 then high else high % base in
    let high' = if high == 0 then high else high / base in
    ((upper * 4294967296 + low) / base, high', (upper * 4294967296 + low) % base)

abbrev cycles_per_tick : ℕ
cycles_per_tick = 109000

-- `get_ticks` at a reading `edx:eax` of `rdtsc`; the result is cut to `unsigned long`.
unfoldable pub get_ticks : (eax edx : ℕ) → ℕ
unfolding do_div
get_ticks eax edx =
    let ticks = edx * 4294967296 + eax in
    let r = do_div (ticks % 4294967296) (ticks / 4294967296) cycles_per_tick in
    u32 (r.1 * 4294967296 + r.0)
