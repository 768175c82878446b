-- ===== src/Utils/Access.antt =====
-- What `access_ok` accepts, and the tick counter.
use zeos.Common.{ℕ, ◌+◌, ◌*◌, ◌/◌, ◌%◌, ◌<◌, ◌≤◌, ◌≡◌, ◌↔◌, refl, ℤ, pos, arith}
use native.Mathlib.Nat.{div-add-mod, mul-add-div, mul-add-mod_self_left, mod-lt, div-lt_iff_lt-mul}
use zeos.Common.{ap, ◌∙◌, inl, inr, Bool-cases, ◌==◌}
use zeos.Utils.{access_ok, do_div, get_ticks}

-- For a 32-bit address and a size of at most 2 ^ 32 - 4096, `access_ok` answers 1 exactly if the
-- block starts at or above the user space and ends before 0x11d000, whatever the type of access.
pub access_ok_iff :
    (type : ℤ) (addr size : ℕ)
    → addr < 4294967296
    → size ≤ 4294963200
    → (access_ok type addr size ≡ pos 1) ↔ ((0x100000 ≤ addr) × (addr + size < 0x11d000))
unfolding access_ok
access_ok_iff type addr size ha hs = ground arith

module _ (low high base : ℕ) (hl : low < 4294967296) (hb : 0 < base) where
  whole :
      high * 4294967296 + low ≡ base * (high / base * 4294967296) + (high % base * 4294967296 + low)
  whole = omega (arith, div-add-mod high base)

  split_div :
      (high * 4294967296 + low) / base
      ≡ high / base * 4294967296 + (high % base * 4294967296 + low) / base
  split_div =
      ap (λ n. n / base) whole
      ∙ mul-add-div hb (high / base * 4294967296) (high % base * 4294967296 + low)

  split_mod : (high * 4294967296 + low) % base ≡ (high % base * 4294967296 + low) % base
  split_mod =
      ap (λ n. n % base) whole
      ∙ mul-add-mod_self_left base (high / base * 4294967296) (high % base * 4294967296 + low)

  fits : (high % base * 4294967296 + low) / base < 4294967296
  fits = (div-lt_iff_lt-mul hb).1 (omega (arith, mod-lt high hb))

  -- `do_div` divides a 64-bit number by a positive base: its quotient replaces the number and its
  -- remainder is the result. The low half of the quotient is below 2 ^ 32, so the `divl` does not
  -- fault.
  do_div_lem :
      ((do_div low high base).1 * 4294967296 + (do_div low high base).0
        ≡ (high * 4294967296 + low) / base)
      × ((do_div low high base).2 ≡ (high * 4294967296 + low) % base)
      × ((do_div low high base).0 < 4294967296)
  unfolding do_div
  do_div_lem = elim (Bool-cases (high == 0)) [
    | inl z ↦
        let e : high ≡ 0 = ground arith in
        rw e (omega arith, refl, (div-lt_iff_lt-mul hb).1 (omega arith))
    | inr nz ↦ rw nz (omega (arith, split_div), omega (arith, split_mod), fits)
  ]

-- `get_ticks` is the time stamp counter by the cycles per tick, cut to 32 bits.
pub get_ticks_lem :
    (eax edx : ℕ)
    → eax < 4294967296
    → get_ticks eax edx ≡ (edx * 4294967296 + eax) / 109000 % 4294967296
unfolding get_ticks
get_ticks_lem eax edx h = omega (
  arith,
  do_div_lem ((edx * 4294967296 + eax) % 4294967296) ((edx * 4294967296 + eax) / 4294967296) 109000
      (omega arith) (omega arith),
)
