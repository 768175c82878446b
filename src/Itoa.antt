-- ===== src/Itoa.antt =====
-- `itoa` of libc.c, `__itoa` of io.c and `itox` of utils.c: a number as text. The three have the same
-- loops over a base; `itox` alone turns the codes behind '9' into letters.
pub mod Loops
pub mod Text
pub mod Bytes
pub mod Decimal
use zeos.Common.{
  ℕ, zero, suc, ◌+◌, ◌-◌, ◌*◌, ◌/◌, ◌%◌, Bool, true, false, ltb, ◌==◌, if◌then◌else◌, ℤ, pos,
  negsuc, pos_part, Option, none, some,
}
use zeos.Memory.{Memory, store8}

-- `b[i]=(a%10)+'0'`
abbrev pub decimal_digit : ℕ → ℕ
decimal_digit d = d + 48

-- `b[i]=(a%16)+'0'; if (b[i] > '9') b[i] = b[i] - ('9'+1) + 'A'`
abbrev pub hex_digit : ℕ → ℕ
hex_digit d = if ltb 57 (d + 48) then d + 48 - 58 + 65 else d + 48

-- The number of characters written, `i`, and the memory.
pub record Digits : Type 0 where
  pub count : ℕ
  pub mem : Memory

module _ (digit : ℕ → ℕ) (base : ℕ) where
  -- `while (a>0)`; `none` is a loop that does not end in `fuel` rounds.
  unfoldable pub digit_loop : (fuel a i b : ℕ) → Memory → Option Digits
  digit_loop zero a i b m = none
  digit_loop (suc fuel) a i b m =
      let rest = digit_loop fuel (a / base) (i + 1) b (store8 (b + i) (digit (a % base)) m) in
      if ltb 0 a then rest else some (record { count = i; mem = m })

-- `for (i1=0; i1<i/2; i1++)`, from `i1` on
unfoldable pub swap_loop : (left i1 i b : ℕ) → Memory → Memory
swap_loop zero i1 i b m = m
swap_loop (suc left) i1 i b m =
    let c = m (b + i1) in
    let m = store8 (b + i1) (m (b + (i - i1 - 1))) m in
    swap_loop left (i1 + 1) i b (store8 (b + (i - i1 - 1)) c m)

-- A positive `int` has at most 31 binary digits.
abbrev pub rounds : ℕ
rounds = 32

abbrev is_zero : ℤ → Bool
is_zero (pos n) = n == 0
is_zero (negsuc n) = false

-- A negative number fails the test `a>0` at once, as 0 would.
unfoldable pub to_text : (digit : ℕ → ℕ) (base : ℕ) → (a : ℤ) → (b : ℕ) → Memory → Option Memory
to_text digit base a b m =
    if is_zero a
    then some (store8 (b + 1) 0 (store8 b 48 m))
    else elim (digit_loop digit base rounds (pos_part a) 0 b m) [
      | none ↦ none
      | some d ↦ some (store8 (b + d.count) 0 (swap_loop (d.count / 2) 0 d.count b d.mem))
    ]

unfoldable pub itoa : (a : ℤ) → (b : ℕ) → Memory → Option Memory
unfolding to_text
itoa = to_text decimal_digit 10

-- `__itoa`, the kernel's copy
unfoldable pub kernel_itoa : (a : ℤ) → (b : ℕ) → Memory → Option Memory
unfolding to_text
kernel_itoa = to_text decimal_digit 10

unfoldable pub itox : (a : ℤ) → (b : ℕ) → Memory → Option Memory
unfolding to_text
itox = to_text hex_digit 16
