-- ===== src/Itoa/Bytes.antt =====
-- The characters of a numeral, and the text of a negative number.
use zeos.Common.{
  ℕ, ◌+◌, ◌-◌, ◌<◌, ◌≤◌, ◌≡◌, inl, inr, ap, arith, ltb, ◌==◌, Bool-cases, some, negsuc, ℤ, refl,
}
use zeos.Memory.{Memory, IsBytes, IsString, bytes_at, store8}
use zeos.Memory.Laws.{IsString-bytes_at}
use zeos.Itoa.{digit_loop, swap_loop, to_text, itoa, kernel_itoa, itox, decimal_digit, hex_digit}
use zeos.Itoa.Text.{digit_value, IsNumeral}

-- The characters of a numeral are none of them zero, and no newline.
pub digit-visible :
    (c base : ℕ)
    → base ≤ 16
    → digit_value c < base
    → hex_digit (digit_value c) ≡ c
    → (48 ≤ c) × (c < 128)
digit-visible c base h lt e = ground arith

-- A numeral in memory leaves bytes.
pub numeral-IsBytes :
    (base a b n : ℕ) (before after : Memory)
    → base ≤ 16
    → IsNumeral base a b n before after
    → IsBytes before
    → IsBytes after
numeral-IsBytes base a b n before after h num w c = elim (Bool-cases (ltb c b)) [
  | inl below ↦ omega (arith, num.kept c (inl (ground arith)), w c)
  | inr above ↦ elim (Bool-cases (ltb c (b + n))) [
    | inl inside ↦
        let d = num.digits (c - b) (ground arith) in
        let e : after (b + (c - b)) ≡ after c = ap after (ground arith) in
        omega (arith, e, digit-visible (after (b + (c - b))) base h d.0 d.1)
    | inr behind ↦ elim (Bool-cases (c == b + n)) [
      | inl last ↦
          let e : after c ≡ after (b + n) = ap after (ground arith) in omega (arith, e, num.ended)
      | inr far ↦ omega (arith, num.kept c (inr (ground arith)), w c)
    ]
  ]
]

-- A numeral in memory is a string.
pub numeral-IsString :
    (base a b n : ℕ) (before after : Memory)
    → base ≤ 16
    → IsNumeral base a b n before after
    → IsString after b (bytes_at after b n)
numeral-IsString base a b n before after h num =
    IsString-bytes_at after b n
      (λ j lt.
        ground
          (arith, digit-visible (after (b + j)) base h (num.digits j lt).0 (num.digits j lt).1))
      num.ended

-- The kernel's copy does what `itoa` does.
pub kernel_itoa-eq-itoa : (a : ℤ) (b : ℕ) (m : Memory) → kernel_itoa a b m ≡ itoa a b m
unfolding itoa kernel_itoa
kernel_itoa-eq-itoa a b m = refl

to_text-negsuc :
    (digit : ℕ → ℕ) (base a b : ℕ) (m : Memory)
    → to_text digit base (negsuc a) b m ≡ some (store8 b 0 m)
unfolding to_text digit_loop swap_loop
to_text-negsuc digit base a b m = ap (λ c. some (store8 c 0 m)) {x = b + 0} (omega arith)

-- `itoa`, `itox` and the `__itoa` of the kernel write the empty string for every negative number.
itoa-negsuc :
    (a b : ℕ) (m : Memory)
    → (itoa (negsuc a) b m ≡ some (store8 b 0 m))
      × (kernel_itoa (negsuc a) b m ≡ some (store8 b 0 m))
      × (itox (negsuc a) b m ≡ some (store8 b 0 m))
unfolding itoa kernel_itoa itox
itoa-negsuc a b m = (
  to_text-negsuc decimal_digit 10 a b m,
  to_text-negsuc decimal_digit 10 a b m,
  to_text-negsuc hex_digit 16 a b m,
)
