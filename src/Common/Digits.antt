-- ===== src/Common/Digits.antt =====
-- A bit that `|=` sets is set, whatever the word was.
use Prim.Native.Nat.{
  ℕ, zero, suc, ◌+◌, ◌*◌, ◌/◌, ◌%◌, ◌<◌, ◌≤◌, bit_or, bit_or-bitwise, digits, max,
}
use mathlib.Core.Path.{◌≡◌, refl, ap, ◌∙◌}
use native.Mathlib.Omega.{arith}

abbrev bit : ℕ → ℕ
bit zero = 1
bit (suc k) = bit k * 2

-- `n` in binary has a 1 where `p`, a power of 2, has it.
abbrev Has : (p n : ℕ) → Type 0
Has p n = (q r : ℕ) × (n ≡ (q * 2 + 1) * p + r) × (r < p)

bit-pos : (k : ℕ) → 0 < bit k
bit-pos zero = omega arith
bit-pos (suc k) = let h = bit-pos k in omega arith

max-one : (b : ℕ) → b < 2 → max b 1 ≡ 1
max-one zero h = omega arith
max-one (suc zero) h = refl
max-one (suc (suc b)) h = absurd (omega arith)

max-small : (a b : ℕ) → a < 2 → b < 2 → max a b < 2
max-small zero zero h k = omega arith
max-small zero (suc zero) h k = omega arith
max-small (suc zero) zero h k = omega arith
max-small (suc zero) (suc zero) h k = omega arith
max-small (suc (suc a)) b h k = absurd (omega arith)
max-small a (suc (suc b)) h k = absurd (omega arith)

double-half : (n : ℕ) → n * 2 / 2 ≡ n
double-half n = omega arith

max-odd : (a d : ℕ) → d * 2 + max (a % 2) 1 ≡ (d * 2 + 1) * 1 + 0
max-odd a d = omega (arith, max-one (a % 2) (omega arith))

digits-Has : (k n a : ℕ) → a ≤ n → Has (bit k) (digits (λ b. b) max n a (bit k))
digits-Has k zero zero h = (0, 0, omega arith, bit-pos k)
digits-Has k zero (suc a) h = absurd (omega arith)
digits-Has k (suc n) zero h = (0, 0, omega arith, bit-pos k)
digits-Has zero (suc n) (suc a) h =
    let d : ℕ = digits (λ b. b) max n (suc a / 2) 0 in (d, 0, max-odd (suc a) d, omega arith)
digits-Has (suc k) (suc n) (suc a) h =
    let low : ℕ = max (suc a % 2) (bit k * 2 % 2) in
    let (q, r, e, lt) = digits-Has k n (suc a / 2) (omega arith) in
    let small : low < 2 = max-small (suc a % 2) (bit k * 2 % 2) (omega arith) (omega arith) in
    (
      q,
      r * 2 + low,
      ap (λ p. digits (λ b. b) max n (suc a / 2) p * 2 + low) (double-half (bit k))
          ∙ ap (λ d. d * 2 + low) e
          ∙ omega arith,
      omega arith,
    )

pub bit_or-31 : (n : ℕ) → bit_or n 0x80000000 / 2147483648 % 2 ≡ 1
bit_or-31 n =
    let (q, r, e, lt) = digits-Has 31 n n (omega arith) in
    let whole : bit_or n 0x80000000 ≡ (q * 2 + 1) * 0x80000000 + r =
      (λ i. bit_or-bitwise n 0x80000000 i) ∙ e in
    omega arith
