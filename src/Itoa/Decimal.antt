-- ===== src/Itoa/Decimal.antt =====
-- The decimal numeral of a number as a list of characters, and the bytes that the conversions leave.
use zeos.Common.{
  ℕ, zero, suc, ◌+◌, ◌/◌, ◌%◌, ◌<◌, ◌≤◌, ◌≡◌, ◌⊎◌, inl, inr, sym, ap, ap₂, ◌∙◌, arith, ltb,
  if◌then◌else◌, List, [], ◌∷◌, ◌++◌,
}
use zeos.Memory.{Memory, bytes_at}
use zeos.Itoa.{hex_digit}
use zeos.Common.{true, false}
use zeos.Memory.Laws.{bytes_at-append}
use zeos.Itoa.Text.{digit_value, value, IsNumeral}

-- The digits of `a`, the last one first cut off; `fuel` digits at most.
unfoldable pub decimal_from : (fuel a : ℕ) → List ℕ
decimal_from zero a = []
decimal_from (suc fuel) a =
    let front = decimal_from fuel (a / 10) in
    if ltb a 10 then (48 + a) ∷ [] else front ++ (48 + a % 10) ∷ []

-- An `int` has at most ten digits.
unfoldable pub decimal : ℕ → List ℕ
unfolding decimal_from
decimal a = decimal_from 10 a

module _ (m : Memory) (b : ℕ) where
  value-pos : (k : ℕ) → 0 < digit_value (m b) → 0 < value 10 m b (suc k)
  value-pos zero h = omega (arith, ap (λ c. digit_value (m c)) {x = b + 0} {y = b} (omega arith))
  value-pos (suc k) h = omega (arith, value-pos k h)

  abbrev Digit : ℕ → Type 0
  Digit j = (digit_value (m (b + j)) < 10) × (hex_digit (digit_value (m (b + j))) ≡ m (b + j))

  add-digit_value : (j : ℕ) → Digit j → 48 + digit_value (m (b + j)) ≡ m (b + j)
  add-digit_value j d = ground arith

  digits-decimal_from :
      (k fuel a : ℕ)
      → k < fuel
      → value 10 m b (suc k) ≡ a
      → ((j : ℕ) → j < suc k → Digit j)
      → (k ≡ 0) ⊎ (0 < digit_value (m b))
      → decimal_from fuel a ≡ bytes_at m b (suc k)
  unfolding decimal_from bytes_at
  digits-decimal_from k zero a lt e d lead = elim lt [ ]
  digits-decimal_from zero (suc fuel) a lt e d lead =
      let d0 = d 0 (omega arith) in
      let small : ltb a 10 ≡ true = ground arith in
      rw small
        (ap (λ c. c ∷ []) (omega (arith, add-digit_value 0 d0) ∙ ap m {x = b + 0} (omega arith)))
  digits-decimal_from (suc k) (suc fuel) a lt e d lead =
      let v = value 10 m b (suc k) in
      let dk = d (suc k) (omega arith) in
      let lead' : 0 < digit_value (m b) = ground arith in
      let positive = value-pos k lead' in
      let large : ltb a 10 ≡ false = ground arith in
      let front : decimal_from fuel (a / 10) ≡ bytes_at m b (suc k) =
        digits-decimal_from k fuel (a / 10) (omega arith) (omega arith) (λ j lj. d j (omega arith))
          (inr lead') in
      rw large (
        ap₂ (λ f c. f ++ c ∷ []) front (omega (arith, add-digit_value (suc k) dk))
        ∙ sym (bytes_at-append m b (suc k) 1)
        ∙ ap (bytes_at m b) {x = suc k + 1} {y = suc (suc k)} (omega arith))

-- The bytes that `itoa` leaves are the decimal numeral.
pub IsNumeral-decimal :
    (a b n : ℕ) (before m : Memory)
    → IsNumeral 10 a b n before m
    → n ≤ 10
    → bytes_at m b n ≡ decimal a
unfolding decimal
IsNumeral-decimal a b zero before m num le = absurd (omega (arith, num.nonempty))
IsNumeral-decimal a b (suc k) before m num le = sym (
    digits-decimal_from m b k 10 a (omega arith) num.represents num.digits
      (elim num.no_leading_zero [ inl e ↦ inl (omega arith) | inr p ↦ inr p ]))
