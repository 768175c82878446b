-- ===== src/Keyboard/Code.antt =====
-- `print_code`: the number of a key.
use zeos.Common.{
  ℕ, zero, suc, ◌+◌, ◌/◌, ◌%◌, ◌^◌, ◌<◌, ◌≡◌, refl, sym, ap, ◌∙◌, arith, true, false, inl, inr, ltb,
  Bool-cases, [], ◌∷◌, ◌++◌, reverse, some,
}
use native.Mathlib.Nat.{pow-suc}
use mathlib.Core.List.{reverse-append}
use zeos.Io.{Console, printc, print_all}
use zeos.Itoa.Decimal.{decimal, decimal_from}
use zeos.Keyboard.{print_code}

print_code-last :
    (fuel c : ℕ) (s : Console)
    → 0 < c
    → c < 10
    → print_code (suc (suc fuel)) c s ≡ some (printc 32 (printc (48 + c) s))
unfolding print_code
print_code-last fuel c s h lt = ground arith

print_code-more :
    (fuel c : ℕ) (s : Console)
    → 0 < c
    → print_code (suc fuel) c s ≡ print_code fuel (c / 10) (printc (48 + c % 10) s)
unfolding print_code
print_code-more fuel c s h = ground arith

reversed-more :
    (n c : ℕ)
    → ltb c 10 ≡ false
    → reverse (decimal_from (suc n) c) ≡ (48 + c % 10) ∷ reverse (decimal_from n (c / 10))
unfolding decimal_from
reversed-more n c more = rw more (reverse-append (decimal_from n (c / 10)) ((48 + c % 10) ∷ []))

reversed-last : (n c : ℕ) → ltb c 10 ≡ true → reverse (decimal_from (suc n) c) ≡ (48 + c) ∷ []
unfolding decimal_from
reversed-last n c one = rw one refl

print_code-digits :
    (n fuel c : ℕ) (s : Console)
    → 0 < c
    → c < 10 ^ n
    → n < fuel
    → print_code fuel c s ≡ some (print_all (reverse (decimal_from n c) ++ 32 ∷ []) s)
unfolding print_all
print_code-digits zero fuel c s h lt le = absurd (omega arith)
print_code-digits (suc n) zero c s h lt le = elim le [ ]
print_code-digits (suc n) (suc zero) c s h lt le = absurd (omega arith)
print_code-digits (suc n) (suc (suc fuel)) c s h lt le = elim (Bool-cases (ltb c 10)) [
  | inl one ↦
      print_code-last fuel c s h (ground arith)
      ∙ ap (λ cs. some (print_all (cs ++ 32 ∷ []) s)) (sym (reversed-last n c one))
  | inr more ↦
      print_code-more (suc fuel) c s h
      ∙ print_code-digits n (suc fuel) (c / 10) (printc (48 + c % 10) s) (ground arith)
          (omega (arith, pow-suc 10 n)) (omega arith)
      ∙ ap (λ cs. some (print_all (cs ++ 32 ∷ []) s)) (sym (reversed-more n c more))
]

-- With fuel above ten, `print_code` of a byte above 0 ends, and prints its decimal digits from the
-- last to the first, and a space.
print_code_lem :
    (fuel c : ℕ) (s : Console)
    → 0 < c
    → c < 256
    → 10 < fuel
    → print_code fuel c s ≡ some (print_all (reverse (decimal c) ++ 32 ∷ []) s)
unfolding decimal
print_code_lem fuel c s h lt le = print_code-digits 10 fuel c s h (omega arith) le
