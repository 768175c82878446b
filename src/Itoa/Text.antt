-- ===== src/Itoa/Text.antt =====
-- The text that `itoa`, `__itoa` and `itox` leave stands for the number.
use zeos.Common.{
  ℕ, zero, suc, ◌+◌, ◌-◌, ◌*◌, ◌/◌, ◌%◌, ◌^◌, ◌<◌, ◌≤◌, ◌≡◌, ◌⊎◌, inl, inr, refl, ap, ◌∙◌, sym,
  subst, arith, ltb, ◌==◌, if◌then◌else◌, Bool-cases, some, pos,
}
use native.Mathlib.Nat.{mod-lt, div-add-mod, pow-suc}
use zeos.Memory.{Memory, IsBytes, store8}
use zeos.Memory.Laws.{store8_self, store8_ne}
use zeos.Itoa.{Digits, swap_loop, to_text, itoa, itox, decimal_digit, hex_digit}
use zeos.Itoa.Loops.{quot, quot-suc, LowFirst, digit_loop-LowFirst, swap_loop_lem}

-- The number that a digit's character stands for, in base 10 and 16.
abbrev pub digit_value : ℕ → ℕ
digit_value c = if ltb c 58 then c - 48 else c - 55

-- The number that the first `n` characters at `b` stand for.
abbrev pub value : (base : ℕ) → Memory → (b n : ℕ) → ℕ
value base m b zero = 0
value base m b (suc n) = base * value base m b n + digit_value (m (b + n))

-- `after` holds the numeral of `a` at `b`, of `n` characters: digits without a leading zero, of value
-- `a`, and a final zero byte; nothing else differs from `before`.
pub record IsNumeral (base a b n : ℕ) (before after : Memory) : Type 0 where
  pub nonempty : 0 < n
  pub represents : value base after b n ≡ a
  pub digits :
      (j : ℕ)
      → j < n
      → (digit_value (after (b + j)) < base)
        × (hex_digit (digit_value (after (b + j))) ≡ after (b + j))
  pub no_leading_zero : (n ≡ 1) ⊎ (0 < digit_value (after b))
  pub ended : after (b + n) ≡ 0
  pub kept : (c : ℕ) → (c < b) ⊎ (b + n < c) → after c ≡ before c

quot-zero : (base a j : ℕ) → ((x : ℕ) → x / base ≤ x / 2) → a < 2 ^ j → quot base a j ≡ 0
quot-zero base a zero half h = omega arith
quot-zero base a (suc j) half h =
    quot-zero base (a / base) j half (omega (arith, half a, pow-suc 2 j))

module _ (digit : ℕ → ℕ) (base : ℕ) (pos_base : 0 < base)
    (small : (d : ℕ) → d < base → digit d < 256) (half : (x : ℕ) → x / base ≤ x / 2)
    (shows : (d : ℕ) → d < base → (digit_value (digit d) ≡ d) × (hex_digit d ≡ digit d)) where
  horner :
      (a b n k : ℕ) (m : Memory)
      → quot base a n ≡ 0
      → ((j : ℕ) → j < n → m (b + j) ≡ digit (quot base a (n - 1 - j) % base))
      → k ≤ n
      → value base m b k ≡ quot base a (n - k)
  horner a b n zero m z h le = sym z ∙ ap (quot base a) {x = n} {y = n - 0} (omega arith)
  horner a b n (suc k) m z h le =
      let q = quot base a (n - suc k) in
      let e : quot base a (n - k) ≡ q / base =
        ap (quot base a) {x = n - k} {y = suc (n - suc k)} (omega arith)
        ∙ quot-suc base a (n - suc k) in
      let d : digit_value (m (b + k)) ≡ q % base =
        ap digit_value (h k (omega arith))
        ∙ (shows (quot base a (n - 1 - k) % base) (mod-lt _ pos_base)).0
        ∙ ap (λ t. quot base a t % base) {x = n - 1 - k} {y = n - suc k} (omega arith) in
      ap (λ t. base * t + digit_value (m (b + k))) (horner a b n k m z h (omega arith) ∙ e)
      ∙ ap (λ t. base * (q / base) + t) d
      ∙ div-add-mod q base

  abbrev finished : ℕ → Digits → Memory
  finished b d = store8 (b + d.count) 0 (swap_loop (d.count / 2) 0 d.count b d.mem)

  module _ (a b : ℕ) (m : Memory) (h0 : 0 < a) (n : ℕ) (d : Digits)
      (l : LowFirst digit base a 0 b m n d) where
    same_count : d.count ≡ n
    same_count = l.counted ∙ omega arith

    character : (j : ℕ) → j < n → finished b d (b + j) ≡ digit (quot base a (n - 1 - j) % base)
    character j lt =
        let c = same_count in
        let s = swap_loop_lem (d.count / 2) 0 d.count b d.mem l.bytes (omega arith) in
        store8_ne (b + d.count) 0 _ (b + j) (omega arith)
        ∙ s.0 j (omega arith) (omega arith)
        ∙ ap d.mem {y = b + (0 + (n - 1 - j))} (omega arith)
        ∙ l.written (n - 1 - j) (omega arith)

    nonempty : 0 < n
    nonempty = elim (Bool-cases (n == 0)) [
      | inl z ↦
          let e : a ≡ 0 = ap (quot base a) {x = 0} {y = n} (ground arith) ∙ l.ends in
          absurd (omega arith)
      | inr nz ↦ ground arith
    ]

    digit_shown :
        (j : ℕ) → j < n → digit_value (finished b d (b + j)) ≡ quot base a (n - 1 - j) % base
    digit_shown j lt =
        ap digit_value (character j lt)
        ∙ (shows (quot base a (n - 1 - j) % base) (mod-lt _ pos_base)).0

    leading : 0 < digit_value (finished b d b)
    leading =
        let q = quot base a (n - 1) in
        let none_left : q / base ≡ 0 =
          sym (quot-suc base a (n - 1))
          ∙ ap (quot base a) {x = suc (n - 1)} {y = n} (let p = nonempty in omega arith)
          ∙ l.ends in
        let top : 0 < q = l.positive (n - 1) (let p = nonempty in omega arith) in
        let e : digit_value (finished b d b) ≡ q % base =
          ap (λ c. digit_value (finished b d c)) {y = b + 0} (omega arith)
          ∙ digit_shown 0 nonempty
          ∙ ap (λ t. quot base a t % base) {x = n - 1 - 0} {y = n - 1} (omega arith) in
        omega (arith, e, top, div-add-mod q base, ap (λ t. base * t) none_left)

    finished-IsNumeral : IsNumeral base a b n m (finished b d)
    finished-IsNumeral =
        let c = same_count in
        let s = swap_loop_lem (d.count / 2) 0 d.count b d.mem l.bytes (omega arith) in
        record {
          nonempty = nonempty;
          represents =
              horner a b n n (finished b d) l.ends character (omega arith)
              ∙ ap (quot base a) {x = n - n} {y = 0} (omega arith);
          digits = λ j lt. (
            subst (λ t. t < base) (sym (digit_shown j lt)) (mod-lt _ pos_base),
            ap hex_digit (digit_shown j lt)
                ∙ (shows (quot base a (n - 1 - j) % base) (mod-lt _ pos_base)).1
                ∙ sym (character j lt),
          );
          no_leading_zero = inr leading;
          ended =
              ap (finished b d) {x = b + n} {y = b + d.count} (omega arith)
              ∙ store8_self (b + d.count) 0 _ (omega arith);
          kept = λ x off.
              store8_ne (b + d.count) 0 _ x (omega arith)
              ∙ s.1 x (omega arith)
              ∙ l.kept x (omega arith);
        }

  zero_text :
      (a b : ℕ) (m : Memory)
      → a ≡ 0
      → 1 < base
      → IsNumeral base a b 1 m (store8 (b + 1) 0 (store8 b 48 m))
  unfolding store8
  zero_text a b m z h = record {
    nonempty = omega arith;
    represents = ground arith;
    digits = λ j lt. ground arith;
    no_leading_zero = inl refl;
    ended = ground arith;
    kept = λ c off. ground arith;
  }

  module _ (limit : ℕ) (some_limit : 1 ≤ limit) where
    to_text-IsNumeral :
        (a b : ℕ) (m : Memory)
        → IsBytes m
        → 1 < base
        → a < 2147483648
        → quot base a limit ≡ 0
        → (n : ℕ) × (after : Memory) × (to_text digit base (pos a) b m ≡ some after)
          × (n ≤ limit)
          × IsNumeral base a b n m after
    unfolding to_text
    to_text-IsNumeral a b m w hb h enough = elim (Bool-cases (a == 0)) [
      | inl z ↦
          (1, store8 (b + 1) 0 (store8 b 48 m), rw z, some_limit, zero_text a b m (ground arith) hb)
      | inr nz ↦
          let r =
            digit_loop-LowFirst digit base pos_base small 31 a 0 b m w
              (quot-zero base a 31 half h) in
          (
            r.0,
            finished b r.1,
            rw (nz, r.2),
            elim (Bool-cases (ltb limit r.0)) [
              | inl over ↦ absurd (omega (arith, r.3.positive limit (ground arith)))
              | inr fits ↦ ground arith
            ],
            finished-IsNumeral a b m (ground arith) r.0 r.1 r.3,
          )
    ]

half_of_ten : (x : ℕ) → x / 10 ≤ x / 2
half_of_ten x = omega arith

half_of_sixteen : (x : ℕ) → x / 16 ≤ x / 2
half_of_sixteen x = omega arith

ten_digits : (x : ℕ) → x < 2147483648 → quot 10 x 10 ≡ 0
ten_digits x h = omega arith

eight_digits : (x : ℕ) → x < 2147483648 → quot 16 x 8 ≡ 0
eight_digits x h = omega arith

-- `itoa` ends for every `int` that is not negative, in a memory of bytes, writes its decimal
-- numeral, of at most ten characters, with a zero behind it, and changes nothing else.
pub itoa-IsNumeral :
    (a b : ℕ) (m : Memory)
    → IsBytes m
    → a < 2147483648
    → (n : ℕ) × (after : Memory) × (itoa (pos a) b m ≡ some after)
      × (n ≤ 10)
      × IsNumeral 10 a b n m after
unfolding itoa
itoa-IsNumeral a b m w h =
    to_text-IsNumeral decimal_digit 10 (omega arith) (λ d lt. omega arith) half_of_ten
      (λ d lt. ground arith) 10 (omega arith) a b m w (omega arith) h (ten_digits a h)

-- `itox` ends for every `int` that is not negative, in a memory of bytes, writes its hexadecimal
-- numeral in capitals, of at most eight characters, with a zero behind it, and changes nothing
-- else.
itox-IsNumeral :
    (a b : ℕ) (m : Memory)
    → IsBytes m
    → a < 2147483648
    → (n : ℕ) × (after : Memory) × (itox (pos a) b m ≡ some after)
      × (n ≤ 8)
      × IsNumeral 16 a b n m after
unfolding itox
itox-IsNumeral a b m w h =
    to_text-IsNumeral hex_digit 16 (omega arith) (λ d lt. ground arith) half_of_sixteen
      (λ d lt. ground arith) 8 (omega arith) a b m w (omega arith) h (eight_digits a h)

seven_digits : (x : ℕ) → x < 0x10000000 → quot 16 x 7 ≡ 0
seven_digits x h = omega arith

-- Below 2 ^ 28 seven digits are enough.
pub itox-short :
    (a b : ℕ) (m : Memory)
    → IsBytes m
    → a < 0x10000000
    → (n : ℕ) × (after : Memory) × (itox (pos a) b m ≡ some after)
      × (n ≤ 7)
      × IsNumeral 16 a b n m after
unfolding itox
itox-short a b m w h =
    to_text-IsNumeral hex_digit 16 (omega arith) (λ d lt. ground arith) half_of_sixteen
      (λ d lt. ground arith) 7 (omega arith) a b m w (omega arith) (omega arith) (seven_digits a h)
