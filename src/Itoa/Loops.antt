-- ===== src/Itoa/Loops.antt =====
-- The digit loop writes the digits, lowest first, and the swap loop turns them round.
use zeos.Common.{
  ℕ, zero, suc, ◌+◌, ◌-◌, ◌/◌, ◌%◌, ◌<◌, ◌≤◌, ◌≡◌, ◌⊎◌, inl, inr, refl, ap, subst, ==_iff, ◌∙◌,
  arith, ltb, ◌==◌, Bool-cases, some,
}
use native.Mathlib.Nat.{mod-lt}
use zeos.Memory.{Memory, IsBytes, store8}
use zeos.Memory.Laws.{store8-IsBytes, store8_self, store8_ne}
use zeos.Itoa.{Digits, digit_loop, swap_loop}

-- `a` divided `j` times
abbrev pub quot : (base a j : ℕ) → ℕ
quot base a zero = a
quot base a (suc j) = quot base (a / base) j

pub quot-suc : (base a j : ℕ) → quot base a (suc j) ≡ quot base a j / base
quot-suc base a zero = refl
quot-suc base a (suc j) = quot-suc base (a / base) j

-- The digits of `a`, lowest first, stand at `b + i` and behind, `n` of them.
pub record LowFirst (digit : ℕ → ℕ) (base a i b : ℕ) (m : Memory) (n : ℕ) (d : Digits)
    : Type 0 where
  pub counted : d.count ≡ i + n
  pub ends : quot base a n ≡ 0
  pub positive : (j : ℕ) → j < n → 0 < quot base a j
  pub written : (j : ℕ) → j < n → d.mem (b + (i + j)) ≡ digit (quot base a j % base)
  pub kept : (c : ℕ) → (c < b + i) ⊎ (b + (i + n) ≤ c) → d.mem c ≡ m c
  pub bytes : IsBytes d.mem

module _ (digit : ℕ → ℕ) (base : ℕ) (pos_base : 0 < base)
    (small : (d : ℕ) → d < base → digit d < 256) where
  pub digit_loop-LowFirst :
      (fuel a i b : ℕ) (m : Memory)
      → IsBytes m
      → quot base a fuel ≡ 0
      → (n : ℕ) × (d : Digits) × (digit_loop digit base (suc fuel) a i b m ≡ some d)
        × LowFirst digit base a i b m n d
  unfolding digit_loop
  digit_loop-LowFirst zero a i b m w z = (
    0,
    record { count = i; mem = m },
    rw z,
    record {
      counted = omega arith;
      ends = z;
      positive = λ j lt. absurd (omega arith);
      written = λ j lt. absurd (omega arith);
      kept = λ c off. refl;
      bytes = w;
    },
  )
  digit_loop-LowFirst (suc fuel) a i b m w z = elim (Bool-cases (ltb 0 a)) [
    | inl more ↦
        let v = digit (a % base) in
        let sv : v < 256 = small (a % base) (mod-lt a pos_base) in
        let rest =
          digit_loop-LowFirst fuel (a / base) (i + 1) b (store8 (b + i) v m)
            (store8-IsBytes (b + i) v m w) z in
        let l = rest.3 in
        (
          suc rest.0,
          rest.1,
          rw more rest.2,
          record {
            counted = let e = l.counted in omega arith;
            ends = l.ends;
            positive = λ j lt. elim (Bool-cases (j == 0)) [
              | inl e ↦ rw ((==_iff j 0).0 e) (ground arith)
              | inr ne ↦
                  subst (λ t. 0 < quot base a t) {x = suc (j - 1)} {y = j} (ground arith)
                    (l.positive (j - 1) (ground arith))
            ];
            written = λ j lt. elim (Bool-cases (j == 0)) [
              | inl e ↦
                  ap rest.1.mem {y = b + i} (ground arith)
                  ∙ l.kept (b + i) (omega arith)
                  ∙ store8_self (b + i) v m sv
                  ∙ ap (λ t. digit (quot base a t % base)) {x = 0} {y = j} (ground arith)
              | inr ne ↦
                  ap rest.1.mem {y = b + (i + 1 + (j - 1))} (ground arith)
                  ∙ l.written (j - 1) (ground arith)
                  ∙ ap (λ t. digit (quot base a t % base)) {x = suc (j - 1)} {y = j} (ground arith)
            ];
            kept = λ c off. l.kept c (omega arith) ∙ store8_ne (b + i) v m c (omega arith);
            bytes = l.bytes;
          },
        )
    | inr done ↦ (
      0,
      record { count = i; mem = m },
      rw done,
      record {
        counted = omega arith;
        ends = ground arith;
        positive = λ j lt. absurd (omega arith);
        written = λ j lt. absurd (omega arith);
        kept = λ c off. refl;
        bytes = w;
      },
    )
  ]

-- The swap loop turns the part of the text round that it has not reached yet.
pub swap_loop_lem :
    (left i1 i b : ℕ) (m : Memory)
    → IsBytes m
    → i1 + left ≡ i / 2
    → ((j : ℕ) → i1 ≤ j → j + i1 < i → swap_loop left i1 i b m (b + j) ≡ m (b + (i - 1 - j)))
      × ((c : ℕ) → (c < b + i1) ⊎ (b + i ≤ c + i1) → swap_loop left i1 i b m c ≡ m c)
unfolding swap_loop
swap_loop_lem zero i1 i b m w e =
    ((λ j lo hi. ap m {x = b + j} {y = b + (i - 1 - j)} (omega arith)), λ c off. refl)
swap_loop_lem (suc left) i1 i b m w e =
    let far = b + (i - i1 - 1) in
    let m1 = store8 (b + i1) (m far) m in
    let m2 = store8 far (m (b + i1)) m1 in
    let rest =
      swap_loop_lem left (i1 + 1) i b m2
        (store8-IsBytes far (m (b + i1)) m1 (store8-IsBytes (b + i1) (m far) m w)) (omega arith) in
    (
      (λ j lo hi. elim (Bool-cases (j == i1)) [
        | inl ej ↦ rest.1 (b + j) (ground arith) ∙ unfold store8 in ground (arith, w far)
        | inr nj ↦ elim (Bool-cases (j + i1 + 1 == i)) [
          | inl ek ↦ rest.1 (b + j) (ground arith) ∙ unfold store8 in ground (arith, w (b + i1))
          | inr nk ↦ rest.0 j (ground arith) (ground arith) ∙ unfold store8 in ground arith
        ]
      ]),
      λ c off. rest.1 c (omega arith) ∙ unfold store8 in ground arith,
    )
