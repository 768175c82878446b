-- ===== src/Common/Tests.antt =====
-- The comparisons of C as Booleans, and the conditional.
use mathlib.Core.Option.{Option, none, some}
use Prim.Native.Nat.{ℕ, zero, suc, ◌+◌, ◌≤◌, ◌<◌, compare, Ordering}
use mathlib.Core.Path.{◌≡◌, refl}
use mathlib.Core.Logic.{◌↔◌, ◌⊎◌, ◌≢◌, inl, inr}
use mathlib.Core.Bool.{Bool, true, false}
use native.Mathlib.Omega.{arith}

abbrev pub ltb : ℕ → ℕ → Bool
ltb a b = elim (compare a b) [ Ordering.lt ↦ true | _ ↦ false ]

abbrev pub leb : ℕ → ℕ → Bool
leb a b = elim (compare a b) [ Ordering.gt ↦ false | _ ↦ true ]

infix 50 ◌==◌
abbrev pub ◌==◌ : ℕ → ℕ → Bool
a == b = elim (compare a b) [ Ordering.eq ↦ true | _ ↦ false ]

infix 1 if◌then◌else◌
abbrev pub if◌then◌else◌ {ℓ} : {A : Type ℓ} → Bool → A → A → A
if true then x else y = x
if false then x else y = y

pub Bool-cases : (b : Bool) → (b ≡ true) ⊎ (b ≡ false)
Bool-cases true = inl refl
Bool-cases false = inr refl

pub Option-cases {ℓ} : {A : Type ℓ} → (o : Option A) → (o ≡ none) ⊎ ((a : A) × (o ≡ some a))
Option-cases none = inl refl
Option-cases (some a) = inr (a, refl)

pub ==_iff : (a b : ℕ) → ((a == b) ≡ true) ↔ (a ≡ b)
==_iff a b = ground arith

pub ==_of_eq : (a b : ℕ) → a ≡ b → (a == b) ≡ true
==_of_eq a b h = ground arith

pub ==_of_ne : (a b : ℕ) → a ≢ b → (a == b) ≡ false
==_of_ne a b h = ground arith

pub ltb_of_lt : (a b : ℕ) → a < b → ltb a b ≡ true
ltb_of_lt a b h = ground arith

-- Whether a test holds of the `left` numbers from `start` on, found by running it on each.
unfoldable pub holds_from : (start left : ℕ) → (test : ℕ → Bool) → Bool
holds_from start zero test = true
holds_from start (suc left) test =
    let later = holds_from (start + 1) left test in if test start then later else false

pub holds_from-at :
    (start left : ℕ) (test : ℕ → Bool) (n : ℕ)
    → holds_from start left test ≡ true
    → start ≤ n
    → n < start + left
    → test n ≡ true
unfolding holds_from
holds_from-at start zero test n ok lo hi = absurd (omega arith)
holds_from-at start (suc left) test n ok lo hi =
    ground (arith, holds_from-at (start + 1) left test n)

pub holds_from-all :
    (start left : ℕ) (test : ℕ → Bool)
    → ((n : ℕ) → start ≤ n → n < start + left → test n ≡ true)
    → holds_from start left test ≡ true
unfolding holds_from
holds_from-all start zero test h = refl
holds_from-all start (suc left) test h =
    rw (h start (omega arith) (omega arith))
      (holds_from-all (start + 1) left test (λ n lo hi. h n (omega arith) (omega arith)))
