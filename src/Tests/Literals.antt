-- ===== src/Tests/Literals.antt =====
-- Memories given by a list of bytes, and the strings in them.
use zeos.Common.{
  ℕ, zero, suc, ◌+◌, ◌-◌, ◌<◌, ◌≡◌, arith, Bool, true, not, ltb, leb, ◌==◌, ◌&&◌, if◌then◌else◌,
  List, [], ◌∷◌, get_or,
}
use zeos.Memory.{Memory, IsBytes, IsString}

-- The bytes from `base` on, over another memory.
abbrev pub placed : (base : ℕ) (bytes : List ℕ) (n : ℕ) → Memory → Memory
placed base bytes n m a = if leb base a && ltb a (base + n) then get_or bytes (a - base) 0 else m a

abbrev pub blank : Memory
blank a = 0

abbrev pub are_bytes : List ℕ → Bool
are_bytes [] = true
are_bytes (c ∷ cs) = ltb c 256 && are_bytes cs

pub get_or-byte : (cs : List ℕ) (i : ℕ) → are_bytes cs ≡ true → get_or cs i 0 < 256
get_or-byte [] i h = omega arith
get_or-byte (c ∷ cs) zero h = ground arith
get_or-byte (c ∷ cs) (suc i) h = get_or-byte cs i (ground arith)

pub placed-IsBytes :
    (base : ℕ) (bytes : List ℕ) (n : ℕ) (m : Memory)
    → are_bytes bytes ≡ true
    → IsBytes m
    → IsBytes (placed base bytes n m)
placed-IsBytes base bytes n m h hm a = ground (arith, get_or-byte bytes (a - base) h, hm a)

abbrev is_string : Memory → ℕ → List ℕ → Bool
is_string m p [] = m p == 0
is_string m p (c ∷ cs) = (m p == c) && not (c == 0) && is_string m (p + 1) cs

pub is_string-IsString :
    (m : Memory) (p : ℕ) (cs : List ℕ) → is_string m p cs ≡ true → IsString m p cs
is_string-IsString m p [] h = ground arith
is_string-IsString m p (c ∷ cs) h =
    (ground arith, ground arith, is_string-IsString m (p + 1) cs (ground arith))
