-- ===== src/Memory/Laws.antt =====
-- Loads after stores, and the bytes of a range.
use zeos.Common.{ℕ, zero, suc, ◌+◌, ◌-◌, ◌<◌, ◌≡◌, ◌≢◌, refl, ◌∷◌, ◌++◌, arith}
use zeos.Common.{ltb, leb, ◌&&◌, if◌then◌else◌, length, ap, ap₂, ◌≡⟨◌⟩◌, ◌∎}
use zeos.Common.{◌∙◌}
use zeos.Common.{List, [], ◌∷◌, ◌≤◌, ◌⊎◌}
use zeos.Memory.{Memory, IsString, IsBytes, store8, store16, load32, store32, bytes_at}

-- The bytes `[p, p + n)` of `m` stand at `[q, q + n)`, and all others stay.
abbrev pub copied : Memory → ℕ → ℕ → ℕ → Memory
copied m p q n a = if leb q a && ltb a (q + n) then m (p + (a - q)) else m a

pub store8-IsBytes : (a v : ℕ) (m : Memory) → IsBytes m → IsBytes (store8 a v m)
unfolding store8
store8-IsBytes a v m w b = ground (arith, w b)

pub store16-IsBytes : (a v : ℕ) (m : Memory) → IsBytes m → IsBytes (store16 a v m)
unfolding store16
store16-IsBytes a v m w b = ground (arith, w b)

pub store32-IsBytes : (a v : ℕ) (m : Memory) → IsBytes m → IsBytes (store32 a v m)
unfolding store32
store32-IsBytes a v m w b = ground (arith, w b)

-- A double word is its four bytes.
pub load32-lt : (p : ℕ) (m : Memory) → IsBytes m → load32 p m < 4294967296
unfolding load32
load32-lt p m w = omega (arith, w p, w (p + 1), w (p + 2), w (p + 3))

-- Loading a double word and storing it moves four bytes.
pub store32-load32 :
    (p q : ℕ) (m : Memory) (a : ℕ) → IsBytes m → store32 q (load32 p m) m a ≡ copied m p q 4 a
unfolding store32 load32
store32-load32 p q m a w = ground (arith, w p, w (p + 1), w (p + 2), w (p + 3))

pub load32-store32 : (a v : ℕ) (m : Memory) → v < 4294967296 → load32 a (store32 a v m) ≡ v
unfolding store32 load32
load32-store32 a v m h = ground arith

pub length-bytes_at : (m : Memory) (p n : ℕ) → length (bytes_at m p n) ≡ n
unfolding bytes_at
length-bytes_at m p zero = refl
length-bytes_at m p (suc n) = ap suc (length-bytes_at m (p + 1) n)

pub bytes_at_ext :
    (m m' : Memory) (p q n : ℕ)
    → ((i : ℕ) → i < n → m (p + i) ≡ m' (q + i))
    → bytes_at m p n ≡ bytes_at m' q n
unfolding bytes_at
bytes_at_ext m m' p q zero h = refl
bytes_at_ext m m' p q (suc n) h =
    ap₂ ◌∷◌ (ground (arith, h 0))
      (bytes_at_ext m m' (p + 1) (q + 1) n (λ i lt. ground (arith, h (suc i))))

pub bytes_at-append :
    (m : Memory) (p k n : ℕ) → bytes_at m p (k + n) ≡ bytes_at m p k ++ bytes_at m (p + k) n
unfolding bytes_at
bytes_at-append m p zero n = ground arith
bytes_at-append m p (suc k) n =
    bytes_at m p (suc k + n)
    ≡⟨ ap (bytes_at m p) {y = suc (k + n)} (omega arith) ⟩ m p ∷ bytes_at m (p + 1) (k + n)
    ≡⟨ ap (λ t. m p ∷ t) (bytes_at-append m (p + 1) k n) ⟩
      m p ∷ (bytes_at m (p + 1) k ++ bytes_at m (p + 1 + k) n)
    ≡⟨ ap (λ a. m p ∷ (bytes_at m (p + 1) k ++ bytes_at m a n)) (omega arith) ⟩
      bytes_at m p (suc k) ++ bytes_at m (p + suc k) n ∎

pub store8_self : (a v : ℕ) (m : Memory) → v < 256 → store8 a v m a ≡ v
unfolding store8
store8_self a v m h = ground arith

pub store8_ne : (a v : ℕ) (m : Memory) (c : ℕ) → c ≢ a → store8 a v m c ≡ m c
unfolding store8
store8_ne a v m c h = ground arith

-- Bytes that are not zero, up to one that is, are a string.
pub IsString-bytes_at :
    (m : Memory) (p n : ℕ)
    → ((j : ℕ) → j < n → m (p + j) ≢ 0)
    → m (p + n) ≡ 0
    → IsString m p (bytes_at m p n)
unfolding bytes_at
IsString-bytes_at m p zero h z = ground arith
IsString-bytes_at m p (suc n) h z = (
  refl,
  ground (arith, h 0),
  IsString-bytes_at m (p + 1) n (λ j lt. ground (arith, h (suc j))) (ap m (omega arith) ∙ z),
)

-- What is equal where it lies is the same string, and the same word.
pub IsString-ext :
    (m m' : Memory) (p : ℕ) (cs : List ℕ)
    → ((a : ℕ) → p ≤ a → a ≤ p + length cs → m' a ≡ m a)
    → IsString m p cs
    → IsString m' p cs
IsString-ext m m' p [] h s = h p (omega arith) (omega arith) ∙ s
IsString-ext m m' p (c ∷ cs) h s = (
  h p (omega arith) (omega arith) ∙ s.0,
  s.1,
  IsString-ext m m' (p + 1) cs (λ a lo hi. h a (omega arith) (omega arith)) s.2,
)

pub load32-ext :
    (m m' : Memory) (p : ℕ) → ((a : ℕ) → p ≤ a → a < p + 4 → m' a ≡ m a) → load32 p m' ≡ load32 p m
unfolding load32
load32-ext m m' p h = ground (arith, h p, h (p + 1), h (p + 2), h (p + 3))

pub copied-IsBytes : (m : Memory) (p q n : ℕ) → IsBytes m → IsBytes (copied m p q n)
copied-IsBytes m p q n w a = ground (arith, w a, w (p + (a - q)))

pub store32-off : (a v : ℕ) (m : Memory) (b : ℕ) → (b < a) ⊎ (a + 4 ≤ b) → store32 a v m b ≡ m b
unfolding store32
store32-off a v m b off = ground arith
