-- ===== src/Memory.antt =====
-- The logical address space: a byte at every address. Words are little endian, as on i386. The
-- program's loads and stores of `Byte`, `Word` and `DWord` objects go through these functions.
pub mod Laws
use zeos.Common.{
  ◌≡◌, ◌≢◌, ℕ, zero, suc, ◌+◌, ◌*◌, ◌/◌, ◌%◌, ◌<◌, ◌==◌, List, [], ◌∷◌, if◌then◌else◌,
}

abbrev pub Memory : Type 0
Memory = ℕ → ℕ

abbrev pub IsBytes : Memory → Type 0
IsBytes m = (a : ℕ) → m a < 256

unfoldable pub store8 : ℕ → ℕ → Memory → Memory
store8 a v m b = if b == a then v % 256 else m b

unfoldable pub store16 : ℕ → ℕ → Memory → Memory
store16 a v m b = if b == a then v % 256 else if b == a + 1 then v / 256 % 256 else m b

unfoldable pub load32 : ℕ → Memory → ℕ
load32 a m = m a + 256 * m (a + 1) + 65536 * m (a + 2) + 16777216 * m (a + 3)

unfoldable pub store32 : ℕ → ℕ → Memory → Memory
store32 a v m b =
    if b == a
    then v % 256
    else if b == a + 1
    then v / 256 % 256
    else if b == a + 2
    then v / 65536 % 256
    else if b == a + 3
    then v / 16777216 % 256
    else m b

-- The `n` bytes from `p` on.
unfoldable pub bytes_at : Memory → ℕ → ℕ → List ℕ
bytes_at m p zero = []
bytes_at m p (suc n) = m p ∷ bytes_at m (p + 1) n

-- The C string at `p`: these characters, then a zero.
abbrev pub IsString : Memory → ℕ → List ℕ → Type 0
IsString m p [] = m p ≡ 0
IsString m p (c ∷ cs) = (m p ≡ c) × (c ≢ 0) × IsString m (p + 1) cs
