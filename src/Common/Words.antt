-- ===== src/Common/Words.antt =====
-- Unsigned machine words: the casts to a width, and the bits of a word as a field.
use Prim.Native.Nat.{ℕ, ◌*◌, ◌/◌, ◌%◌, ◌^◌}

abbrev pub u8 : ℕ → ℕ
u8 n = n % 256

abbrev pub u16 : ℕ → ℕ
u16 n = n % 65536

abbrev pub u32 : ℕ → ℕ
u32 n = n % 4294967296

infixl 75 ◌<<<◌ ◌>>>◌
abbrev pub ◌<<<◌ : ℕ → ℕ → ℕ
x <<< k = x * 2 ^ k

abbrev pub ◌>>>◌ : ℕ → ℕ → ℕ
x >>> k = x / 2 ^ k

-- highWord, lowWord, midByte and highByte of include/types.h
abbrev pub high_word : ℕ → ℕ
high_word address = address / 65536 % 65536

abbrev pub low_word : ℕ → ℕ
low_word address = address % 65536

abbrev pub mid_byte : ℕ → ℕ
mid_byte address = address / 65536 % 256

abbrev pub high_byte : ℕ → ℕ
high_byte address = address / 16777216 % 256
