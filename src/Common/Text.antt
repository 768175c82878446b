-- ===== src/Common/Text.antt =====
-- The characters of a C string literal. `String` has its own constructors.
use Prim.Native.Nat.{ℕ}
use Prim.Native.Char.{code}
use Prim.Native.String.{String}
use mathlib.Core.List.{List, [], ◌∷◌}

abbrev pub chars : String → List ℕ
chars String.[] = []
chars (String.◌∷◌ first rest) = code first ∷ chars rest
