-- ===== src/Keyboard.antt =====
-- keyboard.c: the service routine of the keyboard interrupt. The byte that `inb(0x60)` reads is an
-- argument.
pub mod Routine
pub mod Code
use zeos.Common.{
  ℕ, zero, suc, ◌+◌, ◌/◌, ◌%◌, Bool, true, false, ltb, ◌==◌, if◌then◌else◌, List, [], ◌∷◌, Option,
  none, some, length, get_or,
}
use zeos.Io.{Console, printc, printc_xy}

-- char_map, by the codes of its characters
abbrev pub char_map : List ℕ
char_map =
    0 ∷ 0 ∷ 49 ∷ 50 ∷ 51 ∷ 52 ∷ 53 ∷ 54 ∷ 55 ∷ 56 ∷ 57 ∷ 48 ∷ 39 ∷ 0 ∷ 0 ∷ 0 ∷ 113 ∷ 119 ∷ 101 ∷ 114
    ∷ 116 ∷ 121 ∷ 117 ∷ 105 ∷ 111 ∷ 112 ∷ 96 ∷ 43 ∷ 0 ∷ 0 ∷ 97 ∷ 115 ∷ 100 ∷ 102 ∷ 103 ∷ 104 ∷ 106
    ∷ 107 ∷ 108 ∷ 0 ∷ 0 ∷ 0 ∷ 0 ∷ 0 ∷ 122 ∷ 120 ∷ 99 ∷ 118 ∷ 98 ∷ 110 ∷ 109 ∷ 44 ∷ 46 ∷ 45 ∷ 0 ∷ 42
    ∷ 0 ∷ 0 ∷ 0 ∷ 0 ∷ 0 ∷ 0 ∷ 0 ∷ 0 ∷ 0 ∷ 0 ∷ 0 ∷ 0 ∷ 0 ∷ 0 ∷ 0 ∷ 55 ∷ 56 ∷ 57 ∷ 45 ∷ 52 ∷ 53 ∷ 54
    ∷ 43 ∷ 49 ∷ 50 ∷ 51 ∷ 48 ∷ 0 ∷ 0 ∷ 0 ∷ 60 ∷ 0 ∷ 0 ∷ 0 ∷ 0 ∷ 0 ∷ 0 ∷ 0 ∷ 0 ∷ 0 ∷ 0 ∷ 0 ∷ []

-- `char_map[i]`; `none` is a read behind the array.
unfoldable char_at : ℕ → Option ℕ
char_at i = if ltb i (length char_map) then some (get_or char_map i 0) else none

-- What `keyboard_routine` shows for an entry of the map: 'C' for the entries that are zero.
abbrev pub shown_char : ℕ → ℕ
shown_char c = if c == 0 then 67 else c

-- `make` is the upper bit clear, `code` the lower seven bits.
unfoldable pub keyboard_routine : (event : ℕ) → Console → Option Console
unfolding char_at
keyboard_routine event s =
    let make = event / 128 == 0 in
    let code = event % 128 in
    if make
    then elim (char_at code) [ none ↦ none | some c ↦ some (printc_xy 79 24 (shown_char c) s) ]
    else some s

-- `print_code`; `none` is a loop that does not end in `fuel` rounds.
unfoldable pub print_code : (fuel c : ℕ) → Console → Option Console
print_code zero c s = none
print_code (suc fuel) c s =
    let rest = print_code fuel (c / 10) (printc (48 + c % 10) s) in
    if ltb 0 c then rest else some (printc 32 s)
