-- ===== src/Io.antt =====
-- io.c: the text console. The screen is memory, 80 columns by 25 rows of words from 0xb8000 on;
-- `x` and `y` are the cursor; every character is also sent to the debug port 0xe9 of Bochs.
pub mod Print
pub mod Screen
pub mod Numbers
use zeos.Common.{
  ℕ, zero, suc, ◌+◌, ◌*◌, ◌%◌, Bool, true, false, ltb, leb, ◌==◌, if◌then◌else◌, u8, List, [], ◌∷◌,
  ◌++◌, bit_and, bit_or, Option, none, some,
}
use zeos.Memory.{Memory, store16}
use zeos.Itoa.{kernel_itoa}
use zeos.Common.{ℤ}

abbrev num_columns : ℕ
num_columns = 80

abbrev num_rows : ℕ
num_rows = 25

abbrev pub screen : ℕ
screen = 0xb8000

pub record Console : Type 0 where
  pub x : ℕ
  pub y : ℕ
  pub mem : Memory
  pub port_e9 : List ℕ

-- `'\n'`
abbrev pub newline : ℕ
newline = 10

-- The word for a character: `(Word) (c & 0x00FF) | 0x0200`.
unfoldable pub cell : ℕ → ℕ
cell c = bit_or (bit_and c 0x00ff) 0x0200

-- `c` is the byte of the `char`.
unfoldable pub printc : (c : ℕ) → Console → Console
unfolding cell
printc c s =
    let s = record s { port_e9 = s.port_e9 ++ c ∷ [] } in
    if c == newline
    then record s { x = 0; y = (s.y + 1) % num_rows }
    else let s = record s {
      mem = store16 (screen + 2 * (s.y * num_columns + s.x)) (cell c) s.mem;
    } in
      let s = record s { x = u8 (s.x + 1) } in
      if leb num_columns s.x then record s { x = 0; y = (s.y + 1) % num_rows } else s

unfoldable pub printc_xy : (mx my c : ℕ) → Console → Console
unfolding printc
printc_xy mx my c s =
    let cx = s.x in
    let cy = s.y in
    let s = record s { x = mx; y = my } in let s = printc c s in record s { x = cx; y = cy }

-- `printk` from `string[i]` on, at the address `p`; `none` is a loop that does not end in `fuel`
-- rounds. The string is read again from memory at every round.
unfoldable pub printk : (fuel p : ℕ) → Console → Option Console
unfolding printc
printk zero p s = none
printk (suc fuel) p s =
    let rest = printk fuel (p + 1) (printc (s.mem p) s) in if s.mem p == 0 then some s else rest

-- The characters printed one after the other.
unfoldable pub print_all : List ℕ → Console → Console
unfolding printc
print_all [] s = s
print_all (c ∷ cs) s = print_all cs (printc c s)

-- `printkint`, with the addresses of its local array and of its literal "\n"; `none` is a loop that
-- does not end.
unfoldable pub printkint : (fuel itoa_buff newline_at : ℕ) → (i : ℤ) → Console → Option Console
printkint fuel itoa_buff newline_at i s = elim (kernel_itoa i itoa_buff s.mem) [
  | none ↦ none
  | some m ↦ elim (printk fuel itoa_buff (record s { mem = m })) [
    | none ↦ none
    | some s ↦ printk fuel newline_at s
  ]
]
