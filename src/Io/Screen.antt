-- ===== src/Io/Screen.antt =====
-- The console as a terminal: 2000 cells in a ring of rows, and one position.
use zeos.Common.{
  ℕ, zero, suc, ◌+◌, ◌*◌, ◌/◌, ◌%◌, ◌<◌, ◌≤◌, ◌≡◌, ◌≢◌, refl, ap, ◌∙◌, List, [], ◌∷◌, arith, true,
  ◌==◌,
}
use zeos.Common.{if◌then◌else◌, holds_from, holds_from-at, ==_iff, fun_ext, get_or, length}
use zeos.Memory.{Memory, store16}
use zeos.Io.{Console, printc, print_all, screen, cell, newline}
use zeos.Io.Print.{IsValid, printc-IsValid}

pub record Terminal : Type 0 where
  pub cells : ℕ → ℕ
  pub at : ℕ

-- Green on black, and the character.
abbrev pub shown : ℕ → ℕ
shown c = 0x200 + c

-- A newline goes on to the start of the next row, any other character is shown and the position
-- moves on; behind the last row comes the first.
abbrev put : ℕ → Terminal → Terminal
put c t =
    if c == newline
    then record t { at = (t.at / 80 + 1) * 80 % 2000 }
    else record { cells = λ i. if i == t.at then shown c else t.cells i; at = (t.at + 1) % 2000 }

abbrev pub put_all : List ℕ → Terminal → Terminal
put_all [] t = t
put_all (c ∷ cs) t = put_all cs (put c t)

abbrev word_at : Memory → ℕ → ℕ
word_at m i = m (screen + 2 * i) + 256 * m (screen + 2 * i + 1)

abbrev pub view : Console → Terminal
view s = record { cells = word_at s.mem; at = s.y * 80 + s.x }

abbrev pub AreBytes : List ℕ → Type 0
AreBytes [] = Unit {0}
AreBytes (c ∷ cs) = (c < 256) × AreBytes cs

cell_table : holds_from 0 256 (λ c. cell c == shown c) ≡ true
unfolding holds_from cell
cell_table = refl

cell_lem : (c : ℕ) → c < 256 → cell c ≡ shown c
cell_lem c h =
    (==_iff _ _).0
      (holds_from-at 0 256 (λ c. cell c == shown c) c cell_table (omega arith) (omega arith))

printc-cells :
    (c : ℕ) (s : Console) (i : ℕ)
    → c < 256
    → IsValid s
    → (view (printc c s)).cells i ≡ (put c (view s)).cells i
unfolding printc store16
printc-cells c s i hc v = let h = v.column in ground (arith, cell_lem c hc)

printc-at : (c : ℕ) (s : Console) → IsValid s → (view (printc c s)).at ≡ (put c (view s)).at
unfolding printc
printc-at c s v = let h = v.column in let k = v.row in ground arith

printc-view : (c : ℕ) (s : Console) → c < 256 → IsValid s → view (printc c s) ≡ put c (view s)
printc-view c s hc v =
    λ i. record { cells = fun_ext (λ j. printc-cells c s j hc v) i; at = printc-at c s v i }

-- A valid console that prints bytes refines the terminal, which puts them on its cells one after
-- the other.
pub print_all_refines :
    (cs : List ℕ) (s : Console)
    → AreBytes cs
    → IsValid s
    → view (print_all cs s) ≡ put_all cs (view s)
unfolding print_all
print_all_refines [] s b v = refl
print_all_refines (c ∷ cs) s b v =
    print_all_refines cs (printc c s) b.1 (printc-IsValid c s v)
    ∙ ap (put_all cs) (printc-view c s b.0 v)

-- Printable: no newline among them.
abbrev pub NoNewline : List ℕ → Type 0
NoNewline [] = Unit {0}
NoNewline (c ∷ cs) = (c ≢ newline) × NoNewline cs

put_all-at :
    (cs : List ℕ) (t : Terminal)
    → NoNewline cs
    → t.at < 2000
    → (put_all cs t).at ≡ (t.at + length cs) % 2000
put_all-at [] t n h = omega arith
put_all-at (c ∷ cs) t n h = put_all-at cs (put c t) n.1 (ground arith) ∙ let p = n.0 in ground arith

put_all-others :
    (cs : List ℕ) (t : Terminal) (j : ℕ)
    → NoNewline cs
    → t.at < 2000
    → ((i : ℕ) → i < length cs → (t.at + i) % 2000 ≢ j)
    → (put_all cs t).cells j ≡ t.cells j
put_all-others [] t j n h out = refl
put_all-others (c ∷ cs) t j n h out =
    let p = n.0 in
    put_all-others cs (put c t) j n.1 (ground arith) (λ i lt. ground (arith, out (suc i)))
    ∙ ground (arith, out 0)

put_all-shown :
    (cs : List ℕ) (t : Terminal) (i : ℕ)
    → NoNewline cs
    → t.at < 2000
    → length cs ≤ 2000
    → i < length cs
    → (put_all cs t).cells ((t.at + i) % 2000) ≡ shown (get_or cs i 0)
put_all-shown [] t i n h le lt = absurd (omega arith)
put_all-shown (c ∷ cs) t zero n h le lt =
    let p = n.0 in
    put_all-others cs (put c t) ((t.at + 0) % 2000) n.1 (ground arith) (λ i l. ground arith)
    ∙ ground arith
put_all-shown (c ∷ cs) t (suc i) n h le lt =
    let p = n.0 in
    ap (put_all cs (put c t)).cells (ground arith)
    ∙ put_all-shown cs (put c t) i n.1 (ground arith) (omega arith) (omega arith)

-- A valid console that prints at most a screenful of bytes without a newline shows each of them in
-- order from the cursor on, keeps every other cell, and leaves the cursor behind the last.
pub print_all-shown :
    (cs : List ℕ) (s : Console)
    → AreBytes cs
    → NoNewline cs
    → IsValid s
    → length cs ≤ 2000
    → let before = view s in
      let after = view (print_all cs s) in
      (after.at ≡ (before.at + length cs) % 2000)
      × ((i : ℕ) → i < length cs → after.cells ((before.at + i) % 2000) ≡ shown (get_or cs i 0))
      × ((j : ℕ)
          → ((i : ℕ) → i < length cs → (before.at + i) % 2000 ≢ j)
          → after.cells j ≡ before.cells j)
print_all-shown cs s b n v le =
    let h : (view s).at < 2000 = let c = v.column in let r = v.row in omega arith in
    let e = print_all_refines cs s b v in
    (
      ap (λ (t : Terminal). t.at) e ∙ put_all-at cs (view s) n h,
      (λ i lt.
          ap (λ (t : Terminal). t.cells ((s.y * 80 + s.x + i) % 2000)) e
          ∙ put_all-shown cs (view s) i n h le lt),
      λ j out. ap (λ (t : Terminal). t.cells j) e ∙ put_all-others cs (view s) j n h out,
    )
