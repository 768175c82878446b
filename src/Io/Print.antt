-- ===== src/Io/Print.antt =====
-- The cursor stays on the screen, the port gets every character, and memory changes on the screen
-- only.
use zeos.Common.{
  ℕ, zero, suc, ◌+◌, ◌*◌, ◌<◌, ◌≤◌, ◌≡◌, ◌⊎◌, refl, sym, ◌∙◌, List, [], ◌∷◌, ◌++◌, arith,
}
use zeos.Common.{append_assoc, append-nil, some, length}
use zeos.Memory.{Memory, IsBytes, IsString, store16}
use zeos.Memory.Laws.{store16-IsBytes}
use zeos.Io.{Console, printc, printc_xy, printk, print_all, screen, cell}

abbrev OnScreen : ℕ → Type 0
OnScreen a = (screen ≤ a) × (a < screen + 4000)

abbrev pub OffScreen : ℕ → Type 0
OffScreen a = (a < screen) ⊎ (screen + 4000 ≤ a)

-- The cursor is a place on the screen, and memory holds bytes.
pub record IsValid (s : Console) : Type 0 where
  pub column : s.x < 80
  pub row : s.y < 25
  pub bytes : IsBytes s.mem

pub printc-IsValid : (c : ℕ) (s : Console) → IsValid s → IsValid (printc c s)
unfolding printc
printc-IsValid c s v = record {
  column = let h = v.column in ground arith;
  row = let h = v.row in ground arith;
  bytes = λ a.
      ground (
        arith,
        v.bytes a,
        store16-IsBytes (screen + 2 * (s.y * 80 + s.x)) (cell c) s.mem v.bytes a,
      );
}

pub printc-off :
    (c : ℕ) (s : Console) (a : ℕ) → IsValid s → OffScreen a → (printc c s).mem a ≡ s.mem a
unfolding printc store16
printc-off c s a v off = let h = v.column in let k = v.row in ground arith

printc-port : (c : ℕ) (s : Console) → (printc c s).port_e9 ≡ s.port_e9 ++ c ∷ []
unfolding printc
printc-port c s = ground arith

-- Printing keeps the console valid.
pub print_all-IsValid : (cs : List ℕ) (s : Console) → IsValid s → IsValid (print_all cs s)
unfolding print_all
print_all-IsValid [] s v = v
print_all-IsValid (c ∷ cs) s v = print_all-IsValid cs (printc c s) (printc-IsValid c s v)

pub print_all-port : (cs : List ℕ) (s : Console) → (print_all cs s).port_e9 ≡ s.port_e9 ++ cs
unfolding print_all
print_all-port [] s = sym (append-nil s.port_e9)
print_all-port (c ∷ cs) s =
    print_all-port cs (printc c s) ∙ rw (printc-port c s) (append_assoc s.port_e9 (c ∷ []) cs)

pub print_all-off :
    (cs : List ℕ) (s : Console) (a : ℕ) → IsValid s → OffScreen a → (print_all cs s).mem a ≡ s.mem a
unfolding print_all
print_all-off [] s a v off = refl
print_all-off (c ∷ cs) s a v off =
    print_all-off cs (printc c s) a (printc-IsValid c s v) off ∙ printc-off c s a v off

-- A character at a place on the screen leaves the cursor where it was, writes to the screen only, and
-- keeps the console valid.
pub printc_xy_lem :
    (mx my c : ℕ) (s : Console)
    → mx < 80
    → my < 25
    → IsValid s
    → IsValid (printc_xy mx my c s)
      × ((printc_xy mx my c s).x ≡ s.x)
      × ((printc_xy mx my c s).y ≡ s.y)
      × ((a : ℕ) → OffScreen a → (printc_xy mx my c s).mem a ≡ s.mem a)
unfolding printc_xy
printc_xy_lem mx my c s hx hy v =
    let at : Console = record s { x = mx; y = my } in
    let w : IsValid at = record { column = hx; row = hy; bytes = v.bytes } in
    (
      record { column = v.column; row = v.row; bytes = (printc-IsValid c at w).bytes },
      refl,
      refl,
      λ a off. printc-off c at a w off,
    )

-- A string off the screen is a string after a character is printed.
IsString-frame :
    (m m' : Memory) (p : ℕ) (cs : List ℕ)
    → ((i : ℕ) → i ≤ length cs → m' (p + i) ≡ m (p + i))
    → IsString m p cs
    → IsString m' p cs
IsString-frame m m' p [] same h = ground (arith, same 0)
IsString-frame m m' p (c ∷ cs) same h = (
  ground (arith, same 0, h.0),
  h.1,
  IsString-frame m m' (p + 1) cs (λ i lt. ground (arith, same (suc i))) h.2,
)

-- `printk` prints the string at `p` and ends, if the string does not lie on the screen.
pub printk_lem :
    (fuel p : ℕ) (cs : List ℕ) (s : Console)
    → IsValid s
    → IsString s.mem p cs
    → (p + length cs < screen) ⊎ (screen + 4000 ≤ p)
    → length cs < fuel
    → printk fuel p s ≡ some (print_all cs s)
unfolding printk print_all
printk_lem zero p cs s v str off h = elim h [ ]
printk_lem (suc fuel) p [] s v str off h = ground arith
printk_lem (suc fuel) p (c ∷ cs) s v str off h =
    let same : (i : ℕ) → i ≤ length cs → (printc c s).mem (p + 1 + i) ≡ s.mem (p + 1 + i) =
      λ i lt. printc-off c s (p + 1 + i) v (omega arith) in
    ground (
      arith,
      printk_lem fuel (p + 1) cs (printc c s) (printc-IsValid c s v)
          (IsString-frame s.mem (printc c s).mem (p + 1) cs same str.2) (omega arith) (omega arith),
    )
