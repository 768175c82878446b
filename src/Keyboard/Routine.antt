-- ===== src/Keyboard/Routine.antt =====
-- What a key event does.
use zeos.Common.{
  ℕ, ◌/◌, ◌%◌, ◌<◌, ◌≤◌, ◌≡◌, refl, arith, Bool, ◌↔◌, true, ltb, leb, ◌&&◌, holds_from,
  holds_from-at, ==_of_eq, ltb_of_lt, none, some, get_or,
}
use zeos.Io.{Console, printc_xy}
use zeos.Io.Print.{IsValid, printc_xy_lem, OffScreen}
use zeos.Keyboard.{char_map, shown_char, keyboard_routine}

-- For a byte from the port, the routine reads behind `char_map` exactly if it is a press of a code
-- from 98 on.
pub keyboard_routine-none :
    (event : ℕ) (s : Console)
    → event < 256
    → (keyboard_routine event s ≡ none) ↔ ((98 ≤ event) × (event < 128))
unfolding keyboard_routine
keyboard_routine-none event s h = ground arith

-- A release changes nothing.
pub keyboard_routine-release :
    (event : ℕ) (s : Console) → event < 256 → 128 ≤ event → keyboard_routine event s ≡ some s
unfolding keyboard_routine
keyboard_routine-release event s h r = ground arith

printable : ℕ → Bool
printable i = let c = shown_char (get_or char_map i 0) in leb 39 c && ltb c 128

printable_table : holds_from 0 98 printable ≡ true
unfolding holds_from printable
printable_table = refl

shows :
    (event : ℕ) (s : Console)
    → event < 98
    → keyboard_routine event s ≡ some (printc_xy 79 24 (shown_char (get_or char_map event 0)) s)
unfolding keyboard_routine
shows event s h =
    let code : event % 128 ≡ event = omega arith in
    rw (==_of_eq (event / 128) 0 (omega arith), code, ltb_of_lt event 98 h)

-- On a valid console, a key press with a code of the map shows one visible character in the last
-- cell of the screen, and leaves the console valid, the cursor where it was, and the memory off the
-- screen alone.
pub keyboard_routine-press :
    (event : ℕ) (s : Console)
    → event < 98
    → IsValid s
    → (c : ℕ) × (after : Console) × (keyboard_routine event s ≡ some after)
      × (after ≡ printc_xy 79 24 c s)
      × (39 ≤ c)
      × (c < 128)
      × IsValid after
      × (after.x ≡ s.x)
      × (after.y ≡ s.y)
      × ((a : ℕ) → OffScreen a → after.mem a ≡ s.mem a)
unfolding keyboard_routine printable
keyboard_routine-press event s h v =
    let c = shown_char (get_or char_map event 0) in
    let p = holds_from-at 0 98 printable event printable_table (omega arith) (omega arith) in
    let l = printc_xy_lem 79 24 c s (omega arith) (omega arith) v in
    (
      c,
      printc_xy 79 24 c s,
      shows event s h,
      refl,
      ground (arith, p),
      ground (arith, p),
      l.0,
      l.1,
      l.2,
      l.3,
    )
