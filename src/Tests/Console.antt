-- ===== src/Tests/Console.antt =====
-- Runs of the console, of the copies and of the numerals.
use zeos.Common.{
  ℕ, ◌+◌, ◌*◌, ◌/◌, ◌%◌, ◌<◌, ◌≤◌, ◌≡◌, ◌≢◌, ◌↔◌, arith, pos, pos_part, some, none, List, [], ◌∷◌,
  length, get_or,
}
use zeos.Memory.{Memory}
use zeos.Memory.Laws.{copied}
use zeos.Io.{print_all}
use zeos.Io.Screen.{AreBytes, NoNewline, view, put_all, shown, print_all_refines, print_all-shown}
use zeos.Itoa.{itoa}
use zeos.Itoa.Text.{IsNumeral, itoa-IsNumeral}
use zeos.Utils.{copy_data, access_ok, get_ticks}
use zeos.Utils.Copy.{copy_data-copied}
use zeos.Utils.Access.{access_ok_iff, get_ticks_lem}
use zeos.Keyboard.{keyboard_routine}
use zeos.Keyboard.Routine.{keyboard_routine-none}
use zeos.Tests.Machine.{text, console, text-IsBytes, console-IsValid}

abbrev hij : List ℕ
hij = 104 ∷ 105 ∷ 106 ∷ []

hij-AreBytes : AreBytes hij
hij-AreBytes = (omega arith, (omega arith, (omega arith, tt)))

hij-NoNewline : NoNewline hij
hij-NoNewline = (ground arith, (ground arith, (ground arith, tt)))

print_all_refines_example : view (print_all hij console) ≡ put_all hij (view console)
print_all_refines_example = print_all_refines hij console hij-AreBytes console-IsValid

print_all-shown_example :
    ((view (print_all hij console)).at ≡ ((view console).at + length hij) % 2000)
    × ((i : ℕ)
        → i < length hij
        → (view (print_all hij console)).cells (((view console).at + i) % 2000)
          ≡ shown (get_or hij i 0))
    × ((j : ℕ)
        → ((i : ℕ) → i < length hij → ((view console).at + i) % 2000 ≢ j)
        → (view (print_all hij console)).cells j ≡ (view console).cells j)
print_all-shown_example =
    print_all-shown hij console hij-AreBytes hij-NoNewline console-IsValid (omega arith)

itoa-IsNumeral_example :
    (n : ℕ) × (after : Memory) × (itoa (pos 1023) 0x5000 text ≡ some after)
    × (n ≤ 10)
    × IsNumeral 10 1023 0x5000 n text after
itoa-IsNumeral_example = itoa-IsNumeral 1023 0x5000 text text-IsBytes (omega arith)

copy_data-copied_example :
    copy_data 0x100000 0x9000 (pos 7) text ≡ copied text 0x100000 0x9000 (pos_part (pos 7))
copy_data-copied_example = copy_data-copied 0x100000 0x9000 (pos 7) text text-IsBytes (omega arith)

access_ok_iff_example :
    (access_ok (pos 0) 0x11b000 0x1fff ≡ pos 1)
    ↔ ((0x100000 ≤ 0x11b000) × (0x11b000 + 0x1fff < 0x11d000))
access_ok_iff_example = access_ok_iff (pos 0) 0x11b000 0x1fff (omega arith) (omega arith)

get_ticks_lem_example : get_ticks 5 1000 ≡ (1000 * 4294967296 + 5) / 109000 % 4294967296
get_ticks_lem_example = get_ticks_lem 5 1000 (omega arith)

keyboard_routine-none_example : (keyboard_routine 100 console ≡ none) ↔ ((98 ≤ 100) × (100 < 128))
keyboard_routine-none_example = keyboard_routine-none 100 console (omega arith)
