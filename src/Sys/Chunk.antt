-- ===== src/Sys/Chunk.antt =====
-- One chunk of `sys_write`, and consoles that differ in the local buffer only.
use zeos.Common.{
  ℕ, ◌+◌, ◌-◌, ◌<◌, ◌≤◌, ◌≡◌, ◌⊎◌, refl, ap, ◌∙◌, arith, pos, List, [], ◌∷◌, holds_from,
  holds_from-all, true, false, none, some, Bool-cases, inl, inr,
}
use zeos.Memory.{Memory, bytes_at, store16}
use zeos.Memory.Laws.{bytes_at_ext, copied}
use zeos.Io.{Console, printc, print_all}
use zeos.Io.Print.{IsValid, print_all-IsValid}
use zeos.Utils.{copy_from_user}
use zeos.Utils.Copy.{copy_data-copied, copy_from_user-eq-copy_data}
use zeos.Devices.{sys_write_console}
use zeos.Devices.Laws.{BlockOff, sys_write_console_lem}
use zeos.Sys.{Writing, write_chunk, has_page}

-- `s` and `t` are the same but for the 128 bytes at `buff`.
pub record Agree (buff : ℕ) (s t : Console) : Type 0 where
  same_x : s.x ≡ t.x
  same_y : s.y ≡ t.y
  pub same_port : s.port_e9 ≡ t.port_e9
  pub same_mem : (a : ℕ) → (a < buff) ⊎ (buff + 128 ≤ a) → s.mem a ≡ t.mem a

pub Agree-refl : (buff : ℕ) (s : Console) → Agree buff s s
Agree-refl buff s = record {
  same_x = refl;
  same_y = refl;
  same_port = refl;
  same_mem = λ a o. refl;
}

pub Agree-trans : (buff : ℕ) {s t u : Console} → Agree buff s t → Agree buff t u → Agree buff s u
Agree-trans buff h k = record {
  same_x = h.same_x ∙ k.same_x;
  same_y = h.same_y ∙ k.same_y;
  same_port = h.same_port ∙ k.same_port;
  same_mem = λ a o. h.same_mem a o ∙ k.same_mem a o;
}

printc-Agree : (buff c : ℕ) (s t : Console) → Agree buff s t → Agree buff (printc c s) (printc c t)
unfolding printc
printc-Agree buff c s t h =
    let ex = h.same_x in
    let ey = h.same_y in
    record {
      same_x = ground arith;
      same_y = ground arith;
      same_port = let e = h.same_port in ground arith;
      same_mem = λ a o. unfold store16 in ground (arith, h.same_mem a o);
    }

pub print_all-Agree :
    (buff : ℕ) (cs : List ℕ) (s t : Console)
    → Agree buff s t
    → Agree buff (print_all cs s) (print_all cs t)
unfolding print_all
print_all-Agree buff [] s t h = h
print_all-Agree buff (c ∷ cs) s t h =
    print_all-Agree buff cs (printc c s) (printc c t) (printc-Agree buff c s t h)

module _ (buff buffer : ℕ) (stack : BlockOff buff 128) where
  -- The chunk of `n` bytes from `buffer + current` on is printed, and counted.
  pub record Printed (n : ℕ) (w next : Writing) : Type 0 where
    pub valid : IsValid next.console
    pub agree :
        Agree buff next.console
          (print_all (bytes_at w.console.mem (buffer + w.current) n) w.console)
    pub counted : next.written_chars ≡ w.written_chars + n
    same_left : next.left ≡ w.left
    same_current : next.current ≡ w.current

  module _ (n : ℕ) (w : Writing) (small : n ≤ 128) (v : IsValid w.console)
      (apart : (buff + 128 ≤ buffer + w.current) ⊎ (buffer + w.current + n ≤ buff)) where
    abbrev src : ℕ
    src = buffer + w.current

    abbrev filled : Console
    filled = record w.console { mem = copied w.console.mem src buff n }

    filled-bytes : bytes_at filled.mem buff n ≡ bytes_at w.console.mem src n
    filled-bytes = bytes_at_ext filled.mem w.console.mem buff src n (λ i lt. ground arith)

    filled-IsValid : IsValid filled
    filled-IsValid = record {
      column = v.column;
      row = v.row;
      bytes = λ a. ground (arith, v.bytes a, v.bytes (src + (a - buff)));
    }

    filled-Agree : Agree buff filled w.console
    filled-Agree = record {
      same_x = refl;
      same_y = refl;
      same_port = refl;
      same_mem = λ a o. ground arith;
    }

    copied_in : copy_from_user src buff (pos n) w.console.mem ≡ (pos 0, filled.mem)
    copied_in =
        copy_from_user-eq-copy_data src buff (pos n) w.console.mem
        ∙ ap (λ (m : Memory). (pos 0, m))
            (copy_data-copied src buff (pos n) w.console.mem v.bytes (ground arith))

    written :
        sys_write_console buff (pos n) filled
        ≡ (pos n, print_all (bytes_at w.console.mem src n) filled)
    written =
        sys_write_console_lem buff (pos n) filled filled-IsValid (ground arith)
        ∙ ap (λ cs. (pos n, print_all cs filled)) filled-bytes

    write_chunk-Printed :
        holds_from src n has_page ≡ true
        → (next : Writing) × (write_chunk buff buffer n w ≡ some next) × Printed n w next
    unfolding write_chunk
    write_chunk-Printed pages = (
      record w {
        written_chars = w.written_chars + n;
        console = print_all (bytes_at w.console.mem src n) filled;
      },
      rw (copied_in, written, pages) refl,
      record {
        valid = print_all-IsValid (bytes_at w.console.mem src n) filled filled-IsValid;
        agree = print_all-Agree buff (bytes_at w.console.mem src n) filled w.console filled-Agree;
        counted = refl;
        same_left = refl;
        same_current = refl;
      },
    )

    write_chunk-faults : holds_from src n has_page ≡ false → write_chunk buff buffer n w ≡ none
    unfolding write_chunk
    write_chunk-faults pages = rw pages refl

    pages_of : 0x100000 ≤ src → src + n ≤ 0x11c000 → holds_from src n has_page ≡ true
    pages_of lo hi = holds_from-all src n has_page (λ a l h. ground arith)

    -- The chunk is printed, or a page of it is missing.
    pub write_chunk-cases :
        0x100000 ≤ src
        → ((next : Writing) × (write_chunk buff buffer n w ≡ some next) × Printed n w next)
          ⊎ ((write_chunk buff buffer n w ≡ none) × (0x11c000 < src + n))
    write_chunk-cases lo = elim (Bool-cases (holds_from src n has_page)) [
      | inl pages ↦ inl (write_chunk-Printed pages)
      | inr missing ↦ inr (write_chunk-faults missing, ground (arith, pages_of lo))
    ]
