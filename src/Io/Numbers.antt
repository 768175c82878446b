-- ===== src/Io/Numbers.antt =====
-- `printkint`.
use zeos.Common.{ℕ, ◌+◌, ◌<◌, ◌≤◌, ◌≡◌, ◌⊎◌, ap, ◌∙◌, arith, [], ◌∷◌, ◌++◌, append_assoc, some, pos}
use zeos.Memory.{Memory, IsString, bytes_at}
use zeos.Memory.Laws.{length-bytes_at}
use zeos.Itoa.Text.{IsNumeral, itoa-IsNumeral}
use zeos.Itoa.Bytes.{numeral-IsBytes, numeral-IsString, kernel_itoa-eq-itoa}
use zeos.Itoa.Decimal.{decimal, IsNumeral-decimal}
use zeos.Io.{Console, printk, print_all, printkint, screen, newline}
use zeos.Io.Print.{IsValid, printk_lem, print_all-IsValid, print_all-off, print_all-port}

module _ (fuel itoa_buff newline_at : ℕ) (s : Console) (v : IsValid s)
    (buff_off : (itoa_buff + 11 ≤ screen) ⊎ (screen + 4000 ≤ itoa_buff))
    (newline_off : (newline_at + 1 < screen) ⊎ (screen + 4000 ≤ newline_at))
    (apart : (newline_at + 2 ≤ itoa_buff) ⊎ (itoa_buff + 11 ≤ newline_at))
    (literal : IsString s.mem newline_at (newline ∷ [])) (enough : 10 < fuel) where
  module _ (i n : ℕ) (m : Memory) (le : n ≤ 10) (num : IsNumeral 10 i itoa_buff n s.mem m) where
    abbrev written : Console
    written = record s { mem = m }

    written-IsValid : IsValid written
    written-IsValid = record {
      column = v.column;
      row = v.row;
      bytes = numeral-IsBytes 10 i itoa_buff n s.mem m (omega arith) num v.bytes;
    }

    abbrev shown : Console
    shown = print_all (bytes_at m itoa_buff n) written

    prints_digits : printk fuel itoa_buff written ≡ some shown
    prints_digits =
        printk_lem fuel itoa_buff (bytes_at m itoa_buff n) written written-IsValid
          (numeral-IsString 10 i itoa_buff n s.mem m (omega arith) num)
          (omega (arith, length-bytes_at m itoa_buff n))
          (omega (arith, length-bytes_at m itoa_buff n))

    shown-IsValid : IsValid shown
    shown-IsValid = print_all-IsValid (bytes_at m itoa_buff n) written written-IsValid

    -- The literal is where it was.
    same : (a : ℕ) → newline_at ≤ a → a ≤ newline_at + 1 → shown.mem a ≡ s.mem a
    same a lo hi =
        print_all-off (bytes_at m itoa_buff n) written a written-IsValid (omega arith)
        ∙ num.kept a (omega arith)

    prints_newline : printk fuel newline_at shown ≡ some (print_all (newline ∷ []) shown)
    prints_newline =
        printk_lem fuel newline_at (newline ∷ []) shown shown-IsValid
          (
            same newline_at (omega arith) (omega arith) ∙ literal.0,
            literal.1,
            same (newline_at + 1) (omega arith) (omega arith) ∙ literal.2,
          )
          (omega arith) (omega arith)

    port_gets : (print_all (newline ∷ []) shown).port_e9 ≡ s.port_e9 ++ (decimal i ++ newline ∷ [])
    port_gets =
        print_all-port (newline ∷ []) shown
        ∙ ap (λ t. t ++ newline ∷ []) (print_all-port (bytes_at m itoa_buff n) written)
        ∙ append_assoc s.port_e9 (bytes_at m itoa_buff n) (newline ∷ [])
        ∙ ap (λ t. s.port_e9 ++ (t ++ newline ∷ []))
            (IsNumeral-decimal i itoa_buff n s.mem m num le)

  -- On a valid console, with the local array and the literal newline apart from each other and off
  -- the screen, and fuel above ten, `printkint` of an `int` that is not negative prints its decimal
  -- numeral and a newline, and leaves the console valid.
  printkint_lem :
      (i : ℕ)
      → i < 2147483648
      → (after : Console) × (printkint fuel itoa_buff newline_at (pos i) s ≡ some after)
        × (after.port_e9 ≡ s.port_e9 ++ (decimal i ++ newline ∷ []))
        × IsValid after
  unfolding printkint
  printkint_lem i h =
      let (n, m, e, le, num) = itoa-IsNumeral i itoa_buff s.mem v.bytes h in
      (
        print_all (newline ∷ []) (shown i n m le num),
        rw (kernel_itoa-eq-itoa (pos i) itoa_buff s.mem ∙ e, printkint)
            (rw (prints_digits i n m le num) (prints_newline i n m le num)),
        port_gets i n m le num,
        print_all-IsValid (newline ∷ []) (shown i n m le num) (shown-IsValid i n m le num),
      )
