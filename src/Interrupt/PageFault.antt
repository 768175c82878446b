-- ===== src/Interrupt/PageFault.antt =====
-- The page fault message for an address of fewer than eight hexadecimal digits.
use zeos.Common.{
  ℕ, ◌+◌, ◌<◌, ◌≤◌, ◌≡◌, ◌⊎◌, ap, ◌∙◌, arith, List, ◌++◌, some, length, append_assoc, pos, to_int,
}
use zeos.Memory.{Memory, IsBytes, IsString, bytes_at, store8}
use zeos.Memory.Laws.{bytes_at_ext, IsString-bytes_at, store8-IsBytes, store8_ne, length-bytes_at}
use zeos.Io.{Console, printk, print_all, screen}
use zeos.Io.Print.{IsValid, printk_lem, print_all-IsValid, print_all-port}
use zeos.Itoa.{itox}
use zeos.Itoa.Text.{IsNumeral, itox-short}
use zeos.Itoa.Bytes.{digit-visible, numeral-IsBytes}
use zeos.Interrupt.{print_page_fault}

module _ (message buff fuel eip : ℕ) (cs : List ℕ) (s : Console) (v : IsValid s)
    (text : IsString s.mem message cs)
    (text_off : (message + length cs < screen) ⊎ (screen + 4000 ≤ message))
    (buff_off : (buff + 10 < screen) ⊎ (screen + 4000 ≤ buff)) (enough : length cs + 10 < fuel)
    (short : eip < 0x10000000) where
  abbrev after_text : Console
  after_text = print_all cs s

  after_text-IsValid : IsValid after_text
  after_text-IsValid = print_all-IsValid cs s v

  module _ (n : ℕ) (m : Memory) (le : n ≤ 7) (num : IsNumeral 16 eip buff n after_text.mem m)
      (written : itox (pos eip) buff after_text.mem ≡ some m) where
    abbrev ended : Memory
    ended = store8 (buff + 8) 10 m

    abbrev before_digits : Console
    before_digits = record after_text { mem = ended }

    m-IsBytes : IsBytes m
    m-IsBytes =
        numeral-IsBytes 16 eip buff n after_text.mem m (omega arith) num after_text-IsValid.bytes

    digits-IsString : IsString ended buff (bytes_at ended buff n)
    digits-IsString =
        IsString-bytes_at ended buff n
          (λ j lt. ground (
            arith,
            store8_ne (buff + 8) 10 m (buff + j),
            digit-visible (m (buff + j)) 16 (omega arith) (num.digits j lt).0 (num.digits j lt).1,
          ))
          (store8_ne (buff + 8) 10 m (buff + n) (omega arith) ∙ num.ended)

    prints_digits :
        printk fuel buff before_digits ≡ some (print_all (bytes_at ended buff n) before_digits)
    prints_digits =
        printk_lem fuel buff (bytes_at ended buff n) before_digits
          (record {
            column = after_text-IsValid.column;
            row = after_text-IsValid.row;
            bytes = store8-IsBytes (buff + 8) 10 m m-IsBytes;
          })
          digits-IsString (omega (arith, length-bytes_at ended buff n))
          (omega (arith, length-bytes_at ended buff n))

    same_digits : bytes_at ended buff n ≡ bytes_at m buff n
    same_digits =
        bytes_at_ext ended m buff buff n
          (λ i lt. store8_ne (buff + 8) 10 m (buff + i) (omega arith))

    prints_all :
        print_page_fault message buff fuel eip s
        ≡ some (print_all (bytes_at ended buff n) before_digits)
    unfolding print_page_fault
    prints_all =
        let first : printk fuel message s ≡ some after_text =
          printk_lem fuel message cs s v text text_off (omega arith) in
        let int : to_int eip ≡ pos eip = ground arith in
        rw (first, print_page_fault) (rw (int, written) prints_digits)

    port_gets :
        (print_all (bytes_at ended buff n) before_digits).port_e9
        ≡ s.port_e9 ++ (cs ++ bytes_at m buff n)
    port_gets =
        print_all-port (bytes_at ended buff n) before_digits
        ∙ ap (λ t. after_text.port_e9 ++ t) same_digits
        ∙ ap (λ t. t ++ bytes_at m buff n) (print_all-port cs s)
        ∙ append_assoc s.port_e9 cs (bytes_at m buff n)

  -- On a valid console, with the message and the local array off the screen and fuel enough, the
  -- handler prints for an address below 2 ^ 28 the message and the address in hexadecimal, at most
  -- seven digits, and stops there: the newline stored behind them is not printed.
  pub print_page_fault-short :
      (n : ℕ) × (t : Console) × (m : Memory) × (print_page_fault message buff fuel eip s ≡ some t)
      × (n ≤ 7)
      × IsNumeral 16 eip buff n after_text.mem m
      × (t.port_e9 ≡ s.port_e9 ++ (cs ++ bytes_at m buff n))
  print_page_fault-short =
      let (n, m, e, le, num) = itox-short eip buff after_text.mem after_text-IsValid.bytes short in
      (
        n,
        print_all (bytes_at (ended n m le num e) buff n) (before_digits n m le num e),
        m,
        prints_all n m le num e,
        le,
        num,
        port_gets n m le num e,
      )
