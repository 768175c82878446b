-- ===== src/Libc/Numbers.antt =====
-- Printing integers.
use zeos.Common.{ℕ, ◌+◌, ◌<◌, ◌≤◌, ◌≡◌, subst, ◌∙◌, arith, [], ◌∷◌, ◌++◌, length, pos}
use zeos.Memory.{Memory, IsString, bytes_at}
use zeos.Memory.Laws.{length-bytes_at}
use zeos.Io.Print.{IsValid}
use zeos.Itoa.Text.{IsNumeral, itoa-IsNumeral}
use zeos.Itoa.Bytes.{numeral-IsBytes, numeral-IsString}
use zeos.Itoa.Decimal.{decimal, IsNumeral-decimal}
use zeos.Syscall.{User}
use zeos.Libc.{print, printint, printintln, with_mem}
use zeos.Libc.Print.{KernelBuffer}
use zeos.Libc.Output.{Says, print-Says, then_newline-Says}

module _ (buff ticks fuel lo hi : ℕ) (k : KernelBuffer buff) (low : 0x100000 ≤ lo)
    (high : hi ≤ 0x11c000) (itoa_buff : ℕ) (room_low : lo ≤ itoa_buff)
    (room_high : itoa_buff + 11 ≤ hi) (enough : 10 < fuel) where
  -- What `itoa` wrote is a string, and only the array has changed.
  module _ (i n : ℕ) (m : Memory) (u : User) (v : IsValid u.console) (le : n ≤ 10)
      (num : IsNumeral 10 i itoa_buff n u.console.mem m) where
    written-IsValid : IsValid (with_mem m u).console
    written-IsValid = record {
      column = v.column;
      row = v.row;
      bytes = numeral-IsBytes 10 i itoa_buff n u.console.mem m (omega arith) num v.bytes;
    }

    written-IsString : IsString m itoa_buff (bytes_at m itoa_buff n)
    written-IsString = numeral-IsString 10 i itoa_buff n u.console.mem m (omega arith) num

    digits : bytes_at m itoa_buff n ≡ decimal i
    digits = IsNumeral-decimal i itoa_buff n u.console.mem m num le

    print-digits :
        Says lo hi u
          (decimal i)
          (length (decimal i))
          (print buff ticks fuel itoa_buff (with_mem m u))
    print-digits =
        let len = length-bytes_at m itoa_buff n in
        let (after, e, o) =
          print-Says buff ticks fuel lo hi k low high itoa_buff (bytes_at m itoa_buff n)
            (with_mem m u) written-IsValid written-IsString (omega (arith, len))
            (omega (arith, len)) in
        subst (λ cs. Says lo hi u cs (length cs) (print buff ticks fuel itoa_buff (with_mem m u)))
          digits
          (
            after,
            e,
            record {
              port = o.port;
              errno = o.errno;
              kept = λ a ha off. o.kept a ha off ∙ num.kept a (omega arith);
              valid = o.valid;
            },
          )

  -- `printint` of an `int` that is not negative prints its decimal numeral and returns its length.
  pub printint-Says :
      (i : ℕ) (u : User)
      → IsValid u.console
      → i < 2147483648
      → Says lo hi u (decimal i) (length (decimal i)) (printint buff ticks fuel itoa_buff (pos i) u)
  unfolding printint decimal
  printint-Says i u v h =
      let (n, m, e, le, num) = itoa-IsNumeral i itoa_buff u.console.mem v.bytes h in
      rw (e, printint) (print-digits i n m u v le num)

  -- Let the kernel's local array lie in kernel memory off the screen, the local array and the
  -- character's slot on the process's stack, and the fuel be above ten. On a valid console,
  -- `printintln` of an `int` that is not negative prints its decimal numeral and a newline, returns
  -- their length, keeps `errno` and, outside of that stack, the user's memory.
  pub printintln-Says :
      (slot i : ℕ) (u : User)
      → lo ≤ slot
      → slot < hi
      → IsValid u.console
      → i < 2147483648
      → Says lo hi u
          (decimal i ++ 10 ∷ [])
          (length (decimal i) + 1)
          (printintln buff ticks fuel itoa_buff slot (pos i) u)
  unfolding printintln
  printintln-Says slot i u sl sh v h =
      let (mid, e, o) = printint-Says i u v h in
      rw e (
        then_newline-Says buff ticks fuel lo hi k low high slot sl sh (length (decimal i))
          (decimal i) u mid o)
