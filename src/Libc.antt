-- ===== src/Libc.antt =====
-- libc.c: the C library of the user process. The user's memory is that of the console's machine;
-- `slot` is the address of the parameter `c` of `printchar`, `itoa_buff` that of the local array.
pub mod Print
pub mod Output
pub mod Numbers
pub mod Failures
use zeos.Common.{
  ℕ, zero, suc, ◌+◌, Bool, true, false, ◌==◌, if◌then◌else◌, ℤ, pos, negsuc, is_neg, pos_part,
  Option, none, some, List, get_or,
}
use zeos.Memory.{Memory, store8}
use zeos.Io.{Console}
use zeos.Itoa.{itoa}
use zeos.Syscall.{User, user_write}
use zeos.Errno.{message_count}
use zeos.Common.{ltb}

infixl 5 ◌>>=◌
abbrev pub ◌>>=◌ : Option (ℤ × User) → (ℤ × User → Option (ℤ × User)) → Option (ℤ × User)
none >>= f = none
some r >>= f = f r

-- The loop of `strlen` with `i` characters counted; `none` is a loop that does not end.
unfoldable pub strlen_loop : (fuel i a : ℕ) → Memory → Option ℕ
strlen_loop zero i a m = none
strlen_loop (suc fuel) i a m =
    let rest = strlen_loop fuel (i + 1) a m in if m (a + i) == 0 then some i else rest

unfoldable pub strlen : (fuel a : ℕ) → Memory → Option ℕ
strlen fuel a m = strlen_loop fuel 0 a m

-- The memory of the process, and a change of it.
abbrev pub with_mem : Memory → User → User
with_mem m u = record { console = record u.console { mem = m }; errno = u.errno }

abbrev plus_one : ℤ → ℤ
plus_one (pos n) = pos (n + 1)
plus_one (negsuc zero) = pos 0
plus_one (negsuc (suc n)) = negsuc n

module _ (buff zeos_ticks fuel : ℕ) where
  unfoldable pub print : (buffer : ℕ) → User → Option (ℤ × User)
  print buffer u = elim (strlen fuel buffer u.console.mem) [
    | none ↦ none
    | some n ↦ user_write buff zeos_ticks (pos 1) buffer (pos n) u
  ]

  unfoldable pub printchar : (slot c : ℕ) → User → Option (ℤ × User)
  printchar slot c u =
      user_write buff zeos_ticks (pos 1) slot (pos 1) (with_mem (store8 slot c u.console.mem) u)

  unfoldable pub printint : (itoa_buff : ℕ) → (i : ℤ) → User → Option (ℤ × User)
  printint itoa_buff i u = elim (itoa i itoa_buff u.console.mem) [
    | none ↦ none
    | some m ↦ print itoa_buff (with_mem m u)
  ]

  -- What `printintln` and `println` do after the text: a newline, if the text was written.
  unfoldable pub then_newline : (slot : ℕ) → ℤ × User → Option (ℤ × User)
  then_newline slot r =
      let (written, u) = r in
      if is_neg written
      then some (written, u)
      else printchar slot 10 u >>= λ s.
          (if is_neg s.0 then some (s.0, s.1) else some (plus_one written, s.1))

  unfoldable pub printintln : (itoa_buff slot : ℕ) → (i : ℤ) → User → Option (ℤ × User)
  unfolding then_newline
  printintln itoa_buff slot i u = printint itoa_buff i u >>= then_newline slot

  unfoldable pub println : (buffer slot : ℕ) → User → Option (ℤ × User)
  unfolding then_newline
  println buffer slot u = print buffer u >>= then_newline slot

  -- `perror`, with the pointers of `errno_message`; `none` is a read outside of the array.
  unfoldable pub perror : (message_at : ℕ → ℕ) (slot : ℕ) → User → Option User
  perror message_at slot u =
      if is_neg u.errno
      then none
      else if ltb (pos_part u.errno) message_count
      then elim (println (message_at (pos_part u.errno)) slot u) [ none ↦ none | some r ↦ some r.1 ]
      else none
