-- ===== src/UserProgram/Messages.antt =====
-- The steps of the program: a message with its length, and a failing `write` with its message.
use zeos.Common.{
  ℕ, suc, ◌+◌, ◌<◌, ◌≤◌, ◌≡◌, ◌⊎◌, refl, ◌∙◌, List, [], ◌∷◌, ◌++◌, length, ℤ, pos, negsuc, some,
  String, chars,
}
use zeos.Memory.{IsString}
use zeos.Io.Print.{IsValid}
use zeos.Itoa.Decimal.{decimal}
use zeos.Sys.Errors.{Refused, IsInt}
use zeos.Errno.{message_count}
use zeos.Syscall.{User}
use zeos.Libc.Print.{KernelBuffer, InUser}
use zeos.Libc.Output.{Output, Output-trans, Output-IsString, print-Says, println-Says}
use zeos.Libc.Numbers.{printint-Says}
use zeos.Libc.Failures.{write-Refused, perror-Output}
use zeos.UserProgram.{Literals, printlntest, try_write}

-- A literal in user space, away from the stack [lo, hi), of fewer than `fuel` characters.
pub record Holds (lo hi fuel : ℕ) (u : User) (p : ℕ) (text : String) : Type 0 where
  pub string : IsString u.console.mem p (chars text)
  pub inside : InUser p (length (chars text))
  pub away : (p + length (chars text) < lo) ⊎ (hi ≤ p)
  pub ends : length (chars text) < fuel

pub Holds-Output :
    {lo hi fuel : ℕ} {u v : User} {cs : List ℕ} {e : ℤ} (p : ℕ) (text : String)
    → Output lo hi u cs e v
    → Holds lo hi fuel u p text
    → Holds lo hi fuel v p text
Holds-Output p text o h = record {
  string = Output-IsString p (chars text) o (h.inside.0) h.away h.string;
  inside = h.inside;
  away = h.away;
  ends = h.ends;
}

-- The process's stack, with the local array and the character's slot.
pub record Stack (lo hi itoa_buff slot : ℕ) : Type 0 where
  pub low : 0x100000 ≤ lo
  pub high : hi ≤ 0x11c000
  pub array_low : lo ≤ itoa_buff
  pub array_high : itoa_buff + 11 ≤ hi
  pub slot_low : lo ≤ slot
  pub slot_high : slot < hi

-- What `printlntest` prints of a text.
abbrev pub test_line : String → List ℕ
test_line text =
    chars text ++ (chars " (" ++ (decimal (length (chars text)) ++ (chars " bytes)" ++ 10 ∷ [])))

module _ (buff ticks fuel : ℕ) (at : Literals) (lo hi itoa_buff slot : ℕ) (k : KernelBuffer buff)
    (stack : Stack lo hi itoa_buff slot) (enough : 10 < fuel) where
  pub printlntest-Output :
      (p : ℕ) (text : String) (u : User)
      → IsValid u.console
      → Holds lo hi fuel u p text
      → Holds lo hi fuel u at.open_bracket " ("
      → Holds lo hi fuel u at.bytes_text " bytes)"
      → length (chars text) < 2147483648
      → (after : User) × (printlntest buff ticks fuel at itoa_buff slot p u ≡ some after)
        × Output lo hi u (test_line text) u.errno after
  unfolding printlntest
  printlntest-Output p text u v h open_text bytes_text short =
      let (u1, e1, o1) =
        print-Says buff ticks fuel lo hi k stack.low stack.high p (chars text) u v h.string h.inside
          h.ends in
      let h1 = Holds-Output at.open_bracket " (" o1 open_text in
      let (u2, e2, o2) =
        print-Says buff ticks fuel lo hi k stack.low stack.high at.open_bracket (chars " (") u1
          o1.valid h1.string h1.inside h1.ends in
      let (u3, e3, o3) =
        printint-Says buff ticks fuel lo hi k stack.low stack.high itoa_buff stack.array_low
          stack.array_high enough (length (chars text)) u2 o2.valid short in
      let h3 = Holds-Output at.bytes_text " bytes)" o3 (
        Holds-Output at.bytes_text " bytes)" o2
          (Holds-Output at.bytes_text " bytes)" o1 bytes_text)) in
      let (u4, e4, o4) =
        println-Says buff ticks fuel lo hi k stack.low stack.high slot stack.slot_low
          stack.slot_high at.bytes_text (chars " bytes)") u3 o3.valid h3.string h3.inside h3.ends in
      let o = Output-trans o1 (Output-trans o2 (Output-trans o3 o4)) in
      (
        u4,
        rw e1 (rw e2 (rw e3 (rw e4 refl))),
        record {
          port = o.port;
          errno = o.errno ∙ o3.errno ∙ o2.errno ∙ o1.errno;
          kept = o.kept;
          valid = o.valid;
        },
      )

  pub try_write-Output :
      (fd : ℤ) (buffer : ℕ) (size : ℤ) (code : ℕ) (text : String) (u : User)
      → IsValid u.console
      → buffer < 4294967296
      → IsInt size
      → Refused fd buffer size (negsuc code)
      → suc code < message_count
      → Holds lo hi fuel u (at.message_at (suc code)) text
      → (after : User) × (try_write buff ticks fuel at itoa_buff slot fd buffer size u ≡ some after)
        × Output lo hi u (chars text ++ 10 ∷ []) (pos (suc code)) after
  unfolding try_write
  try_write-Output fd buffer size code text u v hb hs r lt h =
      let (u1, e1, o1) = write-Refused buff ticks lo hi fd buffer size code u v hb hs r in
      let h1 = Holds-Output (at.message_at (suc code)) text o1 h in
      let (u2, e2, o2) =
        perror-Output buff ticks fuel lo hi k stack.low stack.high slot stack.slot_low
          stack.slot_high at.message_at (suc code) (chars text) u1 o1.valid o1.errno lt h1.string
          h1.inside h1.ends in
      (u2, rw e1 (rw e2 refl), Output-trans o1 o2)
