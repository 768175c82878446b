-- ===== src/UserProgram/Run.antt =====
-- The whole program.
use zeos.Common.{
  ℕ, ◌<◌, ◌≡◌, ◌≢◌, refl, ap, ◌∙◌, arith, List, [], ◌∷◌, ◌++◌, ℤ, pos, negsuc, some, String, chars,
}
use zeos.Io.Print.{IsValid}
use zeos.Itoa.Decimal.{decimal}
use zeos.Sys.Errors.{wrong_fd, null_buffer, negative}
use zeos.Errno.{errno_message}
use zeos.Syscall.{User}
use zeos.Libc.Print.{KernelBuffer}
use zeos.Libc.Output.{Output, Output-trans}
use zeos.UserProgram.{Literals, user_main, try_write, hello_text, alive_text, ◌>>=◌}
use zeos.UserProgram.Messages.{
  Holds, Holds-Output, Stack, test_line, printlntest-Output, try_write-Output,
}

-- The literals that the program reads are in the user's memory.
pub record Loaded (lo hi fuel : ℕ) (at : Literals) (u : User) : Type 0 where
  pub hello : Holds lo hi fuel u at.hello hello_text
  pub alive : Holds lo hi fuel u at.alive alive_text
  pub open_bracket : Holds lo hi fuel u at.open_bracket " ("
  pub bytes_text : Holds lo hi fuel u at.bytes_text " bytes)"
  pub bad_file : Holds lo hi fuel u (at.message_at 9) (errno_message 9)
  pub invalid : Holds lo hi fuel u (at.message_at 22) (errno_message 22)

Loaded-Output :
    {lo hi fuel : ℕ} {at : Literals} {u v : User} {cs : List ℕ} {e : ℤ}
    → Output lo hi u cs e v
    → Loaded lo hi fuel at u
    → Loaded lo hi fuel at v
Loaded-Output {at} o l = record {
  hello = Holds-Output at.hello hello_text o l.hello;
  alive = Holds-Output at.alive alive_text o l.alive;
  open_bracket = Holds-Output at.open_bracket " (" o l.open_bracket;
  bytes_text = Holds-Output at.bytes_text " bytes)" o l.bytes_text;
  bad_file = Holds-Output (at.message_at 9) (errno_message 9) o l.bad_file;
  invalid = Holds-Output (at.message_at 22) (errno_message 22) o l.invalid;
}

-- All that the program prints.
abbrev pub transcript : String
transcript =
    "\nHello ZeOS from user! (22 bytes)\n\nIf you read this message, I'm alive (36 bytes)\nBad file number\nInvalid argument\nInvalid argument\n"

refused : List ℕ
refused =
    (chars (errno_message 9) ++ 10 ∷ [])
    ++ ((chars (errno_message 22) ++ 10 ∷ []) ++ (chars (errno_message 22) ++ 10 ∷ []))

printed : List ℕ
unfolding refused
printed = test_line hello_text ++ (test_line alive_text ++ refused)

printed-transcript : printed ≡ chars transcript
unfolding printed decimal errno_message
printed-transcript = refl

module _ (buff ticks fuel : ℕ) (at : Literals) (lo hi itoa_buff slot : ℕ) (k : KernelBuffer buff)
    (stack : Stack lo hi itoa_buff slot) (enough : 10 < fuel) where
  -- The three calls of `write` that fail.
  refusals :
      (u : User)
      → IsValid u.console
      → Loaded lo hi fuel at u
      → at.alo < 4294967296
      → at.alo2 < 4294967296
      → at.alo2 ≢ 0
      → (after : User) × ((try_write buff ticks fuel at itoa_buff slot (pos 0) at.alo (pos 3) u
            >>= λ u1.
                (try_write buff ticks fuel at itoa_buff slot (pos 1) 0 (pos 3) u1 >>= λ u2.
                try_write buff ticks fuel at itoa_buff slot (pos 1) at.alo2 (negsuc 0) u2))
          ≡ some after)
        × Output lo hi u refused (pos 22) after
  unfolding refused
  refusals u v l ha ha2 nz =
      let (u3, e3, o3) =
        try_write-Output buff ticks fuel at lo hi itoa_buff slot k stack enough (pos 0) at.alo
          (pos 3) 8 (errno_message 9) u v ha (omega arith) (wrong_fd (ground arith)) (omega arith)
          l.bad_file in
      let l3 = Loaded-Output o3 l in
      let (u4, e4, o4) =
        try_write-Output buff ticks fuel at lo hi itoa_buff slot k stack enough (pos 1) 0 (pos 3) 21
          (errno_message 22) u3 o3.valid (omega arith) (omega arith) (null_buffer refl refl)
          (omega arith) l3.invalid in
      let l4 = Loaded-Output o4 l3 in
      let (u5, e5, o5) =
        try_write-Output buff ticks fuel at lo hi itoa_buff slot k stack enough (pos 1) at.alo2
          (negsuc 0) 21 (errno_message 22) u4 o4.valid ha2 (omega arith) (negative refl nz refl)
          (omega arith) l4.invalid in
      (u5, rw e3 (rw e4 e5), Output-trans o3 (Output-trans o4 o5))

  -- Let the literals be in user space, away from the process's stack and shorter than the fuel,
  -- which is above ten; let the addresses of "alo" and "alo2" have 32 bits, that of "alo2" not be
  -- null, and the kernel's local array lie off the screen. On a valid console the program comes to
  -- its last loop: its messages have been printed with their lengths, and behind them those of the
  -- three calls of `write` that fail; `errno` is 22, EINVAL, and the console is valid.
  pub user_main_lem :
      (u : User)
      → IsValid u.console
      → Loaded lo hi fuel at u
      → at.alo < 4294967296
      → at.alo2 < 4294967296
      → at.alo2 ≢ 0
      → (after : User) × (user_main buff ticks fuel at itoa_buff slot u ≡ some after)
        × (after.console.port_e9 ≡ u.console.port_e9 ++ chars transcript)
        × (after.errno ≡ pos 22)
        × IsValid after.console
  unfolding user_main printed
  user_main_lem u v l ha ha2 nz =
      let (u1, e1, o1) =
        printlntest-Output buff ticks fuel at lo hi itoa_buff slot k stack enough at.hello
          hello_text u v l.hello l.open_bracket l.bytes_text (omega arith) in
      let l1 = Loaded-Output o1 l in
      let (u2, e2, o2) =
        printlntest-Output buff ticks fuel at lo hi itoa_buff slot k stack enough at.alive
          alive_text u1 o1.valid l1.alive l1.open_bracket l1.bytes_text (omega arith) in
      let l2 = Loaded-Output o2 l1 in
      let (u5, e5, o5) = refusals u2 o2.valid l2 ha ha2 nz in
      let o = Output-trans o1 (Output-trans o2 o5) in
      (
        u5,
        rw e1 (rw e2 e5),
        o.port ∙ ap (λ t. u.console.port_e9 ++ t) printed-transcript,
        o.errno,
        o.valid,
      )
