-- ===== src/UserProgram.antt =====
-- user.c: the program of the first process, up to its last, endless loop. Its string literals lie at
-- addresses that the linker chooses; what `write` returns is looked at only for its sign.
pub mod Messages
pub mod Run
use zeos.Common.{
  ℕ, Bool, true, false, if◌then◌else◌, ℤ, pos, negsuc, is_neg, Option, none, some, String,
}
use zeos.Syscall.{User, user_write}
use zeos.Libc.{print, printint, println, perror}

pub record Literals : Type 0 where
  pub hello : ℕ
  pub alive : ℕ
  pub open_bracket : ℕ
  pub bytes_text : ℕ
  pub alo : ℕ
  pub alo2 : ℕ
  -- `errno_message`
  pub message_at : ℕ → ℕ

abbrev pub hello_text : String
hello_text = "\nHello ZeOS from user!"

abbrev pub alive_text : String
alive_text = "\nIf you read this message, I'm alive"

infixl 5 ◌>>=◌
abbrev pub ◌>>=◌ : {A B : Type 0} → Option A → (A → Option B) → Option B
none >>= f = none
some a >>= f = f a

module _ (buff zeos_ticks fuel : ℕ) (at : Literals) (itoa_buff slot : ℕ) where
  -- `print(" ("); printint(written); println(" bytes)");`
  unfoldable print_size : (written : ℤ) → User → Option User
  print_size written u = do
    (_, u) ← print buff zeos_ticks fuel at.open_bracket u
    (_, u) ← printint buff zeos_ticks fuel itoa_buff written u
    (_, u) ← println buff zeos_ticks fuel at.bytes_text slot u
    some u

  unfoldable pub printlntest : (buffer : ℕ) → User → Option User
  unfolding print_size
  printlntest buffer u = do
    (written, u) ← print buff zeos_ticks fuel buffer u
    if is_neg written then some u else print_size written u

  -- `written = write(fd, buffer, size); if (written < 0) perror();`
  unfoldable pub try_write : (fd : ℤ) (buffer : ℕ) (size : ℤ) → User → Option User
  try_write fd buffer size u = do
    (written, u) ← user_write buff zeos_ticks fd buffer size u
    if is_neg written then perror buff zeos_ticks fuel at.message_at slot u else some u

  unfoldable pub user_main : User → Option User
  user_main u = do
    u ← printlntest at.hello u
    u ← printlntest at.alive u
    u ← try_write (pos 0) at.alo (pos 3) u
    u ← try_write (pos 1) 0 (pos 3) u
    try_write (pos 1) at.alo2 (negsuc 0) u
