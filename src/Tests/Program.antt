-- ===== src/Tests/Program.antt =====
-- A run of the user program, and of the library's functions for numbers and errors.
use zeos.Common.{
  ℕ, ◌+◌, ◌≡◌, refl, arith, List, [], ◌∷◌, ◌++◌, length, pos, some, chars, ◌==◌, if◌then◌else◌,
}
use zeos.Memory.{Memory}
use zeos.Io.{Console}
use zeos.Io.Print.{IsValid}
use zeos.Itoa.Decimal.{decimal}
use zeos.Errno.{errno_message}
use zeos.Syscall.{User}
use zeos.Libc.{printintln, perror}
use zeos.Libc.Output.{Output, Says}
use zeos.Libc.Numbers.{printintln-Says}
use zeos.Libc.Failures.{perror-Output}
use zeos.UserProgram.{Literals, user_main, hello_text, alive_text}
use zeos.UserProgram.Messages.{Stack}
use zeos.UserProgram.Run.{Loaded, transcript, user_main_lem}
use zeos.Tests.Machine.{console-IsValid, stack-KernelBuffer, user}
use zeos.Tests.Literals.{placed, placed-IsBytes, blank, is_string-IsString}

abbrev literal_bytes : List ℕ
unfolding errno_message
literal_bytes =
    chars hello_text
    ++ 0 ∷ chars alive_text
    ++ 0 ∷ chars " ("
    ++ 0 ∷ chars " bytes)"
    ++ 0 ∷ chars (errno_message 9)
    ++ 0 ∷ chars (errno_message 22)
    ++ 0 ∷ chars "alo"
    ++ 0 ∷ chars "alo2"

abbrev memory : Memory
memory = placed 0x114000 literal_bytes 120 blank

abbrev literals : Literals
literals = record {
  hello = 0x114000;
  alive = 0x114000 + 23;
  open_bracket = 0x114000 + 60;
  bytes_text = 0x114000 + 63;
  alo = 0x114000 + 104;
  alo2 = 0x114000 + 108;
  message_at = λ n. if n == 9 then 0x114000 + 71 else 0x114000 + 87;
}

abbrev process : User
process = record { console = record { x = 0; y = 3; mem = memory; port_e9 = [] }; errno = pos 0 }

process-IsValid : IsValid process.console
unfolding literal_bytes
process-IsValid = record {
  column = omega arith;
  row = omega arith;
  bytes = placed-IsBytes 0x114000 literal_bytes 120 blank refl (λ a. omega arith);
}

stack : Stack 0x113f00 0x113ff0 0x113f80 0x113fa0
stack = record {
  low = omega arith;
  high = omega arith;
  array_low = omega arith;
  array_high = omega arith;
  slot_low = omega arith;
  slot_high = omega arith;
}

literals-Loaded : Loaded 0x113f00 0x113ff0 60 literals process
unfolding errno_message
literals-Loaded = record {
  hello = record {
    string = is_string-IsString memory 0x114000 (chars hello_text) refl;
    inside = (omega arith, omega arith);
    away = omega arith;
    ends = omega arith;
  };
  alive = record {
    string = is_string-IsString memory (0x114000 + 23) (chars alive_text) refl;
    inside = (omega arith, omega arith);
    away = omega arith;
    ends = omega arith;
  };
  open_bracket = record {
    string = is_string-IsString memory (0x114000 + 60) (chars " (") refl;
    inside = (omega arith, omega arith);
    away = omega arith;
    ends = omega arith;
  };
  bytes_text = record {
    string = is_string-IsString memory (0x114000 + 63) (chars " bytes)") refl;
    inside = (omega arith, omega arith);
    away = omega arith;
    ends = omega arith;
  };
  bad_file = record {
    string = is_string-IsString memory (0x114000 + 71) (chars (errno_message 9)) refl;
    inside = (omega arith, omega arith);
    away = omega arith;
    ends = omega arith;
  };
  invalid = record {
    string = is_string-IsString memory (0x114000 + 87) (chars (errno_message 22)) refl;
    inside = (omega arith, omega arith);
    away = omega arith;
    ends = omega arith;
  };
}

user_main_lem_example :
    (after : User) × (user_main 0x9000 7 60 literals 0x113f80 0x113fa0 process ≡ some after)
    × (after.console.port_e9 ≡ [] ++ chars transcript)
    × (after.errno ≡ pos 22)
    × IsValid after.console
user_main_lem_example =
    user_main_lem 0x9000 7 60 literals 0x113f00 0x113ff0 0x113f80 0x113fa0 stack-KernelBuffer stack
      (omega arith) process process-IsValid literals-Loaded (omega arith) (omega arith)
      (ground arith)

printintln-Says_example :
    Says 0x113f00 0x113ff0 user
      (decimal 1023 ++ 10 ∷ [])
      (length (decimal 1023) + 1)
      (printintln 0x9000 7 20 0x113f80 0x113fa0 (pos 1023) user)
printintln-Says_example =
    printintln-Says 0x9000 7 20 0x113f00 0x113ff0 stack-KernelBuffer (omega arith) (omega arith)
      0x113f80 (omega arith) (omega arith) (omega arith) 0x113fa0 1023 user (omega arith)
      (omega arith) console-IsValid (omega arith)

abbrev failed : User
failed = record { console = process.console; errno = pos 9 }

perror-Output_example :
    (after : User) × (perror 0x9000 7 60 literals.message_at 0x113fa0 failed ≡ some after)
    × Output 0x113f00 0x113ff0 failed (chars (errno_message 9) ++ 10 ∷ []) (pos 9) after
unfolding errno_message
perror-Output_example =
    perror-Output 0x9000 7 60 0x113f00 0x113ff0 stack-KernelBuffer (omega arith) (omega arith)
      0x113fa0 (omega arith) (omega arith) literals.message_at 9 (chars (errno_message 9)) failed
      process-IsValid refl (omega arith) literals-Loaded.bad_file.string (omega arith, omega arith)
      (omega arith)

abbrev kernel_console : Console
kernel_console = record { x = 0; y = 3; mem = placed 0x5000 (10 ∷ 0 ∷ []) 2 blank; port_e9 = [] }

kernel_console-IsValid : IsValid kernel_console
kernel_console-IsValid = record {
  column = omega arith;
  row = omega arith;
  bytes = placed-IsBytes 0x5000 (10 ∷ 0 ∷ []) 2 blank refl (λ a. omega arith);
}
