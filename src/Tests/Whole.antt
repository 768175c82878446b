-- ===== src/Tests/Whole.antt =====
-- The whole way on the image of Tests/Floppy.
use zeos.Bootsect.Start.{bootsect-main}
use zeos.Boot.Run.{Started}
use zeos.Kernel.{clock}
use zeos.Kernel.Invariant.{all_stored}
use zeos.Kernel.Machine.{
  State, Running, console_of, ticks_of, clock_on, Steps, clock_interrupt, stop, next,
}
use zeos.Whole.Runtime.{entered, bootsect-Steps}
use zeos.Entry.Return.{handlers-transparent}
use zeos.Tests.Runs.{no_show, no_show-ShowsClock}
use zeos.Common.{
  ℕ, ◌∷◌, ◌<◌, ◌≤◌, ◌⊎◌, get_or, ◌==◌, pos, ◌+◌, ◌≡◌, if◌then◌else◌, refl, arith, [], ◌++◌, some,
  chars,
}
use zeos.Errno.{errno_message}
use zeos.Syscall.{User}
use zeos.UserProgram.{Literals, hello_text, alive_text}
use zeos.UserProgram.Messages.{Stack}
use zeos.UserProgram.Run.{transcript}
use zeos.Whole.{InProgram, user_linked, run_user, bootsect-user_main}
use zeos.Io.Print.{IsValid}
use zeos.Mm.Paging.{set_user_pages}
use zeos.Boot.{Machine, main}
use zeos.Bootsect.{bootsect}
use zeos.Tests.Machine.{stack-KernelBuffer, registers}
use zeos.Tests.Sector.{sector, boot_file}
use zeos.Tests.Literals.{is_string-IsString}
use zeos.Tests.Floppy.{
  system, user, image, disk, bios, on, image_at, bios-ReadsDisk, packed, on-IsValid, first, has,
  mapped,
}

abbrev lits : Literals
lits = record {
  hello = 0x100000;
  alive = 0x100000 + 23;
  open_bracket = 0x100000 + 60;
  bytes_text = 0x100000 + 63;
  alo = 0x100000 + 104;
  alo2 = 0x100000 + 108;
  message_at = λ n. if n == 9 then 0x100000 + 71 else 0x100000 + 87;
}

in_program : InProgram 0x113f00 0x114000 60 lits user
unfolding errno_message
in_program = record {
  hello = record {
    string = is_string-IsString (user_linked user) 0x100000 (chars hello_text) refl;
    low = omega arith;
    high = omega arith;
    away = omega arith;
    short = omega arith;
  };
  alive = record {
    string = is_string-IsString (user_linked user) (0x100000 + 23) (chars alive_text) refl;
    low = omega arith;
    high = omega arith;
    away = omega arith;
    short = omega arith;
  };
  open_bracket = record {
    string = is_string-IsString (user_linked user) (0x100000 + 60) (chars " (") refl;
    low = omega arith;
    high = omega arith;
    away = omega arith;
    short = omega arith;
  };
  bytes_text = record {
    string = is_string-IsString (user_linked user) (0x100000 + 63) (chars " bytes)") refl;
    low = omega arith;
    high = omega arith;
    away = omega arith;
    short = omega arith;
  };
  bad_file = record {
    string = is_string-IsString (user_linked user) (0x100000 + 71) (chars (errno_message 9)) refl;
    low = omega arith;
    high = omega arith;
    away = omega arith;
    short = omega arith;
  };
  invalid = record {
    string = is_string-IsString (user_linked user) (0x100000 + 87) (chars (errno_message 22)) refl;
    low = omega arith;
    high = omega arith;
    away = omega arith;
    short = omega arith;
  };
}

process_stack : Stack 0x113f00 0x114000 0x113f80 0x113fa0
process_stack = record {
  low = omega arith;
  high = omega arith;
  array_low = omega arith;
  array_high = omega arith;
  slot_low = omega arith;
  slot_high = omega arith;
}

bootsect-user_main_example :
    (k t : Machine) × (after : User) × (bootsect bios 1025 on ≡ some k)
    × (main image_at (λ g. g) (set_user_pages 0x20000) 60 k ≡ some t)
    × Started image_at (λ g. g) (set_user_pages 0x20000) 55 112 k t
    × (run_user image_at 0x9000 7 60 lits 0x113f80 0x113fa0 (pos 0) t ≡ some after)
    × (after.console.port_e9
        ≡ [] ++ chars "Kernel Loaded!    \nEntering user mode...\n" ++ chars transcript)
    × (after.errno ≡ pos 22)
    × IsValid after.console
bootsect-user_main_example =
    bootsect-user_main image_at (λ g. g) (set_user_pages 0x20000) bios 1025 60 (some boot_file)
      system user sector sector image disk bios-ReadsDisk packed on on-IsValid first (omega arith)
      has (omega arith) mapped 0x9000 7 lits 0x113f00 0x114000 0x113f80 0x113fa0 (pos 0)
      stack-KernelBuffer process_stack (omega arith) (omega arith) in_program (omega arith)
      (omega arith) (ground arith)

ready :
    (k t : Machine) × (bootsect bios 1025 on ≡ some k)
    × (k.console.port_e9 ≡ [])
    × (main image_at (λ g. g) (set_user_pages 0x20000) 31 k ≡ some t)
    × Started image_at (λ g. g) (set_user_pages 0x20000) 55 112 k t
    × ((i : ℕ)
        → i < 112
        → (i < 0x13ffc) ⊎ (0x14000 ≤ i)
        → t.console.mem (0x100000 + i) ≡ get_or user.bytes i 0)
ready =
    bootsect-main image_at (λ g. g) (set_user_pages 0x20000) bios 1025 31 (some boot_file) system
      user sector sector image disk bios-ReadsDisk packed on on-IsValid first (omega arith) has
      (omega arith) mapped

abbrev begun : Running
begun = entered ready.1 registers (pos 0)

abbrev scratch : State → ℕ × ℕ × ℕ
scratch s = (1, 2, 3)

abbrev once : Running
once = record begun {
  program = record begun.program {
    commands = begun.program.commands ++ 0x20 ∷ [];
    state = clock_on no_show begun.program.state;
  };
}

ticks : Steps no_show scratch 0x9000 (0x114111, 0x114222) begun (clock ∷ []) once
ticks =
    next (clock_interrupt (handlers-transparent scratch (clock_on no_show) begun.program).1) stop

bootsect-Steps_example :
    IsValid (console_of once)
    × (ticks_of once ≡ 1)
    × ((i : ℕ)
        → i < 112
        → (i < 0x13ffc) ⊎ (0x14000 ≤ i)
        → (console_of once).mem (0x100000 + i)
          ≡ all_stored (clock ∷ []) (user_linked user) (0x100000 + i))
bootsect-Steps_example =
    bootsect-Steps image_at (λ g. g) (set_user_pages 0x20000) bios 1025 31 (some boot_file) system
      user sector sector image disk bios-ReadsDisk packed on on-IsValid first (omega arith) has
      (omega arith) mapped no_show scratch 0x9000 (0x114111, 0x114222) stack-KernelBuffer
      no_show-ShowsClock (omega arith, omega arith) ready.0 ready.1 registers (pos 0) (clock ∷ [])
      once ready.2 ready.4 ticks
