-- ===== src/Tests/Kernel.antt =====
-- Runs of the system calls, of the C library's functions on them, and of the interrupt table.
use zeos.Common.{
  ℕ, ℤ, ◌⊎◌, ◌+◌, ◌*◌, ◌≤◌, ◌≡◌, ◌≢◌, ◌↔◌, inl, refl, arith, pos, some, none, [], ◌++◌,
}
use zeos.Memory.{Memory, bytes_at}
use zeos.Io.{Console, print_all}
use zeos.Itoa.Text.{IsNumeral}
use zeos.Sys.{sys_write, einval}
use zeos.Sys.Write.{Done, sys_write-Done}
use zeos.Sys.Errors.{null_buffer, sys_write-Refused}
use zeos.Syscall.{syscall_handler}
use zeos.Syscall.Dispatch.{syscall_handler-none}
use zeos.Interrupt.{Gate, Handlers, Interrupts, set_idt, print_page_fault}
use zeos.Interrupt.Gates.{IsGate, set_idt_lem}
use zeos.Interrupt.PageFault.{print_page_fault-short}
use zeos.Tests.Machine.{hi, console, console-IsValid, low-IsString, call}

sys_write-Done_example :
    (r : ℤ × Console) × (sys_write 0x9000 (pos 1) 0x100000 (pos 300) console ≡ some r)
    × Done 0x9000 0x100000 300 console console-IsValid
        (inl (omega arith))
        (omega arith)
        (omega arith)
        r
sys_write-Done_example =
    sys_write-Done 0x9000 0x100000 300 console console-IsValid (inl (omega arith)) (omega arith)
      (omega arith) (omega arith) (omega arith)

sys_write-Refused_example : sys_write 0x9000 (pos 1) 0 (pos 5) console ≡ some (einval, console)
sys_write-Refused_example =
    sys_write-Refused 0x9000 (pos 1) 0 (pos 5) console (omega arith) (omega arith)
      (null_buffer refl refl)

syscall_handler-none_example : (syscall_handler (pos 11) call console ≡ none) ↔ (
    (pos 11 ≡ pos 11)
    ⊎ ((pos 11 ≡ pos 4) × (sys_write call.buff call.edx call.ecx call.ebx console ≡ none)))
syscall_handler-none_example = syscall_handler-none (pos 11) call console

print_page_fault-short_example :
    (n : ℕ) × (t : Console) × (m : Memory) × (print_page_fault 0x5000 0x9000 20 0x100ab0 console
      ≡ some t)
    × (n ≤ 7)
    × IsNumeral 16 0x100ab0 0x9000 n (print_all hi console).mem m
    × (t.port_e9 ≡ [] ++ (hi ++ bytes_at m 0x9000 n))
print_page_fault-short_example =
    print_page_fault-short 0x5000 0x9000 20 0x100ab0 hi console console-IsValid low-IsString
      (omega arith) (omega arith) (omega arith) (omega arith)

abbrev handlers : Handlers
handlers = record {
  idt = 0x50000;
  page_fault_handler2 = 0x12345;
  keyboard_handler = 0x23456;
  clock_handler = 0x34567;
}

abbrev no_gate : Gate
no_gate = record { low_offset = 0; segment_selector = 0; flags = 0; high_offset = 0 }

abbrev interrupts : Interrupts
interrupts = record { gates = λ _. no_gate; idtr_base = 0; idtr_limit = 0 }

set_idt_lem_example :
    let after = set_idt (λ g. g) handlers interrupts in
    IsGate 0x12345 0 (after.gates 14)
    × IsGate 0x34567 0 (after.gates 32)
    × IsGate 0x23456 0 (after.gates 33)
    × ((v : ℕ) → v ≢ 14 → v ≢ 32 → v ≢ 33 → after.gates v ≡ no_gate)
    × (after.idtr_limit + 1 ≡ 256 * 8)
set_idt_lem_example =
    set_idt_lem (λ g. g) handlers interrupts (omega arith) (omega arith) (omega arith)
