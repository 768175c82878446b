-- ===== src/Sched.antt =====
-- sched.c: the task array. A task is the address of its `task_struct`; the linker places the array.
pub mod Tasks
use zeos.Hardware.{Cpu}
use zeos.Common.{ℕ, zero, suc, bit_or, ◌+◌, ◌*◌, ◌/◌, u32}

-- `(struct task_struct*)(esp & 0xfffff000)`: the mask clears the lower twelve bits.
unfoldable pub current : (esp : ℕ) → ℕ
current esp = u32 esp / 4096 * 4096

-- `&task[i]`: a `union task_union` is a page, 1024 words of 4 bytes.
abbrev pub task_at : (task i : ℕ) → ℕ
task_at task i = task + 4096 * i

-- KERNEL_ESP: the end of the task's kernel stack.
abbrev pub kernel_esp : (t : ℕ) → ℕ
kernel_esp t = t + 4 * 1024

-- `current()->PID`, for the field at each task's address
unfoldable pub sys_getpid : (esp : ℕ) → (pid : ℕ → ℕ) → ℕ
unfolding current
sys_getpid esp pid = pid (current esp)

-- `cpu_idle`: interrupts on, and then a loop that does nothing and does not end.
abbrev cpu_idle : Cpu → Cpu
cpu_idle c = record c { e_flags = bit_or c.e_flags 0x200 }
