-- ===== src/Devices.antt =====
-- devices.c: writing a buffer to the console.
pub mod Laws
use zeos.Common.{ℕ, zero, suc, ◌+◌, ℤ, pos_part}
use zeos.Io.{Console, printc}

-- The loop of `sys_write_console`, with the address of `buffer[i]` and the rounds left. Each round
-- reads the buffer from memory.
unfoldable pub write_loop : (left p : ℕ) → Console → Console
write_loop zero p s = s
write_loop (suc left) p s = write_loop left (p + 1) (printc (s.mem p) s)

-- No round is made for a negative size.
unfoldable pub sys_write_console : (buffer : ℕ) → (size : ℤ) → Console → ℤ × Console
unfolding write_loop
sys_write_console buffer size s = (size, write_loop (pos_part size) buffer s)
