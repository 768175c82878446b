-- ===== src/MmAddress.antt =====
-- The distribution of memory, as include/mm_address.h has it.
use zeos.Common.{ℕ, ◌+◌, ◌-◌, ◌*◌, ◌/◌}

abbrev pub total_pages : ℕ
total_pages = 1024

abbrev pub num_pag_kernel : ℕ
num_pag_kernel = 256

abbrev pub num_pag_code : ℕ
num_pag_code = 8

abbrev pub num_pag_data : ℕ
num_pag_data = 20

abbrev pub l_user_start : ℕ
l_user_start = 0x100000

abbrev pub pag_log_init_data : ℕ
pag_log_init_data = l_user_start / 4096

abbrev pub pag_log_init_code : ℕ
pag_log_init_code = pag_log_init_data + num_pag_data

abbrev pub user_first_page : ℕ
user_first_page = l_user_start / 4096

-- L_USER_START+(NUM_PAG_DATA)*0x1000-16
abbrev pub user_esp : ℕ
user_esp = l_user_start + num_pag_data * 0x1000 - 16
