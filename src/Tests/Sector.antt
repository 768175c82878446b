-- ===== src/Tests/Sector.antt =====
-- A file with a boot sector of zeros and its signature.
use zeos.Common.{ℕ, zero, suc, ◌≡◌, refl, some, List, [], ◌∷◌, ◌++◌}
use zeos.Build.{File, ok, minix_hdr, minix_open, boot_sector}

abbrev pub zeros : ℕ → List ℕ
zeros zero = []
zeros (suc n) = 0 ∷ zeros n

abbrev pub sector : List ℕ
sector = zeros 510 ++ 0x55 ∷ 0xaa ∷ []

abbrev pub boot_file : File
boot_file = record { st_size = 544; bytes = minix_hdr ++ (zeros 24 ++ sector) }

pub opened : minix_open (some boot_file) ≡ ok sector
unfolding minix_open
opened = refl

pub accepted : boot_sector sector ≡ ok sector
unfolding boot_sector
accepted = refl
