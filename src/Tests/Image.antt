-- ===== src/Tests/Image.antt =====
-- A run of the image builder, on a boot sector of zeros with its signature.
use zeos.Common.{ℕ, ◌≡◌, arith, some, List, [], ◌∷◌, ◌++◌}
use zeos.Build.{File, ok, build}
use zeos.Build.Image.{IsImage, build-IsImage}
use zeos.Tests.Sector.{sector, boot_file, opened, accepted}

abbrev system : File
system = record { st_size = 3; bytes = 7 ∷ 8 ∷ 9 ∷ [] }

abbrev user : File
user = record { st_size = 2; bytes = 5 ∷ 6 ∷ [] }

build-IsImage_example :
    (image : List ℕ) × (build (some boot_file) (some system) (some user) ≡ ok image)
    × IsImage ((sector ++ 7 ∷ 8 ∷ 9 ∷ []) ++ 5 ∷ 6 ∷ []) 3 2 image
build-IsImage_example =
    build-IsImage (some boot_file) system user sector sector opened accepted (omega arith)
      (omega arith) (omega arith)
