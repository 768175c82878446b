-- ===== src/Tests/Builder.antt =====
-- Runs of build.c as a program: on a disk with room, and on one that takes only part of a write.
use zeos.Common.{
  ◌≡◌, refl, arith, some, none, Option, List, [], ◌∷◌, chars, get_or, ◌==◌, if◌then◌else◌, String,
  false,
}
use zeos.Build.{File, build}
use zeos.Build.Program.{Os, program}
use zeos.Build.Program.Exits.{Ends}
use zeos.Build.Program.Complete.{IsBuilt, program-Ends, start}
use zeos.Build.Program.Works.{Works, Agree}
use zeos.Build.Program.Agrees.{program-Agree}
use zeos.Tests.Sector.{boot_file}

abbrev system : File
system = record { st_size = 3; bytes = 7 ∷ 8 ∷ 9 ∷ [] }

abbrev user : File
user = record { st_size = 2; bytes = 5 ∷ 6 ∷ [] }

-- By the first letter of the name: "bootsect", "system", "user".
abbrev files : String → Option File
files name =
    let c = get_or (chars name) 0 0 in
    if c == 98
    then some boot_file
    else if c == 115
    then some system
    else if c == 117
    then some user
    else none

abbrev argv : List String
argv = "build" ∷ "bootsect" ∷ "system" ∷ "user" ∷ []

abbrev roomy : Os
roomy = record {
  opens = files;
  fstat_fails = λ k. false;
  read_fails = λ k. false;
  lseek_fails = λ k. false;
  write_takes = λ k. some 4096;
}

roomy-Works : Works roomy
roomy-Works = record {
  stats = λ k. refl;
  reads = λ k. refl;
  seeks = λ k. refl;
  takes = λ k. (4096, refl, omega arith);
}

program-Agree_example :
    Agree
      (λ image w. image ≡ w.out)
      (build (files "bootsect") (files "system") (files "user"))
      (program roomy argv start)
program-Agree_example = program-Agree roomy roomy-Works argv refl

-- The disk is full after the boot sector.
abbrev full : Os
full = record roomy { write_takes = λ k. if k == 2 then some 512 else some 1 }

program-Ends_example : Ends (IsBuilt full argv) (program full argv start)
program-Ends_example = program-Ends full argv
