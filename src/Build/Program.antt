-- ===== src/Build/Program.antt =====
-- build.c with its arguments, its messages and all of its error exits. What the system calls report is
-- a parameter: which of them fail, and how much a write takes. The state is the standard output with
-- its position, and what has gone to stderr.
pub mod Exits
pub mod Writes
pub mod Copies
pub mod Complete
pub mod Works
pub mod Agrees
use zeos.Common.{
  ℕ, zero, suc, ◌+◌, ◌-◌, ◌*◌, ◌/◌, ◌%◌, Bool, true, false, not, ◌||◌, ltb, ◌==◌, if◌then◌else◌,
  List, [], ◌∷◌, ◌++◌, Option, none, some, length, take, drop, get_or, u32, String, ℤ, pos, negsuc,
  to_int,
}
use zeos.Build.{
  File, Fatal, minix_open, boot_sector, patch, three_bytes, Result, ok, die, usage, unable_to_open,
  unable_to_read_header, unable_to_stat, error_reading, write_call_failed, write_failed,
  seek_failed, image_length_failed, system_length_failed, user_length_failed, unexpected_eof,
  boot_block_size,
}

-- The file system's answers: the file that a name opens, and, by the number of the call, which calls of
-- `fstat`, `read` and `lseek` fail, and how many bytes a write takes at most; `none` is -1.
pub record Os : Type 0 where
  pub opens : String → Option File
  pub fstat_fails : ℕ → Bool
  pub read_fails : ℕ → Bool
  pub lseek_fails : ℕ → Bool
  pub write_takes : ℕ → Option ℕ

-- A number of bytes in kilobytes, as the division of an `int` rounds it.
abbrev pub kilobytes : ℤ → ℤ
kilobytes (pos n) = pos (n / 1024)
kilobytes (negsuc n) = if ltb (n + 1) 1024 then pos 0 else negsuc ((n + 1) / 1024 - 1)

-- What is printed to stderr: numbers as `%d` takes them, and `die` with the name it prints.
pub data Message : Type 0 where
  boot_sector_size : Option ℕ → Message
  system_kb user_kb : ℕ → Message
  image_kb : ℤ → Message
  died : Fatal → Option String → Message

pub record World : Type 0 where
  pub calls : ℕ
  pub out : List ℕ
  pub position : ℕ
  pub stderr : List Message

-- A result, or the exit with status 1.
pub data Outcome (A : Type 0) : Type 0 where
  done : A → Outcome A
  exit : World → Outcome A

infixl 5 ◌>>=◌
abbrev pub ◌>>=◌ : {A B : Type 0} → Outcome A → (A → Outcome B) → Outcome B
done a >>= f = f a
exit w >>= f = exit w

abbrev pub fprintf : Message → World → World
fprintf msg w = record w { stderr = w.stderr ++ msg ∷ [] }

abbrev pub called : World → World
called w = record w { calls = suc w.calls }

-- `die`
unfoldable pub die_with : {A : Type 0} → Fatal → Option String → World → Outcome A
die_with e name w = exit (fprintf (died e name) w)

-- A check of the header or of the boot sector.
abbrev pub checked : {A : Type 0} → Option String → Result A → World → Outcome A
checked name (ok a) w = done a
checked name (die e) w = die_with e name w

module _ (os : Os) where
  -- `write(1, bytes, n) != n`, with its `die`
  unfoldable pub write_or_die : Fatal → List ℕ → World → Outcome World
  write_or_die e bytes w = elim (os.write_takes w.calls) [
    | none ↦ die_with e none (called w)
    | some k ↦
        let taken = take k bytes in
        let w' = record w {
          calls = suc w.calls;
          out = patch w.position taken w.out;
          position = w.position + length taken;
        } in
        if length taken == length bytes then done w' else die_with e none w'
  ]

  -- `lseek(1, offset, SEEK_SET) != offset`, with its `die`
  unfoldable pub seek_or_die : ℕ → World → Outcome World
  seek_or_die offset w =
      if os.lseek_fails w.calls
      then die_with seek_failed none (called w)
      else done (record w { calls = suc w.calls; position = offset })

  -- `read(fd, buf, n)`: -1, or the bytes it delivers
  abbrev pub read : ℕ → List ℕ → World → Option (List ℕ)
  read n rest w = if os.read_fails w.calls then none else some (take n rest)

  -- `minix_open`: the bytes behind the header
  unfoldable pub open_boot : String → World → Outcome (List ℕ × World)
  open_boot name w = elim (os.opens name) [
    | none ↦ die_with unable_to_open (some name) w
    | some f ↦ elim (read 32 f.bytes w) [
      | none ↦ die_with unable_to_read_header (some name) (called w)
      | some buf ↦ do
        rest ← checked (some name) (minix_open (some f)) (called w)
        done (rest, called w)
    ]
  ]

  -- The boot sector's copy, behind `minix_open`.
  unfoldable pub copy_boot : List ℕ → World → Outcome World
  copy_boot rest w = elim (read 1024 rest w) [
    | none ↦ die_with boot_block_size none (fprintf (boot_sector_size none) (called w))
    | some buf ↦ do
      let w = fprintf (boot_sector_size (some (length buf))) (called w)
      sector ← checked none (boot_sector rest) w
      write_or_die write_call_failed sector w
  ]

  -- The loop that copies a file, with `sz` bytes to go.
  unfoldable pub copy_rounds : (fuel sz : ℕ) → String → List ℕ → World → Outcome World
  copy_rounds zero sz name rest w = done w
  copy_rounds (suc fuel) sz name rest w =
      let l = if ltb 1024 sz then 1024 else sz in
      if not (ltb 0 sz) then done w else elim (read l rest w) [
        | none ↦ die_with error_reading (some name) (called w)
        | some buf ↦
            if not (length buf == l) then die_with unexpected_eof (some name) (called w) else do
              w ← write_or_die write_failed buf (called w)
              copy_rounds fuel (sz - l) name (drop l rest) w
      ]

  -- `open` to `close` of the system or the user program, with its message.
  unfoldable pub copy_named : (ℕ → Message) → String → World → Outcome (ℕ × World)
  copy_named msg name w = elim (os.opens name) [
    | none ↦ die_with unable_to_open (some name) w
    | some f ↦ if os.fstat_fails w.calls then die_with unable_to_stat (some name) (called w) else do
      let sz = u32 f.st_size
      w ← copy_rounds sz sz name f.bytes (fprintf (msg (sz / 1024)) (called w))
      done (sz, w)
  ]

  -- One field of the header.
  abbrev pub put : (offset : ℕ) → Fatal → List ℕ → World → Outcome World
  put offset e bytes w = do w ← seek_or_die offset w; write_or_die e bytes w

  unfoldable pub put_header : (sys_size usr_size : ℕ) → World → Outcome World
  put_header sys_size usr_size w = do
    let im_size = u32 (sys_size + usr_size + 15) / 16
    let w = fprintf (image_kb (kilobytes (to_int (u32 (sys_size + usr_size))))) w
    w ← put 500 image_length_failed (im_size % 256 ∷ im_size / 256 % 256 ∷ []) w
    w ← put 512 system_length_failed (three_bytes sys_size) w
    w ← put 516 user_length_failed (three_bytes usr_size) w
    put 520 user_length_failed (three_bytes 0x7e6a) w

  -- `main`, with `argv`
  unfoldable pub program : List String → World → Outcome World
  program argv w = if not (length argv == 4) then die_with usage none w else do
    (rest, w) ← open_boot (get_or argv 1 "") w
    w ← copy_boot rest w
    (sys_size, w) ← copy_named system_kb (get_or argv 2 "") w
    (usr_size, w) ← copy_named user_kb (get_or argv 3 "") w
    put_header sys_size usr_size w
