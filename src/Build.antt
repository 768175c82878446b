-- ===== src/Build.antt =====
-- build.c: the disk image from boot sector, system and user program. A file is its bytes and the size
-- that `fstat` reports; a file that cannot be opened is `none`. `read` delivers the bytes that are
-- left, up to the number asked for. Here the other system calls succeed, as on a disk with room;
-- Build.Program has their failures, the arguments and the messages.
pub mod Sector
pub mod Image
pub mod Program
use zeos.Common.{
  ℕ, zero, suc, ◌+◌, ◌-◌, ◌*◌, ◌/◌, ◌%◌, Bool, true, false, not, ◌||◌, ltb, ◌==◌, if◌then◌else◌,
  List, [], ◌∷◌, ◌++◌, Option, none, some, length, take, drop, get_or, u32,
}

pub record File : Type 0 where
  pub st_size : ℕ
  pub bytes : List ℕ

-- The calls of `die`, with their exit.
pub data Fatal : Type 0 where
  unable_to_open unable_to_read_header non_minix_header illegal_data_segment : Fatal
  illegal_bss_segment illegal_symbol_table boot_block_size no_boot_flag unexpected_eof : Fatal
  usage unable_to_stat error_reading write_call_failed write_failed seek_failed : Fatal
  image_length_failed system_length_failed user_length_failed : Fatal

pub data Result (A : Type 0) : Type 0 where
  ok : A → Result A
  die : Fatal → Result A

infixl 5 ◌>>=◌
abbrev pub ◌>>=◌ : {A B : Type 0} → Result A → (A → Result B) → Result B
ok a >>= f = f a
die e >>= f = die e

-- `lb[k]`, a word of the buffer
abbrev pub word : List ℕ → ℕ → ℕ
word buf k =
    get_or buf (4 * k) 0
    + 256 * get_or buf (4 * k + 1) 0
    + 65536 * get_or buf (4 * k + 2) 0
    + 16777216 * get_or buf (4 * k + 3) 0

abbrev pub minix_hdr : List ℕ
minix_hdr = 0x01 ∷ 0x03 ∷ 0x10 ∷ 0x04 ∷ 0x20 ∷ 0x00 ∷ 0x00 ∷ 0x00 ∷ []

abbrev pub same : List ℕ → List ℕ → Bool
same [] [] = true
same (x ∷ xs) (y ∷ ys) = if x == y then same xs ys else false
same _ _ = false

-- `minix_open`: the bytes behind the header.
unfoldable pub minix_open : Option File → Result (List ℕ)
minix_open none = die unable_to_open
minix_open (some f) =
    let buf = take 32 f.bytes in
    if not (length buf == 32)
    then die unable_to_read_header
    else if not (same (take 8 buf) minix_hdr) || not (word buf 5 == 0)
    then die non_minix_header
    else if not (word buf 3 == 0)
    then die illegal_data_segment
    else if not (word buf 4 == 0)
    then die illegal_bss_segment
    else if not (word buf 7 == 0)
    then die illegal_symbol_table
    else ok (drop 32 f.bytes)

-- The boot sector as it is written: the root device's numbers are 0.
unfoldable pub boot_sector : List ℕ → Result (List ℕ)
boot_sector rest =
    let buf = take 1024 rest in
    if not (length buf == 512)
    then die boot_block_size
    else if not (get_or buf 510 0 == 0x55) || not (get_or buf 511 0 == 0xaa)
    then die no_boot_flag
    else ok (take 508 buf ++ 0 ∷ 0 ∷ drop 510 buf)

-- The loop that copies a file: `sz` bytes to go, and the output so far. A kilobyte at most is copied in
-- a round, so `sz` rounds are enough.
unfoldable pub copy_loop : (fuel sz : ℕ) → (rest out : List ℕ) → Result (List ℕ)
copy_loop zero sz rest out = ok out
copy_loop (suc fuel) sz rest out =
    let l = if ltb 1024 sz then 1024 else sz in
    let buf = take l rest in
    let next = copy_loop fuel (sz - l) (drop l rest) (out ++ buf) in
    if ltb 0 sz then (if not (length buf == l) then die unexpected_eof else next) else ok out

unfoldable pub copy_file : Option File → List ℕ → Result (ℕ × List ℕ)
copy_file none out = die unable_to_open
copy_file (some f) out =
    let sz = u32 f.st_size in do out ← copy_loop sz sz f.bytes out; ok (sz, out)

-- `lseek(1, offset, SEEK_SET); write(1, bytes, …)`
unfoldable pub patch : (offset : ℕ) → (bytes out : List ℕ) → List ℕ
patch zero [] out = out
patch zero (b ∷ bytes) [] = b ∷ patch zero bytes []
patch zero (b ∷ bytes) (x ∷ out) = b ∷ patch zero bytes out
patch (suc offset) bytes [] = 0 ∷ patch offset bytes []
patch (suc offset) bytes (x ∷ out) = x ∷ patch offset bytes out

-- The four bytes of a size: the fourth is always 0.
abbrev pub three_bytes : ℕ → List ℕ
three_bytes n = n % 256 ∷ n / 256 % 256 ∷ n / 65536 % 256 ∷ 0 ∷ []

-- `main` with its three files, and the bytes on the standard output.
unfoldable pub build : (bootsect system user : Option File) → Result (List ℕ)
build bootsect system user = do
  rest ← minix_open bootsect
  out ← boot_sector rest
  (sys_size, out) ← copy_file system out
  (usr_size, out) ← copy_file user out
  let im_size = u32 (sys_size + usr_size + 15) / 16
  let out = patch 500 (im_size % 256 ∷ im_size / 256 % 256 ∷ []) out
  let out = patch 512 (three_bytes sys_size) out
  let out = patch 516 (three_bytes usr_size) out
  ok (patch 520 (three_bytes 0x7e6a) out)
