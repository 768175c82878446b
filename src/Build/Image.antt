-- ===== src/Build/Image.antt =====
-- The image that `build` writes.
use zeos.Common.{
  ℕ, zero, suc, ◌+◌, ◌-◌, ◌*◌, ◌/◌, ◌%◌, ◌<◌, ◌≤◌, ◌≡◌, ◌⊎◌, inl, inr, ap, ◌∙◌, sym, arith, List,
  [], ◌∷◌, ◌++◌, append_assoc, append-nil, length, take, drop, get_or, length-take,
  length-take_short, length-drop, take-add, Option, some, ltb, leb, ◌&&◌, if◌then◌else◌, Bool-cases,
  ==_of_eq, ==_of_ne, true, u32,
}
use zeos.Build.{
  File, ok, die, unexpected_eof, copy_loop, copy_file, patch, three_bytes, word, build, minix_open,
  boot_sector,
}

-- The copy of a file that holds what `fstat` says is complete.
copy_loop_lem :
    (fuel sz : ℕ) (rest out : List ℕ)
    → sz ≤ length rest
    → sz ≤ fuel
    → copy_loop fuel sz rest out ≡ ok (out ++ take sz rest)
unfolding copy_loop
copy_loop_lem zero sz rest out h le =
    let z : sz ≡ 0 = omega arith in
    ap ok (sym (append-nil out) ∙ ap (λ n. out ++ take n rest) (sym z))
copy_loop_lem (suc fuel) sz rest out h le = elim (Bool-cases (ltb 0 sz)) [
  | inl more ↦
      let l = if ltb 1024 sz then 1024 else sz in
      let fits : length (take l rest) ≡ l = length-take l rest (ground arith) in
      rw (more, ==_of_eq (length (take l rest)) l fits)
        (copy_loop_lem fuel (sz - l) (drop l rest) (out ++ take l rest)
            (ground (arith, length-drop l rest)) (ground arith)
          ∙ ap ok (
              append_assoc out (take l rest) (take (sz - l) (drop l rest))
              ∙ ap (λ t. out ++ t)
                  (take-add l (sz - l) rest ∙ ap (λ n. take n rest) {y = sz} (ground arith))))
  | inr done ↦
      let z : sz ≡ 0 = ground arith in
      rw done (ap ok (sym (append-nil out) ∙ ap (λ n. out ++ take n rest) (sym z)))
]

-- A file that is shorter than `fstat` says stops the build.
copy_loop-eof :
    (fuel sz : ℕ) (rest out : List ℕ)
    → length rest < sz
    → sz ≤ fuel
    → copy_loop fuel sz rest out ≡ die unexpected_eof
unfolding copy_loop
copy_loop-eof zero sz rest out h le = absurd (omega arith)
copy_loop-eof (suc fuel) sz rest out h le =
    let l = if ltb 1024 sz then 1024 else sz in
    let more : ltb 0 sz ≡ true = ground arith in
    elim (Bool-cases (leb l (length rest))) [
      | inl fits ↦
          rw (more, ==_of_eq (length (take l rest)) l (length-take l rest (ground arith)))
            (copy_loop-eof fuel (sz - l) (drop l rest) (out ++ take l rest)
              (ground (arith, length-drop l rest)) (ground arith))
      | inr short ↦ rw (
        more,
        ==_of_ne (length (take l rest)) l
            (λ e. let s = length-take_short l rest (ground arith) in omega arith),
      )
    ]

-- `copy_file` appends the file as `fstat` measures it, modulo 2 ^ 32, or stops if it ends before that.
copy_file_lem :
    (f : File) (out : List ℕ)
    → copy_file (some f) out ≡ (
        if leb (u32 f.st_size) (length f.bytes)
        then ok (u32 f.st_size, out ++ take (u32 f.st_size) f.bytes)
        else die unexpected_eof)
unfolding copy_file
copy_file_lem f out =
    let sz = u32 f.st_size in
    elim (Bool-cases (leb sz (length f.bytes))) [
      | inl fits ↦ rw (copy_loop_lem sz sz f.bytes out (ground arith) (omega arith), fits)
      | inr short ↦ rw (copy_loop-eof sz sz f.bytes out (ground arith) (omega arith), short)
    ]

get_or-patch :
    (offset : ℕ) (bytes out : List ℕ) (i : ℕ)
    → get_or (patch offset bytes out) i 0 ≡ (
        if leb offset i && ltb i (offset + length bytes)
        then get_or bytes (i - offset) 0
        else get_or out i 0)
unfolding patch
get_or-patch zero [] out i = ground arith
get_or-patch zero (b ∷ bytes) [] zero = ground arith
get_or-patch zero (b ∷ bytes) [] (suc i) = get_or-patch zero bytes [] i ∙ ground arith
get_or-patch zero (b ∷ bytes) (x ∷ out) zero = ground arith
get_or-patch zero (b ∷ bytes) (x ∷ out) (suc i) = get_or-patch zero bytes out i ∙ ground arith
get_or-patch (suc offset) bytes [] zero = ground arith
get_or-patch (suc offset) bytes [] (suc i) = get_or-patch offset bytes [] i ∙ ground arith
get_or-patch (suc offset) bytes (x ∷ out) zero = ground arith
get_or-patch (suc offset) bytes (x ∷ out) (suc i) = get_or-patch offset bytes out i ∙ ground arith

word-patch_self :
    (k n : ℕ) (out : List ℕ) → word (patch (4 * k) (three_bytes n) out) k ≡ n % 16777216
word-patch_self k n out = ground (
  arith,
  get_or-patch (4 * k) (three_bytes n) out (4 * k),
  get_or-patch (4 * k) (three_bytes n) out (4 * k + 1),
  get_or-patch (4 * k) (three_bytes n) out (4 * k + 2),
  get_or-patch (4 * k) (three_bytes n) out (4 * k + 3),
)

get_or-patch_off :
    (offset : ℕ) (bytes out : List ℕ) (i : ℕ)
    → (i < offset) ⊎ (offset + length bytes ≤ i)
    → get_or (patch offset bytes out) i 0 ≡ get_or out i 0
get_or-patch_off offset bytes out i off = ground (arith, get_or-patch offset bytes out i)

word-patch_off :
    (offset : ℕ) (bytes out : List ℕ) (k : ℕ)
    → (4 * k + 4 ≤ offset) ⊎ (offset + length bytes ≤ 4 * k)
    → word (patch offset bytes out) k ≡ word out k
word-patch_off offset bytes out k off = ground (
  arith,
  get_or-patch_off offset bytes out (4 * k),
  get_or-patch_off offset bytes out (4 * k + 1),
  get_or-patch_off offset bytes out (4 * k + 2),
  get_or-patch_off offset bytes out (4 * k + 3),
)

-- The header of the image over its contents, from the boot sector on: the image's length in
-- paragraphs at 500, the sizes of system and user program at 512 and 516, and the address 0x7e6a at
-- 520. The kernel reads the last three as words; a size keeps its lower 24 bits, the length 16.
pub record IsImage (contents : List ℕ) (sys_size usr_size : ℕ) (image : List ℕ) : Type 0 where
  pub length_field :
      get_or image 500 0 + 256 * get_or image 501 0 ≡ (sys_size + usr_size + 15) / 16 % 65536
  pub system_field : word image 128 ≡ sys_size % 16777216
  pub user_field : word image 129 ≡ usr_size % 16777216
  address_field : word image 130 ≡ 0x7e6a
  pub others :
      (i : ℕ)
      → (i < 500) ⊎ ((502 ≤ i) × (i < 512)) ⊎ (524 ≤ i)
      → get_or image i 0 ≡ get_or contents i 0

copied :
    (f : File) (out : List ℕ)
    → f.st_size ≤ length f.bytes
    → f.st_size < 4294967296
    → copy_file (some f) out ≡ ok (f.st_size, out ++ take f.st_size f.bytes)
copied f out h small =
    let same : u32 f.st_size ≡ f.st_size = omega arith in
    let fits : leb f.st_size (length f.bytes) ≡ true = ground arith in
    copy_file_lem f out ∙ rw same (rw fits)

-- If the boot sector is accepted, both files hold what `fstat` says, and their sizes together are
-- below 2 ^ 32 - 16, `build` writes an image: the boot sector, the system and the user program one
-- after the other, but for the header, which holds the number of paragraphs modulo 2 ^ 16, both
-- sizes modulo 2 ^ 24, and the address 0x7e6a.
pub build-IsImage :
    (bootsect : Option File) (system user : File) (rest boot : List ℕ)
    → minix_open bootsect ≡ ok rest
    → boot_sector rest ≡ ok boot
    → system.st_size ≤ length system.bytes
    → user.st_size ≤ length user.bytes
    → system.st_size + user.st_size < 4294967280
    → (image : List ℕ) × (build bootsect (some system) (some user) ≡ ok image)
      × IsImage
          ((boot ++ take system.st_size system.bytes) ++ take user.st_size user.bytes)
          system.st_size
          user.st_size
          image
unfolding build
build-IsImage bootsect system user rest boot opened accepted hs hu fits =
    let contents = (boot ++ take system.st_size system.bytes) ++ take user.st_size user.bytes in
    let im_size = u32 (system.st_size + user.st_size + 15) / 16 in
    let p1 = patch 500 (im_size % 256 ∷ im_size / 256 % 256 ∷ []) contents in
    let p2 = patch 512 (three_bytes system.st_size) p1 in
    let p3 = patch 516 (three_bytes user.st_size) p2 in
    let p4 = patch 520 (three_bytes 0x7e6a) p3 in
    let copied_system = copied system boot hs (omega arith) in
    let copied_user = copied user (boot ++ take system.st_size system.bytes) hu (omega arith) in
    let below : (i : ℕ) → i < 512 → get_or p4 i 0 ≡ get_or p1 i 0 = λ i lt.
      get_or-patch_off 520 (three_bytes 0x7e6a) p3 i (omega arith)
      ∙ get_or-patch_off 516 (three_bytes user.st_size) p2 i (omega arith)
      ∙ get_or-patch_off 512 (three_bytes system.st_size) p1 i (omega arith) in
    let low : get_or p4 500 0 ≡ im_size % 256 =
      below 500 (omega arith) ∙ get_or-patch 500 _ contents 500 in
    let high : get_or p4 501 0 ≡ im_size / 256 % 256 =
      below 501 (omega arith) ∙ get_or-patch 500 _ contents 501 in
    (
      p4,
      rw opened (rw accepted (rw copied_system (rw copied_user))),
      record {
        length_field = omega arith;
        system_field =
            word-patch_off 520 (three_bytes 0x7e6a) p3 128 (omega arith)
            ∙ word-patch_off 516 (three_bytes user.st_size) p2 128 (omega arith)
            ∙ word-patch_self 128 system.st_size p1;
        user_field =
            word-patch_off 520 (three_bytes 0x7e6a) p3 129 (omega arith)
            ∙ word-patch_self 129 user.st_size p2;
        address_field = word-patch_self 130 0x7e6a p3;
        others = λ i off.
            get_or-patch_off 520 (three_bytes 0x7e6a) p3 i (omega arith)
            ∙ get_or-patch_off 516 (three_bytes user.st_size) p2 i (omega arith)
            ∙ get_or-patch_off 512 (three_bytes system.st_size) p1 i (omega arith)
            ∙ get_or-patch_off 500 _ contents i (omega arith);
      },
    )
