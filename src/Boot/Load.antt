-- ===== src/Boot/Load.antt =====
-- From the files that `build` packs to the user program in its place.
use zeos.Common.{
  ℕ, ◌+◌, ◌*◌, ◌<◌, ◌≤◌, ◌≡◌, ◌⊎◌, sym, subst, ap, ◌∙◌, arith, List, ◌++◌, length, take, get_or,
  length-append, length-take, get_or-append, get_or-take, Option, some, chars, true, false, ltb,
}
use zeos.Memory.{Memory, IsString, load32}
use zeos.Io.Print.{IsValid}
use zeos.Interrupt.{Idt}
use zeos.Mm.Paging.{Paging, init_mm}
use zeos.Build.{File, ok, word, boot_sector, minix_open, build}
use zeos.Build.Sector.{ok-injective, boot_sector-length}
use zeos.Build.Image.{IsImage, build-IsImage}
use zeos.Boot.{Machine, Image, loaded_text, entering_text, is_mapped, main}
use zeos.Boot.Moved.{IsLoaded}
use zeos.Boot.Run.{Started, main_lem}

-- What bootsect.S does with the image: the bytes behind the boot sector, `n` of them, go to
-- KERNEL_START.
abbrev pub Loads : (image : List ℕ) (n : ℕ) → Memory → Type 0
Loads image n m = (i : ℕ) → i < n → m (0x10000 + i) ≡ get_or image (512 + i) 0

-- A word of the image is the word in memory.
load32-word :
    (image : List ℕ) (n k : ℕ) (m : Memory)
    → Loads image n m
    → 4 * k + 4 ≤ n
    → load32 (0x10000 + 4 * k) m ≡ word image (128 + k)
unfolding load32
load32-word image n k m l h =
    omega (arith, first, at 1 (omega arith), at 2 (omega arith), at 3 (omega arith))
  where
    at : (j : ℕ) → j < 4 → m (0x10000 + 4 * k + j) ≡ get_or image (4 * (128 + k) + j) 0
    at j lt =
        ap m {x = 0x10000 + 4 * k + j} {y = 0x10000 + (4 * k + j)} (omega arith)
        ∙ l (4 * k + j) (omega arith)
        ∙ ap (λ i. get_or image i 0) {x = 512 + (4 * k + j)} {y = 4 * (128 + k) + j} (omega arith)

    first : m (0x10000 + 4 * k) ≡ get_or image (4 * (128 + k)) 0
    first =
        l (4 * k) (omega arith)
        ∙ ap (λ i. get_or image i 0) {x = 512 + 4 * k} {y = 4 * (128 + k)} (omega arith)

module _ (boot : List ℕ) (system user : File) (len : length boot ≡ 512)
    (hs : system.st_size ≤ length system.bytes) where
  abbrev contents : List ℕ
  contents = (boot ++ take system.st_size system.bytes) ++ take user.st_size user.bytes

  front-length : length (boot ++ take system.st_size system.bytes) ≡ 512 + system.st_size
  front-length = omega (
    arith,
    len,
    length-append {0} boot (take system.st_size system.bytes),
    length-take {0} system.st_size system.bytes hs,
  )

  -- The boot sector comes first.
  pub sector-contents : (i : ℕ) → i < 512 → get_or contents i 0 ≡ get_or boot i 0
  sector-contents i lt =
      let inside : ltb i (length (boot ++ take system.st_size system.bytes)) ≡ true =
        ground (arith, front-length) in
      let first : ltb i (length boot) ≡ true = ground (arith, len) in
      get_or-append (boot ++ take system.st_size system.bytes) (take user.st_size user.bytes) i 0
      ∙ rw inside (get_or-append boot (take system.st_size system.bytes) i 0 ∙ rw first)

  -- The system stands behind the boot sector.
  pub system-contents :
      (i : ℕ) → i < system.st_size → get_or contents (512 + i) 0 ≡ get_or system.bytes i 0
  system-contents i lt =
      let inside : ltb (512 + i) (length (boot ++ take system.st_size system.bytes)) ≡ true =
        ground (arith, front-length) in
      let behind : ltb (512 + i) (length boot) ≡ false = ground (arith, len) in
      get_or-append (boot ++ take system.st_size system.bytes) (take user.st_size user.bytes)
        (512 + i) 0
      ∙ rw inside (
          get_or-append boot (take system.st_size system.bytes) (512 + i) 0
          ∙ rw behind (
              ap (λ j. get_or (take system.st_size system.bytes) j 0) {y = i} (omega (arith, len))))
      ∙ get_or-take system.st_size system.bytes i 0 lt

  -- The user program stands behind the system.
  user-contents :
      (i : ℕ)
      → i < user.st_size
      → get_or contents (512 + (system.st_size + i)) 0 ≡ get_or user.bytes i 0
  user-contents i lt =
      get_or-append (boot ++ take system.st_size system.bytes) (take user.st_size user.bytes)
        (512 + (system.st_size + i)) 0
      ∙ rw behind (
          ap (λ j. get_or (take user.st_size user.bytes) j 0) {y = i} (omega (arith, front-length)))
      ∙ get_or-take user.st_size user.bytes i 0 lt
    where
      behind :
          ltb (512 + (system.st_size + i)) (length (boot ++ take system.st_size system.bytes))
          ≡ false
      behind = ground (arith, front-length)

-- The image that a successful `build` has made.
pub built-IsImage :
    (bootsect : Option File) (system user : File) (rest boot image : List ℕ)
    → minix_open bootsect ≡ ok rest
    → boot_sector rest ≡ ok boot
    → system.st_size ≤ length system.bytes
    → user.st_size ≤ length user.bytes
    → system.st_size + user.st_size < 4294967280
    → build bootsect (some system) (some user) ≡ ok image
    → IsImage
        ((boot ++ take system.st_size system.bytes) ++ take user.st_size user.bytes)
        system.st_size
        user.st_size
        image
built-IsImage bootsect system user rest boot image opened accepted hs hu fits built =
    let (image', builds, is) =
      build-IsImage bootsect system user rest boot opened accepted hs hu fits in
    subst
      (IsImage ((boot ++ take system.st_size system.bytes) ++ take user.st_size user.bytes)
        system.st_size user.st_size)
      (ok-injective (sym builds ∙ built)) is

module _ (at : Image) (set_handlers : Idt → Idt) (init_addr_space : Paging → Paging) (fuel : ℕ)
    (bootsect : Option File) (system user : File) (rest boot image : List ℕ) (s : Machine)
    (opened : minix_open bootsect ≡ ok rest) (accepted : boot_sector rest ≡ ok boot)
    (hs : system.st_size ≤ length system.bytes) (hu : user.st_size ≤ length user.bytes)
    (below : 0x10000 + system.st_size + user.st_size ≤ 0xb8000) (le : user.st_size ≤ 0x1c000)
    (header : 12 ≤ system.st_size) (built : build bootsect (some system) (some user) ≡ ok image)
    (loads : Loads image (system.st_size + user.st_size) s.console.mem) where
  whole :
      IsImage
        ((boot ++ take system.st_size system.bytes) ++ take user.st_size user.bytes)
        system.st_size
        user.st_size
        image
  whole =
      built-IsImage bootsect system user rest boot image opened accepted hs hu (omega arith) built

  module _ (loaded : IsString s.console.mem at.loaded (chars loaded_text))
      (loaded_below : at.loaded + 20 ≤ 0xb8000)
      (entering : IsString s.console.mem at.entering (chars entering_text))
      (entering_below : at.entering + 23 ≤ 0xb8000) where
    image-IsLoaded : IsLoaded at system.st_size user.st_size s.console.mem
    image-IsLoaded =
        let is = whole in
        let n = system.st_size + user.st_size in
        record {
          sys_is =
              load32-word image n 0 s.console.mem loads (omega arith)
              ∙ is.system_field
              ∙ omega arith;
          usr_is =
              load32-word image n 1 s.console.mem loads (omega arith) ∙ is.user_field ∙ omega arith;
          below = below;
          header = omega arith;
          loaded = loaded;
          loaded_below = loaded_below;
          entering = entering;
          entering_below = entering_below;
        }

    user_loaded :
        (i : ℕ)
        → i < user.st_size
        → s.console.mem (0x10000 + system.st_size + i) ≡ get_or user.bytes i 0
    user_loaded i lt =
        ap s.console.mem {y = 0x10000 + (system.st_size + i)} (omega arith)
        ∙ loads (system.st_size + i) (omega arith)
        ∙ whole.others (512 + (system.st_size + i)) (omega arith)
        ∙ user-contents boot system user (boot_sector-length rest boot accepted) hs i lt

    -- Let `build` have made the image of a system of at least 12 bytes and a user program of at most
    -- 0x1c000 bytes, both files holding what `fstat` says and together below the screen; let the boot
    -- loader have put the bytes behind the boot sector to 0x10000, with the two literals in memory
    -- below the screen. On a valid console, with fuel above 30 and an address space that has pages
    -- from 0x1000 to 0x11c000, `main` ends: it has printed its two messages and set up gates,
    -- segments, paging and the entry of system calls; interrupts are on, the processor is at the
    -- program's first instruction in user mode, and the bytes of the program's file stand from
    -- 0x100000 on, but for the top word of the user's stack, which gets the word at `p_rdtr`.
    pub build-main :
        IsValid s.console
        → 30 < fuel
        → ((a : ℕ)
            → 0x1000 ≤ a
            → a < 0x11c000
            → is_mapped (init_addr_space (init_mm at.layout s.paging)) a ≡ true)
        → (t : Machine) × (main at set_handlers init_addr_space fuel s ≡ some t)
          × Started at set_handlers init_addr_space system.st_size user.st_size s t
          × ((i : ℕ)
              → i < user.st_size
              → (i < 0x13ffc) ⊎ (0x14000 ≤ i)
              → t.console.mem (0x100000 + i) ≡ get_or user.bytes i 0)
    build-main v enough mapped =
        let (t, runs, started) =
          main_lem at set_handlers init_addr_space fuel system.st_size user.st_size s v
            image-IsLoaded le enough mapped in
        (t, runs, started, λ i lt off. started.program i lt off ∙ user_loaded i lt)
