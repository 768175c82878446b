-- ===== src/Build/Program/Complete.antt =====
-- No failure goes unnoticed: a run that ends well has written the image of `build`.
use zeos.Common.{
  ℕ, suc, ◌+◌, ◌/◌, ◌%◌, ◌≡◌, refl, sym, ap, ◌∙◌, arith, List, [], ◌∷◌, ◌++◌, length, get_or,
  Bool-cases, inl, inr, none, some, ◌==◌, u32, to_int, String,
}
use zeos.Build.{
  File, ok, Fatal, patch, three_bytes, build, usage, image_length_failed, system_length_failed,
  user_length_failed, seek_failed,
}
use zeos.Build.Sector.{boot_sector-read}
use zeos.Build.Program.{
  World, Os, Message, die_with, fprintf, write_or_die, seek_or_die, put_header, put, program,
  boot_sector_size, system_kb, user_kb, image_kb, kilobytes,
}
use zeos.Build.Program.Exits.{Ends, die_with-Ends, bind-Ends, weaken-Ends}
use zeos.Build.Program.Writes.{Written, write_or_die-Written}
use zeos.Build.Program.Copies.{
  Opened, open_boot-Opened, BootCopied, copy_boot-BootCopied, NamedCopied, copy_named-NamedCopied,
}

-- A field of the header over the output.
record Patched (offset : ℕ) (bytes : List ℕ) (w w' : World) : Type 0 where
  out : w'.out ≡ patch offset bytes w.out
  stderr : w'.stderr ≡ w.stderr

put-Patched :
    (os : Os) (offset : ℕ) (e : Fatal) (bytes : List ℕ) (w : World)
    → Ends (Patched offset bytes w) (put os offset e bytes w)
unfolding seek_or_die die_with
put-Patched os offset e bytes w = elim (Bool-cases (os.lseek_fails w.calls)) [
  | inl failed ↦
      rw (failed, seek_or_die)
        (record { before = w.stderr; error = seek_failed; name = none; last = refl })
  | inr seeks ↦
      let w₁ = record w { calls = suc w.calls; position = offset } in
      rw (seeks, seek_or_die)
        (weaken-Ends (Written bytes w₁) (Patched offset bytes w) (write_or_die os e bytes w₁)
          (λ w' r. record { out = r.out; stderr = r.stderr }) (write_or_die-Written os e bytes w₁))
]

abbrev pub with_header : (sys_size usr_size : ℕ) → List ℕ → List ℕ
with_header sys_size usr_size out =
    let im_size = u32 (sys_size + usr_size + 15) / 16 in
    let out = patch 500 (im_size % 256 ∷ im_size / 256 % 256 ∷ []) out in
    let out = patch 512 (three_bytes sys_size) out in
    let out = patch 516 (three_bytes usr_size) out in patch 520 (three_bytes 0x7e6a) out

abbrev pub image_message : (sys_size usr_size : ℕ) → Message
image_message sys_size usr_size = image_kb (kilobytes (to_int (u32 (sys_size + usr_size))))

pub record HeaderPut (sys_size usr_size : ℕ) (w w' : World) : Type 0 where
  pub out : w'.out ≡ with_header sys_size usr_size w.out
  pub stderr : w'.stderr ≡ w.stderr ++ image_message sys_size usr_size ∷ []

pub put_header-HeaderPut :
    (os : Os) (sys_size usr_size : ℕ) (w : World)
    → Ends (HeaderPut sys_size usr_size w) (put_header os sys_size usr_size w)
unfolding put_header
put_header-HeaderPut os sys_size usr_size w =
    let im_size = u32 (sys_size + usr_size + 15) / 16 in
    let w₀ = fprintf (image_message sys_size usr_size) w in
    let length_bytes = im_size % 256 ∷ im_size / 256 % 256 ∷ [] in
    bind-Ends (Patched 500 length_bytes w₀) _ _ _
      (put-Patched os 500 image_length_failed length_bytes w₀)
      (λ w₁ p₁.
        bind-Ends (Patched 512 (three_bytes sys_size) w₁) _ _ _
          (put-Patched os 512 system_length_failed (three_bytes sys_size) w₁)
          (λ w₂ p₂.
            bind-Ends (Patched 516 (three_bytes usr_size) w₂) _ _ _
              (put-Patched os 516 user_length_failed (three_bytes usr_size) w₂)
              (λ w₃ p₃.
                weaken-Ends (Patched 520 (three_bytes 0x7e6a) w₃) _ _
                  (λ w₄ p₄. record {
                    out =
                        p₄.out
                        ∙ ap (patch 520 (three_bytes 0x7e6a)) (
                            p₃.out
                            ∙ ap (patch 516 (three_bytes usr_size))
                                (p₂.out ∙ ap (patch 512 (three_bytes sys_size)) p₁.out));
                    stderr = p₄.stderr ∙ p₃.stderr ∙ p₂.stderr ∙ p₁.stderr;
                  })
                  (put-Patched os 520 user_length_failed (three_bytes 0x7e6a) w₃))))

abbrev pub start : World
start = record { calls = 0; out = []; position = 0; stderr = [] }

-- The image of `build` from the files of the three arguments, and the messages of a good run.
pub record IsBuilt (os : Os) (argv : List String) (w : World) : Type 0 where
  pub argc : length argv ≡ 4
  pub image :
      build
        (os.opens (get_or argv 1 ""))
        (os.opens (get_or argv 2 ""))
        (os.opens (get_or argv 3 ""))
      ≡ ok w.out
  pub system : File
  pub system_is : os.opens (get_or argv 2 "") ≡ some system
  pub user : File
  pub user_is : os.opens (get_or argv 3 "") ≡ some user
  pub messages :
      w.stderr
      ≡ boot_sector_size (some 512)
        ∷ system_kb (u32 system.st_size / 1024)
        ∷ user_kb (u32 user.st_size / 1024)
        ∷ image_kb (kilobytes (to_int (u32 (system.st_size + user.st_size))))
        ∷ []

module _ (os : Os) (argv : List String) (right : length argv ≡ 4) (rest : List ℕ) (w₁ w₂ : World)
    (sys : ℕ × World) (usr : ℕ × World) (w₅ : World)
    (o : Opened (os.opens (get_or argv 1 "")) start (rest, w₁)) (b : BootCopied rest w₁ w₂)
    (s : NamedCopied system_kb (os.opens (get_or argv 2 "")) w₂ sys)
    (u : NamedCopied user_kb (os.opens (get_or argv 3 "")) sys.1 usr)
    (h : HeaderPut sys.0 usr.0 usr.1 w₅) where
  parts-build :
      build
        (os.opens (get_or argv 1 ""))
        (os.opens (get_or argv 2 ""))
        (os.opens (get_or argv 3 ""))
      ≡ ok w₅.out
  unfolding build
  parts-build =
      let first : b.sector ≡ w₂.out = sym (b.out ∙ ap (λ t. t ++ b.sector) o.out) in
      rw o.opened (rw b.accepted (rw first (rw s.copied (rw u.copied (ap ok (sym h.out))))))

  parts-IsBuilt : IsBuilt os argv w₅
  parts-IsBuilt =
      let (system, system_is, sys_is) = s.file_size in
      let (user, user_is, usr_is) = u.file_size in
      let sum : u32 (sys.0 + usr.0) ≡ u32 (system.st_size + user.st_size) = omega arith in
      record {
        argc = right;
        image = parts-build;
        system = system;
        system_is = system_is;
        user = user;
        user_is = user_is;
        messages =
            rw
              (
                h.stderr,
                u.stderr,
                s.stderr,
                b.stderr,
                o.stderr,
                boot_sector-read rest b.sector b.accepted,
                sum,
                sys_is,
                usr_is,
              )
              refl;
      }

-- Whatever calls of the system fail: `main` of build.c either ends well, and then it had three
-- arguments, its output is the image that `build` makes of the three files, and stderr has the four
-- messages with the sizes; or it exits, and then the last message is that of `die`.
pub program-Ends : (os : Os) (argv : List String) → Ends (IsBuilt os argv) (program os argv start)
unfolding program
program-Ends os argv = elim (Bool-cases (length argv == 4)) [
  | inr wrong ↦ rw (wrong, program) (die_with-Ends _ usage none start)
  | inl right ↦
      let first = get_or argv 1 "" in
      let second = get_or argv 2 "" in
      let third = get_or argv 3 "" in
      rw (right, program)
        (bind-Ends (Opened (os.opens first) start) _ _ _ (open_boot-Opened os first start)
          (λ (rest, w₁) o.
            bind-Ends (BootCopied rest w₁) _ _ _
              (copy_boot-BootCopied os rest w₁ (o.position ∙ ap length (sym o.out)))
              (λ w₂ b.
                bind-Ends (NamedCopied system_kb (os.opens second) w₂) _ _ _
                  (copy_named-NamedCopied os system_kb second w₂ b.at_end)
                  (λ (sys, w₃) s.
                    bind-Ends (NamedCopied user_kb (os.opens third) w₃) _ _ _
                      (copy_named-NamedCopied os user_kb third w₃ s.at_end)
                      (λ (usr, w₄) u.
                        weaken-Ends (HeaderPut sys usr w₄) _ _
                          (λ w₅ h.
                            parts-IsBuilt os argv (ground (arith, right)) rest w₁ w₂ (sys, w₃)
                              (usr, w₄) w₅ o b s u h)
                          (put_header-HeaderPut os sys usr w₄))))))
]
