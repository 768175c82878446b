-- ===== src/Build/Program/Copies.antt =====
-- The parts of build.c up to the copy of the user program: what each leaves if it does not exit.
use zeos.Common.{
  ℕ, zero, suc, ◌-◌, ◌/◌, ◌≡◌, refl, sym, ap, ◌∙◌, List, [], ◌∷◌, ◌++◌, length, take, drop,
  Bool-cases, Option-cases, inl, inr, Option, none, some, ◌==◌, if◌then◌else◌, ltb, u32, String,
}
use zeos.Build.{
  File, Result, ok, die, minix_open, boot_sector, copy_loop, copy_file, unable_to_open,
  unable_to_read_header, unable_to_stat, error_reading, write_call_failed, write_failed,
  unexpected_eof, boot_block_size,
}
use zeos.Build.Program.{
  World, Os, Message, done, checked, fprintf, write_or_die, called, open_boot, copy_boot,
  copy_rounds, copy_named, boot_sector_size,
}
use zeos.Build.Program.Exits.{Ends, die_with-Ends, bind-Ends, weaken-Ends}
use zeos.Build.Program.Writes.{Written, write_or_die-Written, AtEnd, Written-Appended}

checked-Ends :
    {A : Type 0} (name : Option String) (r : Result A) (w : World)
    → Ends (λ a. r ≡ ok a) (checked name r w)
checked-Ends name (ok a) w = refl
checked-Ends name (die e) w = die_with-Ends (λ a. die e ≡ ok a) e name w

pub record Opened (file : Option File) (w : World) (r : List ℕ × World) : Type 0 where
  pub opened : minix_open file ≡ ok r.0
  pub out : r.1.out ≡ w.out
  pub position : r.1.position ≡ w.position
  pub stderr : r.1.stderr ≡ w.stderr

pub open_boot-Opened :
    (os : Os) (name : String) (w : World) → Ends (Opened (os.opens name) w) (open_boot os name w)
unfolding open_boot
open_boot-Opened os name w = elim (Option-cases (os.opens name)) [
  | inl e ↦ rw (e, open_boot) (die_with-Ends (Opened none w) unable_to_open (some name) w)
  | inr (f, e) ↦ elim (Bool-cases (os.read_fails w.calls)) [
    | inl failed ↦
        rw (e, open_boot)
          (rw failed
            (die_with-Ends (Opened (some f) w) unable_to_read_header (some name) (called w)))
    | inr reads ↦
        rw (e, open_boot)
          (rw reads (
            bind-Ends (λ rest. minix_open (some f) ≡ ok rest) (Opened (some f) w)
              (checked (some name) (minix_open (some f)) (called w)) (λ rest. done (rest, called w))
              (checked-Ends (some name) (minix_open (some f)) (called w))
              (λ rest h. record { opened = h; out = refl; position = refl; stderr = refl })))
  ]
]

-- The boot sector at the end of the output, and its message.
pub record BootCopied (rest : List ℕ) (w w' : World) : Type 0 where
  pub sector : List ℕ
  pub accepted : boot_sector rest ≡ ok sector
  pub out : w'.out ≡ w.out ++ sector
  pub at_end : AtEnd w'
  pub stderr : w'.stderr ≡ w.stderr ++ boot_sector_size (some (length (take 1024 rest))) ∷ []

pub copy_boot-BootCopied :
    (os : Os) (rest : List ℕ) (w : World) → AtEnd w → Ends (BootCopied rest w) (copy_boot os rest w)
unfolding copy_boot
copy_boot-BootCopied os rest w h = elim (Bool-cases (os.read_fails w.calls)) [
  | inl failed ↦ rw (failed, copy_boot) (die_with-Ends (BootCopied rest w) boot_block_size none _)
  | inr reads ↦
      let w₁ = fprintf (boot_sector_size (some (length (take 1024 rest)))) (called w) in
      rw (reads, copy_boot)
        (bind-Ends (λ s. boot_sector rest ≡ ok s) (BootCopied rest w)
          (checked none (boot_sector rest) w₁) (λ s. write_or_die os write_call_failed s w₁)
          (checked-Ends none (boot_sector rest) w₁)
          (λ s accepted.
            weaken-Ends (Written s w₁) (BootCopied rest w) (write_or_die os write_call_failed s w₁)
              (λ w' r.
                let q = Written-Appended s w₁ w' h r in
                record {
                  sector = s;
                  accepted = accepted;
                  out = q.out;
                  at_end = q.at_end;
                  stderr = q.stderr;
                })
              (write_or_die-Written os write_call_failed s w₁)))
]

-- The rest of a file at the end of the output.
pub record RestCopied (fuel sz : ℕ) (rest : List ℕ) (w w' : World) : Type 0 where
  pub copied : copy_loop fuel sz rest w.out ≡ ok w'.out
  pub at_end : AtEnd w'
  pub stderr : w'.stderr ≡ w.stderr

copy_rounds-RestCopied :
    (os : Os) (fuel sz : ℕ) (name : String) (rest : List ℕ) (w : World)
    → AtEnd w
    → Ends (RestCopied fuel sz rest w) (copy_rounds os fuel sz name rest w)
unfolding copy_rounds copy_loop
copy_rounds-RestCopied os zero sz name rest w h = record {
  copied = refl;
  at_end = h;
  stderr = refl;
}
copy_rounds-RestCopied os (suc fuel) sz name rest w h =
    let l = if ltb 1024 sz then 1024 else sz in
    let buf = take l rest in
    elim (Bool-cases (ltb 0 sz)) [
      | inr ended ↦ rw ended (record { copied = rw ended refl; at_end = h; stderr = refl })
      | inl more ↦ elim (Bool-cases (os.read_fails w.calls)) [
        | inl failed ↦ rw more (rw failed (die_with-Ends _ error_reading (some name) _))
        | inr reads ↦ elim (Bool-cases (length buf == l)) [
          | inr short ↦ rw more (rw reads (rw short (die_with-Ends _ unexpected_eof (some name) _)))
          | inl full ↦ rw more (
              rw reads (
                rw full (
                  bind-Ends (Written buf (called w)) _ (write_or_die os write_failed buf (called w))
                    (λ w'. copy_rounds os fuel (sz - l) name (drop l rest) w')
                    (write_or_die-Written os write_failed buf (called w))
                    (λ w' r.
                      let q = Written-Appended buf (called w) w' h r in
                      weaken-Ends (RestCopied fuel (sz - l) (drop l rest) w') _
                        (copy_rounds os fuel (sz - l) name (drop l rest) w')
                        (λ w'' c. record {
                          copied = rw more (
                              rw full (
                                ap (copy_loop fuel (sz - l) (drop l rest)) (sym q.out) ∙ c.copied));
                          at_end = c.at_end;
                          stderr = c.stderr ∙ q.stderr;
                        })
                        (copy_rounds-RestCopied os fuel (sz - l) name (drop l rest) w' q.at_end)))))
        ]
      ]
    ]

-- A file at the end of the output, and its message.
pub record NamedCopied (msg : ℕ → Message) (file : Option File) (w : World) (r : ℕ × World)
    : Type 0 where
  pub file_size : (f : File) × (file ≡ some f) × (r.0 ≡ u32 f.st_size)
  pub copied : copy_file file w.out ≡ ok (r.0, r.1.out)
  pub at_end : AtEnd r.1
  pub stderr : r.1.stderr ≡ w.stderr ++ msg (r.0 / 1024) ∷ []

pub copy_named-NamedCopied :
    (os : Os) (msg : ℕ → Message) (name : String) (w : World)
    → AtEnd w
    → Ends (NamedCopied msg (os.opens name) w) (copy_named os msg name w)
unfolding copy_named copy_file
copy_named-NamedCopied os msg name w h = elim (Option-cases (os.opens name)) [
  | inl e ↦ rw (e, copy_named) (die_with-Ends _ unable_to_open (some name) w)
  | inr (f, e) ↦ elim (Bool-cases (os.fstat_fails w.calls)) [
    | inl failed ↦
        rw (e, copy_named) (rw failed (die_with-Ends _ unable_to_stat (some name) (called w)))
    | inr stats ↦
        let sz = u32 f.st_size in
        let w₁ = fprintf (msg (sz / 1024)) (called w) in
        rw (e, copy_named)
          (rw stats (
            bind-Ends (RestCopied sz sz f.bytes w₁) (NamedCopied msg (some f) w)
              (copy_rounds os sz sz name f.bytes w₁) (λ w'. done (sz, w'))
              (copy_rounds-RestCopied os sz sz name f.bytes w₁ h)
              (λ w' c. record {
                file_size = (f, refl, refl);
                copied = rw c.copied refl;
                at_end = c.at_end;
                stderr = c.stderr;
              })))
  ]
]
