-- ===== src/Build/Program/Agrees.antt =====
-- On a disk with room and without errors, build.c is `build`, its exits included.
use zeos.Common.{
  ℕ, zero, suc, ◌-◌, ◌/◌, ◌≡◌, refl, sym, ap, subst, ◌∙◌, arith, List, [], ◌++◌, length, take, drop,
  get_or, Bool-cases, Option-cases, inl, inr, none, some, ◌==◌, if◌then◌else◌, true, ltb, u32,
  String,
}
use zeos.Build.{
  ok, minix_open, boot_sector, copy_loop, copy_file, build, write_call_failed, write_failed,
  unable_to_open, unexpected_eof,
}
use zeos.Build.Sector.{boot_sector-length}
use zeos.Build.Program.{
  World, Os, Message, done, fprintf, write_or_die, called, open_boot, copy_boot, copy_rounds,
  copy_named, put_header, program, boot_sector_size, system_kb, user_kb,
}
use zeos.Build.Program.Writes.{AtEnd}
use zeos.Build.Program.Complete.{with_header, start}
use zeos.Build.Program.Works.{
  Works, Agree, both_end, bind-Agree, then-Agree, die_with-Agree, checked-Agree, Same, write-Agree,
  put_header-Agree,
}

module _ (os : Os) (works : Works os) where
  open_boot-Agree :
      (name : String)
      → Agree
          (λ rest r. (rest ≡ r.0) × (r.1.out ≡ []) × (r.1.position ≡ 0))
          (minix_open (os.opens name))
          (open_boot os name start)
  unfolding open_boot minix_open
  open_boot-Agree name = elim (Option-cases (os.opens name)) [
    | inl e ↦ rw (e, open_boot) (die_with-Agree _ unable_to_open (some name) start)
    | inr (f, e) ↦
        rw (e, open_boot)
          (rw (works.reads 0) (
            then-Agree _ _ (minix_open (some f)) _ (λ rest. done (rest, called start))
              (checked-Agree (some name) (minix_open (some f)) (called start))
              (λ rest rest' r. both_end rest (rest', called start) (r.0, refl, refl))))
  ]

  copy_boot-Agree :
      (rest : List ℕ) (w : World)
      → w.out ≡ []
      → AtEnd w
      → Agree Same (boot_sector rest) (copy_boot os rest w)
  unfolding copy_boot
  copy_boot-Agree rest w o h =
      let w₁ = fprintf (boot_sector_size (some (length (take 1024 rest)))) (called w) in
      rw (works.reads w.calls, copy_boot)
        (then-Agree _ Same (boot_sector rest) _ (λ s. write_or_die os write_call_failed s w₁)
          (checked-Agree none (boot_sector rest) w₁)
          (λ s s' r.
            subst (λ t. Agree Same (ok s) (write_or_die os write_call_failed t w₁)) r.0
              (write-Agree os works write_call_failed s [] w₁
                (omega (arith, boot_sector-length rest s r.1)) (sym o) h)))

  copy_rounds-Agree :
      (fuel sz : ℕ) (name : String) (rest out : List ℕ) (w : World)
      → out ≡ w.out
      → AtEnd w
      → Agree Same (copy_loop fuel sz rest out) (copy_rounds os fuel sz name rest w)
  unfolding copy_rounds copy_loop
  copy_rounds-Agree zero sz name rest out w o h = both_end out w (o, h)
  copy_rounds-Agree (suc fuel) sz name rest out w o h =
      let l = if ltb 1024 sz then 1024 else sz in
      let buf = take l rest in
      elim (Bool-cases (ltb 0 sz)) [
        | inr over ↦ rw over (both_end out w (o, h))
        | inl more ↦ elim (Bool-cases (length buf == l)) [
          | inr short ↦ rw more (
              rw (works.reads w.calls)
                (rw short (die_with-Agree Same unexpected_eof (some name) (called w))))
          | inl full ↦ rw more (
              rw (works.reads w.calls) (
                rw full (
                  bind-Agree Same Same (ok (out ++ buf))
                    (write_or_die os write_failed buf (called w))
                    (copy_loop fuel (sz - l) (drop l rest))
                    (copy_rounds os fuel (sz - l) name (drop l rest))
                    (write-Agree os works write_failed buf out (called w) (ground (arith, full)) o
                      h)
                    (λ out' w' r.
                      copy_rounds-Agree fuel (sz - l) name (drop l rest) out' w' r.0 r.1))))
        ]
      ]

  copy_named-Agree :
      (msg : ℕ → Message) (name : String) (out : List ℕ) (w : World)
      → out ≡ w.out
      → AtEnd w
      → Agree
          (λ a b. (a.0 ≡ b.0) × Same a.1 b.1)
          (copy_file (os.opens name) out)
          (copy_named os msg name w)
  unfolding copy_named copy_file
  copy_named-Agree msg name out w o h = elim (Option-cases (os.opens name)) [
    | inl e ↦ rw (e, copy_named) (die_with-Agree _ unable_to_open (some name) w)
    | inr (f, e) ↦
        let sz = u32 f.st_size in
        let w₁ = fprintf (msg (sz / 1024)) (called w) in
        rw (e, copy_named)
          (rw (works.stats w.calls) (
            bind-Agree Same _ (copy_loop sz sz f.bytes out) (copy_rounds os sz sz name f.bytes w₁)
              (λ out. ok (sz, out)) (λ w. done (sz, w))
              (copy_rounds-Agree sz sz name f.bytes out w₁ o h)
              (λ out' w' r. both_end (sz, out') (sz, w') (refl, r))))
  ]

  -- If no call of the system fails and a write takes a kilobyte at least, then `main` of build.c with
  -- three arguments does what `build` does with their files: it writes the image and ends well, or
  -- exits where `build` has an error, with that error in its last message.
  pub program-Agree :
      (argv : List String)
      → length argv ≡ 4
      → Agree
          (λ image w. image ≡ w.out)
          (build
            (os.opens (get_or argv 1 ""))
            (os.opens (get_or argv 2 ""))
            (os.opens (get_or argv 3 "")))
          (program os argv start)
  unfolding program build
  program-Agree argv four =
      let right : (length argv == 4) ≡ true = ground arith in
      rw (right, program)
        (bind-Agree _ _ _ _ _ _ (open_boot-Agree (get_or argv 1 "")) (λ rest (rest', w₁) r.
          bind-Agree Same _ _ _ _ _
            (subst (λ t. Agree Same (boot_sector rest) (copy_boot os t w₁)) r.0
              (copy_boot-Agree rest w₁ r.1 (r.2 ∙ ap length (sym r.1))))
            (λ out w₂ s.
              bind-Agree _ _ _ _ _ _ (copy_named-Agree system_kb (get_or argv 2 "") out w₂ s.0 s.1)
                (λ (sys_size, out') (sys_size', w₃) t.
                  bind-Agree _ _ _ _ _ _
                    (copy_named-Agree user_kb (get_or argv 3 "") out' w₃ t.1.0 t.1.1)
                    (λ (usr_size, out'') (usr_size', w₄) u.
                      subst
                        (λ n.
                          Agree (λ image w. image ≡ w.out)
                            (ok (with_header sys_size usr_size out''))
                            (put_header os n usr_size' w₄))
                        t.0
                        (subst
                          (λ n.
                            Agree (λ image w. image ≡ w.out)
                              (ok (with_header sys_size usr_size out''))
                              (put_header os sys_size n w₄))
                          u.0 (put_header-Agree os works sys_size usr_size out'' w₄ u.1.0)))))))
