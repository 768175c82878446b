-- ===== src/Build/Program/Works.antt =====
-- Runs on a disk with room and without errors: their relation to the results of `build`, and the
-- writes.
use zeos.Common.{
  ℕ, zero, suc, ◌+◌, ◌/◌, ◌%◌, ◌≡◌, ◌≤◌, refl, sym, ap, subst, ◌∙◌, arith, List, [], ◌∷◌, ◌++◌,
  length, take, Option, some, ◌==◌, true, false, u32, String,
}
use zeos.Build
use zeos.Build.{
  File, Result, ok, die, Fatal, patch, three_bytes, minix_open, boot_sector, copy_loop, copy_file,
  build, usage, image_length_failed, system_length_failed, user_length_failed, write_call_failed,
  write_failed, unable_to_open, unexpected_eof,
}
use zeos.Build.Program.{
  World, Os, Message, Outcome, done, exit, die_with, died, checked, fprintf, write_or_die,
  seek_or_die, put_header, put, ◌>>=◌,
}
use zeos.Build.Program.Exits.{Ends}
use zeos.Build.Program.Writes.{Written, write_or_die-Written, AtEnd, Written-Appended}
use zeos.Build.Program.Complete.{with_header, image_message, HeaderPut, put_header-HeaderPut}

-- No call fails, and a write takes a kilobyte at least.
pub record Works (os : Os) : Type 0 where
  pub stats : (k : ℕ) → os.fstat_fails k ≡ false
  pub reads : (k : ℕ) → os.read_fails k ≡ false
  pub seeks : (k : ℕ) → os.lseek_fails k ≡ false
  pub takes : (k : ℕ) → (n : ℕ) × (os.write_takes k ≡ some n) × (1024 ≤ n)

-- The exit of `die` with this message.
pub record IsDied (e : Fatal) (w : World) : Type 0 where
  pub before : List Message
  pub name : Option String
  pub last : w.stderr ≡ before ++ died e name ∷ []

-- A result for a result, by `R`, and the exit for the error.
pub data Agree {A B : Type 0} (R : A → B → Type 0) : Result A → Outcome B → Type 0 where
  both_end : (a : A) (b : B) → R a b → Agree R (ok a) (done b)
  both_exit : (e : Fatal) (w : World) → IsDied e w → Agree R (die e) (exit w)

pub bind-Agree :
    {A B A' B' : Type 0} (R : A → B → Type 0) (S : A' → B' → Type 0) (m : Result A) (m' : Outcome B)
    (f : A → Result A') (f' : B → Outcome B')
    → Agree R m m'
    → ((a : A) (b : B) → R a b → Agree S (f a) (f' b))
    → Agree S (zeos.Build.◌>>=◌ m f) (m' >>= f')
bind-Agree R S m m' f f' (both_end a b r) k = k a b r
bind-Agree R S m m' f f' (both_exit e w d) k = both_exit e w d

pub die_with-Agree :
    {A B : Type 0} (R : A → B → Type 0) (e : Fatal) (name : Option String) (w : World)
    → Agree R (die e) (die_with e name w)
unfolding die_with
die_with-Agree R e name w = both_exit e _ (record { before = w.stderr; name = name; last = refl })

pub then-Agree :
    {A B B' : Type 0} (R : A → B → Type 0) (S : A → B' → Type 0) (m : Result A) (m' : Outcome B)
    (f : B → Outcome B')
    → Agree R m m'
    → ((a : A) (b : B) → R a b → Agree S (ok a) (f b))
    → Agree S m (m' >>= f)
then-Agree R S m m' f (both_end a b r) k = k a b r
then-Agree R S m m' f (both_exit e w d) k = both_exit e w d

pub checked-Agree :
    {A : Type 0} (name : Option String) (r : Result A) (w : World)
    → Agree (λ a b. (a ≡ b) × (r ≡ ok a)) r (checked name r w)
checked-Agree name (ok a) w = both_end a a (refl, refl)
checked-Agree name (die e) w = die_with-Agree _ e name w

-- The output so far.
abbrev pub Same : List ℕ → World → Type 0
Same out w = (out ≡ w.out) × AtEnd w

ended : {A : Type 0} (P : A → Type 0) (m : Outcome A) (a : A) → Ends P m → m ≡ done a → P a
ended P m a h e = subst (Ends P) e h

take-enough : {A : Type 0} (k : ℕ) (xs : List A) → length xs ≤ k → length (take k xs) ≡ length xs
take-enough zero [] h = refl
take-enough zero (x ∷ xs) h = absurd (omega arith)
take-enough (suc k) [] h = refl
take-enough (suc k) (x ∷ xs) h = ap suc (take-enough k xs (omega arith))

module _ (os : Os) (works : Works os) where
  write-done :
      (e : Fatal) (bytes : List ℕ) (w : World)
      → length bytes ≤ 1024
      → (w' : World) × (write_or_die os e bytes w ≡ done w')
  unfolding write_or_die
  write-done e bytes w le =
      let (k, takes, big) = works.takes w.calls in
      let whole : (length (take k bytes) == length bytes) ≡ true =
        ground (arith, take-enough k bytes (omega arith)) in
      let w' = record w {
        calls = suc w.calls;
        out = patch w.position (take k bytes) w.out;
        position = w.position + length (take k bytes);
      } in
      (w', rw (takes, write_or_die) (rw whole refl))

  pub write-Agree :
      (e : Fatal) (bytes out : List ℕ) (w : World)
      → length bytes ≤ 1024
      → out ≡ w.out
      → AtEnd w
      → Agree Same (ok (out ++ bytes)) (write_or_die os e bytes w)
  write-Agree e bytes out w le o h =
      let (w', d) = write-done e bytes w le in
      let q =
        Written-Appended bytes w w' h
          (ended (Written bytes w) _ w' (write_or_die-Written os e bytes w) d) in
      rw d (both_end (out ++ bytes) w' (ap (λ t. t ++ bytes) o ∙ sym q.out, q.at_end))

  put-done :
      (offset : ℕ) (e : Fatal) (bytes : List ℕ) (w : World)
      → length bytes ≤ 1024
      → (w' : World) × (put os offset e bytes w ≡ done w')
  unfolding seek_or_die
  put-done offset e bytes w le =
      let (w', d) = write-done e bytes (record w { calls = suc w.calls; position = offset }) le in
      (w', rw (works.seeks w.calls, seek_or_die) d)

  put_header-done :
      (sys_size usr_size : ℕ) (w : World)
      → (w' : World) × (put_header os sys_size usr_size w ≡ done w')
  unfolding put_header
  put_header-done sys_size usr_size w =
      let im_size = u32 (sys_size + usr_size + 15) / 16 in
      let (w₁, d₁) =
        put-done 500 image_length_failed (im_size % 256 ∷ im_size / 256 % 256 ∷ [])
          (fprintf (image_message sys_size usr_size) w) (omega arith) in
      let (w₂, d₂) = put-done 512 system_length_failed (three_bytes sys_size) w₁ (omega arith) in
      let (w₃, d₃) = put-done 516 user_length_failed (three_bytes usr_size) w₂ (omega arith) in
      let (w₄, d₄) = put-done 520 user_length_failed (three_bytes 0x7e6a) w₃ (omega arith) in
      (w₄, rw d₁ (rw d₂ (rw d₃ d₄)))

  pub put_header-Agree :
      (sys_size usr_size : ℕ) (out : List ℕ) (w : World)
      → out ≡ w.out
      → Agree
          (λ image w'. image ≡ w'.out)
          (ok (with_header sys_size usr_size out))
          (put_header os sys_size usr_size w)
  put_header-Agree sys_size usr_size out w o =
      let (w', d) = put_header-done sys_size usr_size w in
      let q =
        ended (HeaderPut sys_size usr_size w) _ w' (put_header-HeaderPut os sys_size usr_size w)
          d in
      rw d (both_end _ w' (ap (with_header sys_size usr_size) o ∙ sym q.out))
