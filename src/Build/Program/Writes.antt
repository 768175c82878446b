-- ===== src/Build/Program/Writes.antt =====
-- The writes to the standard output.
use zeos.Common.{
  ℕ, zero, suc, ◌+◌, ◌≡◌, refl, sym, ap, ◌∙◌, arith, List, [], ◌∷◌, ◌++◌, length, take,
  length-append, Bool-cases, Option-cases, inl, inr, none, ◌==◌,
}
use zeos.Build.{Fatal, patch}
use zeos.Build.Program.{World, Os, write_or_die, called}
use zeos.Build.Program.Exits.{Ends, die_with-Ends}

take-whole : {A : Type 0} (k : ℕ) (xs : List A) → length (take k xs) ≡ length xs → take k xs ≡ xs
take-whole zero [] h = refl
take-whole zero (x ∷ xs) h = absurd (omega arith)
take-whole (suc k) [] h = refl
take-whole (suc k) (x ∷ xs) h = ap (λ t. x ∷ t) (take-whole k xs (omega arith))

patch-end : (bytes out : List ℕ) → patch (length out) bytes out ≡ out ++ bytes
unfolding patch
patch-end [] [] = refl
patch-end (b ∷ bytes) [] = ap (λ t. b ∷ t) (patch-end bytes [])
patch-end bytes (x ∷ out) = ap (λ t. x ∷ t) (patch-end bytes out)

-- What a complete write does.
pub record Written (bytes : List ℕ) (w w' : World) : Type 0 where
  pub out : w'.out ≡ patch w.position bytes w.out
  pub position : w'.position ≡ w.position + length bytes
  pub stderr : w'.stderr ≡ w.stderr

pub write_or_die-Written :
    (os : Os) (e : Fatal) (bytes : List ℕ) (w : World)
    → Ends (Written bytes w) (write_or_die os e bytes w)
unfolding write_or_die
write_or_die-Written os e bytes w = elim (Option-cases (os.write_takes w.calls)) [
  | inl failed ↦ rw (failed, write_or_die) (die_with-Ends (Written bytes w) e none (called w))
  | inr (k, takes) ↦ elim (Bool-cases (length (take k bytes) == length bytes)) [
    | inl whole ↦
        let all : take k bytes ≡ bytes = take-whole k bytes (ground arith) in
        rw (takes, write_or_die)
          (rw whole (record {
            out = ap (λ t. patch w.position t w.out) all;
            position = ap (λ t. w.position + length t) all;
            stderr = refl;
          }))
    | inr short ↦ rw (takes, write_or_die) (rw short (die_with-Ends (Written bytes w) e none _))
  ]
]

-- The output is written to its end.
abbrev pub AtEnd : World → Type 0
AtEnd w = w.position ≡ length w.out

pub record Appended (bytes : List ℕ) (w w' : World) : Type 0 where
  pub out : w'.out ≡ w.out ++ bytes
  pub at_end : AtEnd w'
  pub stderr : w'.stderr ≡ w.stderr

pub Written-Appended :
    (bytes : List ℕ) (w w' : World) → AtEnd w → Written bytes w w' → Appended bytes w w'
Written-Appended bytes w w' h r =
    let o : w'.out ≡ w.out ++ bytes =
      r.out ∙ ap (λ p. patch p bytes w.out) h ∙ patch-end bytes w.out in
    record {
      out = o;
      at_end = r.position ∙ omega (arith, h, length-append w.out bytes) ∙ ap length (sym o);
      stderr = r.stderr;
    }
