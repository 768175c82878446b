-- ===== src/Build/Program/Exits.antt =====
-- Reasoning about runs that may exit.
use zeos.Common.{Option, String, refl, ◌≡◌, ◌++◌, ◌∷◌, List, []}
use zeos.Build.{Fatal}
use zeos.Build.Program.{World, Message, Outcome, done, exit, died, die_with, ◌>>=◌}

-- The last message is that of `die`.
pub record IsReported (w : World) : Type 0 where
  pub before : List Message
  pub error : Fatal
  pub name : Option String
  pub last : w.stderr ≡ before ++ died error name ∷ []

module _ {A : Type 0} (P : A → Type 0) where
  -- What holds of the result, if there is one; an exit is reported.
  abbrev pub Ends : Outcome A → Type 0
  Ends (done a) = P a
  Ends (exit w) = IsReported w

  pub die_with-Ends : (e : Fatal) (name : Option String) (w : World) → Ends (die_with e name w)
  unfolding die_with
  die_with-Ends e name w = record { before = w.stderr; error = e; name = name; last = refl }

pub bind-Ends :
    {A B : Type 0} (P : A → Type 0) (Q : B → Type 0) (m : Outcome A) (f : A → Outcome B)
    → Ends P m
    → ((a : A) → P a → Ends Q (f a))
    → Ends Q (m >>= f)
bind-Ends P Q (done a) f h k = k a h
bind-Ends P Q (exit w) f h k = h

pub weaken-Ends :
    {A : Type 0} (P Q : A → Type 0) (m : Outcome A) → ((a : A) → P a → Q a) → Ends P m → Ends Q m
weaken-Ends P Q (done a) k h = k a h
weaken-Ends P Q (exit w) k h = h
