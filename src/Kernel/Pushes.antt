-- ===== src/Kernel/Pushes.antt =====
-- The words that a program pushes, as its stores.
use zeos.Common.{
  ℕ, ◌+◌, ◌/◌, ◌%◌, ◌≤◌, ◌≡◌, refl, subst, arith, fun_ext, List, [], ◌∷◌, ◌++◌, true, some,
}
use zeos.Memory.{Memory, store8, store32}
use zeos.Io.{Console}
use zeos.Kernel.{World, Event, store, handle, in_data, Run, stop, next}
use zeos.Kernel.Invariant.{AllFit}
use zeos.Kernel.Machine.{word_stores}

abbrev pub with_mem : Memory → World → World
with_mem m w = record w { user = record w.user { console = record w.user.console { mem = m } } }

pub append-AllFit : (es fs : List Event) → AllFit es → AllFit fs → AllFit (es ++ fs)
append-AllFit [] fs h k = k
append-AllFit (e ∷ es) fs h k = (h.0, append-AllFit es fs h.1 k)

word_stores-AllFit : (a v : ℕ) → 0x100000 ≤ a → a + 4 ≤ 0x114000 → AllFit (word_stores a v)
word_stores-AllFit a v lo hi = (
  (ground arith, omega arith),
  ((ground arith, omega arith), ((ground arith, omega arith), ((ground arith, omega arith), tt))),
)

-- A word pushed before other events.
pub pushed-AllFit :
    (a v : ℕ) (fs : List Event)
    → 0x100000 ≤ a
    → a + 4 ≤ 0x114000
    → AllFit fs
    → AllFit (word_stores a v ++ fs)
pushed-AllFit a v fs lo hi f = append-AllFit (word_stores a v) fs (word_stores-AllFit a v lo hi) f

store32-store8 :
    (a v : ℕ) (m : Memory)
    → store8
        (a + 3)
        (v / 16777216 % 256)
        (store8 (a + 2) (v / 65536 % 256) (store8 (a + 1) (v / 256 % 256) (store8 a (v % 256) m)))
      ≡ store32 a v m
unfolding store8 store32
store32-store8 a v m = fun_ext (λ b. ground arith)

module _ (show : ℕ → Console → Console) (buff : ℕ) where
  pub append-Run :
      (s t u : World) (es fs : List Event)
      → Run show buff s es t
      → Run show buff t fs u
      → Run show buff s (es ++ fs) u
  append-Run s t u [] fs stop k = k
  append-Run s t u (e ∷ es) fs (next {t = r} h n) k = next h (append-Run r t u es fs n k)

  store_lem :
      (a v : ℕ) (m : Memory) (w : World)
      → in_data a ≡ true
      → handle show buff (store a v) (with_mem m w) ≡ some (with_mem (store8 a v m) w)
  unfolding handle
  store_lem a v m w inside = rw inside refl

  -- Pushing a word is storing its four bytes.
  word_stores-Run :
      (a v : ℕ) (m : Memory) (w : World)
      → 0x100000 ≤ a
      → a + 4 ≤ 0x114000
      → Run show buff (with_mem m w) (word_stores a v) (with_mem (store32 a v m) w)
  word_stores-Run a v m w lo hi =
      subst (λ m'. Run show buff (with_mem m w) (word_stores a v) (with_mem m' w))
        (store32-store8 a v m)
        (next (store_lem a (v % 256) m w (ground arith)) (
          next (store_lem (a + 1) (v / 256 % 256) _ w (ground arith)) (
            next (store_lem (a + 2) (v / 65536 % 256) _ w (ground arith))
              (next (store_lem (a + 3) (v / 16777216 % 256) _ w (ground arith)) stop))))

  pub pushed-Run :
      (a v : ℕ) (m : Memory) (w u : World) (fs : List Event)
      → 0x100000 ≤ a
      → a + 4 ≤ 0x114000
      → Run show buff (with_mem (store32 a v m) w) fs u
      → Run show buff (with_mem m w) (word_stores a v ++ fs) u
  pushed-Run a v m w u fs lo hi r =
      append-Run (with_mem m w) (with_mem (store32 a v m) w) u (word_stores a v) fs
        (word_stores-Run a v m w lo hi) r
