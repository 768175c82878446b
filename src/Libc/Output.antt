-- ===== src/Libc/Output.antt =====
-- Runs of the C library's functions one after the other: what they print, and which part of the
-- user's memory they may use.
use zeos.Common.{
  ℕ, ◌+◌, ◌<◌, ◌≤◌, ◌≡◌, ◌⊎◌, refl, ap, ◌∙◌, arith, List, [], ◌∷◌, ◌++◌, append_assoc, length, ℤ,
  pos, Option, some,
}
use zeos.Memory.{IsString, bytes_at, store8}
use zeos.Memory.Laws.{store8-IsBytes, store8_self, store8_ne, IsString-ext}
use zeos.Io.Print.{IsValid}
use zeos.Syscall.{User}
use zeos.Libc.{print, printchar, println, then_newline, with_mem}
use zeos.Libc.Print.{KernelBuffer, InUser, write-Printed, print-Printed}

-- From `u` to `after`, `cs` was printed and `errno` became `e`; of the user's memory only the bytes
-- in [lo, hi), the process's stack, may have changed.
pub record Output (lo hi : ℕ) (u : User) (cs : List ℕ) (e : ℤ) (after : User) : Type 0 where
  pub port : after.console.port_e9 ≡ u.console.port_e9 ++ cs
  pub errno : after.errno ≡ e
  pub kept : (a : ℕ) → 0x100000 ≤ a → (a < lo) ⊎ (hi ≤ a) → after.console.mem a ≡ u.console.mem a
  pub valid : IsValid after.console

-- The call returns `n`, with this output.
abbrev pub Says : (lo hi : ℕ) (u : User) (cs : List ℕ) (n : ℕ) → Option (ℤ × User) → Type 0
Says lo hi u cs n r = (after : User) × (r ≡ some (pos n, after)) × Output lo hi u cs u.errno after

pub Output-trans :
    {lo hi : ℕ} {u v w : User} {cs ds : List ℕ} {d e : ℤ}
    → Output lo hi u cs d v
    → Output lo hi v ds e w
    → Output lo hi u (cs ++ ds) e w
Output-trans {u} {cs} {ds} o p = record {
  port = p.port ∙ ap (λ t. t ++ ds) o.port ∙ append_assoc u.console.port_e9 cs ds;
  errno = p.errno;
  kept = λ a h off. p.kept a h off ∙ o.kept a h off;
  valid = p.valid;
}

-- A string outside of the stack is still there.
pub Output-IsString :
    {lo hi : ℕ} {u v : User} {cs : List ℕ} {e : ℤ} (p : ℕ) (ds : List ℕ)
    → Output lo hi u cs e v
    → 0x100000 ≤ p
    → (p + length ds < lo) ⊎ (hi ≤ p)
    → IsString u.console.mem p ds
    → IsString v.console.mem p ds
Output-IsString {u} {v} p ds o h off s =
    IsString-ext u.console.mem v.console.mem p ds (λ a lo hi. o.kept a (omega arith) (omega arith))
      s

module _ (buff ticks fuel lo hi : ℕ) (k : KernelBuffer buff) (low : 0x100000 ≤ lo)
    (high : hi ≤ 0x11c000) where
  pub print-Says :
      (p : ℕ) (cs : List ℕ) (u : User)
      → IsValid u.console
      → IsString u.console.mem p cs
      → InUser p (length cs)
      → length cs < fuel
      → Says lo hi u cs (length cs) (print buff ticks fuel p u)
  print-Says p cs u v s i h =
      let d = print-Printed buff ticks k fuel p cs u v s i h in
      (
        d.after,
        d.returns,
        record {
          port = d.port;
          errno = d.same_errno;
          kept = λ a ha off. d.same_user_mem a ha;
          valid = d.valid;
        },
      )

  module _ (slot : ℕ) (slot_low : lo ≤ slot) (slot_high : slot < hi) where
    printchar-Says :
        (c : ℕ) (u : User)
        → IsValid u.console
        → c < 256
        → Says lo hi u (c ∷ []) 1 (printchar buff ticks fuel slot c u)
    unfolding printchar bytes_at
    printchar-Says c u v h =
        let m = store8 slot c u.console.mem in
        let w : IsValid (with_mem m u).console = record {
          column = v.column;
          row = v.row;
          bytes = store8-IsBytes slot c u.console.mem v.bytes;
        } in
        let d = write-Printed buff ticks k slot 1 (with_mem m u) w (omega arith) in
        (
          d.after,
          d.returns,
          record {
            port =
                d.port ∙ ap (λ b. u.console.port_e9 ++ b ∷ []) (store8_self slot c u.console.mem h);
            errno = d.same_errno;
            kept =
                λ a ha off. d.same_user_mem a ha ∙ store8_ne slot c u.console.mem a (omega arith);
            valid = d.valid;
          },
        )

    -- A text that was printed is followed by a newline.
    pub then_newline-Says :
        (n : ℕ) (cs : List ℕ) (u mid : User)
        → Output lo hi u cs u.errno mid
        → Says lo hi u (cs ++ 10 ∷ []) (n + 1) (then_newline buff ticks fuel slot (pos n, mid))
    unfolding then_newline
    then_newline-Says n cs u mid o =
        let (after, e, p) = printchar-Says 10 mid o.valid (omega arith) in
        (
          after,
          rw (e, then_newline) refl,
          let q = Output-trans o p in
              record { port = q.port; errno = q.errno ∙ o.errno; kept = q.kept; valid = q.valid },
        )

    pub println-Says :
        (p : ℕ) (cs : List ℕ) (u : User)
        → IsValid u.console
        → IsString u.console.mem p cs
        → InUser p (length cs)
        → length cs < fuel
        → Says lo hi u (cs ++ 10 ∷ []) (length cs + 1) (println buff ticks fuel p slot u)
    unfolding println
    println-Says p cs u v s i h =
        let (mid, e, o) = print-Says p cs u v s i h in
        rw e (then_newline-Says (length cs) cs u mid o)
