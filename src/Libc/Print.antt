-- ===== src/Libc/Print.antt =====
-- Printing strings and numbers through the system call.
use zeos.Common.{
  ℕ, zero, suc, ◌+◌, ◌<◌, ◌≤◌, ◌≡◌, refl, ap, ap₂, subst, false, ◌∙◌, arith, List, [], ◌∷◌, ◌++◌,
  append_assoc, length, ℤ, pos, Option, some, is_neg,
}
use zeos.Memory.{Memory, IsString, bytes_at, store8}
use zeos.Memory.Laws.{store8-IsBytes, store8_self}
use zeos.Io.Print.{IsValid, print_all-port, print_all-off}
use zeos.Devices.Laws.{BlockOff}
use zeos.Sys.Write.{sys_write-Done}
use zeos.Syscall.{User, user_write}
use zeos.Syscall.Dispatch.{user_write-sys_write}
use zeos.Libc.{strlen, strlen_loop, print, printchar, println, then_newline, with_mem}

strlen_loop_lem :
    (fuel i a : ℕ) (m : Memory) (cs : List ℕ)
    → IsString m (a + i) cs
    → length cs < fuel
    → strlen_loop fuel i a m ≡ some (i + length cs)
unfolding strlen_loop
strlen_loop_lem zero i a m cs s h = elim h [ ]
strlen_loop_lem (suc fuel) i a m [] s h = ground arith
strlen_loop_lem (suc fuel) i a m (c ∷ cs) s h = ground (
  arith,
  s,
  strlen_loop_lem fuel (i + 1) a m cs
      (subst (λ t. IsString m t cs) {x = a + i + 1} (omega arith) s.2),
)

-- `strlen` ends on a string, and counts its characters.
strlen_lem :
    (fuel a : ℕ) (m : Memory) (cs : List ℕ)
    → IsString m a cs
    → length cs < fuel
    → strlen fuel a m ≡ some (length cs)
unfolding strlen
strlen_lem fuel a m cs s h =
    strlen_loop_lem fuel 0 a m cs (subst (λ t. IsString m t cs) {x = a} (omega arith) s) h
    ∙ ap some (omega arith)

string-bytes : (m : Memory) (p : ℕ) (cs : List ℕ) → IsString m p cs → bytes_at m p (length cs) ≡ cs
unfolding bytes_at
string-bytes m p [] s = refl
string-bytes m p (c ∷ cs) s = ap₂ ◌∷◌ s.0 (string-bytes m (p + 1) cs s.2)

-- The kernel's local buffer lies in kernel memory off the screen.
pub record KernelBuffer (buff : ℕ) : Type 0 where
  pub off : BlockOff buff 128
  pub below : buff + 128 ≤ 0x100000

abbrev pub InUser : (p n : ℕ) → Type 0
InUser p n = (0x100000 ≤ p) × (p + n ≤ 0x11c000)

-- A call returned `n` and printed `cs`: `errno` and user memory are as they were.
pub record Printed (u : User) (cs : List ℕ) (n : ℕ) (r : Option (ℤ × User)) : Type 0 where
  pub after : User
  pub returns : r ≡ some (pos n, after)
  pub port : after.console.port_e9 ≡ u.console.port_e9 ++ cs
  pub same_errno : after.errno ≡ u.errno
  pub same_user_mem : (a : ℕ) → 0x100000 ≤ a → after.console.mem a ≡ u.console.mem a
  pub valid : IsValid after.console

module _ (buff ticks : ℕ) (k : KernelBuffer buff) where
  pub write-Printed :
      (p n : ℕ) (u : User)
      → IsValid u.console
      → InUser p n
      → Printed u (bytes_at u.console.mem p n) n (user_write buff ticks (pos 1) p (pos n) u)
  write-Printed p n u v i =
      let (r, ends, d) = sys_write-Done buff p n u.console v k.off k.below i.0 (omega arith) i.1 in
      let e : is_neg r.0 ≡ false = ap is_neg d.result in
      record {
        after = record { console = r.1; errno = u.errno };
        returns =
            user_write-sys_write buff ticks (pos 1) p (pos n) u r ends
            ∙ rw e (ap (λ t. some (t, record { console = r.1; errno = u.errno })) d.result);
        port = d.printed.same_port ∙ print_all-port (bytes_at u.console.mem p n) u.console;
        same_errno = refl;
        same_user_mem = λ a h.
            d.printed.same_mem a (let b = k.below in omega arith)
            ∙ print_all-off (bytes_at u.console.mem p n) u.console a v (omega arith);
        valid = d.still_valid;
      }

  module _ (fuel : ℕ) where
    -- `print` writes the string at `p`, which lies in user space, and returns its length.
    pub print-Printed :
        (p : ℕ) (cs : List ℕ) (u : User)
        → IsValid u.console
        → IsString u.console.mem p cs
        → InUser p (length cs)
        → length cs < fuel
        → Printed u cs (length cs) (print buff ticks fuel p u)
    unfolding print
    print-Printed p cs u v s i h =
        rw (strlen_lem fuel p u.console.mem cs s h, print)
          (subst
            (λ t. Printed u t (length cs) (user_write buff ticks (pos 1) p (pos (length cs)) u))
            (string-bytes u.console.mem p cs s) (write-Printed p (length cs) u v i))

    printchar-Printed :
        (slot c : ℕ) (u : User)
        → IsValid u.console
        → c < 256
        → InUser slot 1
        → (after : User) × (printchar buff ticks fuel slot c u ≡ some (pos 1, after))
          × (after.console.port_e9 ≡ u.console.port_e9 ++ c ∷ [])
          × (after.errno ≡ u.errno)
          × IsValid after.console
    unfolding printchar bytes_at
    printchar-Printed slot c u v h i =
        let m = store8 slot c u.console.mem in
        let w : IsValid (with_mem m u).console = record {
          column = v.column;
          row = v.row;
          bytes = store8-IsBytes slot c u.console.mem v.bytes;
        } in
        let d = write-Printed slot 1 (with_mem m u) w i in
        (
          d.after,
          d.returns,
          d.port ∙ ap (λ b. u.console.port_e9 ++ b ∷ []) (store8_self slot c u.console.mem h),
          d.same_errno,
          d.valid,
        )

    -- On a valid console, with the kernel's local buffer off the screen, `println` of a string in
    -- user space, with the character's slot there too and fuel above the string's length, returns
    -- one more than the length, prints the string and a newline, leaves `errno` alone and the
    -- console valid.
    println_lem :
        (p slot : ℕ) (cs : List ℕ) (u : User)
        → IsValid u.console
        → IsString u.console.mem p cs
        → InUser p (length cs)
        → InUser slot 1
        → length cs < fuel
        → (after : User) × (println buff ticks fuel p slot u ≡ some (pos (length cs + 1), after))
          × (after.console.port_e9 ≡ u.console.port_e9 ++ (cs ++ 10 ∷ []))
          × (after.errno ≡ u.errno)
          × IsValid after.console
    unfolding println
    println_lem p slot cs u v s i j h =
        let d = print-Printed p cs u v s i h in
        let (after, e, port, errno, valid) =
          printchar-Printed slot 10 d.after d.valid (omega arith) j in
        (
          after,
          rw d.returns (rw (e, then_newline)),
          port ∙ ap (λ t. t ++ 10 ∷ []) d.port ∙ append_assoc u.console.port_e9 cs (10 ∷ []),
          errno ∙ d.same_errno,
          valid,
        )
