-- ===== src/Sys/Kept.antt =====
-- What every call of `sys_write` keeps.
use zeos.Common.{
  ℕ, zero, suc, ◌+◌, ◌<◌, ◌≤◌, ◌≡◌, refl, sym, subst, ◌∙◌, arith, inl, inr, ℤ, pos, negsuc, false,
  Bool-cases, ltb, leb, ◌&&◌, Option, some, none, ◌⊎◌, pos_part, ◌≢◌,
}
use zeos.Memory.{bytes_at}
use zeos.Io.{Console}
use zeos.Io.Print.{IsValid, print_all-off}
use zeos.Devices.Laws.{BlockOff}
use zeos.Sys.{sys_write, eq_int}
use zeos.Sys.Write.{Done, Ended, sys_write-Ended}
use zeos.Sys.Errors.{
  Refused, wrong_fd, null_buffer, negative, outside, IsInt, eq_int_iff, sys_write-Refused,
}

-- `after` is a valid console, and the user's memory is as before.
pub record Kept (before after : Console) : Type 0 where
  pub valid : IsValid after
  pub user : (a : ℕ) → 0x100000 ≤ a → after.mem a ≡ before.mem a

-- What a call keeps, and that its result is an `int`.
pub record Served (before : Console) (r : ℤ × Console) : Type 0 where
  pub kept : Kept before r.1
  pub result : IsInt r.0

Refused-IsInt : (fd : ℤ) (buffer : ℕ) (size code : ℤ) → Refused fd buffer size code → IsInt code
Refused-IsInt fd buffer size code (wrong_fd ne) = omega arith
Refused-IsInt fd buffer size code (null_buffer e z) = omega arith
Refused-IsInt fd buffer size code (negative e nz neg) = omega arith
Refused-IsInt fd buffer size code (outside e nz nn out) = omega arith

pub some-injective : {A : Type 0} {a b : A} → some a ≡ some b → a ≡ b
some-injective e = cc

pub none-ne-some : {A : Type 0} {a : A} → none ≢ some a
none-ne-some e = cc

-- A call returns, and keeps what it has to, or a page behind the process's last is missing.
abbrev pub Outcome : Console → (buffer : ℕ) → (size : ℤ) → Option (ℤ × Console) → Type 0
Outcome c buffer size t =
    ((r : ℤ × Console) × (t ≡ some r) × Served c r)
    ⊎ ((t ≡ none) × (0x11c000 < buffer + pos_part size) × (buffer + pos_part size < 0x11d000))

-- What returns is served.
pub Outcome-Served :
    (c : Console) (buffer : ℕ) (size : ℤ) (t : Option (ℤ × Console)) (r : ℤ × Console)
    → Outcome c buffer size t
    → t ≡ some r
    → Served c r
Outcome-Served c buffer size t r (inl (r', e', served)) e =
    let same : r' ≡ r = some-injective (sym e' ∙ e) in subst (Served c) same served
Outcome-Served c buffer size t r (inr (e', _, _)) e = absurd (none-ne-some (sym e' ∙ e))

module _ (buff : ℕ) (stack : BlockOff buff 128) (below : buff + 128 ≤ 0x100000) (c : Console)
    (v : IsValid c) where
  refused :
      (fd : ℤ) (buffer : ℕ) (size : ℤ) {code : ℤ}
      → buffer < 4294967296
      → IsInt size
      → Refused fd buffer size code
      → Outcome c buffer size (sys_write buff fd buffer size c)
  refused fd buffer size {code} hb hs r = inl (
    (code, c),
    sys_write-Refused buff fd buffer size c hb hs r,
    record {
      kept = record { valid = v; user = λ a h. refl };
      result = Refused-IsInt fd buffer size code r;
    },
  )

  done :
      (buffer n : ℕ)
      → n < 2147483648
      → (in_user : 0x100000 ≤ buffer) → (r : ℤ × Console)
      → Done buff buffer n c v stack below in_user r
      → Served c r
  done buffer n lt in_user r d = record {
    kept = record {
      valid = d.still_valid;
      user = λ a h.
          d.printed.same_mem a (omega arith)
          ∙ print_all-off (bytes_at c.mem buffer n) c a v (omega arith);
    };
    result = subst IsInt (sym d.result) lt;
  }

  to_outcome :
      (buffer n : ℕ)
      → n < 2147483648
      → (in_user : 0x100000 ≤ buffer) → {t : Option (ℤ × Console)} → buffer + n < 0x11d000
      → Ended buff buffer n c v stack below in_user t
      → Outcome c buffer (pos n) t
  to_outcome buffer n lt in_user hi (inl (r, e, d)) = inl (r, e, done buffer n lt in_user r d)
  to_outcome buffer n lt in_user hi (inr (e, out)) = inr (e, out, hi)

  pub sys_write-Served :
      (fd : ℤ) (buffer : ℕ) (size : ℤ)
      → buffer < 4294967296
      → IsInt size
      → Outcome c buffer size (sys_write buff fd buffer size c)
  sys_write-Served fd buffer size hb hs = elim (Bool-cases (eq_int fd (pos 1))) [
    | inr differs ↦ refused fd buffer size hb hs (wrong_fd (λ e. absurd (true_of fd e differs)))
    | inl same ↦ to_console fd buffer size hb hs ((eq_int_iff fd (pos 1)).0 same)
  ]
    where
      true_of : (fd : ℤ) → fd ≡ pos 1 → eq_int fd (pos 1) ≡ false → ⊥
      true_of fd e h = ground (arith, (eq_int_iff fd (pos 1)).1 e)

      to_console :
          (fd : ℤ) (buffer : ℕ) (size : ℤ)
          → buffer < 4294967296
          → IsInt size
          → fd ≡ pos 1
          → Outcome c buffer size (sys_write buff fd buffer size c)
      to_console fd zero size hb hs e = refused fd 0 size hb hs (null_buffer e refl)
      to_console fd (suc b) (negsuc n) hb hs e =
          refused fd (suc b) (negsuc n) hb hs (negative e (ground arith) refl)
      to_console fd (suc b) (pos n) hb hs e =
          elim (Bool-cases (leb 0x100000 (suc b) && ltb (suc b + n) 0x11d000)) [
            | inl inside ↦
                subst (λ f. Outcome c (suc b) (pos n) (sys_write buff f (suc b) (pos n) c)) (sym e)
                  (to_outcome (suc b) n hs (ground arith) (ground arith) (
                    sys_write-Ended buff (suc b) n c v stack below (ground arith) (ground arith)
                      (ground arith)))
            | inr not_inside ↦
                refused fd (suc b) (pos n) hb hs (outside e (ground arith) refl (λ i. ground arith))
          ]

  -- Every call of `sys_write` that returns, refused or not, with whatever descriptor, 32-bit address
  -- and `int` size, leaves a valid console valid and the memory from 0x100000 on as it was, if the
  -- local buffer lies in kernel memory off the screen; and every call returns, unless its
  -- block ends between 0x11c000 and 0x11d000, in the page that `access_ok` accepts and the process
  -- has not.
  pub sys_write-Kept :
      (fd : ℤ) (buffer : ℕ) (size : ℤ)
      → buffer < 4294967296
      → IsInt size
      → ((r : ℤ × Console) × (sys_write buff fd buffer size c ≡ some r) × Kept c r.1)
        ⊎ ((sys_write buff fd buffer size c ≡ none)
            × (0x11c000 < buffer + pos_part size)
            × (buffer + pos_part size < 0x11d000))
  sys_write-Kept fd buffer size hb hs = elim (sys_write-Served fd buffer size hb hs) [
    | inl (r, e, served) ↦ inl (r, e, served.kept)
    | inr missing ↦ inr missing
  ]
