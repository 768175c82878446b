-- ===== src/Sys/Write.antt =====
-- `sys_write` prints the user's bytes, chunk by chunk, and returns their number.
use zeos.Common.{
  ℕ, zero, suc, ◌+◌, ◌-◌, ◌<◌, ◌≤◌, ◌≡◌, inl, inr, refl, sym, ap, ◌∙◌, subst, arith, ℤ, pos, List,
  [], ◌∷◌, ◌++◌,
}
use zeos.Common.{Bool-cases, ltb, Option, some, none, ◌⊎◌}
use zeos.Memory.{bytes_at}
use zeos.Memory.Laws.{bytes_at_ext, bytes_at-append}
use zeos.Io.{Console, printc, print_all}
use zeos.Io.Print.{IsValid, print_all-off}
use zeos.Devices.Laws.{BlockOff}
use zeos.Utils.{access_ok}
use zeos.Utils.Access.{access_ok_iff}
use zeos.Common.{◌%◌, ==_of_ne}
use zeos.Sys.{Writing, lectura, write_chunks, sys_write, check_fd}
use zeos.Sys.Chunk.{Agree, Agree-refl, Agree-trans, print_all-Agree, Printed, write_chunk-cases}

print_all-append :
    (xs ys : List ℕ) (s : Console) → print_all (xs ++ ys) s ≡ print_all ys (print_all xs s)
unfolding print_all
print_all-append [] ys s = refl
print_all-append (x ∷ xs) ys s = print_all-append xs ys (printc x s)

module _ (buff buffer size : ℕ) (c : Console) (valid : IsValid c) (stack : BlockOff buff 128)
    (below : buff + 128 ≤ 0x100000) (user : 0x100000 ≤ buffer) where
  -- The first `current` bytes have been printed, and `left` bytes remain.
  record Progress (w : Writing) : Type 0 where
    is_valid : IsValid w.console
    agree : Agree buff w.console (print_all (bytes_at c.mem buffer w.current) c)
    counted : w.written_chars ≡ w.current
    total : w.current + w.left ≡ size

  -- User memory is as it was.
  user_mem : (w : Writing) → Progress w → (a : ℕ) → buffer ≤ a → w.console.mem a ≡ c.mem a
  user_mem w p a h =
      p.agree.same_mem a (omega arith)
      ∙ print_all-off (bytes_at c.mem buffer w.current) c a valid (omega arith)

  step-Agree :
      (n : ℕ) (w next : Writing)
      → Progress w
      → Printed buff buffer stack n w next
      → Agree buff next.console (print_all (bytes_at c.mem buffer (w.current + n)) c)
  step-Agree n w next p d =
      let same : bytes_at w.console.mem (buffer + w.current) n
          ≡ bytes_at c.mem (buffer + w.current) n =
        bytes_at_ext w.console.mem c.mem (buffer + w.current) (buffer + w.current) n
          (λ i lt. user_mem w p (buffer + w.current + i) (omega arith)) in
      let joined =
        print_all-append (bytes_at c.mem buffer w.current) (bytes_at c.mem (buffer + w.current) n)
          c in
      Agree-trans buff d.agree (
        Agree-trans buff
          (print_all-Agree buff (bytes_at w.console.mem (buffer + w.current) n) w.console
            (print_all (bytes_at c.mem buffer w.current) c) p.agree)
          (subst
            (λ t.
              Agree buff
                (print_all (bytes_at w.console.mem (buffer + w.current) n)
                  (print_all (bytes_at c.mem buffer w.current) c))
                t)
            (ap (λ cs. print_all cs (print_all (bytes_at c.mem buffer w.current) c)) same
              ∙ sym joined
              ∙ ap (λ cs. print_all cs c) (sym (bytes_at-append c.mem buffer w.current n)))
            (Agree-refl buff _)))

  abbrev advanced : (w next : Writing) → Writing
  advanced w next = record next { current = w.current + 128; left = w.left - 128 }

  step-Progress :
      (w next : Writing)
      → Progress w
      → 128 < w.left
      → Printed buff buffer stack 128 w next
      → Progress (advanced w next)
  step-Progress w next p h d = record {
    is_valid = d.valid;
    agree = step-Agree 128 w next p d;
    counted = let e = d.counted in let k = p.counted in omega arith;
    total = let e = p.total in omega arith;
  }

  -- The loop has ended, or a page of the user's block is missing.
  abbrev Looped : Option Writing → Type 0
  Looped r =
      ((w : Writing) × (r ≡ some w) × Progress w × (w.left ≤ 128))
      ⊎ ((r ≡ none) × (0x11c000 < buffer + size))

  write_chunks-Progress :
      (fuel : ℕ) (w : Writing)
      → Progress w
      → w.left < fuel
      → Looped (write_chunks buff buffer fuel w)
  unfolding write_chunks
  write_chunks-Progress zero w p h = absurd (omega arith)
  write_chunks-Progress (suc fuel) w p h = elim (Bool-cases (ltb 128 w.left)) [
    | inr done ↦ rw done (inl (w, refl, p, ground arith))
    | inl more ↦
        elim (write_chunk-cases buff buffer stack 128 w (omega arith) p.is_valid (omega arith)
          (omega arith)) [
            | inl (next, e, d) ↦
                rw (more, e)
                  (write_chunks-Progress fuel (advanced w next)
                    (step-Progress w next p (ground arith) d) (ground arith))
            | inr (e, out) ↦ rw (more, e) (inr (refl, let t = p.total in ground arith))
          ]
  ]

  start : Writing
  start = record { left = size; current = 0; written_chars = 0; console = c }

  start-Progress : Progress start
  unfolding start bytes_at print_all
  start-Progress = record {
    is_valid = valid;
    agree = Agree-refl buff c;
    counted = refl;
    total = omega arith;
  }

  pub record Done (r : ℤ × Console) : Type 0 where
    pub result : r.0 ≡ pos size
    pub printed : Agree buff r.1 (print_all (bytes_at c.mem buffer size) c)
    pub still_valid : IsValid r.1

  final-Done :
      (w next : Writing)
      → Progress w
      → Printed buff buffer stack w.left w next
      → Done (pos next.written_chars, next.console)
  final-Done w next p d =
      let e : w.current + w.left ≡ size = p.total in
      record {
        result = ap pos (d.counted ∙ ap (λ n. n + w.left) p.counted ∙ e);
        printed =
            subst (λ n. Agree buff next.console (print_all (bytes_at c.mem buffer n) c)) e
              (step-Agree w.left w next p d);
        still_valid = d.valid;
      }

  -- The bytes are printed, or a page is missing.
  abbrev pub Ended : Option (ℤ × Console) → Type 0
  Ended r = ((t : ℤ × Console) × (r ≡ some t) × Done t) ⊎ ((r ≡ none) × (0x11c000 < buffer + size))

  pub sys_write-Ended :
      size < 2147483648
      → buffer + size < 0x11d000
      → Ended (sys_write buff (pos 1) buffer (pos size) c)
  unfolding sys_write check_fd start
  sys_write-Ended k fits =
      let ok : access_ok lectura buffer (size % 4294967296) ≡ pos 1 =
        (access_ok_iff lectura buffer (size % 4294967296) (omega arith) (omega arith)).1
          (omega arith) in
      rw (==_of_ne buffer 0 (omega arith), ok)
        (elim (write_chunks-Progress (suc size) start start-Progress (omega arith)) [
          | inr (e, out) ↦ rw e (inr (refl, out))
          | inl (w, e, p, small) ↦
              elim (write_chunk-cases buff buffer stack w.left w small p.is_valid (omega arith)
                (omega arith)) [
                  | inl (next, e', d) ↦ rw (e, e') (inl (_, refl, final-Done w next p d))
                  | inr (e', out) ↦ rw (e, e') (inr (refl, let t = p.total in omega arith))
                ]
        ])

  -- On a valid console, with the local buffer in kernel memory off the screen, `sys_write` to file
  -- descriptor 1 of fewer than 2 ^ 31 bytes that begin in user space and end in the process's pages,
  -- which end at 0x11c000, ends without a page fault: it returns their number and leaves the console
  -- valid, as if the bytes had been printed one after the other; only the 128 bytes of the local
  -- buffer may differ.
  pub sys_write-Done :
      size < 2147483648
      → buffer + size ≤ 0x11c000
      → (r : ℤ × Console) × (sys_write buff (pos 1) buffer (pos size) c ≡ some r) × Done r
  sys_write-Done k fits = elim (sys_write-Ended k (omega arith)) [
    | inl ended ↦ ended
    | inr (e, out) ↦ absurd (omega arith)
  ]
