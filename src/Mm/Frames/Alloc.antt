-- ===== src/Mm/Frames/Alloc.antt =====
-- `alloc_frame` takes the first free frame of those that it looks at.
use zeos.Common.{
  ℕ, zero, suc, ◌+◌, ◌*◌, ◌%◌, ◌<◌, ◌≤◌, ◌≡◌, ◌≢◌, inl, inr, refl, ap, ◌∙◌, subst, arith,
  Bool-cases, ltb, ◌==◌, if◌then◌else◌, ℤ, pos, negsuc,
}
use zeos.Mm.Frames.{
  PhysMem, set_frame, mark_frames, init_frames, alloc_loop, alloc_frame, alloc_many,
}

-- The frames that `alloc_frame` looks at: every second one from 256 on.
abbrev pub Candidate : ℕ → Type 0
Candidate f = (256 ≤ f) × (f < 1024) × (f % 2 ≡ 0)

-- What `alloc_frame` returns and leaves.
pub data Allocated (m : PhysMem) : ℤ × PhysMem → Type 0 where
  found :
      (f : ℕ) (after : PhysMem)
      → Candidate f
      → m f ≡ 0
      → ((g : ℕ) → Candidate g → g < f → m g ≢ 0)
      → after f ≡ 1
      → ((g : ℕ) → g ≢ f → after g ≡ m g)
      → Allocated m (pos f, after)
  full : ((g : ℕ) → Candidate g → m g ≢ 0) → Allocated m (negsuc 0, m)

alloc_loop-Allocated :
    (fuel i : ℕ) (m : PhysMem)
    → 1024 < i + 2 * fuel
    → 256 ≤ i
    → i % 2 ≡ 0
    → ((g : ℕ) → Candidate g → g < i → m g ≢ 0)
    → Allocated m (alloc_loop fuel i m)
unfolding alloc_loop set_frame
alloc_loop-Allocated zero i m h lo even used = full (λ g c. used g c (omega arith))
alloc_loop-Allocated (suc fuel) i m h lo even used = elim (Bool-cases (ltb i 1024)) [
  | inl more ↦ elim (Bool-cases (m i == 0)) [
    | inl free ↦
        rw (more, free)
          (found i (set_frame i 1 m) (ground arith) (ground arith) used (ground arith)
            (λ g ne. ground arith))
    | inr taken ↦
        rw (more, taken)
          (alloc_loop-Allocated fuel (i + 2) m (omega arith) (omega arith) (omega arith) (λ g c lt.
            elim (Bool-cases (g == i)) [ inl e ↦ ground arith | inr ne ↦ used g c (ground arith) ]))
  ]
  | inr done ↦ rw done (full (λ g c. used g c (ground arith)))
]

-- `alloc_frame` returns the lowest free frame among the even ones from 256 on, marks it as used and no
-- other, or returns -1 and changes nothing if each of them is used.
pub alloc_frame-Allocated : (m : PhysMem) → Allocated m (alloc_frame m)
unfolding alloc_frame
alloc_frame-Allocated m =
    alloc_loop-Allocated 385 256 m (omega arith) (omega arith) (omega arith)
      (λ g c lt. absurd (omega arith))

mark_frames_lem :
    (n i v : ℕ) (m : PhysMem) (j : ℕ)
    → mark_frames n i v m j ≡ (if ltb j i then m j else if ltb j (i + n) then v else m j)
unfolding mark_frames set_frame
mark_frames_lem zero i v m j = ground arith
mark_frames_lem (suc n) i v m j = mark_frames_lem n (i + 1) v (set_frame i v m) j ∙ ground arith

-- `init_frames` marks the kernel's frames as used and all others as free.
init_frames_lem : (m : PhysMem) (f : ℕ) → f < 1024 → init_frames m f ≡ (if ltb f 256 then 1 else 0)
unfolding init_frames
init_frames_lem m f h =
    ground (arith, mark_frames_lem 256 0 1 (mark_frames 1024 0 0 m) f, mark_frames_lem 1024 0 0 m f)

-- After `n` allocations from the map of `init_frames`: the even frames below 256 + 2n are used.
pub record Handed (n : ℕ) (m : PhysMem) : Type 0 where
  taken : (g : ℕ) → Candidate g → g < 256 + 2 * n → m g ≢ 0
  pub left : (g : ℕ) → Candidate g → 256 + 2 * n ≤ g → m g ≡ 0

pub init_frames-Handed : (m : PhysMem) → Handed 0 (init_frames m)
init_frames-Handed m = record {
  taken = λ g c lt. absurd (omega arith);
  left = λ g c le. ground (arith, init_frames_lem m g);
}

pub Allocated-Handed :
    (n : ℕ) (m : PhysMem) {r : ℤ × PhysMem}
    → Handed n m
    → n < 384
    → Allocated m r
    → (r.0 ≡ pos (256 + 2 * n)) × Handed (suc n) r.1
Allocated-Handed n m h lt (full used) =
    absurd (used (256 + 2 * n) (omega arith) (h.left (256 + 2 * n) (omega arith) (omega arith)))
Allocated-Handed n m h lt (found f after c free low mark others) =
    let e : f ≡ 256 + 2 * n =
      ground (arith, h.taken f c, low (256 + 2 * n), h.left (256 + 2 * n)) in
    (
      ap pos e,
      record {
        taken = λ g d l. ground (arith, others g, h.taken g d);
        left = λ g d l. ground (arith, others g, h.left g d);
      },
    )

Allocated-full : (m : PhysMem) {r : ℤ × PhysMem} → Handed 384 m → Allocated m r → r ≡ (negsuc 0, m)
Allocated-full m h (full used) = refl
Allocated-full m h (found f after c free low mark others) = absurd (h.taken f c (omega arith) free)

alloc_many-Handed :
    (n k : ℕ) (m : PhysMem) → Handed k m → k + n ≤ 384 → Handed (k + n) (alloc_many n m)
unfolding alloc_many
alloc_many-Handed zero k m h le = subst (λ t. Handed t m) (omega arith) h
alloc_many-Handed (suc n) k m h le =
    subst (λ t. Handed t (alloc_many n (alloc_frame m).1)) (omega arith)
      (alloc_many-Handed n (suc k) (alloc_frame m).1
        (Allocated-Handed k m h (omega arith) (alloc_frame-Allocated m)).1 (omega arith))

-- From the map of `init_frames`, the allocation number `n` returns frame 256 + 2n for each n below
-- 384, and the one after these returns -1.
pub alloc_many-init_frames :
    (n : ℕ) (m : PhysMem)
    → n ≤ 384
    → (alloc_frame (alloc_many n (init_frames m))).0
      ≡ (if ltb n 384 then pos (256 + 2 * n) else negsuc 0)
alloc_many-init_frames n m le =
    let h : Handed n (alloc_many n (init_frames m)) =
      subst (λ t. Handed t (alloc_many n (init_frames m))) {x = 0 + n} (omega arith)
        (alloc_many-Handed n 0 (init_frames m) (init_frames-Handed m) (omega arith)) in
    elim (Bool-cases (ltb n 384)) [
      | inl lt ↦ rw lt (Allocated-Handed n _ h (ground arith) (alloc_frame-Allocated _)).0
      | inr ge ↦
          let e : n ≡ 384 = ground arith in
          rw ge (
            ap (λ (r : ℤ × PhysMem). r.0)
              (Allocated-full _ (subst (λ t. Handed t (alloc_many n (init_frames m))) e h)
                (alloc_frame-Allocated _)))
    ]
