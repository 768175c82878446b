-- ===== src/Build/Sector.antt =====
-- A boot sector that `build` accepts.
use zeos.Common.{
  ℕ, ◌≡◌, refl, sym, ap, ◌∙◌, arith, List, ◌∷◌, ◌++◌, length, take, drop, get_or, length-append,
  length-take, length-drop, Bool, true, false, ◌==◌, not, ◌||◌, if◌then◌else◌,
}
use zeos.Build.{ok, die, no_boot_flag, boot_block_size, boot_sector}

sector-length :
    (buf : List ℕ) → length buf ≡ 512 → length (take 508 buf ++ 0 ∷ 0 ∷ drop 510 buf) ≡ 512
sector-length buf e = omega (
  arith,
  length-append {0} (take 508 buf) (0 ∷ 0 ∷ drop 510 buf),
  length-take {0} 508 buf (omega arith),
  length-drop {0} 510 buf,
)

pub ok-injective : {A : Type 0} {a b : A} → ok a ≡ ok b → a ≡ b
ok-injective e = cc

guarded :
    (a b : Bool) (x boot : List ℕ)
    → (if not a then die boot_block_size else if b then die no_boot_flag else ok x) ≡ ok boot
    → (a ≡ true) × (x ≡ boot)
guarded true false x boot e = (refl, ok-injective e)
guarded true true x boot e = absurd cc
guarded false b x boot e = absurd cc

eq_of : (a b : ℕ) → (a == b) ≡ true → a ≡ b
eq_of a b h = ground arith

module _ (rest boot : List ℕ) (e : boot_sector rest ≡ ok boot) where
  pub boot_sector-read : length (take 1024 rest) ≡ 512
  unfolding boot_sector
  boot_sector-read =
      let buf = take 1024 rest in
      let (l, is) =
        guarded (length buf == 512)
          (not (get_or buf 510 0 == 0x55) || not (get_or buf 511 0 == 0xaa))
          (take 508 buf ++ 0 ∷ 0 ∷ drop 510 buf) boot e in
      eq_of (length buf) 512 l

  pub boot_sector-length : length boot ≡ 512
  unfolding boot_sector
  boot_sector-length =
      let buf = take 1024 rest in
      let (l, is) =
        guarded (length buf == 512)
          (not (get_or buf 510 0 == 0x55) || not (get_or buf 511 0 == 0xaa))
          (take 508 buf ++ 0 ∷ 0 ∷ drop 510 buf) boot e in
      ap length (sym is) ∙ sector-length buf boot_sector-read
