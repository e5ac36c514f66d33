-- ===== src/Mkfs/Writes.antt =====
-- What whole blocks that are written one after the other leave on a disk.
use aetherfs.Base.{
  ℕ, ◌<◌, ◌≡◌, ◌≢◌, ◌∙◌, sym, subst, refl, List, [], ◌∷◌, ok, arith, Result-cases, inl, inr,
}
use aetherfs.Image.{offset_of}
use aetherfs.Image.Device.{Disk}
use aetherfs.Image.Physical.{max_block, offset_apart}
use aetherfs.Mkfs.{write_blocks}

-- No write of the list goes to block `c`.
abbrev pub Avoids : ℕ → List (ℕ × List ℕ) → Type 0
Avoids c [] = Unit {0}
Avoids c ((b, _) ∷ ws) = (b < max_block) × ((b ≢ c) × Avoids c ws)

-- The writes go to different blocks.
abbrev pub AreDistinct : List (ℕ × List ℕ) → Type 0
AreDistinct [] = Unit {0}
AreDistinct ((b, _) ∷ ws) = (b < max_block) × (Avoids b ws × AreDistinct ws)

module _ (D : Disk) where
  open D use {Fd, pread, pwrite, pwrite-pread, pwrite-pread_ne}

  -- Each block of the list reads as the list has it.
  abbrev pub Holds : Fd → List (ℕ × List ℕ) → Type 0
  Holds fd [] = Unit {0}
  Holds fd ((b, x) ∷ ws) = (pread fd (offset_of b) ≡ ok x) × Holds fd ws

  pub pread-write_blocks_ne :
      (fd : Fd) (ws : List (ℕ × List ℕ)) (c : ℕ)
      → c < max_block
      → Avoids c ws
      → pread (write_blocks D fd ws).1 (offset_of c) ≡ pread fd (offset_of c)
  unfolding write_blocks
  pread-write_blocks_ne fd [] c h avoids = refl
  pread-write_blocks_ne fd ((b, x) ∷ ws) c h avoids =
      let w = pwrite fd (offset_of b) x in
      let same =
        pwrite-pread_ne fd (offset_of b) (offset_of c) x (offset_apart b c avoids.0 h avoids.1.0) in
      elim (Result-cases w.0) [
        | inl (e, eq) ↦ ground (arith, same)
        | inr (t, eq) ↦ ground (arith, same, pread-write_blocks_ne w.1 ws c h avoids.1.1)
      ]

  pub write_blocks-Holds :
      (fd : Fd) (ws : List (ℕ × List ℕ))
      → AreDistinct ws
      → (write_blocks D fd ws).0 ≡ ok tt
      → Holds (write_blocks D fd ws).1 ws
  unfolding write_blocks
  write_blocks-Holds fd [] distinct done = tt
  write_blocks-Holds fd ((b, x) ∷ ws) distinct done =
      let w = pwrite fd (offset_of b) x in
      elim (Result-cases w.0) [
        | inl (e, eq) ↦ absurd (ground arith)
        | inr (t, eq) ↦
            let rest : (write_blocks D w.1 ws).0 ≡ ok tt = ground arith in
            let same : (write_blocks D fd ((b, x) ∷ ws)).1 ≡ (write_blocks D w.1 ws).1 =
              ground arith in
            let held : Holds (write_blocks D w.1 ws).1 ((b, x) ∷ ws) = (
              pread-write_blocks_ne w.1 ws b distinct.0 distinct.1.0
                  ∙ pwrite-pread fd (offset_of b) x eq,
              write_blocks-Holds w.1 ws distinct.1.1 rest,
            ) in
            subst (λ f. Holds f ((b, x) ∷ ws)) (sym same) held
      ]
