-- ===== src/Image/Replicas.antt =====
-- The loop that writes one block to every member of a mask.
use aetherfs.Base.{
  ℕ, zero, suc, ◌+◌, ◌≤◌, ◌<◌, ◌≡◌, ◌≢◌, inl, inr, refl, List, some, ok, arith, Option-cases, ap,
  ◌∙◌,
}
use aetherfs.Pool.Mask.{mask_nth}
use aetherfs.Image.Device.{Disk}
use aetherfs.Image.{Image, read_physical_member, write_physical_member, write_replicas}
use aetherfs.Image.Physical.{
  max_block, pool-write_physical_member, read_physical_member-write_physical_member,
  read_physical_member-write_physical_member_ne,
}
use native.Mathlib.Decide.{ℕ_discrete}

module _ (D : Disk) (mask b : ℕ) (x : List ℕ) where
  open D use {Fd}

  pub pool-write_replicas :
      (n k : ℕ) (i : Image Fd)
      → ((write_replicas D i mask b x n k).1.pool ≡ i.pool)
        × ((write_replicas D i mask b x n k).1.writable ≡ i.writable)
  unfolding write_replicas
  pool-write_replicas zero k i = (refl, refl)
  pool-write_replicas (suc n) k i = elim (Option-cases (mask_nth mask k)) [
    | inl e ↦ ground arith
    | inr (m, e) ↦ ground (
      arith,
      pool-write_physical_member D i m b x,
      pool-write_replicas n (k + 1) (write_physical_member D i m b x).1,
    )
  ]

  pub read_physical_member-write_replicas_ne :
      (n k : ℕ) (i : Image Fd) (m c : ℕ)
      → b < max_block
      → c < max_block
      → b ≢ c
      → read_physical_member D (write_replicas D i mask b x n k).1 m c
        ≡ read_physical_member D i m c
  unfolding write_replicas
  read_physical_member-write_replicas_ne zero k i m c hb hc ne = refl
  read_physical_member-write_replicas_ne (suc n) k i m c hb hc ne =
      elim (Option-cases (mask_nth mask k)) [
        | inl e ↦ ground arith
        | inr (d, e) ↦ ground (
          arith,
          read_physical_member-write_physical_member_ne D i d b m c x hb hc (inr ne),
          read_physical_member-write_replicas_ne n (k + 1) (write_physical_member D i d b x).1 m c
              hb hc ne,
        )
      ]

  keep_one :
      (i : Image Fd) (d m : ℕ)
      → b < max_block
      → (write_physical_member D i d b x).0 ≡ ok tt
      → read_physical_member D i m b ≡ ok x
      → read_physical_member D (write_physical_member D i d b x).1 m b ≡ ok x
  keep_one i d m hb done h = elim (ℕ_discrete d m) [
    | yes same ↦ ground (arith, read_physical_member-write_physical_member D i d b x done)
    | no other ↦ read_physical_member-write_physical_member_ne D i d b m b x hb hb (inl other) ∙ h
  ]

  keep :
      (n k : ℕ) (i : Image Fd) (m : ℕ)
      → b < max_block
      → (write_replicas D i mask b x n k).0 ≡ ok tt
      → read_physical_member D i m b ≡ ok x
      → read_physical_member D (write_replicas D i mask b x n k).1 m b ≡ ok x
  unfolding write_replicas
  keep zero k i m hb done h = h
  keep (suc n) k i m hb done h = elim (Option-cases (mask_nth mask k)) [
    | inl e ↦ ground arith
    | inr (d, e) ↦
        ground (arith, keep_one i d m hb, keep n (k + 1) (write_physical_member D i d b x).1 m hb)
  ]

  -- A loop that succeeds leaves the block in each member that it came to.
  pub read_physical_member-write_replicas :
      (n k j : ℕ) (i : Image Fd) (m : ℕ)
      → b < max_block
      → k ≤ j
      → j < k + n
      → ((t : ℕ) → t < k + n → (r : ℕ) × (mask_nth mask t ≡ some r))
      → mask_nth mask j ≡ some m
      → (write_replicas D i mask b x n k).0 ≡ ok tt
      → read_physical_member D (write_replicas D i mask b x n k).1 m b ≡ ok x
  unfolding write_replicas
  read_physical_member-write_replicas zero k j i m hb lo hi all here done = absurd (omega arith)
  read_physical_member-write_replicas (suc n) k j i m hb lo hi all here done =
      let (d, e) = all k (omega arith) in
      elim (ℕ_discrete k j) [
        | yes same ↦ ground (
          arith,
          ap (mask_nth mask) same,
          read_physical_member-write_physical_member D i d b x,
          keep n (k + 1) (write_physical_member D i d b x).1 m hb,
        )
        | no other ↦ ground (
          arith,
          read_physical_member-write_replicas n (k + 1) j (write_physical_member D i d b x).1 m hb
              (omega arith) (omega arith) (λ t lt. all t (omega arith)) here,
        )
      ]
