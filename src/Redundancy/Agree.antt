-- ===== src/Redundancy/Agree.antt =====
-- What it means for a pool to pass: the copies of a block are equal.
use aetherfs.Base.{
  ℕ, zero, suc, ◌+◌, ◌-◌, ◌^◌, ◌≤◌, ◌<◌, ◌≡◌, refl, sym, ◌∙◌, ap, true, List, [], ◌∷◌, some, ok,
  arith, Option-cases, Result-cases, inl, inr, ◌⊎◌, subst, seq_ok, get_elem?,
}
use aetherfs.Format.{max_devices, data_start_block, superblock_block}
use aetherfs.Pool.{pool_role_mask_for_bootstrap_block, pool_data_mask}
use aetherfs.Pool.Mask.{
  mask_count, mask_nth, mask_first, mask_first-mask_nth, mask_nth-lt-mask_count,
}
use aetherfs.Pool.Bounds.{pool_data_mask-lt}
use aetherfs.Image.Device.{Disk}
use aetherfs.Image.{Image, read_physical_member}
use aetherfs.Image.Blocks.{role_mask-lt}
use aetherfs.Redundancy.{
  Interval, same_bytes, compare_replicas, check_replicas, bootstrap_loop,
  image_validate_bootstrap_replicas, mirror_blocks, mirror_intervals, image_validate_mirror_data,
}
use native.Mathlib.Decide.{dec_lt, ℕ_discrete}

pub same_bytes→eq : (xs ys : List ℕ) → same_bytes xs ys ≡ true → xs ≡ ys
unfolding same_bytes
same_bytes→eq [] [] h = refl
same_bytes→eq [] (y ∷ ys) h = absurd (ground arith)
same_bytes→eq (x ∷ xs) [] h = absurd (ground arith)
same_bytes→eq (x ∷ xs) (y ∷ ys) h = ground (arith, same_bytes→eq xs ys)

module _ (D : Disk) where
  open D use {Fd}

  compared :
      (i : Image Fd) (mask b : ℕ) (x : List ℕ) (n k j m : ℕ)
      → compare_replicas D i mask b x n k ≡ ok tt
      → k ≤ j
      → j < k + n
      → mask_nth mask j ≡ some m
      → read_physical_member D i m b ≡ ok x
  unfolding compare_replicas
  compared i mask b x zero k j m done lo hi at = absurd (omega arith)
  compared i mask b x (suc n) k j m done lo hi at = elim (Option-cases (mask_nth mask k)) [
    | inl e ↦ ground arith
    | inr (d, e) ↦ elim (Result-cases (read_physical_member D i d b)) [
      | inl (r, f) ↦ ground arith
      | inr (y, f) ↦ elim (ℕ_discrete k j) [
        | yes same ↦ ground (arith, same_bytes→eq x y, ap (mask_nth mask) same)
        | no other ↦ ground (arith, compared i mask b x n (k + 1) j m)
      ]
    ]
  ]

  each_is :
      (i : Image Fd) (mask b f : ℕ) (x : List ℕ) (j m : ℕ)
      → mask < 2 ^ max_devices
      → mask_first mask ≡ some f
      → read_physical_member D i f b ≡ ok x
      → compare_replicas D i mask b x (mask_count mask - 1) 1 ≡ ok tt
      → mask_nth mask j ≡ some m
      → read_physical_member D i m b ≡ ok x
  each_is i mask b f x j m small e g done at =
      let lt = mask_nth-lt-mask_count mask j m small at in
      elim (ℕ_discrete j 0) [
        | yes zero_th ↦
            let same : some f ≡ some m =
              sym e ∙ mask_first-mask_nth mask ∙ ap (mask_nth mask) (sym zero_th) ∙ at in
            ground (arith, same)
        | no later ↦
            compared i mask b x (mask_count mask - 1) 1 j m done (omega arith) (omega arith) at
      ]

  -- A block that passes is equal in the members of any two ordinals.
  checked :
      (i : Image Fd) (mask b j k m m' : ℕ)
      → mask < 2 ^ max_devices
      → check_replicas D i mask b ≡ ok tt
      → mask_nth mask j ≡ some m
      → mask_nth mask k ≡ some m'
      → read_physical_member D i m b ≡ read_physical_member D i m' b
  unfolding check_replicas
  checked i mask b j k m m' small done at at' = elim (Option-cases (mask_first mask)) [
    | inl e ↦ ground arith
    | inr (f, e) ↦ elim (Result-cases (read_physical_member D i f b)) [
      | inl (r, g) ↦ ground arith
      | inr (x, g) ↦
          let compare : compare_replicas D i mask b x (mask_count mask - 1) 1 ≡ ok tt =
            ground arith in
          each_is i mask b f x j m small e g compare at
          ∙ sym (each_is i mask b f x k m' small e g compare at')
    ]
  ]

  bootstrap_passed :
      (i : Image Fd) (n from b : ℕ)
      → bootstrap_loop D i n from ≡ ok tt
      → from ≤ b
      → b < from + n
      → (mask_count (pool_role_mask_for_bootstrap_block i.pool b) ≤ 1)
        ⊎ (check_replicas D i (pool_role_mask_for_bootstrap_block i.pool b) b ≡ ok tt)
  unfolding bootstrap_loop
  bootstrap_passed i zero from b done lo hi = absurd (omega arith)
  bootstrap_passed i (suc n) from b done lo hi = elim (ℕ_discrete from b) [
    | yes same ↦
        subst
          (λ t.
            (mask_count (pool_role_mask_for_bootstrap_block i.pool t) ≤ 1)
            ⊎ (check_replicas D i (pool_role_mask_for_bootstrap_block i.pool t) t ≡ ok tt))
          same
          (ground (
            arith,
            seq_ok (check_replicas D i (pool_role_mask_for_bootstrap_block i.pool from) from)
                (bootstrap_loop D i n (from + 1)) tt,
          ))
    | no other ↦ bootstrap_passed i n (from + 1) b (ground arith) (omega arith) (omega arith)
  ]

  -- In a pool of at most eight members whose bootstrap replicas pass, a bootstrap block past the label
  -- is read alike from any two of the members that hold it.
  pub image_validate_bootstrap_replicas_agree :
      (i : Image Fd) (b j k m m' : ℕ)
      → i.pool.member_count ≤ max_devices
      → superblock_block ≤ b
      → b < data_start_block
      → image_validate_bootstrap_replicas D i ≡ ok tt
      → mask_nth (pool_role_mask_for_bootstrap_block i.pool b) j ≡ some m
      → mask_nth (pool_role_mask_for_bootstrap_block i.pool b) k ≡ some m'
      → read_physical_member D i m b ≡ read_physical_member D i m' b
  unfolding image_validate_bootstrap_replicas
  image_validate_bootstrap_replicas_agree i b j k m m' few lo hi done at at' =
      let mask = pool_role_mask_for_bootstrap_block i.pool b in
      let small = role_mask-lt i.pool b few in
      elim (bootstrap_passed i (data_start_block - superblock_block) superblock_block b done lo
        (omega arith)) [
          | inl one ↦
              let same : j ≡ k = omega (
                arith,
                mask_nth-lt-mask_count mask j m small at,
                mask_nth-lt-mask_count mask k m' small at',
              ) in
              let alike : some m ≡ some m' = sym at ∙ ap (mask_nth mask) same ∙ at' in
              ground (arith, alike)
          | inr passed ↦ checked i mask b j k m m' small passed at at'
        ]

  mirror_passed :
      (i : Image Fd) (mask n from b : ℕ)
      → mirror_blocks D i mask n from ≡ ok tt
      → from ≤ b
      → b < from + n
      → check_replicas D i mask b ≡ ok tt
  unfolding mirror_blocks
  mirror_passed i mask zero from b done lo hi = absurd (omega arith)
  mirror_passed i mask (suc n) from b done lo hi =
      let both =
        seq_ok (check_replicas D i mask from) (mirror_blocks D i mask n (from + 1)) tt done in
      elim (ℕ_discrete from b) [
        | yes same ↦ subst (λ t. check_replicas D i mask t ≡ ok tt) same both.0
        | no other ↦ mirror_passed i mask n (from + 1) b both.1 (omega arith) (omega arith)
      ]

  interval_passed :
      (i : Image Fd) (mask : ℕ) (used : List Interval) (t : ℕ) (v : Interval)
      → mirror_intervals D i mask used ≡ ok tt
      → get_elem? used t ≡ some v
      → data_start_block ≤ v.start
      → mirror_blocks D i mask v.len v.start ≡ ok tt
  unfolding mirror_intervals
  interval_passed i mask [] t v done at lo = absurd (ground arith)
  interval_passed i mask (u ∷ used) zero v done at lo =
      let same : some u ≡ some v = at in
      ground (
        arith,
        same,
        seq_ok (mirror_blocks D i mask u.len u.start) (mirror_intervals D i mask used) tt,
      )
  interval_passed i mask (u ∷ used) (suc t) v done at lo =
      interval_passed i mask used t v
        (ground (
          arith,
          seq_ok (mirror_blocks D i mask u.len u.start) (mirror_intervals D i mask used) tt,
        ))
        at lo

  -- In a pool of at most eight members whose mirrored data pass, a block of a used interval of the data
  -- region is read alike from any two data members.
  pub image_validate_mirror_data_agree :
      (i : Image Fd) (used : List Interval) (t : ℕ) (v : Interval) (b j k m m' : ℕ)
      → i.pool.member_count ≤ max_devices
      → get_elem? used t ≡ some v
      → data_start_block ≤ v.start
      → v.start ≤ b
      → b < v.start + v.len
      → image_validate_mirror_data D i used ≡ ok tt
      → mask_nth (pool_data_mask i.pool) j ≡ some m
      → mask_nth (pool_data_mask i.pool) k ≡ some m'
      → read_physical_member D i m b ≡ read_physical_member D i m' b
  unfolding image_validate_mirror_data
  image_validate_mirror_data_agree i used t v b j k m m' few here lo from upto done at at' =
      let mask = pool_data_mask i.pool in
      let small = pool_data_mask-lt i.pool few in
      let lt = mask_nth-lt-mask_count mask j m small at in
      let lt' = mask_nth-lt-mask_count mask k m' small at' in
      elim (dec_lt 1 (mask_count mask)) [
        | no one ↦
            let same : j ≡ k = omega arith in
            let alike : some m ≡ some m' = sym at ∙ ap (mask_nth mask) same ∙ at' in
            ground (arith, alike)
        | yes many ↦
            let loops : mirror_intervals D i mask used ≡ ok tt = ground arith in
            checked i mask b j k m m' small
              (mirror_passed i mask v.len v.start b (interval_passed i mask used t v loops here lo)
                from upto)
              at at'
      ]
