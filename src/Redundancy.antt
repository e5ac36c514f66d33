-- ===== src/Redundancy.antt =====
-- aetherfsprogs/image.c: the checks that the copies of a pool agree,
-- `aetherfs_image_validate_pool_redundancy` and what it calls.
pub mod Agree
use aetherfs.Base.{
  ℕ, zero, suc, ◌+◌, ◌-◌, Bool, true, false, ◌&&◌, not, List, [], ◌∷◌, none, some, Result, Rc, ok,
  err, einval, eilseq, ltb, leb, ◌==◌, if◌then◌else◌, ◌>>=◌, ◌>>◌, fail_if, replicate,
}
use aetherfs.Format.{
  def_block_size, data_start_block, superblock_block, profile_mirror, profile_parity,
}
use aetherfs.Pool.{
  pool_profile, pool_data_mask, pool_map_parity, pool_role_mask_for_bootstrap_block,
}
use aetherfs.Pool.Mask.{mask_count, mask_nth, mask_first}
use aetherfs.Image.Device.{Disk}
use aetherfs.Image.{Image, read_physical_member, xor_blocks}

-- `struct aetherfs_interval`.
pub record Interval : Type 0 where
  pub start : ℕ
  pub len : ℕ

-- `memcmp(a, b, sizeof(a)) == 0` of two blocks.
unfoldable pub same_bytes : List ℕ → List ℕ → Bool
same_bytes [] [] = true
same_bytes [] (y ∷ ys) = false
same_bytes (x ∷ xs) [] = false
same_bytes (x ∷ xs) (y ∷ ys) = x == y && same_bytes xs ys

unfoldable pub all_zero : List ℕ → Bool
all_zero [] = true
all_zero (x ∷ xs) = x == 0 && all_zero xs

module _ (D : Disk) where
  open D use {Fd}

  -- The loop over the other members of a mask, from `ordinal` on, `n` of them.
  unfoldable pub compare_replicas : Image Fd → ℕ → ℕ → List ℕ → ℕ → ℕ → Rc
  compare_replicas image mask block baseline zero ordinal = ok tt
  compare_replicas image mask block baseline (suc n) ordinal =
      let rest = compare_replicas image mask block baseline n (ordinal + 1) in
      elim (mask_nth mask ordinal) [
        | none ↦ err einval
        | some member ↦ elim (read_physical_member D image member block) [
          | err e ↦ err e
          | ok candidate ↦ if same_bytes baseline candidate then rest else err eilseq
        ]
      ]

  -- One block of the masks' members against that of the first.
  unfoldable pub check_replicas : Image Fd → ℕ → ℕ → Rc
  check_replicas image mask block = elim (mask_first mask) [
    | none ↦ err einval
    | some first ↦ elim (read_physical_member D image first block) [
      | err e ↦ err e
      | ok baseline ↦ compare_replicas image mask block baseline (mask_count mask - 1) 1
    ]
  ]

  -- The loop over the bootstrap blocks, from `block` on, `n` of them.
  unfoldable pub bootstrap_loop : Image Fd → ℕ → ℕ → Rc
  bootstrap_loop image zero block = ok tt
  bootstrap_loop image (suc n) block =
      let mask = pool_role_mask_for_bootstrap_block image.pool block in
      let rest = bootstrap_loop image n (block + 1) in
      if leb (mask_count mask) 1 then rest else check_replicas image mask block >> rest

  unfoldable pub image_validate_bootstrap_replicas : Image Fd → Rc
  image_validate_bootstrap_replicas image =
      bootstrap_loop image (data_start_block - superblock_block) superblock_block

  -- The loop over the blocks of one interval, `n` of them.
  unfoldable pub mirror_blocks : Image Fd → ℕ → ℕ → ℕ → Rc
  mirror_blocks image mask zero block = ok tt
  mirror_blocks image mask (suc n) block =
      check_replicas image mask block >> mirror_blocks image mask n (block + 1)

  unfoldable pub mirror_intervals : Image Fd → ℕ → List Interval → Rc
  mirror_intervals image mask [] = ok tt
  mirror_intervals image mask (used ∷ more) =
      let rest = mirror_intervals image mask more in
      if ltb used.start data_start_block
      then rest
      else mirror_blocks image mask used.len used.start >> rest

  unfoldable pub image_validate_mirror_data : Image Fd → List Interval → Rc
  image_validate_mirror_data image used =
      let mask = pool_data_mask image.pool in
      if leb (mask_count mask) 1 then ok tt else (elim (mask_first mask) [
        | none ↦ err einval
        | some first ↦ mirror_intervals image mask used
      ])

  -- The exclusive or of one block over the members of a mask, from `ordinal` on, `n` of them.
  unfoldable pub row_parity : Image Fd → ℕ → ℕ → List ℕ → ℕ → ℕ → Result (List ℕ)
  row_parity image mask block parity zero ordinal = ok parity
  row_parity image mask block parity (suc n) ordinal = elim (mask_nth mask ordinal) [
    | none ↦ err einval
    | some member ↦ elim (read_physical_member D image member block) [
      | err e ↦ err e
      | ok buf ↦ row_parity image mask block (xor_blocks parity buf) n (ordinal + 1)
    ]
  ]

  unfoldable pub check_parity : Image Fd → ℕ → Rc
  check_parity image block = elim (pool_map_parity image.pool block) [
    | err e ↦ err e
    | ok mapping ↦
        row_parity image (pool_data_mask image.pool) mapping.member_block
          (replicate def_block_size 0) (mask_count (pool_data_mask image.pool)) 0
        >>= λ parity. fail_if (not (all_zero parity)) eilseq
  ]

  unfoldable pub parity_blocks : Image Fd → ℕ → ℕ → Rc
  parity_blocks image zero block = ok tt
  parity_blocks image (suc n) block = check_parity image block >> parity_blocks image n (block + 1)

  unfoldable pub parity_intervals : Image Fd → List Interval → Rc
  parity_intervals image [] = ok tt
  parity_intervals image (used ∷ more) =
      let rest = parity_intervals image more in
      if ltb used.start data_start_block
      then rest
      else parity_blocks image used.len used.start >> rest

  unfoldable pub image_validate_parity : Image Fd → List Interval → Rc
  image_validate_parity image used =
      if ltb (mask_count (pool_data_mask image.pool)) 3
      then err einval
      else parity_intervals image used

  unfoldable pub image_validate_pool_redundancy : Image Fd → List Interval → Rc
  image_validate_pool_redundancy image used =
      image_validate_bootstrap_replicas image
      >> (if pool_profile image.pool == profile_mirror
          then image_validate_mirror_data image used
          else (if pool_profile image.pool == profile_parity
              then image_validate_parity image used
              else ok tt))
