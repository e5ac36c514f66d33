-- ===== src/Image.antt =====
-- aetherfsprogs/image.c: the blocks of an open image, read and written through the pool.
pub mod Device
pub mod Physical
pub mod Replicas
pub mod Blocks
pub mod RoundTrip
pub mod Frame
use aetherfs.Base.{
  ℕ, zero, suc, ◌+◌, ◌-◌, ◌*◌, ◌^◌, ◌<◌, Bool, true, false, ◌||◌, List, [], ◌∷◌, Option, none, some,
  Result, Rc, ok, err, einval, eio, ebadf, ltb, ◌==◌, if◌then◌else◌, get_elem?, set, u64, bit_xor,
  not,
}
use aetherfs.Format.{
  data_start_block, def_block_size, profile_single, profile_tiered, profile_mirror, profile_stripe,
  profile_parity,
}
use aetherfs.Pool.{
  Pool, Mapping, pool_profile, pool_data_mask, pool_role_mask_for_bootstrap_block,
  pool_map_data_block,
}
use aetherfs.Pool.Mask.{mask_count, mask_nth}
use Device.{Disk}

-- What of `struct aetherfs_image` the block operations use. `fds` holds the descriptor of each
-- member; `none` is -1.
pub record Image (Fd : Type 0) : Type 0 where
  pub pool : Pool
  pub fds : List (Option Fd)
  pub writable : Bool

-- The bytes of two blocks, each with the other's. Both are arrays of one size.
unfoldable pub xor_blocks : List ℕ → List ℕ → List ℕ
xor_blocks [] ys = []
xor_blocks (x ∷ xs) [] = []
xor_blocks (x ∷ xs) (y ∷ ys) = bit_xor x y ∷ xor_blocks xs ys

abbrev pub offset_of : ℕ → ℕ
offset_of block = u64 (block * def_block_size)

module _ (D : Disk) where
  open D use {Fd, pread, pwrite}

  unfoldable pub member_read_block : Option Fd → ℕ → Result (List ℕ)
  member_read_block none block = err einval
  member_read_block (some fd) block = pread fd (offset_of block)

  unfoldable pub read_physical_member : Image Fd → ℕ → ℕ → Result (List ℕ)
  read_physical_member image member block =
      if ltb member image.pool.member_count
      then (elim (get_elem? image.fds member) [
        | none ↦ err einval
        | some fd ↦ member_read_block fd block
      ])
      else err einval

  abbrev put_fd : Image Fd → ℕ → Rc × Fd → Rc × Image Fd
  put_fd image member (rc, fd) = (rc, record image { fds = set image.fds member (some fd) })

  unfoldable pub member_write_block : Image Fd → ℕ → Option Fd → ℕ → List ℕ → Rc × Image Fd
  member_write_block image member none block buf = (err einval, image)
  member_write_block image member (some fd) block buf =
      put_fd image member (pwrite fd (offset_of block) buf)

  unfoldable pub write_physical_member : Image Fd → ℕ → ℕ → List ℕ → Rc × Image Fd
  write_physical_member image member block buf =
      if ltb member image.pool.member_count
      then (elim (get_elem? image.fds member) [
        | none ↦ (err einval, image)
        | some fd ↦ member_write_block image member fd block buf
      ])
      else (err einval, image)

  -- The loop over the replicas of a bootstrap block: the first that can be read.
  unfoldable pub read_replicas : Image Fd → ℕ → ℕ → ℕ → ℕ → Result (List ℕ)
  read_replicas image mask block zero ordinal = err eio
  read_replicas image mask block (suc n) ordinal = elim (mask_nth mask ordinal) [
    | none ↦ err eio
    | some member ↦ elim (read_physical_member image member block) [
      | ok buf ↦ ok buf
      | err e ↦ read_replicas image mask block n (ordinal + 1)
    ]
  ]

  unfoldable pub image_read_block : Image Fd → ℕ → Result (List ℕ)
  image_read_block image block =
      let mask = pool_role_mask_for_bootstrap_block image.pool block in
      if ltb block data_start_block
      then read_replicas image mask block (mask_count mask) 0
      else (elim (pool_map_data_block image.pool block) [
        | err e ↦ err e
        | ok mapping ↦ read_physical_member image mapping.member_index mapping.member_block
      ])

  -- The loop that writes a block to each member of a mask, up to the first failure.
  unfoldable pub write_replicas : Image Fd → ℕ → ℕ → List ℕ → ℕ → ℕ → Rc × Image Fd
  write_replicas image mask block buf zero ordinal = (ok tt, image)
  write_replicas image mask block buf (suc n) ordinal = elim (mask_nth mask ordinal) [
    | none ↦ (ok tt, image)
    | some member ↦
        let w = write_physical_member image member block buf in
        elim w.0 [ err e ↦ (err e, w.1) | ok _ ↦ write_replicas w.1 mask block buf n (ordinal + 1) ]
  ]

  -- The parity profile: the new parity is written first, then the data.
  unfoldable pub write_parity : Image Fd → Mapping → List ℕ → Rc × Image Fd
  write_parity image mapping buf =
      elim (read_physical_member image mapping.member_index mapping.member_block) [
        | err e ↦ (err e, image)
        | ok old_data ↦
            elim (read_physical_member image mapping.parity_member_index mapping.member_block) [
              | err e ↦ (err e, image)
              | ok old_parity ↦
                  let new_parity = xor_blocks (xor_blocks old_parity old_data) buf in
                  let w =
                    write_physical_member image mapping.parity_member_index mapping.member_block
                      new_parity in
                  elim w.0 [
                    | err e ↦ (err e, w.1)
                    | ok _ ↦ write_physical_member w.1 mapping.member_index mapping.member_block buf
                  ]
            ]
      ]

  unfoldable pub write_mapped : Image Fd → Mapping → List ℕ → Rc × Image Fd
  write_mapped image mapping buf =
      let profile = pool_profile image.pool in
      let mask = pool_data_mask image.pool in
      if profile == profile_single || profile == profile_tiered || profile == profile_stripe
      then write_physical_member image mapping.member_index mapping.member_block buf
      else (if profile == profile_mirror
          then write_replicas image mask mapping.member_block buf (mask_count mask) 0
          else (if profile == profile_parity
              then write_parity image mapping buf
              else (err einval, image)))

  unfoldable pub image_write_block : Image Fd → ℕ → List ℕ → Rc × Image Fd
  image_write_block image block buf =
      let mask = pool_role_mask_for_bootstrap_block image.pool block in
      if not image.writable
      then (err ebadf, image)
      else (if ltb block data_start_block
          then (if mask == 0
              then (err einval, image)
              else write_replicas image mask block buf (mask_count mask) 0)
          else (elim (pool_map_data_block image.pool block) [
            | err e ↦ (err e, image)
            | ok mapping ↦ write_mapped image mapping buf
          ]))
