-- ===== src/Image/Blocks.antt =====
-- Blocks of an image that are written, and the blocks that are read afterwards.
use aetherfs.Base.{
  ℕ, zero, suc, ◌^◌, ◌≤◌, ◌<◌, ◌≡◌, ◌≢◌, inl, inr, ap, List, some, ok, arith, Result-cases, lt→ltb,
}
use aetherfs.Format.{max_devices, data_start_block}
use aetherfs.Pool.{
  Pool, Mapping, pool_data_mask, pool_role_mask_for_bootstrap_block, pool_map_data_block,
  pool_map_mirror,
}
use aetherfs.Pool.Mask.{mask_count, mask_nth, mask_nth_total, mask_first-mask_nth}
use aetherfs.Pool.Mask.{mask_count_pos, mask_nth-lt-mask_count}
use aetherfs.Pool.Bounds.{pool_data_mask-lt, pool_metadata_mask-lt, pool_log_mask-lt}
use aetherfs.Image.Device.{Disk}
use aetherfs.Image.{
  Image, read_physical_member, write_physical_member, write_replicas, read_replicas, write_mapped,
  write_parity, image_read_block, image_write_block, xor_blocks,
}
use aetherfs.Image.Physical.{
  max_block, pool-write_physical_member, read_physical_member-write_physical_member,
}
use aetherfs.Image.Replicas.{pool-write_replicas, read_physical_member-write_replicas}

pub role_mask-lt :
    (p : Pool) (b : ℕ)
    → p.member_count ≤ max_devices
    → pool_role_mask_for_bootstrap_block p b < 2 ^ max_devices
unfolding pool_role_mask_for_bootstrap_block
role_mask-lt p b h = ground (arith, pool_metadata_mask-lt p h, pool_log_mask-lt p h)

module _ (D : Disk) where
  open D use {Fd}

  -- A replicated write leaves the block in the member of every ordinal.
  pub replicas_written :
      (i : Image Fd) (mask b : ℕ) (x : List ℕ) (j m : ℕ)
      → mask < 2 ^ max_devices
      → b < max_block
      → j < mask_count mask
      → mask_nth mask j ≡ some m
      → (write_replicas D i mask b x (mask_count mask) 0).0 ≡ ok tt
      → read_physical_member D (write_replicas D i mask b x (mask_count mask) 0).1 m b ≡ ok x
  replicas_written i mask b x j m small hb lt here done =
      read_physical_member-write_replicas D mask b x (mask_count mask) 0 j i m hb (omega arith)
        (omega arith) (λ t p. mask_nth_total mask t small (omega arith)) here done

  read_replicas_first :
      (i : Image Fd) (mask b n m : ℕ) (x : List ℕ)
      → 0 < n
      → mask_nth mask 0 ≡ some m
      → read_physical_member D i m b ≡ ok x
      → read_replicas D i mask b n 0 ≡ ok x
  unfolding read_replicas
  read_replicas_first i mask b zero m x h e r = elim h [ ]
  read_replicas_first i mask b (suc n) m x h e r = ground arith

  pub replicas_read_back :
      (i : Image Fd) (mask b : ℕ) (x : List ℕ)
      → mask < 2 ^ max_devices
      → mask ≢ 0
      → b < max_block
      → (write_replicas D i mask b x (mask_count mask) 0).0 ≡ ok tt
      → read_replicas D
          (write_replicas D i mask b x (mask_count mask) 0).1
          mask
          b
          (mask_count mask)
          0
        ≡ ok x
  replicas_read_back i mask b x small ne hb done =
      let pos = mask_count_pos mask small ne in
      let (m, e) = mask_nth_total mask 0 small pos in
      read_replicas_first _ mask b (mask_count mask) m x pos e
        (replicas_written i mask b x 0 m small hb pos e done)

  pub parity_read_back :
      (i : Image Fd) (m : Mapping) (x : List ℕ)
      → (write_parity D i m x).0 ≡ ok tt
      → read_physical_member D (write_parity D i m x).1 m.member_index m.member_block ≡ ok x
  unfolding write_parity
  parity_read_back i m x done =
      elim (Result-cases (read_physical_member D i m.member_index m.member_block)) [
        | inl (e, p) ↦ ground arith
        | inr (old, p) ↦
            elim (Result-cases (read_physical_member D i m.parity_member_index m.member_block)) [
              | inl (e, q) ↦ ground arith
              | inr (parity, q) ↦ ground (
                arith,
                read_physical_member-write_physical_member D
                    (write_physical_member D i m.parity_member_index m.member_block
                      (xor_blocks (xor_blocks parity old) x)).1
                    m.member_index m.member_block x,
              )
            ]
      ]

  mirror_read_back :
      (i : Image Fd) (b : ℕ) (m : Mapping) (x : List ℕ)
      → i.pool.member_count ≤ max_devices
      → m.member_block < max_block
      → pool_map_mirror i.pool b ≡ ok m
      → (write_replicas D i
          (pool_data_mask i.pool)
          m.member_block
          x
          (mask_count (pool_data_mask i.pool))
          0).0
        ≡ ok tt
      → read_physical_member D
          (write_replicas D i
            (pool_data_mask i.pool)
            m.member_block
            x
            (mask_count (pool_data_mask i.pool))
            0).1
          m.member_index
          m.member_block
        ≡ ok x
  unfolding pool_map_mirror
  mirror_read_back i b m x small hb e done =
      let mask-lt = pool_data_mask-lt i.pool small in
      let first : mask_nth (pool_data_mask i.pool) 0 ≡ some m.member_index =
        ground (arith, mask_first-mask_nth (pool_data_mask i.pool)) in
      replicas_written i (pool_data_mask i.pool) m.member_block x 0 m.member_index mask-lt hb
        (mask_nth-lt-mask_count (pool_data_mask i.pool) 0 m.member_index mask-lt first) first done

  pub mapped_read_back :
      (i : Image Fd) (b : ℕ) (m : Mapping) (x : List ℕ)
      → i.pool.member_count ≤ max_devices
      → m.member_block < max_block
      → pool_map_data_block i.pool b ≡ ok m
      → (write_mapped D i m x).0 ≡ ok tt
      → read_physical_member D (write_mapped D i m x).1 m.member_index m.member_block ≡ ok x
  unfolding write_mapped pool_map_data_block
  mapped_read_back i b m x small hb e done = ground (
    arith,
    read_physical_member-write_physical_member D i m.member_index m.member_block x,
    mirror_read_back i b m x small hb,
    parity_read_back i m x,
  )

  pub read_bootstrap :
      (j : Image Fd) (p : Pool) (b : ℕ)
      → j.pool ≡ p
      → b < data_start_block
      → image_read_block D j b
        ≡ read_replicas D j
            (pool_role_mask_for_bootstrap_block p b)
            b
            (mask_count (pool_role_mask_for_bootstrap_block p b))
            0
  unfolding image_read_block
  read_bootstrap j p b e lo = rw (← e, lt→ltb _ _ lo)

  pub read_data :
      (j : Image Fd) (p : Pool) (b : ℕ) (m : Mapping)
      → j.pool ≡ p
      → data_start_block ≤ b
      → pool_map_data_block p b ≡ ok m
      → image_read_block D j b ≡ read_physical_member D j m.member_index m.member_block
  unfolding image_read_block
  read_data j p b m e hi f = ground (arith, ap (λ q. pool_map_data_block q b) e)

  pub write_bootstrap :
      (i : Image Fd) (b : ℕ) (x : List ℕ)
      → b < data_start_block
      → (image_write_block D i b x).0 ≡ ok tt
      → (pool_role_mask_for_bootstrap_block i.pool b ≢ 0)
        × (image_write_block D i b x
            ≡ write_replicas D i
                (pool_role_mask_for_bootstrap_block i.pool b)
                b
                x
                (mask_count (pool_role_mask_for_bootstrap_block i.pool b))
                0)
  unfolding image_write_block
  write_bootstrap i b x lo done = ground arith

  pub write_data :
      (i : Image Fd) (b : ℕ) (x : List ℕ)
      → data_start_block ≤ b
      → (image_write_block D i b x).0 ≡ ok tt
      → (m : Mapping) × (pool_map_data_block i.pool b ≡ ok m)
        × (image_write_block D i b x ≡ write_mapped D i m x)
  unfolding image_write_block
  write_data i b x hi done = elim (Result-cases (pool_map_data_block i.pool b)) [
    | inl (e, f) ↦ ground arith
    | inr (m, f) ↦ (m, f, ground arith)
  ]

  pool-write_parity :
      (i : Image Fd) (m : Mapping) (x : List ℕ) → (write_parity D i m x).1.pool ≡ i.pool
  unfolding write_parity
  pool-write_parity i m x = grind (arith, pool-write_physical_member)

  pub pool-write_mapped :
      (i : Image Fd) (m : Mapping) (x : List ℕ) → (write_mapped D i m x).1.pool ≡ i.pool
  unfolding write_mapped
  pool-write_mapped i m x = ground (
    arith,
    pool-write_physical_member D i m.member_index m.member_block x,
    pool-write_replicas D (pool_data_mask i.pool) m.member_block x
        (mask_count (pool_data_mask i.pool)) 0 i,
    pool-write_parity i m x,
  )

  -- A block write leaves the description of the pool as it was.
  pub pool-image_write_block :
      (i : Image Fd) (b : ℕ) (x : List ℕ) → (image_write_block D i b x).1.pool ≡ i.pool
  unfolding image_write_block
  pool-image_write_block i b x = elim (Result-cases (pool_map_data_block i.pool b)) [
    | inl (e, f) ↦ ground (
      arith,
      pool-write_replicas D (pool_role_mask_for_bootstrap_block i.pool b) b x
          (mask_count (pool_role_mask_for_bootstrap_block i.pool b)) 0 i,
    )
    | inr (m, f) ↦ ground (
      arith,
      pool-write_mapped i m x,
      pool-write_replicas D (pool_role_mask_for_bootstrap_block i.pool b) b x
          (mask_count (pool_role_mask_for_bootstrap_block i.pool b)) 0 i,
    )
  ]
