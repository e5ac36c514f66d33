-- ===== src/Image/RoundTrip.antt =====
-- A block that was written is read back.
use aetherfs.Base.{ℕ, ◌≤◌, ◌<◌, ◌≡◌, sym, ◌∙◌, ap, List, ok, arith}
use aetherfs.Format.{max_devices, data_start_block}
use aetherfs.Pool.{pool_role_mask_for_bootstrap_block}
use aetherfs.Pool.Mask.{mask_count}
use aetherfs.Pool.Disjoint.{pool_map_data_block-IsPlaced}
use aetherfs.Image.Device.{Disk}
use aetherfs.Image.{Image, read_physical_member, read_replicas, image_read_block, image_write_block}
use aetherfs.Image.Physical.{max_block}
use native.Mathlib.Decide.{dec_lt}
use aetherfs.Image.Blocks.{
  role_mask-lt, replicas_read_back, mapped_read_back, read_bootstrap, read_data, write_bootstrap,
  write_data, pool-image_write_block,
}

module _ (D : Disk) where
  open D use {Fd}

  bootstrap_read_back :
      (i : Image Fd) (b : ℕ) (x : List ℕ)
      → i.pool.member_count ≤ max_devices
      → b < data_start_block
      → (image_write_block D i b x).0 ≡ ok tt
      → image_read_block D (image_write_block D i b x).1 b ≡ ok x
  bootstrap_read_back i b x small lo done =
      let mask = pool_role_mask_for_bootstrap_block i.pool b in
      let w = write_bootstrap D i b x lo done in
      read_bootstrap D (image_write_block D i b x).1 i.pool b (pool-image_write_block D i b x) lo
      ∙ ap (λ t. read_replicas D t.1 mask b (mask_count mask) 0) w.1
      ∙ replicas_read_back D i mask b x (role_mask-lt i.pool b small) w.0 (omega arith)
          (ap (λ t. t.0) (sym w.1) ∙ done)

  data_read_back :
      (i : Image Fd) (b : ℕ) (x : List ℕ)
      → i.pool.member_count ≤ max_devices
      → data_start_block ≤ b
      → b < max_block
      → (image_write_block D i b x).0 ≡ ok tt
      → image_read_block D (image_write_block D i b x).1 b ≡ ok x
  data_read_back i b x small hi hb done =
      let (m, e, w) = write_data D i b x hi done in
      let placed = pool_map_data_block-IsPlaced i.pool b m hi (omega arith) e in
      read_data D (image_write_block D i b x).1 i.pool b m (pool-image_write_block D i b x) hi e
      ∙ ap (λ t. read_physical_member D t.1 m.member_index m.member_block) w
      ∙ mapped_read_back D i b m x small (omega (arith, placed.near)) e
          (ap (λ t. t.0) (sym w) ∙ done)

  -- In a pool of at most eight members, a block that was written without an error is read back, be it
  -- a bootstrap block or, under any profile, a data block, of a number below 2 ^ 52.
  pub image_read_block-image_write_block :
      (i : Image Fd) (b : ℕ) (x : List ℕ)
      → i.pool.member_count ≤ max_devices
      → b < max_block
      → (image_write_block D i b x).0 ≡ ok tt
      → image_read_block D (image_write_block D i b x).1 b ≡ ok x
  image_read_block-image_write_block i b x small hb done = elim (dec_lt b data_start_block) [
    | yes lo ↦ bootstrap_read_back i b x small lo done
    | no hi ↦ data_read_back i b x small (omega arith) hb done
  ]
