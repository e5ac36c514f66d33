-- ===== src/Tests/Mirrors.antt =====
-- A mirror of two members whose copies agree.
use aetherfs.Base.{◌≡◌, refl, List, [], ◌∷◌, some, ok, arith}
use aetherfs.Format.{profile_mirror}
use aetherfs.Pool.{Pool, pool_data_mask, pool_role_mask_for_bootstrap_block}
use aetherfs.Pool.Mask.{mask_nth}
use aetherfs.Image.{Image, read_physical_member}
use aetherfs.Redundancy.{Interval, image_validate_bootstrap_replicas, image_validate_mirror_data}
use aetherfs.Redundancy.Agree.{
  image_validate_bootstrap_replicas_agree, image_validate_mirror_data_agree,
}
use aetherfs.Tests.Store.{store, Store}
use aetherfs.Tests.Blocks.{pool_of, label_of, image_of}

-- Only the log is on both members.
abbrev mirror : Pool
mirror = record (pool_of profile_mirror 2 3) {
  label = record (label_of profile_mirror 2 3) { pl_metadata_mask = 1 };
}

abbrev mirrored : Image Store
mirrored = image_of mirror

abbrev one_block : List Interval
one_block = record { start = 8; len = 1 } ∷ []

replicas_pass : image_validate_bootstrap_replicas store mirrored ≡ ok tt
unfolding image_validate_bootstrap_replicas aetherfs.Redundancy.bootstrap_loop
    aetherfs.Pool.Mask.mask_count aetherfs.Pool.Mask.count_from pool_role_mask_for_bootstrap_block
    aetherfs.Pool.pool_metadata_mask aetherfs.Pool.pool_member_limit_mask
    aetherfs.Pool.pool_log_mask aetherfs.Redundancy.check_replicas aetherfs.Pool.Mask.mask_first
    aetherfs.Pool.Mask.first_from read_physical_member aetherfs.Image.member_read_block
    aetherfs.Tests.Store.store_read aetherfs.Redundancy.compare_replicas mask_nth
    aetherfs.Pool.Mask.nth_from aetherfs.Redundancy.same_bytes
replicas_pass = refl

data_passes : image_validate_mirror_data store mirrored one_block ≡ ok tt
unfolding image_validate_mirror_data aetherfs.Pool.Mask.mask_count aetherfs.Pool.Mask.count_from
    pool_data_mask aetherfs.Pool.pool_member_limit_mask aetherfs.Pool.Mask.mask_first
    aetherfs.Pool.Mask.first_from aetherfs.Redundancy.mirror_intervals
    aetherfs.Redundancy.mirror_blocks aetherfs.Redundancy.check_replicas read_physical_member
    aetherfs.Image.member_read_block aetherfs.Tests.Store.store_read
    aetherfs.Redundancy.compare_replicas mask_nth aetherfs.Pool.Mask.nth_from
    aetherfs.Redundancy.same_bytes
data_passes = refl

log_first : mask_nth (pool_role_mask_for_bootstrap_block mirror 4) 0 ≡ some 0
unfolding mask_nth pool_role_mask_for_bootstrap_block aetherfs.Pool.Mask.nth_from
    aetherfs.Pool.pool_log_mask aetherfs.Pool.pool_member_limit_mask
log_first = refl

log_second : mask_nth (pool_role_mask_for_bootstrap_block mirror 4) 1 ≡ some 1
unfolding mask_nth pool_role_mask_for_bootstrap_block aetherfs.Pool.Mask.nth_from
    aetherfs.Pool.pool_log_mask aetherfs.Pool.pool_member_limit_mask
log_second = refl

data_first : mask_nth (pool_data_mask mirror) 0 ≡ some 0
unfolding mask_nth pool_data_mask aetherfs.Pool.Mask.nth_from aetherfs.Pool.pool_member_limit_mask
data_first = refl

data_second : mask_nth (pool_data_mask mirror) 1 ≡ some 1
unfolding mask_nth pool_data_mask aetherfs.Pool.Mask.nth_from aetherfs.Pool.pool_member_limit_mask
data_second = refl

image_validate_bootstrap_replicas_agree_example :
    read_physical_member store mirrored 0 4 ≡ read_physical_member store mirrored 1 4
image_validate_bootstrap_replicas_agree_example =
    image_validate_bootstrap_replicas_agree store mirrored 4 0 1 0 1 (omega arith) (omega arith)
      (omega arith) replicas_pass log_first log_second

image_validate_mirror_data_agree_example :
    read_physical_member store mirrored 0 8 ≡ read_physical_member store mirrored 1 8
image_validate_mirror_data_agree_example =
    image_validate_mirror_data_agree store mirrored one_block 0 (record { start = 8; len = 1 }) 8 0
      1 0 1 (omega arith) refl (omega arith) (omega arith) (omega arith) data_passes data_first
      data_second
