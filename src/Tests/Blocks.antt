-- ===== src/Tests/Blocks.antt =====
-- Two pools of two and three members, and what the block operations do to them.
use aetherfs.Base.{ℕ, ◌+◌, ◌<◌, ◌≡◌, ◌≢◌, refl, List, [], ◌∷◌, some, ok, true, arith, replicate}
use aetherfs.Format.{
  data_start_block, profile_stripe, profile_parity, profile_mirror, def_block_size,
}
use aetherfs.Format.Structs.Label.{PoolLabel, PoolMember}
use aetherfs.Pool.{
  Pool, MemberInfo, Mapping, no_member_info, pool_map_parity, pool_member_data_blocks,
  pool_map_data_block, pool_profile,
}
use aetherfs.Image.{Image, image_read_block, image_write_block}
use aetherfs.Pool.Disjoint.{
  IsPlaced, pool_map_data_block_inj, pool_map_data_block-IsPlaced, pool_map_data_block_inside,
  pool_map_parity_apart,
}
use aetherfs.Image.RoundTrip.{image_read_block-image_write_block}
use aetherfs.Tests.Store.{store, Store, filled}

abbrev pub member : ℕ → PoolMember
member index = record {
  pm_uuid = 0;
  pm_total_blocks = 100;
  pm_data_blocks = 64;
  pm_class_mask = 0;
  pm_role_mask = 0;
  pm_index = index;
  pm_reserved = 0;
}

abbrev pub label_of : ℕ → ℕ → ℕ → PoolLabel
label_of profile count mask = record {
  pl_magic = 0;
  pl_version = 1;
  pl_checksum = 0;
  pl_profile = profile;
  pl_member_count = count;
  pl_member_index = 0;
  pl_stripe_blocks = 2;
  pl_flags = 0;
  pl_metadata_mask = mask;
  pl_data_mask = mask;
  pl_log_mask = mask;
  pl_cache_mask = 0;
  pl_logical_blocks = 136;
  pl_logical_data_blocks = 128;
  pl_pool_uuid = 0;
  pl_members = member 0 ∷ member 1 ∷ member 2 ∷ [];
  pl_reserved = 0;
}

abbrev pub pool_of : ℕ → ℕ → ℕ → Pool
pool_of profile count mask = record {
  label = label_of profile count mask;
  member_count = count;
  members = no_member_info ∷ no_member_info ∷ no_member_info ∷ [];
}

abbrev pub zeros : Store
zeros o = filled 0

abbrev pub image_of : Pool → Image Store
image_of p = record { pool = p; fds = some zeros ∷ some zeros ∷ some zeros ∷ []; writable = true }

abbrev sevens : List ℕ
sevens = replicate def_block_size 7

abbrev block15 : ℕ
block15 = 15

abbrev member0 : ℕ
member0 = 0

abbrev member1 : ℕ
member1 = 1

abbrev striped : Pool
striped = pool_of profile_stripe 2 3

abbrev parity : Pool
parity = pool_of profile_parity 3 7

abbrev on_stripe : ℕ → ℕ → Mapping
on_stripe member block = record {
  member_index = member;
  parity_member_index = 4294967295;
  member_block = block;
}

map_stripe_test : pool_map_data_block striped 15 ≡ ok (on_stripe 1 11)
unfolding pool_map_data_block pool_profile aetherfs.Pool.pool_map_stripe
    aetherfs.Pool.Mask.mask_count aetherfs.Pool.Mask.count_from aetherfs.Pool.pool_data_mask
    aetherfs.Pool.pool_member_limit_mask aetherfs.Pool.Mask.mask_nth aetherfs.Pool.Mask.nth_from
    pool_member_data_blocks
map_stripe_test = refl

map_first_test : pool_map_data_block striped 8 ≡ ok (on_stripe 0 8)
unfolding pool_map_data_block pool_profile aetherfs.Pool.pool_map_stripe
    aetherfs.Pool.Mask.mask_count aetherfs.Pool.Mask.count_from aetherfs.Pool.pool_data_mask
    aetherfs.Pool.pool_member_limit_mask aetherfs.Pool.Mask.mask_nth aetherfs.Pool.Mask.nth_from
    pool_member_data_blocks
map_first_test = refl

abbrev on_parity : ℕ → ℕ → ℕ → Mapping
on_parity member parity_member block = record {
  member_index = member;
  parity_member_index = parity_member;
  member_block = block;
}

map_parity_test : pool_map_parity parity 9 ≡ ok (on_parity 1 0 9)
unfolding pool_map_parity aetherfs.Pool.Mask.mask_count aetherfs.Pool.Mask.count_from
    aetherfs.Pool.pool_data_mask aetherfs.Pool.pool_member_limit_mask aetherfs.Pool.Mask.mask_nth
    aetherfs.Pool.Mask.nth_from pool_member_data_blocks
map_parity_test = refl

map_parity_row_test : pool_map_parity parity 13 ≡ ok (on_parity 0 1 11)
unfolding pool_map_parity aetherfs.Pool.Mask.mask_count aetherfs.Pool.Mask.count_from
    aetherfs.Pool.pool_data_mask aetherfs.Pool.pool_member_limit_mask aetherfs.Pool.Mask.mask_nth
    aetherfs.Pool.Mask.nth_from pool_member_data_blocks
map_parity_row_test = refl

write_test : (image_write_block store (image_of striped) 15 sevens).0 ≡ ok tt
unfolding image_write_block pool_map_data_block pool_profile aetherfs.Pool.pool_map_stripe
    aetherfs.Pool.Mask.mask_count aetherfs.Pool.Mask.count_from aetherfs.Pool.pool_data_mask
    aetherfs.Pool.pool_member_limit_mask aetherfs.Pool.Mask.mask_nth aetherfs.Pool.Mask.nth_from
    pool_member_data_blocks aetherfs.Image.write_mapped aetherfs.Image.write_physical_member
    aetherfs.Image.member_write_block aetherfs.Tests.Store.store_write
    native.Mathlib.Decide.ℕ_discrete
write_test = refl

pool_map_data_block_inj_example : block15 ≡ block15
pool_map_data_block_inj_example =
    pool_map_data_block_inj striped 15 15 (on_stripe 1 11) (on_stripe 1 11) (omega arith)
      (omega arith) (omega arith) (omega arith) map_stripe_test map_stripe_test (refl, refl)

pool_map_data_block-IsPlaced_example : IsPlaced 15 (on_stripe 1 11)
pool_map_data_block-IsPlaced_example =
    pool_map_data_block-IsPlaced striped 15 (on_stripe 1 11) (omega arith) (omega arith)
      map_stripe_test

is_striped : pool_profile striped ≢ profile_mirror
unfolding pool_profile
is_striped = omega arith

pool_map_data_block_inside_example : 11 < data_start_block + pool_member_data_blocks striped 1
pool_map_data_block_inside_example =
    pool_map_data_block_inside striped 15 (on_stripe 1 11) (omega arith) (omega arith) is_striped
      map_stripe_test

pool_map_parity_apart_example : member0 ≢ member1
pool_map_parity_apart_example =
    pool_map_parity_apart parity 9 9 (on_parity 1 0 9) (on_parity 1 0 9) (omega arith) (omega arith)
      (omega arith) (omega arith) map_parity_test map_parity_test refl

image_read_block-image_write_block_example :
    image_read_block store (image_write_block store (image_of striped) 15 sevens).1 15 ≡ ok sevens
image_read_block-image_write_block_example =
    image_read_block-image_write_block store (image_of striped) 15 sevens (omega arith)
      (omega arith) write_test
