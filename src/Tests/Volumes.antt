-- ===== src/Tests/Volumes.antt =====
-- A small image that loads, and what the theorems on loading say of it.
use aetherfs.Base.{
  All, map, zero, suc, ℕ, ◌≡◌, ◌↔◌, refl, [], ◌∷◌, ok, true, some, arith, replicate, if◌then◌else◌,
  ◌==◌,
}
use aetherfs.Format.{
  def_block_size, magic, version, max_inodes, checkpoint_root_magic, checkpoint_root_version,
  extent_log_max, profile_single,
}
use aetherfs.Format.Structs.Super.{Super, IntentLog, super_bytes, intent_log_bytes}
use aetherfs.Format.Structs.Checkpoint.{CheckpointRoot, checkpoint_root_bytes}
use aetherfs.Format.Codec.{Fits}
use aetherfs.Format.Structs.Extent.{
  extent_widths, extent_fields, Extent, ExtentNode, extent_node_bytes, extent_node_checksum,
}
use aetherfs.Format.Structs.Bitmap.{BitmapBlock, bitmap_block_bytes}
use aetherfs.Pool.{Pool, no_member_info, no_pool_member}
use aetherfs.Image.{Image, image_write_block}
use aetherfs.Volume.{Loaded, image_load, padded, write_extent_node, read_extent_node}
use aetherfs.Volume.Accepted.{IsVolume, image_load_iff}
use aetherfs.Volume.Nodes.{IsNode, read_extent_node-write_extent_node}
use aetherfs.Tests.Store.{store, Store, Whole, filled}

abbrev single : Pool
single = record {
  label = record {
    pl_magic = 0;
    pl_version = 1;
    pl_checksum = 0;
    pl_profile = profile_single;
    pl_member_count = 1;
    pl_member_index = 0;
    pl_stripe_blocks = 1;
    pl_flags = 0;
    pl_metadata_mask = 1;
    pl_data_mask = 1;
    pl_log_mask = 1;
    pl_cache_mask = 0;
    pl_logical_blocks = 64;
    pl_logical_data_blocks = 56;
    pl_pool_uuid = 0;
    pl_members = record no_pool_member { pm_total_blocks = 64; pm_data_blocks = 56 } ∷ [];
    pl_reserved = 0;
  };
  member_count = 1;
  members = no_member_info ∷ [];
}

abbrev super_draft : Super
super_draft = record {
  s_magic = magic;
  s_version = version;
  s_blocksize = def_block_size;
  s_blocks_count = 64;
  s_free_blocks = 56;
  s_blocks_per_ag = 64;
  s_ag_count = 1;
  s_device_count = 1;
  s_mode = 0;
  s_features = 0;
  s_checksum = 0;
  s_uuid = 0;
  s_checkpoint_num = 1;
  s_checkpoint_mask = 1;
  s_checkpoint_0 = 7;
  s_checkpoint_rest = 0;
  s_journal_addr = 4;
  s_root_inode = 2;
  s_generation = 1;
  s_inodes_count = max_inodes;
  s_meta_tree = 5;
  s_extent_tree = 0;
  s_free_tree = 6;
  s_snap_tree = 0;
  s_scrub_journal = 0;
  s_health_journal = 0;
  s_reserved2 = 0;
}

abbrev root_draft : CheckpointRoot
root_draft = record {
  cr_magic = checkpoint_root_magic;
  cr_version = checkpoint_root_version;
  cr_checksum = 0;
  cr_generation = 1;
  cr_ag_count = 1;
  cr_region_count = 2;
  cr_super_block = 1;
  cr_root_inode_block = 2;
  cr_root_dir_block = 3;
  cr_journal_block = 4;
  cr_inode_bitmap_block = 5;
  cr_free_space_root = 6;
  cr_metadata_tree_root = 5;
  cr_extent_tree_root = 0;
  cr_snapshot_root = 0;
  cr_scrub_journal = 0;
  cr_health_journal = 0;
  cr_metadata_region_start = 1;
  cr_metadata_region_end = 7;
  cr_data_region_start = 8;
  cr_data_region_end = 64;
  cr_special_metadata_root = 0;
  cr_cache_root = 0;
  cr_parity_root = 0;
  cr_reserved = 0;
}

abbrev journal_draft : IntentLog
journal_draft = record {
  il_start = 4;
  il_end = 4;
  il_head = 4;
  il_commit = 4;
  il_total = 0;
  il_outstanding = 0;
  il_checksum = 0;
  il_reserved = 0;
}

abbrev bitmap_draft : BitmapBlock
bitmap_draft = record {
  bb_checksum = 0;
  bb_total_bits = max_inodes;
  bb_set_bits = 1;
  bb_reserved = 0;
  bb_bits = 1 ∷ replicate 4079 0;
}

abbrev no_extent : Extent
no_extent = record {
  e_lstart = 0;
  e_pstart = 0;
  e_csum_start = 0;
  e_len = 0;
  e_flags = 0;
  e_reserved = 0;
}

abbrev pub node_draft : ExtentNode
node_draft = record {
  en_next = 0;
  en_count = 1;
  en_checksum = 0;
  en_extents = record no_extent { e_pstart = 8; e_len = 56 } ∷ replicate 101 no_extent;
}

abbrev loaded : Loaded
loaded = record {
  blocks = 64;
  super = record super_draft { s_checksum = 535486121 };
  checkpoint_root = record root_draft { cr_checksum = 803448918 };
  journal = record journal_draft { il_checksum = 3821237458 };
  inode_bitmap = record bitmap_draft { bb_checksum = 969476802 };
  free_extents = record node_draft { en_checksum = 1624795163 };
  inode_table = replicate def_block_size 0;
  root_dir = replicate def_block_size 0;
}

abbrev super_block : Whole
unfolding super_bytes aetherfs.Format.Codec.encode aetherfs.Format.Codec.le_bytes
super_block = (padded (super_bytes loaded.super), refl)

abbrev root_block : Whole
unfolding checkpoint_root_bytes aetherfs.Format.Codec.encode aetherfs.Format.Codec.le_bytes
root_block = (padded (checkpoint_root_bytes loaded.checkpoint_root), refl)

abbrev journal_block : Whole
unfolding intent_log_bytes aetherfs.Format.Codec.encode aetherfs.Format.Codec.le_bytes
journal_block = (padded (intent_log_bytes loaded.journal), refl)

abbrev bitmap_block : Whole
unfolding bitmap_block_bytes aetherfs.Format.Codec.encode aetherfs.Format.Codec.le_bytes
bitmap_block = (bitmap_block_bytes loaded.inode_bitmap, refl)

abbrev node_block : Whole
unfolding extent_node_bytes aetherfs.Format.Codec.encode aetherfs.Format.Codec.encode_all
    aetherfs.Format.Codec.le_bytes
node_block = (extent_node_bytes loaded.free_extents, refl)

unfoldable contents : Store
unfolding super_block root_block journal_block bitmap_block node_block
contents o =
    if o == 4096
    then super_block
    else (if o == 16384
        then journal_block
        else (if o == 20480
            then bitmap_block
            else (if o == 24576
                then node_block
                else (if o == 28672 then root_block else filled 0))))

abbrev volume : Image Store
volume = record { pool = single; fds = some contents ∷ []; writable = true }

node_sum : extent_node_checksum loaded.free_extents ≡ loaded.free_extents.en_checksum
unfolding extent_node_checksum aetherfs.Format.Crc.crc32c_data aetherfs.Format.Crc.crc32c
    aetherfs.Format.Crc.crc_loop aetherfs.Format.Codec.encode aetherfs.Format.Codec.le_bytes
    aetherfs.Format.Codec.encode_all aetherfs.Format.Crc.crc_bits aetherfs.Format.Crc.crc_bit
node_sum = refl

image_load_iff_example : (image_load store volume ≡ ok loaded) ↔ IsVolume store volume loaded
image_load_iff_example = image_load_iff store volume loaded

-- The free extents, written to another block.
node_draft_sum : extent_node_checksum node_draft ≡ 1624795163
unfolding extent_node_checksum
node_draft_sum = node_sum

zeros_fit : (n : ℕ) → All (Fits extent_widths) (map extent_fields (replicate n no_extent))
zeros_fit zero = tt
zeros_fit (suc n) = (
  (omega arith, (omega arith, (omega arith, (omega arith, (omega arith, (omega arith, tt)))))),
  zeros_fit n,
)

node_draft-IsNode : IsNode node_draft
node_draft-IsNode = record {
  header = (omega arith, (omega arith, (omega (arith, node_draft_sum), tt)));
  extents = (
    (omega arith, (omega arith, (omega arith, (omega arith, (omega arith, (omega arith, tt)))))),
    zeros_fit 101,
  );
  size = refl;
  used = omega arith;
}

node_written : (write_extent_node store volume 6 node_draft).0.0 ≡ ok tt
unfolding write_extent_node image_write_block aetherfs.Pool.pool_role_mask_for_bootstrap_block
    aetherfs.Pool.pool_metadata_mask aetherfs.Pool.pool_member_limit_mask
    aetherfs.Image.write_replicas aetherfs.Pool.Mask.mask_count aetherfs.Pool.Mask.count_from
    aetherfs.Pool.Mask.mask_nth aetherfs.Pool.Mask.nth_from aetherfs.Image.write_physical_member
    aetherfs.Image.member_write_block aetherfs.Tests.Store.store_write
    native.Mathlib.Decide.ℕ_discrete extent_node_bytes aetherfs.Format.Codec.encode
    aetherfs.Format.Codec.le_bytes aetherfs.Format.Codec.encode_all
node_written = refl

read_extent_node-write_extent_node_example :
    read_extent_node store (write_extent_node store volume 6 node_draft).0.1 6
    ≡ ok (record node_draft { en_checksum = extent_node_checksum node_draft })
read_extent_node-write_extent_node_example =
    read_extent_node-write_extent_node store volume 6 node_draft (omega arith) (omega arith)
      node_draft-IsNode node_written
