-- ===== src/Tests/Members.antt =====
-- A pool of two members, given in the order that their labels do not have.
use aetherfs.Base.{
  ◌≡◌, refl, List, [], ◌∷◌, some, none, ok, err, einval, true, false, replicate, ◌*◌, ℕ,
}
use aetherfs.Format.{def_block_size, profile_mirror, max_devices}
use aetherfs.Format.Structs.Label.{PoolLabel, pool_label_bytes, pool_label_checksum}
use aetherfs.Image.{Image}
use aetherfs.Labels.{
  member_read_pool_label, single_label, pool_labels_equivalent, pool_labels_equivalent_member,
}
use aetherfs.Open.{
  Source, OpenImage, image_open_pool, open_members, member_open_path, pool_of_members,
  image_assign_primary_aliases, Slots,
}
use aetherfs.Open.Placed.{IsOpenPool, image_open_pool-IsOpenPool}
use aetherfs.Pool.{MemberInfo, no_pool_member, no_member_info}
use aetherfs.Volume.{padded, pool_label_validate}
use aetherfs.Tests.Store.{store, Store, Whole}

abbrev base : PoolLabel
base = record (single_label 64) {
  pl_profile = profile_mirror;
  pl_member_count = 2;
  pl_metadata_mask = 3;
  pl_data_mask = 3;
  pl_log_mask = 3;
  pl_members =
      record no_pool_member { pm_total_blocks = 64; pm_data_blocks = 56 }
      ∷ record no_pool_member { pm_index = 1; pm_total_blocks = 64; pm_data_blocks = 56 }
      ∷ replicate 6 no_pool_member;
}

abbrev sealed : ℕ → PoolLabel
sealed i = record base {
  pl_member_index = i;
  pl_checksum = pool_label_checksum (record base { pl_member_index = i });
}

label_block : ℕ → Whole
unfolding pool_label_bytes single_label aetherfs.Format.Codec.encode
    aetherfs.Format.Codec.encode_all aetherfs.Format.Codec.le_bytes
label_block i = (padded (pool_label_bytes (sealed i)), refl)

labelled : ℕ → Store
labelled i o = label_block i

abbrev member : ℕ → Source Store
member i = record {
  opened = ok (labelled i);
  stat = ok (record { is_regular = true; is_block = false; st_size = 64 * def_block_size });
  device_bytes = err einval;
}

reads_first : member_read_pool_label store (some (labelled 0)) ≡ ok (some (sealed 0))
unfolding member_read_pool_label labelled label_block pool_label_bytes single_label
    pool_label_validate aetherfs.Volume.label_members_validate aetherfs.Image.member_read_block
    aetherfs.Tests.Store.store_read aetherfs.Format.Structs.Label.pool_label_of_bytes
    aetherfs.Format.Structs.Label.pool_label_checksum aetherfs.Format.Crc.crc32c_data
    aetherfs.Format.Crc.crc32c aetherfs.Format.Crc.crc_loop aetherfs.Format.Crc.crc_bits
    aetherfs.Format.Crc.crc_bit aetherfs.Format.Codec.encode aetherfs.Format.Codec.encode_all
    aetherfs.Format.Codec.le_bytes aetherfs.Format.Codec.decode aetherfs.Format.Codec.decode_all
    aetherfs.Format.Codec.of_le_bytes aetherfs.Format.Codec.sizes
reads_first = refl

reads_second : member_read_pool_label store (some (labelled 1)) ≡ ok (some (sealed 1))
unfolding member_read_pool_label labelled label_block pool_label_bytes single_label
    pool_label_validate aetherfs.Volume.label_members_validate aetherfs.Image.member_read_block
    aetherfs.Tests.Store.store_read aetherfs.Format.Structs.Label.pool_label_of_bytes
    aetherfs.Format.Structs.Label.pool_label_checksum aetherfs.Format.Crc.crc32c_data
    aetherfs.Format.Crc.crc32c aetherfs.Format.Crc.crc_loop aetherfs.Format.Crc.crc_bits
    aetherfs.Format.Crc.crc_bit aetherfs.Format.Codec.encode aetherfs.Format.Codec.encode_all
    aetherfs.Format.Codec.le_bytes aetherfs.Format.Codec.decode aetherfs.Format.Codec.decode_all
    aetherfs.Format.Codec.of_le_bytes aetherfs.Format.Codec.sizes
reads_second = refl

alike : (i j : ℕ) → pool_labels_equivalent (sealed i) (sealed j) ≡ true
alike i j = pool_labels_equivalent_member base (sealed i).pl_checksum (sealed j).pl_checksum i j

opened : OpenImage Store
opened =
    image_assign_primary_aliases
      (record {
        pool = record {
          label = sealed 0;
          member_count = 2;
          members =
              record no_member_info {
                size_bytes = 64 * def_block_size;
                blocks = 64;
                member_index = 0;
              }
              ∷ record no_member_info {
                size_bytes = 64 * def_block_size;
                blocks = 64;
                member_index = 1;
              }
              ∷ replicate 6 no_member_info;
        };
        fds = some (labelled 0) ∷ some (labelled 1) ∷ replicate 6 none;
        writable = true;
      })
      64

abbrev info : MemberInfo
info = record no_member_info { size_bytes = 64 * def_block_size; blocks = 64 }

abbrev opened_members : List (Store × (MemberInfo × PoolLabel))
opened_members = (labelled 1, (info, sealed 1)) ∷ (labelled 0, (info, sealed 0)) ∷ []

last_opens : open_members store (member 0 ∷ []) ≡ ok ((labelled 0, (info, sealed 0)) ∷ [])
unfolding open_members member_open_path
last_opens = rw reads_first

both_open : open_members store (member 1 ∷ member 0 ∷ []) ≡ ok opened_members
unfolding open_members member_open_path
both_open = rw (reads_second, last_opens)

placed : pool_of_members store true 2 (sealed 1) opened_members ≡ ok opened
unfolding pool_of_members opened aetherfs.Open.place_members aetherfs.Open.place_member
    aetherfs.Open.all_seen image_assign_primary_aliases single_label pool_label_checksum labelled
    aetherfs.Pool.Mask.mask_first
placed = rw (alike 1 1, alike 1 0)

opens : image_open_pool store (member 1 ∷ member 0 ∷ []) true ≡ ok opened
unfolding image_open_pool
opens = rw (both_open, placed)

image_open_pool-IsOpenPool_example : IsOpenPool store (member 1 ∷ member 0 ∷ []) 2 opened
image_open_pool-IsOpenPool_example =
    image_open_pool-IsOpenPool store (member 1) (member 0) [] true opened opens
