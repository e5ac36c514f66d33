-- ===== src/Open/Fresh.antt =====
-- What mkfs.c makes is what image.c opens and loads.
use aetherfs.Base.{
  ℕ, ◌*◌, ◌/◌, ◌^◌, ◌<◌, ◌≤◌, ◌≡◌, refl, ap, Bool, true, false, List, none, some, Result, ok, err,
  eio, arith, ◌>>=◌, ◌==◌, eq→/=, ge→ltb, replicate, if_same, lt→ltb, get_elem?,
}
use aetherfs.Format.{
  def_block_size, bootstrap_blocks, data_start_block, superblock_block, root_inode_block,
  root_dir_block, journal_block, inode_bitmap_block, free_extent_block, checkpoint_root_block,
  pool_label_block, extent_log_max, max_inodes,
}
use aetherfs.Format.Crc.{AreBytes}
use aetherfs.Format.Codec.{of_le_bytes}
use aetherfs.Format.Structs.Super.{
  super_bytes, super_of_bytes-bytes, super_checksum, intent_log_bytes, journal_checksum,
}
use aetherfs.Format.Structs.Checkpoint.{
  checkpoint_root_bytes, checkpoint_root_of_bytes-bytes, checkpoint_root_checksum,
}
use aetherfs.Format.Structs.Inode.{inode_bytes}
use aetherfs.Format.Structs.Extent.{extent_node_bytes, extent_node_checksum}
use aetherfs.Format.Structs.Bitmap.{bitmap_checksum, bitmap_block_bytes}
use aetherfs.Image.{Image, offset_of, image_read_block, read_replicas, read_physical_member}
use aetherfs.Image.Device.{Disk}
use aetherfs.Labels.{member_read_pool_label, single_label}
use aetherfs.Mkfs.{
  MkfsOptions, System, fill_uuid, write_bootstrap, bootstrap_writes, bootstrap_super,
  init_checkpoint_root, init_root_inode, init_root_dir, init_journal, init_inode_bitmap,
  init_free_extents, init_super,
}
use aetherfs.Mkfs.Seals.{fill_uuid-lt}
use aetherfs.Mkfs.Run.{IsWritten, write_bootstrap-IsWritten}
use aetherfs.Mkfs.Valid.{
  IsFormat, super-Fits, root-Fits, free_back, init_bitmap_back, init_journal_back, bitmap_count,
}
use aetherfs.Open.{Source, OpenImage, member_open_path, image_open, image_synthesize_single_label}
use aetherfs.Pool.Mask.{mask_count, mask_nth}
use aetherfs.Pool.{
  MemberInfo, no_member_info, Pool, pool_role_mask_for_bootstrap_block, pool_log_mask,
  pool_metadata_mask, pool_member_limit_mask,
}
use aetherfs.Volume.{
  Loaded, image_load, padded, read_extent_node, image_validate_super,
  image_validate_checkpoint_root, image_validate_bitmap,
}
use aetherfs.Volume.Loads.{IsLoaded-image_load}

-- The structures of a new image.
unfoldable pub new_loaded : System → MkfsOptions → ℕ → List ℕ → Loaded
new_loaded system options blocks uuid = record {
  blocks = blocks;
  super = bootstrap_super options blocks uuid;
  checkpoint_root = init_checkpoint_root (bootstrap_super options blocks uuid) blocks;
  journal = init_journal;
  inode_bitmap = init_inode_bitmap;
  free_extents = init_free_extents blocks;
  inode_table = padded (inode_bytes (init_root_inode system));
  root_dir = init_root_dir;
}

super_passes :
    (options : MkfsOptions) (blocks : ℕ) (uuid : List ℕ) (pool : Pool)
    → IsFormat options blocks
    → pool.label.pl_logical_blocks ≡ blocks
    → pool.member_count ≡ 1
    → image_validate_super pool (bootstrap_super options blocks uuid) ≡ ok tt
unfolding image_validate_super super_checksum bootstrap_super init_super
super_passes options blocks uuid pool form same one = rw (
  eq→/= (super_checksum (bootstrap_super options blocks uuid)),
  form.whole_blocks,
  ge→ltb blocks bootstrap_blocks form.room,
  same,
  one,
  eq→/= blocks,
)

root_passes :
    (options : MkfsOptions) (blocks : ℕ) (uuid : List ℕ)
    → image_validate_checkpoint_root blocks
        (bootstrap_super options blocks uuid)
        (init_checkpoint_root (bootstrap_super options blocks uuid) blocks)
      ≡ ok tt
unfolding image_validate_checkpoint_root checkpoint_root_checksum bootstrap_super init_super
    init_checkpoint_root
root_passes options blocks uuid = rw (
  eq→/= (
      checkpoint_root_checksum (init_checkpoint_root (bootstrap_super options blocks uuid) blocks)),
  eq→/= (init_super options blocks).s_ag_count,
  eq→/= blocks,
)

bitmap_passes : image_validate_bitmap init_inode_bitmap max_inodes ≡ ok tt
unfolding image_validate_bitmap init_inode_bitmap bitmap_checksum aetherfs.Bitmap.bitmap_set
bitmap_passes = rw (bitmap_count, eq→/= (bitmap_checksum init_inode_bitmap))

sealed_journal : init_journal.il_checksum ≡ journal_checksum init_journal
unfolding init_journal journal_checksum aetherfs.Format.Crc.crc32c_data aetherfs.Format.Crc.crc32c
    aetherfs.Format.Crc.crc_loop aetherfs.Format.Codec.encode
sealed_journal = refl

pub single_mask :
    (pool : Pool) (blocks b : ℕ)
    → pool.label ≡ single_label blocks
    → pool.member_count ≡ 1
    → pool_role_mask_for_bootstrap_block pool b ≡ 1
unfolding pool_role_mask_for_bootstrap_block pool_log_mask pool_metadata_mask pool_member_limit_mask
    aetherfs.Labels.single_label
single_mask pool blocks b is one = rw (is, one, if_same {A = ℕ} (b == journal_block) 1)

module _ (D : Disk) where
  open D use {Fd, pread}

  read_one :
      (image : Image Fd) (b : ℕ) (x : List ℕ)
      → read_physical_member D image 0 b ≡ ok x
      → read_replicas D image 1 b (mask_count 1) 0 ≡ ok x
  unfolding read_replicas mask_count aetherfs.Pool.Mask.count_from mask_nth
      aetherfs.Pool.Mask.nth_from
  read_one image b x read = ap (λ r. elim r [ ok buf ↦ ok buf | err e ↦ err eio ]) read

  read_first :
      (image : Image Fd) (fd : Fd) (b : ℕ) (x : List ℕ)
      → image.pool.member_count ≡ 1
      → get_elem? image.fds 0 ≡ some (some fd)
      → pread fd (offset_of b) ≡ ok x
      → read_physical_member D image 0 b ≡ ok x
  unfolding read_physical_member aetherfs.Image.member_read_block
  read_first image fd b x one here read = ground (arith, here, read, one)

  -- A bootstrap block of an image of one member is that member's block.
  read_single :
      (image : Image Fd) (fd : Fd) (blocks b : ℕ) (x : List ℕ)
      → image.pool.label ≡ single_label blocks
      → image.pool.member_count ≡ 1
      → get_elem? image.fds 0 ≡ some (some fd)
      → b < data_start_block
      → pread fd (offset_of b) ≡ ok x
      → image_read_block D image b ≡ ok x
  unfolding image_read_block
  read_single image fd blocks b x is one here h read =
      let mask = single_mask image.pool blocks b is one in
      rw (
        mask,
        lt→ltb b data_start_block h,
        read_one image b x (read_first image fd b x one here read),
      )

  fresh_node :
      (image : Image Fd) (blocks : ℕ)
      → bootstrap_blocks ≤ blocks
      → blocks < 2 ^ 64
      → image_read_block D image free_extent_block
        ≡ ok (extent_node_bytes (init_free_extents blocks))
      → read_extent_node D image free_extent_block ≡ ok (init_free_extents blocks)
  unfolding read_extent_node extent_node_checksum init_free_extents
  fresh_node image blocks room h read =
      rw (read, free_back blocks room h, eq→/= (extent_node_checksum (init_free_extents blocks)))

  fresh_label :
      (fd : Fd)
      → pread fd (offset_of pool_label_block) ≡ ok (replicate def_block_size 0)
      → member_read_pool_label D (some fd) ≡ ok none
  unfolding member_read_pool_label aetherfs.Image.member_read_block
      aetherfs.Format.Structs.Label.pool_label_of_bytes aetherfs.Format.Codec.decode of_le_bytes
  fresh_label fd read = rw read

  -- The file is a regular one of so many blocks.
  pub record IsFile (source : Source Fd) (blocks : ℕ) (fd : Fd) : Type 0 where
    pub opened : source.opened ≡ ok fd
    pub stat :
        source.stat
        ≡ ok (record { is_regular = true; is_block = false; st_size = blocks * def_block_size })

  unfoldable pub fresh_member : ℕ → MemberInfo
  fresh_member blocks = record no_member_info {
    size_bytes = blocks * def_block_size;
    blocks = blocks;
  }

  member_opens :
      (source : Source Fd) (blocks : ℕ) (fd : Fd)
      → IsFile source blocks fd
      → member_open_path source ≡ ok (fd, fresh_member blocks)
  unfolding member_open_path fresh_member
  member_opens source blocks fd file =
      let whole : blocks * def_block_size / def_block_size ≡ blocks = omega arith in
      let answer : ℕ → Result (Fd × MemberInfo) =
        λ n. ok (fd, record no_member_info { size_bytes = blocks * def_block_size; blocks = n }) in
      rw (file.opened, file.stat, ap answer whole)

  pub fresh_opens :
      (source : Source Fd) (blocks : ℕ) (fd : Fd) (writable : Bool)
      → IsFile source blocks fd
      → pread fd (offset_of pool_label_block) ≡ ok (replicate def_block_size 0)
      → image_open D source writable
        ≡ ok (image_synthesize_single_label writable fd (fresh_member blocks))
  unfolding image_open
  fresh_opens source blocks fd writable file read =
      rw (member_opens source blocks fd file, fresh_label fd read)

  -- The image that `aetherfs_image_open` makes of a member without a label.
  unfoldable pub fresh_image : ℕ → Fd → Bool → Image Fd
  fresh_image blocks fd writable =
      (image_synthesize_single_label writable fd (fresh_member blocks)).image

  fresh_read :
      (blocks b : ℕ) (fd : Fd) (writable : Bool) (x : List ℕ)
      → b < data_start_block
      → pread fd (offset_of b) ≡ ok x
      → image_read_block D (fresh_image blocks fd writable) b ≡ ok x
  unfolding fresh_image image_synthesize_single_label aetherfs.Open.image_assign_primary_aliases
      fresh_member
  fresh_read blocks b fd writable x h read =
      read_single (fresh_image blocks fd writable) fd blocks b x refl refl refl h read

  fresh_super :
      (options : MkfsOptions) (blocks : ℕ) (uuid : List ℕ) (fd : Fd) (writable : Bool)
      → IsFormat options blocks
      → image_validate_super
          (fresh_image blocks fd writable).pool
          (bootstrap_super options blocks uuid)
        ≡ ok tt
  unfolding fresh_image image_synthesize_single_label aetherfs.Open.image_assign_primary_aliases
      fresh_member single_label
  fresh_super options blocks uuid fd writable form =
      super_passes options blocks uuid (fresh_image blocks fd writable).pool form refl refl

  pub fresh_loaded :
      (system : System) (options : MkfsOptions) (blocks : ℕ) (fd : Fd) (writable : Bool)
      → IsFormat options blocks
      → (w : IsWritten D system options blocks fd) → of_le_bytes w.uuid < 256 ^ 16
      → image_load D (fresh_image blocks (write_bootstrap D system options blocks fd).1 writable)
        ≡ ok (new_loaded system options blocks w.uuid)
  unfolding bootstrap_writes new_loaded bootstrap_super init_super init_checkpoint_root
  fresh_loaded system options blocks fd writable form w small =
      let made = (write_bootstrap D system options blocks fd).1 in
      let image = fresh_image blocks made writable in
      let h = w.held in
      let super = bootstrap_super options blocks w.uuid in
      let root = init_checkpoint_root super blocks in
      let read : (b : ℕ) (x : List ℕ)
          → b < data_start_block
          → pread made (offset_of b) ≡ ok x
          → image_read_block D image b ≡ ok x =
        λ b x. fresh_read blocks b made writable x in
      IsLoaded-image_load D image (new_loaded system options blocks w.uuid) (record {
        super_block = padded (super_bytes super);
        super_read = read superblock_block _ (omega arith) h.0;
        super_is = super_of_bytes-bytes super _ (super-Fits options blocks w.uuid form small);
        super_valid = fresh_super options blocks w.uuid made writable form;
        root_block = padded (checkpoint_root_bytes root);
        root_read = read checkpoint_root_block _ (omega arith) h.1.1.1.1.1.1.0;
        root_is =
            checkpoint_root_of_bytes-bytes root _ (root-Fits options blocks w.uuid form.blocks_fit);
        root_valid = root_passes options blocks w.uuid;
        journal_block = padded (intent_log_bytes init_journal);
        journal_read = read journal_block _ (omega arith) h.1.1.1.0;
        journal_is = init_journal_back;
        journal_valid = sealed_journal;
        bitmap_block = bitmap_block_bytes init_inode_bitmap;
        bitmap_read = read inode_bitmap_block _ (omega arith) h.1.1.1.1.0;
        bitmap_is = init_bitmap_back;
        bitmap_valid = bitmap_passes;
        free_read =
            fresh_node image blocks form.room form.blocks_fit
              (read free_extent_block _ (omega arith) h.1.1.1.1.1.0);
        inodes_read = read root_inode_block _ (omega arith) h.1.0;
        dir_read = read root_dir_block _ (omega arith) h.1.1.0;
        blocks_is = refl;
      })

  -- A regular file on which mkfs wrote a whole bootstrap opens as an image without a label, and loads:
  -- what is loaded are the structures that mkfs made, with the uuid from the random bytes.
  pub image_load_mkfs :
      (system : System) (options : MkfsOptions) (blocks : ℕ) (fd : Fd) (source : Source Fd)
      (writable : Bool)
      → IsFormat options blocks
      → ((random : List ℕ) → system.random ≡ ok random → AreBytes random)
      → (write_bootstrap D system options blocks fd).0 ≡ ok tt
      → IsFile source blocks (write_bootstrap D system options blocks fd).1
      → (uuid : List ℕ) × ((system.random >>= λ random. fill_uuid (ok random)) ≡ ok uuid)
        × ((image_open D source writable >>= λ o. image_load D o.image)
            ≡ ok (new_loaded system options blocks uuid))
  unfolding fresh_image
  image_load_mkfs system options blocks fd source writable form bytes done file =
      let w = write_bootstrap-IsWritten D system options blocks fd done in
      let small = fill_uuid-lt w.random w.uuid (bytes w.random w.random_is) w.uuid_is in
      (
        w.uuid,
        rw (w.random_is, w.uuid_is),
        rw (
          fresh_opens source blocks _ writable file w.no_label,
          fresh_loaded system options blocks fd writable form w small,
        ),
      )
