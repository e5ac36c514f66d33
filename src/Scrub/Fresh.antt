-- ===== src/Scrub/Fresh.antt =====
-- `aetherfs_image_validate` accepts what mkfs.c makes.
use aetherfs.Base.{
  ℕ, zero, suc, ◌+◌, ◌-◌, ◌^◌, ◌≤◌, ◌<◌, ◌≡◌, refl, Bool, false, List, [], ◌∷◌, ok, arith, ltb,
  ◌==◌, u64, sub64, ◌>>=◌, eq→/=, ge→ltb, ne→==,
}
use aetherfs.Format.{data_start_block, bootstrap_blocks, max_inodes, root_dir_block}
use aetherfs.Format.Crc.{AreBytes}
use aetherfs.Format.Codec.{of_le_bytes, decode, encode}
use aetherfs.Format.Structs.Inode.{inode_bytes, inode_of_bytes-bytes, inode_checksum}
use aetherfs.Format.Codec.{le_bytes}
use aetherfs.Format.Crc.{crc32c_data, crc32c, crc_loop, crc_bits, crc_bit}
use aetherfs.Format.Structs.Dirent.{
  dir_entry_of_bytes, dir_entry_bytes, dirent_checksum, dir_entry_name,
}
use aetherfs.Mkfs.{dir_entry_sealed}
use aetherfs.Mkfs.Check.{bytes_differ}
use aetherfs.Scrub.Directory.{image_dirent_checksum, scan_entry, refer_entry}
use aetherfs.Scrub.Coverage.{free_intervals, interval_list_append, contiguous, insert, add_used}
use aetherfs.Image.{Image}
use aetherfs.Image.Device.{Disk}
use aetherfs.Labels.{single_label}
use aetherfs.Mkfs.{
  MkfsOptions, System, init_root_inode, init_root_dir, init_inode_bitmap, init_free_extents,
  init_checkpoint_root, init_journal, bootstrap_super, init_super,
}
use aetherfs.Mkfs.Valid.{root_inode-Fits}
use aetherfs.Mkfs.{write_bootstrap}
use aetherfs.Mkfs.Seals.{fill_uuid-lt}
use aetherfs.Mkfs.Run.{write_bootstrap-IsWritten}
use aetherfs.Mkfs.Valid.{IsFormat}
use aetherfs.Open.{Source, image_open, image_synthesize_single_label, image_assign_primary_aliases}
use aetherfs.Open.Fresh.{
  new_loaded, single_mask, IsFile, fresh_image, fresh_member, fresh_opens, fresh_loaded,
}
use aetherfs.Pool.Mask.{mask_count, count_from}
use aetherfs.Pool.{pool_profile}
use aetherfs.Redundancy.{
  Interval, image_validate_pool_redundancy, image_validate_bootstrap_replicas, bootstrap_loop,
}
use aetherfs.Scrub.{
  ScrubReport, Scan, check_inode, check_inodes, scan_start, image_validate, inode_at,
}
use aetherfs.Scrub.Directory.{image_validate_root_dir, root_dir_loop}
use aetherfs.Scrub.Coverage.{validate_free, check_coverage, interval, sort}
use aetherfs.Volume.{image_load, padded}
use aetherfs.Scrub.Zeroed.{fresh_mode, fresh_test}

pub fresh_dir : (beyond : List ℕ) → image_validate_root_dir beyond init_root_dir ≡ ok (λ i. false)
unfolding image_validate_root_dir root_dir_loop dir_entry_of_bytes decode of_le_bytes init_root_dir
    dir_entry_sealed dir_entry_bytes encode le_bytes dirent_checksum crc32c_data crc32c crc_loop
    crc_bits crc_bit image_dirent_checksum scan_entry dir_entry_name bytes_differ refer_entry
fresh_dir beyond = refl

fresh_free :
    (blocks : ℕ)
    → bootstrap_blocks < blocks
    → blocks < 2 ^ 64
    → validate_free (init_free_extents blocks) blocks
      ≡ ok (
        interval data_start_block (sub64 blocks data_start_block) ∷ [],
        sub64 blocks data_start_block,
      )
unfolding validate_free free_intervals init_free_extents interval_list_append
fresh_free blocks room h =
    let len = sub64 blocks data_start_block in
    let whole : u64 (0 + len) ≡ len = omega arith in
    let ends : ltb blocks (u64 (data_start_block + len)) ≡ false =
      ge→ltb blocks (u64 (data_start_block + len)) (omega arith) in
    let some_free : len == 0 ≡ false = ground arith in rw (some_free, ends, whole)

fresh_coverage :
    (blocks : ℕ)
    → bootstrap_blocks < blocks
    → blocks < 2 ^ 64
    → check_coverage blocks
        (interval data_start_block (sub64 blocks data_start_block) ∷ [])
        (interval root_dir_block 1 ∷ [])
      ≡ ok tt
unfolding check_coverage contiguous sort insert add_used
fresh_coverage blocks room h =
    let len = sub64 blocks data_start_block in
    let ends : u64 (data_start_block + len) ≡ blocks = omega arith in rw (ends, eq→/= blocks)

module _ (D : Disk) where
  open D use {Fd}

  scan_rest :
      (image : Image Fd) (system : System) (options : MkfsOptions) (blocks : ℕ) (uuid : List ℕ)
      (n index : ℕ) (scan : Scan)
      → 1 ≤ index
      → check_inodes D image (new_loaded system options blocks uuid) (λ i. false) n index scan
        ≡ ok scan
  unfolding check_inodes new_loaded
  scan_rest image system options blocks uuid zero index scan h = refl
  scan_rest image system options blocks uuid (suc n) index scan h = rw (
    fresh_test index,
    ne→== 0 index (λ e. omega (arith, e)),
    fresh_mode (init_root_inode system) index h,
    scan_rest image system options blocks uuid n (index + 1) scan (omega arith),
  )

  scan_first :
      (image : Image Fd) (system : System) (options : MkfsOptions) (blocks : ℕ) (uuid : List ℕ)
      (scan : Scan)
      → check_inode D image
          (new_loaded system options blocks uuid)
          (λ i. false)
          0
          scan
          (init_root_inode system)
        ≡ ok (record scan { directories = scan.directories + 1 })
  unfolding check_inode new_loaded init_root_inode init_checkpoint_root inode_checksum
  scan_first image system options blocks uuid scan =
      rw (eq→/= (inode_checksum (init_root_inode system)))

  pub root_alone : Scan
  root_alone = record {
    used = interval root_dir_block 1 ∷ [];
    files = 0;
    directories = 1;
    data_blocks = 0;
  }

  first_back :
      (system : System)
      → inode_at (padded (inode_bytes (init_root_inode system))) 0 ≡ init_root_inode system
  first_back system = inode_of_bytes-bytes (init_root_inode system) _ (root_inode-Fits system)

  scan_from :
      (image : Image Fd) (system : System) (options : MkfsOptions) (blocks : ℕ) (uuid : List ℕ)
      (n : ℕ)
      → check_inodes D image
          (new_loaded system options blocks uuid)
          (λ i. false)
          (suc n)
          0
          (scan_start D (new_loaded system options blocks uuid))
        ≡ ok root_alone
  unfolding check_inodes root_alone new_loaded interval_list_append init_checkpoint_root
  scan_from image system options blocks uuid n = rw (
    fresh_test 0,
    first_back system,
    scan_first image system options blocks uuid
        (scan_start D (new_loaded system options blocks uuid)),
    scan_rest image system options blocks uuid n 1 root_alone (omega arith),
  )

  pub scan_inodes :
      (image : Image Fd) (system : System) (options : MkfsOptions) (blocks : ℕ) (uuid : List ℕ)
      → check_inodes D image
          (new_loaded system options blocks uuid)
          (λ i. false)
          max_inodes
          0
          (scan_start D (new_loaded system options blocks uuid))
        ≡ ok root_alone
  scan_inodes image system options blocks uuid =
      scan_from image system options blocks uuid (max_inodes - 1)

  bootstrap_alone :
      (image : Image Fd) (blocks n block : ℕ)
      → image.pool.label ≡ single_label blocks
      → image.pool.member_count ≡ 1
      → bootstrap_loop D image n block ≡ ok tt
  unfolding bootstrap_loop mask_count count_from
  bootstrap_alone image blocks zero block is one = refl
  bootstrap_alone image blocks (suc n) block is one = rw (
    single_mask image.pool blocks block is one,
    bootstrap_alone image blocks n (block + 1) is one,
  )

  alone_redundant :
      (image : Image Fd) (blocks : ℕ) (used : List Interval)
      → image.pool.label ≡ single_label blocks
      → image.pool.member_count ≡ 1
      → image_validate_pool_redundancy D image used ≡ ok tt
  unfolding image_validate_pool_redundancy image_validate_bootstrap_replicas pool_profile
      single_label
  alone_redundant image blocks used is one = rw (bootstrap_alone image blocks 7 1 is one, is)

  pub fresh_report : ℕ → ScrubReport
  fresh_report blocks = record {
    files = 0;
    directories = 1;
    inodes_used = 1;
    data_blocks = 0;
    free_blocks = sub64 blocks data_start_block;
  }

  -- The validation accepts the structures that mkfs makes, on a pool of one member.
  pub fresh_valid :
      (image : Image Fd) (system : System) (options : MkfsOptions) (blocks : ℕ)
      (uuid beyond : List ℕ)
      → image.pool.label ≡ single_label blocks
      → image.pool.member_count ≡ 1
      → bootstrap_blocks < blocks
      → blocks < 2 ^ 64
      → image_validate D image (new_loaded system options blocks uuid) beyond
        ≡ ok (fresh_report blocks)
  unfolding image_validate new_loaded fresh_report init_journal bootstrap_super init_super
      init_inode_bitmap root_alone
  fresh_valid image system options blocks uuid beyond is one room h = rw (
    fresh_test 0,
    fresh_dir beyond,
    scan_inodes image system options blocks uuid,
    fresh_free blocks room h,
    fresh_coverage blocks room h,
    eq→/= (sub64 blocks data_start_block),
    alone_redundant image blocks (sort (interval root_dir_block 1 ∷ [])) is one,
  )

  -- A regular file on which mkfs wrote a whole bootstrap, with at least one block beside the bootstrap
  -- blocks, opens as an image without a label, loads, and passes the validation whatever lies in memory
  -- behind the block of the directory: the report counts the root directory alone, one inode in use,
  -- and all blocks of the data region free.
  pub image_validate_mkfs :
      (system : System) (options : MkfsOptions) (blocks : ℕ) (fd : Fd) (source : Source Fd)
      (writable : Bool) (beyond : List ℕ)
      → IsFormat options blocks
      → bootstrap_blocks < blocks
      → ((random : List ℕ) → system.random ≡ ok random → AreBytes random)
      → (write_bootstrap D system options blocks fd).0 ≡ ok tt
      → IsFile D source blocks (write_bootstrap D system options blocks fd).1
      → (image_open D source writable >>= λ o.
          image_load D o.image >>= λ l. image_validate D o.image l beyond)
        ≡ ok (fresh_report blocks)
  unfolding fresh_image fresh_member image_synthesize_single_label image_assign_primary_aliases
  image_validate_mkfs system options blocks fd source writable beyond form room bytes done file =
      let w = write_bootstrap-IsWritten D system options blocks fd done in
      let small = fill_uuid-lt w.random w.uuid (bytes w.random w.random_is) w.uuid_is in
      let made = (write_bootstrap D system options blocks fd).1 in
      let image = fresh_image D blocks made writable in
      let loads : image_load D image ≡ ok (new_loaded system options blocks w.uuid) =
        fresh_loaded D system options blocks fd writable form w small in
      let valid : image_validate D image (new_loaded system options blocks w.uuid) beyond
          ≡ ok (fresh_report blocks) =
        fresh_valid image system options blocks w.uuid beyond refl refl room form.blocks_fit in
      rw (fresh_opens D source blocks made writable file w.no_label) (rw loads valid)
