-- ===== src/Scrub.antt =====
-- aetherfsprogs/image.c: `aetherfs_image_validate`, the check of a whole image.
pub mod Directory
pub mod Coverage
pub mod Covers
pub mod Reads
pub mod Usable
pub mod Owners
pub mod Zeroed
pub mod Fresh
use aetherfs.Base.{
  ℕ, zero, suc, ◌+◌, ◌-◌, ◌*◌, ◌/◌, ◌%◌, Bool, true, false, ◌||◌, ◌&&◌, not, List, [], ◌∷◌, ◌++◌,
  Result, Rc, ok, err, einval, eilseq, euclean, eopnotsupp, ◌>>=◌, ◌>>◌, fail_if, ◌==◌, ◌/=◌, ltb,
  leb, if◌then◌else◌, get_or, drop, u32, u64,
}
use aetherfs.Format.{def_block_size, data_start_block, max_inodes, checksums_per_block}
use aetherfs.Format.Crc.{crc32c_data}
use aetherfs.Format.Structs.Inode.{Inode, inode_of_bytes, inode_checksum}
use aetherfs.Format.Structs.Extent.{Extent, ExtentNode, ChecksumBlock}
use aetherfs.Bitmap.{bitmap_test}
use aetherfs.Image.{Image, image_read_block}
use aetherfs.Image.Device.{Disk}
use aetherfs.Mkfs.{no_extent}
use aetherfs.Redundancy.{Interval, image_validate_pool_redundancy}
use aetherfs.Scrub.Directory.{image_validate_root_dir}
use aetherfs.Scrub.Coverage.{interval_list_append, validate_free, check_coverage, sort}
use aetherfs.Volume.{Loaded, read_extent_node, read_checksum_block}

pub record ScrubReport : Type 0 where
  pub files : ℕ
  pub directories : ℕ
  pub inodes_used : ℕ
  pub data_blocks : ℕ
  pub free_blocks : ℕ

-- What the loop over the inodes has found so far.
pub record Scan : Type 0 where
  pub used : List Interval
  pub files : ℕ
  pub directories : ℕ
  pub data_blocks : ℕ

-- What the loop over the extents of a file has found so far.
pub record FileScan : Type 0 where
  pub used : List Interval
  pub logical_cursor : ℕ
  pub file_blocks : ℕ

-- `S_ISDIR` and `S_ISREG`.
abbrev pub is_dir : ℕ → Bool
is_dir mode = mode / 4096 % 16 == 4

abbrev pub is_reg : ℕ → Bool
is_reg mode = mode / 4096 % 16 == 8

-- Loading fills the first block of the inode table. The rest of the table is zero.
abbrev pub inode_at : List ℕ → ℕ → Inode
inode_at inode_table index = inode_of_bytes (drop (512 * index) inode_table)

-- The size of a file fits its blocks.
unfoldable pub size_misfits : ℕ → ℕ → Bool
size_misfits file_blocks size =
    (file_blocks == 0 && not (size == 0))
    || (not (file_blocks == 0)
        && (ltb (u64 (file_blocks * def_block_size)) size
            || leb size (u64 ((file_blocks - 1) * def_block_size))))

module _ (D : Disk) where
  open D use {Fd}

  -- The data blocks of one checksum block, from `sum_index` on, `n` of them.
  unfoldable pub check_sums : Image Fd → ℕ → ℕ → List ℕ → ℕ → ℕ → Rc
  check_sums image pstart validated sums zero sum_index = ok tt
  check_sums image pstart validated sums (suc n) sum_index =
      image_read_block D image (u64 (pstart + validated + sum_index)) >>= λ block.
      fail_if (crc32c_data block /= get_or sums sum_index 0) eilseq
      >> check_sums image pstart validated sums n (sum_index + 1)

  -- The checksum block that follows: there is one exactly if blocks are left.
  unfoldable pub next_sums : ℕ → ℕ → ℕ → ℕ → Rc
  next_sums blocks validated len next =
      if ltb validated len
      then fail_if (ltb next data_start_block || leb blocks next) einval
      else fail_if (next /= 0) einval

  -- One checksum block of an extent, of whose blocks `validated` were looked at before.
  unfoldable pub check_link : Image Fd → ℕ → ℕ → ℕ → ℕ → ℕ → Result ChecksumBlock
  check_link image blocks pstart len validated csum_block =
      read_checksum_block D image csum_block >>= λ sums.
      let entries = sums.cb_entries in
      fail_if (entries == 0 || (ltb checksums_per_block entries || ltb (len - validated) entries))
        einval
      >> check_sums image pstart validated sums.cb_sums entries 0
      >> next_sums blocks (validated + entries) len sums.cb_next
      >> ok sums

  -- The chain of checksum blocks of an extent. Each has at least one entry, so with `n` rounds for
  -- the blocks that are left the chain comes to its end.
  unfoldable pub check_chain :
      Image Fd → ℕ → ℕ → ℕ → ℕ → ℕ → ℕ → List Interval → Result (List Interval)
  check_chain image blocks pstart len zero validated csum_block used = ok used
  check_chain image blocks pstart len (suc n) validated csum_block used =
      if not (ltb validated len)
      then ok used
      else (check_link image blocks pstart len validated csum_block >>= λ sums.
          check_chain image blocks pstart len n (validated + sums.cb_entries) sums.cb_next
            (interval_list_append used csum_block 1))

  unfoldable pub check_extent : Image Fd → ℕ → FileScan → Extent → Result FileScan
  check_extent image blocks scan extent =
      let len = extent.e_len in
      let pstart = extent.e_pstart in
      let csum_block = extent.e_csum_start in
      fail_if
        (len == 0
          || (extent.e_lstart /= scan.logical_cursor
              || (ltb pstart data_start_block
                  || (ltb blocks (u64 (pstart + len))
                      || (ltb csum_block data_start_block || leb blocks csum_block)))))
        einval
      >> check_chain image blocks pstart len len 0 csum_block
          (interval_list_append scan.used pstart len)
      >>= λ used. ok (record {
        used = used;
        logical_cursor = u64 (scan.logical_cursor + len);
        file_blocks = u64 (scan.file_blocks + len);
      })

  -- The loop over the extents of a file, from `index` on, `n` of them.
  unfoldable pub check_extents : Image Fd → ℕ → List Extent → ℕ → ℕ → FileScan → Result FileScan
  check_extents image blocks extents zero index scan = ok scan
  check_extents image blocks extents (suc n) index scan =
      check_extent image blocks scan (get_or extents index no_extent) >>= λ next.
      check_extents image blocks extents n (index + 1) next

  unfoldable pub check_file : Image Fd → ℕ → Scan → Inode → Result Scan
  check_file image blocks scan inode =
      let extent_root = inode.i_extent_root in
      let start : FileScan = record {
        used = interval_list_append scan.used extent_root 1;
        logical_cursor = 0;
        file_blocks = 0;
      } in
      fail_if (ltb extent_root data_start_block || leb blocks extent_root) einval
      >> read_extent_node D image extent_root
      >>= λ extents.
          fail_if (extents.en_next /= 0) eopnotsupp
          >> check_extents image blocks extents.en_extents extents.en_count 0 start
          >>= λ file.
              fail_if (file.file_blocks /= inode.i_blocks) einval
              >> fail_if (size_misfits file.file_blocks inode.i_size) einval
              >> ok (record {
                used = file.used;
                files = scan.files + 1;
                directories = scan.directories;
                data_blocks = u64 (scan.data_blocks + file.file_blocks);
              })

  -- An inode that the bitmap has in use.
  unfoldable pub check_inode : Image Fd → Loaded → (ℕ → Bool) → ℕ → Scan → Inode → Result Scan
  check_inode image l dir_refs index scan inode =
      let root_dir_block = l.checkpoint_root.cr_root_dir_block in
      fail_if (inode.i_mode == 0) einval
      >> fail_if (inode.i_checksum /= inode_checksum inode) eilseq
      >> (if is_dir inode.i_mode
          then fail_if (not (index == 0) || inode.i_extent_root /= root_dir_block) einval
            >> ok (record scan { directories = scan.directories + 1 })
          else fail_if (not (is_reg inode.i_mode) || not (dir_refs index)) einval
            >> check_file image l.blocks scan inode)

  -- The loop over the inodes, from `index` on, `n` of them.
  unfoldable pub check_inodes : Image Fd → Loaded → (ℕ → Bool) → ℕ → ℕ → Scan → Result Scan
  check_inodes image l dir_refs zero index scan = ok scan
  check_inodes image l dir_refs (suc n) index scan =
      let inode = inode_at l.inode_table index in
      (if bitmap_test l.inode_bitmap index
        then check_inode image l dir_refs index scan inode
        else fail_if (inode.i_mode /= 0) einval >> ok scan)
      >>= λ next. check_inodes image l dir_refs n (index + 1) next

  -- What the loop over the inodes starts with.
  abbrev pub scan_start : Loaded → Scan
  scan_start l = record {
    used = interval_list_append [] l.checkpoint_root.cr_root_dir_block 1;
    files = 0;
    directories = 0;
    data_blocks = 0;
  }

  unfoldable pub image_validate : Image Fd → Loaded → List ℕ → Result ScrubReport
  image_validate image l beyond =
      fail_if (l.journal.il_outstanding /= 0) euclean
      >> fail_if (not (bitmap_test l.inode_bitmap 0)) einval
      >> image_validate_root_dir beyond l.root_dir
      >>= λ dir_refs. check_inodes image l dir_refs max_inodes 0 (scan_start l) >>= λ scan.
          validate_free l.free_extents l.blocks >>= λ (free, free_blocks).
          check_coverage l.blocks free scan.used
          >> fail_if (l.super.s_free_blocks /= free_blocks) einval
          >> image_validate_pool_redundancy D image (sort scan.used)
          >> ok (record {
            files = scan.files;
            directories = scan.directories;
            inodes_used = l.inode_bitmap.bb_set_bits;
            data_blocks = scan.data_blocks;
            free_blocks = free_blocks;
          })
