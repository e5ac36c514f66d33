-- ===== src/Scrub/Owners.antt =====
-- What `aetherfs_image_validate` promises of an image that it accepts: each data block is free or has
-- one owner.
use aetherfs.Base.{
  ℕ, zero, suc, ◌+◌, ◌^◌, ◌≤◌, ◌<◌, ◌≡◌, ◌∙◌, sym, ap, subst, Bool, ◌||◌, not, List, [], ◌∷◌, All,
  ok, einval, euclean, arith, ltb, ◌==◌, ◌/=◌, u64, fail_if, ◌>>◌, seq_ok, bind_ok, ok_inj, /=→eq,
  inl, get_or, drop,
}
use aetherfs.Format.{data_start_block, max_inodes, extent_log_max, root_dir_block, superblock_block}
use aetherfs.Format.Crc.{AreBytes}
use aetherfs.Format.Codec.{decode}
use aetherfs.Format.Structs.Super.{super_of_bytes}
use aetherfs.Format.Structs.Extent.{Extent}
use aetherfs.Bitmap.{bitmap_test}
use aetherfs.Image.{Image}
use aetherfs.Image.Device.{Disk}
use aetherfs.Mkfs.{no_extent}
use aetherfs.Redundancy.{Interval, image_validate_pool_redundancy}
use aetherfs.Scrub.{ScrubReport, Scan, check_inodes, scan_start, image_validate}
use aetherfs.Scrub.Directory.{image_validate_root_dir}
use aetherfs.Scrub.Coverage.{
  interval, interval_list_append, free_intervals, validate_free, check_coverage, sort,
}
use aetherfs.Scrub.Covers.{
  IsBounded, IsUsable, owners, past_bootstrap, interval_list_append-All,
  owners-interval_list_append, check_coverage-owners,
}
use aetherfs.Volume.{Loaded, image_load, image_validate_super, image_validate_checkpoint_root}
use aetherfs.Volume.Loads.{image_load-IsLoaded}
use aetherfs.Scrub.Reads.{
  take-lt, drop-AreBytes, ReadsBytes, node_len-lt, IsByteDisk, IsByteDisk-ReadsBytes,
}
use aetherfs.Scrub.Usable.{check_inodes-IsUsable}

-- The blocks of `n` extents, from `index` on.
unfoldable pub extent_intervals : List Extent → ℕ → ℕ → List Interval
extent_intervals extents zero index = []
extent_intervals extents (suc n) index =
    let extent = get_or extents index no_extent in
    interval extent.e_pstart extent.e_len ∷ extent_intervals extents n (index + 1)

-- The free blocks that an image states.
abbrev pub free_of : Loaded → List Interval
free_of l = extent_intervals l.free_extents.en_extents l.free_extents.en_count 0

-- What the loop over the free extents leaves.
record IsFree (blocks : ℕ) (coverage added end : List Interval) : Type 0 where
  bounded : All (IsBounded blocks) end
  sum : (b : ℕ) → owners b end ≡ owners b coverage + owners b added

free_intervals-IsFree :
    (extents : List Extent) (blocks n index last_end free_blocks total : ℕ)
    (coverage end : List Interval)
    → ((i : ℕ) → (get_or extents i no_extent).e_len < 2 ^ 64)
    → All (IsBounded blocks) coverage
    → free_intervals extents blocks n index last_end coverage free_blocks ≡ ok (end, total)
    → IsFree blocks coverage (extent_intervals extents n index) end
unfolding free_intervals extent_intervals owners
free_intervals-IsFree extents blocks zero index last_end free_blocks total coverage end small all
      h =
    let same : coverage ≡ end = ground arith in
    subst (IsFree blocks coverage []) same (record { bounded = all; sum = λ b. omega arith })
free_intervals-IsFree extents blocks (suc n) index last_end free_blocks total coverage end small all
      h =
    let extent = get_or extents index no_extent in
    let start = extent.e_pstart in
    let len = extent.e_len in
    let placed =
      fail_if (len == 0 || (ltb start last_end || ltb blocks (u64 (start + len)))) einval in
    let more = interval_list_append coverage start len in
    let (good, rest) =
      seq_ok placed
        (free_intervals extents blocks n (index + 1) (u64 (start + len)) more
          (u64 (free_blocks + len)))
        (end, total) h in
    let inside : u64 (start + len) ≤ blocks = ground arith in
    let this : IsBounded blocks (interval start len) = record {
      len_fits = small index;
      end_inside = inside;
    } in
    let ih =
      free_intervals-IsFree extents blocks n (index + 1) (u64 (start + len))
        (u64 (free_blocks + len)) total more end small
        (interval_list_append-All (IsBounded blocks) coverage start len all this) rest in
    record {
      bounded = ih.bounded;
      sum =
          λ b. omega (arith, ih.sum b, owners-interval_list_append b coverage (interval start len));
    }

super_blocks-lt : (bs : List ℕ) → AreBytes bs → (super_of_bytes bs).s_blocks_count < 2 ^ 64
unfolding super_of_bytes decode
super_blocks-lt bs h =
    take-lt 8 (drop 4 (drop 4 (drop 4 bs)))
      (drop-AreBytes 4 (drop 4 (drop 4 bs)) (drop-AreBytes 4 (drop 4 bs) (drop-AreBytes 4 bs h)))

-- Free intervals that were accepted beside the used ones.
accepted :
    (l : Loaded) (b : ℕ) (free used : List Interval)
    → data_start_block ≤ l.blocks
    → l.blocks < 2 ^ 64
    → IsFree l.blocks [] (free_of l) free
    → All (IsUsable l.blocks) used
    → check_coverage l.blocks free used ≡ ok tt
    → data_start_block ≤ b
    → b < l.blocks
    → owners b (free_of l) + owners b (past_bootstrap used) ≡ 1
unfolding owners
accepted l b free used room fits stated usable covered lo hi =
    let exact =
      check_coverage-owners l.blocks b free used room fits stated.bounded usable covered lo hi in
    omega (arith, exact, stated.sum b)

module _ (D : Disk) where
  open D use {Fd}

  loaded_blocks :
      (image : Image Fd) (l : Loaded)
      → ReadsBytes D image
      → image_load D image ≡ ok l
      → (data_start_block ≤ l.blocks) × (l.blocks < 2 ^ 64)
  unfolding image_validate_super
  loaded_blocks image l bytes loads =
      let w = image_load-IsLoaded D image l loads in
      let fits : (super_of_bytes w.super_block).s_blocks_count < 2 ^ 64 =
        super_blocks-lt w.super_block (bytes superblock_block w.super_block w.super_read) in
      let valid = w.super_valid in
      let count : l.super.s_blocks_count < 2 ^ 64 =
        subst (λ s. s.s_blocks_count < 2 ^ 64) w.super_is fits in
      (
        subst (λ n. data_start_block ≤ n) w.blocks_is (ground (arith, valid)),
        subst (λ n. n < 2 ^ 64) w.blocks_is count,
      )

  loaded_root_dir :
      (image : Image Fd) (l : Loaded)
      → image_load D image ≡ ok l
      → l.checkpoint_root.cr_root_dir_block ≡ root_dir_block
  unfolding image_validate_checkpoint_root
  loaded_root_dir image l loads =
      let valid = (image_load-IsLoaded D image l loads).root_valid in
      ground (arith, valid, /=→eq l.checkpoint_root.cr_root_dir_block root_dir_block)

  -- The free extents that were accepted are those that the image states.
  validate_free-IsFree :
      (l : Loaded) (free : List Interval) (total : ℕ)
      → ((i : ℕ) → (get_or l.free_extents.en_extents i no_extent).e_len < 2 ^ 64)
      → validate_free l.free_extents l.blocks ≡ ok (free, total)
      → IsFree l.blocks [] (free_of l) free
  unfolding validate_free
  validate_free-IsFree l free total small h =
      let node = l.free_extents in
      let shaped = fail_if (node.en_next /= 0 || ltb extent_log_max node.en_count) einval in
      let loop = free_intervals node.en_extents l.blocks node.en_count 0 data_start_block [] 0 in
      let (_, looped) = seq_ok shaped loop (free, total) h in
      free_intervals-IsFree node.en_extents l.blocks node.en_count 0 data_start_block 0 total []
        free small tt looped

  -- The inodes of an accepted image use intervals inside the image.
  scanned-IsUsable :
      (image : Image Fd) (l : Loaded) (dir_refs : ℕ → Bool) (scan : Scan)
      → ReadsBytes D image
      → image_load D image ≡ ok l
      → check_inodes D image l dir_refs max_inodes 0 (scan_start D l) ≡ ok scan
      → All (IsUsable l.blocks) scan.used
  scanned-IsUsable image l dir_refs scan bytes loads h =
      let (room, fits) = loaded_blocks image l bytes loads in
      let root = loaded_root_dir image l loads in
      let early : IsUsable l.blocks (interval l.checkpoint_root.cr_root_dir_block 1) =
        inl (omega (arith, root)) in
      check_inodes-IsUsable D image l dir_refs max_inodes 0 (scan_start D l) scan fits bytes
        (interval_list_append-All (IsUsable l.blocks) [] l.checkpoint_root.cr_root_dir_block 1 tt
          early)
        h

  -- In an image that loads and passes the validation, each block of the data region is a free block of
  -- the image or belongs to exactly one interval that the check of the inodes found in use, and not to
  -- both, provided that what the system reads are bytes.
  pub image_validate-owners :
      (image : Image Fd) (l : Loaded) (beyond : List ℕ) (report : ScrubReport) (dir_refs : ℕ → Bool)
      (scan : Scan) (b : ℕ)
      → IsByteDisk D
      → image_load D image ≡ ok l
      → image_validate_root_dir beyond l.root_dir ≡ ok dir_refs
      → check_inodes D image l dir_refs max_inodes 0 (scan_start D l) ≡ ok scan
      → image_validate D image l beyond ≡ ok report
      → data_start_block ≤ b
      → b < l.blocks
      → owners b (free_of l) + owners b (past_bootstrap scan.used) ≡ 1
  unfolding image_validate
  image_validate-owners image l beyond report dir_refs scan b disk loads dir inodes valid lo hi =
      let bytes = IsByteDisk-ReadsBytes D image disk in
      let clean = fail_if (l.journal.il_outstanding /= 0) euclean in
      let first = fail_if (not (bitmap_test l.inode_bitmap 0)) einval in
      let root = image_validate_root_dir beyond l.root_dir in
      let (refs, both, h1) = bind_ok (clean >> first >> root) _ report valid in
      let (_, named) = seq_ok (clean >> first) root refs both in
      let same_refs : refs ≡ dir_refs = ok_inj (sym named ∙ dir) in
      let (found, checked, h2) =
        bind_ok (check_inodes D image l refs max_inodes 0 (scan_start D l)) _ report h1 in
      let same : found ≡ scan = ok_inj (
        sym checked
        ∙ ap (λ r. check_inodes D image l r max_inodes 0 (scan_start D l)) same_refs
        ∙ inodes) in
      let ((free, total), freed, h3) =
        bind_ok (validate_free l.free_extents l.blocks) _ report h2 in
      let cover = check_coverage l.blocks free found.used in
      let counted = fail_if (l.super.s_free_blocks /= total) einval in
      let copies = image_validate_pool_redundancy D image (sort found.used) in
      let (checks, _) = seq_ok (cover >> counted >> copies) _ report h3 in
      let (two, _) = seq_ok (cover >> counted) copies tt checks in
      let (covered, _) = seq_ok cover counted tt two in
      let (room, fits) = loaded_blocks image l bytes loads in
      let w = image_load-IsLoaded D image l loads in
      let small : (i : ℕ) → (get_or l.free_extents.en_extents i no_extent).e_len < 2 ^ 64 = λ i.
        node_len-lt D image l.checkpoint_root.cr_free_space_root i l.free_extents bytes
          w.free_read in
      let stated = validate_free-IsFree l free total small freed in
      let usable = scanned-IsUsable image l dir_refs scan bytes loads inodes in
      let cover_scan : check_coverage l.blocks free scan.used ≡ ok tt =
        subst (λ s. check_coverage l.blocks free s.used ≡ ok tt) same covered in
      accepted l b free scan.used room fits stated usable cover_scan lo hi
