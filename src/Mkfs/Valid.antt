-- ===== src/Mkfs/Valid.antt =====
-- Each validation of mkfs.c passes on the structure that the same file makes.
use aetherfs.Base.{
  ℕ, zero, suc, ◌+◌, ◌-◌, ◌/◌, ◌^◌, ◌<◌, ◌≤◌, ◌≡◌, ◌∙◌, ap, refl, false, List, [], ◌∷◌, Option,
  none, some, ok, err, einval, arith, length, replicate, ◌==◌, eq→/=, ge→ltb, min, u32, u64, sub64,
  All, map, take, length-set, length-replicate,
}
use aetherfs.Format.{
  def_block_size, data_start_block, bootstrap_blocks, blocks_per_ag, append_mode, overwrite_mode,
  extent_log_max,
}
use aetherfs.Format.Codec.{Fits}
use aetherfs.Format.Structs.Super.{
  Super, super_widths, super_fields, super_bytes, super_of_bytes, super_of_bytes-bytes,
  super_checksum, intent_log_bytes, intent_log_of_bytes, intent_log_of_bytes-bytes,
}
use aetherfs.Format.Structs.Checkpoint.{
  checkpoint_root_widths, checkpoint_root_fields, checkpoint_root_bytes, checkpoint_root_of_bytes,
  checkpoint_root_of_bytes-bytes, checkpoint_root_checksum,
}
use aetherfs.Format.Structs.Inode.{
  inode_widths, inode_fields, inode_bytes, inode_of_bytes, inode_of_bytes-bytes, inode_checksum,
}
use aetherfs.Format.Structs.Extent.{
  extent_widths, extent_fields, extent_node_bytes, extent_node_of_bytes, extent_node_checksum,
}
use aetherfs.Format.Structs.Bitmap.{
  BitmapBlock, bitmap_checksum, bitmap_block_bytes, bitmap_block_of_bytes,
}
use aetherfs.Format.{max_inodes, bitmap_bytes}
use aetherfs.Bitmap.{bitmap_count_set}
use aetherfs.Format.Codec.{of_le_bytes, encode, decode-encode, drop-append, length-encode}
use aetherfs.Volume.{padded}
use aetherfs.Volume.Nodes.{node_back}
use aetherfs.Mkfs.{
  MkfsOptions, System, mode_features, init_super, bootstrap_super, init_checkpoint_root,
  init_root_inode, timestamp, init_free_extents, init_journal, init_inode_bitmap, init_root_dir,
  no_extent,
}
use aetherfs.Mkfs.Seals.{
  super_checksum-lt, journal_checksum-lt, checkpoint_root_checksum-lt, inode_checksum-lt,
  extent_node_checksum-lt, init_bitmap_checksum-lt,
}
use aetherfs.Mkfs.Check.{
  validate_super, validate_checkpoint_root, validate_root_inode, validate_root_dir,
  validate_journal, validate_bitmap, validate_free_extents, free_extents_total,
}

-- A size that an image can have, and options in their ranges.
pub record IsFormat (options : MkfsOptions) (blocks : ℕ) : Type 0 where
  pub room : bootstrap_blocks ≤ blocks
  pub blocks_fit : blocks < 2 ^ 64
  pub mode_fits : options.mode < 2 ^ 16
  pub whole_blocks : options.block_size ≡ def_block_size

min_fits : (blocks : ℕ) → min (u32 blocks) blocks_per_ag < 2 ^ 32
min_fits blocks = ground arith

mode_features-lt : (mode : ℕ) → mode_features mode < 2 ^ 16
unfolding mode_features
mode_features-lt mode = ground arith

timestamp-lt : (clock : Option ℕ) → timestamp clock < 2 ^ 64
timestamp-lt none = omega arith
timestamp-lt (some now) = omega arith

pub super-Fits :
    (options : MkfsOptions) (blocks : ℕ) (uuid : List ℕ)
    → IsFormat options blocks
    → of_le_bytes uuid < 256 ^ 16
    → Fits super_widths (super_fields (bootstrap_super options blocks uuid))
unfolding init_super bootstrap_super
super-Fits options blocks uuid form h =
    let size : blocks < 2 ^ 64 = form.blocks_fit in
    let block : options.block_size ≡ 4096 = form.whole_blocks in
    (
      omega arith,
      (
        omega arith,
        (
          omega arith,
          (
            omega arith,
            (
              omega arith,
              (
                min_fits blocks,
                (
                  omega arith,
                  (
                    omega arith,
                    (
                      form.mode_fits,
                      (
                        mode_features-lt options.mode,
                        (
                          super_checksum-lt _,
                          (
                            h,
                            (
                              omega arith,
                              (
                                omega arith,
                                (
                                  omega arith,
                                  (
                                    omega arith,
                                    (
                                      omega arith,
                                      (
                                        omega arith,
                                        (
                                          omega arith,
                                          (
                                            omega arith,
                                            (
                                              omega arith,
                                              (
                                                omega arith,
                                                (
                                                  omega arith,
                                                  (
                                                    omega arith,
                                                    (omega arith, (omega arith, (omega arith, tt))),
                                                  ),
                                                ),
                                              ),
                                            ),
                                          ),
                                        ),
                                      ),
                                    ),
                                  ),
                                ),
                              ),
                            ),
                          ),
                        ),
                      ),
                    ),
                  ),
                ),
              ),
            ),
          ),
        ),
      ),
    )

sealed_super :
    (options : MkfsOptions) (blocks : ℕ) (uuid : List ℕ)
    → (bootstrap_super options blocks uuid).s_checksum
      ≡ super_checksum (bootstrap_super options blocks uuid)
unfolding bootstrap_super super_checksum
sealed_super options blocks uuid = refl

-- The superblock of a new image passes its validation.
pub super_valid :
    (options : MkfsOptions) (blocks : ℕ) (uuid : List ℕ)
    → IsFormat options blocks
    → of_le_bytes uuid < 256 ^ 16
    → validate_super blocks
        (super_of_bytes (padded (super_bytes (bootstrap_super options blocks uuid))))
      ≡ ok tt
unfolding validate_super super_checksum bootstrap_super init_super
super_valid options blocks uuid form h =
    let super = bootstrap_super options blocks uuid in
    let back =
      super_of_bytes-bytes super (replicate (def_block_size - length (super_bytes super)) 0)
        (super-Fits options blocks uuid form h) in
    rw (
      back,
      sealed_super options blocks uuid,
      eq→/= (super_checksum super),
      form.whole_blocks,
      eq→/= blocks,
      eq→/= (sub64 blocks data_start_block),
    )

pub root_inode-Fits : (system : System) → Fits inode_widths (inode_fields (init_root_inode system))
unfolding init_root_inode
root_inode-Fits system = (
  omega arith,
  (
    omega arith,
    (
      omega arith,
      (
        omega arith,
        (
          omega arith,
          (
            omega arith,
            (
              timestamp-lt system.clock,
              (
                timestamp-lt system.clock,
                (
                  timestamp-lt system.clock,
                  (
                    omega arith,
                    (
                      omega arith,
                      (
                        omega arith,
                        (
                          omega arith,
                          (
                            omega arith,
                            (
                              omega arith,
                              (
                                omega arith,
                                (
                                  inode_checksum-lt _,
                                  (omega arith, (omega arith, (omega arith, (omega arith, tt)))),
                                ),
                              ),
                            ),
                          ),
                        ),
                      ),
                    ),
                  ),
                ),
              ),
            ),
          ),
        ),
      ),
    ),
  ),
)

pub sealed_inode :
    (system : System)
    → (init_root_inode system).i_checksum ≡ inode_checksum (init_root_inode system)
unfolding init_root_inode inode_checksum
sealed_inode system = refl

pub root_inode_valid :
    (system : System)
    → validate_root_inode (inode_of_bytes (padded (inode_bytes (init_root_inode system)))) ≡ ok tt
unfolding validate_root_inode inode_checksum init_root_inode
root_inode_valid system = rw (
  inode_of_bytes-bytes (init_root_inode system) _ (root_inode-Fits system),
  sealed_inode system,
  eq→/= (inode_checksum (init_root_inode system)),
)

pub root-Fits :
    (options : MkfsOptions) (blocks : ℕ) (uuid : List ℕ)
    → blocks < 2 ^ 64
    → Fits checkpoint_root_widths
        (checkpoint_root_fields (init_checkpoint_root (bootstrap_super options blocks uuid) blocks))
unfolding init_checkpoint_root bootstrap_super init_super
root-Fits options blocks uuid h = (
  omega arith,
  (
    omega arith,
    (
      checkpoint_root_checksum-lt _,
      (
        omega arith,
        (
          omega arith,
          (
            omega arith,
            (
              omega arith,
              (
                omega arith,
                (
                  omega arith,
                  (
                    omega arith,
                    (
                      omega arith,
                      (
                        omega arith,
                        (
                          omega arith,
                          (
                            omega arith,
                            (
                              omega arith,
                              (
                                omega arith,
                                (
                                  omega arith,
                                  (
                                    omega arith,
                                    (
                                      omega arith,
                                      (
                                        omega arith,
                                        (
                                          omega arith,
                                          (
                                            omega arith,
                                            (omega arith, (omega arith, (omega arith, tt))),
                                          ),
                                        ),
                                      ),
                                    ),
                                  ),
                                ),
                              ),
                            ),
                          ),
                        ),
                      ),
                    ),
                  ),
                ),
              ),
            ),
          ),
        ),
      ),
    ),
  ),
)

pub checkpoint_root_valid :
    (options : MkfsOptions) (blocks : ℕ) (uuid : List ℕ)
    → blocks < 2 ^ 64
    → validate_checkpoint_root blocks (
        checkpoint_root_of_bytes (
          padded (
            checkpoint_root_bytes
              (init_checkpoint_root (bootstrap_super options blocks uuid) blocks))))
      ≡ ok tt
unfolding validate_checkpoint_root checkpoint_root_checksum init_checkpoint_root bootstrap_super
    init_super
checkpoint_root_valid options blocks uuid h =
    let root = init_checkpoint_root (bootstrap_super options blocks uuid) blocks in
    rw (
      checkpoint_root_of_bytes-bytes root _ (root-Fits options blocks uuid h),
      eq→/= (checkpoint_root_checksum root),
      eq→/= (u32 (u64 (blocks + blocks_per_ag - 1) / blocks_per_ag)),
      eq→/= blocks,
    )

pub init_journal_back : intent_log_of_bytes (padded (intent_log_bytes init_journal)) ≡ init_journal
unfolding init_journal
init_journal_back =
    intent_log_of_bytes-bytes init_journal
      (replicate (def_block_size - length (intent_log_bytes init_journal)) 0)
      (
        omega arith,
        (
          omega arith,
          (
            omega arith,
            (omega arith, (omega arith, (omega arith, (journal_checksum-lt _, (omega arith, tt))))),
          ),
        ),
      )

pub journal_valid :
    validate_journal (intent_log_of_bytes (padded (intent_log_bytes init_journal))) ≡ ok tt
unfolding validate_journal init_journal intent_log_of_bytes intent_log_bytes
    aetherfs.Format.Codec.decode of_le_bytes aetherfs.Format.Codec.encode
    aetherfs.Format.Codec.le_bytes aetherfs.Format.Structs.Super.journal_checksum
    aetherfs.Format.Crc.crc32c_data aetherfs.Format.Crc.crc32c aetherfs.Format.Crc.crc_loop
    aetherfs.Format.Crc.crc_bits aetherfs.Format.Crc.crc_bit
journal_valid = refl

take_full : (n : ℕ) (xs : List ℕ) → length xs ≡ n → take n xs ≡ xs
take_full zero [] h = refl
take_full (suc n) [] h = refl
take_full zero (x ∷ xs) h = absurd (omega arith)
take_full (suc n) (x ∷ xs) h = ap (λ t. x ∷ t) (take_full n xs (omega arith))

bitmap_back :
    (s : BitmapBlock)
    → Fits
        (4 ∷ 4 ∷ 4 ∷ 4 ∷ [])
        (s.bb_checksum ∷ s.bb_total_bits ∷ s.bb_set_bits ∷ s.bb_reserved ∷ [])
    → length s.bb_bits ≡ bitmap_bytes
    → bitmap_block_of_bytes (bitmap_block_bytes s) ≡ s
unfolding bitmap_block_of_bytes bitmap_block_bytes aetherfs.Format.Codec.sizes
bitmap_back s h size =
    let ws : List ℕ = 4 ∷ 4 ∷ 4 ∷ 4 ∷ [] in
    let fields : List ℕ = s.bb_checksum ∷ s.bb_total_bits ∷ s.bb_set_bits ∷ s.bb_reserved ∷ [] in
    rw (
      decode-encode ws fields s.bb_bits h,
      drop-append 16 (encode ws fields) s.bb_bits (length-encode ws fields),
      take_full bitmap_bytes s.bb_bits size,
    )

pub bitmap_count : bitmap_count_set init_inode_bitmap ≡ 1
unfolding init_inode_bitmap bitmap_count_set aetherfs.Bitmap.popcounts aetherfs.Bitmap.bitmap_set
    aetherfs.Bitmap.popcount
bitmap_count = refl

pub init_bitmap_back :
    bitmap_block_of_bytes (bitmap_block_bytes init_inode_bitmap) ≡ init_inode_bitmap
unfolding init_inode_bitmap aetherfs.Bitmap.bitmap_set
init_bitmap_back =
    bitmap_back init_inode_bitmap
      (init_bitmap_checksum-lt, (omega arith, (omega arith, (omega arith, tt))))
      (length-set {A = ℕ} (replicate bitmap_bytes 0) 0 1 ∙ length-replicate {A = ℕ} bitmap_bytes 0)

pub bitmap_valid :
    validate_bitmap max_inodes 1 (bitmap_block_of_bytes (bitmap_block_bytes init_inode_bitmap))
    ≡ ok tt
unfolding validate_bitmap init_inode_bitmap bitmap_checksum aetherfs.Bitmap.bitmap_set
bitmap_valid = rw (init_bitmap_back, bitmap_count, eq→/= (bitmap_checksum init_inode_bitmap))

pub root_dir_valid : (beyond : List ℕ) → validate_root_dir beyond init_root_dir ≡ ok tt
unfolding validate_root_dir aetherfs.Mkfs.Check.validate_root_entry
    aetherfs.Format.Structs.Dirent.dir_entry_of_bytes aetherfs.Format.Codec.decode of_le_bytes
    init_root_dir aetherfs.Mkfs.dir_entry_sealed aetherfs.Format.Structs.Dirent.dir_entry_bytes
    aetherfs.Format.Codec.encode aetherfs.Format.Codec.le_bytes aetherfs.Mkfs.Check.bytes_differ
    aetherfs.Format.Structs.Dirent.dir_entry_name aetherfs.Format.Structs.Dirent.dirent_checksum
    aetherfs.Format.Crc.crc32c_data aetherfs.Format.Crc.crc32c aetherfs.Format.Crc.crc_loop
    aetherfs.Format.Crc.crc_bits aetherfs.Format.Crc.crc_bit
root_dir_valid beyond = refl

no_extents : (n : ℕ) → All (Fits extent_widths) (map extent_fields (replicate n no_extent))
no_extents zero = tt
no_extents (suc n) = (
  (omega arith, (omega arith, (omega arith, (omega arith, (omega arith, (omega arith, tt)))))),
  no_extents n,
)

pub free_back :
    (blocks : ℕ)
    → bootstrap_blocks ≤ blocks
    → blocks < 2 ^ 64
    → extent_node_of_bytes (extent_node_bytes (init_free_extents blocks)) ≡ init_free_extents blocks
unfolding init_free_extents
free_back blocks room h =
    node_back (init_free_extents blocks)
      (omega arith, (omega arith, (extent_node_checksum-lt _, tt)))
      (
        (
          omega arith,
          (omega arith, (omega arith, (omega arith, (omega arith, (omega arith, tt))))),
        ),
        no_extents (extent_log_max - 1),
      )
      refl

pub free_extents_valid :
    (blocks : ℕ)
    → bootstrap_blocks < blocks
    → blocks < 2 ^ 64
    → validate_free_extents blocks
        (extent_node_of_bytes (extent_node_bytes (init_free_extents blocks)))
      ≡ ok tt
unfolding validate_free_extents extent_node_checksum init_free_extents free_extents_total
free_extents_valid blocks room h =
    let node = init_free_extents blocks in
    let whole : u64 (0 + sub64 blocks data_start_block) ≡ sub64 blocks data_start_block =
      omega arith in
    let some_free : sub64 blocks data_start_block == 0 ≡ false = ground arith in
    rw (
      free_back blocks (omega arith) h,
      eq→/= (extent_node_checksum node),
      ge→ltb blocks (u64 (data_start_block + sub64 blocks data_start_block)) (omega arith),
      whole,
      some_free,
      eq→/= (sub64 blocks data_start_block),
    )

-- With no block beside the bootstrap blocks, the only free extent is empty.
pub free_extents_empty :
    validate_free_extents bootstrap_blocks
      (extent_node_of_bytes (extent_node_bytes (init_free_extents bootstrap_blocks)))
    ≡ err einval
unfolding validate_free_extents extent_node_checksum init_free_extents free_extents_total
free_extents_empty = rw (
  free_back bootstrap_blocks (omega arith) (omega arith),
  eq→/= (extent_node_checksum (init_free_extents bootstrap_blocks)),
)
