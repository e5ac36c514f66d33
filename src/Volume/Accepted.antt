-- ===== src/Volume/Accepted.antt =====
-- aetherfsprogs/image.c: the images that `aetherfs_image_load` accepts.
use aetherfs.Base.{
  ℕ, ◌<◌, ◌≤◌, ◌≡◌, ◌≢◌, ◌↔◌, refl, sym, ◌∙◌, List, ok, einval, eilseq, arith, bind_ok, seq_ok,
  ◌>>◌, fail_if, ◌/=◌, /=→eq, eq→/=, ltb, ge→ltb, subst, ok_inj,
}
use aetherfs.Format.{
  superblock_block, checkpoint_root_block, inode_bitmap_block, free_extent_block, root_dir_block,
  max_inodes, extent_log_max,
}
use aetherfs.Format.Structs.Super.{super_of_bytes, intent_log_of_bytes, journal_checksum}
use aetherfs.Format.Structs.Checkpoint.{checkpoint_root_of_bytes}
use aetherfs.Format.Structs.Bitmap.{bitmap_block_of_bytes}
use aetherfs.Format.Structs.Extent.{ExtentNode, extent_node_of_bytes, extent_node_checksum}
use aetherfs.Image.{Image, image_read_block}
use aetherfs.Image.Device.{Disk}
use aetherfs.Image.Physical.{max_block}
use aetherfs.Volume.{Loaded, image_load, read_extent_node}
use aetherfs.Volume.Loads.{image_load-IsLoaded, IsLoaded-image_load}
use aetherfs.Volume.Sound.{
  IsSuper, IsRoot, IsInodeBitmap, image_validate_super-IsSuper, IsSuper-image_validate_super,
  image_validate_checkpoint_root-IsRoot, IsRoot-image_validate_checkpoint_root,
  image_validate_bitmap-IsInodeBitmap, IsInodeBitmap-image_validate_bitmap,
}

-- The two addresses that no validation fixes are block numbers whose offset a 64-bit number can hold.
pub record IsNear (l : Loaded) : Type 0 where
  pub journal_near : l.super.s_journal_addr < max_block
  pub inodes_near : l.super.s_root_inode < max_block

-- The block is none of those that loading reads.
pub record IsUnread (l : Loaded) (b : ℕ) : Type 0 where
  pub super_apart : b ≢ superblock_block
  pub root_apart : b ≢ checkpoint_root_block
  pub journal_apart : b ≢ l.super.s_journal_addr
  pub bitmap_apart : b ≢ inode_bitmap_block
  pub free_apart : b ≢ free_extent_block
  pub inodes_apart : b ≢ l.super.s_root_inode
  pub dir_apart : b ≢ root_dir_block

module _ (D : Disk) where
  open D use {Fd}

  -- The structure is what the block of this number holds.
  abbrev Holds : {A : Type 0} → Image Fd → ℕ → (List ℕ → A) → A → Type 0
  Holds i b of_bytes s = (x : List ℕ) × (image_read_block D i b ≡ ok x) × (of_bytes x ≡ s)

  -- The structures lie on the image at their fixed addresses, the journal and the inode table where the
  -- superblock says. Five of them have their checksums, and their fields fit one another and the pool.
  -- Nothing is said of the contents of the inode table and of the root directory.
  pub record IsVolume (i : Image Fd) (l : Loaded) : Type 0 where
    pub super_at : Holds i superblock_block super_of_bytes l.super
    pub super_good : IsSuper i.pool l.super
    pub root_at : Holds i checkpoint_root_block checkpoint_root_of_bytes l.checkpoint_root
    pub root_good : IsRoot l.super l.checkpoint_root
    pub journal_at : Holds i l.super.s_journal_addr intent_log_of_bytes l.journal
    pub journal_sealed : l.journal.il_checksum ≡ journal_checksum l.journal
    pub bitmap_at : Holds i inode_bitmap_block bitmap_block_of_bytes l.inode_bitmap
    pub bitmap_good : IsInodeBitmap l.inode_bitmap max_inodes
    pub free_at : Holds i free_extent_block extent_node_of_bytes l.free_extents
    pub free_sealed : l.free_extents.en_checksum ≡ extent_node_checksum l.free_extents
    pub free_fits : l.free_extents.en_count ≤ extent_log_max
    pub inodes_at : image_read_block D i l.super.s_root_inode ≡ ok l.inode_table
    pub dir_at : image_read_block D i root_dir_block ≡ ok l.root_dir
    pub blocks_are : l.blocks ≡ l.super.s_blocks_count

  record IsRead (i : Image Fd) (b : ℕ) (node : ExtentNode) : Type 0 where
    at : Holds i b extent_node_of_bytes node
    sealed : node.en_checksum ≡ extent_node_checksum node
    fits : node.en_count ≤ extent_log_max

  read_extent_node-IsRead :
      (i : Image Fd) (b : ℕ) (node : ExtentNode)
      → read_extent_node D i b ≡ ok node
      → IsRead i b node
  unfolding read_extent_node
  read_extent_node-IsRead i b node h =
      let (x, read, rest) = bind_ok (image_read_block D i b) _ node h in
      let found = extent_node_of_bytes x in
      let seal = fail_if (found.en_checksum /= extent_node_checksum found) eilseq in
      let few = fail_if (ltb extent_log_max found.en_count) einval in
      let (both, is) = seq_ok (seal >> few) (ok found) node rest in
      let (sealing, counting) = seq_ok seal few tt both in
      subst (IsRead i b) (ok_inj is) (record {
        at = (x, read, refl);
        sealed = ground (arith, /=→eq found.en_checksum (extent_node_checksum found));
        fits = ground arith;
      })

  IsRead-read_extent_node :
      (i : Image Fd) (b : ℕ) (node : ExtentNode)
      → IsRead i b node
      → read_extent_node D i b ≡ ok node
  unfolding read_extent_node
  IsRead-read_extent_node i b node w =
      let (x, read, is) = w.at in
      rw
        (read, is, sym w.sealed, eq→/= node.en_checksum, ge→ltb extent_log_max node.en_count w.fits)

  image_load-IsVolume : (i : Image Fd) (l : Loaded) → image_load D i ≡ ok l → IsVolume i l
  image_load-IsVolume i l h =
      let w = image_load-IsLoaded D i l h in
      let super = image_validate_super-IsSuper i.pool l.super w.super_valid in
      let root = image_validate_checkpoint_root-IsRoot l.super l.checkpoint_root w.root_valid in
      let node =
        subst (λ b. IsRead i b l.free_extents) (root.free_at ∙ super.free_is)
          (read_extent_node-IsRead i _ l.free_extents w.free_read) in
      record {
        super_at = (w.super_block, w.super_read, w.super_is);
        super_good = super;
        root_at =
            subst (λ b. Holds i b checkpoint_root_of_bytes l.checkpoint_root) super.root_is
              (w.root_block, w.root_read, w.root_is);
        root_good = root;
        journal_at =
            subst (λ b. Holds i b intent_log_of_bytes l.journal) root.journal_at
              (w.journal_block, w.journal_read, w.journal_is);
        journal_sealed = w.journal_valid;
        bitmap_at =
            subst (λ b. Holds i b bitmap_block_of_bytes l.inode_bitmap)
              (root.bitmap_at ∙ super.bitmap_is) (w.bitmap_block, w.bitmap_read, w.bitmap_is);
        bitmap_good = image_validate_bitmap-IsInodeBitmap l.inode_bitmap max_inodes w.bitmap_valid;
        free_at = node.at;
        free_sealed = node.sealed;
        free_fits = node.fits;
        inodes_at =
            subst (λ b. image_read_block D i b ≡ ok l.inode_table) root.inodes_at w.inodes_read;
        dir_at = subst (λ b. image_read_block D i b ≡ ok l.root_dir) root.dir_at w.dir_read;
        blocks_are = sym w.blocks_is;
      }

  IsVolume-image_load : (i : Image Fd) (l : Loaded) → IsVolume i l → image_load D i ≡ ok l
  IsVolume-image_load i l v =
      let (a, ra, isa) = v.super_at in
      let super = v.super_good in
      let root = v.root_good in
      let (b, rb, isb) =
        subst (λ b. Holds i b checkpoint_root_of_bytes l.checkpoint_root) (sym super.root_is)
          v.root_at in
      let (c, rc, isc) =
        subst (λ b. Holds i b intent_log_of_bytes l.journal) (sym root.journal_at) v.journal_at in
      let (d, rd, isd) =
        subst (λ b. Holds i b bitmap_block_of_bytes l.inode_bitmap)
          (sym (root.bitmap_at ∙ super.bitmap_is)) v.bitmap_at in
      let node : IsRead i free_extent_block l.free_extents = record {
        at = v.free_at;
        sealed = v.free_sealed;
        fits = v.free_fits;
      } in
      IsLoaded-image_load D i l (record {
        super_block = a;
        super_read = ra;
        super_is = isa;
        super_valid = IsSuper-image_validate_super i.pool l.super super;
        root_block = b;
        root_read = rb;
        root_is = isb;
        root_valid = IsRoot-image_validate_checkpoint_root l.super l.checkpoint_root root;
        journal_block = c;
        journal_read = rc;
        journal_is = isc;
        journal_valid = v.journal_sealed;
        bitmap_block = d;
        bitmap_read = rd;
        bitmap_is = isd;
        bitmap_valid = IsInodeBitmap-image_validate_bitmap l.inode_bitmap max_inodes v.bitmap_good;
        free_read =
            subst (λ b. read_extent_node D i b ≡ ok l.free_extents)
              (sym (root.free_at ∙ super.free_is))
              (IsRead-read_extent_node i _ l.free_extents node);
        inodes_read =
            subst (λ b. image_read_block D i b ≡ ok l.inode_table) (sym root.inodes_at) v.inodes_at;
        dir_read = subst (λ b. image_read_block D i b ≡ ok l.root_dir) (sym root.dir_at) v.dir_at;
        blocks_is = sym v.blocks_are;
      })

  -- An image loads with the given structures exactly if: the superblock in block 1, the checkpoint root
  -- in block 7, the inode bitmap in block 5, the free extents in block 6, and the journal where the
  -- superblock says, decode to them and have their checksums; each field that these structures share
  -- with one another, with the pool or with a constant of the format has that value; the bitmap counts
  -- its set bits; the free extents fit their node; and the root directory in block 3 and the inode table
  -- where the superblock says can be read.
  pub image_load_iff : (i : Image Fd) (l : Loaded) → (image_load D i ≡ ok l) ↔ IsVolume i l
  image_load_iff i l = (image_load-IsVolume i l, IsVolume-image_load i l)
