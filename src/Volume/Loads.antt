-- ===== src/Volume/Loads.antt =====
-- The steps of `aetherfs_image_load`, one for one.
use aetherfs.Base.{
  ℕ, ◌≡◌, refl, List, ok, eilseq, arith, bind_ok, seq_ok, ◌>>◌, fail_if, ◌/=◌, /=→eq, subst, ok_inj,
}
use aetherfs.Format.{superblock_block, max_inodes}
use aetherfs.Format.Structs.Super.{super_of_bytes, intent_log_of_bytes, journal_checksum}
use aetherfs.Format.Structs.Checkpoint.{checkpoint_root_of_bytes}
use aetherfs.Format.Structs.Bitmap.{bitmap_block_of_bytes}
use aetherfs.Image.{Image, image_read_block}
use aetherfs.Image.Device.{Disk}
use aetherfs.Volume.{
  Loaded, image_load, image_validate_super, image_validate_checkpoint_root, image_validate_bitmap,
  read_extent_node,
}

module _ (D : Disk) where
  open D use {Fd}

  -- The structures of `l` lie on the image where its superblock and its checkpoint root say, and each
  -- passes its validation.
  pub record IsLoaded (i : Image Fd) (l : Loaded) : Type 0 where
    pub super_block : List ℕ
    pub super_read : image_read_block D i superblock_block ≡ ok super_block
    pub super_is : super_of_bytes super_block ≡ l.super
    pub super_valid : image_validate_super i.pool l.super ≡ ok tt
    pub root_block : List ℕ
    pub root_read : image_read_block D i l.super.s_checkpoint_0 ≡ ok root_block
    pub root_is : checkpoint_root_of_bytes root_block ≡ l.checkpoint_root
    pub root_valid :
        image_validate_checkpoint_root l.super.s_blocks_count l.super l.checkpoint_root ≡ ok tt
    pub journal_block : List ℕ
    pub journal_read : image_read_block D i l.checkpoint_root.cr_journal_block ≡ ok journal_block
    pub journal_is : intent_log_of_bytes journal_block ≡ l.journal
    pub journal_valid : l.journal.il_checksum ≡ journal_checksum l.journal
    pub bitmap_block : List ℕ
    pub bitmap_read : image_read_block D i l.checkpoint_root.cr_inode_bitmap_block ≡ ok bitmap_block
    pub bitmap_is : bitmap_block_of_bytes bitmap_block ≡ l.inode_bitmap
    pub bitmap_valid : image_validate_bitmap l.inode_bitmap max_inodes ≡ ok tt
    pub free_read : read_extent_node D i l.checkpoint_root.cr_free_space_root ≡ ok l.free_extents
    pub inodes_read : image_read_block D i l.checkpoint_root.cr_root_inode_block ≡ ok l.inode_table
    pub dir_read : image_read_block D i l.checkpoint_root.cr_root_dir_block ≡ ok l.root_dir
    pub blocks_is : l.super.s_blocks_count ≡ l.blocks

  checked : (a b : ℕ) → fail_if (a /= b) eilseq ≡ ok tt → a ≡ b
  checked a b h = ground (arith, /=→eq a b)

  -- What loading an image gives lies on the image where its superblock and its checkpoint root say, and
  -- each structure of it passes its validation.
  pub image_load-IsLoaded : (i : Image Fd) (l : Loaded) → image_load D i ≡ ok l → IsLoaded i l
  unfolding image_load
  image_load-IsLoaded i l h =
      let (a, ra, ha) = bind_ok (image_read_block D i superblock_block) _ l h in
      let super = super_of_bytes a in
      let (b, pb, hb) =
        bind_ok (image_validate_super i.pool super >> image_read_block D i super.s_checkpoint_0) _ l
          ha in
      let (va, rb) = seq_ok (image_validate_super i.pool super) _ b pb in
      let root = checkpoint_root_of_bytes b in
      let valid_root = image_validate_checkpoint_root super.s_blocks_count super root in
      let (c, pc, hc) = bind_ok (valid_root >> image_read_block D i root.cr_journal_block) _ l hb in
      let (vb, rc) = seq_ok valid_root _ c pc in
      let journal = intent_log_of_bytes c in
      let valid_journal = fail_if (journal.il_checksum /= journal_checksum journal) eilseq in
      let (d, pd, hd) =
        bind_ok (valid_journal >> image_read_block D i root.cr_inode_bitmap_block) _ l hc in
      let (vc, rd) = seq_ok valid_journal _ d pd in
      let valid_bitmap = image_validate_bitmap (bitmap_block_of_bytes d) max_inodes in
      let (e, pe, he) =
        bind_ok (valid_bitmap >> read_extent_node D i root.cr_free_space_root) _ l hd in
      let (vd, re) = seq_ok valid_bitmap _ e pe in
      let (f, rf, hf) = bind_ok (image_read_block D i root.cr_root_inode_block) _ l he in
      let (g, rg, hg) = bind_ok (image_read_block D i root.cr_root_dir_block) _ l hf in
      subst (IsLoaded i) (ok_inj hg) (record {
        super_block = a;
        super_read = ra;
        super_is = refl;
        super_valid = va;
        root_block = b;
        root_read = rb;
        root_is = refl;
        root_valid = vb;
        journal_block = c;
        journal_read = rc;
        journal_is = refl;
        journal_valid = checked _ _ vc;
        bitmap_block = d;
        bitmap_read = rd;
        bitmap_is = refl;
        bitmap_valid = vd;
        free_read = re;
        inodes_read = rf;
        dir_read = rg;
        blocks_is = refl;
      })

  passes : (a b : ℕ) → a ≡ b → fail_if (a /= b) eilseq ≡ ok tt
  passes a b h = ground arith

  -- An image whose structures lie where its superblock and its checkpoint root say, each of them valid,
  -- loads, with these structures.
  pub IsLoaded-image_load : (i : Image Fd) (l : Loaded) → IsLoaded i l → image_load D i ≡ ok l
  unfolding image_load
  IsLoaded-image_load i l w = rw (
    w.super_read,
    w.super_is,
    w.super_valid,
    w.root_read,
    w.root_is,
    w.root_valid,
    w.journal_read,
    w.journal_is,
    passes _ _ w.journal_valid,
    w.bitmap_read,
    w.bitmap_is,
    w.bitmap_valid,
    w.free_read,
    w.inodes_read,
    w.dir_read,
    w.blocks_is,
  )
