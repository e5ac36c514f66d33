-- ===== src/Tests/Scrubs.antt =====
-- The image check on what mkfs makes of a file of 64 blocks, and the coverage of a list of intervals.
use aetherfs.Base.{
  ℕ, ◌+◌, ◌-◌, ◌<◌, ◌≡◌, refl, subst, false, List, [], ◌∷◌, ◌++◌, All, ok, err, eio, Result, Rc,
  arith, replicate, length, length-replicate, inl, inr, if◌then◌else◌, ◌==◌, ok_inj, Bool-cases,
}
use aetherfs.Format.{def_block_size, bitmap_bytes}
use aetherfs.Format.Codec.{encode}
use aetherfs.Format.Crc.{AreBytes}
use aetherfs.Format.Structs.Super.{super_widths, super_bytes, intent_log_widths, intent_log_bytes}
use aetherfs.Format.Structs.Checkpoint.{checkpoint_root_widths, checkpoint_root_bytes}
use aetherfs.Format.Structs.Inode.{inode_widths, inode_bytes}
use aetherfs.Format.Structs.Extent.{ExtentNode, extent_node_bytes}
use aetherfs.Format.Structs.Bitmap.{bitmap_block_bytes}
use aetherfs.Format.Structs.Dirent.{dir_entry_bytes, dir_rec_len}
use aetherfs.Bitmap.{bitmap_set}
use aetherfs.Image.{Image, offset_of}
use aetherfs.Image.Device.{Disk}
use aetherfs.Mkfs.{
  bootstrap_writes, fill_uuid, stamp, dir_entry_sealed, init_root_dir, init_inode_bitmap,
  init_free_extents,
}
use aetherfs.Mkfs.Run.{IsWritten}
use aetherfs.Mkfs.Seals.{
  append-AreBytes, encode-AreBytes, encode_all-AreBytes, set-AreBytes, replicate-AreBytes,
  fill_uuid-lt,
}
use aetherfs.Open.Fresh.{new_loaded, fresh_image, fresh_loaded, fresh_member}
use aetherfs.Open.{image_synthesize_single_label, image_assign_primary_aliases}
use aetherfs.Scrub.Coverage.{
  interval, check_coverage, contiguous, sort, insert, interval_leb, add_used, interval_list_append,
}
use aetherfs.Scrub.Covers.{owners, past_bootstrap}
use aetherfs.Scrub.Directory.{image_validate_root_dir}
use aetherfs.Scrub.Fresh.{fresh_dir, fresh_valid, fresh_report, root_alone, scan_inodes}
use aetherfs.Scrub.{image_validate}
use aetherfs.Scrub.Owners.{free_of, image_validate-owners}
use aetherfs.Scrub.Reads.{IsByteDisk}
use aetherfs.Tests.Images.{machine, options, options-IsFormat, random_bytes, writes-whole}
use aetherfs.Volume.{image_load, padded}

-- A disk that cannot be written, with the blocks of a list.
unfoldable page : List (ℕ × List ℕ) → ℕ → List ℕ
page [] o = replicate def_block_size 0
page ((b, x) ∷ pages) o = let rest = page pages o in if offset_of b == o then x else rest

page-All :
    (P : List ℕ → Type 0) (pages : List (ℕ × List ℕ)) (o : ℕ)
    → P (replicate def_block_size 0)
    → All (λ w. P w.1) pages
    → P (page pages o)
unfolding page
page-All P [] o h k = h
page-All P ((b, x) ∷ pages) o h k = elim (Bool-cases (offset_of b == o)) [
  | inl here ↦ rw here k.0
  | inr away ↦ rw away (page-All P pages o h k.1)
]

abbrev uuid : List ℕ
uuid = stamp (stamp (replicate 16 7) 6 15 64) 8 63 128

abbrev written : List (ℕ × List ℕ)
written = bootstrap_writes machine options 64 uuid

unfoldable printed_read : Unit {0} → ℕ → Result (List ℕ)
printed_read fd o = ok (page written o)

abbrev printed_write : Unit {0} → ℕ → List ℕ → Rc × Unit {0}
printed_write fd o x = (err eio, fd)

page-whole : (o : ℕ) → length (page written o) ≡ def_block_size
page-whole o =
    page-All (λ x. length x ≡ def_block_size) written o (length-replicate {A = ℕ} def_block_size 0)
      (writes-whole options 64 uuid)

length-printed :
    (d : Unit {0}) (o : ℕ) (x : List ℕ) → printed_read d o ≡ ok x → length x ≡ def_block_size
unfolding printed_read
length-printed d o x h = subst (λ t. length t ≡ def_block_size) (ok_inj h) (page-whole o)

abbrev printed : Disk
printed = record {
  Fd = Unit {0};
  pread = printed_read;
  pwrite = printed_write;
  pwrite-pread = λ d o x done. absurd (ground (arith, done));
  pwrite-pread_ne = λ d o p x apart. refl;
  length-pread = λ d o {x} h. length-printed d o x h;
}

padded-AreBytes : (x : List ℕ) → AreBytes x → AreBytes (padded x)
padded-AreBytes x h = append-AreBytes x _ h (replicate-AreBytes _)

encoded-AreBytes : (ws vs : List ℕ) → AreBytes (padded (encode ws vs))
encoded-AreBytes ws vs = padded-AreBytes (encode ws vs) (encode-AreBytes ws vs)

bitmap_block-AreBytes : AreBytes (bitmap_block_bytes init_inode_bitmap)
unfolding bitmap_block_bytes init_inode_bitmap bitmap_set
bitmap_block-AreBytes =
    append-AreBytes (encode (4 ∷ 4 ∷ 4 ∷ 4 ∷ []) _) init_inode_bitmap.bb_bits
      (encode-AreBytes (4 ∷ 4 ∷ 4 ∷ 4 ∷ []) _)
      (set-AreBytes (replicate bitmap_bytes 0) 0 1 (replicate-AreBytes bitmap_bytes) (omega arith))

entry-AreBytes :
    (rec_len : ℕ) (name : List ℕ) → AreBytes name → AreBytes (dir_entry_sealed rec_len name)
unfolding dir_entry_sealed dir_entry_bytes
entry-AreBytes rec_len name h =
    append-AreBytes _ name (encode-AreBytes (8 ∷ 2 ∷ 2 ∷ 1 ∷ 1 ∷ []) _) h

dir-AreBytes : AreBytes init_root_dir
unfolding init_root_dir
dir-AreBytes =
    let first = dir_entry_sealed (dir_rec_len 1) (46 ∷ []) in
    let second = dir_entry_sealed (def_block_size - dir_rec_len 1) (46 ∷ 46 ∷ []) in
    let dot = entry-AreBytes (dir_rec_len 1) (46 ∷ []) (omega arith, tt) in
    let dots =
      entry-AreBytes (def_block_size - dir_rec_len 1) (46 ∷ 46 ∷ [])
        (omega arith, (omega arith, tt)) in
    padded-AreBytes ((first ++ (0 ∷ [])) ++ second) (
      append-AreBytes (first ++ (0 ∷ [])) second
        (append-AreBytes first (0 ∷ []) dot (omega arith, tt)) dots)

node-AreBytes : (node : ExtentNode) → AreBytes (extent_node_bytes node)
unfolding extent_node_bytes
node-AreBytes node = append-AreBytes _ _ (encode-AreBytes _ _) (encode_all-AreBytes _ _)

written-AreBytes : All (λ w. AreBytes w.1) written
unfolding bootstrap_writes super_bytes inode_bytes intent_log_bytes checkpoint_root_bytes
written-AreBytes = (
  encoded-AreBytes super_widths _,
  (
    encoded-AreBytes inode_widths _,
    (
      dir-AreBytes,
      (
        encoded-AreBytes intent_log_widths _,
        (
          bitmap_block-AreBytes,
          (node-AreBytes (init_free_extents 64), (encoded-AreBytes checkpoint_root_widths _, tt)),
        ),
      ),
    ),
  ),
)

printed-IsByteDisk : IsByteDisk printed
unfolding printed_read
printed-IsByteDisk fd o x h =
    subst AreBytes (ok_inj h)
      (page-All AreBytes written o (replicate-AreBytes def_block_size) written-AreBytes)

printed-IsWritten : IsWritten printed machine options 64 tt
unfolding printed_read page bootstrap_writes fill_uuid
printed-IsWritten = record {
  random = replicate 16 7;
  uuid = uuid;
  random_is = refl;
  uuid_is = refl;
  no_label = refl;
  held = (refl, (refl, (refl, (refl, (refl, (refl, (refl, tt)))))));
}

abbrev image : Image (Unit {0})
image = fresh_image printed 64 tt false

image_loads : image_load printed image ≡ ok (new_loaded machine options 64 uuid)
unfolding printed-IsWritten
image_loads = fresh_loaded printed machine options 64 tt false options-IsFormat printed-IsWritten (
    fill_uuid-lt (replicate 16 7) uuid (random_bytes (replicate 16 7) refl)
      printed-IsWritten.uuid_is)

image_valid :
    image_validate printed image (new_loaded machine options 64 uuid) []
    ≡ ok (fresh_report printed 64)
unfolding fresh_image fresh_member image_synthesize_single_label image_assign_primary_aliases
image_valid =
    fresh_valid printed image machine options 64 uuid [] refl refl (omega arith) (omega arith)

root_dir_valid :
    image_validate_root_dir [] (new_loaded machine options 64 uuid).root_dir ≡ ok (λ i. false)
unfolding new_loaded
root_dir_valid = fresh_dir []

has_ninth : 9 < (new_loaded machine options 64 uuid).blocks
unfolding new_loaded
has_ninth = omega arith

image_validate-owners_example :
    owners 9 (free_of (new_loaded machine options 64 uuid))
      + owners 9 (past_bootstrap (root_alone printed).used)
    ≡ 1
image_validate-owners_example =
    image_validate-owners printed image (new_loaded machine options 64 uuid) []
      (fresh_report printed 64) (λ i. false) (root_alone printed) 9 printed-IsByteDisk image_loads
      root_dir_valid (scan_inodes printed image machine options 64 uuid) image_valid (omega arith)
      has_ninth

-- Twenty blocks, of which ten are free.
covered : check_coverage 20 (interval 8 10 ∷ []) (interval 18 2 ∷ interval 3 1 ∷ []) ≡ ok tt
unfolding check_coverage contiguous sort insert interval_leb add_used interval_list_append
covered = refl
