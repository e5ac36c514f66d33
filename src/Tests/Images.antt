-- ===== src/Tests/Images.antt =====
-- mkfs on a file of 64 blocks and on one of 8, and a pool of two members that opens.
use aetherfs.Base.{
  ℕ, zero, suc, ◌+◌, ◌-◌, ◌*◌, ◌≤◌, ◌≡◌, refl, subst, ap, true, false, List, [], ◌∷◌, All, some, ok,
  err, einval, eexist, arith, replicate, length, length-append, length-replicate, length-set, map,
  ◌>>=◌,
}
use aetherfs.Format.{
  def_block_size, bootstrap_blocks, magic, superblock_block, bitmap_bytes, extent_log_max,
}
use aetherfs.Format.Codec.{
  encode, encode_all, le_bytes, decode, of_le_bytes, length-encode, length-encode_all, sizes,
}
use aetherfs.Format.Crc.{AreBytes}
use aetherfs.Format.Structs.Super.{
  super_widths, intent_log_widths, super_bytes, super_of_bytes, intent_log_bytes,
}
use aetherfs.Format.Structs.Checkpoint.{checkpoint_root_widths, checkpoint_root_bytes}
use aetherfs.Format.Structs.Inode.{inode_widths, inode_bytes}
use aetherfs.Format.Structs.Extent.{
  Extent, ExtentNode, extent_widths, extent_fields, extent_node_bytes,
}
use aetherfs.Format.Structs.Bitmap.{bitmap_block_bytes}
use aetherfs.Image.{offset_of}
use aetherfs.Mkfs.{
  MkfsOptions, System, fill_uuid, write_blocks, write_bootstrap, zero_blocks, bootstrap_writes,
  dir_entry_sealed, stamp, init_root_dir, init_inode_bitmap, init_free_extents,
}
use aetherfs.Format.Structs.Dirent.{dir_entry_bytes}
use aetherfs.Mkfs.Target.{choose_blocks, with_room, Target, prepare_target}
use aetherfs.Mkfs.Check.{run_mkfs}
use aetherfs.Mkfs.Run.{run_mkfs_result, run_mkfs_keeps_image, run_mkfs_smallest}
use aetherfs.Mkfs.Valid.{IsFormat}
use aetherfs.Open.{Source, image_open}
use aetherfs.Open.Fresh.{IsFile, image_load_mkfs, new_loaded}
use aetherfs.Scrub.{image_validate}
use aetherfs.Scrub.Fresh.{fresh_report, image_validate_mkfs}
use aetherfs.Volume.{image_load, padded}
use aetherfs.Tests.Store.{store, Store, Whole, filled, store_write, store_read}

abbrev pub machine : System
machine = record {
  random = ok (replicate 16 7);
  clock = some 1000;
  uid = 1000;
  gid = 1000;
  fsync = ok tt;
}

abbrev pub options : MkfsOptions
options = record { blocks = 64; block_size = def_block_size; mode = 0; force = false }

abbrev blank : Store
blank o = filled 0

abbrev made : Store
made = (write_bootstrap store machine options 64 blank).1

abbrev file : Source Store
file = record {
  opened = ok made;
  stat = ok (record { is_regular = true; is_block = false; st_size = 64 * def_block_size });
  device_bytes = err einval;
}

pub options-IsFormat : IsFormat options 64
options-IsFormat = record {
  room = omega arith;
  blocks_fit = omega arith;
  mode_fits = omega arith;
  whole_blocks = refl;
}

sixteen_bytes : AreBytes (replicate 16 7)
sixteen_bytes = all_bytes 16
  where
    all_bytes : (n : ℕ) → AreBytes (replicate n 7)
    all_bytes zero = tt
    all_bytes (suc n) = (omega arith, all_bytes n)

pub random_bytes : (random : List ℕ) → machine.random ≡ ok random → AreBytes random
random_bytes random h =
    let same : replicate 16 7 ≡ random = ground arith in subst AreBytes same sixteen_bytes

store_write-ok :
    (s : Store) (o : ℕ) (x : List ℕ) → length x ≡ def_block_size → (store_write s o x).0 ≡ ok tt
unfolding store_write
store_write-ok s o x h = ground arith

write_blocks-ok :
    (s : Store) (ws : List (ℕ × List ℕ))
    → All (λ w. length w.1 ≡ def_block_size) ws
    → (write_blocks store s ws).0 ≡ ok tt
unfolding write_blocks
write_blocks-ok s [] h = refl
write_blocks-ok s ((b, x) ∷ ws) h =
    let stored : (store_write s (offset_of b) x).0 ≡ ok tt = store_write-ok s (offset_of b) x h.0 in
    let rest = write_blocks-ok (store_write s (offset_of b) x).1 ws h.1 in
    ground (arith, stored, rest)

length-padded : (x : List ℕ) → length x ≤ def_block_size → length (padded x) ≡ def_block_size
length-padded x h = omega (
  arith,
  length-append x (replicate (def_block_size - length x) 0),
  length-replicate {A = ℕ} (def_block_size - length x) 0,
)

zero_blocks-whole : (n r : ℕ) → All (λ w. length w.1 ≡ def_block_size) (zero_blocks n r)
unfolding zero_blocks
zero_blocks-whole zero r = tt
zero_blocks-whole (suc n) r =
    (length-replicate {A = ℕ} def_block_size 0, zero_blocks-whole n (r + 1))

encoded-whole :
    (ws vs : List ℕ) → sizes ws ≤ def_block_size → length (padded (encode ws vs)) ≡ def_block_size
encoded-whole ws vs h = length-padded (encode ws vs) (omega (arith, length-encode ws vs))

bitmap-whole : length (bitmap_block_bytes init_inode_bitmap) ≡ def_block_size
unfolding bitmap_block_bytes init_inode_bitmap aetherfs.Bitmap.bitmap_set sizes
bitmap-whole = omega (
  arith,
  length-append (encode (4 ∷ 4 ∷ 4 ∷ 4 ∷ []) _) init_inode_bitmap.bb_bits,
  length-encode (4 ∷ 4 ∷ 4 ∷ 4 ∷ []) _,
  length-set {A = ℕ} (replicate bitmap_bytes 0) 0 1,
  length-replicate {A = ℕ} bitmap_bytes 0,
)

length-map_fields : (es : List Extent) → length (map extent_fields es) ≡ length es
length-map_fields [] = refl
length-map_fields (e ∷ es) = ap suc (length-map_fields es)

node-whole :
    (node : ExtentNode)
    → length node.en_extents ≡ extent_log_max
    → length (extent_node_bytes node) ≡ def_block_size
unfolding extent_node_bytes sizes
node-whole node h =
    let fields : List ℕ = node.en_next ∷ node.en_count ∷ node.en_checksum ∷ [] in
    let body = map extent_fields node.en_extents in
    omega (
      arith,
      length-append (encode (8 ∷ 4 ∷ 4 ∷ []) fields) (encode_all extent_widths body),
      length-encode (8 ∷ 4 ∷ 4 ∷ []) fields,
      length-encode_all extent_widths body,
      length-map_fields node.en_extents,
      h,
    )

dir-whole : length init_root_dir ≡ def_block_size
unfolding init_root_dir dir_entry_sealed dir_entry_bytes encode le_bytes
dir-whole = refl

free-whole : (blocks : ℕ) → length (extent_node_bytes (init_free_extents blocks)) ≡ def_block_size
unfolding init_free_extents
free-whole blocks = node-whole (init_free_extents blocks) refl

pub writes-whole :
    (o : MkfsOptions) (blocks : ℕ) (uuid : List ℕ)
    → All (λ w. length w.1 ≡ def_block_size) (bootstrap_writes machine o blocks uuid)
unfolding bootstrap_writes super_bytes inode_bytes intent_log_bytes checkpoint_root_bytes
    bitmap_block_bytes extent_node_bytes sizes
writes-whole o blocks uuid = (
  encoded-whole super_widths _ (omega arith),
  (
    encoded-whole inode_widths _ (omega arith),
    (
      dir-whole,
      (
        encoded-whole intent_log_widths _ (omega arith),
        (
          bitmap-whole,
          (free-whole blocks, (encoded-whole checkpoint_root_widths _ (omega arith), tt)),
        ),
      ),
    ),
  ),
)

bootstrap-written :
    (o : MkfsOptions) (blocks : ℕ) → (write_bootstrap store machine o blocks blank).0 ≡ ok tt
unfolding write_bootstrap fill_uuid
bootstrap-written o blocks =
    let cleared : (write_blocks store blank (zero_blocks bootstrap_blocks 0)).0 ≡ ok tt =
      write_blocks-ok blank (zero_blocks bootstrap_blocks 0)
        (zero_blocks-whole bootstrap_blocks 0) in
    let uuid = stamp (stamp (replicate 16 7) 6 15 64) 8 63 128 in
    let written =
      write_blocks-ok (write_blocks store blank (zero_blocks bootstrap_blocks 0)).1
        (bootstrap_writes machine o blocks uuid) (writes-whole o blocks uuid) in
    ground (arith, cleared, written)

made-IsFile : IsFile store file 64 made
made-IsFile = record { opened = refl; stat = refl }

image_load_mkfs_example :
    (uuid : List ℕ) × ((machine.random >>= λ random. fill_uuid (ok random)) ≡ ok uuid)
    × ((image_open store file true >>= λ o. image_load store o.image)
        ≡ ok (new_loaded machine options 64 uuid))
image_load_mkfs_example =
    image_load_mkfs store machine options 64 blank file true options-IsFormat random_bytes
      (bootstrap-written options 64) made-IsFile

image_validate_mkfs_example :
    (image_open store file true >>= λ o.
    image_load store o.image >>= λ l. image_validate store o.image l [])
    ≡ ok (fresh_report store 64)
image_validate_mkfs_example =
    image_validate_mkfs store machine options 64 blank file true [] options-IsFormat (omega arith)
      random_bytes (bootstrap-written options 64) made-IsFile

-- A new regular file, which is given its size.
abbrev target : Target Store
target = record {
  exists = false;
  opened = ok blank;
  stat = ok (record { is_regular = true; is_block = false; st_size = 0 });
  ftruncate = λ fd bytes. (ok tt, fd);
  device_bytes = err einval;
}

target-prepared : prepare_target store target options blank ≡ (ok 64, blank)
unfolding prepare_target choose_blocks with_room
target-prepared = refl

run_mkfs_result_example :
    (run_mkfs store machine target [] options).0
    ≡ (write_bootstrap store machine options 64 blank).0
run_mkfs_result_example =
    run_mkfs_result store machine target [] options 64 blank blank options-IsFormat (omega arith)
      random_bytes refl target-prepared

-- The same with eight blocks.
abbrev eight : MkfsOptions
eight = record { blocks = 8; block_size = def_block_size; mode = 0; force = false }

eight-IsFormat : IsFormat eight bootstrap_blocks
eight-IsFormat = record {
  room = omega arith;
  blocks_fit = omega arith;
  mode_fits = omega arith;
  whole_blocks = refl;
}

eight-prepared : prepare_target store target eight blank ≡ (ok bootstrap_blocks, blank)
unfolding prepare_target choose_blocks with_room
eight-prepared = refl

run_mkfs_smallest_example : (run_mkfs store machine target [] eight).0 ≡ err einval
run_mkfs_smallest_example =
    run_mkfs_smallest store machine target [] eight blank blank eight-IsFormat random_bytes refl
      eight-prepared (bootstrap-written eight bootstrap_blocks)

-- A file whose blocks begin with the magic number of a superblock.
magic_bytes : List ℕ
unfolding le_bytes
magic_bytes = le_bytes 4 magic

taken_block : Whole
unfolding magic_bytes le_bytes
taken_block = (padded magic_bytes, refl)

abbrev taken : Store
taken o = taken_block

abbrev taken_target : Target Store
taken_target = record {
  exists = true;
  opened = ok taken;
  stat = ok (record { is_regular = true; is_block = false; st_size = 64 * def_block_size });
  ftruncate = λ fd bytes. (ok tt, fd);
  device_bytes = err einval;
}

taken_magic : (super_of_bytes taken_block.0).s_magic ≡ magic
unfolding taken_block magic_bytes le_bytes super_of_bytes decode of_le_bytes
taken_magic = refl

taken_read : store.pread taken (offset_of superblock_block) ≡ ok taken_block.0
unfolding store_read
taken_read = refl

run_mkfs_keeps_image_example :
    run_mkfs store machine taken_target [] options ≡ (err eexist, some taken)
run_mkfs_keeps_image_example =
    run_mkfs_keeps_image store machine taken_target [] options taken
      (record { is_regular = true; is_block = false; st_size = 64 * def_block_size }) taken_block.0
      refl refl refl refl refl refl taken_read taken_magic
