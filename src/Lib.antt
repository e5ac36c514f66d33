-- ===== src/Lib.antt =====
-- AetherFS: a model of the file system's on-disk format and of its user-space tools, with the
-- theorems that make them correct.
--
-- The tools open one image or a pool of up to eight members, map each logical block to a block of a
-- member by the pool's profile (single, mirror, stripe, parity, tiered), and read and write blocks
-- through that map. The superblock, the checkpoint root, the journal header, the inode bitmap and the
-- free extents lie in the first eight logical blocks, each with a checksum. Loading an image reads
-- and validates them in turn.
--
-- Base: tests on numbers, arrays as lists, machine words, `errno` results, exclusive or.
-- Format and its children: kernel/include/uapi/linux/aetherfs_format.h. Constants; each structure as
--   a record with the bytes of its packed layout; `aetherfs_crc32c` and the checksums. An array of
--   bytes that no code looks into (a uuid, a reserved part) is one number of that width.
-- Pool and its children: `aetherfs_mask_*` and `aetherfs_pool_*` of aetherfsprogs/image.c, a function
--   for each. `-1` of `aetherfs_mask_nth` is `none`. Masks are 32-bit numbers of which a pool uses the
--   low eight bits.
-- Image and its children: `aetherfs_image_read_block` and `aetherfs_image_write_block` of
--   aetherfsprogs/image.c with what they call. `Image.Device` is the parameter that stands for `pread`
--   and `pwrite` of a whole block, with their documented behaviour as laws. The state of the devices is
--   in the descriptors, so a write returns the image anew, also when it fails.
-- Bitmap and its children: `aetherfs_image_bitmap_*` of aetherfsprogs/image.c.
-- Volume and its children: the validation functions, `aetherfs_image_load`, and the functions that
--   read and write one structure, of aetherfsprogs/image.c. A function that fills in a checksum returns
--   the structure anew. `Sound` is about the validations, `Loads` has the steps of loading, and
--   `Accepted` is about the images that load.
-- Redundancy and its child: `aetherfs_image_validate_pool_redundancy` of aetherfsprogs/image.c and the
--   checks it calls. The interval list is an argument, and its intervals are taken to end below 2 ^ 64, so that a start and an offset add up
--   exactly.
-- Scrub and its children: `aetherfs_image_validate` of aetherfsprogs/image.c. `Scrub` runs over the
--   inodes, their extents and their checksum blocks, `Directory` over the root directory, `Coverage`
--   holds the lists of intervals. `qsort` is a sort by insertion, since the order leaves one sorted list.
--   `Covers`, `Reads`, `Usable` and `Owners` are about images that are accepted, `Zeroed` and `Fresh`
--   about new ones. The memory behind the directory block, which the code can read, is an argument.
-- Labels and its child: `aetherfs_member_read_pool_label`, `aetherfs_pool_labels_equivalent` and the label part of
--   `aetherfs_image_synthesize_single_label` of aetherfsprogs/image.c.
-- Mkfs and its children: aetherfsprogs/mkfs.c. `Mkfs` makes the structures and writes them, `Target`
--   chooses the size, `Check` validates what was written and holds `aetherfs_run_mkfs`. What the system
--   answers (random bytes, the clock, `fstat`, `ftruncate`) is in the records `System` and `Target`.
-- Open and its children: `aetherfs_image_open` and `aetherfs_image_open_pool` of aetherfsprogs/image.c.
--   `Filled` and `Placed` are about pools that open, `Fresh` about a new image. A place of the member
--   table that no member fills is `none`, where the source has the descriptor 0
--   that nothing uses.
-- Kernel.Journal and its children: kernel/journal.c, the table of intents and the transactions.
--   `Kernel.Journal.Spec` is the log of entries that the table stands for.
-- Kernel.Log and its child: kernel/log.c, the ring of journal blocks. `sb_bread` is a parameter, and
--   its buffer a pair of a flag and bytes. A replay is run for a number of rounds, and the blocks of the
--   ring are enough.
-- Kernel.Crc: the checksum of kernel/aetherfs.h, which differs from that of the format header.
-- Kernel.Btree and its children: kernel/btree.c. A node is its header and the list of its keys in use,
--   so `bn_count` is the length of that list, and a `memmove` with a store is an insertion at a slot. The
--   memory behind the keys is a parameter where an insertion takes fields over from it, and every node
--   is given room for its keys, which the slab object of the code does not have. A lookup is run for a
--   number of rounds, since the code's loop ends only at a leaf or at a hit.
-- Tests: runs at concrete inputs, over a disk that is a store of blocks.
--
-- A `uint64_t` and a `uint32_t` are native numbers with the wrap-around written out where a sum or a
-- difference can leave the range. The loops run over counts that the code fixes beforehand, so they are
-- structural recursions with no fuel; the two loops of the validation that run until a sum reaches its
-- end add at least one checksum or four bytes in a round, so the length and a quarter of a block bound
-- them. Block numbers are below 2 ^ 52 where a byte offset is formed,
-- since the offset is a 64-bit number.
--
-- Not modelled: the closing of files, argument parsing and printing, aetherfsprogs/rebalance.c,
-- the failure of a memory allocation, and the rest of the kernel module, which the list of components
-- names. A null pointer for an argument, which the functions refuse, is no value here.
pub mod Base
pub mod Format
pub mod Pool
pub mod Image
pub mod Bitmap
pub mod Volume
pub mod Redundancy
pub mod Labels
pub mod Mkfs
pub mod Open
pub mod Scrub
pub mod Kernel
pub mod Tests
