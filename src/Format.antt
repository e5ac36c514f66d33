-- ===== src/Format.antt =====
-- kernel/include/uapi/linux/aetherfs_format.h: the constants of the on-disk format.
pub mod Codec
pub mod Crc
pub mod Structs
use aetherfs.Base.{ℕ}

abbrev pub magic : ℕ
magic = 0x41455448

abbrev pub version : ℕ
version = 5

abbrev pub def_block_size : ℕ
def_block_size = 4096

abbrev pub max_namelen : ℕ
max_namelen = 255

abbrev pub extent_log_max : ℕ
extent_log_max = 102

abbrev pub bitmap_bytes : ℕ
bitmap_bytes = 4080

abbrev pub blocks_per_ag : ℕ
blocks_per_ag = 2097152

abbrev pub max_inodes : ℕ
max_inodes = 32640

abbrev pub max_devices : ℕ
max_devices = 8

abbrev pub pool_magic : ℕ
pool_magic = 0x504F4F4C

abbrev pub pool_version : ℕ
pool_version = 1

abbrev pub checkpoint_root_magic : ℕ
checkpoint_root_magic = 0x43505254

abbrev pub checkpoint_root_version : ℕ
checkpoint_root_version = 1

-- `AETHERFS_POOL_PROFILE_*`.
abbrev pub profile_single : ℕ
profile_single = 0

abbrev pub profile_mirror : ℕ
profile_mirror = 1

abbrev pub profile_stripe : ℕ
profile_stripe = 2

abbrev pub profile_parity : ℕ
profile_parity = 3

abbrev pub profile_tiered : ℕ
profile_tiered = 4

-- `AETHERFS_*_BLOCK`: the reserved blocks.
abbrev pub pool_label_block : ℕ
pool_label_block = 0

abbrev pub superblock_block : ℕ
superblock_block = 1

abbrev pub root_inode_block : ℕ
root_inode_block = 2

abbrev pub root_dir_block : ℕ
root_dir_block = 3

abbrev pub journal_block : ℕ
journal_block = 4

abbrev pub inode_bitmap_block : ℕ
inode_bitmap_block = 5

abbrev pub free_extent_block : ℕ
free_extent_block = 6

abbrev pub checkpoint_root_block : ℕ
checkpoint_root_block = 7

abbrev pub data_start_block : ℕ
data_start_block = 8

abbrev pub bootstrap_blocks : ℕ
bootstrap_blocks = 8

abbrev pub root_ino : ℕ
root_ino = 16

abbrev pub dir_entry_base_size : ℕ
dir_entry_base_size = 14

abbrev pub checksums_per_block : ℕ
checksums_per_block = 1020

-- `AETHERFS_*_MODE`.
abbrev pub cow_mode : ℕ
cow_mode = 0

abbrev pub overwrite_mode : ℕ
overwrite_mode = 1

abbrev pub append_mode : ℕ
append_mode = 2

-- `AETHERFS_F_COW` and `AETHERFS_F_APPEND`.
abbrev pub feature_cow : ℕ
feature_cow = 1

abbrev pub feature_append : ℕ
feature_append = 32

-- `AETHERFS_FT_DIR`.
abbrev pub file_type_dir : ℕ
file_type_dir = 2
