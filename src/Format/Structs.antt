-- ===== src/Format/Structs.antt =====
-- The structures of aetherfs_format.h that the image tools read and write. A byte array that
-- nothing looks into is one number of that many bytes. The structures are packed, and the machine
-- is little-endian or swaps bytes, so the bytes on disk are those of `encode`.
pub mod Dirent
pub mod Super
pub mod Checkpoint
pub mod Inode
pub mod Extent
pub mod Label
pub mod Bitmap
