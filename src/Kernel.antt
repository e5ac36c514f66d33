-- ===== src/Kernel.antt =====
-- The kernel module, kernel/*.c.
pub mod Crc
pub mod Btree
pub mod Journal
pub mod Log
