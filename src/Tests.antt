-- ===== src/Tests.antt =====
-- Concrete runs of the definitions, and inputs at which the theorems apply.
pub mod Store
pub mod Blocks
pub mod Crc
pub mod Bitmaps
pub mod Trees
pub mod Mirrors
pub mod Labels
pub mod Volumes
pub mod Images
pub mod Members
pub mod Intents
pub mod Scrubs
pub mod Rings
