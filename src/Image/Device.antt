-- ===== src/Image/Device.antt =====
-- What the tools rely on of the operating system: one member's `pread` and `pwrite` of a whole
-- block, as `aetherfs_read_all` and `aetherfs_write_all` make of them. The system is no part of the
-- repository, so it is a parameter, with its documented behaviour as laws.
use aetherfs.Base.{Bool, ℕ, ◌+◌, ◌≤◌, ◌≡◌, ◌⊎◌, List, Rc, Result, ok, length}
use aetherfs.Format.{def_block_size}

pub record Disk : Type 1 where
  -- An open descriptor, with the contents of its file or device.
  pub Fd : Type 0
  -- The block at a byte offset.
  pub pread : Fd → ℕ → Result (List ℕ)
  pub pwrite : Fd → ℕ → List ℕ → Rc × Fd
  -- A block that was written is read back.
  pub pwrite-pread :
      (d : Fd) (o : ℕ) (x : List ℕ) → (pwrite d o x).0 ≡ ok tt → pread (pwrite d o x).1 o ≡ ok x
  -- A write, failed or not, leaves the other blocks as they were.
  pub pwrite-pread_ne :
      (d : Fd) (o p : ℕ) (x : List ℕ)
      → (o + def_block_size ≤ p) ⊎ (p + def_block_size ≤ o)
      → pread (pwrite d o x).1 p ≡ pread d p
  -- A read gives a whole block.
  pub length-pread : (d : Fd) (o : ℕ) {x : List ℕ} → pread d o ≡ ok x → length x ≡ def_block_size

-- What `fstat` says of a file.
pub record Stat : Type 0 where
  pub is_regular : Bool
  pub is_block : Bool
  pub st_size : ℕ
