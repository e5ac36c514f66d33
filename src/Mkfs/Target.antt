-- ===== src/Mkfs/Target.antt =====
-- aetherfsprogs/mkfs.c: `aetherfs_probe_magic` and `aetherfs_prepare_target`, which choose the size
-- of the new image.
use aetherfs.Base.{
  ℕ, ◌*◌, ◌/◌, ◌%◌, Bool, false, ◌||◌, ◌&&◌, not, List, Result, Rc, ok, err, einval, eio, eexist,
  enospc, ◌==◌, ltb, if◌then◌else◌, u64,
}
use aetherfs.Format.{magic, superblock_block, bootstrap_blocks}
use aetherfs.Format.Structs.Super.{super_of_bytes}
use aetherfs.Image.{offset_of}
use aetherfs.Image.Device.{Disk, Stat}
use aetherfs.Mkfs.{MkfsOptions}

-- What the system answers about the path: `access`, `open`, `fstat`, `ftruncate` and the ioctl for
-- the size of a device.
pub record Target (Fd : Type 0) : Type 0 where
  pub exists : Bool
  pub opened : Result Fd
  pub stat : Result Stat
  pub ftruncate : Fd → ℕ → Rc × Fd
  pub device_bytes : Result ℕ

-- A block that cannot be read in full holds no magic.
unfoldable pub probed : Result (List ℕ) → Result Bool
probed (ok block) = ok ((super_of_bytes block).s_magic == magic)
probed (err eio) = ok false
probed (err e) = err e

-- The last test: the bootstrap blocks have to fit.
unfoldable pub with_room : {Fd : Type 0} → ℕ → Fd → Result ℕ × Fd
with_room blocks fd = (if ltb blocks bootstrap_blocks then err enospc else ok blocks, fd)

unfoldable pub choose_blocks : {Fd : Type 0} → Target Fd → MkfsOptions → Stat → Fd → Result ℕ × Fd
choose_blocks target options st fd =
    let resized = target.ftruncate fd (u64 (options.blocks * options.block_size)) in
    if ltb 0 options.blocks
    then (if st.is_regular
        then (elim resized.0 [
          | err e ↦ (err e, resized.1)
          | ok _ ↦ with_room options.blocks resized.1
        ])
        else with_room options.blocks fd)
    else (if st.is_block
        then (elim target.device_bytes [
          | err e ↦ (err e, fd)
          | ok bytes ↦ with_room (bytes / options.block_size) fd
        ])
        else (if ltb 0 st.st_size
            then (if st.st_size % options.block_size == 0
                then with_room (st.st_size / options.block_size) fd
                else (err einval, fd))
            else (err einval, fd)))

module _ (D : Disk) where
  open D use {Fd, pread}

  unfoldable pub probe_magic : Fd → Result Bool
  probe_magic fd = probed (pread fd (offset_of superblock_block))

  -- The number of blocks, and the file as it is left.
  unfoldable pub prepare_target : Target Fd → MkfsOptions → Fd → Result ℕ × Fd
  prepare_target target options fd = elim target.stat [
    | err e ↦ (err e, fd)
    | ok st ↦
        if not (st.is_regular || st.is_block)
        then (err einval, fd)
        else (elim (if target.exists then probe_magic fd else ok false) [
          | err e ↦ (err e, fd)
          | ok has_magic ↦
              if has_magic && not options.force
              then (err eexist, fd)
              else choose_blocks target options st fd
        ])
  ]
