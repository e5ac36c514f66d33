-- ===== src/Scrub/Directory.antt =====
-- aetherfsprogs/image.c: `aetherfs_image_validate_root_dir`.
use aetherfs.Base.{
  ℕ, zero, suc, ◌+◌, ◌-◌, ◌%◌, ◌^◌, Bool, true, false, ◌||◌, ◌&&◌, not, List, [], ◌∷◌, ◌++◌, Result,
  ok, einval, eilseq, eexist, ◌>>=◌, ◌>>◌, fail_if, ◌==◌, ◌/=◌, ltb, leb, if◌then◌else◌, drop, u32,
}
use aetherfs.Format.{def_block_size, root_ino, max_inodes, dir_entry_base_size}
use aetherfs.Format.Structs.Dirent.{DirEntry, dir_entry_of_bytes, dir_entry_name, dirent_checksum}
use aetherfs.Mkfs.Check.{bytes_differ}

abbrev pub max_namelen : ℕ
max_namelen = 255

-- The checksum of this file, with its bound on the name.
unfoldable pub image_dirent_checksum : List ℕ → ℕ → ℕ
image_dirent_checksum memory name_len =
    if ltb max_namelen name_len then 0 else dirent_checksum memory name_len

-- What the loop knows: the inodes that an entry names, and the two special entries.
pub record DirScan : Type 0 where
  pub dir_refs : ℕ → Bool
  pub saw_dot : Bool
  pub saw_dotdot : Bool

abbrev pub no_refs : DirScan
no_refs = record { dir_refs = λ i. false; saw_dot = false; saw_dotdot = false }

-- `dir_refs[inode_index] = true`.
abbrev pub refer : (ℕ → Bool) → ℕ → ℕ → Bool
refer refs index i = if i == index then true else refs i

-- An entry of another name than the two special ones.
unfoldable pub refer_entry : DirScan → ℕ → Result DirScan
refer_entry scan ino =
    let inode_index = ino - root_ino in
    fail_if (ltb ino root_ino || leb (root_ino + max_inodes) ino) einval
    >> fail_if (scan.dir_refs inode_index) eexist
    >> ok (record scan { dir_refs = refer scan.dir_refs inode_index })

-- An entry in use.
unfoldable pub scan_entry : DirScan → List ℕ → DirEntry → Result DirScan
scan_entry scan memory entry =
    let is_dot = entry.name_len == 1 && not (bytes_differ (46 ∷ []) (dir_entry_name memory 1)) in
    let is_dotdot =
      entry.name_len == 2 && not (bytes_differ (46 ∷ 46 ∷ []) (dir_entry_name memory 2)) in
    if is_dot
    then fail_if (entry.ino /= root_ino) einval >> ok (record scan { saw_dot = true })
    else (if is_dotdot
        then fail_if (entry.ino /= root_ino) einval >> ok (record scan { saw_dotdot = true })
        else refer_entry scan entry.ino)

-- The loop at `offset`. An entry has at least four bytes, so with `n` rounds for four bytes each the
-- end of the block is reached. `memory` is the block and what lies behind it.
unfoldable pub root_dir_loop : List ℕ → ℕ → ℕ → DirScan → Result DirScan
root_dir_loop memory zero offset scan = ok scan
root_dir_loop memory (suc n) offset scan =
    let here = drop offset memory in
    let entry = dir_entry_of_bytes here in
    let room = u32 (entry.rec_len + 2 ^ 32 - dir_entry_base_size) in
    if leb def_block_size offset
    then ok scan
    else (fail_if
          (entry.rec_len == 0
            || (not (entry.rec_len % 4 == 0) || ltb def_block_size (offset + entry.rec_len)))
          einval
        >> fail_if (ltb room entry.name_len || ltb max_namelen entry.name_len) einval
        >> fail_if
            (not (entry.ino == 0) && entry.checksum /= image_dirent_checksum here entry.name_len)
            eilseq
        >> (if entry.ino == 0 then ok scan else scan_entry scan here entry)
        >>= λ next. root_dir_loop memory n (offset + entry.rec_len) next)

abbrev pub dir_rounds : ℕ
dir_rounds = 1024

unfoldable pub image_validate_root_dir : List ℕ → List ℕ → Result (ℕ → Bool)
image_validate_root_dir beyond root_dir =
    root_dir_loop (root_dir ++ beyond) dir_rounds 0 no_refs >>= λ scan.
    fail_if (not (scan.saw_dot && scan.saw_dotdot)) einval >> ok scan.dir_refs
