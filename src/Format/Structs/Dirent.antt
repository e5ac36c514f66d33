-- ===== src/Format/Structs/Dirent.antt =====
-- `struct aetherfs_dir_entry` and its checksum. An entry is read from the memory that starts at it.
use aetherfs.Base.{ℕ, ◌+◌, ◌*◌, ◌/◌, ◌%◌, List, [], ◌∷◌, ◌++◌, get_or, set, take, drop}
use aetherfs.Format.Codec.{encode, decode}
use aetherfs.Format.Crc.{crc32c_data}
use aetherfs.Format.{dir_entry_base_size}

-- The fields in front of the name.
pub record DirEntry : Type 0 where
  pub ino : ℕ
  pub rec_len : ℕ
  pub name_len : ℕ
  pub file_type : ℕ
  pub checksum : ℕ

abbrev pub dir_entry_widths : List ℕ
dir_entry_widths = 8 ∷ 2 ∷ 2 ∷ 1 ∷ 1 ∷ []

abbrev dir_entry_of_fields : List ℕ → DirEntry
dir_entry_of_fields vs = record {
  ino = get_or vs 0 0;
  rec_len = get_or vs 1 0;
  name_len = get_or vs 2 0;
  file_type = get_or vs 3 0;
  checksum = get_or vs 4 0;
}

unfoldable pub dir_entry_of_bytes : List ℕ → DirEntry
dir_entry_of_bytes memory = dir_entry_of_fields (decode dir_entry_widths memory)

unfoldable pub dir_entry_name : List ℕ → ℕ → List ℕ
dir_entry_name memory n = take n (drop dir_entry_base_size memory)

unfoldable pub dir_entry_bytes : DirEntry → List ℕ → List ℕ
dir_entry_bytes e name =
    encode dir_entry_widths (e.ino ∷ e.rec_len ∷ e.name_len ∷ e.file_type ∷ e.checksum ∷ []) ++ name

-- `AETHERFS_DIR_REC_LEN`: the length of the entry, up to a multiple of four, as a `uint16_t`.
abbrev pub dir_rec_len : ℕ → ℕ
dir_rec_len name_len = (dir_entry_base_size + name_len + 3) / 4 * 4 % 65536

-- The checksum of the first bytes of an entry, with 0 for the checksum in it.
unfoldable pub dirent_checksum : List ℕ → ℕ → ℕ
dirent_checksum memory name_len =
    crc32c_data (set (take (dir_entry_base_size + name_len) memory) 13 0) % 256
