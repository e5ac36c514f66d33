-- ===== src/Format/Structs/Extent.antt =====
-- `struct aetherfs_extent_node` and `struct aetherfs_checksum_block`, with their checksums.
use aetherfs.Base.{ℕ, ◌≡◌, ap, List, [], ◌∷◌, ◌++◌, get_or, map, drop}
use aetherfs.Format.Codec.{encode, decode, Fits, encode_all, decode_all, decode-encode}
use aetherfs.Format.Crc.{crc32c_data}
use aetherfs.Format.{extent_log_max, checksums_per_block}

-- A run of blocks of a file, or of free blocks.
pub record Extent : Type 0 where
  pub e_lstart : ℕ
  pub e_pstart : ℕ
  pub e_csum_start : ℕ
  pub e_len : ℕ
  pub e_flags : ℕ
  pub e_reserved : ℕ

abbrev pub extent_widths : List ℕ
extent_widths = 8 ∷ 8 ∷ 8 ∷ 8 ∷ 4 ∷ 4 ∷ []

abbrev pub extent_fields : Extent → List ℕ
extent_fields s = s.e_lstart ∷ s.e_pstart ∷ s.e_csum_start ∷ s.e_len ∷ s.e_flags ∷ s.e_reserved ∷ []

abbrev pub extent_of_fields : List ℕ → Extent
extent_of_fields vs = record {
  e_lstart = get_or vs 0 0;
  e_pstart = get_or vs 1 0;
  e_csum_start = get_or vs 2 0;
  e_len = get_or vs 3 0;
  e_flags = get_or vs 4 0;
  e_reserved = get_or vs 5 0;
}

-- `memcpy` to a block and back.
unfoldable pub extent_bytes : Extent → List ℕ
extent_bytes s = encode extent_widths (extent_fields s)

unfoldable pub extent_of_bytes : List ℕ → Extent
extent_of_bytes bs = extent_of_fields (decode extent_widths bs)

pub extent_of_bytes-bytes :
    (s : Extent) (rest : List ℕ)
    → Fits extent_widths (extent_fields s)
    → extent_of_bytes (extent_bytes s ++ rest) ≡ s
unfolding extent_bytes extent_of_bytes
extent_of_bytes-bytes s rest h =
    ap extent_of_fields (decode-encode extent_widths (extent_fields s) rest h)

-- A block of extents. `en_extents` has `AETHERFS_EXTENT_LOG_MAX` entries, the first `en_count` in use.
pub record ExtentNode : Type 0 where
  pub en_next : ℕ
  pub en_count : ℕ
  pub en_checksum : ℕ
  pub en_extents : List Extent

unfoldable pub extent_node_bytes : ExtentNode → List ℕ
extent_node_bytes s =
    encode (8 ∷ 4 ∷ 4 ∷ []) (s.en_next ∷ s.en_count ∷ s.en_checksum ∷ [])
    ++ encode_all extent_widths (map extent_fields s.en_extents)

abbrev node_of_parts : List ℕ → List (List ℕ) → ExtentNode
node_of_parts vs es = record {
  en_next = get_or vs 0 0;
  en_count = get_or vs 1 0;
  en_checksum = get_or vs 2 0;
  en_extents = map extent_of_fields es;
}

unfoldable pub extent_node_of_bytes : List ℕ → ExtentNode
extent_node_of_bytes bs =
    node_of_parts (decode (8 ∷ 4 ∷ 4 ∷ []) bs)
      (decode_all extent_widths extent_log_max (drop 16 bs))

unfoldable pub extent_node_checksum : ExtentNode → ℕ
unfolding extent_node_bytes
extent_node_checksum s = crc32c_data (extent_node_bytes (record s { en_checksum = 0 }))

-- A block of data checksums. `cb_sums` has `AETHERFS_CHECKSUMS_PER_BLOCK` entries.
pub record ChecksumBlock : Type 0 where
  pub cb_next : ℕ
  pub cb_entries : ℕ
  pub cb_checksum : ℕ
  pub cb_sums : List ℕ

abbrev word_of : List ℕ → ℕ
word_of vs = get_or vs 0 0

unfoldable pub checksum_block_bytes : ChecksumBlock → List ℕ
checksum_block_bytes s =
    encode (8 ∷ 4 ∷ 4 ∷ []) (s.cb_next ∷ s.cb_entries ∷ s.cb_checksum ∷ [])
    ++ encode_all (4 ∷ []) (map (λ v. v ∷ []) s.cb_sums)

abbrev sums_of_parts : List ℕ → List (List ℕ) → ChecksumBlock
sums_of_parts vs es = record {
  cb_next = get_or vs 0 0;
  cb_entries = get_or vs 1 0;
  cb_checksum = get_or vs 2 0;
  cb_sums = map word_of es;
}

unfoldable pub checksum_block_of_bytes : List ℕ → ChecksumBlock
checksum_block_of_bytes bs =
    sums_of_parts (decode (8 ∷ 4 ∷ 4 ∷ []) bs)
      (decode_all (4 ∷ []) checksums_per_block (drop 16 bs))

unfoldable pub checksum_block_checksum : ChecksumBlock → ℕ
unfolding checksum_block_bytes
checksum_block_checksum s = crc32c_data (checksum_block_bytes (record s { cb_checksum = 0 }))
