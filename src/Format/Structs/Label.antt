-- ===== src/Format/Structs/Label.antt =====
-- `struct aetherfs_pool_label` with its table of members, and its checksum.
use aetherfs.Base.{ℕ, ◌≡◌, ap, List, [], ◌∷◌, ◌++◌, get_or, map, drop}
use aetherfs.Format.Codec.{encode, decode, Fits, encode_all, decode_all, decode-encode}
use aetherfs.Format.Crc.{crc32c_data}
use aetherfs.Format.{max_devices}

-- A device as the pool label describes it.
pub record PoolMember : Type 0 where
  pub pm_uuid : ℕ
  pub pm_total_blocks : ℕ
  pub pm_data_blocks : ℕ
  pub pm_class_mask : ℕ
  pub pm_role_mask : ℕ
  pub pm_index : ℕ
  pub pm_reserved : ℕ

abbrev pub pool_member_widths : List ℕ
pool_member_widths = 16 ∷ 8 ∷ 8 ∷ 4 ∷ 4 ∷ 4 ∷ 4 ∷ []

abbrev pub pool_member_fields : PoolMember → List ℕ
pool_member_fields s =
    s.pm_uuid ∷ s.pm_total_blocks ∷ s.pm_data_blocks ∷ s.pm_class_mask ∷ s.pm_role_mask ∷ s.pm_index
    ∷ s.pm_reserved ∷ []

abbrev pub pool_member_of_fields : List ℕ → PoolMember
pool_member_of_fields vs = record {
  pm_uuid = get_or vs 0 0;
  pm_total_blocks = get_or vs 1 0;
  pm_data_blocks = get_or vs 2 0;
  pm_class_mask = get_or vs 3 0;
  pm_role_mask = get_or vs 4 0;
  pm_index = get_or vs 5 0;
  pm_reserved = get_or vs 6 0;
}

-- `memcpy` to a block and back.
unfoldable pub pool_member_bytes : PoolMember → List ℕ
pool_member_bytes s = encode pool_member_widths (pool_member_fields s)

unfoldable pub pool_member_of_bytes : List ℕ → PoolMember
pool_member_of_bytes bs = pool_member_of_fields (decode pool_member_widths bs)

pub pool_member_of_bytes-bytes :
    (s : PoolMember) (rest : List ℕ)
    → Fits pool_member_widths (pool_member_fields s)
    → pool_member_of_bytes (pool_member_bytes s ++ rest) ≡ s
unfolding pool_member_bytes pool_member_of_bytes
pool_member_of_bytes-bytes s rest h =
    ap pool_member_of_fields (decode-encode pool_member_widths (pool_member_fields s) rest h)

-- The label. `pl_members` has `AETHERFS_MAX_DEVICES` entries.
pub record PoolLabel : Type 0 where
  pub pl_magic : ℕ
  pub pl_version : ℕ
  pub pl_checksum : ℕ
  pub pl_profile : ℕ
  pub pl_member_count : ℕ
  pub pl_member_index : ℕ
  pub pl_stripe_blocks : ℕ
  pub pl_flags : ℕ
  pub pl_metadata_mask : ℕ
  pub pl_data_mask : ℕ
  pub pl_log_mask : ℕ
  pub pl_cache_mask : ℕ
  pub pl_logical_blocks : ℕ
  pub pl_logical_data_blocks : ℕ
  pub pl_pool_uuid : ℕ
  pub pl_members : List PoolMember
  pub pl_reserved : ℕ

abbrev pub label_header_widths : List ℕ
label_header_widths = 4 ∷ 4 ∷ 4 ∷ 4 ∷ 4 ∷ 4 ∷ 4 ∷ 4 ∷ 4 ∷ 4 ∷ 4 ∷ 4 ∷ 8 ∷ 8 ∷ 16 ∷ []

abbrev pub label_header_fields : PoolLabel → List ℕ
label_header_fields s =
    s.pl_magic ∷ s.pl_version ∷ s.pl_checksum ∷ s.pl_profile ∷ s.pl_member_count ∷ s.pl_member_index
    ∷ s.pl_stripe_blocks ∷ s.pl_flags ∷ s.pl_metadata_mask ∷ s.pl_data_mask ∷ s.pl_log_mask
    ∷ s.pl_cache_mask ∷ s.pl_logical_blocks ∷ s.pl_logical_data_blocks ∷ s.pl_pool_uuid ∷ []

unfoldable pub pool_label_bytes : PoolLabel → List ℕ
pool_label_bytes s =
    encode label_header_widths (label_header_fields s)
    ++ (encode_all pool_member_widths (map pool_member_fields s.pl_members)
        ++ encode (360 ∷ []) (s.pl_reserved ∷ []))

abbrev label_of_parts : List ℕ → List (List ℕ) → List ℕ → PoolLabel
label_of_parts vs ms rs = record {
  pl_magic = get_or vs 0 0;
  pl_version = get_or vs 1 0;
  pl_checksum = get_or vs 2 0;
  pl_profile = get_or vs 3 0;
  pl_member_count = get_or vs 4 0;
  pl_member_index = get_or vs 5 0;
  pl_stripe_blocks = get_or vs 6 0;
  pl_flags = get_or vs 7 0;
  pl_metadata_mask = get_or vs 8 0;
  pl_data_mask = get_or vs 9 0;
  pl_log_mask = get_or vs 10 0;
  pl_cache_mask = get_or vs 11 0;
  pl_logical_blocks = get_or vs 12 0;
  pl_logical_data_blocks = get_or vs 13 0;
  pl_pool_uuid = get_or vs 14 0;
  pl_members = map pool_member_of_fields ms;
  pl_reserved = get_or rs 0 0;
}

unfoldable pub pool_label_of_bytes : List ℕ → PoolLabel
pool_label_of_bytes bs =
    label_of_parts (decode label_header_widths bs)
      (decode_all pool_member_widths max_devices (drop 80 bs)) (decode (360 ∷ []) (drop 464 bs))

unfoldable pub pool_label_checksum : PoolLabel → ℕ
unfolding pool_label_bytes
pool_label_checksum s = crc32c_data (pool_label_bytes (record s { pl_checksum = 0 }))
