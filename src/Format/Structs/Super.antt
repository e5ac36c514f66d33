-- ===== src/Format/Structs/Super.antt =====
-- `struct aetherfs_super`, `struct aetherfs_intent_log` and their checksums.
use aetherfs.Base.{ℕ, ◌≡◌, ap, List, [], ◌∷◌, ◌++◌, get_or}
use aetherfs.Format.Codec.{encode, decode, Fits, decode-encode}
use aetherfs.Format.Crc.{crc32c_data}

-- The superblock. `s_checkpoint[8]` is its first entry and the other seven.
pub record Super : Type 0 where
  pub s_magic : ℕ
  pub s_version : ℕ
  pub s_blocksize : ℕ
  pub s_blocks_count : ℕ
  pub s_free_blocks : ℕ
  pub s_blocks_per_ag : ℕ
  pub s_ag_count : ℕ
  pub s_device_count : ℕ
  pub s_mode : ℕ
  pub s_features : ℕ
  pub s_checksum : ℕ
  pub s_uuid : ℕ
  pub s_checkpoint_num : ℕ
  pub s_checkpoint_mask : ℕ
  pub s_checkpoint_0 : ℕ
  pub s_checkpoint_rest : ℕ
  pub s_journal_addr : ℕ
  pub s_root_inode : ℕ
  pub s_generation : ℕ
  pub s_inodes_count : ℕ
  pub s_meta_tree : ℕ
  pub s_extent_tree : ℕ
  pub s_free_tree : ℕ
  pub s_snap_tree : ℕ
  pub s_scrub_journal : ℕ
  pub s_health_journal : ℕ
  pub s_reserved2 : ℕ

abbrev pub super_widths : List ℕ
super_widths =
    4 ∷ 4 ∷ 4 ∷ 8 ∷ 8 ∷ 4 ∷ 4 ∷ 4 ∷ 2 ∷ 2 ∷ 4 ∷ 16 ∷ 4 ∷ 4 ∷ 8 ∷ 56 ∷ 8 ∷ 8 ∷ 4 ∷ 4 ∷ 8 ∷ 8 ∷ 8 ∷ 8
    ∷ 8 ∷ 8 ∷ 48 ∷ []

abbrev pub super_fields : Super → List ℕ
super_fields s =
    s.s_magic ∷ s.s_version ∷ s.s_blocksize ∷ s.s_blocks_count ∷ s.s_free_blocks ∷ s.s_blocks_per_ag
    ∷ s.s_ag_count ∷ s.s_device_count ∷ s.s_mode ∷ s.s_features ∷ s.s_checksum ∷ s.s_uuid
    ∷ s.s_checkpoint_num ∷ s.s_checkpoint_mask ∷ s.s_checkpoint_0 ∷ s.s_checkpoint_rest
    ∷ s.s_journal_addr ∷ s.s_root_inode ∷ s.s_generation ∷ s.s_inodes_count ∷ s.s_meta_tree
    ∷ s.s_extent_tree ∷ s.s_free_tree ∷ s.s_snap_tree ∷ s.s_scrub_journal ∷ s.s_health_journal
    ∷ s.s_reserved2 ∷ []

abbrev pub super_of_fields : List ℕ → Super
super_of_fields vs = record {
  s_magic = get_or vs 0 0;
  s_version = get_or vs 1 0;
  s_blocksize = get_or vs 2 0;
  s_blocks_count = get_or vs 3 0;
  s_free_blocks = get_or vs 4 0;
  s_blocks_per_ag = get_or vs 5 0;
  s_ag_count = get_or vs 6 0;
  s_device_count = get_or vs 7 0;
  s_mode = get_or vs 8 0;
  s_features = get_or vs 9 0;
  s_checksum = get_or vs 10 0;
  s_uuid = get_or vs 11 0;
  s_checkpoint_num = get_or vs 12 0;
  s_checkpoint_mask = get_or vs 13 0;
  s_checkpoint_0 = get_or vs 14 0;
  s_checkpoint_rest = get_or vs 15 0;
  s_journal_addr = get_or vs 16 0;
  s_root_inode = get_or vs 17 0;
  s_generation = get_or vs 18 0;
  s_inodes_count = get_or vs 19 0;
  s_meta_tree = get_or vs 20 0;
  s_extent_tree = get_or vs 21 0;
  s_free_tree = get_or vs 22 0;
  s_snap_tree = get_or vs 23 0;
  s_scrub_journal = get_or vs 24 0;
  s_health_journal = get_or vs 25 0;
  s_reserved2 = get_or vs 26 0;
}

-- `memcpy` to a block and back.
unfoldable pub super_bytes : Super → List ℕ
super_bytes s = encode super_widths (super_fields s)

unfoldable pub super_of_bytes : List ℕ → Super
super_of_bytes bs = super_of_fields (decode super_widths bs)

pub super_of_bytes-bytes :
    (s : Super) (rest : List ℕ)
    → Fits super_widths (super_fields s)
    → super_of_bytes (super_bytes s ++ rest) ≡ s
unfolding super_bytes super_of_bytes
super_of_bytes-bytes s rest h =
    ap super_of_fields (decode-encode super_widths (super_fields s) rest h)

unfoldable pub super_checksum : Super → ℕ
unfolding super_bytes
super_checksum s = crc32c_data (super_bytes (record s { s_checksum = 0 }))

-- The journal header.
pub record IntentLog : Type 0 where
  pub il_start : ℕ
  pub il_end : ℕ
  pub il_head : ℕ
  pub il_commit : ℕ
  pub il_total : ℕ
  pub il_outstanding : ℕ
  pub il_checksum : ℕ
  pub il_reserved : ℕ

abbrev pub intent_log_widths : List ℕ
intent_log_widths = 8 ∷ 8 ∷ 8 ∷ 8 ∷ 4 ∷ 4 ∷ 4 ∷ 4 ∷ []

abbrev pub intent_log_fields : IntentLog → List ℕ
intent_log_fields s =
    s.il_start ∷ s.il_end ∷ s.il_head ∷ s.il_commit ∷ s.il_total ∷ s.il_outstanding ∷ s.il_checksum
    ∷ s.il_reserved ∷ []

abbrev pub intent_log_of_fields : List ℕ → IntentLog
intent_log_of_fields vs = record {
  il_start = get_or vs 0 0;
  il_end = get_or vs 1 0;
  il_head = get_or vs 2 0;
  il_commit = get_or vs 3 0;
  il_total = get_or vs 4 0;
  il_outstanding = get_or vs 5 0;
  il_checksum = get_or vs 6 0;
  il_reserved = get_or vs 7 0;
}

-- `memcpy` to a block and back.
unfoldable pub intent_log_bytes : IntentLog → List ℕ
intent_log_bytes s = encode intent_log_widths (intent_log_fields s)

unfoldable pub intent_log_of_bytes : List ℕ → IntentLog
intent_log_of_bytes bs = intent_log_of_fields (decode intent_log_widths bs)

pub intent_log_of_bytes-bytes :
    (s : IntentLog) (rest : List ℕ)
    → Fits intent_log_widths (intent_log_fields s)
    → intent_log_of_bytes (intent_log_bytes s ++ rest) ≡ s
unfolding intent_log_bytes intent_log_of_bytes
intent_log_of_bytes-bytes s rest h =
    ap intent_log_of_fields (decode-encode intent_log_widths (intent_log_fields s) rest h)

-- Over the bytes in front of `il_checksum`.
unfoldable pub journal_checksum : IntentLog → ℕ
journal_checksum j = crc32c_data (encode journal_prefix_widths (intent_log_fields j))
  where
    journal_prefix_widths : List ℕ
    journal_prefix_widths = 8 ∷ 8 ∷ 8 ∷ 8 ∷ 4 ∷ 4 ∷ []
