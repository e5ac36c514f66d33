-- ===== src/Labels.antt =====
-- aetherfsprogs/image.c: the labels of a pool's members, how one is read, when two belong to one pool,
-- and the label that stands for an image without one.
pub mod Alike
use aetherfs.Base.{
  ℕ, ◌≡◌, ◌≤◌, ◌<◌, ◌^◌, refl, Bool, true, false, List, [], ◌∷◌, Option, none, some, Result, ok,
  ◌/=◌, if◌then◌else◌, replicate, sub64, ◌>>=◌, ◌>>◌, eq→==, bind_ok, arith, seq_ok, subst, u64,
  ◌+◌, eq→/=, ge→ltb,
}
use aetherfs.Format.{pool_label_block, pool_magic, pool_version, profile_single, data_start_block}
use aetherfs.Format.Structs.Label.{
  PoolLabel, pool_label_bytes, pool_label_of_bytes, pool_label_checksum,
}
use aetherfs.Pool.{no_pool_member}
use aetherfs.Image.{member_read_block}
use aetherfs.Image.Device.{Disk}
use aetherfs.Volume.{pool_label_validate, label_members_validate}
use aetherfs.Redundancy.{same_bytes}

-- `none` where the block holds no label.
unfoldable pub member_read_pool_label : (D : Disk) → Option D.Fd → Result (Option PoolLabel)
member_read_pool_label D fd = member_read_block D fd pool_label_block >>= λ block.
    let label = pool_label_of_bytes block in
    if label.pl_magic /= pool_magic then ok none else pool_label_validate label >> ok (some label)

unfoldable pub pool_label_normalize : PoolLabel → PoolLabel
pool_label_normalize label = record label { pl_checksum = 0; pl_member_index = 0 }

unfoldable pub pool_labels_equivalent : PoolLabel → PoolLabel → Bool
pool_labels_equivalent left right =
    same_bytes (pool_label_bytes (pool_label_normalize left))
      (pool_label_bytes (pool_label_normalize right))

-- `AETHERFS_POOL_MEMBER_DATA | AETHERFS_POOL_MEMBER_METADATA | AETHERFS_POOL_MEMBER_LOG`.
abbrev single_roles : ℕ
single_roles = 7

-- The label that `aetherfs_image_synthesize_single_label` fills in for an image of so many blocks.
abbrev single_draft : ℕ → PoolLabel
single_draft blocks = record {
  pl_magic = pool_magic;
  pl_version = pool_version;
  pl_checksum = 0;
  pl_profile = profile_single;
  pl_member_count = 1;
  pl_member_index = 0;
  pl_stripe_blocks = 1;
  pl_flags = 0;
  pl_metadata_mask = 1;
  pl_data_mask = 1;
  pl_log_mask = 1;
  pl_cache_mask = 0;
  pl_logical_blocks = blocks;
  pl_logical_data_blocks = sub64 blocks data_start_block;
  pl_pool_uuid = 0;
  pl_members =
      record no_pool_member {
        pm_total_blocks = blocks;
        pm_data_blocks = sub64 blocks data_start_block;
        pm_role_mask = single_roles;
      }
      ∷ replicate 7 no_pool_member;
  pl_reserved = 0;
}

unfoldable pub single_label : ℕ → PoolLabel
single_label blocks = record (single_draft blocks) {
  pl_checksum = pool_label_checksum (single_draft blocks);
}

pub same_bytes_refl : (xs : List ℕ) → same_bytes xs xs ≡ true
unfolding same_bytes
same_bytes_refl [] = refl
same_bytes_refl (x ∷ xs) = ground (arith, eq→== x x refl, same_bytes_refl xs)

-- Two labels that differ in their checksum and their member's index only are equivalent.
pub pool_labels_equivalent_member :
    (label : PoolLabel) (c d i j : ℕ)
    → pool_labels_equivalent
        (record label { pl_checksum = c; pl_member_index = i })
        (record label { pl_checksum = d; pl_member_index = j })
      ≡ true
unfolding pool_labels_equivalent pool_label_normalize
pool_labels_equivalent_member label c d i j = same_bytes_refl _

checked_label :
    (b : Bool) (label l : PoolLabel)
    → (if b then ok none else pool_label_validate label >> ok (some label)) ≡ ok (some l)
    → pool_label_validate l ≡ ok tt
checked_label true label l h = absurd (ground arith)
checked_label false label l h =
    let (valid, is) = seq_ok (pool_label_validate label) (ok (some label)) (some l) h in
    let same : label ≡ l = ground arith in subst (λ t. pool_label_validate t ≡ ok tt) same valid

-- A label that is read from a member passes the validation of labels.
pub member_read_pool_label_valid :
    (D : Disk) (fd : Option D.Fd) (label : PoolLabel)
    → member_read_pool_label D fd ≡ ok (some label)
    → pool_label_validate label ≡ ok tt
unfolding member_read_pool_label
member_read_pool_label_valid D fd label h =
    let (block, read, rest) = bind_ok (member_read_block D fd pool_label_block) _ (some label) h in
    checked_label ((pool_label_of_bytes block).pl_magic /= pool_magic) (pool_label_of_bytes block)
      label rest

seal_checksum :
    (label : PoolLabel) (c : ℕ)
    → pool_label_checksum (record label { pl_checksum = c }) ≡ pool_label_checksum label
unfolding pool_label_checksum
seal_checksum label c = refl

-- An image of at least eight blocks and fewer than 2 ^ 64 gets a valid label.
pub single_label_valid :
    (blocks : ℕ)
    → data_start_block ≤ blocks
    → blocks < 2 ^ 64
    → pool_label_validate (single_label blocks) ≡ ok tt
unfolding single_label pool_label_validate label_members_validate
single_label_valid blocks lo hi =
    let whole : u64 (sub64 blocks data_start_block + data_start_block) ≡ blocks = omega arith in
    rw (
      seal_checksum (single_draft blocks) (pool_label_checksum (single_draft blocks)),
      eq→/= (pool_label_checksum (single_draft blocks)),
      whole,
      eq→/= blocks,
      ge→ltb blocks data_start_block lo,
      ge→ltb (sub64 blocks data_start_block) (sub64 blocks data_start_block) (omega arith),
    )
