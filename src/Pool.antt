-- ===== src/Pool.antt =====
-- aetherfsprogs/image.c and image.h: the pool of an open image, that is its label and what is known
-- of its members, and the map from logical blocks to blocks of members.
pub mod Mask
pub mod Bounds
pub mod Injective
pub mod Linear
pub mod Disjoint
use aetherfs.Base.{
  ℕ, zero, suc, ◌+◌, ◌-◌, ◌*◌, ◌/◌, ◌%◌, ◌^◌, ◌≤◌, ◌<◌, Bool, true, false, ◌||◌, List, [], ◌∷◌,
  Option, none, some, Result, ok, err, Errno, einval, erange, ltb, leb, ◌==◌, if◌then◌else◌, get_or,
  u64, sub64, bit_and,
}
use aetherfs.Format.{
  data_start_block, journal_block, profile_single, profile_mirror, profile_stripe, profile_parity,
  profile_tiered,
}
use aetherfs.Format.Structs.Label.{PoolLabel, PoolMember}
use Mask.{mask_first, mask_count, mask_nth}

-- `struct aetherfs_image_member` without its descriptor.
pub record MemberInfo : Type 0 where
  pub is_block_device : Bool
  pub size_bytes : ℕ
  pub blocks : ℕ
  pub class_mask : ℕ
  pub role_mask : ℕ
  pub member_index : ℕ

-- The fields `pool_label`, `member_count` and `members` of `struct aetherfs_image`. Both tables have
-- `AETHERFS_MAX_DEVICES` entries, and no index below goes past them.
pub record Pool : Type 0 where
  pub label : PoolLabel
  pub member_count : ℕ
  pub members : List MemberInfo

pub record Mapping : Type 0 where
  pub member_index : ℕ
  pub parity_member_index : ℕ
  pub member_block : ℕ

abbrev pub uint32_max : ℕ
uint32_max = 2 ^ 32 - 1

unfoldable pub pool_member_limit_mask : Pool → ℕ
pool_member_limit_mask p =
    if leb 32 p.member_count
    then uint32_max
    else (if p.member_count == 0 then 0 else 2 ^ p.member_count - 1)

unfoldable pub pool_profile : Pool → ℕ
pool_profile p = p.label.pl_profile

-- `mask == 0 && image->member_count > 0` stands for member 0.
abbrev pub or_first : Pool → ℕ → ℕ
or_first p mask = if mask == 0 then (if ltb 0 p.member_count then 1 else mask) else mask

unfoldable pub pool_metadata_mask : Pool → ℕ
pool_metadata_mask p = or_first p (bit_and p.label.pl_metadata_mask (pool_member_limit_mask p))

unfoldable pub pool_data_mask : Pool → ℕ
pool_data_mask p = or_first p (bit_and p.label.pl_data_mask (pool_member_limit_mask p))

unfoldable pub pool_log_mask : Pool → ℕ
pool_log_mask p =
    let mask = bit_and p.label.pl_log_mask (pool_member_limit_mask p) in
    if mask == 0 then pool_metadata_mask p else mask

abbrev pub no_pool_member : PoolMember
no_pool_member = record {
  pm_uuid = 0;
  pm_total_blocks = 0;
  pm_data_blocks = 0;
  pm_class_mask = 0;
  pm_role_mask = 0;
  pm_index = 0;
  pm_reserved = 0;
}

abbrev pub no_member_info : MemberInfo
no_member_info = record {
  is_block_device = false;
  size_bytes = 0;
  blocks = 0;
  class_mask = 0;
  role_mask = 0;
  member_index = 0;
}

unfoldable pub pool_member_total_blocks : Pool → ℕ → ℕ
pool_member_total_blocks p index =
    let total = (get_or p.label.pl_members index no_pool_member).pm_total_blocks in
    if total == 0 then (get_or p.members index no_member_info).blocks else total

unfoldable pub pool_member_data_blocks : Pool → ℕ → ℕ
pool_member_data_blocks p index =
    let blocks = (get_or p.label.pl_members index no_pool_member).pm_data_blocks in
    let total = pool_member_total_blocks p index in
    if blocks == 0
    then (if ltb data_start_block total then total - data_start_block else blocks)
    else blocks

-- Which members hold a block of the bootstrap region.
unfoldable pub pool_role_mask_for_bootstrap_block : Pool → ℕ → ℕ
pool_role_mask_for_bootstrap_block p block =
    if block == journal_block then pool_log_mask p else pool_metadata_mask p

-- The loop of `aetherfs_pool_map_linear` at `ordinal`, with `n` rounds left. The test makes the
-- subtraction exact.
unfoldable pub map_linear_loop : Pool → ℕ → ℕ → ℕ → Result Mapping
map_linear_loop p zero ordinal remaining = err erange
map_linear_loop p (suc n) ordinal remaining = elim (mask_nth (pool_data_mask p) ordinal) [
  | none ↦ err erange
  | some member ↦
      let rest = map_linear_loop p n (ordinal + 1) (remaining - pool_member_data_blocks p member) in
      if ltb remaining (pool_member_data_blocks p member)
      then ok (record {
        member_index = member;
        parity_member_index = uint32_max;
        member_block = u64 (data_start_block + remaining);
      })
      else rest
]

unfoldable pub pool_map_linear : Pool → ℕ → Result Mapping
pool_map_linear p logical_block =
    map_linear_loop p (mask_count (pool_data_mask p)) 0 (sub64 logical_block data_start_block)

unfoldable pub pool_map_mirror : Pool → ℕ → Result Mapping
pool_map_mirror p logical_block = elim (mask_first (pool_data_mask p)) [
  | none ↦ err einval
  | some member ↦ ok (record {
    member_index = member;
    parity_member_index = uint32_max;
    member_block = logical_block;
  })
]

-- The end of the data region of a member, as the code computes it.
abbrev pub data_end : Pool → ℕ → ℕ
data_end p member = u64 (data_start_block + pool_member_data_blocks p member)

-- `AETHERFS_DATA_START_BLOCK + a * stripe_blocks + b`; wrapping once at the end is the same as
-- wrapping after each operation.
abbrev pub stripe_block : ℕ → ℕ → ℕ → ℕ
stripe_block a stripe_blocks b = u64 (data_start_block + a * stripe_blocks + b)

stripe_mapping : Pool → ℕ → ℕ → Result Mapping
stripe_mapping p member block =
    if leb (data_end p member) block
    then err erange
    else ok
        (record { member_index = member; parity_member_index = uint32_max; member_block = block })

unfoldable pub pool_map_stripe : Pool → ℕ → Result Mapping
unfolding stripe_mapping
pool_map_stripe p logical_block =
    let data_members = mask_count (pool_data_mask p) in
    let stripe_blocks = p.label.pl_stripe_blocks in
    let relative = sub64 logical_block data_start_block in
    let stripe_number = relative / stripe_blocks in
    if data_members == 0 || stripe_blocks == 0
    then err einval
    else (elim (mask_nth (pool_data_mask p) (stripe_number % data_members)) [
      | none ↦ err einval
      | some member ↦
          stripe_mapping p member
            (stripe_block (stripe_number / data_members) stripe_blocks (relative % stripe_blocks))
    ])

parity_mapping : Pool → ℕ → ℕ → ℕ → Result Mapping
parity_mapping p member parity block =
    if leb (data_end p member) block || leb (data_end p parity) block
    then err erange
    else ok (record { member_index = member; parity_member_index = parity; member_block = block })

-- The member that holds the data of the block, one past the parity member's place if that comes
-- first in the row.
abbrev pub skip_parity : ℕ → ℕ → ℕ
skip_parity data_ordinal parity_ordinal =
    if leb parity_ordinal data_ordinal then data_ordinal + 1 else data_ordinal

unfoldable pub pool_map_parity : Pool → ℕ → Result Mapping
unfolding parity_mapping
pool_map_parity p logical_block =
    let data_members = mask_count (pool_data_mask p) in
    let stripe_blocks = p.label.pl_stripe_blocks in
    let relative = sub64 logical_block data_start_block in
    let row = relative / ((data_members - 1) * stripe_blocks) in
    let position = relative % ((data_members - 1) * stripe_blocks) in
    let parity_ordinal = row % data_members in
    let actual_ordinal = skip_parity (position / stripe_blocks) parity_ordinal in
    if ltb data_members 3 || stripe_blocks == 0
    then err einval
    else (elim (mask_nth (pool_data_mask p) actual_ordinal) [
      | none ↦ err einval
      | some member ↦ elim (mask_nth (pool_data_mask p) parity_ordinal) [
        | none ↦ err einval
        | some parity ↦
            parity_mapping p member parity
              (stripe_block row stripe_blocks (position % stripe_blocks))
      ]
    ])

unfoldable pub pool_map_data_block : Pool → ℕ → Result Mapping
pool_map_data_block p logical_block =
    let profile = pool_profile p in
    if profile == profile_single || profile == profile_tiered
    then pool_map_linear p logical_block
    else (if profile == profile_mirror
        then pool_map_mirror p logical_block
        else (if profile == profile_stripe
            then pool_map_stripe p logical_block
            else (if profile == profile_parity
                then pool_map_parity p logical_block
                else err einval)))
