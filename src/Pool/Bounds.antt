-- ===== src/Pool/Bounds.antt =====
-- The masks of a pool of at most eight members, and where each mapping puts a block.
use aetherfs.Base.{
  ℕ, ◌+◌, ◌-◌, ◌*◌, ◌/◌, ◌%◌, ◌^◌, ◌≤◌, ◌<◌, ◌≡◌, ok, some, arith, bit_and-le, sub64_exact,
  div_mod_eq,
}
use aetherfs.Format.{max_devices, data_start_block}
use aetherfs.Pool.{pool_member_data_blocks}
use aetherfs.Pool.{
  Pool, Mapping, pool_member_limit_mask, pool_data_mask, pool_metadata_mask, pool_log_mask,
  pool_map_stripe, pool_map_parity, stripe_block, skip_parity,
}
use aetherfs.Pool.Mask.{mask_nth, mask_count}
use native.Mathlib.Nat.{pow-le-pow_right, mul-le-mul_right, mul-le-mul_left, div-le_self, mod-le}

pow_le_eight : (c : ℕ) → c ≤ max_devices → 2 ^ c ≤ 2 ^ max_devices
pow_le_eight c h = pow-le-pow_right {n = 2} (omega arith) h

limit-lt : (p : Pool) → p.member_count ≤ max_devices → pool_member_limit_mask p < 2 ^ max_devices
unfolding pool_member_limit_mask
limit-lt p h = ground (arith, pow_le_eight p.member_count h)

pub pool_data_mask-lt :
    (p : Pool) → p.member_count ≤ max_devices → pool_data_mask p < 2 ^ max_devices
unfolding pool_data_mask
pool_data_mask-lt p h =
    ground (arith, limit-lt p h, bit_and-le p.label.pl_data_mask (pool_member_limit_mask p))

pub pool_metadata_mask-lt :
    (p : Pool) → p.member_count ≤ max_devices → pool_metadata_mask p < 2 ^ max_devices
unfolding pool_metadata_mask
pool_metadata_mask-lt p h =
    ground (arith, limit-lt p h, bit_and-le p.label.pl_metadata_mask (pool_member_limit_mask p))

pub pool_log_mask-lt : (p : Pool) → p.member_count ≤ max_devices → pool_log_mask p < 2 ^ max_devices
unfolding pool_log_mask
pool_log_mask-lt p h = ground (
  arith,
  limit-lt p h,
  pool_metadata_mask-lt p h,
  bit_and-le p.label.pl_log_mask (pool_member_limit_mask p),
)

-- What a mapping of the stripe profile says, with `relative` the block's place in the data region.
pub record StripeAt (p : Pool) (relative : ℕ) (m : Mapping) : Type 0 where
  pub stripes : 0 < p.label.pl_stripe_blocks
  pub width : 0 < mask_count (pool_data_mask p)
  pub member :
      mask_nth
        (pool_data_mask p)
        (relative / p.label.pl_stripe_blocks % mask_count (pool_data_mask p))
      ≡ some m.member_index
  pub block :
      m.member_block
      ≡ data_start_block
        + (relative
              / p.label.pl_stripe_blocks
              / mask_count (pool_data_mask p)
              * p.label.pl_stripe_blocks
            + relative % p.label.pl_stripe_blocks)
  pub inside : m.member_block < data_start_block + pool_member_data_blocks p m.member_index

-- A row of `n` stripes of `s` blocks starts no later than the blocks in it.
pub stripe_le : (r n s : ℕ) → r / s / n * s + r % s ≤ r
stripe_le r n s = omega (arith, mul-le-mul_right s (div-le_self (r / s) n), div_mod_eq r s)

stripe_block_exact :
    (b n s : ℕ)
    → data_start_block ≤ b
    → b < 2 ^ 64
    → stripe_block ((b - data_start_block) / s / n) s ((b - data_start_block) % s)
      ≡ data_start_block + ((b - data_start_block) / s / n * s + (b - data_start_block) % s)
stripe_block_exact b n s lo hi = omega (arith, stripe_le (b - data_start_block) n s)

pub pool_map_stripe-StripeAt :
    (p : Pool) (b : ℕ) {m : Mapping}
    → data_start_block ≤ b
    → b < 2 ^ 64
    → pool_map_stripe p b ≡ ok m
    → StripeAt p (b - data_start_block) m
unfolding pool_map_stripe
pool_map_stripe-StripeAt p b {m} lo hi h = ground (
  arith,
  sub64_exact b data_start_block lo hi,
  stripe_block_exact b (mask_count (pool_data_mask p)) p.label.pl_stripe_blocks lo hi,
)

-- The row of stripes that a block of the parity profile lies in, and its place in the row.
abbrev pub row_blocks : Pool → ℕ
row_blocks p = (mask_count (pool_data_mask p) - 1) * p.label.pl_stripe_blocks

abbrev pub row : Pool → ℕ → ℕ
row p relative = relative / row_blocks p

abbrev pub position : Pool → ℕ → ℕ
position p relative = relative % row_blocks p

stripe-le-row :
    (p : Pool) → 3 ≤ mask_count (pool_data_mask p) → p.label.pl_stripe_blocks ≤ row_blocks p
stripe-le-row p w =
    omega
      (arith, mul-le-mul_right p.label.pl_stripe_blocks (one_le (mask_count (pool_data_mask p)) w))
  where
    one_le : (n : ℕ) → 3 ≤ n → 1 ≤ n - 1
    one_le n h = omega arith

pub parity_le :
    (p : Pool) (r : ℕ)
    → 3 ≤ mask_count (pool_data_mask p)
    → row p r * p.label.pl_stripe_blocks + position p r % p.label.pl_stripe_blocks ≤ r
parity_le p r w = omega (
  arith,
  div_mod_eq r (row_blocks p),
  mul-le-mul_left (row p r) (stripe-le-row p w),
  mod-le (position p r) p.label.pl_stripe_blocks,
)

-- What a mapping of the parity profile says.
pub record ParityAt (p : Pool) (relative : ℕ) (m : Mapping) : Type 0 where
  pub stripes : 0 < p.label.pl_stripe_blocks
  pub width : 3 ≤ mask_count (pool_data_mask p)
  pub member :
      mask_nth (pool_data_mask p) (
        skip_parity
          (position p relative / p.label.pl_stripe_blocks)
          (row p relative % mask_count (pool_data_mask p)))
      ≡ some m.member_index
  pub parity :
      mask_nth (pool_data_mask p) (row p relative % mask_count (pool_data_mask p))
      ≡ some m.parity_member_index
  pub block :
      m.member_block
      ≡ data_start_block
        + (row p relative * p.label.pl_stripe_blocks
            + position p relative % p.label.pl_stripe_blocks)
  pub inside : m.member_block < data_start_block + pool_member_data_blocks p m.member_index
  pub parity_inside :
      m.member_block < data_start_block + pool_member_data_blocks p m.parity_member_index

parity_block_exact :
    (p : Pool) (b : ℕ)
    → data_start_block ≤ b
    → b < 2 ^ 64
    → 3 ≤ mask_count (pool_data_mask p)
    → stripe_block
        (row p (b - data_start_block))
        p.label.pl_stripe_blocks
        (position p (b - data_start_block) % p.label.pl_stripe_blocks)
      ≡ data_start_block
        + (row p (b - data_start_block) * p.label.pl_stripe_blocks
            + position p (b - data_start_block) % p.label.pl_stripe_blocks)
parity_block_exact p b lo hi w = omega (arith, parity_le p (b - data_start_block) w)

pub pool_map_parity-ParityAt :
    (p : Pool) (b : ℕ) {m : Mapping}
    → data_start_block ≤ b
    → b < 2 ^ 64
    → pool_map_parity p b ≡ ok m
    → ParityAt p (b - data_start_block) m
unfolding pool_map_parity
pool_map_parity-ParityAt p b {m} lo hi h =
    ground (arith, sub64_exact b data_start_block lo hi, parity_block_exact p b lo hi)
