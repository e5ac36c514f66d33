-- ===== src/Pool/Disjoint.antt =====
-- The mapping of data blocks as a whole, over the five profiles.
use aetherfs.Base.{ℕ, ◌+◌, ◌-◌, ◌^◌, ◌≤◌, ◌<◌, ◌≡◌, ◌≢◌, ok, arith, sub64}
use aetherfs.Format.{data_start_block, profile_mirror}
use aetherfs.Pool.{
  Pool, Mapping, pool_data_mask, pool_profile, pool_map_linear, pool_map_mirror, pool_map_stripe,
  pool_map_parity, pool_map_data_block, pool_member_data_blocks,
}
use aetherfs.Pool.Mask.{mask_count}
use aetherfs.Pool.Bounds.{stripe_le, parity_le, pool_map_stripe-StripeAt, pool_map_parity-ParityAt}
use aetherfs.Pool.Injective.{SamePlace, StripeAt-inj, ParityAt-inj, ParityAt-apart}
use aetherfs.Pool.Linear.{map_linear_loop-LinearAt, map_linear_loop_inj}

-- The block stands in the data region, and no further than the logical block.
pub record IsPlaced (b : ℕ) (m : Mapping) : Type 0 where
  pub low : data_start_block ≤ m.member_block
  pub near : m.member_block ≤ b

module _ (p : Pool) where
  linear_inj :
      (a b : ℕ) (m m' : Mapping)
      → data_start_block ≤ a
      → a < 2 ^ 64
      → data_start_block ≤ b
      → b < 2 ^ 64
      → pool_map_linear p a ≡ ok m
      → pool_map_linear p b ≡ ok m'
      → SamePlace m m'
      → a ≡ b
  unfolding pool_map_linear
  linear_inj a b m m' la ha lb hb x y same = omega (
    arith,
    map_linear_loop_inj p (mask_count (pool_data_mask p)) 0 (sub64 a data_start_block)
        (sub64 b data_start_block) m m' (omega arith) (omega arith) x y same,
  )

  mirror_inj :
      (a b : ℕ) (m m' : Mapping)
      → pool_map_mirror p a ≡ ok m
      → pool_map_mirror p b ≡ ok m'
      → SamePlace m m'
      → a ≡ b
  unfolding pool_map_mirror
  mirror_inj a b m m' x y same = ground arith

  stripe_inj :
      (a b : ℕ) (m m' : Mapping)
      → data_start_block ≤ a
      → a < 2 ^ 64
      → data_start_block ≤ b
      → b < 2 ^ 64
      → pool_map_stripe p a ≡ ok m
      → pool_map_stripe p b ≡ ok m'
      → SamePlace m m'
      → a ≡ b
  stripe_inj a b m m' la ha lb hb x y same = omega (
    arith,
    StripeAt-inj p (a - data_start_block) (b - data_start_block)
        (pool_map_stripe-StripeAt p a la ha x) (pool_map_stripe-StripeAt p b lb hb y) same,
  )

  parity_inj :
      (a b : ℕ) (m m' : Mapping)
      → data_start_block ≤ a
      → a < 2 ^ 64
      → data_start_block ≤ b
      → b < 2 ^ 64
      → pool_map_parity p a ≡ ok m
      → pool_map_parity p b ≡ ok m'
      → SamePlace m m'
      → a ≡ b
  parity_inj a b m m' la ha lb hb x y same = omega (
    arith,
    ParityAt-inj p (a - data_start_block) (b - data_start_block)
        (pool_map_parity-ParityAt p a la ha x) (pool_map_parity-ParityAt p b lb hb y) same,
  )

  -- Under each of the five profiles, two logical data blocks that are mapped to the same block of the
  -- same member are one block.
  pub pool_map_data_block_inj :
      (a b : ℕ) (m m' : Mapping)
      → data_start_block ≤ a
      → a < 2 ^ 64
      → data_start_block ≤ b
      → b < 2 ^ 64
      → pool_map_data_block p a ≡ ok m
      → pool_map_data_block p b ≡ ok m'
      → SamePlace m m'
      → a ≡ b
  unfolding pool_map_data_block
  pool_map_data_block_inj a b m m' la ha lb hb x y same = ground (
    arith,
    linear_inj a b m m' la ha lb hb,
    mirror_inj a b m m',
    stripe_inj a b m m' la ha lb hb,
    parity_inj a b m m' la ha lb hb,
  )

  linear-IsPlaced :
      (b : ℕ) (m : Mapping)
      → data_start_block ≤ b
      → b < 2 ^ 64
      → pool_map_linear p b ≡ ok m
      → IsPlaced b m
        × (m.member_block < data_start_block + pool_member_data_blocks p m.member_index)
  unfolding pool_map_linear
  linear-IsPlaced b m lo hi x =
      let w =
        map_linear_loop-LinearAt p (mask_count (pool_data_mask p)) 0 (sub64 b data_start_block) m
          (omega arith) x in
      (record { low = w.low; near = omega (arith, w.near) }, w.inside)

  stripe-IsPlaced :
      (b : ℕ) (m : Mapping)
      → data_start_block ≤ b
      → b < 2 ^ 64
      → pool_map_stripe p b ≡ ok m
      → IsPlaced b m
        × (m.member_block < data_start_block + pool_member_data_blocks p m.member_index)
  stripe-IsPlaced b m lo hi x =
      let w = pool_map_stripe-StripeAt p b lo hi x in
      let e =
        stripe_le (b - data_start_block) (mask_count (pool_data_mask p)) p.label.pl_stripe_blocks in
      (record { low = omega (arith, w.block); near = omega (arith, w.block, e) }, w.inside)

  parity-IsPlaced :
      (b : ℕ) (m : Mapping)
      → data_start_block ≤ b
      → b < 2 ^ 64
      → pool_map_parity p b ≡ ok m
      → IsPlaced b m
        × (m.member_block < data_start_block + pool_member_data_blocks p m.member_index)
  parity-IsPlaced b m lo hi x =
      let w = pool_map_parity-ParityAt p b lo hi x in
      let e = parity_le p (b - data_start_block) w.width in
      (record { low = omega (arith, w.block); near = omega (arith, w.block, e) }, w.inside)

  mirror-IsPlaced :
      (b : ℕ) (m : Mapping) → data_start_block ≤ b → pool_map_mirror p b ≡ ok m → IsPlaced b m
  unfolding pool_map_mirror
  mirror-IsPlaced b m lo x = ground arith

  -- A mapped data block lies past the bootstrap blocks, and its number never exceeds the logical one.
  pub pool_map_data_block-IsPlaced :
      (b : ℕ) (m : Mapping)
      → data_start_block ≤ b
      → b < 2 ^ 64
      → pool_map_data_block p b ≡ ok m
      → IsPlaced b m
  unfolding pool_map_data_block
  pool_map_data_block-IsPlaced b m lo hi x = ground (
    arith,
    linear-IsPlaced b m lo hi,
    mirror-IsPlaced b m lo,
    stripe-IsPlaced b m lo hi,
    parity-IsPlaced b m lo hi,
  )

  -- But for the mirror profile, which checks no bound, a mapped data block lies before the end of the
  -- data region of its member.
  pub pool_map_data_block_inside :
      (b : ℕ) (m : Mapping)
      → data_start_block ≤ b
      → b < 2 ^ 64
      → pool_profile p ≢ profile_mirror
      → pool_map_data_block p b ≡ ok m
      → m.member_block < data_start_block + pool_member_data_blocks p m.member_index
  unfolding pool_map_data_block
  pool_map_data_block_inside b m lo hi other x =
      ground
        (arith, linear-IsPlaced b m lo hi, stripe-IsPlaced b m lo hi, parity-IsPlaced b m lo hi)

  -- Under the parity profile, the parity block of one logical block is never where the data of some
  -- logical block lies, its own included.
  pub pool_map_parity_apart :
      (a b : ℕ) (m m' : Mapping)
      → data_start_block ≤ a
      → a < 2 ^ 64
      → data_start_block ≤ b
      → b < 2 ^ 64
      → pool_map_parity p a ≡ ok m
      → pool_map_parity p b ≡ ok m'
      → m.member_block ≡ m'.member_block
      → m.parity_member_index ≢ m'.member_index
  pool_map_parity_apart a b m m' la ha lb hb x y =
      ParityAt-apart p (a - data_start_block) (b - data_start_block)
        (pool_map_parity-ParityAt p a la ha x) (pool_map_parity-ParityAt p b lb hb y)
