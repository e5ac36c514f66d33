-- ===== src/Image/Frame.antt =====
-- A block write leaves every other logical block as it was, also when it fails.
use aetherfs.Base.{ℕ, ◌≢◌, ◌⊎◌}
use aetherfs.Format.{profile_mirror, profile_parity}
use aetherfs.Pool.{Pool, Mapping, pool_profile}
use aetherfs.Image.Device.{Disk}
use aetherfs.Image.{Image}

module _ (D : Disk) where
  open D use {Fd}

  -- What a write through a mapping needs of a place to leave it alone, by profile.
  pub record Elsewhere (p : Pool) (m : Mapping) (member c : ℕ) : Type 0 where
    pub place : (m.member_index ≢ member) ⊎ (m.member_block ≢ c)
    pub mirror : (pool_profile p ≢ profile_mirror) ⊎ (m.member_block ≢ c)
    pub parity :
        (pool_profile p ≢ profile_parity)
        ⊎ ((m.parity_member_index ≢ member) ⊎ (m.member_block ≢ c))
