-- ===== src/Pool/Linear.antt =====
-- The linear mapping: members one after another.
use aetherfs.Base.{
  ℕ, zero, suc, ◌+◌, ◌-◌, ◌^◌, ◌≤◌, ◌<◌, ◌≡◌, ◌∙◌, ap, ok, some, arith, ltb, Option-cases,
  Bool-cases, inl, inr,
}
use aetherfs.Format.{data_start_block}
use aetherfs.Pool.{Pool, Mapping, pool_data_mask, map_linear_loop}
use aetherfs.Pool.{pool_member_data_blocks}
use aetherfs.Pool.Mask.{mask_nth, mask_nth_inj}
use aetherfs.Pool.Injective.{SamePlace}

-- What the loop finds: an ordinal from here on whose member is chosen, and a block of its data
-- region that lies no further than the logical one.
pub record LinearAt (p : Pool) (k r : ℕ) (m : Mapping) : Type 0 where
  pub ordinal : ℕ
  pub from : k ≤ ordinal
  pub member : mask_nth (pool_data_mask p) ordinal ≡ some m.member_index
  pub inside : m.member_block < data_start_block + pool_member_data_blocks p m.member_index
  pub low : data_start_block ≤ m.member_block
  pub near : m.member_block ≤ data_start_block + r

module _ (p : Pool) where
  abbrev size_at : ℕ → ℕ
  size_at member = pool_member_data_blocks p member

  pub map_linear_loop-LinearAt :
      (n k r : ℕ) (m : Mapping)
      → data_start_block + r < 2 ^ 64
      → map_linear_loop p n k r ≡ ok m
      → LinearAt p k r m
  unfolding map_linear_loop
  map_linear_loop-LinearAt zero k r m small h = ground arith
  map_linear_loop-LinearAt (suc n) k r m small h =
      elim (Option-cases (mask_nth (pool_data_mask p) k)) [
        | inl e ↦ ground arith
        | inr (d, e) ↦ elim (Bool-cases (ltb r (size_at d))) [
          | inl here ↦ record {
            ordinal = k;
            from = omega arith;
            member = ground arith;
            inside = ground arith;
            low = ground arith;
            near = ground arith;
          }
          | inr later ↦
              let w =
                map_linear_loop-LinearAt n (k + 1) (r - size_at d) m (ground arith)
                  (ground arith) in
              record {
                ordinal = w.ordinal;
                from = omega (arith, w.from);
                member = w.member;
                inside = w.inside;
                low = w.low;
                near = omega (arith, w.near);
              }
        ]
      ]

  not_later :
      (k d : ℕ) {r : ℕ} (m : Mapping)
      → mask_nth (pool_data_mask p) k ≡ some d
      → m.member_index ≡ d
      → ¬ LinearAt p (k + 1) r m
  not_later k d m e same w =
      let t : k ≡ w.ordinal =
        mask_nth_inj (pool_data_mask p) k w.ordinal d e (w.member ∙ ap some same) in
      omega (arith, w.from)

  pub map_linear_loop_inj :
      (n k r s : ℕ) (m m' : Mapping)
      → data_start_block + r < 2 ^ 64
      → data_start_block + s < 2 ^ 64
      → map_linear_loop p n k r ≡ ok m
      → map_linear_loop p n k s ≡ ok m'
      → SamePlace m m'
      → r ≡ s
  unfolding map_linear_loop
  map_linear_loop_inj zero k r s m m' hr hs x y same = ground arith
  map_linear_loop_inj (suc n) k r s m m' hr hs x y same =
      elim (Option-cases (mask_nth (pool_data_mask p) k)) [
        | inl e ↦ ground arith
        | inr (d, e) ↦ elim (Bool-cases (ltb r (size_at d))) [
          | inl a ↦ elim (Bool-cases (ltb s (size_at d))) [
            | inl b ↦ ground arith
            | inr b ↦ absurd (
                not_later k d m' e (ground arith) (
                  map_linear_loop-LinearAt n (k + 1) (s - size_at d) m' (ground arith)
                    (ground arith)))
          ]
          | inr a ↦ elim (Bool-cases (ltb s (size_at d))) [
            | inl b ↦ absurd (
                not_later k d m e (ground arith) (
                  map_linear_loop-LinearAt n (k + 1) (r - size_at d) m (ground arith)
                    (ground arith)))
            | inr b ↦
                let t : r - size_at d ≡ s - size_at d =
                  map_linear_loop_inj n (k + 1) (r - size_at d) (s - size_at d) m m' (ground arith)
                    (ground arith) (ground arith) (ground arith) same in
                ground arith
          ]
        ]
      ]
