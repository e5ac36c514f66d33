-- ===== src/Pool/Injective.antt =====
-- No two logical blocks share a block of a member.
use aetherfs.Base.{
  ℕ, ◌+◌, ◌*◌, ◌/◌, ◌%◌, ◌≡◌, ◌≢◌, sym, ◌∙◌, ap, some, arith, div_mod_eq, div_mod_unique,
}
use aetherfs.Pool.{Pool, Mapping, pool_data_mask, skip_parity}
use aetherfs.Pool.Mask.{mask_nth, mask_count, mask_nth_inj}
use aetherfs.Pool.Bounds.{StripeAt, ParityAt, row, position, row_blocks}
use native.Mathlib.Nat.{mod-lt}

-- The two mappings name the same block of the same member.
abbrev pub SamePlace : Mapping → Mapping → Type 0
SamePlace m m' = (m.member_index ≡ m'.member_index) × (m.member_block ≡ m'.member_block)

split_eq : (a b s : ℕ) → a / s ≡ b / s → a % s ≡ b % s → a ≡ b
split_eq a b s q r =
    sym (div_mod_eq a s) ∙ ap (λ t. t * s + a % s) q ∙ ap (λ t. b / s * s + t) r ∙ div_mod_eq b s

-- With its column, a place in a row of stripes determines the relative block.
pub StripeAt-inj :
    (p : Pool) (a b : ℕ) {m m' : Mapping}
    → StripeAt p a m
    → StripeAt p b m'
    → SamePlace m m'
    → a ≡ b
StripeAt-inj p a b {m} {m'} x y same =
    split_eq a b s (split_eq (a / s) (b / s) n rows.0 columns) rows.1
  where
    s : ℕ
    s = p.label.pl_stripe_blocks

    n : ℕ
    n = mask_count (pool_data_mask p)

    columns : a / s % n ≡ b / s % n
    columns =
        mask_nth_inj (pool_data_mask p) (a / s % n) (b / s % n) m'.member_index
          (x.member ∙ ap some same.0) y.member

    rows : (a / s / n ≡ b / s / n) × (a % s ≡ b % s)
    rows =
        div_mod_unique s (a / s / n) (a % s) (b / s / n) (b % s) (mod-lt a x.stripes)
          (mod-lt b x.stripes) (omega (arith, x.block, y.block, same.1))

skip_parity_inj : (a b k : ℕ) → skip_parity a k ≡ skip_parity b k → a ≡ b
skip_parity_inj a b k e = ground arith

ParityAt-rows :
    (p : Pool) (a b : ℕ) {m m' : Mapping}
    → ParityAt p a m
    → ParityAt p b m'
    → m.member_block ≡ m'.member_block
    → (row p a ≡ row p b)
      × (position p a % p.label.pl_stripe_blocks ≡ position p b % p.label.pl_stripe_blocks)
ParityAt-rows p a b x y e =
    div_mod_unique p.label.pl_stripe_blocks (row p a) _ (row p b) _ (mod-lt _ x.stripes)
      (mod-lt _ x.stripes) (omega (arith, x.block, y.block, e))

pub ParityAt-inj :
    (p : Pool) (a b : ℕ) {m m' : Mapping}
    → ParityAt p a m
    → ParityAt p b m'
    → SamePlace m m'
    → a ≡ b
ParityAt-inj p a b {m} {m'} x y same =
    split_eq a b (row_blocks p) rows.0 (split_eq (position p a) (position p b) s columns rows.1)
  where
    s : ℕ
    s = p.label.pl_stripe_blocks

    n : ℕ
    n = mask_count (pool_data_mask p)

    rows : (row p a ≡ row p b) × (position p a % s ≡ position p b % s)
    rows = ParityAt-rows p a b x y same.1

    places :
        skip_parity (position p a / s) (row p a % n) ≡ skip_parity (position p b / s) (row p b % n)
    places =
        mask_nth_inj (pool_data_mask p) _ _ m'.member_index (x.member ∙ ap some same.0) y.member

    columns : position p a / s ≡ position p b / s
    columns =
        skip_parity_inj _ _ (row p b % n)
          (ap (λ r. skip_parity (position p a / s) (r % n)) (sym rows.0) ∙ places)

skip_parity_ne : (a k : ℕ) → skip_parity a k ≢ k
skip_parity_ne a k e = ground arith

-- The parity block of a row is never the data block of any logical block.
pub ParityAt-apart :
    (p : Pool) (a b : ℕ) {m m' : Mapping}
    → ParityAt p a m
    → ParityAt p b m'
    → m.member_block ≡ m'.member_block
    → m.parity_member_index ≢ m'.member_index
ParityAt-apart p a b {m} {m'} x y e same = skip_parity_ne (position p b / s) (row p b % n) (
    mask_nth_inj (pool_data_mask p) _ _ m'.member_index y.member
      (ap (λ r. mask_nth (pool_data_mask p) (r % n)) (sym rows.0) ∙ x.parity ∙ ap some same))
  where
    s : ℕ
    s = p.label.pl_stripe_blocks

    n : ℕ
    n = mask_count (pool_data_mask p)

    rows : (row p a ≡ row p b) × (position p a % s ≡ position p b % s)
    rows = ParityAt-rows p a b x y e
