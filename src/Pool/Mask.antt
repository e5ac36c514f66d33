-- ===== src/Pool/Mask.antt =====
-- aetherfsprogs/image.c: the bit masks that say which pool members serve a role.
use aetherfs.Base.{
  ℕ, zero, suc, ◌+◌, ◌-◌, ◌/◌, ◌%◌, ◌^◌, ◌≤◌, ◌<◌, ◌≡◌, refl, Bool, true, ◌≢◌, ◌&&◌, ◌||◌, ltb, ap,
  inl, inr, ◌↔◌, Option, none, some, arith, ◌==◌, if◌then◌else◌, Bool-cases, subst, pow_step,
}
use native.Mathlib.Decide.{ℕ_discrete}
use native.Mathlib.Nat.{zero-add, add-zero, div-eq_of_lt}
use aetherfs.Format.{max_devices}

-- `mask & (1U << index)`.
abbrev pub bit : ℕ → ℕ → Bool
bit mask index = (mask / 2 ^ index) % 2 == 1

-- The loop of `mask_first` at `index`, with `n` rounds left. `none` is the result -1.
unfoldable pub first_from : ℕ → ℕ → ℕ → Option ℕ
first_from zero index mask = none
first_from (suc n) index mask =
    let rest = first_from n (index + 1) mask in if bit mask index then some index else rest

unfoldable pub mask_first : ℕ → Option ℕ
mask_first mask = first_from max_devices 0 mask

-- `__builtin_popcount`, one bit after another.
unfoldable pub count_from : ℕ → ℕ → ℕ → ℕ
count_from zero index mask = 0
count_from (suc n) index mask = (if bit mask index then 1 else 0) + count_from n (index + 1) mask

unfoldable pub mask_count : ℕ → ℕ
mask_count mask = count_from 32 0 mask

-- The loop of `mask_nth` at `index`, with `n` rounds left.
unfoldable pub nth_from : ℕ → ℕ → ℕ → ℕ → Option ℕ
nth_from zero index mask ordinal = none
nth_from (suc n) index mask ordinal =
    let skip = nth_from n (index + 1) mask ordinal in
    let next = nth_from n (index + 1) mask (ordinal - 1) in
    if bit mask index then (if ordinal == 0 then some index else next) else skip

unfoldable pub mask_nth : ℕ → ℕ → Option ℕ
mask_nth mask ordinal = nth_from max_devices 0 mask ordinal

nth_from_bounds :
    (n i mask k r : ℕ) → nth_from n i mask k ≡ some r → (i ≤ r) × (r < i + n) × (bit mask r ≡ true)
unfolding nth_from
nth_from_bounds zero i mask k r h = ground arith
nth_from_bounds (suc n) i mask k r h =
    ground (arith, nth_from_bounds n (i + 1) mask k r, nth_from_bounds n (i + 1) mask (k - 1) r)

nth_from_inj :
    (n i mask j k r : ℕ) → nth_from n i mask j ≡ some r → nth_from n i mask k ≡ some r → j ≡ k
unfolding nth_from
nth_from_inj zero i mask j k r p q = ground arith
nth_from_inj (suc n) i mask j k r p q = ground (
  arith,
  nth_from_bounds n (i + 1) mask (j - 1) r,
  nth_from_bounds n (i + 1) mask (k - 1) r,
  nth_from_inj n (i + 1) mask j k r,
  nth_from_inj n (i + 1) mask (j - 1) (k - 1) r,
)

nth_from_total :
    (n i mask k : ℕ) → k < count_from n i mask → (r : ℕ) × (nth_from n i mask k ≡ some r)
unfolding nth_from count_from
nth_from_total zero i mask k h = elim h [ ]
nth_from_total (suc n) i mask k h = elim (Bool-cases (bit mask i)) [
  | inl set ↦ elim (Bool-cases (k == 0)) [
    | inl here ↦ (i, rw (set, here))
    | inr later ↦ rw (set, later) (nth_from_total n (i + 1) mask (k - 1) (ground arith))
  ]
  | inr clear ↦ rw clear (nth_from_total n (i + 1) mask k (ground arith))
]

nth_from_lt_count : (n i mask k r : ℕ) → nth_from n i mask k ≡ some r → k < count_from n i mask
unfolding nth_from count_from
nth_from_lt_count zero i mask k r h = ground arith
nth_from_lt_count (suc n) i mask k r h =
    ground (arith, nth_from_lt_count n (i + 1) mask k r, nth_from_lt_count n (i + 1) mask (k - 1) r)

first_from-nth_from : (n i mask : ℕ) → first_from n i mask ≡ nth_from n i mask 0
unfolding first_from nth_from
first_from-nth_from zero i mask = refl
first_from-nth_from (suc n) i mask = ground (arith, first_from-nth_from n (i + 1) mask)

count_from-append :
    (a b i mask : ℕ) → count_from (a + b) i mask ≡ count_from a i mask + count_from b (i + a) mask
unfolding count_from
count_from-append zero b i mask = rw (zero-add, add-zero) (omega arith)
count_from-append (suc a) b i mask =
    let e : suc a + b ≡ suc (a + b) = omega arith in
    let f : i + suc a ≡ i + 1 + a = omega arith in
    rw (e, f) (omega (arith, count_from-append a b (i + 1) mask))

count_from_small : (n i mask : ℕ) → mask < 2 ^ i → count_from n i mask ≡ 0
unfolding count_from
count_from_small zero i mask h = refl
count_from_small (suc n) i mask h =
    ground (arith, div-eq_of_lt h, pow_step i, count_from_small n (i + 1) mask)

-- A mask of eight bits is counted by the eight rounds of the other loops.
pub mask_count_byte : (mask : ℕ) → mask < 2 ^ max_devices → mask_count mask ≡ count_from 8 0 mask
unfolding mask_count
mask_count_byte mask h = omega (arith, count_from-append 8 24 0 mask, count_from_small 24 8 mask h)

pub mask_first-mask_nth : (mask : ℕ) → mask_first mask ≡ mask_nth mask 0
unfolding mask_first mask_nth
mask_first-mask_nth mask = first_from-nth_from max_devices 0 mask

pub mask_nth_bounds :
    (mask k r : ℕ) → mask_nth mask k ≡ some r → (r < max_devices) × (bit mask r ≡ true)
unfolding mask_nth
mask_nth_bounds mask k r h = let b = nth_from_bounds 8 0 mask k r h in (b.1, b.2)

pub mask_nth_inj : (mask j k r : ℕ) → mask_nth mask j ≡ some r → mask_nth mask k ≡ some r → j ≡ k
unfolding mask_nth
mask_nth_inj mask j k r = nth_from_inj 8 0 mask j k r

pub mask_nth_total :
    (mask k : ℕ)
    → mask < 2 ^ max_devices
    → k < mask_count mask
    → (r : ℕ) × (mask_nth mask k ≡ some r)
unfolding mask_nth
mask_nth_total mask k h lt =
    nth_from_total 8 0 mask k (subst (λ t. k < t) (mask_count_byte mask h) lt)

pub mask_nth-lt-mask_count :
    (mask k r : ℕ) → mask < 2 ^ max_devices → mask_nth mask k ≡ some r → k < mask_count mask
unfolding mask_nth
mask_nth-lt-mask_count mask k r small h =
    omega (arith, mask_count_byte mask small, nth_from_lt_count 8 0 mask k r h)

-- Under a mask of eight bits, an ordinal has a member exactly when it is below the popcount, and the
-- member is one of the set bits.
pub mask_nth_iff :
    (mask k : ℕ)
    → mask < 2 ^ max_devices
    → (k < mask_count mask) ↔ ((r : ℕ) × (mask_nth mask k ≡ some r) × (bit mask r ≡ true))
mask_nth_iff mask k small = (
  λ lt. let t = mask_nth_total mask k small lt in (t.0, t.1, (mask_nth_bounds mask k t.0 t.1).1),
  λ t. mask_nth-lt-mask_count mask k t.0 small t.1,
)

all_counted : ℕ → Bool
all_counted zero = true
all_counted (suc n) = (n == 0 || ltb 0 (mask_count n)) && all_counted n

all_counted_sound : (n mask : ℕ) → all_counted n ≡ true → mask < n → mask ≢ 0 → 0 < mask_count mask
unfolding all_counted
all_counted_sound zero mask h lt ne = elim lt [ ]
all_counted_sound (suc n) mask h lt ne = elim (ℕ_discrete mask n) [
  | yes e ↦ ground (arith, ap mask_count e)
  | no other ↦ ground (arith, all_counted_sound n mask)
]

all_masks_counted : all_counted 256 ≡ true
unfolding all_counted mask_count count_from
all_masks_counted = refl

pub mask_count_pos : (mask : ℕ) → mask < 2 ^ max_devices → mask ≢ 0 → 0 < mask_count mask
mask_count_pos mask small ne = all_counted_sound 256 mask all_masks_counted small ne
