-- ===== src/Scrub/Coverage.antt =====
-- aetherfsprogs/image.c: the interval lists of `aetherfs_image_validate`, and the test that the free
-- and the used intervals make up the data region.
use aetherfs.Base.{
  ℕ, zero, suc, ◌+◌, Bool, ◌||◌, ◌&&◌, not, List, [], ◌∷◌, ◌++◌, Result, Rc, ok, einval, ◌>>◌,
  fail_if, ◌==◌, ◌/=◌, ltb, if◌then◌else◌, get_or, u64,
}
use aetherfs.Format.{data_start_block, extent_log_max}
use aetherfs.Format.Structs.Extent.{Extent, ExtentNode}
use aetherfs.Mkfs.{no_extent}
use aetherfs.Redundancy.{Interval}

abbrev pub interval : ℕ → ℕ → Interval
interval start len = record { start = start; len = len }

unfoldable pub interval_list_append : List Interval → ℕ → ℕ → List Interval
interval_list_append list start len = if len == 0 then list else list ++ interval start len ∷ []

-- `aetherfs_interval_compare(l, r) <= 0`.
unfoldable pub interval_leb : Interval → Interval → Bool
interval_leb l r = ltb l.start r.start || (l.start == r.start && not (ltb r.len l.len))

-- What `qsort` with that comparison makes of the list: the order is total, and equal intervals are
-- the same, so there is one sorted list.
unfoldable pub insert : Interval → List Interval → List Interval
insert x [] = x ∷ []
insert x (y ∷ ys) = let rest = insert x ys in if interval_leb x y then x ∷ y ∷ ys else y ∷ rest

unfoldable pub sort : List Interval → List Interval
sort [] = []
sort (x ∷ xs) = insert x (sort xs)

-- The loop over the free extents.
unfoldable pub free_intervals :
    List Extent → ℕ → ℕ → ℕ → ℕ → List Interval → ℕ → Result (List Interval × ℕ)
free_intervals extents blocks zero index last_end coverage free_blocks = ok (coverage, free_blocks)
free_intervals extents blocks (suc n) index last_end coverage free_blocks =
    let extent = get_or extents index no_extent in
    let start = extent.e_pstart in
    let len = extent.e_len in
    fail_if (len == 0 || (ltb start last_end || ltb blocks (u64 (start + len)))) einval
    >> free_intervals extents blocks n (index + 1) (u64 (start + len))
        (interval_list_append coverage start len) (u64 (free_blocks + len))

unfoldable pub validate_free : ExtentNode → ℕ → Result (List Interval × ℕ)
validate_free free_extents blocks =
    fail_if (free_extents.en_next /= 0 || ltb extent_log_max free_extents.en_count) einval
    >> free_intervals free_extents.en_extents blocks free_extents.en_count 0 data_start_block [] 0

-- The used intervals past the bootstrap blocks join the free ones.
unfoldable pub add_used : List Interval → List Interval → List Interval
add_used coverage [] = coverage
add_used coverage (item ∷ used) =
    if ltb item.start data_start_block
    then add_used coverage used
    else add_used (interval_list_append coverage item.start item.len) used

unfoldable pub contiguous : ℕ → ℕ → List Interval → Rc
contiguous blocks cursor [] = fail_if (cursor /= blocks) einval
contiguous blocks cursor (item ∷ items) =
    fail_if (item.start /= cursor) einval >> contiguous blocks (u64 (item.start + item.len)) items

-- The test that the intervals cover the data region without a gap and without an overlap.
unfoldable pub check_coverage : ℕ → List Interval → List Interval → Rc
check_coverage blocks free used =
    contiguous blocks data_start_block (sort (add_used free (sort used)))
