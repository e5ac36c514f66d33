-- ===== src/Tests/Labels.antt =====
-- The label of an image of 64 blocks.
use aetherfs.Base.{ℕ, zero, suc, ◌<◌, ◌^◌, ◌≡◌, ◌↔◌, refl, All, map, replicate, ok, true, arith}
use aetherfs.Format.Codec.{Fits}
use aetherfs.Format.Structs.Label.{PoolLabel, pool_member_widths, pool_member_fields}
use aetherfs.Pool.{no_pool_member}
use aetherfs.Volume.{pool_label_validate}
use aetherfs.Labels.{single_label, single_label_valid, pool_labels_equivalent}
use aetherfs.Labels.Alike.{IsLabel, pool_labels_equivalent_iff}

single_label_valid_example : pool_label_validate (single_label 64) ≡ ok tt
single_label_valid_example = single_label_valid 64 (omega arith) (omega arith)

-- The label of such an image with any index and any checksum.
abbrev with_index : ℕ → ℕ → PoolLabel
with_index checksum index = record (single_label 64) {
  pl_checksum = checksum;
  pl_member_index = index;
}

zeros_fit :
    (n : ℕ) → All (Fits pool_member_widths) (map pool_member_fields (replicate n no_pool_member))
zeros_fit zero = tt
zeros_fit (suc n) = (
  (
    omega arith,
    (omega arith, (omega arith, (omega arith, (omega arith, (omega arith, (omega arith, tt)))))),
  ),
  zeros_fit n,
)

with_index-IsLabel :
    (checksum index : ℕ) → checksum < 2 ^ 32 → index < 8 → IsLabel (with_index checksum index)
unfolding single_label
with_index-IsLabel checksum index h k = record {
  header = (
    omega arith,
    (
      omega arith,
      (
        omega arith,
        (
          omega arith,
          (
            omega arith,
            (
              omega arith,
              (
                omega arith,
                (
                  omega arith,
                  (
                    omega arith,
                    (
                      omega arith,
                      (omega arith, (omega arith, (omega arith, (omega arith, (omega arith, tt))))),
                    ),
                  ),
                ),
              ),
            ),
          ),
        ),
      ),
    ),
  );
  members = (
    (
      omega arith,
      (omega arith, (omega arith, (omega arith, (omega arith, (omega arith, (omega arith, tt)))))),
    ),
    zeros_fit 7,
  );
  size = refl;
  reserved = (omega arith, tt);
}

pool_labels_equivalent_iff_example :
    (pool_labels_equivalent (with_index 5 0) (with_index 6 1) ≡ true)
    ↔ (record (with_index 5 0) { pl_checksum = 6; pl_member_index = 1 } ≡ with_index 6 1)
pool_labels_equivalent_iff_example =
    pool_labels_equivalent_iff (with_index 5 0) (with_index 6 1)
      (with_index-IsLabel 5 0 (omega arith) (omega arith))
      (with_index-IsLabel 6 1 (omega arith) (omega arith))
