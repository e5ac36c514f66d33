-- ===== src/Labels/Alike.antt =====
-- aetherfsprogs/image.c: when `aetherfs_pool_labels_equivalent` holds.
use aetherfs.Base.{
  ◌≡◌, ◌↔◌, refl, sym, ◌∙◌, ap, subst, true, List, [], ◌∷◌, ◌++◌, All, length, map, drop, suc,
  arith, length-append,
}
use aetherfs.Format.{max_devices}
use aetherfs.Format.Codec.{
  Fits, encode, encode_all, decode-encode, decode_all-encode_all, drop-append, length-encode,
  length-encode_all, sizes,
}
use aetherfs.Format.Structs.Label.{
  PoolMember, PoolLabel, pool_member_widths, pool_member_fields, pool_member_of_fields,
  label_header_widths, label_header_fields, pool_label_bytes, pool_label_of_bytes,
}
use aetherfs.Labels.{pool_label_normalize, pool_labels_equivalent, same_bytes_refl}
use mathlib.Core.List.{append_assoc, append-nil}
use aetherfs.Redundancy.{same_bytes}
use aetherfs.Redundancy.Agree.{same_bytes→eq}

-- Each field of the label is of the width it has on disk, and the table of members is full.
pub record IsLabel (label : PoolLabel) : Type 0 where
  pub header : Fits label_header_widths (label_header_fields label)
  pub members : All (Fits pool_member_widths) (map pool_member_fields label.pl_members)
  pub size : length label.pl_members ≡ max_devices
  pub reserved : Fits (360 ∷ []) (label.pl_reserved ∷ [])

members_back : (ms : List PoolMember) → map pool_member_of_fields (map pool_member_fields ms) ≡ ms
members_back [] = refl
members_back (m ∷ ms) = ap (λ t. m ∷ t) (members_back ms)

length-map_fields : (ms : List PoolMember) → length (map pool_member_fields ms) ≡ length ms
length-map_fields [] = refl
length-map_fields (m ∷ ms) = ap suc (length-map_fields ms)

label_back :
    (label : PoolLabel) → IsLabel label → pool_label_of_bytes (pool_label_bytes label) ≡ label
unfolding pool_label_of_bytes pool_label_bytes sizes
label_back label w =
    let front = encode label_header_widths (label_header_fields label) in
    let rows = map pool_member_fields label.pl_members in
    let table = encode_all pool_member_widths rows in
    let end = encode (360 ∷ []) (label.pl_reserved ∷ []) in
    let count : length rows ≡ max_devices = length-map_fields label.pl_members ∙ w.size in
    let middle : drop 80 (front ++ (table ++ end)) ≡ table ++ end =
      drop-append 80 front (table ++ end)
        (length-encode label_header_widths (label_header_fields label)) in
    let long : length (front ++ table) ≡ 464 = omega (
      arith,
      length-append front table,
      length-encode label_header_widths (label_header_fields label),
      length-encode_all pool_member_widths rows,
      count,
    ) in
    let last : drop 464 (front ++ (table ++ end)) ≡ end ++ [] =
      ap (drop 464) (sym (append_assoc front table end))
      ∙ drop-append 464 (front ++ table) end long
      ∙ sym (append-nil end) in
    rw (
      decode-encode label_header_widths (label_header_fields label) (table ++ end) w.header,
      middle,
      decode_all-encode_all pool_member_widths max_devices rows end count w.members,
      last,
      decode-encode (360 ∷ []) (label.pl_reserved ∷ []) [] w.reserved,
      members_back label.pl_members,
    )

pool_label_normalize-IsLabel :
    (label : PoolLabel) → IsLabel label → IsLabel (pool_label_normalize label)
unfolding pool_label_normalize
pool_label_normalize-IsLabel label w =
    let h = w.header in
    record {
      header =
          (h.0, (h.1.0, (omega arith, (h.1.1.1.0, (h.1.1.1.1.0, (omega arith, h.1.1.1.1.1.1))))));
      members = w.members;
      size = w.size;
      reserved = w.reserved;
    }

-- Labels whose fields have their widths on disk are equivalent exactly if they agree in every field but
-- the checksum and the index of the member.
pub pool_labels_equivalent_iff :
    (a b : PoolLabel)
    → IsLabel a
    → IsLabel b
    → (pool_labels_equivalent a b ≡ true)
      ↔ (record a { pl_checksum = b.pl_checksum; pl_member_index = b.pl_member_index } ≡ b)
unfolding pool_labels_equivalent pool_label_normalize
pool_labels_equivalent_iff a b wa wb =
    let na = pool_label_normalize a in
    let nb = pool_label_normalize b in
    (
      λ h.
          let bytes = same_bytes→eq (pool_label_bytes na) (pool_label_bytes nb) h in
          let labels : na ≡ nb =
            sym (label_back na (pool_label_normalize-IsLabel a wa))
            ∙ ap pool_label_of_bytes bytes
            ∙ label_back nb (pool_label_normalize-IsLabel b wb) in
          ap
            (λ (t : PoolLabel). record t {
              pl_checksum = b.pl_checksum;
              pl_member_index = b.pl_member_index;
            })
            labels,
      λ h.
          let labels : na ≡ nb = ap pool_label_normalize h in
          subst (λ t. same_bytes (pool_label_bytes na) (pool_label_bytes t) ≡ true) labels
            (same_bytes_refl (pool_label_bytes na)),
    )
