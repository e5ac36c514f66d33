-- ===== src/Volume/Nodes.antt =====
-- Extent nodes and checksum blocks that are written and read back.
use aetherfs.Base.{
  ℕ, ◌≤◌, ◌<◌, ◌≡◌, refl, sym, ◌∙◌, ap, List, [], ◌∷◌, All, ok, length, map, drop, ◌++◌, eq→/=,
  ge→ltb, suc,
}
use aetherfs.Format.{max_devices, extent_log_max, checksums_per_block}
use aetherfs.Format.Codec.{
  Fits, length-encode, drop-append, decode-encode, decode_all-encode_all, encode, encode_all,
  decode_all,
}
use aetherfs.Format.Structs.Extent.{
  Extent, ExtentNode, extent_fields, extent_widths, extent_of_fields, extent_node_bytes,
  extent_node_of_bytes, extent_node_checksum,
}
use aetherfs.Image.{Image}
use aetherfs.Image.Device.{Disk}
use aetherfs.Image.Physical.{max_block}
use aetherfs.Image.RoundTrip.{image_read_block-image_write_block}
use mathlib.Core.List.{append-nil}
use aetherfs.Volume.{read_extent_node, write_extent_node}

-- Each field of the node is of the width it has on disk, and the array of extents is full.
pub record IsNode (node : ExtentNode) : Type 0 where
  pub header : Fits (8 ∷ 4 ∷ 4 ∷ []) (node.en_next ∷ node.en_count ∷ extent_node_checksum node ∷ [])
  pub extents : All (Fits extent_widths) (map extent_fields node.en_extents)
  pub size : length node.en_extents ≡ extent_log_max
  pub used : node.en_count ≤ extent_log_max

extents_back : (es : List Extent) → map extent_of_fields (map extent_fields es) ≡ es
extents_back [] = refl
extents_back (e ∷ es) = ap (λ t. e ∷ t) (extents_back es)

length-map_fields : (es : List Extent) → length (map extent_fields es) ≡ length es
length-map_fields [] = refl
length-map_fields (e ∷ es) = ap suc (length-map_fields es)

-- A node is read from the bytes that are written of it.
pub node_back :
    (node : ExtentNode)
    → Fits (8 ∷ 4 ∷ 4 ∷ []) (node.en_next ∷ node.en_count ∷ node.en_checksum ∷ [])
    → All (Fits extent_widths) (map extent_fields node.en_extents)
    → length node.en_extents ≡ extent_log_max
    → extent_node_of_bytes (extent_node_bytes node) ≡ node
unfolding extent_node_of_bytes extent_node_bytes aetherfs.Format.Codec.sizes
node_back node h k size =
    let fields = node.en_next ∷ node.en_count ∷ node.en_checksum ∷ [] in
    let body = encode_all extent_widths (map extent_fields node.en_extents) in
    let table : decode_all extent_widths extent_log_max
          (drop 16 (encode (8 ∷ 4 ∷ 4 ∷ []) fields ++ body))
        ≡ map extent_fields node.en_extents =
      ap (decode_all extent_widths extent_log_max) (
        drop-append 16 (encode (8 ∷ 4 ∷ 4 ∷ []) fields) body (length-encode (8 ∷ 4 ∷ 4 ∷ []) fields)
        ∙ sym (append-nil body))
      ∙ decode_all-encode_all extent_widths extent_log_max (map extent_fields node.en_extents) []
          (length-map_fields node.en_extents ∙ size) k in
    rw (decode-encode (8 ∷ 4 ∷ 4 ∷ []) fields body h, table, extents_back node.en_extents)

-- The checksum does not depend on the field that holds it.
seal_checksum :
    (node : ExtentNode) (c : ℕ)
    → extent_node_checksum (record node { en_checksum = c }) ≡ extent_node_checksum node
unfolding extent_node_checksum
seal_checksum node c = refl

module _ (D : Disk) where
  open D use {Fd}

  -- In a pool of at most eight members, an extent node that was written to a block without an error is
  -- read back from that block with its checksum set, and passes the checks of the reader, if its
  -- fields fit their widths, its table is full-size and it uses no more extents than it has.
  pub read_extent_node-write_extent_node :
      (i : Image Fd) (b : ℕ) (node : ExtentNode)
      → i.pool.member_count ≤ max_devices
      → b < max_block
      → IsNode node
      → (write_extent_node D i b node).0.0 ≡ ok tt
      → read_extent_node D (write_extent_node D i b node).0.1 b
        ≡ ok (record node { en_checksum = extent_node_checksum node })
  unfolding read_extent_node write_extent_node
  read_extent_node-write_extent_node i b node small hb wf done =
      let sealed = record node { en_checksum = extent_node_checksum node } in
      let back =
        image_read_block-image_write_block D i b (extent_node_bytes sealed) small hb done in
      let e = node_back sealed wf.header wf.extents wf.size in
      rw (
        back,
        e,
        seal_checksum node (extent_node_checksum node),
        eq→/= (extent_node_checksum node),
        ge→ltb extent_log_max node.en_count wf.used,
      )
