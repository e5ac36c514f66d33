-- ===== src/Kernel/Btree.antt =====
-- kernel/btree.c: the keys of one node of the tree. The code never makes a node that is no leaf.
pub mod Search
pub mod Arrays
pub mod Slots
pub mod Leaf
pub mod Split
use aetherfs.Base.{
  ℕ, zero, suc, ◌+◌, ◌-◌, ◌/◌, Bool, true, false, ◌&&◌, ◌||◌, not, List, [], ◌∷◌, Option, none,
  some, Result, Rc, ok, err, enoent, ltb, leb, ◌==◌, ◌/=◌, if◌then◌else◌, get_or, length, u32,
}
use aetherfs.Kernel.Crc.{kernel_crc32}
use aetherfs.Format.Codec.{encode}

pub record Key : Type 0 where
  pub k_ino : ℕ
  pub k_offset : ℕ
  pub k_value : ℕ
  pub k_len : ℕ
  pub k_flags : ℕ
  pub k_checksum : ℕ

-- `struct aetherfs_btree_node`. `keys` are the `bn_count` keys of `bn_data` in use.
pub record Node : Type 0 where
  pub bn_next : ℕ
  pub bn_level : ℕ
  pub bn_checksum : ℕ
  pub bn_reserved : ℕ
  pub keys : List Key

abbrev pub btree_def_order : ℕ
btree_def_order = 32

abbrev pub no_key : Key
no_key = record { k_ino = 0; k_offset = 0; k_value = 0; k_len = 0; k_flags = 0; k_checksum = 0 }

unfoldable pub btree_is_leaf : Node → Bool
btree_is_leaf node = node.bn_level == 0

unfoldable pub btree_is_full : Node → ℕ → Bool
btree_is_full node order = leb order (length node.keys)

-- The loop of both searches, on the field that they compare, with `n` rounds left.
unfoldable pub find_loop : (Key → ℕ) → List Key → ℕ → ℕ → ℕ → ℕ → ℕ
find_loop field keys target zero low high = low
find_loop field keys target (suc n) low high =
    let mid = (low + high) / 2 in
    let right = find_loop field keys target n (mid + 1) high in
    let left = find_loop field keys target n low mid in
    if ltb low high
    then (if ltb (field (get_or keys mid no_key)) target then right else left)
    else low

unfoldable pub find_slot : (Key → ℕ) → List Key → ℕ → ℕ
find_slot field keys target = find_loop field keys target (length keys) 0 (length keys)

abbrev pub offset_of_key : Key → ℕ
offset_of_key key = key.k_offset

abbrev pub ino_of_key : Key → ℕ
ino_of_key key = key.k_ino

unfoldable pub btree_find_slot_extent : Node → ℕ → ℕ
btree_find_slot_extent node lblock = find_slot offset_of_key node.keys lblock

unfoldable pub btree_find_slot_ino : Node → ℕ → ℕ
btree_find_slot_ino node ino = find_slot ino_of_key node.keys ino

-- `memmove` of the keys from a slot on to the next place, and a store to the slot.
unfoldable pub insert_at : List Key → ℕ → Key → List Key
insert_at [] slot key = key ∷ []
insert_at (k ∷ keys) zero key = key ∷ k ∷ keys
insert_at (k ∷ keys) (suc slot) key = k ∷ insert_at keys slot key

-- `memmove` of the keys after a slot onto it.
unfoldable pub remove_at : List Key → ℕ → List Key
remove_at [] slot = []
remove_at (k ∷ keys) zero = keys
remove_at (k ∷ keys) (suc slot) = k ∷ remove_at keys slot

-- `aetherfs_crc32` of a key but for its last four bytes. The structure is not packed, so these are
-- padding, and the old value of the checksum is among the 36 bytes before them.
unfoldable pub key_checksum : Key → ℕ
key_checksum key = kernel_crc32 (
    encode (8 ∷ 8 ∷ 8 ∷ 4 ∷ 4 ∷ 4 ∷ [])
      (key.k_ino ∷ key.k_offset ∷ key.k_value ∷ key.k_len ∷ key.k_flags ∷ key.k_checksum ∷ []))

abbrev pub sealed_key : Key → Key
sealed_key key = record key { k_checksum = key_checksum key }

-- `behind` is the key that the memory holds behind those in use.
module _ (behind : Key) where
  unfoldable pub btree_insert_metadata : Node → ℕ → ℕ → ℕ → ℕ → Rc × Node
  btree_insert_metadata node ino block size flags =
      let slot = btree_find_slot_ino node ino in
      let old = get_or node.keys slot behind in
      let key = sealed_key (record {
        k_ino = ino;
        k_offset = 0;
        k_value = block;
        k_len = size;
        k_flags = flags;
        k_checksum = old.k_checksum;
      }) in
      if btree_is_leaf node && not (btree_is_full node btree_def_order)
      then (ok tt, record node { keys = insert_at node.keys slot key })
      else (ok tt, node)

-- `crc_node` stands for `btree_checksum_node`, which runs over 4092 bytes of memory from the node on,
-- also past its keys. `behind` is the key that the memory holds behind those in use: an insertion at the
-- end takes the fields over that it does not set, and the old checksum.
module _ (crc_node : Node → ℕ) (behind : Key) where
  unfoldable pub btree_insert_extent : Node → ℕ → ℕ → ℕ → ℕ → Rc × Node
  btree_insert_extent node ino lblock pblock blocks =
      let slot = btree_find_slot_extent node lblock in
      let old = get_or node.keys slot behind in
      let key = sealed_key (record {
        k_ino = ino;
        k_offset = lblock;
        k_value = pblock;
        k_len = u32 blocks;
        k_flags = old.k_flags;
        k_checksum = old.k_checksum;
      }) in
      let filled = record node { keys = insert_at node.keys slot key } in
      if btree_is_leaf node && not (btree_is_full node btree_def_order)
      then (ok tt, record filled { bn_checksum = crc_node filled })
      else (ok tt, node)

-- The loops of the lookups. They never go down, so each round is on the same node; `none` after `n`
-- rounds that have neither found the key nor met a leaf.
unfoldable pub btree_lookup_extent : ℕ → Node → ℕ → ℕ → Option (Result (ℕ × ℕ))
btree_lookup_extent zero node ino lblock = none
btree_lookup_extent (suc n) node ino lblock =
    let slot = btree_find_slot_extent node lblock in
    let key = get_or node.keys slot no_key in
    let again = btree_lookup_extent n node ino lblock in
    if ltb slot (length node.keys) && (key.k_ino == ino && key.k_offset == lblock)
    then some (ok (key.k_value, key.k_len))
    else (if btree_is_leaf node then some (err enoent) else again)

unfoldable pub btree_lookup_metadata : ℕ → Node → ℕ → Option (Result (ℕ × ℕ × ℕ))
btree_lookup_metadata zero node ino = none
btree_lookup_metadata (suc n) node ino =
    let slot = btree_find_slot_ino node ino in
    let key = get_or node.keys slot no_key in
    let again = btree_lookup_metadata n node ino in
    if ltb slot (length node.keys) && key.k_ino == ino
    then some (ok (key.k_value, key.k_len, key.k_flags))
    else (if btree_is_leaf node then some (err enoent) else again)

unfoldable pub btree_delete_extent : Node → ℕ → ℕ → Rc × Node
btree_delete_extent node ino lblock =
    let slot = btree_find_slot_extent node lblock in
    let key = get_or node.keys slot no_key in
    if leb (length node.keys) slot || (key.k_ino /= ino || key.k_offset /= lblock)
    then (err enoent, node)
    else (ok tt, record node { keys = remove_at node.keys slot })
