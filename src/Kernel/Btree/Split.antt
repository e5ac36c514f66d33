-- ===== src/Kernel/Btree/Split.antt =====
-- kernel/btree.c: a new node, and the split of a node. `room` says whether the allocation succeeds.
use aetherfs.Base.{
  ℕ, ◌/◌, Bool, List, [], Result, ok, err, einval, enomem, ◌==◌, if◌then◌else◌, length, take, drop,
}
use aetherfs.Kernel.Btree.{Key, Node}

abbrev empty_node : Node
empty_node = record { bn_next = 0; bn_level = 0; bn_checksum = 0; bn_reserved = 0; keys = [] }

unfoldable pub btree_alloc_node : Bool → Result Node
btree_alloc_node room = if room then ok empty_node else err enomem

unfoldable pub btree_create : Bool → ℕ → Result Node
btree_create room node_size = if node_size == 0 then err einval else btree_alloc_node room

abbrev half_of : Node → List Key → Node
half_of node keys = record empty_node { bn_level = node.bn_level; keys = keys }

unfoldable pub btree_split_node : Bool → Bool → Node → Result (Node × Node)
btree_split_node room_left room_right node =
    let mid = length node.keys / 2 in
    if room_left
    then (if room_right
        then ok (half_of node (take mid node.keys), half_of node (drop mid node.keys))
        else err enomem)
    else err enomem
