-- ===== src/Tests/Trees.antt =====
-- A leaf of one extent.
use aetherfs.Base.{ℕ, ◌*◌, ◌≡◌, refl, List, [], ◌∷◌, some, ok, err, enoent, arith, u32}
use aetherfs.Kernel.Crc.{kernel_crc32, kernel_crc32_collides}
use aetherfs.Kernel.Btree.{
  Key, Node, no_key, offset_of_key, btree_insert_extent, btree_lookup_extent, btree_delete_extent,
  find_slot,
}
use aetherfs.Kernel.Btree.Search.{IsSorted, IsSlot, find_slot-IsSlot}
use aetherfs.Kernel.Btree.Leaf.{
  HasRoom, btree_lookup_extent-btree_insert_extent, btree_insert_extent_hides,
  btree_lookup_extent-btree_insert_extent_ne, btree_delete_extent-btree_insert_extent,
}

abbrev one_key : List Key
one_key = record no_key { k_ino = 16; k_offset = 3; k_value = 100; k_len = 2 } ∷ []

abbrev node_at : ℕ → Node
node_at level = record {
  bn_next = 0;
  bn_level = level;
  bn_checksum = 0;
  bn_reserved = 0;
  keys = one_key;
}

-- In place of the checksum of a node's memory.
abbrev no_sum : Node → ℕ
no_sum node = 0

-- What an earlier deletion left behind the keys.
abbrev left_over : Key
left_over = record no_key { k_offset = 9; k_flags = 1; k_checksum = 77 }

one_key-IsSorted : IsSorted offset_of_key one_key
one_key-IsSorted = record {
  step = λ i j le lt.
      let e : i ≡ 0 = omega arith in let f : j ≡ 0 = omega arith in rw (e, f) (omega arith);
}

leaf-HasRoom : HasRoom (node_at 0)
leaf-HasRoom = record { leaf = refl; room = omega arith; sorted = one_key-IsSorted }

find_slot-IsSlot_example : IsSlot offset_of_key one_key 5 (find_slot offset_of_key one_key 5)
find_slot-IsSlot_example = find_slot-IsSlot offset_of_key one_key 5 one_key-IsSorted

btree_lookup_extent-btree_insert_extent_example :
    btree_lookup_extent 1 (btree_insert_extent no_sum left_over (node_at 0) 17 3 200 4).1 17 3
    ≡ some (ok (200, u32 4))
btree_lookup_extent-btree_insert_extent_example =
    btree_lookup_extent-btree_insert_extent no_sum left_over (node_at 0) 17 3 200 4 leaf-HasRoom 0

btree_insert_extent_hides_example :
    btree_lookup_extent 1 (btree_insert_extent no_sum left_over (node_at 0) 17 3 200 4).1 16 3
    ≡ some (err enoent)
btree_insert_extent_hides_example =
    btree_insert_extent_hides no_sum left_over (node_at 0) 17 3 200 4 leaf-HasRoom 0 16
      (omega arith)

btree_lookup_extent-btree_insert_extent_ne_example :
    btree_lookup_extent 1 (btree_insert_extent no_sum left_over (node_at 0) 17 7 200 4).1 16 3
    ≡ btree_lookup_extent 1 (node_at 0) 16 3
btree_lookup_extent-btree_insert_extent_ne_example =
    btree_lookup_extent-btree_insert_extent_ne no_sum left_over (node_at 0) 17 7 200 4 leaf-HasRoom
      0 16 3 (omega arith)

btree_delete_extent-btree_insert_extent_example :
    btree_delete_extent (btree_insert_extent no_sum left_over (node_at 0) 17 7 200 4).1 17 7 ≡ (
      ok tt,
      record ((btree_insert_extent no_sum left_over (node_at 0) 17 7 200 4).1) { keys = one_key },
    )
btree_delete_extent-btree_insert_extent_example =
    btree_delete_extent-btree_insert_extent no_sum left_over (node_at 0) 17 7 200 4 leaf-HasRoom

kernel_crc32_collides_example :
    kernel_crc32 (9 ∷ 2 * 5 ∷ 5 ∷ 1 ∷ []) ≡ kernel_crc32 (9 ∷ 0 ∷ 0 ∷ 1 ∷ [])
kernel_crc32_collides_example = kernel_crc32_collides (9 ∷ []) (1 ∷ []) 5
