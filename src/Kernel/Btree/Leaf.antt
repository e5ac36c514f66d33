-- ===== src/Kernel/Btree/Leaf.antt =====
-- What the operations on the extents of a leaf do to each other.
use aetherfs.Base.{
  ℕ, suc, ◌+◌, ◌≤◌, ◌<◌, ◌≡◌, ◌≢◌, refl, sym, ◌∙◌, ap, subst, Bool, true, false, ◌&&◌, not, List,
  some, Result, ok, err, enoent, arith, length, get_or, ltb, ◌==◌, if◌then◌else◌, u32, Rc, lt→ltb,
  ge→ltb, eq→==, ne→==, eq→/=, gt→leb, ltb→lt,
}
use aetherfs.Kernel.Btree.{
  Key, Node, no_key, btree_def_order, insert_at, remove_at, offset_of_key, btree_is_leaf,
  btree_is_full, btree_find_slot_extent, btree_insert_extent, btree_lookup_extent,
  btree_delete_extent, sealed_key,
}
use aetherfs.Kernel.Btree.Search.{IsSorted, IsSlot, find_slot-IsSlot, IsSlot-unique}
use aetherfs.Kernel.Btree.Arrays.{
  length-insert_at, get-insert_at_below, get-insert_at_here, get-insert_at_above,
  remove_at-insert_at,
}
use aetherfs.Kernel.Btree.Slots.{
  offset_at, insert-IsSorted, same-IsSlot, next-IsSlot, slot_before, slot_after,
}
use native.Mathlib.Decide.{dec_lt, ℕ_discrete}

-- A leaf that can take one more key, its keys in order of their offsets.
pub record HasRoom (node : Node) : Type 0 where
  pub leaf : node.bn_level ≡ 0
  pub room : length node.keys < btree_def_order
  pub sorted : IsSorted offset_of_key node.keys

btree_find_slot_extent-IsSlot :
    (node : Node) (l : ℕ)
    → IsSorted offset_of_key node.keys
    → IsSlot offset_of_key node.keys l (btree_find_slot_extent node l)
unfolding btree_find_slot_extent
btree_find_slot_extent-IsSlot node l s = find_slot-IsSlot offset_of_key node.keys l s

push_some :
    (b : Bool) (x y : Result (ℕ × ℕ)) → (if b then some x else some y) ≡ some (if b then x else y)
push_some true x y = refl
push_some false x y = refl

if_true {ℓ} : {A : Type ℓ} (b : Bool) (x y : A) → b ≡ true → (if b then x else y) ≡ x
if_true true x y h = refl
if_true false x y h = absurd (ground arith)

and_false : (b : Bool) → (b && false) ≡ false
and_false true = refl
and_false false = refl

ltb_step : (a b : ℕ) → ltb (suc a) (b + 1) ≡ ltb a b
ltb_step a b = ground arith

-- Whether the key at a place is the one looked for.
abbrev pub hit : List Key → ℕ → ℕ → ℕ → Bool
hit keys ino l t =
    ltb t (length keys)
    && ((get_or keys t no_key).k_ino == ino && (get_or keys t no_key).k_offset == l)

abbrev value_at : List Key → ℕ → ℕ × ℕ
value_at keys t = ((get_or keys t no_key).k_value, (get_or keys t no_key).k_len)

-- The lookup of a leaf, given where its search ends.
leaf_lookup :
    (n : ℕ) (node : Node) (ino l t : ℕ)
    → node.bn_level ≡ 0
    → btree_find_slot_extent node l ≡ t
    → btree_lookup_extent (suc n) node ino l
      ≡ some (if hit node.keys ino l t then ok (value_at node.keys t) else err enoent)
unfolding btree_lookup_extent btree_is_leaf
leaf_lookup n node ino l t leaf e =
    rw (e, leaf) (push_some (hit node.keys ino l t) (ok (value_at node.keys t)) (err enoent))

-- A key of another offset is not the one looked for.
miss :
    (keys : List Key) (ino l t : ℕ)
    → (t < length keys → offset_at keys t ≢ l)
    → hit keys ino l t ≡ false
miss keys ino l t ne = elim (dec_lt t (length keys)) [
  | no out ↦ rw (ge→ltb t (length keys) (omega arith))
  | yes in_range ↦
      rw (lt→ltb t (length keys) in_range, ne→== (offset_at keys t) l (ne in_range))
        (and_false ((get_or keys t no_key).k_ino == ino))
]

-- The key that an insertion stores.
new_key : Key → Node → ℕ → ℕ → ℕ → ℕ → Key
new_key behind node ino l p b = sealed_key (record {
  k_ino = ino;
  k_offset = l;
  k_value = p;
  k_len = u32 b;
  k_flags = (get_or node.keys (btree_find_slot_extent node l) behind).k_flags;
  k_checksum = (get_or node.keys (btree_find_slot_extent node l) behind).k_checksum;
})

-- The deletion of an extent that the search finds.
delete_hit :
    (node : Node) (ino l s : ℕ)
    → btree_find_slot_extent node l ≡ s
    → s < length node.keys
    → (get_or node.keys s no_key).k_ino ≡ ino
    → (get_or node.keys s no_key).k_offset ≡ l
    → btree_delete_extent node ino l ≡ (ok tt, record node { keys = remove_at node.keys s })
unfolding btree_delete_extent
delete_hit node ino l s e lt f g = rw (e, gt→leb (length node.keys) s lt, f, g, eq→/= ino, eq→/= l)

module _ (crc_node : Node → ℕ) (behind : Key) (node : Node) (ino l p b : ℕ) (h : HasRoom node) where
  abbrev after : Node
  after = (btree_insert_extent crc_node behind node ino l p b).1

  abbrev slot : ℕ
  slot = btree_find_slot_extent node l

  has_room : (btree_is_leaf node && not (btree_is_full node btree_def_order)) ≡ true
  unfolding btree_is_leaf btree_is_full
  has_room = ground (arith, h.leaf, h.room)

  level_after : after.bn_level ≡ 0
  unfolding btree_insert_extent
  level_after = ap (λ (r : Rc × Node). r.1.bn_level) (if_true _ _ _ has_room) ∙ h.leaf

  keys_after : after.keys ≡ insert_at node.keys slot (new_key behind node ino l p b)
  unfolding btree_insert_extent new_key
  keys_after = ap (λ (r : Rc × Node). r.1.keys) (if_true _ _ _ has_room)

  old_slot-IsSlot : IsSlot offset_of_key node.keys (new_key behind node ino l p b).k_offset slot
  unfolding new_key
  old_slot-IsSlot = btree_find_slot_extent-IsSlot node l h.sorted

  after-IsSorted : IsSorted offset_of_key after.keys
  after-IsSorted =
      subst (IsSorted offset_of_key) (sym keys_after)
        (insert-IsSorted node.keys (new_key behind node ino l p b) slot old_slot-IsSlot h.sorted)

  abbrev keys' : List Key
  keys' = insert_at node.keys slot (new_key behind node ino l p b)

  abbrev answer : List Key → ℕ → ℕ → ℕ → Result (ℕ × ℕ)
  answer keys ino' l' t = if hit keys ino' l' t then ok (value_at keys t) else err enoent

  after_lookup :
      (n ino' l' t : ℕ)
      → IsSlot offset_of_key keys' l' t
      → btree_lookup_extent (suc n) after ino' l' ≡ some (answer keys' ino' l' t)
  after_lookup n ino' l' t x =
      leaf_lookup n after ino' l' t level_after (
        IsSlot-unique offset_of_key after.keys l' _ t
          (btree_find_slot_extent-IsSlot after l' after-IsSorted)
          (subst (λ k. IsSlot offset_of_key k l' t) (sym keys_after) x))
      ∙ ap (λ k. some (answer k ino' l' t)) keys_after

  here : get_or keys' slot no_key ≡ new_key behind node ino l p b
  here = get-insert_at_here node.keys slot (new_key behind node ino l p b) old_slot-IsSlot.bound

  offset_here : offset_at keys' slot ≡ l
  unfolding new_key
  offset_here = ap offset_of_key here

  ino_here : (get_or keys' slot no_key).k_ino ≡ ino
  unfolding new_key
  ino_here = ap (λ k. k.k_ino) here

  within : ltb slot (length keys') ≡ true
  within = lt→ltb _ _ (
      omega (
        arith,
        old_slot-IsSlot.bound,
        length-insert_at node.keys slot (new_key behind node ino l p b),
      ))

  slot-IsSlot : IsSlot offset_of_key keys' l slot
  unfolding new_key
  slot-IsSlot =
      same-IsSlot node.keys (new_key behind node ino l p b) slot old_slot-IsSlot slot l
        (omega arith) old_slot-IsSlot (omega arith)

  -- In a leaf with room, an extent that was inserted is found again, be there others at its offset or
  -- not: with the block it was inserted with, and its length as a 32-bit number.
  pub btree_lookup_extent-btree_insert_extent :
      (n : ℕ)
      → btree_lookup_extent (suc n) (btree_insert_extent crc_node behind node ino l p b).1 ino l
        ≡ some (ok (p, u32 b))
  unfolding new_key
  btree_lookup_extent-btree_insert_extent n =
      after_lookup n ino l slot slot-IsSlot
      ∙ ap some (rw (within, here, eq→== ino ino refl, eq→== l l refl))

  -- In a leaf with room, after an insertion at an offset no extent of another inode is found at this
  -- offset, also if one was inserted there before.
  pub btree_insert_extent_hides :
      (n ino' : ℕ)
      → ino ≢ ino'
      → btree_lookup_extent (suc n) (btree_insert_extent crc_node behind node ino l p b).1 ino' l
        ≡ some (err enoent)
  unfolding new_key
  btree_insert_extent_hides n ino' ne =
      after_lookup n ino' l slot slot-IsSlot ∙ ap some (rw (within, here, ne→== ino ino' ne))

  lower :
      (ino' l' t : ℕ)
      → l' < l
      → t ≤ slot
      → IsSlot offset_of_key node.keys l' t
      → answer keys' ino' l' t ≡ answer node.keys ino' l' t
  lower ino' l' t lt le x = elim (ℕ_discrete t slot) [
    | no ne ↦
        let key = new_key behind node ino l p b in
        rw (
          get-insert_at_below node.keys slot t key old_slot-IsSlot.bound (omega arith),
          lt→ltb t (length keys')
              (omega (arith, old_slot-IsSlot.bound, length-insert_at node.keys slot key)),
          lt→ltb t (length node.keys) (omega (arith, old_slot-IsSlot.bound)),
        )
    | yes e ↦ rw (
      miss keys' ino' l' t (λ q. omega (arith, ap (offset_at keys') e, offset_here)),
      miss node.keys ino' l' t (λ q.
          omega (arith, (btree_find_slot_extent-IsSlot node l h.sorted).above t (omega arith) q)),
    )
  ]

  higher : (ino' l' t : ℕ) → slot ≤ t → answer keys' ino' l' (t + 1) ≡ answer node.keys ino' l' t
  higher ino' l' t le =
      let key = new_key behind node ino l p b in
      let e : t + 1 ≡ suc t = omega arith in
      rw (
        e,
        get-insert_at_above node.keys slot t key old_slot-IsSlot.bound le,
        length-insert_at node.keys slot key,
        ltb_step t (length node.keys),
      )

  -- In a leaf with room, an insertion at one offset leaves the lookups at every other as they were.
  pub btree_lookup_extent-btree_insert_extent_ne :
      (n ino' l' : ℕ)
      → l ≢ l'
      → btree_lookup_extent (suc n) (btree_insert_extent crc_node behind node ino l p b).1 ino' l'
        ≡ btree_lookup_extent (suc n) node ino' l'
  unfolding new_key
  btree_lookup_extent-btree_insert_extent_ne n ino' l' ne =
      let t = btree_find_slot_extent node l' in
      let x = btree_find_slot_extent-IsSlot node l' h.sorted in
      let key = new_key behind node ino l p b in
      let old = sym (leaf_lookup n node ino' l' t h.leaf refl) in
      elim (dec_lt l' l) [
        | yes lt ↦
            let le = slot_before node.keys key slot old_slot-IsSlot t l' (omega arith) x in
            after_lookup n ino' l' t
              (same-IsSlot node.keys key slot old_slot-IsSlot t l' (omega arith) x le)
            ∙ ap some (lower ino' l' t lt le x)
            ∙ old
        | no ge ↦
            let le = slot_after node.keys key slot old_slot-IsSlot t l' (omega arith) x in
            after_lookup n ino' l' (t + 1)
              (next-IsSlot node.keys key slot old_slot-IsSlot t l' (omega arith) le x)
            ∙ ap some (higher ino' l' t le)
            ∙ old
      ]

  -- In a leaf with room, a deletion of the extent that was just inserted succeeds and brings back the
  -- keys as they were.
  pub btree_delete_extent-btree_insert_extent :
      btree_delete_extent (btree_insert_extent crc_node behind node ino l p b).1 ino l ≡ (
        ok tt,
        record ((btree_insert_extent crc_node behind node ino l p b).1) { keys = node.keys },
      )
  btree_delete_extent-btree_insert_extent =
      let key = new_key behind node ino l p b in
      delete_hit after ino l slot
        (IsSlot-unique offset_of_key after.keys l _ slot
          (btree_find_slot_extent-IsSlot after l after-IsSorted)
          (subst (λ k. IsSlot offset_of_key k l slot) (sym keys_after) slot-IsSlot))
        (subst (λ k. slot < length k) (sym keys_after) (ltb→lt _ _ within))
        (ap (λ k. (get_or k slot no_key).k_ino) keys_after ∙ ino_here)
        (ap (λ k. (get_or k slot no_key).k_offset) keys_after ∙ offset_here)
      ∙ ap (λ k. (ok tt, record after { keys = k }))
          (ap (λ k. remove_at k slot) keys_after
            ∙ remove_at-insert_at node.keys slot key old_slot-IsSlot.bound)
