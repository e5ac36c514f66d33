-- ===== src/Open/Placed.antt =====
-- What `aetherfs_image_open_pool` promises of a pool that it opens.
use aetherfs.Base.{
  if◌then◌else◌, ℕ, suc, ◌≤◌, ◌<◌, ◌≡◌, ◌∙◌, refl, subst, ap, Bool, not, List, [], ◌∷◌, Option,
  none, some, ok, err, einval, arith, ◌>>◌, fail_if, ◌/=◌, ltb, ◌||◌, length, bind_ok, seq_ok,
  ok_inj, /=→eq, eq→/=, inl, inr, All, Result-cases,
}
use aetherfs.Format.{max_devices}
use aetherfs.Format.Structs.Label.{PoolLabel, pool_label_checksum}
use aetherfs.Image.Device.{Disk}
use aetherfs.Labels.{
  member_read_pool_label, member_read_pool_label_valid, pool_labels_equivalent,
  pool_label_normalize,
}
use aetherfs.Pool.{MemberInfo}
use aetherfs.Volume.{pool_label_validate}
use aetherfs.Open.{
  Source, OpenImage, Slots, member_open_path, open_members, place_member, place_members, all_seen,
  pool_of_members, image_open_pool, no_slots,
}
use aetherfs.Open.Filled.{
  HasMember, IsLabelled, no_slots-IsFilled, place_members-IsFilled, all_seen-at,
}

relabelled : PoolLabel → PoolLabel
relabelled base =
    let draft = record base { pl_member_index = 0 } in
    record draft { pl_checksum = pool_label_checksum draft }

-- The label of an open pool passes the validation of labels.
relabelled_valid :
    (base : PoolLabel)
    → pool_label_validate base ≡ ok tt
    → pool_label_validate (relabelled base) ≡ ok tt
unfolding pool_label_validate relabelled pool_label_checksum
relabelled_valid base h =
    ground (arith, eq→/= (pool_label_checksum (record base { pl_member_index = 0 })))

module _ (D : Disk) where
  open D use {Fd}

  module _ (sources : List (Source Fd)) where
    -- What an open pool is: a valid label for as many members as there are, all of them open, each in the
    -- place that its own label names.
    pub record IsOpenPool (count : ℕ) (o : OpenImage Fd) : Type 0 where
      pub label_valid : pool_label_validate o.image.pool.label ≡ ok tt
      pub members_are : o.image.pool.member_count ≡ count
      pub count_is : o.image.pool.label.pl_member_count ≡ count
      pub blocks_are : o.blocks ≡ o.image.pool.label.pl_logical_blocks
      pub all_open :
          (i : ℕ)
          → i < count
          → HasMember D sources o.image.pool.label o.image.fds o.image.pool.members i

    -- The pool's label differs from the first member's in the index and in the checksum only.
    relabel :
        (base : PoolLabel) (fds : List (Option Fd)) (members : List MemberInfo) (i : ℕ)
        → HasMember D sources base fds members i
        → HasMember D sources (relabelled base) fds members i
    unfolding relabelled pool_labels_equivalent pool_label_normalize
    relabel base fds members i w = record {
      fd = w.fd;
      label = w.label;
      fd_is = w.fd_is;
      opened = w.opened;
      label_read = w.label_read;
      label_names = w.label_names;
      same_pool = w.same_pool;
      index_is = w.index_is;
      blocks_are = w.blocks_are;
    }

    pool_of_members-IsOpenPool :
        (writable : Bool) (count : ℕ) (base : PoolLabel)
        (opened : List (Fd × (MemberInfo × PoolLabel))) (o : OpenImage Fd)
        → count ≤ max_devices
        → All (IsLabelled D sources) opened
        → pool_label_validate base ≡ ok tt
        → pool_of_members D writable count base opened ≡ ok o
        → IsOpenPool count o
    unfolding pool_of_members relabelled aetherfs.Open.image_assign_primary_aliases
    pool_of_members-IsOpenPool writable count base opened o small read valid h =
        let counted = fail_if (base.pl_member_count /= count) einval in
        let (slots, placed, rest) =
          bind_ok (counted >> place_members D base count (no_slots D) opened) _ o h in
        let (equal, placing) =
          seq_ok counted (place_members D base count (no_slots D) opened) slots placed in
        let (seen, is) = seq_ok (all_seen D slots.seen count 0) _ o rest in
        let wf =
          place_members-IsFilled D sources base count (no_slots D) slots opened small read
            (no_slots-IsFilled D sources base) placing in
        subst (IsOpenPool count) (ok_inj is) (record {
          label_valid = relabelled_valid base valid;
          members_are = refl;
          count_is = ground (arith, /=→eq base.pl_member_count count);
          blocks_are = refl;
          all_open = λ i lt. relabel base slots.fds slots.members i (
              wf.filled i
                (all_seen-at D slots.seen count 0 i seen (omega arith) (omega (arith, lt))));
        })

  member_open_path-opened :
      (path : Source Fd) (fd : Fd) (member : MemberInfo)
      → member_open_path path ≡ ok (fd, member)
      → path.opened ≡ ok fd
  unfolding member_open_path
  member_open_path-opened path fd member h =
      let (found, is_open, rest) = bind_ok path.opened _ (fd, member) h in
      let (st, _, sized) = bind_ok path.stat _ (fd, member) rest in
      let whole = fail_if (not (st.is_regular || st.is_block)) einval in
      let (bytes, _, is) =
        bind_ok (whole >> (if st.is_block then path.device_bytes else ok st.st_size)) _ (fd, member)
          sized in
      is_open ∙ ap ok (ap (λ (r : Fd × MemberInfo). r.0) (ok_inj is))

  later :
      (source : Source Fd) (sources : List (Source Fd))
      (opened : List (Fd × (MemberInfo × PoolLabel)))
      → All (IsLabelled D sources) opened
      → All (IsLabelled D (source ∷ sources)) opened
  later source sources [] all = tt
  later source sources ((fd, (member, label)) ∷ opened) (((k, path, at, is_open), read), all) =
      (((suc k, path, at, is_open), read), later source sources opened all)

  open_members-IsLabelled :
      (sources : List (Source Fd)) (opened : List (Fd × (MemberInfo × PoolLabel)))
      → open_members D sources ≡ ok opened
      → All (IsLabelled D sources) opened
  unfolding open_members
  open_members-IsLabelled [] opened h = subst (All (IsLabelled D [])) (ok_inj h) tt
  open_members-IsLabelled (source ∷ sources) opened h =
      elim (Result-cases (member_open_path source)) [
        | inl (e, failed) ↦ absurd (ground arith)
        | inr ((fd, member), is_open) ↦ elim (Result-cases (member_read_pool_label D (some fd))) [
          | inl (e, failed) ↦ absurd (ground arith)
          | inr (none, read) ↦ absurd (ground arith)
          | inr (some label, read) ↦ elim (Result-cases (open_members D sources)) [
            | inl (e, failed) ↦ absurd (ground arith)
            | inr (rest, more) ↦
                let is : (fd, (member, label)) ∷ rest ≡ opened = ground arith in
                subst (All (IsLabelled D (source ∷ sources))) is (
                  ((0, source, refl, member_open_path-opened source fd member is_open), read),
                  later source sources rest (open_members-IsLabelled sources rest more),
                )
          ]
        ]
      ]

  -- A pool of two members or more that opens has a valid label, which says how many members there are.
  -- In the place of each of them is a descriptor that one of the given paths was opened with, and from
  -- which a label is read that names this place and is equivalent to the pool's; the member has the
  -- number of the place, and the size that this label gives it.
  pub image_open_pool-IsOpenPool :
      (first second : Source Fd) (more : List (Source Fd)) (writable : Bool) (o : OpenImage Fd)
      → image_open_pool D (first ∷ second ∷ more) writable ≡ ok o
      → IsOpenPool (first ∷ second ∷ more) (length (first ∷ second ∷ more)) o
  unfolding image_open_pool
  image_open_pool-IsOpenPool first second more writable o h =
      let sources = first ∷ second ∷ more in
      let few = fail_if (ltb max_devices (length sources)) einval in
      let (opened, both, rest) = bind_ok (few >> open_members D sources) _ o h in
      let (bounded, reads) = seq_ok few (open_members D sources) opened both in
      let small : length sources ≤ max_devices = ground arith in under_first opened reads rest small
    where
      under_first :
          (opened : List (Fd × (MemberInfo × PoolLabel)))
          → open_members D (first ∷ second ∷ more) ≡ ok opened
          → elim opened [
            | [] ↦ err einval
            | (fd, (member, base)) ∷ rest ↦
                pool_of_members D writable
                  (length (first ∷ second ∷ more))
                  base
                  ((fd, (member, base)) ∷ rest)
          ]
            ≡ ok o
          → length (first ∷ second ∷ more) ≤ max_devices
          → IsOpenPool (first ∷ second ∷ more) (length (first ∷ second ∷ more)) o
      under_first [] reads h small = absurd (ground arith)
      under_first ((fd, (member, base)) ∷ rest) reads h small =
          pool_of_members-IsOpenPool (first ∷ second ∷ more) writable
            (length (first ∷ second ∷ more)) base ((fd, (member, base)) ∷ rest) o small
            (open_members-IsLabelled (first ∷ second ∷ more) _ reads)
            (member_read_pool_label_valid D (some fd) base
              (open_members-IsLabelled (first ∷ second ∷ more) _ reads).0.1)
            h
