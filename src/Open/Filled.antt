-- ===== src/Open/Filled.antt =====
-- The tables that `aetherfs_image_open_pool` fills, one member after the other.
use aetherfs.Base.{
  ℕ, zero, suc, ◌+◌, ◌≤◌, ◌<◌, ◌≡◌, ◌∙◌, refl, sym, subst, ap, Bool, true, false, not, List, [],
  ◌∷◌, Option, none, some, ok, einval, arith, ◌>>◌, fail_if, leb, ◌||◌, length, get_or, get_elem?,
  seq_ok, ok_inj, length-set, length-replicate, get_elem?-set_self, get_elem?-set_ne,
  get_or-set_self, get_or-set_ne, get_or-replicate, All,
}
use aetherfs.Format.{max_devices}
use aetherfs.Format.Structs.Label.{PoolLabel}
use aetherfs.Image.Device.{Disk}
use aetherfs.Labels.{member_read_pool_label, pool_labels_equivalent}
use aetherfs.Pool.{MemberInfo, no_member_info, no_pool_member}
use aetherfs.Open.{Source, Slots, place_member, place_members, all_seen, no_slots}
use native.Mathlib.Decide.{ℕ_discrete}

module _ (D : Disk) where
  open D use {Fd}

  -- The descriptor that one of the paths was opened with.
  abbrev pub IsOpened : List (Source Fd) → Fd → Type 0
  IsOpened sources fd =
      (k : ℕ) × (path : Source Fd) × (get_elem? sources k ≡ some path) × (path.opened ≡ ok fd)

  pub all_seen-at :
      (seen : List Bool) (n index i : ℕ)
      → all_seen D seen n index ≡ ok tt
      → index ≤ i
      → i < index + n
      → get_or seen i false ≡ true
  unfolding all_seen
  all_seen-at seen zero index i h lo hi = absurd (omega arith)
  all_seen-at seen (suc n) index i h lo hi =
      let (here, later) =
        seq_ok (fail_if (not (get_or seen index false)) einval) (all_seen D seen n (index + 1)) tt
          h in
      elim (ℕ_discrete index i) [
        | yes same ↦ subst (λ j. get_or seen j false ≡ true) same (ground arith)
        | no apart ↦ all_seen-at seen n (index + 1) i later (omega arith) (omega arith)
      ]

  module _ (sources : List (Source Fd)) where
    -- The descriptor in the pair was opened at one of the paths, and the label beside it is the one that
    -- is read from it.
    abbrev pub IsLabelled : Fd × (MemberInfo × PoolLabel) → Type 0
    IsLabelled (fd, (member, label)) =
        IsOpened sources fd × (member_read_pool_label D (some fd) ≡ ok (some label))

    -- The descriptor in the place of a member: its own label is of the pool with the label `base`, and
    -- names this place. What is known of the member says which it is, and has the size that the label
    -- gives.
    pub record HasMember (base : PoolLabel) (fds : List (Option Fd)) (members : List MemberInfo)
        (i : ℕ) : Type 0 where
      pub fd : Fd
      pub label : PoolLabel
      pub opened : IsOpened sources fd
      pub fd_is : get_elem? fds i ≡ some (some fd)
      pub label_read : member_read_pool_label D (some fd) ≡ ok (some label)
      pub label_names : label.pl_member_index ≡ i
      pub same_pool : pool_labels_equivalent base label ≡ true
      pub index_is : (get_or members i no_member_info).member_index ≡ i
      pub blocks_are :
          (get_or members i no_member_info).blocks
          ≡ (get_or label.pl_members i no_pool_member).pm_total_blocks

    -- The tables are of their sizes, and every index that was seen has its member.
    pub record IsFilled (base : PoolLabel) (slots : Slots D) : Type 0 where
      pub seen_size : length slots.seen ≡ max_devices
      pub fds_size : length slots.fds ≡ max_devices
      pub members_size : length slots.members ≡ max_devices
      pub filled :
          (i : ℕ) → get_or slots.seen i false ≡ true → HasMember base slots.fds slots.members i

    -- The member that was placed last.
    placed :
        (base : PoolLabel) (slots : Slots D) (fd : Fd) (member : MemberInfo) (label : PoolLabel)
        → label.pl_member_index < max_devices
        → IsLabelled (fd, (member, label))
        → pool_labels_equivalent base label ≡ true
        → IsFilled base slots
        → HasMember base
            (place_member D slots fd member label).fds
            (place_member D slots fd member label).members
            label.pl_member_index
    unfolding place_member
    placed base slots fd member label h read same wf =
        let index = label.pl_member_index in
        let info =
          get_or-set_self slots.members index _ no_member_info (omega (arith, wf.members_size)) in
        record {
          fd = fd;
          label = label;
          fd_is = get_elem?-set_self slots.fds index (some fd) (omega (arith, wf.fds_size));
          opened = read.0;
          label_read = read.1;
          label_names = refl;
          same_pool = same;
          index_is = ap (λ m. m.member_index) info;
          blocks_are = ap (λ m. m.blocks) info;
        }

    place_member-IsFilled :
        (base : PoolLabel) (slots : Slots D) (fd : Fd) (member : MemberInfo) (label : PoolLabel)
        → label.pl_member_index < max_devices
        → IsLabelled (fd, (member, label))
        → pool_labels_equivalent base label ≡ true
        → IsFilled base slots
        → IsFilled base (place_member D slots fd member label)
    unfolding place_member
    place_member-IsFilled base slots fd member label h read same wf =
        let index = label.pl_member_index in
        let next = place_member D slots fd member label in
        record {
          seen_size = length-set slots.seen index true ∙ wf.seen_size;
          fds_size = length-set slots.fds index (some fd) ∙ wf.fds_size;
          members_size = length-set slots.members index _ ∙ wf.members_size;
          filled = λ i was. elim (ℕ_discrete index i) [
            | yes here ↦
                subst (HasMember base next.fds next.members) here
                  (placed base slots fd member label h read same wf)
            | no apart ↦
                let old =
                  wf.filled i (sym (get_or-set_ne slots.seen index i true false apart) ∙ was) in
                let info = get_or-set_ne slots.members index i _ no_member_info apart in
                record {
                  fd = old.fd;
                  label = old.label;
                  fd_is = get_elem?-set_ne slots.fds index i (some fd) apart ∙ old.fd_is;
                  opened = old.opened;
                  label_read = old.label_read;
                  label_names = old.label_names;
                  same_pool = old.same_pool;
                  index_is = ap (λ m. m.member_index) info ∙ old.index_is;
                  blocks_are = ap (λ m. m.blocks) info ∙ old.blocks_are;
                }
          ];
        }

    pub no_slots-IsFilled : (base : PoolLabel) → IsFilled base (no_slots D)
    no_slots-IsFilled base = record {
      seen_size = length-replicate max_devices false;
      fds_size = length-replicate {A = Option Fd} max_devices none;
      members_size = length-replicate max_devices no_member_info;
      filled = λ i was. absurd (ground (arith, get_or-replicate max_devices i false));
    }

    pub place_members-IsFilled :
        (base : PoolLabel) (count : ℕ) (slots end : Slots D)
        (opened : List (Fd × (MemberInfo × PoolLabel)))
        → count ≤ max_devices
        → All IsLabelled opened
        → IsFilled base slots
        → place_members D base count slots opened ≡ ok end
        → IsFilled base end
    unfolding place_members
    place_members-IsFilled base count slots end [] small read wf h =
        subst (IsFilled base) (ok_inj h) wf
    place_members-IsFilled base count slots end ((fd, (member, label)) ∷ rest) small read wf h =
        let index = label.pl_member_index in
        let alike = fail_if (not (pool_labels_equivalent base label)) einval in
        let fresh = fail_if (leb count index || get_or slots.seen index false) einval in
        let (checks, tail) =
          seq_ok (alike >> fresh)
            (place_members D base count (place_member D slots fd member label) rest) end h in
        let (equal, in_range) = seq_ok alike fresh tt checks in
        let lt : index < max_devices = ground arith in
        let same : pool_labels_equivalent base label ≡ true = ground arith in
        place_members-IsFilled base count (place_member D slots fd member label) end rest small
          read.1 (place_member-IsFilled base slots fd member label lt read.0 same wf) tail
