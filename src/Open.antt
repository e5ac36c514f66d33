-- ===== src/Open.antt =====
-- aetherfsprogs/image.c: `aetherfs_image_open` and `aetherfs_image_open_pool`, from the paths of the
-- members to an open image.
pub mod Filled
pub mod Placed
pub mod Fresh
use aetherfs.Base.{
  ℕ, zero, suc, ◌+◌, ◌-◌, ◌*◌, ◌/◌, Bool, true, false, ◌||◌, not, List, [], ◌∷◌, Option, none, some,
  Result, ok, err, einval, exdev, Rc, ◌>>=◌, ◌>>◌, fail_if, ◌==◌, ◌/=◌, ltb, leb, if◌then◌else◌,
  length, get_or, set, replicate, u64,
}
use aetherfs.Format.{def_block_size, max_devices}
use aetherfs.Format.Structs.Label.{PoolLabel, pool_label_checksum}
use aetherfs.Image.{Image}
use aetherfs.Image.Device.{Disk, Stat}
use aetherfs.Labels.{member_read_pool_label, pool_labels_equivalent, single_label}
use aetherfs.Pool.{Pool, MemberInfo, no_pool_member, no_member_info, pool_metadata_mask}
use aetherfs.Pool.Mask.{mask_first}

-- What the system answers about a path: `open`, `fstat` and the ioctl for the size of a device.
pub record Source (Fd : Type 0) : Type 0 where
  pub opened : Result Fd
  pub stat : Result Stat
  pub device_bytes : Result ℕ

-- An open image: its members, and what `struct aetherfs_image` keeps of the whole.
pub record OpenImage (Fd : Type 0) : Type 0 where
  pub image : Image Fd
  pub blocks : ℕ
  pub primary : Option Fd
  pub is_block_device : Bool
  pub size_bytes : ℕ

unfoldable pub member_open_path : {Fd : Type 0} → Source Fd → Result (Fd × MemberInfo)
member_open_path path = path.opened >>= λ fd. path.stat >>= λ st.
    fail_if (not (st.is_regular || st.is_block)) einval
    >> (if st.is_block then path.device_bytes else ok st.st_size)
    >>= λ bytes. ok (
      fd,
      record no_member_info {
        is_block_device = st.is_block;
        size_bytes = bytes;
        blocks = bytes / def_block_size;
      },
    )

-- The first member that holds metadata gives the descriptor of the image.
unfoldable pub image_assign_primary_aliases : {Fd : Type 0} → Image Fd → ℕ → OpenImage Fd
image_assign_primary_aliases image blocks =
    let primary : ℕ = elim (mask_first (pool_metadata_mask image.pool)) [ none ↦ 0 | some m ↦ m ] in
    let member = get_or image.pool.members primary no_member_info in
    let single = image.pool.member_count == 1 in
    record {
      image = image;
      blocks = blocks;
      primary = get_or image.fds primary none;
      is_block_device = if single then member.is_block_device else false;
      size_bytes =
          if single
          then member.size_bytes
          else u64 (image.pool.label.pl_logical_blocks * def_block_size);
    }

-- The tables of `AETHERFS_MAX_DEVICES` members, the first of them filled.
abbrev pub one_of {ℓ} : {A : Type ℓ} → A → A → List A
one_of a rest = a ∷ replicate (max_devices - 1) rest

unfoldable pub image_synthesize_single_label : {Fd : Type 0} → Bool → Fd → MemberInfo → OpenImage Fd
image_synthesize_single_label writable fd member =
    let image : Image _ = record {
      pool = record {
        label = single_label member.blocks;
        member_count = 1;
        members = one_of (record member { role_mask = 7 }) no_member_info;
      };
      fds = one_of (some fd) none;
      writable = writable;
    } in
    image_assign_primary_aliases image member.blocks

unfoldable pub image_with_label :
    {Fd : Type 0} → Bool → Fd → MemberInfo → PoolLabel → Result (OpenImage Fd)
image_with_label writable fd member label =
    let first = get_or label.pl_members 0 no_pool_member in
    let image : Image _ = record {
      pool = record {
        label = label;
        member_count = 1;
        members =
            one_of
              (record member { class_mask = first.pm_class_mask; role_mask = first.pm_role_mask })
              no_member_info;
      };
      fds = one_of (some fd) none;
      writable = writable;
    } in
    fail_if (label.pl_member_count /= 1) exdev
    >> ok (image_assign_primary_aliases image label.pl_logical_blocks)

module _ (D : Disk) where
  open D use {Fd}

  unfoldable pub image_open : Source Fd → Bool → Result (OpenImage Fd)
  image_open path writable = member_open_path path >>= λ (fd, member).
      member_read_pool_label D (some fd) >>= λ found. elim found [
        | none ↦ ok (image_synthesize_single_label writable fd member)
        | some label ↦ image_with_label writable fd member label
      ]

  -- The first loop of `aetherfs_image_open_pool`: every member is opened and has to have a label.
  unfoldable pub open_members : List (Source Fd) → Result (List (Fd × (MemberInfo × PoolLabel)))
  open_members [] = ok []
  open_members (path ∷ paths) = member_open_path path >>= λ (fd, member).
      member_read_pool_label D (some fd) >>= λ found. elim found [
        | none ↦ err einval
        | some label ↦ open_members paths >>= λ rest. ok ((fd, (member, label)) ∷ rest)
      ]

  -- The tables that the second loop fills: `seen_indices`, and the members of the image.
  pub record Slots : Type 0 where
    pub seen : List Bool
    pub fds : List (Option Fd)
    pub members : List MemberInfo

  abbrev pub no_slots : Slots
  no_slots = record {
    seen = replicate max_devices false;
    fds = replicate max_devices none;
    members = replicate max_devices no_member_info;
  }

  unfoldable pub place_member : Slots → Fd → MemberInfo → PoolLabel → Slots
  place_member slots fd member label =
      let index = label.pl_member_index in
      let described = get_or label.pl_members index no_pool_member in
      record {
        seen = set slots.seen index true;
        fds = set slots.fds index (some fd);
        members = set slots.members index (record {
          is_block_device = member.is_block_device;
          size_bytes = u64 (described.pm_total_blocks * def_block_size);
          blocks = described.pm_total_blocks;
          class_mask = described.pm_class_mask;
          role_mask = described.pm_role_mask;
          member_index = index;
        });
      }

  -- The second loop: the labels have to be of one pool, and each member comes once.
  unfoldable pub place_members :
      PoolLabel → ℕ → Slots → List (Fd × (MemberInfo × PoolLabel)) → Result Slots
  place_members base count slots [] = ok slots
  place_members base count slots ((fd, (member, label)) ∷ rest) =
      let index = label.pl_member_index in
      fail_if (not (pool_labels_equivalent base label)) einval
      >> fail_if (leb count index || get_or slots.seen index false) einval
      >> place_members base count (place_member slots fd member label) rest

  -- The third loop.
  unfoldable pub all_seen : List Bool → ℕ → ℕ → Rc
  all_seen seen zero index = ok tt
  all_seen seen (suc n) index =
      fail_if (not (get_or seen index false)) einval >> all_seen seen n (index + 1)

  -- The pool of the members that were opened, under the first one's label.
  unfoldable pub pool_of_members :
      Bool → ℕ → PoolLabel → List (Fd × (MemberInfo × PoolLabel)) → Result (OpenImage Fd)
  pool_of_members writable count base opened =
      fail_if (base.pl_member_count /= count) einval
      >> place_members base count no_slots opened
      >>= λ slots.
          let draft = record base { pl_member_index = 0 } in
          let label = record draft { pl_checksum = pool_label_checksum draft } in
          let image : Image Fd = record {
            pool = record { label = label; member_count = count; members = slots.members };
            fds = slots.fds;
            writable = writable;
          } in
          all_seen slots.seen count 0
          >> ok (image_assign_primary_aliases image label.pl_logical_blocks)

  unfoldable pub image_open_pool : List (Source Fd) → Bool → Result (OpenImage Fd)
  image_open_pool [] writable = err einval
  image_open_pool (source ∷ []) writable = image_open source writable
  image_open_pool sources writable =
      fail_if (ltb max_devices (length sources)) einval >> open_members sources >>= λ opened.
      elim opened [
        | [] ↦ err einval
        | (fd, (member, base)) ∷ rest ↦
            pool_of_members writable (length sources) base ((fd, (member, base)) ∷ rest)
      ]
