-- ===== src/Image/Physical.antt =====
-- Reads and writes of one member's blocks.
use aetherfs.Base.{
  ℕ, ◌+◌, ◌^◌, ◌≤◌, ◌<◌, ◌≡◌, ◌≢◌, ◌⊎◌, inl, inr, List, none, some, ok, arith, get_elem?,
  get_elem?-set_self, get_elem?-set_ne, get_elem?-lt, Option-cases,
}
use aetherfs.Format.{def_block_size}
use aetherfs.Image.Device.{Disk}
use aetherfs.Image.{
  Image, offset_of, member_read_block, member_write_block, read_physical_member,
  write_physical_member,
}
use native.Mathlib.Decide.{ℕ_discrete}

-- Blocks whose byte offset is a 64-bit number.
abbrev pub max_block : ℕ
max_block = 2 ^ 52

pub offset_apart :
    (b c : ℕ)
    → b < max_block
    → c < max_block
    → b ≢ c
    → (offset_of b + def_block_size ≤ offset_of c) ⊎ (offset_of c + def_block_size ≤ offset_of b)
offset_apart b c hb hc ne = ground arith

module _ (D : Disk) where
  open D use {Fd, pread, pwrite, pwrite-pread, pwrite-pread_ne}

  -- A write changes descriptors only.
  pub pool-write_physical_member :
      (i : Image Fd) (m b : ℕ) (x : List ℕ)
      → ((write_physical_member D i m b x).1.pool ≡ i.pool)
        × ((write_physical_member D i m b x).1.writable ≡ i.writable)
  unfolding write_physical_member member_write_block
  pool-write_physical_member i m b x = ground arith

  pub read_physical_member-write_physical_member :
      (i : Image Fd) (m b : ℕ) (x : List ℕ)
      → (write_physical_member D i m b x).0 ≡ ok tt
      → read_physical_member D (write_physical_member D i m b x).1 m b ≡ ok x
  unfolding write_physical_member member_write_block read_physical_member member_read_block
  read_physical_member-write_physical_member i m b x h = elim (Option-cases (get_elem? i.fds m)) [
    | inl e ↦ ground arith
    | inr (none, e) ↦ ground arith
    | inr (some fd, e) ↦ ground (
      arith,
      pwrite-pread fd (offset_of b) x,
      get_elem?-set_self i.fds m (some (pwrite fd (offset_of b) x).1) (get_elem?-lt i.fds m e),
    )
  ]

  pub read_physical_member-write_physical_member_ne :
      (i : Image Fd) (m b m' c : ℕ) (x : List ℕ)
      → b < max_block
      → c < max_block
      → (m ≢ m') ⊎ (b ≢ c)
      → read_physical_member D (write_physical_member D i m b x).1 m' c
        ≡ read_physical_member D i m' c
  unfolding write_physical_member member_write_block read_physical_member member_read_block
  read_physical_member-write_physical_member_ne i m b m' c x hb hc apart =
      elim (Option-cases (get_elem? i.fds m)) [
        | inl e ↦ ground arith
        | inr (none, e) ↦ ground arith
        | inr (some fd, e) ↦ elim (ℕ_discrete m m') [
          | yes same ↦ ground (
            arith,
            pwrite-pread_ne fd (offset_of b) (offset_of c) x,
            offset_apart b c hb hc,
            get_elem?-set_self i.fds m (some (pwrite fd (offset_of b) x).1)
                (get_elem?-lt i.fds m e),
          )
          | no other ↦
              ground (arith, get_elem?-set_ne i.fds m m' (some (pwrite fd (offset_of b) x).1) other)
        ]
      ]
