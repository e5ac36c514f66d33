-- ===== src/Tests/Store.antt =====
-- A disk as a store of blocks, for the parameter of the block operations.
use aetherfs.Base.{
  ℕ, ◌+◌, ◌≤◌, ◌≡◌, ◌⊎◌, List, Rc, Result, ok, err, einval, length, replicate, length-replicate,
  arith,
}
use aetherfs.Format.{def_block_size}
use aetherfs.Image.Device.{Disk}
use native.Mathlib.Decide.{ℕ_discrete}

abbrev pub Whole : Type 0
Whole = (x : List ℕ) × (length x ≡ def_block_size)

abbrev pub Store : Type 0
Store = ℕ → Whole

abbrev pub filled : ℕ → Whole
filled v = (replicate def_block_size v, length-replicate def_block_size v)

unfoldable pub store_read : Store → ℕ → Result (List ℕ)
store_read s o = ok (s o).0

unfoldable pub put : Store → ℕ → Whole → Store
put s o w p = elim (ℕ_discrete o p) [ yes _ ↦ w | no _ ↦ s p ]

-- A write of something else than a whole block fails.
unfoldable pub store_write : Store → ℕ → List ℕ → Rc × Store
store_write s o x = elim (ℕ_discrete (length x) def_block_size) [
  | yes e ↦ (ok tt, put s o (x, e))
  | no _ ↦ (err einval, s)
]

pub store_write-read :
    (s : Store) (o : ℕ) (x : List ℕ)
    → (store_write s o x).0 ≡ ok tt
    → store_read (store_write s o x).1 o ≡ ok x
unfolding store_read store_write put
store_write-read s o x done = ground arith

pub store_write-read_ne :
    (s : Store) (o p : ℕ) (x : List ℕ)
    → (o + def_block_size ≤ p) ⊎ (p + def_block_size ≤ o)
    → store_read (store_write s o x).1 p ≡ store_read s p
unfolding store_read store_write put
store_write-read_ne s o p x apart = ground arith

pub length-store_read :
    (s : Store) (o : ℕ) {x : List ℕ} → store_read s o ≡ ok x → length x ≡ def_block_size
unfolding store_read
length-store_read s o {x} e = ground (arith, (s o).1)

abbrev pub store : Disk
store = record {
  Fd = Store;
  pread = store_read;
  pwrite = store_write;
  pwrite-pread = store_write-read;
  pwrite-pread_ne = store_write-read_ne;
  length-pread = length-store_read;
}
