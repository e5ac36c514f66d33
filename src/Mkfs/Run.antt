-- ===== src/Mkfs/Run.antt =====
-- `aetherfs_run_mkfs` as a whole.
use aetherfs.Base.{
  ℕ, ◌<◌, ◌≡◌, ◌∙◌, subst, ap, true, false, List, ok, err, einval, eexist, arith, inl, inr,
  Result-cases, some, replicate, ◌>>◌, ◌/=◌,
}
use aetherfs.Format.{pool_label_block, def_block_size, magic, superblock_block, bootstrap_blocks}
use aetherfs.Format.Crc.{AreBytes}
use aetherfs.Format.Structs.Super.{super_of_bytes}
use aetherfs.Image.{offset_of}
use aetherfs.Image.Device.{Disk, Stat}
use aetherfs.Mkfs.{
  MkfsOptions, System, fill_uuid, bootstrap_writes, zero_blocks, write_blocks, write_bootstrap,
}
use aetherfs.Mkfs.Target.{Target, prepare_target, probe_magic, probed}
use aetherfs.Mkfs.Check.{run_mkfs, validate_bootstrap}
use aetherfs.Mkfs.Seals.{fill_uuid-lt}
use aetherfs.Mkfs.Valid.{
  IsFormat, super_valid, root_inode_valid, root_dir_valid, journal_valid, bitmap_valid,
  free_extents_valid, free_extents_empty, checkpoint_root_valid,
}
use aetherfs.Mkfs.Writes.{Avoids, AreDistinct, Holds, pread-write_blocks_ne, write_blocks-Holds}

distinct_writes :
    (system : System) (options : MkfsOptions) (blocks : ℕ) (uuid : List ℕ)
    → AreDistinct (bootstrap_writes system options blocks uuid)
unfolding bootstrap_writes
distinct_writes system options blocks uuid = (
  omega arith,
  (
    (
      omega arith,
      (
        omega arith,
        (
          omega arith,
          (
            omega arith,
            (
              omega arith,
              (
                omega arith,
                (
                  omega arith,
                  (omega arith, (omega arith, (omega arith, (omega arith, (omega arith, tt))))),
                ),
              ),
            ),
          ),
        ),
      ),
    ),
    (
      omega arith,
      (
        (
          omega arith,
          (
            omega arith,
            (
              omega arith,
              (
                omega arith,
                (
                  omega arith,
                  (omega arith, (omega arith, (omega arith, (omega arith, (omega arith, tt))))),
                ),
              ),
            ),
          ),
        ),
        (
          omega arith,
          (
            (
              omega arith,
              (
                omega arith,
                (
                  omega arith,
                  (omega arith, (omega arith, (omega arith, (omega arith, (omega arith, tt))))),
                ),
              ),
            ),
            (
              omega arith,
              (
                (
                  omega arith,
                  (omega arith, (omega arith, (omega arith, (omega arith, (omega arith, tt))))),
                ),
                (
                  omega arith,
                  (
                    (omega arith, (omega arith, (omega arith, (omega arith, tt)))),
                    (omega arith, ((omega arith, (omega arith, tt)), (omega arith, (tt, tt)))),
                  ),
                ),
              ),
            ),
          ),
        ),
      ),
    ),
  ),
)

label_avoided :
    (system : System) (options : MkfsOptions) (blocks : ℕ) (uuid : List ℕ)
    → Avoids pool_label_block (bootstrap_writes system options blocks uuid)
unfolding bootstrap_writes
label_avoided system options blocks uuid = (
  omega arith,
  (
    omega arith,
    (
      omega arith,
      (
        omega arith,
        (
          omega arith,
          (
            omega arith,
            (
              omega arith,
              (
                omega arith,
                (
                  omega arith,
                  (omega arith, (omega arith, (omega arith, (omega arith, (omega arith, tt))))),
                ),
              ),
            ),
          ),
        ),
      ),
    ),
  ),
)

distinct_zeros : AreDistinct (zero_blocks bootstrap_blocks 0)
unfolding zero_blocks
distinct_zeros = (
  omega arith,
  (
    (
      omega arith,
      (
        omega arith,
        (
          omega arith,
          (
            omega arith,
            (
              omega arith,
              (
                omega arith,
                (
                  omega arith,
                  (
                    omega arith,
                    (
                      omega arith,
                      (omega arith, (omega arith, (omega arith, (omega arith, (omega arith, tt))))),
                    ),
                  ),
                ),
              ),
            ),
          ),
        ),
      ),
    ),
    (
      omega arith,
      (
        (
          omega arith,
          (
            omega arith,
            (
              omega arith,
              (
                omega arith,
                (
                  omega arith,
                  (
                    omega arith,
                    (
                      omega arith,
                      (omega arith, (omega arith, (omega arith, (omega arith, (omega arith, tt))))),
                    ),
                  ),
                ),
              ),
            ),
          ),
        ),
        (
          omega arith,
          (
            (
              omega arith,
              (
                omega arith,
                (
                  omega arith,
                  (
                    omega arith,
                    (
                      omega arith,
                      (omega arith, (omega arith, (omega arith, (omega arith, (omega arith, tt))))),
                    ),
                  ),
                ),
              ),
            ),
            (
              omega arith,
              (
                (
                  omega arith,
                  (
                    omega arith,
                    (
                      omega arith,
                      (omega arith, (omega arith, (omega arith, (omega arith, (omega arith, tt))))),
                    ),
                  ),
                ),
                (
                  omega arith,
                  (
                    (
                      omega arith,
                      (omega arith, (omega arith, (omega arith, (omega arith, (omega arith, tt))))),
                    ),
                    (
                      omega arith,
                      (
                        (omega arith, (omega arith, (omega arith, (omega arith, tt)))),
                        (omega arith, ((omega arith, (omega arith, tt)), (omega arith, (tt, tt)))),
                      ),
                    ),
                  ),
                ),
              ),
            ),
          ),
        ),
      ),
    ),
  ),
)

module _ (D : Disk) where
  open D use {Fd, pread}

  -- How a bootstrap that was written came about.
  pub record IsWritten (system : System) (options : MkfsOptions) (blocks : ℕ) (fd : Fd)
      : Type 0 where
    pub random : List ℕ
    pub uuid : List ℕ
    pub random_is : system.random ≡ ok random
    pub uuid_is : fill_uuid (ok random) ≡ ok uuid
    pub no_label :
        pread (write_bootstrap D system options blocks fd).1 (offset_of pool_label_block)
        ≡ ok (replicate def_block_size 0)
    pub held :
        Holds D
          (write_bootstrap D system options blocks fd).1
          (bootstrap_writes system options blocks uuid)

  pub write_bootstrap-IsWritten :
      (system : System) (options : MkfsOptions) (blocks : ℕ) (fd : Fd)
      → (write_bootstrap D system options blocks fd).0 ≡ ok tt
      → IsWritten system options blocks fd
  unfolding write_bootstrap fill_uuid zero_blocks
  write_bootstrap-IsWritten system options blocks fd done =
      let cleared = write_blocks D fd (zero_blocks bootstrap_blocks 0) in
      elim (Result-cases cleared.0) [
        | inl (e, failed) ↦ absurd (ground arith)
        | inr (t, zeroed) ↦ elim (Result-cases system.random) [
          | inl (e, failed) ↦ absurd (ground arith)
          | inr (random, r) ↦ elim (Result-cases (fill_uuid (ok random))) [
            | inl (e, failed) ↦ absurd (ground arith)
            | inr (uuid, u) ↦
                let w = write_blocks D cleared.1 (bootstrap_writes system options blocks uuid) in
                elim (Result-cases w.0) [
                  | inl (e, failed) ↦ absurd (ground arith)
                  | inr (t', written) ↦
                      let here : w.1 ≡ (write_bootstrap D system options blocks fd).1 =
                        ground arith in
                      let holds =
                        write_blocks-Holds D cleared.1 _
                          (distinct_writes system options blocks uuid) written in
                      let held : Holds D (write_bootstrap D system options blocks fd).1
                          (bootstrap_writes system options blocks uuid) =
                        subst (λ f. Holds D f (bootstrap_writes system options blocks uuid)) here
                          holds in
                      let blank =
                        (write_blocks-Holds D fd (zero_blocks bootstrap_blocks 0) distinct_zeros
                          zeroed).0 in
                      let kept =
                        pread-write_blocks_ne D cleared.1
                          (bootstrap_writes system options blocks uuid) pool_label_block
                          (omega arith) (label_avoided system options blocks uuid) in
                      let no_label : pread (write_bootstrap D system options blocks fd).1
                            (offset_of pool_label_block)
                          ≡ ok (replicate def_block_size 0) =
                        subst
                          (λ f.
                            pread f (offset_of pool_label_block) ≡ ok (replicate def_block_size 0))
                          here (kept ∙ blank) in
                      record {
                        random = random;
                        no_label = no_label;
                        uuid = uuid;
                        random_is = r;
                        uuid_is = u;
                        held = held;
                      }
                ]
          ]
        ]
      ]

  pub validate_bootstrap_written :
      (system : System) (beyond : List ℕ) (options : MkfsOptions) (blocks : ℕ) (fd : Fd)
      → IsFormat options blocks
      → bootstrap_blocks < blocks
      → ((random : List ℕ) → system.random ≡ ok random → AreBytes random)
      → (write_bootstrap D system options blocks fd).0 ≡ ok tt
      → validate_bootstrap D beyond blocks (write_bootstrap D system options blocks fd).1 ≡ ok tt
  unfolding validate_bootstrap bootstrap_writes
  validate_bootstrap_written system beyond options blocks fd form room bytes done =
      let w = write_bootstrap-IsWritten system options blocks fd done in
      let h = w.held in
      let u = fill_uuid-lt w.random w.uuid (bytes w.random w.random_is) w.uuid_is in
      rw (
        h.0,
        super_valid options blocks w.uuid form u,
        h.1.0,
        root_inode_valid system,
        h.1.1.0,
        root_dir_valid beyond,
        h.1.1.1.0,
        journal_valid,
        h.1.1.1.1.0,
        bitmap_valid,
        h.1.1.1.1.1.0,
        free_extents_valid blocks room form.blocks_fit,
        h.1.1.1.1.1.1.0,
        checkpoint_root_valid options blocks w.uuid form.blocks_fit,
      )

  -- `aetherfs_run_mkfs` once the target is prepared.
  run_prepared :
      (system : System) (target : Target Fd) (beyond : List ℕ) (options : MkfsOptions) (blocks : ℕ)
      (fd fd1 : Fd)
      → options.block_size ≡ def_block_size
      → target.opened ≡ ok fd
      → prepare_target D target options fd ≡ (ok blocks, fd1)
      → (run_mkfs D system target beyond options).0 ≡ (
          (write_bootstrap D system options blocks fd1).0
          >> validate_bootstrap D beyond blocks (write_bootstrap D system options blocks fd1).1)
  unfolding run_mkfs
  run_prepared system target beyond options blocks fd fd1 size opened prepared =
      let supported : options.block_size /= def_block_size ≡ false = ground arith in
      let chosen : (prepare_target D target options fd).0 ≡ ok blocks = ap (λ r. r.0) prepared in
      let left : (prepare_target D target options fd).1 ≡ fd1 = ap (λ r. r.1) prepared in
      rw (supported, opened, chosen, left)

  -- Where the options are of supported values, the target leaves room for a data block and the random
  -- bytes are bytes, mkfs returns what writing the bootstrap blocks returns: the validations that
  -- follow a complete write never fail.
  pub run_mkfs_result :
      (system : System) (target : Target Fd) (beyond : List ℕ) (options : MkfsOptions) (blocks : ℕ)
      (fd fd1 : Fd)
      → IsFormat options blocks
      → bootstrap_blocks < blocks
      → ((random : List ℕ) → system.random ≡ ok random → AreBytes random)
      → target.opened ≡ ok fd
      → prepare_target D target options fd ≡ (ok blocks, fd1)
      → (run_mkfs D system target beyond options).0
        ≡ (write_bootstrap D system options blocks fd1).0
  run_mkfs_result system target beyond options blocks fd fd1 form room bytes opened prepared =
      let valid = validate_bootstrap_written system beyond options blocks fd1 form room bytes in
      run_prepared system target beyond options blocks fd fd1 form.whole_blocks opened prepared
      ∙ elim (Result-cases (write_bootstrap D system options blocks fd1).0) [
        | inl (e, failed) ↦ rw failed
        | inr (_, done) ↦ rw (done, valid done)
      ]

  -- mkfs refuses a file that holds an image unless it is told to overwrite it, and leaves it as it was.
  pub run_mkfs_keeps_image :
      (system : System) (target : Target Fd) (beyond : List ℕ) (options : MkfsOptions) (fd : Fd)
      (st : Stat) (block : List ℕ)
      → options.block_size ≡ def_block_size
      → options.force ≡ false
      → target.opened ≡ ok fd
      → target.stat ≡ ok st
      → st.is_regular ≡ true
      → target.exists ≡ true
      → pread fd (offset_of superblock_block) ≡ ok block
      → (super_of_bytes block).s_magic ≡ magic
      → run_mkfs D system target beyond options ≡ (err eexist, some fd)
  unfolding run_mkfs prepare_target probe_magic probed
  run_mkfs_keeps_image system target beyond options fd st block size force opened stat regular
        exists read is =
      let supported : options.block_size /= def_block_size ≡ false = ground arith in
      let found : probe_magic D fd ≡ ok true = rw (read, is) in
      let refused : prepare_target D target options fd ≡ (err eexist, fd) =
        rw (stat, regular, exists, found, force) in
      rw (supported, opened, ap (λ r. r.0) refused, ap (λ r. r.1) refused)

  -- An image of just the bootstrap blocks is written and then refused: mkfs returns EINVAL.
  pub run_mkfs_smallest :
      (system : System) (target : Target Fd) (beyond : List ℕ) (options : MkfsOptions) (fd fd1 : Fd)
      → IsFormat options bootstrap_blocks
      → ((random : List ℕ) → system.random ≡ ok random → AreBytes random)
      → target.opened ≡ ok fd
      → prepare_target D target options fd ≡ (ok bootstrap_blocks, fd1)
      → (write_bootstrap D system options bootstrap_blocks fd1).0 ≡ ok tt
      → (run_mkfs D system target beyond options).0 ≡ err einval
  unfolding validate_bootstrap bootstrap_writes
  run_mkfs_smallest system target beyond options fd fd1 form bytes opened prepared done =
      let w = write_bootstrap-IsWritten system options bootstrap_blocks fd1 done in
      let h = w.held in
      let u = fill_uuid-lt w.random w.uuid (bytes w.random w.random_is) w.uuid_is in
      run_prepared system target beyond options bootstrap_blocks fd fd1 form.whole_blocks opened
        prepared
      ∙ rw (
        done,
        h.0,
        super_valid options bootstrap_blocks w.uuid form u,
        h.1.0,
        root_inode_valid system,
        h.1.1.0,
        root_dir_valid beyond,
        h.1.1.1.0,
        journal_valid,
        h.1.1.1.1.0,
        bitmap_valid,
        h.1.1.1.1.1.0,
        free_extents_empty,
      )
