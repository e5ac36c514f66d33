-- ===== src/Scrub/Usable.antt =====
-- The intervals that `aetherfs_image_validate` finds in use end inside the image.
use aetherfs.Base.{
  ℕ, zero, suc, ◌+◌, ◌-◌, ◌^◌, ◌≤◌, ◌<◌, ◌≡◌, sym, subst, Bool, ◌||◌, List, All, ok, einval,
  eopnotsupp, arith, if◌then◌else◌, ltb, leb, ◌==◌, ◌/=◌, u64, fail_if, ◌>>◌, seq_ok, bind_ok,
  ok_inj, Bool-cases, Result-cases, ltb→lt, inl, inr, get_or,
}
use aetherfs.Format.{data_start_block, checksums_per_block}
use aetherfs.Format.Structs.Inode.{Inode}
use aetherfs.Format.Structs.Extent.{Extent, ChecksumBlock}
use aetherfs.Bitmap.{bitmap_test}
use aetherfs.Image.{Image}
use aetherfs.Image.Device.{Disk}
use aetherfs.Mkfs.{no_extent}
use aetherfs.Redundancy.{Interval}
use aetherfs.Scrub.{
  Scan, FileScan, check_sums, next_sums, check_link, check_chain, check_extent, check_extents,
  check_file, check_inode, check_inodes, inode_at, is_dir, size_misfits,
}
use aetherfs.Scrub.Coverage.{interval, interval_list_append}
use aetherfs.Scrub.Covers.{IsUsable, interval_list_append-All}
use aetherfs.Volume.{Loaded, read_extent_node, read_checksum_block}
use aetherfs.Scrub.Reads.{ReadsBytes, node_len-lt}

-- An interval of one block of the image.
pub one-IsUsable : (blocks b : ℕ) → blocks < 2 ^ 64 → b < blocks → IsUsable blocks (interval b 1)
one-IsUsable blocks b fits h = inr (record { len_fits = omega arith; end_inside = omega arith })

module _ (D : Disk) where
  open D use {Fd}

  check_link-next :
      (image : Image Fd) (blocks pstart len validated csum_block : ℕ) (sums : ChecksumBlock)
      → check_link D image blocks pstart len validated csum_block ≡ ok sums
      → validated + sums.cb_entries < len
      → sums.cb_next < blocks
  unfolding check_link next_sums
  check_link-next image blocks pstart len validated csum_block sums h lt =
      let (found, read, rest) = bind_ok (read_checksum_block D image csum_block) _ sums h in
      let entries = found.cb_entries in
      let counted =
        fail_if (entries == 0 || (ltb checksums_per_block entries || ltb (len - validated) entries))
          einval in
      let summed = check_sums D image pstart validated found.cb_sums entries 0 in
      let linked = next_sums D blocks (validated + entries) len found.cb_next in
      let (checks, is) = seq_ok (counted >> summed >> linked) (ok found) sums rest in
      let (_, next) = seq_ok (counted >> summed) linked tt checks in
      let same : found ≡ sums = ok_inj is in
      let more : validated + found.cb_entries < len =
        subst (λ t. validated + t.cb_entries < len) (sym same) lt in
      subst (λ t. t.cb_next < blocks) same (ground arith)

  check_chain-IsUsable :
      (image : Image Fd) (blocks pstart len n validated csum_block : ℕ) (used end : List Interval)
      → blocks < 2 ^ 64
      → All (IsUsable blocks) used
      → (validated < len → csum_block < blocks)
      → check_chain D image blocks pstart len n validated csum_block used ≡ ok end
      → All (IsUsable blocks) end
  unfolding check_chain
  check_chain-IsUsable image blocks pstart len zero validated csum_block used end fits all inside
        h =
      subst (All (IsUsable blocks)) (ok_inj h) all
  check_chain-IsUsable image blocks pstart len (suc n) validated csum_block used end fits all inside
        h =
      elim (Bool-cases (ltb validated len)) [
        | inr over ↦ let same : used ≡ end = ground arith in subst (All (IsUsable blocks)) same all
        | inl going ↦
            elim (Result-cases (check_link D image blocks pstart len validated csum_block)) [
              | inl (e, failed) ↦ absurd (ground arith)
              | inr (sums, linked) ↦
                  let more = interval_list_append used csum_block 1 in
                  let rest : check_chain D image blocks pstart len n (validated + sums.cb_entries)
                        sums.cb_next more
                      ≡ ok end =
                    ground arith in
                  let here : csum_block < blocks = inside (ltb→lt validated len going) in
                  check_chain-IsUsable image blocks pstart len n (validated + sums.cb_entries)
                    sums.cb_next more end fits
                    (interval_list_append-All (IsUsable blocks) used csum_block 1 all
                      (one-IsUsable blocks csum_block fits here))
                    (check_link-next image blocks pstart len validated csum_block sums linked) rest
            ]
      ]

  check_extent-IsUsable :
      (image : Image Fd) (blocks : ℕ) (scan end : FileScan) (extent : Extent)
      → blocks < 2 ^ 64
      → extent.e_len < 2 ^ 64
      → All (IsUsable blocks) scan.used
      → check_extent D image blocks scan extent ≡ ok end
      → All (IsUsable blocks) end.used
  unfolding check_extent
  check_extent-IsUsable image blocks scan end extent fits small all h =
      let len = extent.e_len in
      let pstart = extent.e_pstart in
      let csum_block = extent.e_csum_start in
      let shaped =
        fail_if
          (len == 0
            || (extent.e_lstart /= scan.logical_cursor
                || (ltb pstart data_start_block
                    || (ltb blocks (u64 (pstart + len))
                        || (ltb csum_block data_start_block || leb blocks csum_block)))))
          einval in
      let more = interval_list_append scan.used pstart len in
      let chain = check_chain D image blocks pstart len len 0 csum_block more in
      let (used, both, is) = bind_ok (shaped >> chain) _ end h in
      let (good, chained) = seq_ok shaped chain used both in
      let placed : u64 (pstart + len) ≤ blocks = ground arith in
      let near : csum_block < blocks = ground arith in
      let this : IsUsable blocks (interval pstart len) =
        inr (record { len_fits = small; end_inside = placed }) in
      let all_used =
        check_chain-IsUsable image blocks pstart len len 0 csum_block more used fits
          (interval_list_append-All (IsUsable blocks) scan.used pstart len all this) (λ lt. near)
          chained in
      subst (λ f. All (IsUsable blocks) f.used) (ok_inj is) all_used

  check_extents-IsUsable :
      (image : Image Fd) (blocks : ℕ) (extents : List Extent) (n index : ℕ) (scan end : FileScan)
      → blocks < 2 ^ 64
      → ((i : ℕ) → (get_or extents i no_extent).e_len < 2 ^ 64)
      → All (IsUsable blocks) scan.used
      → check_extents D image blocks extents n index scan ≡ ok end
      → All (IsUsable blocks) end.used
  unfolding check_extents
  check_extents-IsUsable image blocks extents zero index scan end fits small all h =
      subst (λ f. All (IsUsable blocks) f.used) (ok_inj h) all
  check_extents-IsUsable image blocks extents (suc n) index scan end fits small all h =
      let extent = get_or extents index no_extent in
      let (next, this, rest) = bind_ok (check_extent D image blocks scan extent) _ end h in
      check_extents-IsUsable image blocks extents n (index + 1) next end fits small
        (check_extent-IsUsable image blocks scan next extent fits (small index) all this) rest

  check_file-IsUsable :
      (image : Image Fd) (blocks : ℕ) (scan end : Scan) (inode : Inode)
      → blocks < 2 ^ 64
      → ReadsBytes D image
      → All (IsUsable blocks) scan.used
      → check_file D image blocks scan inode ≡ ok end
      → All (IsUsable blocks) end.used
  unfolding check_file
  check_file-IsUsable image blocks scan end inode fits bytes all h =
      let root = inode.i_extent_root in
      let placed = fail_if (ltb root data_start_block || leb blocks root) einval in
      let (extents, both, h1) = bind_ok (placed >> read_extent_node D image root) _ end h in
      let (good, read) = seq_ok placed (read_extent_node D image root) extents both in
      let near : root < blocks = ground arith in
      let used = interval_list_append scan.used root 1 in
      let start : FileScan = record { used = used; logical_cursor = 0; file_blocks = 0 } in
      let single = fail_if (extents.en_next /= 0) eopnotsupp in
      let looped = check_extents D image blocks extents.en_extents extents.en_count 0 start in
      let (file, two, h2) = bind_ok (single >> looped) _ end h1 in
      let (_, loop) = seq_ok single looped file two in
      let result : Scan = record {
        used = file.used;
        files = scan.files + 1;
        directories = scan.directories;
        data_blocks = u64 (scan.data_blocks + file.file_blocks);
      } in
      let sized =
        fail_if (file.file_blocks /= inode.i_blocks) einval
        >> fail_if (size_misfits file.file_blocks inode.i_size) einval in
      let (_, is) = seq_ok sized (ok result) end h2 in
      let all_used =
        check_extents-IsUsable image blocks extents.en_extents extents.en_count 0 start file fits
          (λ i. node_len-lt D image root i extents bytes read)
          (interval_list_append-All (IsUsable blocks) scan.used root 1 all
            (one-IsUsable blocks root fits near))
          loop in
      subst (λ f. All (IsUsable blocks) f.used) (ok_inj is) all_used

  check_inode-IsUsable :
      (image : Image Fd) (l : Loaded) (dir_refs : ℕ → Bool) (index : ℕ) (scan end : Scan)
      (inode : Inode)
      → l.blocks < 2 ^ 64
      → ReadsBytes D image
      → All (IsUsable l.blocks) scan.used
      → check_inode D image l dir_refs index scan inode ≡ ok end
      → All (IsUsable l.blocks) end.used
  unfolding check_inode
  check_inode-IsUsable image l dir_refs index scan end inode fits bytes all h =
      elim (Bool-cases (is_dir inode.i_mode)) [
        | inl dir ↦
            let same : scan.used ≡ end.used = ground arith in
            subst (All (IsUsable l.blocks)) same all
        | inr other ↦
            let file : check_file D image l.blocks scan inode ≡ ok end = ground arith in
            check_file-IsUsable image l.blocks scan end inode fits bytes all file
      ]

  pub check_inodes-IsUsable :
      (image : Image Fd) (l : Loaded) (dir_refs : ℕ → Bool) (n index : ℕ) (scan end : Scan)
      → l.blocks < 2 ^ 64
      → ReadsBytes D image
      → All (IsUsable l.blocks) scan.used
      → check_inodes D image l dir_refs n index scan ≡ ok end
      → All (IsUsable l.blocks) end.used
  unfolding check_inodes
  check_inodes-IsUsable image l dir_refs zero index scan end fits bytes all h =
      subst (λ s. All (IsUsable l.blocks) s.used) (ok_inj h) all
  check_inodes-IsUsable image l dir_refs (suc n) index scan end fits bytes all h =
      let inode = inode_at l.inode_table index in
      let one =
        if bitmap_test l.inode_bitmap index
        then check_inode D image l dir_refs index scan inode
        else fail_if (inode.i_mode /= 0) einval >> ok scan in
      let (next, this, rest) = bind_ok one _ end h in
      let all_next : All (IsUsable l.blocks) next.used =
        elim (Bool-cases (bitmap_test l.inode_bitmap index)) [
          | inl on ↦
              let checked : check_inode D image l dir_refs index scan inode ≡ ok next =
                ground arith in
              check_inode-IsUsable image l dir_refs index scan next inode fits bytes all checked
          | inr off ↦
              let same : scan ≡ next = ground arith in
              subst (λ s. All (IsUsable l.blocks) s.used) same all
        ] in
      check_inodes-IsUsable image l dir_refs n (index + 1) next end fits bytes all_next rest
