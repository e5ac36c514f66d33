-- ===== src/Kernel/Log.antt =====
-- kernel/log.c: the ring of journal blocks.
pub mod Replay
use aetherfs.Base.{
  ℕ, zero, suc, ◌+◌, ◌-◌, ◌%◌, Bool, true, false, not, List, [], ◌∷◌, ◌++◌, Option, none, some,
  Result, Rc, ok, err, einval, eio, ◌==◌, if◌then◌else◌, replicate, take, u32, u64, bit_or, bit_and,
}
use aetherfs.Format.Codec.{encode, le_bytes}
use aetherfs.Kernel.Crc.{kernel_crc32}

-- The fields of `struct aetherfs_journal_log` that the code reads, and the size of a block, which it
-- takes from a member `j_sb`.
pub record JournalLog : Type 0 where
  pub j_start : ℕ
  pub j_end : ℕ
  pub j_head : ℕ
  pub j_commit : ℕ
  pub j_flags : ℕ
  pub s_blocksize : ℕ

pub record JournalTransaction : Type 0 where
  pub t_txn_id : ℕ
  pub t_start : ℕ
  pub t_end : ℕ

-- The fixed part of `struct aetherfs_journal_entry`.
pub record JournalEntry : Type 0 where
  pub je_txn_id : ℕ
  pub je_op : ℕ
  pub je_flags : ℕ
  pub je_blocknr : ℕ
  pub je_checksum : ℕ
  pub je_reserved : ℕ

abbrev pub journal_recovering : ℕ
journal_recovering = 1

-- A sum modulo `j_end`, which is not 0 here: in the source that divides by 0.
unfoldable pub wrapped : JournalLog → ℕ → ℕ
wrapped log position = u64 position % log.j_end

unfoldable pub journal_current : JournalLog → Option JournalTransaction
journal_current log = none

-- The number of the transaction as the word that is returned. `nblocks` is not negative.
unfoldable pub journal_start : JournalLog → ℕ → Result ℕ × JournalLog
journal_start log nblocks =
    let t_end = wrapped log (log.j_head + nblocks) in
    if nblocks == 0
    then (err einval, log)
    else (ok (u32 (u64 (log.j_commit + 1))), record log { j_head = t_end })

unfoldable pub journal_commit : JournalLog → ℕ → Rc × JournalLog
journal_commit log txn_id = elim (journal_current log) [
  | none ↦ (err einval, log)
  | some txn ↦
      if txn.t_txn_id == txn_id
      then (ok tt, record log { j_commit = txn.t_end })
      else (err einval, log)
]

-- A buffer of `sb_bread`: whether it is up to date, and its bytes.
abbrev pub Buffer : Type 0
Buffer = Bool × List ℕ

-- The loop from `pos` on, for `n` rounds at most: `none` where these are not enough. The checksum of a
-- block is computed and makes no difference.
unfoldable pub replay_loop : (ℕ → Option Buffer) → JournalLog → ℕ → ℕ → Option (Result ℕ)
replay_loop bread log zero pos = if pos == log.j_head then some (ok pos) else none
replay_loop bread log (suc n) pos =
    let rest = replay_loop bread log n (wrapped log (pos + 1)) in
    if pos == log.j_head then some (ok pos) else (elim (bread pos) [
      | none ↦ some (err eio)
      | some (uptodate, bytes) ↦
          if not uptodate
          then some (ok pos)
          else (if kernel_crc32 (take log.s_blocksize bytes) == 0 then rest else rest)
    ])

abbrev pub recovering : JournalLog → JournalLog
recovering log = record log { j_flags = bit_or log.j_flags journal_recovering }

-- The log after a replay that stopped at `pos`.
abbrev pub replayed : JournalLog → ℕ → JournalLog
replayed log pos = record log {
  j_head = pos;
  j_commit = pos;
  j_flags = bit_and (bit_or log.j_flags journal_recovering) 0xFFFFFFFE;
}

-- `none` where the loop needs more than `n` rounds.
unfoldable pub journal_replay : (ℕ → Option Buffer) → ℕ → JournalLog → Option (Rc × JournalLog)
journal_replay bread n log =
    if log.j_head == log.j_commit
    then some (ok tt, log)
    else (elim (replay_loop bread (recovering log) n log.j_commit) [
      | none ↦ none
      | some (err e) ↦ some (err e, recovering log)
      | some (ok pos) ↦ some (ok tt, replayed log pos)
    ])

-- The fields of an entry, in 28 of its 32 bytes: the checksum's old value is among them.
abbrev pub entry_checksum : JournalEntry → ℕ
entry_checksum entry = kernel_crc32 (
    encode (8 ∷ 4 ∷ 4 ∷ 8 ∷ 4 ∷ [])
      (entry.je_txn_id ∷ entry.je_op ∷ entry.je_flags ∷ entry.je_blocknr ∷ entry.je_checksum ∷ []))

-- The entry goes to the start of a buffer, which holds `old`.
unfoldable pub journal_append : JournalLog → ℕ → JournalEntry → ℕ → ℕ → JournalEntry × JournalLog
journal_append log txn_id old op flags =
    let entry = record old {
      je_txn_id = txn_id;
      je_op = op;
      je_flags = flags;
      je_blocknr = log.j_head;
    } in
    (
      record entry { je_checksum = entry_checksum entry },
      record log { j_head = wrapped log (log.j_head + 1) },
    )

-- The block that is written at `j_start`, if it can be read.
unfoldable pub journal_checkpointer : (ℕ → Option Buffer) → JournalLog → Result (List ℕ)
journal_checkpointer bread log = elim (bread log.j_start) [
  | none ↦ err eio
  | some buffer ↦ ok (le_bytes 8 log.j_commit ++ replicate (log.s_blocksize - 8) 0)
]
