-- ===== src/Tests/Rings.antt =====
-- A replay of a ring of eight blocks, round its end.
use aetherfs.Base.{ℕ, ◌≡◌, refl, true, [], ◌∷◌, some, none, ok, Option, arith}
use aetherfs.Kernel.Crc.{kernel_crc32, kernel_crc32c, kernel_crc_loop}
use aetherfs.Kernel.Log.{JournalLog, Buffer, journal_replay, replay_loop, wrapped, replayed}
use aetherfs.Kernel.Log.Replay.{Outcome, journal_replay_ends}

abbrev ring : JournalLog
ring = record { j_start = 0; j_end = 8; j_head = 2; j_commit = 6; j_flags = 0; s_blocksize = 4096 }

abbrev bread : ℕ → Option Buffer
bread pos = some (true, 1 ∷ 2 ∷ 3 ∷ [])

replay_ring : journal_replay bread 8 ring ≡ some (ok tt, replayed ring 2)
unfolding journal_replay replay_loop wrapped kernel_crc32 kernel_crc32c kernel_crc_loop
    aetherfs.Format.Crc.crc_bit
replay_ring = refl

too_few : journal_replay bread 3 ring ≡ none
unfolding journal_replay replay_loop wrapped kernel_crc32 kernel_crc32c kernel_crc_loop
    aetherfs.Format.Crc.crc_bit
too_few = refl

journal_replay_ends_example : Outcome bread ring (journal_replay bread 8 ring)
journal_replay_ends_example =
    journal_replay_ends bread ring (omega arith) (omega arith) (omega arith)
