-- ===== src/Kernel/Log/Replay.antt =====
-- kernel/log.c: `aetherfs_journal_replay` ends, and where.
use aetherfs.Base.{
  ℕ, zero, suc, ◌+◌, ◌-◌, ◌%◌, ◌^◌, ◌<◌, ◌≤◌, ◌≡◌, ◌≢◌, inl, inr, sym, ap, ◌∙◌, subst, true, false,
  List, Option, none, some, Result, Rc, ok, err, eio, arith, ◌==◌, ltb, if◌then◌else◌, Option-cases,
  eq→==, ne→==, if_same, take, u64_exact,
}
use aetherfs.Kernel.Crc.{kernel_crc32}
use aetherfs.Kernel.Log.{
  JournalLog, Buffer, wrapped, replay_loop, journal_replay, recovering, replayed,
}
use native.Mathlib.Decide.{ℕ_discrete}
use native.Mathlib.Nat.{mod_self, mod-eq_of_lt}

-- The blocks from `pos` on to the head of the ring.
steps : JournalLog → ℕ → ℕ
steps log pos = if ltb log.j_head pos then log.j_head + log.j_end - pos else log.j_head - pos

-- The replay ends at the head, at a block that is not up to date, or at one that cannot be read.
pub data Stop (bread : ℕ → Option Buffer) (log : JournalLog) (pos : ℕ) : Result ℕ → Type 0 where
  at_head : pos ≡ log.j_head → Stop bread log pos (ok pos)
  at_old : (bytes : List ℕ) → bread pos ≡ some (false, bytes) → Stop bread log pos (ok pos)
  at_unread : bread pos ≡ none → Stop bread log pos (err eio)

wrapped_inside :
    (log : JournalLog) (pos : ℕ)
    → log.j_end < 2 ^ 64
    → pos + 1 < log.j_end
    → wrapped log (pos + 1) ≡ pos + 1
unfolding wrapped
wrapped_inside log pos fits h =
    ap (λ t. t % log.j_end) (u64_exact (pos + 1) (omega arith)) ∙ mod-eq_of_lt h

wrapped_end :
    (log : JournalLog) (pos : ℕ)
    → log.j_end < 2 ^ 64
    → pos + 1 ≡ log.j_end
    → wrapped log (pos + 1) ≡ 0
unfolding wrapped
wrapped_end log pos fits e =
    ap (λ t. t % log.j_end) (u64_exact (pos + 1) (omega arith) ∙ e) ∙ mod_self log.j_end

-- In a ring, the block behind one that is not the head lies in the ring and is nearer to the head.
record IsNearer (log : JournalLog) (pos next : ℕ) : Type 0 where
  inside : next < log.j_end
  nearer : suc (steps log next) ≡ steps log pos

wrapped-IsNearer :
    (log : JournalLog) (pos : ℕ)
    → log.j_end < 2 ^ 64
    → log.j_head < log.j_end
    → pos < log.j_end
    → pos ≢ log.j_head
    → IsNearer log pos (wrapped log (pos + 1))
unfolding steps
wrapped-IsNearer log pos fits head h away = elim (ℕ_discrete (pos + 1) log.j_end) [
  | yes e ↦
      let start = wrapped_end log pos fits e in
      subst (IsNearer log pos) (sym start)
        (record { inside = omega arith; nearer = ground (arith, away) })
  | no ne ↦
      let lt : pos + 1 < log.j_end = omega (arith, ne) in
      subst (IsNearer log pos) (sym (wrapped_inside log pos fits lt))
        (record { inside = lt; nearer = ground (arith, away) })
]

-- Where the loop from `pos` on stops, in `n` rounds.
pub record Stops (bread : ℕ → Option Buffer) (log : JournalLog) (n pos : ℕ) : Type 0 where
  pub stop : ℕ
  pub answer : Result ℕ
  pub inside : stop < log.j_end
  pub answered : replay_loop bread log n pos ≡ some answer
  pub reason : Stop bread log stop answer

replay_loop-Stops :
    (bread : ℕ → Option Buffer) (log : JournalLog) (n pos : ℕ)
    → log.j_end < 2 ^ 64
    → log.j_head < log.j_end
    → pos < log.j_end
    → steps log pos ≤ n
    → Stops bread log n pos
unfolding replay_loop steps
replay_loop-Stops bread log zero pos fits head h few =
    let here : pos ≡ log.j_head = ground arith in
    record {
      stop = pos;
      answer = ok pos;
      inside = h;
      answered = ground (arith, here);
      reason = at_head here;
    }
replay_loop-Stops bread log (suc n) pos fits head h few = elim (ℕ_discrete pos log.j_head) [
  | yes here ↦ record {
    stop = pos;
    answer = ok pos;
    inside = h;
    answered = ground (arith, here);
    reason = at_head here;
  }
  | no away ↦ elim (Option-cases (bread pos)) [
    | inl unread ↦ record {
      stop = pos;
      answer = err eio;
      inside = h;
      answered = ground (arith, away, unread);
      reason = at_unread unread;
    }
    | inr ((false, bytes), old) ↦ record {
      stop = pos;
      answer = ok pos;
      inside = h;
      answered = ground (arith, away, old);
      reason = at_old bytes old;
    }
    | inr ((true, bytes), read) ↦
        let next = wrapped log (pos + 1) in
        let near = wrapped-IsNearer log pos fits head h away in
        let ih =
          replay_loop-Stops bread log n next fits head near.inside (omega (arith, near.nearer)) in
        let rest : replay_loop bread log n next ≡ some ih.answer = ih.answered in
        record {
          stop = ih.stop;
          answer = ih.answer;
          inside = ih.inside;
          answered =
              rw
                (
                  ne→== pos log.j_head away,
                  read,
                  if_same (kernel_crc32 (take log.s_blocksize bytes) == 0)
                      (replay_loop bread log n next),
                )
                rest;
          reason = ih.reason;
        }
  ]
]

-- What a replay can come to.
pub data Outcome (bread : ℕ → Option Buffer) (log : JournalLog)
    : Option (Rc × JournalLog) → Type 0 where
  idle : log.j_head ≡ log.j_commit → Outcome bread log (some (ok tt, log))
  passed : Outcome bread log (some (ok tt, replayed log log.j_head))
  ended :
      (stop : ℕ) (bytes : List ℕ)
      → stop < log.j_end
      → bread stop ≡ some (false, bytes)
      → Outcome bread log (some (ok tt, replayed log stop))
  failed :
      (stop : ℕ)
      → stop < log.j_end
      → bread stop ≡ none
      → Outcome bread log (some (err eio, recovering log))

outcome :
    (bread : ℕ → Option Buffer) (log : JournalLog) (stop : ℕ) (answer : Result ℕ)
    → log.j_head ≢ log.j_commit
    → stop < log.j_end
    → replay_loop bread (recovering log) log.j_end log.j_commit ≡ some answer
    → Stop bread (recovering log) stop answer
    → Outcome bread log (journal_replay bread log.j_end log)
unfolding journal_replay
outcome bread log stop _ away inside h (at_head e) =
    rw (ne→== log.j_head log.j_commit away, h)
      (subst (λ p. Outcome bread log (some (ok tt, replayed log p))) (sym e) passed)
outcome bread log stop _ away inside h (at_old bytes e) =
    rw (ne→== log.j_head log.j_commit away, h) (ended stop bytes inside e)
outcome bread log stop _ away inside h (at_unread e) =
    rw (ne→== log.j_head log.j_commit away, h) (failed stop inside e)

-- In a ring with the head and the commit position inside, whose end is a 64-bit number, a replay ends
-- within as many rounds as the ring has blocks. It leaves the log alone if there is nothing after the
-- commit position; else the head and the commit position move to the old head, or to a block of the
-- ring that is not up to date; or a block cannot be read, and the log keeps both positions and is left
-- marked as recovering.
pub journal_replay_ends :
    (bread : ℕ → Option Buffer) (log : JournalLog)
    → log.j_end < 2 ^ 64
    → log.j_head < log.j_end
    → log.j_commit < log.j_end
    → Outcome bread log (journal_replay bread log.j_end log)
unfolding journal_replay steps
journal_replay_ends bread log fits head commit = elim (ℕ_discrete log.j_head log.j_commit) [
  | yes e ↦ rw (eq→== log.j_head log.j_commit e) (idle e)
  | no away ↦
      let w =
        replay_loop-Stops bread (recovering log) log.j_end log.j_commit fits head commit
          (ground arith) in
      outcome bread log w.stop w.answer away w.inside w.answered w.reason
]
