-- ===== src/Kernel/Journal/Refines.antt =====
-- The table of intents does what its specification says, call by call and over runs of calls.
use aetherfs.Base.{
  ℕ, zero, suc, ◌+◌, ◌≤◌, ◌<◌, ◌≡◌, ◌∙◌, refl, ap, subst, Bool, true, false, not, ◌&&◌, ◌||◌, List,
  [], ◌∷◌, ◌++◌, arith, get_or, set, length, length-set, length-replicate, replicate, Bool-cases,
  inl, inr, ok, ◌==◌, leb, ◌⊎◌, u32,
}
use aetherfs.Kernel.Journal.{
  Transaction, transaction_commit, transaction_add_intent, Intent, IntentTable, no_intent,
  intent_capacity, intent_init, intent_create, intent_apply, intent_commit, intent_replay,
  intent_clear, fill_intent, is_to_apply, is_of, is_uncommitted, intent_applied, intent_committed,
  intent_replayed,
}
use aetherfs.Kernel.Journal.Spec.{
  Entry, entry_of, log_of, Command, create, apply, commit, clear, replay, run, select, restate,
  applies, belongs, is_open, finished, meaning, run_all, meaning_all,
}
use aetherfs.Kernel.Journal.Clear.{
  entries, sweep-restate, sweep-count, length-sweep, length-clear_from, clear_from-IsCleared,
}

-- All slots are there, and no more than these are in use.
pub record IsTable (t : IntentTable) : Type 0 where
  pub slots : length t.il_intents ≡ intent_capacity
  pub used : t.il_count ≤ intent_capacity

length-entries : (n : ℕ) (xs : List Intent) → n ≤ length xs → length (entries n xs) ≡ n
length-entries zero xs h = refl
length-entries (suc n) [] h = absurd (omega arith)
length-entries (suc n) (x ∷ xs) h = ap suc (length-entries n xs (omega arith))

length-log_of : (t : IntentTable) → IsTable t → length (log_of t) ≡ t.il_count
unfolding log_of
length-log_of t wf = length-entries t.il_count t.il_intents (omega (arith, wf.slots, wf.used))

entries-set :
    (n : ℕ) (xs : List Intent) (v : Intent)
    → n < length xs
    → entries (n + 1) (set xs n v) ≡ entries n xs ++ entry_of v ∷ []
entries-set zero [] v h = absurd (omega arith)
entries-set (suc n) [] v h = absurd (omega arith)
entries-set zero (x ∷ xs) v h = refl
entries-set (suc n) (x ∷ xs) v h =
    let more : suc n + 1 ≡ suc (n + 1) = omega arith in
    rw (more, ap (λ t. entry_of x ∷ t) (entries-set n xs v (omega arith)))

create-IsTable :
    (t : IntentTable) (type ino old_block new_block size txn : ℕ)
    → IsTable t
    → IsTable (intent_create t type ino old_block new_block size txn).1
unfolding intent_create
create-IsTable t type ino old_block new_block size txn wf =
    elim (Bool-cases (type == 0 || txn == 0)) [
      | inl bad ↦ rw bad wf
      | inr good ↦ elim (Bool-cases (leb intent_capacity t.il_count)) [
        | inl full ↦ rw (good, full) wf
        | inr room ↦
            let slot =
              fill_intent (get_or t.il_intents t.il_count no_intent) type ino old_block new_block
                size txn in
            let added : IsTable (record {
              il_intents = set t.il_intents t.il_count slot;
              il_count = t.il_count + 1;
            }) =
              record {
                slots = length-set t.il_intents t.il_count slot ∙ wf.slots;
                used = ground arith;
              } in
            rw (good, room) added
      ]
    ]

create-answer :
    (t : IntentTable) (type ino old_block new_block size txn : ℕ)
    → IsTable t
    → (run (create type ino old_block new_block size txn) t).0
      ≡ (meaning (create type ino old_block new_block size txn) (log_of t)).0
unfolding run meaning intent_create
create-answer t type ino old_block new_block size txn wf =
    let same = length-log_of t wf in
    elim (Bool-cases (type == 0 || txn == 0)) [
      | inl bad ↦ rw bad
      | inr good ↦ elim (Bool-cases (leb intent_capacity t.il_count)) [
        | inl full ↦ rw (good, same, full)
        | inr room ↦ rw (good, same, room)
      ]
    ]

create-log :
    (t : IntentTable) (type ino old_block new_block size txn : ℕ)
    → IsTable t
    → log_of (run (create type ino old_block new_block size txn) t).1
      ≡ (meaning (create type ino old_block new_block size txn) (log_of t)).1
unfolding run meaning intent_create fill_intent log_of
create-log t type ino old_block new_block size txn wf =
    let same = length-log_of t wf in
    let slot =
      fill_intent (get_or t.il_intents t.il_count no_intent) type ino old_block new_block size
        txn in
    elim (Bool-cases (type == 0 || txn == 0)) [
      | inl bad ↦ rw bad
      | inr good ↦ elim (Bool-cases (leb intent_capacity t.il_count)) [
        | inl full ↦ rw (good, same, full)
        | inr room ↦
            let fits : t.il_count < length t.il_intents = ground (arith, wf.slots) in
            rw (good, same, room, entries-set t.il_count t.il_intents slot fits)
      ]
    ]

-- Every call keeps the table in order.
pub run-IsTable : (c : Command) (t : IntentTable) → IsTable t → IsTable (run c t).1
unfolding run intent_create intent_apply intent_commit intent_clear intent_replay
run-IsTable (create type ino old_block new_block size txn) t wf =
    create-IsTable t type ino old_block new_block size txn wf
run-IsTable (apply txn) t wf = record {
  slots = length-sweep (is_to_apply txn) intent_applied t.il_count t.il_intents ∙ wf.slots;
  used = wf.used;
}
run-IsTable (commit txn) t wf = record {
  slots = length-sweep (is_of txn) intent_committed t.il_count t.il_intents ∙ wf.slots;
  used = wf.used;
}
run-IsTable (clear txn) t wf = record {
  slots = length-clear_from txn t.il_count 0 t.il_intents ∙ wf.slots;
  used = omega (arith, wf.used);
}
run-IsTable (replay true) t wf = record {
  slots = length-sweep is_uncommitted intent_replayed t.il_count t.il_intents ∙ wf.slots;
  used = omega arith;
}
run-IsTable (replay false) t wf = wf

-- One call answers what the specification answers, and leaves the log that it says.
run-meaning :
    (c : Command) (t : IntentTable)
    → IsTable t
    → ((run c t).0 ≡ (meaning c (log_of t)).0) × (log_of (run c t).1 ≡ (meaning c (log_of t)).1)
unfolding run meaning intent_apply intent_commit intent_clear intent_replay log_of
run-meaning (create type ino old_block new_block size txn) t wf = (
  create-answer t type ino old_block new_block size txn wf,
  create-log t type ino old_block new_block size txn wf,
)
run-meaning (apply txn) t wf = (
  ap ok (
      sweep-count (is_to_apply txn) (applies txn) intent_applied t.il_count t.il_intents
        (λ i. refl)),
  sweep-restate (is_to_apply txn) (applies txn) intent_applied t.il_count t.il_intents (λ i. refl),
)
run-meaning (commit txn) t wf = (
  refl,
  sweep-restate (is_of txn) (belongs txn) intent_committed t.il_count t.il_intents (λ i. refl),
)
run-meaning (clear txn) t wf =
    let c = clear_from-IsCleared txn t.il_count t.il_intents (omega (arith, wf.slots, wf.used)) in
    (ap ok c.count, c.left)
run-meaning (replay true) t wf = (
  ap ok (sweep-count is_uncommitted is_open intent_replayed t.il_count t.il_intents (λ i. refl)),
  refl,
)
run-meaning (replay false) t wf = (refl, refl)

-- Over any run of calls, the table of intents gives the answers of its specification, a log of entries,
-- and at the end it holds the entries of that log.
pub run_all-meaning_all :
    (cs : List Command) (t : IntentTable)
    → IsTable t
    → ((run_all cs t).0 ≡ (meaning_all cs (log_of t)).0)
      × (log_of (run_all cs t).1 ≡ (meaning_all cs (log_of t)).1)
unfolding run_all meaning_all
run_all-meaning_all [] t wf = (refl, refl)
run_all-meaning_all (c ∷ cs) t wf =
    let (answer, left) = run-meaning c t wf in
    let (answers, end) = run_all-meaning_all cs (run c t).1 (run-IsTable c t wf) in
    (rw (answer, answers, left), end ∙ ap (λ l. (meaning_all cs l).1) left)

intent_init-IsTable :
    (a b c d : Bool) (t : IntentTable) → intent_init a b c d ≡ ok t → IsTable t × (log_of t ≡ [])
unfolding intent_init log_of
intent_init-IsTable a b c d t h = elim (Bool-cases (a && (b && (c && d)))) [
  | inl all ↦
      let same : record { il_intents = replicate intent_capacity no_intent; il_count = 0 } ≡ t =
        ground arith in
      subst (λ t. IsTable t × (log_of t ≡ [])) same
        (
          record {
            slots = length-replicate {A = Intent} intent_capacity no_intent;
            used = omega arith;
          },
          refl,
        )
  | inr some ↦ absurd (ground arith)
]

-- From initialisation on, any run of calls on the table of intents gives the answers of its
-- specification, which starts with an empty log, and leaves the entries that the specification has.
pub init-run_all-meaning_all :
    (a b c d : Bool) (t : IntentTable) (cs : List Command)
    → intent_init a b c d ≡ ok t
    → ((run_all cs t).0 ≡ (meaning_all cs []).0) × (log_of (run_all cs t).1 ≡ (meaning_all cs []).1)
init-run_all-meaning_all a b c d t cs h =
    let (wf, fresh) = intent_init-IsTable a b c d t h in
    subst
      (λ l.
        ((run_all cs t).0 ≡ (meaning_all cs l).0)
        × (log_of (run_all cs t).1 ≡ (meaning_all cs l).1))
      fresh (run_all-meaning_all cs t wf)

select-restate :
    (txn : ℕ) (log : List Entry)
    → select (λ e. not (finished txn e)) (restate (belongs txn) intent_committed log)
      ≡ select (λ e. not (belongs txn e)) log
unfolding select restate
select-restate txn [] = refl
select-restate txn (e ∷ log) = elim (Bool-cases (belongs txn e)) [
  | inl ours ↦ rw (ours, ours, select-restate txn log)
  | inr other ↦ rw (other, other, ap (λ l. e ∷ l) (select-restate txn log))
]

-- When a transaction is committed and then cleared, exactly its own intents are gone from the table:
-- those of other transactions stay, in their order.
pub intent_clear-transaction_commit :
    (t : IntentTable) (txn : Transaction) (now : ℕ)
    → IsTable t
    → log_of (intent_clear (transaction_commit t txn now).1 txn.xt_id).1
      ≡ select (λ e. not (belongs txn.xt_id e)) (log_of t)
unfolding transaction_commit run meaning
intent_clear-transaction_commit t txn now wf =
    let committed = run (commit txn.xt_id) t in
    let kept = run-IsTable (commit txn.xt_id) t wf in
    (run-meaning (clear txn.xt_id) committed.1 kept).1
    ∙ ap (select (λ e. not (finished txn.xt_id e))) (run-meaning (commit txn.xt_id) t wf).1
    ∙ select-restate txn.xt_id (log_of t)

-- Where the table has no free slot, or the type of an intent is 0, adding the intent to a transaction
-- leaves the table as it was, and the transaction still counts one intent more.
pub transaction_add_intent_lost :
    (t : IntentTable) (txn : Transaction) (type ino old_block new_block : ℕ)
    → (t.il_count ≡ intent_capacity) ⊎ (type ≡ 0)
    → transaction_add_intent t txn type ino old_block new_block
      ≡ (record txn { xt_intent_count = u32 (txn.xt_intent_count + 1) }, t)
unfolding transaction_add_intent intent_create
transaction_add_intent_lost t txn type ino old_block new_block (inl full) = ground arith
transaction_add_intent_lost t txn type ino old_block new_block (inr none) = ground arith
