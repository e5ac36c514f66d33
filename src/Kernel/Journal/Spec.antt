-- ===== src/Kernel/Journal/Spec.antt =====
-- What the table of intents promises: a log of entries, to which one is added at the end, whose states
-- change by transaction, and from which committed entries are taken. Slots, stale contents and
-- checksums are forgotten.
use aetherfs.Base.{
  ℕ, Bool, true, false, ◌||◌, ◌&&◌, not, List, [], ◌∷◌, ◌++◌, Result, ok, err, einval, enospc, ◌==◌,
  ◌/=◌, leb, if◌then◌else◌, take, map, length,
}
use aetherfs.Kernel.Journal.{
  Intent, IntentTable, intent_pending, intent_applied, intent_committed, intent_capacity,
  intent_create, intent_apply, intent_commit, intent_replay, intent_clear,
}

pub record Entry : Type 0 where
  pub kind : ℕ
  pub state : ℕ
  pub txn : ℕ
  pub ino : ℕ
  pub old_block : ℕ
  pub new_block : ℕ
  pub size : ℕ

abbrev pub entry_of : Intent → Entry
entry_of i = record {
  kind = i.ie_type;
  state = i.ie_flags;
  txn = i.ie_txn_id;
  ino = i.ie_target_ino;
  old_block = i.ie_target_block;
  new_block = i.ie_new_block;
  size = i.ie_size;
}

-- The log that a table stands for.
unfoldable pub log_of : IntentTable → List Entry
log_of table = map entry_of (take table.il_count table.il_intents)

-- The calls of the table.
pub data Command : Type 0 where
  create : ℕ → ℕ → ℕ → ℕ → ℕ → ℕ → Command
  apply commit clear : ℕ → Command
  replay : Bool → Command

abbrev rc_code : Result (Unit {0}) → Result ℕ
rc_code (ok _) = ok 0
rc_code (err e) = err e

unfoldable pub run : Command → IntentTable → Result ℕ × IntentTable
run (create type ino old_block new_block size txn) t =
    let r = intent_create t type ino old_block new_block size txn in (rc_code r.0, r.1)
run (apply txn) t = let r = intent_apply t txn in (ok r.0, r.1)
run (commit txn) t = let r = intent_commit t txn in (rc_code r.0, r.1)
run (clear txn) t = let r = intent_clear t txn in (ok r.0, r.1)
run (replay sb) t = intent_replay t sb

-- The entries that a test holds of.
unfoldable pub select {ℓ} : {A : Type ℓ} → (A → Bool) → List A → List A
select p [] = []
select p (x ∷ xs) = let rest = select p xs in if p x then x ∷ rest else rest

-- The chosen entries in a new state.
unfoldable pub restate : (Entry → Bool) → ℕ → List Entry → List Entry
restate p state [] = []
restate p state (e ∷ es) =
    let rest = restate p state es in if p e then record e { state = state } ∷ rest else e ∷ rest

abbrev pub applies : ℕ → Entry → Bool
applies txn e = e.txn == txn && e.state == intent_pending

abbrev pub belongs : ℕ → Entry → Bool
belongs txn e = e.txn == txn

abbrev pub is_open : Entry → Bool
is_open e = e.state /= intent_committed

abbrev pub finished : ℕ → Entry → Bool
finished txn e = e.txn == txn && e.state == intent_committed

-- What each call answers and makes of the log.
unfoldable pub meaning : Command → List Entry → Result ℕ × List Entry
meaning (create kind ino old_block new_block size txn) log =
    let entry : Entry = record {
      kind = kind;
      state = intent_pending;
      txn = txn;
      ino = ino;
      old_block = old_block;
      new_block = new_block;
      size = size;
    } in
    if kind == 0 || txn == 0
    then (err einval, log)
    else (if leb intent_capacity (length log) then (err enospc, log) else (ok 0, log ++ entry ∷ []))
meaning (apply txn) log =
    (ok (length (select (applies txn) log)), restate (applies txn) intent_applied log)
meaning (commit txn) log = (ok 0, restate (belongs txn) intent_committed log)
meaning (clear txn) log =
    (ok (length (select (finished txn) log)), select (λ e. not (finished txn e)) log)
meaning (replay true) log = (ok (length (select is_open log)), [])
meaning (replay false) log = (err einval, log)

-- A run of calls: the answers, and what is left.
unfoldable pub run_all : List Command → IntentTable → List (Result ℕ) × IntentTable
run_all [] t = ([], t)
run_all (c ∷ cs) t = let r = run c t in let rest = run_all cs r.1 in (r.0 ∷ rest.0, rest.1)

unfoldable pub meaning_all : List Command → List Entry → List (Result ℕ) × List Entry
meaning_all [] log = ([], log)
meaning_all (c ∷ cs) log =
    let r = meaning c log in let rest = meaning_all cs r.1 in (r.0 ∷ rest.0, rest.1)
