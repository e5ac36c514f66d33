-- ===== src/Tests/Intents.antt =====
-- Runs of the table of intents.
use aetherfs.Base.{
  ◌≡◌, refl, ℕ, List, [], ◌∷◌, ok, err, einval, true, Result, inl, replicate, arith, not,
}
use aetherfs.Kernel.Journal.{
  Intent, IntentTable, Transaction, intent_init, no_intent, intent_capacity, transaction_commit,
  transaction_add_intent, intent_clear,
}
use aetherfs.Kernel.Journal.Spec.{
  Command, create, apply, commit, clear, replay, run_all, meaning_all, log_of, select, belongs,
}
use aetherfs.Kernel.Journal.Refines.{
  IsTable, init-run_all-meaning_all, intent_clear-transaction_commit, transaction_add_intent_lost,
}

abbrev fresh : IntentTable
fresh = record { il_intents = replicate intent_capacity no_intent; il_count = 0 }

abbrev calls : List Command
calls =
    create 1 10 0 99 4096 1
    ∷ create 2 11 5 98 4096 2
    ∷ apply 1
    ∷ commit 1
    ∷ create 0 0 0 0 0 1
    ∷ clear 1
    ∷ replay true
    ∷ []

fresh_init : intent_init true true true true ≡ ok fresh
unfolding intent_init
fresh_init = refl

abbrev answers : List (Result ℕ)
answers = ok 0 ∷ ok 0 ∷ ok 1 ∷ ok 0 ∷ err einval ∷ ok 1 ∷ ok 1 ∷ []

calls_mean : (meaning_all calls []).0 ≡ answers
unfolding meaning_all aetherfs.Kernel.Journal.Spec.meaning select
    aetherfs.Kernel.Journal.Spec.restate
calls_mean = refl

init-run_all-meaning_all_example :
    ((run_all calls fresh).0 ≡ (meaning_all calls []).0)
    × (log_of (run_all calls fresh).1 ≡ (meaning_all calls []).1)
init-run_all-meaning_all_example =
    init-run_all-meaning_all true true true true fresh calls fresh_init

abbrev txn : Transaction
txn = record {
  xt_id = 1;
  xt_sequence = 1;
  xt_state = 0;
  xt_intent_count = 0;
  xt_data_mode = 0;
  xt_start_time = 0;
  xt_commit_time = 0;
  xt_flags = 0;
}

abbrev intent_of : ℕ → Intent
intent_of t = record no_intent { ie_type = 1; ie_txn_id = t }

abbrev three : IntentTable
three = record {
  il_intents = intent_of 1 ∷ intent_of 2 ∷ intent_of 1 ∷ replicate 1021 no_intent;
  il_count = 3;
}

three-IsTable : IsTable three
three-IsTable = record { slots = refl; used = omega arith }

intent_clear-transaction_commit_example :
    log_of (intent_clear (transaction_commit three txn 9).1 txn.xt_id).1
    ≡ select (λ e. not (belongs txn.xt_id e)) (log_of three)
intent_clear-transaction_commit_example = intent_clear-transaction_commit three txn 9 three-IsTable

abbrev full : IntentTable
full = record { il_intents = replicate intent_capacity no_intent; il_count = intent_capacity }

transaction_add_intent_lost_example :
    transaction_add_intent full txn 1 10 0 99 ≡ (record txn { xt_intent_count = 1 }, full)
transaction_add_intent_lost_example = transaction_add_intent_lost full txn 1 10 0 99 (inl refl)
