-- ===== src/Kernel/Journal.antt =====
-- kernel/journal.c: the table of intents and the transactions that write to it. `struct super_block`
-- arguments are used for their presence only.
pub mod Spec
pub mod Clear
pub mod Refines
use aetherfs.Base.{
  ℕ, zero, suc, ◌+◌, ◌-◌, Bool, true, false, ◌||◌, ◌&&◌, not, List, [], ◌∷◌, ◌++◌, Option, none,
  some, Result, Rc, ok, err, einval, enospc, enomem, ◌==◌, ◌/=◌, leb, if◌then◌else◌, get_or, set,
  replicate, take, u32, u64,
}
use aetherfs.Format.Codec.{encode}
use aetherfs.Kernel.Crc.{kernel_crc32c}

-- The states of an intent, which the code keeps in `ie_flags`.
abbrev pub intent_pending : ℕ
intent_pending = 0

abbrev pub intent_applied : ℕ
intent_applied = 1

abbrev pub intent_committed : ℕ
intent_committed = 2

abbrev pub intent_replayed : ℕ
intent_replayed = 3

abbrev pub intent_magic : ℕ
intent_magic = 0x494E5445

abbrev pub intent_capacity : ℕ
intent_capacity = 1024

pub record Intent : Type 0 where
  pub ie_magic : ℕ
  pub ie_type : ℕ
  pub ie_flags : ℕ
  pub ie_state : ℕ
  pub ie_txn_id : ℕ
  pub ie_target_ino : ℕ
  pub ie_target_block : ℕ
  pub ie_new_block : ℕ
  pub ie_size : ℕ
  pub ie_checksum : ℕ
  pub ie_padding : ℕ

abbrev pub no_intent : Intent
no_intent = record {
  ie_magic = 0;
  ie_type = 0;
  ie_flags = 0;
  ie_state = 0;
  ie_txn_id = 0;
  ie_target_ino = 0;
  ie_target_block = 0;
  ie_new_block = 0;
  ie_size = 0;
  ie_checksum = 0;
  ie_padding = 0;
}

-- `struct aetherfs_intent_runtime`: the slots, of which the first `il_count` are in use.
pub record IntentTable : Type 0 where
  pub il_intents : List Intent
  pub il_count : ℕ

-- The arguments say whether each of the four allocations succeeds.
unfoldable pub intent_init : Bool → Bool → Bool → Bool → Result IntentTable
intent_init intent_cache transaction_cache log intents =
    if intent_cache && (transaction_cache && (log && intents))
    then ok (record { il_intents = replicate intent_capacity no_intent; il_count = 0 })
    else err enomem

-- The checksum over the structure but its last four bytes, which are padding: the field that takes
-- the checksum is covered with its old value.
unfoldable pub intent_checksum : Intent → ℕ
intent_checksum i = kernel_crc32c 0xFFFFFFFF (
    encode (4 ∷ 4 ∷ 4 ∷ 4 ∷ 8 ∷ 8 ∷ 8 ∷ 8 ∷ 8 ∷ 4 ∷ []) (
      i.ie_magic ∷ i.ie_type ∷ i.ie_flags ∷ i.ie_state ∷ i.ie_txn_id ∷ i.ie_target_ino
      ∷ i.ie_target_block ∷ i.ie_new_block ∷ i.ie_size ∷ i.ie_checksum ∷ []))

-- A slot is filled. What the code does not write stays as the slot had it.
unfoldable pub fill_intent : Intent → ℕ → ℕ → ℕ → ℕ → ℕ → ℕ → Intent
fill_intent slot type target_ino old_block new_block size txn_id =
    let filled = record slot {
      ie_magic = intent_magic;
      ie_type = type;
      ie_flags = intent_pending;
      ie_txn_id = txn_id;
      ie_target_ino = target_ino;
      ie_target_block = old_block;
      ie_new_block = new_block;
      ie_size = size;
    } in
    record filled { ie_checksum = intent_checksum filled }

unfoldable pub intent_create : IntentTable → ℕ → ℕ → ℕ → ℕ → ℕ → ℕ → Rc × IntentTable
intent_create table type target_ino old_block new_block size txn_id =
    let slot = get_or table.il_intents table.il_count no_intent in
    if type == 0 || txn_id == 0
    then (err einval, table)
    else (if leb intent_capacity table.il_count then (err enospc, table) else (
      ok tt,
      record {
        il_intents =
            set table.il_intents table.il_count
              (fill_intent slot type target_ino old_block new_block size txn_id);
        il_count = table.il_count + 1;
      },
    ))

-- The loop over the first `n` slots that gives the chosen ones a new state, and their number.
unfoldable pub sweep : (Intent → Bool) → ℕ → ℕ → List Intent → List Intent × ℕ
sweep chosen flags zero intents = (intents, 0)
sweep chosen flags (suc n) [] = ([], 0)
sweep chosen flags (suc n) (intent ∷ intents) =
    let rest = sweep chosen flags n intents in
    if chosen intent
    then (record intent { ie_flags = flags } ∷ rest.0, rest.1 + 1)
    else (intent ∷ rest.0, rest.1)

-- Whether the loop of `aetherfs_intent_apply` does not pass over an intent.
abbrev pub is_to_apply : ℕ → Intent → Bool
is_to_apply txn_id intent = intent.ie_txn_id == txn_id && intent.ie_flags == intent_pending

unfoldable pub intent_apply : IntentTable → ℕ → ℕ × IntentTable
intent_apply table txn_id =
    let swept = sweep (is_to_apply txn_id) intent_applied table.il_count table.il_intents in
    (swept.1, record table { il_intents = swept.0 })

abbrev pub is_of : ℕ → Intent → Bool
is_of txn_id intent = intent.ie_txn_id == txn_id

unfoldable pub intent_commit : IntentTable → ℕ → Rc × IntentTable
intent_commit table txn_id =
    let swept = sweep (is_of txn_id) intent_committed table.il_count table.il_intents in
    (ok tt, record table { il_intents = swept.0 })

abbrev pub is_uncommitted : Intent → Bool
is_uncommitted intent = intent.ie_flags /= intent_committed

unfoldable pub intent_replay : IntentTable → Bool → Result ℕ × IntentTable
intent_replay table sb =
    let swept = sweep is_uncommitted intent_replayed table.il_count table.il_intents in
    if sb then (ok swept.1, record { il_intents = swept.0; il_count = 0 }) else (err einval, table)

-- `memmove` of `n` slots to the slot in front of them, from the slot after the first on.
unfoldable pub shift : ℕ → List Intent → List Intent
shift zero intents = intents
shift (suc n) [] = []
shift (suc n) (x ∷ []) = x ∷ []
shift (suc n) (x ∷ y ∷ intents) = y ∷ shift n (y ∷ intents)

unfoldable pub move_down : ℕ → ℕ → List Intent → List Intent
move_down zero n intents = shift n intents
move_down (suc i) n [] = []
move_down (suc i) n (x ∷ intents) = x ∷ move_down i n intents

abbrev pub is_done : ℕ → Intent → Bool
is_done txn_id intent = intent.ie_txn_id == txn_id && intent.ie_flags == intent_committed

-- The loop of `aetherfs_intent_clear` at slot `i`, with `n` slots of those in use left: the slots
-- after one that is removed move down over it.
unfoldable pub clear_from : ℕ → ℕ → ℕ → List Intent → List Intent × ℕ
clear_from txn_id zero i intents = (intents, 0)
clear_from txn_id (suc n) i intents =
    let removed = clear_from txn_id n i (move_down i n intents) in
    let passed = clear_from txn_id n (suc i) intents in
    if is_done txn_id (get_or intents i no_intent) then (removed.0, removed.1 + 1) else passed

unfoldable pub intent_clear : IntentTable → ℕ → ℕ × IntentTable
intent_clear table txn_id =
    let cleared = clear_from txn_id table.il_count 0 table.il_intents in
    (cleared.1, record { il_intents = cleared.0; il_count = table.il_count - cleared.1 })

-- `struct aetherfs_transaction`, less its checksum, which nothing sets.
pub record Transaction : Type 0 where
  pub xt_id : ℕ
  pub xt_sequence : ℕ
  pub xt_state : ℕ
  pub xt_intent_count : ℕ
  pub xt_data_mode : ℕ
  pub xt_start_time : ℕ
  pub xt_commit_time : ℕ
  pub xt_flags : ℕ

-- The transaction and the next value of the counter. `alloc` says whether memory was given, `now` is
-- the clock.
unfoldable pub transaction_begin : ℕ → Bool → Bool → ℕ → ℕ → Result (Transaction × ℕ)
transaction_begin counter sb alloc data_mode now =
    if not sb
    then err einval
    else (if not alloc
        then err enomem
        else ok (
          record {
            xt_id = counter;
            xt_sequence = counter;
            xt_state = 0;
            xt_intent_count = 0;
            xt_data_mode = data_mode;
            xt_start_time = u64 now;
            xt_commit_time = 0;
            xt_flags = 0;
          },
          u64 (counter + 1),
        ))

-- The result of creating the intent is not looked at.
unfoldable pub transaction_add_intent :
    IntentTable → Transaction → ℕ → ℕ → ℕ → ℕ → Transaction × IntentTable
transaction_add_intent table txn type ino old_block new_block =
    let created = intent_create table type ino old_block new_block 0 txn.xt_id in
    (record txn { xt_intent_count = u32 (txn.xt_intent_count + 1) }, created.1)

unfoldable pub transaction_commit : IntentTable → Transaction → ℕ → Transaction × IntentTable
transaction_commit table txn now =
    let committed = intent_commit table txn.xt_id in
    (record txn { xt_commit_time = u64 now; xt_state = 1 }, committed.1)
